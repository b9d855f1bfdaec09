-- ===== src/Runtime/Fake.antt =====
-- A small Redis in memory with a clock, at which the theorems are applied to concrete inputs.
use easyhooks.Prelude.{
  ℕ, zero, suc, map, ◌-◌, ◌^◌, leb_ℤ, min_int64, ◌&&◌, ℤ, pos, Bytes, codes, bytes_eq, Bool, true,
  false, Option, none, some, List, [], ◌∷◌, ◌++◌, if◌then◌else◌, length,
}
use easyhooks.Runtime.Errors.{Error, redis_nil, canceled, message, Result, ok, err}
use easyhooks.Runtime.Events.{XaddArgs, Xmessage, Xstream, GroupInfo}
use easyhooks.Runtime.Env.{Env}
use easyhooks.Runtime.Exec.{State}

pub record Fake : Type 0 where
  pub keys : List (Bytes × Bytes)
  -- The entries of all streams, newest first.
  pub entries : List XaddArgs
  -- The replies to reads of the streams and their groups.
  pub inbox : Result (List Xstream)
  pub history : Result (List Xmessage)
  pub groups : Result (List GroupInfo)
  -- What the next writes to streams meet, and what ends the context.
  pub write_error : Option Error
  pub interrupted : Option Error
  pub clock : ℤ
  -- The entries handed out, and how many more reads the context lasts.
  pub delivered : List Bytes
  pub reads_left : ℕ
  -- The reply to INFO memory.
  pub memory : Bytes

unfoldable pub find_key : Bytes → List (Bytes × Bytes) → Option Bytes
find_key k [] = none
find_key k ((j, v) ∷ m) = if bytes_eq j k then some v else find_key k m

unfoldable pub drop_key : Bytes → List (Bytes × Bytes) → List (Bytes × Bytes)
drop_key k [] = []
drop_key k ((j, v) ∷ m) = let rest = drop_key k m in if bytes_eq j k then rest else (j, v) ∷ rest

abbrev put : Bytes → Bytes → Fake → Fake
put k v w = record w { keys = (k, v) ∷ w.keys }

abbrev pub set_if : Option Bytes → Bytes → Bytes → Fake → Result Bool × Fake
set_if none k v w = (ok true, put k v w)
set_if (some old) k v w = (ok false, w)

abbrev pub or_nil : Option Bytes → Result Bytes
or_nil none = err redis_nil
or_nil (some v) = ok v

abbrev pub number_of : Option Bytes → ℤ
number_of none = pos 0
number_of (some v) = pos 1

abbrev pub append : Option Error → XaddArgs → Fake → Result Bytes × Fake
append (some e) args w = (err e, w)
append none args w = (ok (codes "1-0"), record w { entries = args ∷ w.entries })

-- A read of one stream gives that stream.
abbrev pub served : Result (List Xstream) → Result (List Xstream)
served (ok (x ∷ xs)) = ok (x ∷ [])
served r = r

abbrev pub served_ids : Result (List Xstream) → List Bytes
served_ids (ok (x ∷ xs)) = map (λ m. m.id) x.messages
served_ids r = []

abbrev pub ended : ℕ → Option Error → Option Error
ended zero e = some canceled
ended (suc n) e = e

unfoldable pub fake : Env Fake
unfolding find_key drop_key
fake = record {
  set_nx = λ k v ttl w. set_if (find_key k w.keys) k v w;
  set = λ k v ttl w. (ok tt, put k v w);
  get = λ k w. (or_nil (find_key k w.keys), w);
  del = λ k w. (ok (number_of (find_key k w.keys)), record w { keys = drop_key k w.keys });
  exists = λ k w. (ok (number_of (find_key k w.keys)), w);
  xadd = λ args w. append w.write_error args w;
  group_create = λ stream group start w. (err (message (codes "BUSYGROUP exists")), w);
  xtrim_max_len_approx = λ stream n w. (ok (pos 0), w);
  xread_group = λ args w. (
    served w.inbox,
    record w {
      inbox = err redis_nil;
      delivered = w.delivered ++ served_ids w.inbox;
      reads_left = w.reads_left - 1;
    },
  );
  xack = λ stream group ids w. (ok (pos (length ids)), w);
  xinfo_groups = λ stream w. (w.groups, w);
  xrev_range = λ stream stop start n w. (w.history, w);
  ping = λ w. (ok tt, w);
  info = λ section w. (ok w.memory, w);
  wait = λ n w. (w.interrupted, w);
  context_err = λ w. ended w.reads_left w.interrupted;
  float_to_int64 = λ a. if leb_ℤ a (pos (2 ^ 63 - 1)) && leb_ℤ min_int64 a then a else min_int64;
  now = λ w. (w.clock, w);
  random = λ n w. (ok (codes "random bytes"), w);
  new_uuid = λ w. (codes "0123456789abcdef", w);
  bcrypt_hash = λ raw w. (ok (codes "$2a$" ++ raw), w);
}

-- Nothing stored, nothing to read, no failure.
abbrev pub quiet : Fake
quiet = record {
  keys = [];
  entries = [];
  inbox = err redis_nil;
  history = ok [];
  groups = ok [];
  write_error = none;
  interrupted = none;
  clock = pos 1000;
  delivered = [];
  reads_left = 100;
  memory = [];
}

abbrev pub start : Fake → State Fake
start w = record { world = w; events = [] }
