-- ===== src/Worker/Fake.antt =====
-- What the Redis in memory keeps of the laws that the worker's loop rests on.
use mathlib.Core.List.{append-nil}
use easyhooks.Prelude.{
  ℕ, ◌≤◌, Bytes, Option, none, some, List, [], ◌∷◌, ◌++◌, length, ◌≡◌, refl, sym, ap, arith,
}
use easyhooks.Runtime.Events.{XaddArgs, Xstream}
use easyhooks.Runtime.Errors.{Error, canceled, Result, ok, err, ok-injective}
use easyhooks.Runtime.Fake.{Fake, append, set_if, find_key, served, served_ids, ended, fake}
use easyhooks.Worker.Ledger.{Ledger, reply_ids}
use easyhooks.Worker.Stops.{Lasts}

abbrev Untouched : Fake → Fake → Type 0
Untouched w w' = (w'.delivered ≡ w.delivered) × (w'.reads_left ≡ w.reads_left)

append-Untouched : (o : Option Error) (args : XaddArgs) (w : Fake) → Untouched w (append o args w).1
append-Untouched none args w = (refl, refl)
append-Untouched (some e) args w = (refl, refl)

set_if-Untouched : (o : Option Bytes) (k v : Bytes) (w : Fake) → Untouched w (set_if o k v w).1
set_if-Untouched none k v w = (refl, refl)
set_if-Untouched (some old) k v w = (refl, refl)

served-ids : (r : Result (List Xstream)) → served_ids r ≡ reply_ids (served r)
served-ids (ok []) = refl
served-ids (ok (x ∷ xs)) = sym (append-nil _)
served-ids (err e) = refl

served-one :
    (r : Result (List Xstream)) (streams : List Xstream)
    → served r ≡ ok streams
    → length streams ≤ 1
served-one (ok []) streams e = rw (← ok-injective e) (omega arith)
served-one (ok (x ∷ xs)) streams e = rw (← ok-injective e) (omega arith)
served-one (err x) streams e = cc

pub fake-Ledger : (stream group : Bytes) → Ledger fake stream group (λ w. w.delivered)
unfolding fake
fake-Ledger stream group = record {
  reads =
      λ args w of_stream of_group. ap (λ (x : List Bytes). w.delivered ++ x) (served-ids w.inbox);
  one_stream = λ args w streams e. served-one w.inbox streams e;
  appends = λ args w. (append-Untouched w.write_error args w).0;
  pauses = λ n w. refl;
  locks = λ k v ttl w. (set_if-Untouched (find_key k w.keys) k v w).0;
  acks = λ of_stream of_group acknowledged w. refl;
}

pub fake-Lasts : Lasts fake (λ w. w.reads_left)
unfolding fake
fake-Lasts = record {
  ends = λ w e. (canceled, ap (λ (n : ℕ). ended n w.interrupted) e);
  reads = λ args w. omega arith;
  appends = λ args w. omega (arith, (append-Untouched w.write_error args w).1);
  pauses = λ n w. omega arith;
  locks = λ k v ttl w. omega (arith, (set_if-Untouched (find_key k w.keys) k v w).1);
  acks = λ stream group ids w. omega arith;
}
