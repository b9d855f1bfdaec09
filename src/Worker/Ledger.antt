-- ===== src/Worker/Ledger.antt =====
-- The entries that Redis has delivered to the worker, against those that it acknowledges.
use mathlib.Core.List.{append-nil}
use easyhooks.Prelude.{
  ℕ, ℤ, ◌≤◌, Bytes, List, [], ◌∷◌, ◌++◌, map, length, ◌≡◌, refl, sym, ap, ◌∙◌, arith, if_rule,
}
use easyhooks.Runtime.Errors.{is_context_done, Result, ok, err}
use easyhooks.Runtime.Events.{XaddArgs, XreadGroupArgs, Xmessage, Xstream, sent, xread_group, Event}
use easyhooks.Runtime.Env.{Env}
use easyhooks.Runtime.Exec.{State, Exec, ◌>>=◌}
use easyhooks.Runtime.Exec.Keeps.{Keeps}
use easyhooks.Config.{Config}
use easyhooks.Streams.Queue.{Reader, read, read_args, read_result, first_messages}
use easyhooks.Service.Streams.{UuidLib}
use easyhooks.Service.Processor.{redis_streams_handler}
use easyhooks.Service.Processor.Steps.{Stable, redis_streams_handler-Keeps}
use easyhooks.Worker.{Loop, handle_read, batch, round, rounds}
use easyhooks.Worker.Acks.{acked, batch-acked}
use easyhooks.Worker.Rounds.{batch-ok, batch-Keeps, rounds-Keeps}

abbrev pub ids : List Xmessage → List Bytes
ids ms = map (λ m. m.id) ms

abbrev pub all_ids : List Xstream → List Bytes
all_ids [] = []
all_ids (x ∷ xs) = ids x.messages ++ all_ids xs

abbrev pub reply_ids : Result (List Xstream) → List Bytes
reply_ids (ok streams) = all_ids streams
reply_ids (err e) = []

-- What Redis notes as delivered of a stream to the consumers of a group, in order: the entries of
-- its replies to their reads, and nothing by any other command. A read of one stream gives at most
-- that stream.
pub record Ledger {W : Type 0} (env : Env W) (stream group : Bytes) (delivered : W → List Bytes)
    : Type 0 where
  pub reads :
      (args : XreadGroupArgs) (w : W)
      → args.stream ≡ stream
      → args.group ≡ group
      → delivered (env.xread_group args w).1 ≡ delivered w ++ reply_ids (env.xread_group args w).0
  pub one_stream :
      (args : XreadGroupArgs) (w : W) (streams : List Xstream)
      → (env.xread_group args w).0 ≡ ok streams
      → length streams ≤ 1
  pub appends : (args : XaddArgs) (w : W) → delivered (env.xadd args w).1 ≡ delivered w
  pub pauses : (n : ℤ) (w : W) → delivered (env.wait n w).1 ≡ delivered w
  pub locks : (k v : Bytes) (ttl : ℤ) (w : W) → delivered (env.set_nx k v ttl w).1 ≡ delivered w
  pub acks :
      (of_stream of_group : Bytes) (acknowledged : List Bytes) (w : W)
      → delivered (env.xack of_stream of_group acknowledged w).1 ≡ delivered w

-- For every entry delivered an XACK was sent, in the order of the delivery.
abbrev pub Settled : {W : Type 0} → Bytes → Bytes → (W → List Bytes) → State W → Type 0
Settled stream group delivered s = acked stream group s.events ≡ delivered s.world

abbrev message_ids : Result (List Xmessage) → List Bytes
message_ids (ok ms) = ids ms
message_ids (err e) = []

first-all :
    (streams : List Xstream) → length streams ≤ 1 → ids (first_messages streams) ≡ all_ids streams
first-all [] h = refl
first-all (x ∷ []) h = sym (append-nil (ids x.messages))
first-all (x ∷ (y ∷ ys)) h = absurd (omega arith)

-- What `Read` hands on is what the reply had.
read_result-ids :
    (stream : Bytes) (r : Result (List Xstream))
    → ((streams : List Xstream) → r ≡ ok streams → length streams ≤ 1)
    → message_ids (read_result stream r) ≡ reply_ids r
unfolding read_result
read_result-ids stream (ok streams) one = first-all streams (one streams refl)
read_result-ids stream (err e) one = ground arith

module _ {W : Type 0} (env : Env W) (cfg : Config) (reader : Reader) (uuid : UuidLib)
    {delivered : W → List Bytes} (ledger : Ledger env reader.stream reader.group delivered) where
  -- The acknowledgements of the reader's stream and group.
  abbrev acks : List Event → List Bytes
  acks = acked reader.stream reader.group

  abbrev SettledHere : State W → Type 0
  SettledHere = Settled reader.stream reader.group delivered

  same-Stable : (d : List Bytes) → Stable env (λ s. delivered s.world ≡ d)
  same-Stable d = record {
    counts = λ m s h. h;
    appends = λ args s h. ledger.appends args s.world ∙ h;
    pauses = λ n s h. ledger.pauses n s.world ∙ h;
    locks = λ k v ttl s h. ledger.locks k v ttl s.world ∙ h;
  }

  batch-delivered :
      (ms : List Xmessage) (s : State W)
      → delivered (batch env cfg reader (redis_streams_handler env uuid cfg) ms s).1.world
        ≡ delivered s.world
  batch-delivered ms s =
      let stable = same-Stable (delivered s.world) in
      (batch-Keeps env cfg reader (redis_streams_handler env uuid cfg) stable
          (redis_streams_handler-Keeps stable cfg uuid)
          (λ stream group acknowledged s h. ledger.acks stream group acknowledged s.world ∙ h)
          ms).at
        s refl

  handled-Settled :
      (r : Result (List Xmessage)) (s : State W)
      → acks s.events ++ message_ids r ≡ delivered s.world
      → SettledHere (handle_read env cfg reader (redis_streams_handler env uuid cfg) r s).1
  unfolding handle_read ◌>>=◌
  handled-Settled (ok ms) s h =
      rw (batch-ok env cfg reader (redis_streams_handler env uuid cfg) ms s)
        (batch-acked env cfg reader uuid ms s ∙ h ∙ sym (batch-delivered ms s))
  handled-Settled (err e) s h =
      if_rule (λ (m : Exec W Loop). SettledHere (m s).1) (is_context_done e)
        (λ _. sym (append-nil (acks s.events)) ∙ h) (λ _. sym (append-nil (acks s.events)) ∙ h)

  round-Settled : Keeps (SettledHere) (round env cfg reader (redis_streams_handler env uuid cfg))
  unfolding round read acked ◌>>=◌
  round-Settled = record {
    at = λ s h.
        let reply = env.xread_group (read_args reader) s.world in
        handled-Settled (read_result reader.stream reply.0)
          (record { world = reply.1; events = sent (xread_group (read_args reader)) ∷ s.events })
          (ap (λ (x : List Bytes). x ++ message_ids (read_result reader.stream reply.0))
              (append-nil (acks s.events) ∙ h)
            ∙ ap (λ (x : List Bytes). delivered s.world ++ x)
                (read_result-ids reader.stream reply.0
                  (ledger.one_stream (read_args reader) s.world))
            ∙ sym (ledger.reads (read_args reader) s.world refl refl));
  }

  -- However long the worker runs, with its own handler, and whatever Redis answers: if an XACK was
  -- sent for every entry of the reader's stream that was delivered to its group before, so it is
  -- for every entry delivered since, in the order of the delivery and once, to that stream and
  -- group. Redis keeps the laws of `Ledger`.
  pub rounds-Settled :
      (n : ℕ) (s : State W)
      → Settled reader.stream reader.group delivered s
      → Settled reader.stream reader.group delivered
          (rounds env cfg reader (redis_streams_handler env uuid cfg) n s).1
  rounds-Settled n s h =
      (rounds-Keeps env cfg reader (redis_streams_handler env uuid cfg) round-Settled n).at s h
