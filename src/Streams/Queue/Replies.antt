-- ===== src/Streams/Queue/Replies.antt =====
-- What a read, and the creation of the group, make of each reply.
use easyhooks.Prelude.{
  Bytes, codes, contains, true, false, List, [], ◌∷◌, ◌++◌, ◌≡◌, refl, ◌↔◌, arith, if_rule,
}
use easyhooks.Runtime.Errors.{
  Error, error_text, is_redis_nil, is_context_done, wrapped, Result, ok, err, err-injective,
}
use easyhooks.Runtime.Events.{Xmessage, Xstream, sent, xread_group}
use easyhooks.Runtime.Env.{Env}
use easyhooks.Runtime.Exec.{State, ◌>>=◌}
use easyhooks.Streams.Queue.{
  Reader, read_result, first_messages, read, read_args, ensure_group, group_result,
}

-- What `Read` promises of a reply: the first stream's messages; none on a timeout; the error that
-- ended the context, as it is; and any other error wrapped.
pub data ReadAs (stream : Bytes) : Result (List Xstream) → Result (List Xmessage) → Type 0 where
  delivered : (streams : List Xstream) → ReadAs stream (ok streams) (ok (first_messages streams))
  timed_out : {e : Error} → is_redis_nil e ≡ true → ReadAs stream (err e) (ok [])
  ended :
      {e : Error}
      → is_redis_nil e ≡ false
      → is_context_done e ≡ true
      → ReadAs stream (err e) (err e)
  failed :
      {e : Error}
      → is_redis_nil e ≡ false
      → is_context_done e ≡ false
      → ReadAs stream (err e) (err (wrapped (codes "XREADGROUP " ++ stream) e))

read_result-ReadAs :
    (stream : Bytes) (r : Result (List Xstream)) → ReadAs stream r (read_result stream r)
unfolding read_result
read_result-ReadAs stream (ok streams) = delivered streams
read_result-ReadAs stream (err e) =
    if_rule (ReadAs stream (err e)) (is_redis_nil e) timed_out
      (λ n. if_rule (ReadAs stream (err e)) (is_context_done e) (ended n) (failed n))

-- The worker leaves its loop on an error that ends the context, and on no other: `Read` neither
-- hides such an error nor makes another one look like it.
pub read_result-is_context_done :
    (stream : Bytes) (r : Result (List Xstream)) (e : Error)
    → read_result stream r ≡ err e
    → (f : Error) × (r ≡ err f) × (is_redis_nil f ≡ false) × (is_context_done e ≡ is_context_done f)
unfolding read_result
read_result-is_context_done stream (ok streams) e h = cc
read_result-is_context_done stream (err f) e h = (f, refl, ground arith, ground arith)

group_result-ok :
    (stream group : Bytes) (r : Result Unit)
    → (group_result stream group r ≡ ok tt)
      ↔ ((e : Error) → r ≡ err e → contains (error_text e) (codes "BUSYGROUP") ≡ true)
unfolding group_result
group_result-ok stream group (ok tt) = (λ h e f. cc, λ h. refl)
group_result-ok stream group (err e) =
    (λ h f g. rw (← err-injective g) (ground arith), λ h. ground (arith, h e refl))

module _ {W : Type 0} (env : Env W) (s : State W) where
  -- A read sends one XREADGROUP for entries that no consumer of the group has had, and its result
  -- stands to the reply as `ReadAs` says.
  pub read-ReadAs :
      (r : Reader)
      → ReadAs r.stream (env.xread_group (read_args r) s.world).0 (read env r s).0
        × ((read env r s).1 ≡ record {
          world = (env.xread_group (read_args r) s.world).1;
          events = sent (xread_group (read_args r)) ∷ s.events;
        })
  unfolding read ◌>>=◌
  read-ReadAs r = (read_result-ReadAs r.stream (env.xread_group (read_args r) s.world).0, refl)

  -- Ensuring the group succeeds exactly if its creation, at the end of the stream, succeeds or
  -- fails with an error that says the group exists.
  pub ensure_group-ok :
      (stream group : Bytes)
      → ((ensure_group env stream group s).0 ≡ ok tt) ↔ (
          (e : Error)
          → (env.group_create stream group (codes "$") s.world).0 ≡ err e
          → contains (error_text e) (codes "BUSYGROUP") ≡ true)
  unfolding ensure_group ◌>>=◌
  ensure_group-ok stream group =
      group_result-ok stream group (env.group_create stream group (codes "$") s.world).0
