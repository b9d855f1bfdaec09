-- ===== src/Handler/Socket/Live/Leaves.antt =====
-- How the forwarding ends.
use easyhooks.Prelude.{
  ℕ, zero, suc, ◌≤◌, ◌<◌, Bytes, Bool, true, false, Option, none, some, List, [], ◌∷◌, length, ◌≡◌,
  refl, sym, ap, ◌∙◌, arith,
}
use easyhooks.Runtime.Errors.{Error, Result, ok}
use easyhooks.Runtime.Exec.{State, Exec, ◌>>=◌}
use easyhooks.Service.Streams.{UuidLib, StreamEvent}
use easyhooks.Service.Fanout.{Fanout, fine, panicked, receive, rest_of, fan_out, reap, has}
use easyhooks.Service.Fanout.Subscribers.{Inv, unsubscribe-closed}
use easyhooks.Service.Fanout.Offers.{IsOrder}
use easyhooks.Service.Fanout.Reach.{Reach}
use easyhooks.Service.Fanout.Drops.{dropped-IsClosed_later}
use easyhooks.Handler.Socket.Live.{
  Forwarded, left, after_forward, take_event, choose, forward, close_forward,
}

-- The loop was left, at a fan-out in which the channel is closed.
pub record LeftClosed (id : ℕ) (r : Result Forwarded) : Type 0 where
  pub fanout : Fanout
  pub result : r ≡ ok (left fanout)
  pub closed : (fanout.channels id).closed ≡ true

receive-buffer :
    (id : ℕ) (f : Fanout) → ((receive id f).channels id).buffer ≡ rest_of (f.channels id).buffer
unfolding receive
receive-buffer id f = ground arith

receive-closed :
    (id : ℕ) (f : Fanout) → ((receive id f).channels id).closed ≡ (f.channels id).closed
unfolding receive
receive-closed id f = ground arith

module _ {W : Type 0} (uuid : UuidLib) (tenant_id : Bytes)
    (write_message : Bytes → W → Option Error × W) (done : W → Bool × W) where
  abbrev run : ℕ → ℕ → Fanout → Exec W Forwarded
  run = forward uuid tenant_id write_message done

  -- The turns after an event.
  abbrev Again : ℕ → ℕ → Fanout → Type 0
  Again n id f =
      (s : State W)
      → length ((receive id f).channels id).buffer < n
      → LeftClosed id (run n id (receive id f) s).0

  -- More turns than events leave the loop of a closed channel.
  forward-LeftClosed :
      (n id : ℕ) (f : Fanout) (s : State W)
      → (f.channels id).closed ≡ true
      → length (f.channels id).buffer < n
      → LeftClosed id (run n id f s).0
  unfolding forward ◌>>=◌
  forward-LeftClosed zero id f s c short = absurd (omega arith)
  forward-LeftClosed (suc n) id f s c short =
      by_done (λ s' less. forward-LeftClosed n id (receive id f) s' (receive-closed id f ∙ c) less)
        (done s.world).0 (record s { world = (done s.world).1 })
    where
      fewer :
          (e : StreamEvent) (es : List StreamEvent)
          → e ∷ es ≡ (f.channels id).buffer
          → length ((receive id f).channels id).buffer < n
      fewer e es b = omega (
        arith,
        ap (λ (x : List StreamEvent). length x) (receive-buffer id f ∙ ap rest_of (sym b)),
        ap (λ (x : List StreamEvent). length x) b,
      )

      by_write :
          Again n id f
          → (e : StreamEvent) (es : List StreamEvent) (o : Option Error) (s : State W)
          → e ∷ es ≡ (f.channels id).buffer
          → LeftClosed id
              (after_forward uuid tenant_id write_message done
                (receive id f)
                (run n id (receive id f))
                o
                s).0
      by_write again e es (some x) s b =
          unfold after_forward in
          record { fanout = receive id f; result = refl; closed = receive-closed id f ∙ c }
      by_write again e es none s b = unfold after_forward in again _ (fewer e es b)

      by_take :
          Again n id f
          → (es : List StreamEvent) (closed : Bool) (s : State W) → es ≡ (f.channels id).buffer
          → closed ≡ true
          → LeftClosed id
              (take_event uuid tenant_id write_message done id f (run n id) es closed s).0
      by_take again [] true s b e =
          unfold take_event in record { fanout = f; result = refl; closed = c }
      by_take again [] false s b e = cc
      by_take again (e ∷ es) closed s b t =
          unfold take_event in by_write again e es (write_message e.payload s.world).0 _ b

      by_done :
          Again n id f
          → (b : Bool) (s : State W)
          → LeftClosed id
              (choose uuid tenant_id write_message done f
                (take_event uuid tenant_id write_message done id f
                  (run n id)
                  (f.channels id).buffer
                  (f.channels id).closed)
                b
                s).0
      by_done again true s = record { fanout = f; result = refl; closed = c }
      by_done again false s = by_take again (f.channels id).buffer (f.channels id).closed s refl c

  -- The forwarding of a subscription that `fanOut` dropped leaves its loop after at most one turn
  -- more than its channel holds events, however the writes and the choices of the select turn out,
  -- and its deferred call of `unsubscribe` panics. The drop was in a fan-out with the invariant;
  -- anything may have happened to the fan-out since.
  pub dropped-forward :
      (event : StreamEvent) (order dead : List ℕ) (f g h k : Fanout) (id n : ℕ) (s : State W)
      → Inv f
      → IsOrder f.subs order
      → has f.subs id ≡ true
      → f.cap ≤ length (f.channels id).buffer
      → fan_out event order f ≡ fine (g, dead)
      → reap dead g ≡ fine h
      → Reach h k
      → length (k.channels id).buffer < n
      → (after : Forwarded) × ((run n id k s).0 ≡ ok after) × (close_forward id after ≡ panicked)
  unfolding close_forward
  dropped-forward event order dead f g h k id n s v o m full offering reaping later short =
      let closed =
        dropped-IsClosed_later event order dead f g h k id v o m full offering reaping later in
      let end = forward-LeftClosed n id k s closed.1 short in
      (left end.fanout, end.result, unsubscribe-closed id end.fanout end.closed)
