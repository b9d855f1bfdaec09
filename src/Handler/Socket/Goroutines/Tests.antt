-- ===== src/Handler/Socket/Goroutines/Tests.antt =====
-- A client that leaves while a ping is being written and an event arrives.
use easyhooks.Prelude.{◌≤◌, true, false, some, List, [], ◌∷◌, length, ◌≡◌, ◌⊎◌, refl}
use easyhooks.Handler.Socket.Goroutines.{
  closed, returned, pinging, stopped, sending, ended, read, fail_read, close, return_handler, tick,
  pinged, take, sent, unsubscribe, close_done, handler_next, heartbeat_next, forwarder_next,
  Connection, opened, Move, handles, beats, forwards, step, run_all,
}
use easyhooks.Handler.Socket.Goroutines.Leaving.{AllOver, Goes, closed-AllOver}

-- Both goroutines write, and the connection is closed meanwhile.
abbrev hung_up : Connection
hung_up = record { handler = closed; heartbeat = pinging false; forwarder = sending false }

test_overlap :
    run_all
      (beats tick ∷ forwards take ∷ handles read ∷ handles fail_read ∷ handles close ∷ [])
      opened
    ≡ some hung_up
unfolding run_all step handler_next heartbeat_next forwarder_next
test_overlap = refl

abbrev ending : List Move
ending =
    forwards (sent true)
    ∷ beats (pinged true)
    ∷ forwards take
    ∷ beats tick
    ∷ handles return_handler
    ∷ forwards (sent false)
    ∷ forwards unsubscribe
    ∷ beats (pinged false)
    ∷ forwards close_done
    ∷ []

abbrev over : Connection
over = record { handler = returned; heartbeat = stopped; forwarder = ended }

closed-AllOver_example : (length ending ≤ 9) × (AllOver over ⊎ Goes over)
closed-AllOver_example = closed-AllOver hung_up over ending refl ran
  where
    ran : run_all ending hung_up ≡ some over
    ran =
        unfold run_all in
        unfold step in unfold handler_next in unfold heartbeat_next in unfold forwarder_next in refl
