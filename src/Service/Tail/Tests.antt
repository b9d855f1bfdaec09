-- ===== src/Service/Tail/Tests.antt =====
-- A tail over two replies, with the theorems applied there.
use easyhooks.Prelude.{codes, List, [], ◌∷◌, take, ◌≡◌, arith}
use easyhooks.Runtime.Errors.{redis_nil, canceled, Result, ok, err}
use easyhooks.Runtime.Events.{text, Xmessage, Xstream}
use easyhooks.Service.Streams.{history_events}
use easyhooks.Service.Tail.{tail, start_tail}
use easyhooks.Service.Tail.Order.{arrivals, tail-arrivals}
use easyhooks.Service.Tail.Resume.{last_id, tail-last_id}
use easyhooks.Service.Tail.History.{oldest_first, history_events-tail}

abbrev first : Xmessage
first = record { id = codes "1-0"; values = (codes "payload", text (codes "{}")) ∷ [] }

abbrev malformed : Xmessage
malformed = record { id = codes "2-0"; values = [] }

-- A reply with both, a timeout, the end of the context.
abbrev replies : List (Result (List Xstream))
replies =
    ok (record { name = codes "stream:tenant:t"; messages = first ∷ malformed ∷ [] } ∷ [])
    ∷ err redis_nil
    ∷ err canceled
    ∷ []

tail-arrivals_example : (tail replies (start_tail (codes "$") 5)).sent ≡ take 5 (arrivals replies)
tail-arrivals_example = tail-arrivals replies (codes "$") 5

history_events-tail_example :
    history_events (malformed ∷ first ∷ [])
    ≡ (tail
        (ok (record { name = codes "s"; messages = oldest_first (malformed ∷ first ∷ []) } ∷ [])
          ∷ [])
        (start_tail (codes "$") 2)).sent
history_events-tail_example =
    history_events-tail (malformed ∷ first ∷ []) (codes "s") (codes "$") 2
      (unfold oldest_first in omega arith)

tail-last_id_example :
    (tail replies (start_tail (codes "$") 5)).current_id
    ≡ last_id (codes "$") (take 6 (arrivals replies))
tail-last_id_example = tail-last_id replies (codes "$") 5
