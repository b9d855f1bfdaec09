-- ===== src/Streams/Queue/Tests.antt =====
-- The queue's theorems at a server whose group exists, and whose reads end with the context.
use easyhooks.Prelude.{pos, codes}
use easyhooks.Runtime.Errors.{canceled, err}
use easyhooks.Runtime.Fake.{Fake, quiet}
use easyhooks.Streams.Queue.{Reader, new_reader}

abbrev reader : Reader
reader = new_reader (codes "events:in") (codes "webhook-workers") (codes "host") (pos 5000) (pos 0)

abbrev ending : Fake
ending = record quiet { inbox = err canceled }
