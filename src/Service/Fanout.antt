-- ===== src/Service/Fanout.antt =====
-- go-api/internal/service/fanout.go: the fan-out of a tenant's events to its subscribers.
-- A channel is named by the id of its subscription, which is never reused; its consumer keeps it
-- after the subscription has left the map. What one holder of the lock does is one operation, so
-- `fan_out`, which gives the lock back in between, is two: `offer_all` and `reap`. A panic, of a
-- send on a closed channel or of a second close, is an outcome.
pub mod Subscribers
pub mod Offers
pub mod Reach
pub mod Drops
pub mod Manager
pub mod Reader
pub mod Example
mod Tests
use easyhooks.Prelude.{
  ℕ, suc, ◌+◌, ℤ, pos, pos_part, leb_ℤ, ltb, ◌==◌, Bool, true, false, not, Option, none, some, List,
  [], ◌∷◌, ◌++◌, length, if◌then◌else◌, Bytes, codes, map,
}
use easyhooks.Config.{Config}
use easyhooks.Runtime.Events.{Metric, web_socket_subscriber_dropped_total}
use easyhooks.Service.Streams.{StreamEvent, UuidLib}

pub record Channel : Type 0 where
  pub buffer : List StreamEvent
  pub closed : Bool

-- The map of subscriptions is the list of their ids, the channels are all that were ever made, and
-- the readers are those goroutines that nobody has cancelled. `cancel` cancels the reader that it
-- names.
pub record Fanout : Type 0 where
  pub cap : ℕ
  pub subs : List ℕ
  pub next_sub_id : ℕ
  pub channels : ℕ → Channel
  pub readers : List ℕ
  pub next_reader : ℕ
  pub cancel : Option ℕ

pub data Outcome (A : Type 0) : Type 0 where
  fine : A → Outcome A
  panicked : Outcome A

abbrev pub fallback_fanout_buffer_size : ℕ
fallback_fanout_buffer_size = 100

-- The size of a channel, by the setting.
pub buffer_size : Config → ℕ
buffer_size cfg =
    if leb_ℤ cfg.ws_fanout_buffer_size (pos 0)
    then fallback_fanout_buffer_size
    else pos_part cfg.ws_fanout_buffer_size

abbrev pub new_channel : Channel
new_channel = record { buffer = []; closed = false }

pub new_tenant_fanout : Config → Fanout
unfolding buffer_size
new_tenant_fanout cfg = record {
  cap = buffer_size cfg;
  subs = [];
  next_sub_id = 0;
  channels = λ id. new_channel;
  readers = [];
  next_reader = 0;
  cancel = none;
}

pub has : List ℕ → ℕ → Bool
has [] id = false
has (j ∷ ids) id = let rest = has ids id in if j == id then true else rest

-- delete(m, id)
pub delete : ℕ → List ℕ → List ℕ
delete id [] = []
delete id (j ∷ ids) = let rest = delete id ids in if j == id then rest else j ∷ rest

abbrev pub write : (ℕ → Channel) → ℕ → Channel → ℕ → Channel
write channels id c j = if j == id then c else channels j

-- go f.readerLoop(ctx)
pub start_reader : Fanout → Fanout
start_reader f = record f {
  readers = f.next_reader ∷ f.readers;
  next_reader = suc f.next_reader;
  cancel = some f.next_reader;
}

-- `Subscribe`; the subscription's id is the old `next_sub_id`.
pub subscribe : Fanout → Fanout
unfolding start_reader
subscribe f =
    let f' = record f {
      subs = f.next_sub_id ∷ f.subs;
      next_sub_id = suc f.next_sub_id;
      channels = write f.channels f.next_sub_id new_channel;
    } in
    if length f'.subs == 1 then start_reader f' else f'

-- The channel of a subscription, closed.
abbrev pub closed_at : ℕ → Fanout → Fanout
closed_at id f = record f {
  channels = write f.channels id (record (f.channels id) { closed = true });
}

-- close(ch)
pub close : ℕ → Fanout → Outcome Fanout
close id f = if (f.channels id).closed then panicked else fine (closed_at id f)

-- `if len(f.subs) == 0 && f.cancel != nil { f.cancel(); f.cancel = nil }`
abbrev pub stop_named : Option ℕ → Fanout → Fanout
stop_named none f = f
stop_named (some r) f = record f { readers = delete r f.readers; cancel = none }

pub stop_reader : Fanout → Fanout
unfolding delete
stop_reader f = if length f.subs == 0 then stop_named f.cancel f else f

abbrev pub and_then : {A B : Type 0} → Outcome A → (A → Outcome B) → Outcome B
and_then (fine a) f = f a
and_then panicked f = panicked

-- The function that `Subscribe` returns.
pub unsubscribe : ℕ → Fanout → Outcome Fanout
unfolding delete close stop_reader
unsubscribe id f =
    and_then (close id (record f { subs = delete id f.subs })) (λ f'. fine (stop_reader f'))

pub record Offered : Type 0 where
  pub channels : ℕ → Channel
  pub dead : List ℕ

-- A send to a channel that has room.
abbrev pub pushed : StreamEvent → Channel → Channel
pushed event c = record { buffer = c.buffer ++ event ∷ []; closed = false }

-- `select { case ch <- event: default: … }`
pub offer : StreamEvent → ℕ → ℕ → Offered → Outcome Offered
offer event cap id o =
    if (o.channels id).closed
    then panicked
    else if ltb (length (o.channels id).buffer) cap
    then fine (record o { channels = write o.channels id (pushed event (o.channels id)) })
    else fine (record o { dead = o.dead ++ id ∷ [] })

-- The loop of `fanOut` over the subscriptions, in the order in which the map gives them.
pub offer_all : StreamEvent → ℕ → List ℕ → Offered → Outcome Offered
offer_all event cap [] o = fine o
offer_all event cap (id ∷ ids) o = and_then (offer event cap id o) (offer_all event cap ids)

-- The first part of `fanOut`, under the read lock: the fan-out with the event in the channels that
-- had room, and the subscriptions whose channel was full.
pub fan_out : StreamEvent → List ℕ → Fanout → Outcome (Fanout × List ℕ)
unfolding offer_all offer
fan_out event order f =
    and_then (offer_all event f.cap order (record { channels = f.channels; dead = [] }))
      (λ o. fine (record f { channels = o.channels }, o.dead))

-- The second part, under the write lock: each dead subscription that is still there is closed and
-- deleted.
pub reap : List ℕ → Fanout → Outcome Fanout
unfolding has delete close
reap [] f = fine f
reap (id ∷ dead) f =
    if has f.subs id
    then and_then (close id f) (λ f'. reap dead (record f' { subs = delete id f'.subs }))
    else reap dead f

-- The consumer takes the oldest event of its channel.
abbrev pub rest_of : List StreamEvent → List StreamEvent
rest_of [] = []
rest_of (e ∷ es) = es

unfoldable pub receive : ℕ → Fanout → Fanout
receive id f =
    let c = f.channels id in
    record f { channels = write f.channels id (record c { buffer = rest_of c.buffer }) }

-- What `fanOut` counts: each subscription that it found full.
pub dropped_metrics : UuidLib → Bytes → List ℕ → List Metric
dropped_metrics uuid tenant_id dead =
    map (λ id. web_socket_subscriber_dropped_total (uuid.to_string tenant_id) (codes "buffer_full"))
      dead
