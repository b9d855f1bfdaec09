-- ===== src/Service/Fanout/Subscribers.antt =====
-- The set of subscriptions, and the invariant that subscribing and unsubscribing keep.
use easyhooks.Prelude.{
  ℕ, ◌≤◌, ◌<◌, ◌==◌, true, false, Option, none, some, List, [], ◌∷◌, length, ◌≡◌, inl, inr, arith,
  if◌then◌else◌, Bool-cases, if_rule, ap, sym, ◌∙◌, subst,
}
use easyhooks.Config.{Config}
use easyhooks.Service.Streams.{StreamEvent}
use easyhooks.Service.Fanout.{
  Fanout, Outcome, fine, panicked, new_tenant_fanout, has, delete, subscribe, closed_at, stop_named,
  stop_reader, unsubscribe, receive, rest_of,
}

pub has-delete :
    (k : ℕ) (ids : List ℕ) (j : ℕ) → has (delete k ids) j ≡ (if k == j then false else has ids j)
unfolding has delete
has-delete k [] j = ground arith
has-delete k (i ∷ ids) j = ground (arith, has-delete k ids j)

-- A subscription has an id that was given out and a channel that is open, and no channel holds more
-- than its size.
pub record Inv (f : Fanout) : Type 0 where
  pub below : (id : ℕ) → has f.subs id ≡ true → id < f.next_sub_id
  pub opened : (id : ℕ) → has f.subs id ≡ true → (f.channels id).closed ≡ false
  pub within : (id : ℕ) → length (f.channels id).buffer ≤ f.cap

pub new-Inv : (cfg : Config) → Inv (new_tenant_fanout cfg)
unfolding new_tenant_fanout has
new-Inv cfg = record { below = λ id h. cc; opened = λ id h. cc; within = λ id. omega arith }

subscribe-below :
    (f : Fanout)
    → Inv f
    → (id : ℕ) → has (subscribe f).subs id ≡ true
    → id < (subscribe f).next_sub_id
unfolding subscribe has
subscribe-below f v id h = ground (arith, v.below id)

subscribe-opened :
    (f : Fanout)
    → Inv f
    → (id : ℕ) → has (subscribe f).subs id ≡ true
    → ((subscribe f).channels id).closed ≡ false
unfolding subscribe has
subscribe-opened f v id h = ground (arith, v.opened id)

subscribe-within :
    (f : Fanout) → Inv f → (id : ℕ) → length ((subscribe f).channels id).buffer ≤ (subscribe f).cap
unfolding subscribe has
subscribe-within f v id = ground (arith, v.within id)

pub subscribe-Inv : (f : Fanout) → Inv f → Inv (subscribe f)
subscribe-Inv f v = record {
  below = subscribe-below f v;
  opened = subscribe-opened f v;
  within = subscribe-within f v;
}

stop_named-Inv : (cancel : Option ℕ) (f : Fanout) → Inv f → Inv (stop_named cancel f)
stop_named-Inv none f v = v
stop_named-Inv (some r) f v = record { below = v.below; opened = v.opened; within = v.within }

stop_reader-Inv : (f : Fanout) → Inv f → Inv (stop_reader f)
unfolding stop_reader
stop_reader-Inv f v = if_rule Inv (length f.subs == 0) (λ _. stop_named-Inv f.cancel f v) (λ _. v)

abbrev fan_or : Fanout → Outcome Fanout → Fanout
fan_or f (fine g) = g
fan_or f panicked = f

pub fine-injective : {f g : Fanout} → fine f ≡ fine g → f ≡ g
fine-injective {f} e = ap (fan_or f) e

-- A subscription without the entry of the map, and with its channel closed.
abbrev pub left : ℕ → Fanout → Fanout
left id f = closed_at id (record f { subs = delete id f.subs })

-- The channel that is closed belongs to no subscription any more.
pub left-Inv : (id : ℕ) (f : Fanout) → Inv f → Inv (left id f)
left-Inv id f v = record {
  below = λ j h. v.below j (kept j h);
  opened = λ j h. ground (arith, has-delete id f.subs j, v.opened j);
  within = λ j. ground (arith, v.within j, v.within id);
}
  where
    kept : (j : ℕ) → has (delete id f.subs) j ≡ true → has f.subs j ≡ true
    kept j h = ground (arith, has-delete id f.subs j)

-- The function panics exactly on a channel that is closed already.
pub unsubscribe-open :
    (id : ℕ) (f : Fanout)
    → (f.channels id).closed ≡ false
    → unsubscribe id f ≡ fine (stop_reader (left id f))
unfolding unsubscribe
unsubscribe-open id f e = rw e

pub unsubscribe-closed :
    (id : ℕ) (f : Fanout) → (f.channels id).closed ≡ true → unsubscribe id f ≡ panicked
unfolding unsubscribe
unsubscribe-closed id f e = rw e

panicked-ne-fine : {g : Fanout} → panicked ≡ fine g → ⊥
panicked-ne-fine e = cc

pub unsubscribe-fine :
    (id : ℕ) (f g : Fanout)
    → unsubscribe id f ≡ fine g
    → ((f.channels id).closed ≡ false) × (g ≡ stop_reader (left id f))
unsubscribe-fine id f g e = elim (Bool-cases (f.channels id).closed) [
  | inl shut ↦ absurd (panicked-ne-fine (sym (unsubscribe-closed id f shut) ∙ e))
  | inr open? ↦ (open?, fine-injective (sym e ∙ unsubscribe-open id f open?))
]

pub unsubscribe-Inv : (id : ℕ) (f g : Fanout) → unsubscribe id f ≡ fine g → Inv f → Inv g
unsubscribe-Inv id f g e v =
    subst Inv (sym (unsubscribe-fine id f g e).1) (stop_reader-Inv (left id f) (left-Inv id f v))

length-rest_of : (es : List StreamEvent) → length (rest_of es) ≤ length es
length-rest_of [] = omega arith
length-rest_of (e ∷ es) = omega arith

receive-within :
    (id : ℕ) (f : Fanout)
    → Inv f
    → (j : ℕ) → length ((receive id f).channels j).buffer ≤ (receive id f).cap
unfolding receive
receive-within id f v j =
    ground (arith, v.within j, v.within id, length-rest_of (f.channels id).buffer)

receive-opened :
    (id : ℕ) (f : Fanout)
    → Inv f
    → (j : ℕ) → has (receive id f).subs j ≡ true
    → ((receive id f).channels j).closed ≡ false
unfolding receive
receive-opened id f v j h = ground (arith, v.opened j)

pub receive-Inv : (id : ℕ) (f : Fanout) → Inv f → Inv (receive id f)
receive-Inv id f v = record {
  below = unfold receive in v.below;
  opened = receive-opened id f v;
  within = receive-within id f v;
}
