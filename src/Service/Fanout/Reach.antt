-- ===== src/Service/Fanout/Reach.antt =====
-- All interleavings of what the holders of the lock do, and what they keep.
use easyhooks.Prelude.{
  ℕ, ◌≤◌, ◌<◌, ltb, false, List, [], ◌∷◌, length, length-append, ◌≡◌, ◌≢◌, refl, ◌⊎◌, inl, inr,
  arith, if◌then◌else◌, Bool-cases, sym, ◌∙◌, subst, if_rule,
}
use easyhooks.Config.{Config}
use easyhooks.Service.Streams.{StreamEvent}
use easyhooks.Service.Fanout.{
  Fanout, fine, panicked, new_tenant_fanout, has, subscribe, unsubscribe, fan_out, reap, receive,
  pushed,
}
use easyhooks.Service.Fanout.Subscribers.{
  Inv, new-Inv, subscribe-Inv, unsubscribe-Inv, receive-Inv, left, left-Inv, fine-injective,
}
use easyhooks.Service.Fanout.Offers.{IsOrder, HasOffered, fan_out-Delivers, fan_out-HasOffered}

-- `reap` where it does not panic.
abbrev pub reaped_one : ℕ → Fanout → Fanout
reaped_one id f = if has f.subs id then left id f else f

unfoldable pub reaped : List ℕ → Fanout → Fanout
reaped [] f = f
reaped (id ∷ dead) f = reaped dead (reaped_one id f)

pub reaped_one-Inv : (id : ℕ) (f : Fanout) → Inv f → Inv (reaped_one id f)
reaped_one-Inv id f v = if_rule Inv (has f.subs id) (λ _. left-Inv id f v) (λ _. v)

-- A subscription that is still there has an open channel, so reaping never panics.
pub reap-reaped : (dead : List ℕ) (f : Fanout) → Inv f → reap dead f ≡ fine (reaped dead f)
unfolding reap reaped
reap-reaped [] f v = refl
reap-reaped (id ∷ dead) f v = elim (Bool-cases (has f.subs id)) [
  | inl there ↦ rw (there, v.opened id there) (reap-reaped dead (left id f) (left-Inv id f v))
  | inr gone ↦ rw gone (reap-reaped dead f v)
]

pub reaped-Inv : (dead : List ℕ) (f : Fanout) → Inv f → Inv (reaped dead f)
unfolding reaped
reaped-Inv [] f v = v
reaped-Inv (id ∷ dead) f v = reaped-Inv dead (reaped_one id f) (reaped_one-Inv id f v)

-- One of the lock's holders, or a consumer, does its part. `offers` and `reaps` are the two parts
-- of `fan_out`; other steps may come between them, and the lists that are reaped may be any.
pub data Step (f : Fanout) : Fanout → Type 0 where
  joins : Step f (subscribe f)
  leaves : {g : Fanout} (id : ℕ) → unsubscribe id f ≡ fine g → Step f g
  offers :
      {g : Fanout} (event : StreamEvent) (order dead : List ℕ)
      → IsOrder f.subs order
      → fan_out event order f ≡ fine (g, dead)
      → Step f g
  reaps : {g : Fanout} (dead : List ℕ) → reap dead f ≡ fine g → Step f g
  receives : (id : ℕ) → Step f (receive id f)

pub data Reach (f : Fanout) : Fanout → Type 0 where
  here : Reach f f
  next : {g h : Fanout} → Reach f g → Step g h → Reach f h

module _ {event : StreamEvent} {f g : Fanout} {dead : List ℕ} (o : HasOffered event f g dead) where
  offered-closed : (id : ℕ) → has f.subs id ≡ false → g.channels id ≡ f.channels id
  offered-closed id gone = o.delivers.others id gone

  channel-cases :
      (id : ℕ)
      → (g.channels id ≡ f.channels id)
        ⊎ ((length (f.channels id).buffer < f.cap) × (g.channels id ≡ pushed event (f.channels id)))
  channel-cases id = elim (Bool-cases (has f.subs id)) [
    | inl there ↦ elim (Bool-cases (ltb (length (f.channels id).buffer) f.cap)) [
      | inl room ↦ inr (ground arith, o.delivers.taken id there (ground arith))
      | inr full ↦ inl (o.delivers.refused id there (ground arith))
    ]
    | inr gone ↦ inl (o.delivers.others id gone)
  ]

  offered-Inv : Inv f → Inv (record f { channels = g.channels })
  offered-Inv v = record {
    below = v.below;
    opened = λ id there. ground (arith, channel-cases id, v.opened id there);
    within = λ id. within_at id (channel-cases id);
  }
    where
      within_at :
          (id : ℕ)
          → (g.channels id ≡ f.channels id)
            ⊎ ((length (f.channels id).buffer < f.cap)
                × (g.channels id ≡ pushed event (f.channels id)))
          → length (g.channels id).buffer ≤ f.cap
      within_at id (inl e) = rw e (v.within id)
      within_at id (inr (room, e)) =
          rw (e, length-append (f.channels id).buffer (event ∷ [])) (omega arith)

pub Step-Inv : {f g : Fanout} → Step f g → Inv f → Inv g
Step-Inv {f} joins v = subscribe-Inv f v
Step-Inv {f} {g} (leaves id e) v = unsubscribe-Inv id f g e v
Step-Inv {f} {g} (offers event order dead o e) v =
    let h = fan_out-HasOffered event order f g dead v o e in
    subst Inv (sym h.channels_alone) (offered-Inv h v)
Step-Inv {f} {g} (reaps dead e) v =
    subst Inv (fine-injective (sym (reap-reaped dead f v) ∙ e)) (reaped-Inv dead f v)
Step-Inv {f} (receives id) v = receive-Inv id f v

pub Reach-Inv : {f g : Fanout} → Inv f → Reach f g → Inv g
Reach-Inv v here = v
Reach-Inv v (next r s) = Step-Inv s (Reach-Inv v r)

-- Whatever the interleaving of subscribing, unsubscribing, fanning out and receiving, in a fan-out
-- that began empty every subscription has an id that was given out and an open channel, no channel
-- holds more than its size, offering an event to the subscriptions in any order does not panic, and
-- neither does reaping any list of subscriptions.
pub Reach-safe :
    (cfg : Config) (f : Fanout) (event : StreamEvent) (order dead : List ℕ)
    → Reach (new_tenant_fanout cfg) f
    → IsOrder f.subs order
    → Inv f × (fan_out event order f ≢ panicked) × (reap dead f ≢ panicked)
Reach-safe cfg f event order dead r o =
    let v = Reach-Inv (new-Inv cfg) r in
    (v, (λ e. cc ((fan_out-Delivers event order f v o).2, e)), λ e. cc (reap-reaped dead f v, e))
