-- ===== src/Service/Fanout/Offers.antt =====
-- One event offered to all subscriptions.
use easyhooks.Prelude.{
  ℕ, ◌≤◌, ◌<◌, ltb, ◌==◌, Bool, true, false, List, [], ◌∷◌, ◌++◌, length, ◌≡◌, ◌↔◌, refl, arith,
  if◌then◌else◌, ap, sym, subst, ◌∙◌, ◌&&◌, ◌||◌, not,
}
use easyhooks.Service.Streams.{StreamEvent}
use easyhooks.Service.Fanout.{
  Channel, Fanout, Outcome, fine, panicked, has, write, and_then, Offered, pushed, offer, offer_all,
  fan_out,
}
use easyhooks.Service.Fanout.Subscribers.{Inv}

-- No id twice.
abbrev pub Distinct : List ℕ → Type 0
Distinct [] = Unit {0}
Distinct (id ∷ ids) = (has ids id ≡ false) × Distinct ids

has-append : (xs ys : List ℕ) (j : ℕ) → has (xs ++ ys) j ≡ (if has xs j then true else has ys j)
unfolding has
has-append [] ys j = refl
has-append (x ∷ xs) ys j = ground (arith, has-append xs ys j)

has-one : (i j : ℕ) → has (i ∷ []) j ≡ (j == i)
unfolding has
has-one i j = ground arith

-- What an event does to the channels of some subscriptions: each with room gets it at the end of
-- its buffer, and exactly those without are listed as dead; no other channel changes.
pub record Delivers (event : StreamEvent) (cap : ℕ) (ids : List ℕ) (before after : ℕ → Channel)
    (dead : List ℕ) : Type 0 where
  pub taken :
      (id : ℕ)
      → has ids id ≡ true
      → length (before id).buffer < cap
      → after id ≡ pushed event (before id)
  pub refused :
      (id : ℕ) → has ids id ≡ true → cap ≤ length (before id).buffer → after id ≡ before id
  pub others : (id : ℕ) → has ids id ≡ false → after id ≡ before id
  pub doomed :
      (id : ℕ) → (has dead id ≡ true) ↔ ((has ids id ≡ true) × (cap ≤ length (before id).buffer))

module _ (event : StreamEvent) (cap : ℕ) where
  -- One subscription, by whether its channel has room.
  abbrev offered : ℕ → Offered → Offered
  offered id o =
      if ltb (length (o.channels id).buffer) cap
      then record o { channels = write o.channels id (pushed event (o.channels id)) }
      else record o { dead = o.dead ++ id ∷ [] }

  offer-open :
      (id : ℕ) (o : Offered)
      → (o.channels id).closed ≡ false
      → offer event cap id o ≡ fine (offered id o)
  unfolding offer
  offer-open id o e = ground arith

  abbrev offered_all : List ℕ → Offered → Offered
  offered_all [] o = o
  offered_all (id ∷ ids) o = offered_all ids (offered id o)

  abbrev Opened : List ℕ → Offered → Type 0
  Opened ids o = (id : ℕ) → has ids id ≡ true → (o.channels id).closed ≡ false

  offered-Opened :
      (id : ℕ) (ids : List ℕ) (o : Offered) → Opened (id ∷ ids) o → Opened ids (offered id o)
  unfolding has
  offered-Opened id ids o h j member = ground (arith, h j)

  offer_all-open :
      (ids : List ℕ) (o : Offered)
      → Opened ids o
      → offer_all event cap ids o ≡ fine (offered_all ids o)
  unfolding offer_all
  offer_all-open [] o h = refl
  offer_all-open (id ∷ ids) o h =
      rw (offer-open id o (h id (unfold has in ground arith)))
        (offer_all-open ids (offered id o) (offered-Opened id ids o h))

  abbrev has_room : Channel → Bool
  has_room c = ltb (length c.buffer) cap

  offered-channel :
      (id : ℕ) (o : Offered) (j : ℕ)
      → (offered id o).channels j
        ≡ (if j == id && has_room (o.channels j) then pushed event (o.channels j) else o.channels j)
  offered-channel id o j = ground arith

  offered-dead :
      (id : ℕ) (o : Offered) (j : ℕ)
      → has (offered id o).dead j ≡ (has o.dead j || (j == id && not (has_room (o.channels j))))
  offered-dead id o j = ground (arith, has-append o.dead (id ∷ []) j, has-one id j)

  offered_all-channel :
      (ids : List ℕ) (o : Offered) (j : ℕ)
      → Distinct ids
      → (offered_all ids o).channels j ≡ (
          if has ids j && has_room (o.channels j)
          then pushed event (o.channels j)
          else o.channels j)
  unfolding has
  offered_all-channel [] o j d = refl
  offered_all-channel (id ∷ ids) o j d =
      ground (arith, offered_all-channel ids (offered id o) j d.1, offered-channel id o j)

  offered_all-dead :
      (ids : List ℕ) (o : Offered) (j : ℕ)
      → Distinct ids
      → has (offered_all ids o).dead j
        ≡ (has o.dead j || (has ids j && not (has_room (o.channels j))))
  unfolding has
  offered_all-dead [] o j d = ground arith
  offered_all-dead (id ∷ ids) o j d = ground (
    arith,
    offered_all-dead ids (offered id o) j d.1,
    offered-dead id o j,
    offered-channel id o j,
  )

-- The order in which the map gives its entries: each subscription once.
pub record IsOrder (subs order : List ℕ) : Type 0 where
  pub distinct : Distinct order
  pub same : (id : ℕ) → has order id ≡ has subs id

module _ (event : StreamEvent) (order : List ℕ) (f : Fanout) (v : Inv f)
    (o : IsOrder f.subs order) where
  abbrev initial : Offered
  initial = record { channels = f.channels; dead = [] }

  abbrev result : Offered
  result = offered_all event f.cap order initial

  result-channel :
      (j : ℕ)
      → result.channels j ≡ (
          if has order j && has_room event f.cap (f.channels j)
          then pushed event (f.channels j)
          else f.channels j)
  result-channel j = offered_all-channel event f.cap order initial j o.distinct

  result-dead :
      (j : ℕ) → has result.dead j ≡ (has order j && not (has_room event f.cap (f.channels j)))
  result-dead j = unfold has in offered_all-dead event f.cap order initial j o.distinct

  result-Delivers : Delivers event f.cap f.subs f.channels result.channels result.dead
  result-Delivers = record {
    taken = λ id m r. ground (arith, result-channel id, o.same id);
    refused = λ id m r. ground (arith, result-channel id, o.same id);
    others = λ id m. ground (arith, result-channel id, o.same id);
    doomed = λ id. ground (arith, result-dead id, o.same id);
  }

  -- In a fan-out with the invariant, in any order of the subscriptions the event reaches, at the
  -- end of its buffer, each channel with room, and no other changes; exactly the subscriptions
  -- with a full channel are dead; there is no panic, and nothing but channels changes.
  pub fan_out-Delivers :
      (channels : ℕ → Channel) × (dead : List ℕ) × (fan_out event order f
        ≡ fine (record f { channels = channels }, dead))
      × Delivers event f.cap f.subs f.channels channels dead
  unfolding fan_out
  fan_out-Delivers = (
    result.channels,
    result.dead,
    ap
        (λ (x : Outcome Offered).
          and_then x (λ r. fine (record f { channels = r.channels }, r.dead)))
        (offer_all-open event f.cap order initial (λ id m. v.opened id (sym (o.same id) ∙ m))),
    result-Delivers,
  )

abbrev pair_or : Fanout × List ℕ → Outcome (Fanout × List ℕ) → Fanout × List ℕ
pair_or p (fine q) = q
pair_or p panicked = p

-- What one offer leaves: the fan-out with other channels, and those as delivered.
pub record HasOffered (event : StreamEvent) (f g : Fanout) (dead : List ℕ) : Type 0 where
  pub channels_alone : g ≡ record f { channels = g.channels }
  pub delivers : Delivers event f.cap f.subs f.channels g.channels dead

pub fan_out-HasOffered :
    (event : StreamEvent) (order : List ℕ) (f g : Fanout) (dead : List ℕ)
    → Inv f
    → IsOrder f.subs order
    → fan_out event order f ≡ fine (g, dead)
    → HasOffered event f g dead
fan_out-HasOffered event order f g dead v o e =
    let r = fan_out-Delivers event order f v o in
    let same = ap (pair_or (g, dead)) (sym r.2 ∙ e) in
    subst (λ (p : Fanout × List ℕ). HasOffered event f p.0 p.1) same
      (record { channels_alone = refl; delivers = r.3 })
