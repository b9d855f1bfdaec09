-- ===== src/Streams/Monitor/Hysteresis.antt =====
-- The shedding flag over a history of samples, the newest first.
use easyhooks.Prelude.{
  ℤ, pos, ◌≤ℤ◌, ◌<ℤ◌, ◌≡◌, refl, ap, ◌↔◌, ◌⊎◌, inl, inr, true, false, List, [], ◌∷◌, ◌++◌, arith,
  All,
}
use easyhooks.Streams.Monitor.{Monitor, update, should_shed}

unfoldable pub after : Monitor → List ℤ → Monitor
after m [] = m
after m (b ∷ bs) = (update (after m bs) b).0

-- Some sample reached the high mark, and every later one stayed above the low mark.
abbrev pub Engaged : ℤ → ℤ → List ℤ → Type 0
Engaged high low bs =
    (later : List ℤ) × (b : ℤ) × (earlier : List ℤ) × (bs ≡ later ++ b ∷ earlier)
    × (high ≤ℤ b)
    × All (λ x. low <ℤ x) later

update-marks :
    (m : Monitor) (b : ℤ)
    → ((update m b).0.high_water ≡ m.high_water) × ((update m b).0.low_water ≡ m.low_water)
unfolding update
update-marks m b = ground arith

pub after-marks :
    (m : Monitor) (bs : List ℤ)
    → ((after m bs).high_water ≡ m.high_water) × ((after m bs).low_water ≡ m.low_water)
unfolding after
after-marks m [] = (refl, refl)
after-marks m (b ∷ bs) = ground (arith, after-marks m bs, update-marks (after m bs) b)

-- One update of a monitor that sheds at all.
update-shedding :
    (m : Monitor) (b : ℤ)
    → pos 0 <ℤ m.high_water
    → m.low_water <ℤ m.high_water
    → ((update m b).0.shedding ≡ true)
      ↔ ((m.high_water ≤ℤ b) ⊎ ((m.shedding ≡ true) × (m.low_water <ℤ b)))
unfolding update
update-shedding m b h l = ground arith

Engaged-cons :
    (high low b : ℤ) (bs : List ℤ)
    → ((high ≤ℤ b) ⊎ (Engaged high low bs × (low <ℤ b)))
    → Engaged high low (b ∷ bs)
Engaged-cons high low b bs (inl h) = ([], b, bs, refl, h, tt)
Engaged-cons high low b bs (inr ((later, c, earlier, e, h, a), l)) =
    (b ∷ later, c, earlier, ap (◌∷◌ b) e, h, (l, a))

Engaged-uncons :
    (high low b : ℤ) (bs : List ℤ)
    → Engaged high low (b ∷ bs)
    → (high ≤ℤ b) ⊎ (Engaged high low bs × (low <ℤ b))
Engaged-uncons high low b bs ([], c, earlier, e, h, a) = inl (ground arith)
Engaged-uncons high low b bs (x ∷ later, c, earlier, e, h, a) =
    inr ((later, c, earlier, ground arith, h, a.1), ground arith)

not-Engaged-nil : (high low : ℤ) → ¬ Engaged high low []
not-Engaged-nil high low ([], c, earlier, e, h, a) = cc
not-Engaged-nil high low (x ∷ later, c, earlier, e, h, a) = cc

-- A monitor that sheds at all: a positive high mark, above the low one, and the flag down.
pub record IsReady (m : Monitor) : Type 0 where
  pub positive : pos 0 <ℤ m.high_water
  pub apart : m.low_water <ℤ m.high_water
  pub released : m.shedding ≡ false

after-step :
    (m : Monitor) (b : ℤ) (bs : List ℤ)
    → IsReady m
    → ((after m (b ∷ bs)).shedding ≡ true)
      ↔ ((m.high_water ≤ℤ b) ⊎ (((after m bs).shedding ≡ true) × (m.low_water <ℤ b)))
unfolding after
after-step m b bs r = ground (arith, update-shedding (after m bs) b, after-marks m bs)

map_right : {A B C D : Type 0} → (B → C) → A ⊎ (B × D) → A ⊎ (C × D)
map_right f (inl a) = inl a
map_right f (inr (b, d)) = inr (f b, d)

after-shedding :
    (m : Monitor) (bs : List ℤ)
    → IsReady m
    → ((after m bs).shedding ≡ true) ↔ Engaged m.high_water m.low_water bs
unfolding after
after-shedding m [] r =
    (λ e. absurd (cc (e, r.released)), λ e. absurd (not-Engaged-nil m.high_water m.low_water e))
after-shedding m (b ∷ bs) r =
    let ih = after-shedding m bs r in
    let one = after-step m b bs r in
    (
      λ on. Engaged-cons _ _ b bs (map_right ih.0 (one.0 on)),
      λ e. one.1 (map_right ih.1 (Engaged-uncons _ _ b bs e)),
    )

-- With a high mark above 0 and above the low mark, requests are shed exactly when some sample
-- reached the high mark and every later one stayed above the low mark.
pub should_shed-Engaged :
    (m : Monitor) (bs : List ℤ)
    → IsReady m
    → (should_shed (after m bs) ≡ true) ↔ Engaged m.high_water m.low_water bs
unfolding should_shed
should_shed-Engaged m bs r = rw shed (after-shedding m bs r)
  where
    shed : should_shed (after m bs) ≡ (after m bs).shedding
    shed = ground (arith, after-marks m bs)
