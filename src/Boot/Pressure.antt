-- ===== src/Boot/Pressure.antt =====
-- When the use of the memory of Redis is logged as a warning.
use native.Mathlib.Nat.{div-lt_iff_lt-mul, div-eq_of_lt}
use easyhooks.Prelude.{
  ℕ, ◌+◌, ◌*◌, ◌/◌, ◌^◌, ◌≤◌, ◌<◌, ltb, ℤ, pos, sub_ℕ, ◌==◌, ◌*ℤ◌, wrap64, wrap64_id, quot_ℤ,
  is_zero, ltb_ℤ, Bytes, Bool, true, false, ◌≡◌, ap, ◌∙◌, ◌↔◌, inl, inr, arith, Bool-cases,
  if◌then◌else◌,
}
use easyhooks.Redis.{MemoryInfo}
use easyhooks.Boot.{MemoryNote, unlimited, pressure, fits, classify, used_pct, quot64}

-- The memory in use, of a limit.
abbrev pub measured : ℕ → ℕ → Bytes → MemoryInfo
measured used max policy = record { used_memory = pos used; max_memory = pos max; policy = policy }

times_hundred : (used : ℕ) → used * 100 < 2 ^ 63 → wrap64 (pos used *ℤ pos 100) ≡ pos (used * 100)
times_hundred used h = ap wrap64 product ∙ wrap64_id (pos (used * 100)) (h, omega arith)
  where
    product : pos used *ℤ pos 100 ≡ pos (used * 100)
    product = unfold ◌*ℤ◌ in ground arith

used_pct-measured :
    (used max : ℕ) (policy : Bytes)
    → used * 100 < 2 ^ 63
    → 0 < max
    → used_pct (measured used max policy) ≡ pos (used * 100 / max)
unfolding used_pct quot64 quot_ℤ
used_pct-measured used max policy h m =
    ap (λ (a : ℤ). quot64 a (pos max)) (times_hundred used h) ∙ whole (used * 100 / max)
  where
    zero_over : 0 / max ≡ 0
    zero_over = div-eq_of_lt m

    whole : (q : ℕ) → sub_ℕ q (0 / max) ≡ pos q
    whole q = ap (sub_ℕ q) zero_over ∙ ground arith

abbrev decided : MemoryInfo → Bool → Bool → ℤ → MemoryNote
decided i none_set over pct =
    if none_set then unlimited i else if over then pressure pct i else fits pct i

-- The note, by the share.
classify-decided :
    (limit p : ℕ) (i : MemoryInfo) (over : Bool)
    → used_pct i ≡ pos p
    → is_zero i.max_memory ≡ false
    → ltb limit p ≡ over
    → classify (pos limit) i ≡ decided i false over (pos p)
unfolding classify
classify-decided limit p i over e some_max o =
    ap (λ (z : Bool). decided i z (ltb_ℤ (pos limit) (used_pct i)) (used_pct i)) some_max
    ∙ ap (λ (q : ℤ). decided i false (ltb_ℤ (pos limit) q) q) e
    ∙ ap (λ (b : Bool). decided i false b (pos p)) (plain limit p ∙ o)
  where
    plain : (a b : ℕ) → ltb_ℤ (pos a) (pos b) ≡ ltb a b
    plain a b = ground arith

-- The use of at most 92 petabytes is logged as a warning exactly if it is a whole percent above the
-- limit in percent or more: the share is rounded down first.
pub classify-pressure :
    (limit used max : ℕ) (policy : Bytes)
    → used * 100 < 2 ^ 63
    → 0 < max
    → ((limit + 1) * max ≤ used * 100
        → classify (pos limit) (measured used max policy)
          ≡ pressure (pos (used * 100 / max)) (measured used max policy))
      × (used * 100 < (limit + 1) * max
          → classify (pos limit) (measured used max policy)
            ≡ fits (pos (used * 100 / max)) (measured used max policy))
unfolding classify
classify-pressure limit used max policy h m =
    let e = used_pct-measured used max policy h m in
    let below = div-lt_iff_lt-mul {k = max} {x = used * 100} {y = limit + 1} m in
    let some_max : (max == 0) ≡ false = ground arith in
    (
      λ over.
          classify-decided limit (used * 100 / max) (measured used max policy) true e some_max
            (above below over),
      λ under.
          classify-decided limit (used * 100 / max) (measured used max policy) false e some_max
            (within below under),
    )
  where
    above :
        {q : ℕ}
        → (q < limit + 1) ↔ (used * 100 < (limit + 1) * max)
        → (limit + 1) * max ≤ used * 100
        → ltb limit q ≡ true
    above {q} below over = elim (Bool-cases (ltb limit q)) [
      | inl yes_over ↦ yes_over
      | inr small ↦ absurd (omega (arith, over, below.0 (not_over small)))
    ]
      where
        not_over : ltb limit q ≡ false → q < limit + 1
        not_over small = ground arith

    within :
        {q : ℕ}
        → (q < limit + 1) ↔ (used * 100 < (limit + 1) * max)
        → used * 100 < (limit + 1) * max
        → ltb limit q ≡ false
    within below under = ground (arith, below.1 under)
