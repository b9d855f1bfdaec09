-- ===== src/Streams/Monitor/Marks.antt =====
-- The two watermarks of a new monitor.
use easyhooks.Prelude.{
  ℕ, ◌+◌, ◌*◌, ◌/◌, ◌^◌, ◌≤◌, ◌<◌, ℤ, pos, ◌≤ℤ◌, ◌<ℤ◌, ◌≡◌, arith, ap, ◌∙◌, ◌*ℤ◌, quot_ℤ, wrap64_id,
  pos_part,
}
use easyhooks.Streams.Monitor.{clamp_pct, mark_of, low_mark}

pub clamp_pct_bounds : (pct : ℤ) → (pos 0 ≤ℤ clamp_pct pct) × (clamp_pct pct ≤ℤ pos 100)
unfolding clamp_pct
clamp_pct_bounds pct = ground arith

-- The low mark is never above the high mark, whatever the percentage.
pub low_mark-le : (high pct : ℤ) → low_mark high pct ≤ℤ high
unfolding low_mark
low_mark-le high pct = ground arith

mul_pos : (h p : ℕ) → pos h *ℤ pos p ≡ pos (h * p)
unfolding ◌*ℤ◌
mul_pos h p = ground arith

quot_pos : (n : ℕ) → quot_ℤ (pos n) 100 ≡ pos (n / 100)
unfolding quot_ℤ
quot_pos n = ground arith

-- The percentage as a number.
abbrev pub pct_of : ℤ → ℕ
pct_of pct = pos_part (clamp_pct pct)

clamp_pct_pos : (pct : ℤ) → clamp_pct pct ≡ pos (pct_of pct)
unfolding clamp_pct
clamp_pct_pos pct = ground arith

product_bound : (h p : ℕ) → p ≤ 100 → h * 100 < 2 ^ 63 → h * p < 2 ^ 63
product_bound h p hp hh = grind arith

pct_of-le : (pct : ℤ) → pct_of pct ≤ 100
unfolding clamp_pct
pct_of-le pct = ground arith

product-le : (h p : ℕ) → p ≤ 100 → h * p / 100 ≤ h
product-le h p hp = let b : h * p ≤ h * 100 = grind arith in omega (arith, b)

mark_of-pos : (h p : ℕ) → p ≤ 100 → h * 100 < 2 ^ 63 → mark_of (pos h) (pos p) ≡ pos (h * p / 100)
unfolding mark_of
mark_of-pos h p hp b =
    let small : h * p < 2 ^ 63 = product_bound h p hp b in
    rw (mul_pos h p, wrap64_id (pos (h * p)) (small, omega arith), quot_pos (h * p))
      (ground (arith, product-le h p hp))

-- For a high mark whose hundredfold fits 64 bits the low mark is the percentage of it, rounded
-- down.
pub low_mark-eq :
    (h : ℕ) (pct : ℤ) → h * 100 < 2 ^ 63 → low_mark (pos h) pct ≡ pos (h * pct_of pct / 100)
unfolding low_mark
low_mark-eq h pct b =
    ap (mark_of (pos h)) (clamp_pct_pos pct) ∙ mark_of-pos h (pct_of pct) (pct_of-le pct) b

pct_of-lt : (pct : ℤ) → pct <ℤ pos 100 → pct_of pct < 100
unfolding clamp_pct
pct_of-lt pct h = ground arith

product-lt : (h p : ℕ) → 0 < h → p < 100 → h * p / 100 < h
product-lt h p hh hp = let b : h * p + h ≤ h * 100 = grind arith in omega (arith, b)

-- Below a percentage of 100 the marks differ.
pub low_mark-lt :
    (h : ℕ) (pct : ℤ) → 0 < h → h * 100 < 2 ^ 63 → pct <ℤ pos 100 → low_mark (pos h) pct <ℤ pos h
low_mark-lt h pct p b lt =
    rw (low_mark-eq h pct b) (omega (arith, product-lt h (pct_of pct) p (pct_of-lt pct lt)))

pct_of-zero : (pct : ℤ) → pct ≤ℤ pos 0 → pct_of pct ≡ 0
unfolding clamp_pct
pct_of-zero pct h = ground arith

pct_of-full : (pct : ℤ) → pos 100 ≤ℤ pct → pct_of pct ≡ 100
unfolding clamp_pct
pct_of-full pct h = ground arith

-- A percentage of 0 or less puts the low mark at 0.
pub low_mark-zero :
    (h : ℕ) (pct : ℤ) → h * 100 < 2 ^ 63 → pct ≤ℤ pos 0 → low_mark (pos h) pct ≡ pos 0
low_mark-zero h pct b z = rw (low_mark-eq h pct b, pct_of-zero pct z) (ground arith)

-- A percentage of 100 or more makes the marks equal.
pub low_mark-full :
    (h : ℕ) (pct : ℤ) → h * 100 < 2 ^ 63 → pos 100 ≤ℤ pct → low_mark (pos h) pct ≡ pos h
low_mark-full h pct b f = rw (low_mark-eq h pct b, pct_of-full pct f) (ground arith)
