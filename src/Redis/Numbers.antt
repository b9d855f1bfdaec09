-- ===== src/Redis/Numbers.antt =====
-- The numbers of the replies, against their values in decimal.
use easyhooks.Prelude.{
  ℕ, zero, suc, ◌+◌, ◌-◌, ◌*◌, ◌^◌, ◌≤◌, ltb, ◌==◌, ℤ, pos, IsInt64, Bytes, Bool, true, false, [],
  ◌∷◌, ◌≡◌, refl, sym, arith, if_rule, if◌then◌else◌,
}
use easyhooks.Redis.{
  Scan, number, too_large, malformed, is_digit, parse_digits, parse_uint, signed, parse_int,
}

abbrev pub AllDigits : Bytes → Type 0
AllDigits [] = Unit {0}
AllDigits (c ∷ s) = (is_digit c ≡ true) × AllDigits s

-- The value of the digits behind a number, each worth ten of the next.
abbrev pub value_from : ℕ → Bytes → ℕ
value_from n [] = n
value_from n (c ∷ s) = value_from (n * 10 + (c - 48)) s

abbrev pub capped : ℕ → ℤ
capped n = if ltb n (2 ^ 63) then pos n else pos (2 ^ 63 - 1)

value_from-grows : (n : ℕ) (s : Bytes) → n ≤ value_from n s
value_from-grows n [] = omega arith
value_from-grows n (c ∷ s) = omega (arith, value_from-grows (n * 10 + (c - 48)) s)

capped-large : (n : ℕ) → 2 ^ 63 ≤ n → capped n ≡ pos (2 ^ 63 - 1)
capped-large n h = ground arith

parse_digits-capped :
    (n : ℕ) (s : Bytes) → AllDigits s → signed false (parse_digits n s) ≡ capped (value_from n s)
unfolding parse_digits
parse_digits-capped n [] d = refl
parse_digits-capped n (c ∷ s) d =
    let m = n * 10 + (c - 48) in
    let goal = λ (x : Scan). signed false x ≡ capped (value_from m s) in
    if_rule goal (is_digit c)
      (λ _.
        if_rule goal (ltb m (2 ^ 64)) (λ _. parse_digits-capped m s d.1)
          (λ large. sym (capped-large (value_from m s) (still_large large))))
      (λ other. absurd (is_one other))
  where
    still_large :
        ltb (n * 10 + (c - 48)) (2 ^ 64) ≡ false → 2 ^ 63 ≤ value_from (n * 10 + (c - 48)) s
    still_large large = ground (arith, value_from-grows (n * 10 + (c - 48)) s)

    is_one : is_digit c ≡ false → ⊥
    is_one other = ground (arith, d.0)

-- A text of decimal digits, with or without the sign `+`, is read as its value, and as the largest
-- int64 if the value is larger, however long the text is.
pub parse_int-value :
    (c : ℕ) (s : Bytes)
    → AllDigits (c ∷ s)
    → (parse_int (c ∷ s) ≡ capped (value_from 0 (c ∷ s)))
      × (parse_int (b'+' ∷ c ∷ s) ≡ capped (value_from 0 (c ∷ s)))
unfolding parse_int
parse_int-value c s d =
    let digits = parse_digits-capped 0 (c ∷ s) d in
    let goal = λ (x : ℤ). x ≡ capped (value_from 0 (c ∷ s)) in
    (
      if_rule goal (c == b'+') (λ e. absurd (no_plus e))
          (λ _. if_rule goal (c == b'-') (λ e. absurd (no_minus e)) (λ _. digits)),
      digits,
    )
  where
    no_plus : (c == b'+') ≡ true → ⊥
    no_plus e = ground (arith, d.0)

    no_minus : (c == b'-') ≡ true → ⊥
    no_minus e = ground (arith, d.0)

signed-IsInt64 : (negative : Bool) (x : Scan) → IsInt64 (signed negative x)
signed-IsInt64 negative malformed = (omega arith, omega arith)
signed-IsInt64 false too_large = (omega arith, omega arith)
signed-IsInt64 true too_large = (omega arith, omega arith)
signed-IsInt64 false (number n) = ground arith
signed-IsInt64 true (number zero) = (omega arith, omega arith)
signed-IsInt64 true (number (suc n)) = ground arith

-- Whatever the text, the value is an int64.
pub parse_int-IsInt64 : (s : Bytes) → IsInt64 (parse_int s)
unfolding parse_int
parse_int-IsInt64 [] = (omega arith, omega arith)
parse_int-IsInt64 (c ∷ s) =
    if_rule IsInt64 (c == b'+') (λ _. signed-IsInt64 false (parse_uint s))
      (λ _.
        if_rule IsInt64 (c == b'-') (λ _. signed-IsInt64 true (parse_uint s))
          (λ _. signed-IsInt64 false (parse_uint (c ∷ s))))
