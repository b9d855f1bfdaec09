-- ===== src/Redis/Tests.antt =====
-- The reply to INFO at concrete texts.
use easyhooks.Prelude.{pos, negsuc, ◌^◌, ◌-◌, All, codes, [], ◌∷◌, ◌≡◌, refl, arith, IsInt64}
use easyhooks.Runtime.Errors.{ok}
use easyhooks.Runtime.Fake.{Fake, fake, quiet, start}
use easyhooks.Redis.{parse_int, info_memory}
use easyhooks.Redis.Numbers.{parse_int-value, parse_int-IsInt64}
use easyhooks.Redis.Lines.{Fields, render_info, IsField}
use easyhooks.Redis.Memory.{last_of, info_memory-render}

-- A bound, no number, and a number that is too large before the byte that is no digit.
largest : parse_int (codes "9223372036854775808") ≡ pos (2 ^ 63 - 1)
unfolding parse_int
largest = refl

no_number : parse_int (codes "12k") ≡ pos 0
unfolding parse_int
no_number = refl

too_long : parse_int (codes "-99999999999999999999k") ≡ negsuc (2 ^ 63 - 1)
unfolding parse_int
too_long = refl

test_signs : (parse_int (codes "42") ≡ pos 42) × (parse_int (codes "+42") ≡ pos 42)
test_signs = parse_int-value b'4' (codes "2") (refl, (refl, tt))

test_parse_int : IsInt64 (parse_int (codes "-7"))
test_parse_int = parse_int-IsInt64 (codes "-7")

abbrev fields : Fields
fields =
    (codes "used_memory", codes "42")
    ∷ (codes "mem_x", codes "9")
    ∷ (codes "maxmemory", codes "100")
    ∷ []

abbrev filled : Fake
filled = record quiet { memory = render_info fields }

fields-IsField : All IsField fields
fields-IsField = ground arith

info_memory-render_example :
    (info_memory fake (start filled)).0
    ≡ ok (record { used_memory = pos 42; max_memory = pos 100; policy = [] })
unfolding last_of parse_int fake
info_memory-render_example =
    info_memory-render fake (start filled) fields filled fields-IsField refl
