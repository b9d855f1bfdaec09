-- ===== src/Redis.antt =====
-- go-api/internal/redis/redis.go: the connection, and what the server says of its memory.
pub mod Numbers
pub mod Lines
pub mod Memory
mod Tests
use easyhooks.Prelude.{
  ℕ, zero, suc, ◌+◌, ◌-◌, ◌*◌, ◌^◌, leb, ltb, ◌==◌, ℤ, pos, negsuc, min_int64, ◌&&◌, Bytes, codes,
  bytes_eq, Bool, true, false, Option, none, some, List, [], ◌∷◌, if◌then◌else◌,
}
use easyhooks.Runtime.Errors.{Error, Result, ok, err}
use easyhooks.Runtime.Events.{ping, info}
use easyhooks.Runtime.Env.{Env}
use easyhooks.Runtime.Exec.{State, Exec, pure, lift, wrap, command, ◌>>=◌, ◌>>◌}
use easyhooks.Config.{Config}
use easyhooks.Http.Spaces.{trim_space}

-- What `goredis.ParseURL` gives, and the field that the code sets.
pub record Options : Type 0 where
  pub url : Bytes
  pub pool_size : ℤ

module _ {W : Type 0} (env : Env W) (parse_url : Bytes → Result Options) where
  -- The client is its options; the connection is in the world.
  unfoldable pub new_client : Config → Exec W Options
  new_client cfg = do
    opt ← wrap (codes "parse redis URL") (lift (parse_url cfg.redis_url))
    wrap (codes "ping redis") (command ping env.ping)
    pure (record opt { pool_size = cfg.redis_pool_size })

-- `strconv.ParseUint(s, 10, 64)` behind the check for an empty text: the number, one that is out of
-- range, which ends the scan, or a byte that is no digit.
pub data Scan : Type 0 where
  number : ℕ → Scan
  too_large malformed : Scan

abbrev pub is_digit : ℕ → Bool
is_digit c = leb 48 c && leb c 57

unfoldable pub parse_digits : ℕ → Bytes → Scan
parse_digits n [] = number n
parse_digits n (c ∷ s) =
    let m = n * 10 + (c - 48) in
    let rest = parse_digits m s in
    if is_digit c then (if ltb m (2 ^ 64) then rest else too_large) else malformed

abbrev pub parse_uint : Bytes → Scan
parse_uint [] = malformed
parse_uint (c ∷ s) = parse_digits 0 (c ∷ s)

-- The value that `strconv.ParseInt(s, 10, 64)` gives beside its error: the nearest bound if the
-- number is out of range, and 0 if the text is no number.
abbrev pub signed : Bool → Scan → ℤ
signed negative malformed = pos 0
signed false too_large = pos (2 ^ 63 - 1)
signed true too_large = min_int64
signed false (number n) = if ltb n (2 ^ 63) then pos n else pos (2 ^ 63 - 1)
signed true (number zero) = pos 0
signed true (number (suc n)) = if ltb n (2 ^ 63) then negsuc n else min_int64

unfoldable pub parse_int : Bytes → ℤ
unfolding parse_digits
parse_int [] = pos 0
parse_int (c ∷ s) =
    if c == b'+'
    then signed false (parse_uint s)
    else if c == b'-'
    then signed true (parse_uint s)
    else signed false (parse_uint (c ∷ s))

abbrev pub with_first : ℕ → List Bytes → List Bytes
with_first c [] = (c ∷ []) ∷ []
with_first c (part ∷ parts) = (c ∷ part) ∷ parts

-- `strings.Split` by one byte, `strings.Cut` by one byte.
unfoldable pub split : ℕ → Bytes → List Bytes
split sep [] = [] ∷ []
split sep (c ∷ s) = let rest = split sep s in if c == sep then [] ∷ rest else with_first c rest

abbrev pub cut_later : ℕ → Option (Bytes × Bytes) → Option (Bytes × Bytes)
cut_later c none = none
cut_later c (some (before, after)) = some (c ∷ before, after)

unfoldable pub cut : ℕ → Bytes → Option (Bytes × Bytes)
cut sep [] = none
cut sep (c ∷ s) = let rest = cut sep s in if c == sep then some ([], s) else cut_later c rest

pub record MemoryInfo : Type 0 where
  pub used_memory : ℤ
  pub max_memory : ℤ
  pub policy : Bytes

abbrev pub no_info : MemoryInfo
no_info = record { used_memory = pos 0; max_memory = pos 0; policy = [] }

-- The `switch` on the key of a line.
unfoldable pub set_field : Bytes → Bytes → MemoryInfo → MemoryInfo
unfolding bytes_eq parse_int
set_field k v i =
    if bytes_eq k (codes "used_memory")
    then record i { used_memory = parse_int v }
    else if bytes_eq k (codes "maxmemory")
    then record i { max_memory = parse_int v }
    else if bytes_eq k (codes "maxmemory_policy")
    then record i { policy = v }
    else i

abbrev pub set_from : Option (Bytes × Bytes) → MemoryInfo → MemoryInfo
set_from none i = i
set_from (some (k, v)) i = set_field k v i

unfoldable pub read_lines : List Bytes → MemoryInfo → MemoryInfo
unfolding set_field cut trim_space
read_lines [] i = i
read_lines (line ∷ lines) i = read_lines lines (set_from (cut b':' (trim_space line)) i)

unfoldable pub info_memory : {W : Type 0} → Env W → Exec W MemoryInfo
unfolding read_lines split
info_memory env = do
  raw ← wrap (codes "INFO memory") (command (info (codes "memory")) (env.info (codes "memory")))
  pure (read_lines (split 10 raw) no_info)
