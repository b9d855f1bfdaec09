-- ===== src/Redis/Memory.antt =====
-- `InfoMemory` on the texts that Redis writes: a title, and a field in each line.
use easyhooks.Prelude.{
  ℤ, pos, Bytes, codes, bytes_eq, bytes_eq→eq, All, true, false, Option, none, some, [], ◌∷◌, ◌≡◌,
  refl, ap, ◌∙◌, arith, if◌then◌else◌,
}
use easyhooks.Runtime.Errors.{Result, ok}
use easyhooks.Runtime.Events.{sent, info}
use easyhooks.Runtime.Env.{Env}
use easyhooks.Runtime.Exec.{State, ◌>>=◌, continue, rewrap, pure}
use easyhooks.Http.Spaces.{trim_space}
use easyhooks.Redis.Lines.{Fields, render, render_info, IsField, set_all, read_lines-render}
use easyhooks.Redis.{MemoryInfo, no_info, parse_int, set_field, split, cut, read_lines, info_memory}

-- The value of a key, the last one if it is there more than once.
abbrev pub last_or : Option Bytes → Option Bytes → Option Bytes
last_or o none = o
last_or o (some v) = some v

unfoldable pub last_of : Bytes → Fields → Option Bytes
unfolding bytes_eq
last_of key [] = none
last_of key ((k, v) ∷ fields) =
    last_or (if bytes_eq k key then some v else none) (last_of key fields)

abbrev pub number_of : ℤ → Option Bytes → ℤ
number_of n none = n
number_of n (some v) = parse_int v

abbrev pub text_of : Bytes → Option Bytes → Bytes
text_of t none = t
text_of t (some v) = v

number_of-last :
    (n : ℤ) (first later : Option Bytes)
    → number_of (number_of n first) later ≡ number_of n (last_or first later)
number_of-last n first none = refl
number_of-last n first (some v) = refl

text_of-last :
    (t : Bytes) (first later : Option Bytes)
    → text_of (text_of t first) later ≡ text_of t (last_or first later)
text_of-last t first none = refl
text_of-last t first (some v) = refl

-- The keys of the `switch` differ.
apart : (k a b : Bytes) → bytes_eq a b ≡ false → bytes_eq k a ≡ true → bytes_eq k b ≡ false
apart k a b d e = rw (bytes_eq→eq k a e) d

set_field-used :
    (k v : Bytes) (i : MemoryInfo)
    → (set_field k v i).used_memory
      ≡ number_of i.used_memory (if bytes_eq k (codes "used_memory") then some v else none)
unfolding set_field
set_field-used k v i = ground arith

set_field-max :
    (k v : Bytes) (i : MemoryInfo)
    → (set_field k v i).max_memory
      ≡ number_of i.max_memory (if bytes_eq k (codes "maxmemory") then some v else none)
unfolding set_field
set_field-max k v i =
    ground (arith, apart k (codes "used_memory") (codes "maxmemory") (unfold bytes_eq in refl))

set_field-policy :
    (k v : Bytes) (i : MemoryInfo)
    → (set_field k v i).policy
      ≡ text_of i.policy (if bytes_eq k (codes "maxmemory_policy") then some v else none)
unfolding set_field
set_field-policy k v i = ground (
  arith,
  apart k (codes "used_memory") (codes "maxmemory_policy") (unfold bytes_eq in refl),
  apart k (codes "maxmemory") (codes "maxmemory_policy") (unfold bytes_eq in refl),
)

abbrev pub Shows : Fields → MemoryInfo → MemoryInfo → Type 0
Shows fields i j =
    (j.used_memory ≡ number_of i.used_memory (last_of (codes "used_memory") fields))
    × (j.max_memory ≡ number_of i.max_memory (last_of (codes "maxmemory") fields))
    × (j.policy ≡ text_of i.policy (last_of (codes "maxmemory_policy") fields))

set_all-Shows : (fields : Fields) (i : MemoryInfo) → Shows fields i (set_all fields i)
unfolding set_all last_of
set_all-Shows [] i = (refl, refl, refl)
set_all-Shows ((k, v) ∷ fields) i =
    let (used, max, policy) = set_all-Shows fields (set_field k v i) in
    (
      used
          ∙ ap (λ (n : ℤ). number_of n (last_of (codes "used_memory") fields))
              (set_field-used k v i)
          ∙ number_of-last i.used_memory (if bytes_eq k (codes "used_memory") then some v else none)
              (last_of (codes "used_memory") fields),
      max
          ∙ ap (λ (n : ℤ). number_of n (last_of (codes "maxmemory") fields)) (set_field-max k v i)
          ∙ number_of-last i.max_memory (if bytes_eq k (codes "maxmemory") then some v else none)
              (last_of (codes "maxmemory") fields),
      policy
          ∙ ap (λ (t : Bytes). text_of t (last_of (codes "maxmemory_policy") fields))
              (set_field-policy k v i)
          ∙ text_of-last i.policy (if bytes_eq k (codes "maxmemory_policy") then some v else none)
              (last_of (codes "maxmemory_policy") fields),
    )

abbrev described : Fields → MemoryInfo
described fields = record {
  used_memory = number_of (pos 0) (last_of (codes "used_memory") fields);
  max_memory = number_of (pos 0) (last_of (codes "maxmemory") fields);
  policy = text_of [] (last_of (codes "maxmemory_policy") fields);
}

titled :
    (fields : Fields)
    → read_lines (split 10 (render_info fields)) no_info
      ≡ read_lines (split 10 (render fields)) no_info
unfolding read_lines split trim_space cut
titled fields = refl

rendered-described :
    (fields : Fields)
    → All IsField fields
    → read_lines (split 10 (render_info fields)) no_info ≡ described fields
rendered-described fields a =
    let (used, max, policy) = set_all-Shows fields no_info in
    titled fields ∙ read_lines-render fields no_info a ∙ same used max policy
  where
    same :
        {i : MemoryInfo}
        → i.used_memory ≡ (described fields).used_memory
        → i.max_memory ≡ (described fields).max_memory
        → i.policy ≡ (described fields).policy
        → i ≡ described fields
    same used max policy = cc

-- What `InfoMemory` reads from a reply that is printed field by field, as Redis prints it: the
-- numbers of "used_memory" and "maxmemory" and the text of "maxmemory_policy", whatever other
-- fields there are; 0 or an empty text for a field that is not there. The fields are printable, and
-- their keys have no colon.
pub info_memory-render :
    {W : Type 0} (env : Env W) (s : State W) (fields : Fields) (w : W)
    → All IsField fields
    → env.info (codes "memory") s.world ≡ (ok (render_info fields), w)
    → (info_memory env s).0
      ≡ ok (record {
        used_memory = number_of (pos 0) (last_of (codes "used_memory") fields);
        max_memory = number_of (pos 0) (last_of (codes "maxmemory") fields);
        policy = text_of [] (last_of (codes "maxmemory_policy") fields);
      })
unfolding info_memory rewrap ◌>>=◌
info_memory-render {W = W} env s fields w a e =
    ap
      (λ (x : Result Bytes × W).
        (continue (rewrap (codes "INFO memory") x.0)
          (λ (raw : Bytes). pure (read_lines (split 10 raw) no_info))
          (record { world = x.1; events = sent (info (codes "memory")) ∷ s.events })).0)
      e
    ∙ ap (λ (i : MemoryInfo). ok i) (rendered-described fields a)
