-- ===== src/Streams/Monitor/Polling.antt =====
-- One poll: which sample is read off the reply, and what a reply without one leaves.
use easyhooks.Prelude.{
  ℤ, pos, Bytes, bytes_eq, bytes_eq_iff, ◌≤ℤ◌, ◌+ℤ◌, wrap64, List, [], ◌∷◌, ◌++◌, All, ◌≡◌, ◌≢◌,
  inl, inr, ◌↔◌, refl, arith, ap, none, some, Option-cases, Bool-cases, sym, ◌∙◌, true, false,
  if◌then◌else◌, ltb_ℤ,
}
use easyhooks.Runtime.Errors.{Result, ok, err}
use easyhooks.Runtime.Events.{GroupInfo, sent, xinfo_groups}
use easyhooks.Runtime.Env.{Env}
use easyhooks.Runtime.Exec.{State, ◌>>=◌}
use easyhooks.Streams.Monitor.{Monitor, sample, poll, apply_update}

-- The first group of the name has a defined lag, and `b` is its lag plus its pending entries.
abbrev pub Sampled : Bytes → List GroupInfo → ℤ → Type 0
Sampled group gs b =
    (before : List GroupInfo) × (g : GroupInfo) × (behind : List GroupInfo) × (gs
      ≡ before ++ g ∷ behind)
    × All (λ h. h.name ≢ group) before
    × (g.name ≡ group)
    × (pos 0 ≤ℤ g.lag)
    × (b ≡ wrap64 (g.lag +ℤ g.pending))

skipped : (group : Bytes) (g : GroupInfo) → bytes_eq g.name group ≡ false → g.name ≢ group
skipped group g miss e = cc ((bytes_eq_iff g.name group).1 e, miss)

sample-skip :
    (group : Bytes) (g : GroupInfo) (gs : List GroupInfo)
    → bytes_eq g.name group ≡ false
    → sample group (g ∷ gs) ≡ sample group gs
unfolding sample
sample-skip group g gs miss = ground arith

sample-hit :
    (group : Bytes) (g : GroupInfo) (gs : List GroupInfo)
    → bytes_eq g.name group ≡ true
    → sample group (g ∷ gs)
      ≡ (if ltb_ℤ g.lag (pos 0) then none else some (wrap64 (g.lag +ℤ g.pending)))
unfolding sample
sample-hit group g gs hit = ground arith

Sampled-skip :
    (group : Bytes) (g : GroupInfo) (gs : List GroupInfo) (b : ℤ)
    → g.name ≢ group
    → Sampled group gs b
    → Sampled group (g ∷ gs) b
Sampled-skip group g gs b miss (before, h, behind, e, a, n, l, v) =
    (g ∷ before, h, behind, ap (◌∷◌ g) e, (miss, a), n, l, v)

sample-Sampled :
    (group : Bytes) (gs : List GroupInfo) (b : ℤ) → sample group gs ≡ some b → Sampled group gs b
sample-Sampled group [] b e = unfold sample in cc e
sample-Sampled group (g ∷ gs) b e = elim (Bool-cases (bytes_eq g.name group)) [
  | inl hit ↦
      let e' = sym (sample-hit group g gs hit) ∙ e in
      ([], g, gs, refl, tt, (bytes_eq_iff g.name group).0 hit, ground arith, ground arith)
  | inr miss ↦
      Sampled-skip group g gs b (skipped group g miss)
        (sample-Sampled group gs b (sym (sample-skip group g gs miss) ∙ e))
]

Sampled-sample :
    (group : Bytes) (before : List GroupInfo) (g : GroupInfo) (behind : List GroupInfo)
    → All (λ h. h.name ≢ group) before
    → g.name ≡ group
    → pos 0 ≤ℤ g.lag
    → sample group (before ++ g ∷ behind) ≡ some (wrap64 (g.lag +ℤ g.pending))
Sampled-sample group [] g behind a n l =
    sample-hit group g behind ((bytes_eq_iff g.name group).1 n) ∙ ground arith
Sampled-sample group (h ∷ before) g behind a n l =
    sample-skip group h (before ++ g ∷ behind) (unequal a.0)
    ∙ Sampled-sample group before g behind a.1 n l
  where
    unequal : h.name ≢ group → bytes_eq h.name group ≡ false
    unequal ne = ground (arith, bytes_eq_iff h.name group)

pub sample_iff :
    (group : Bytes) (gs : List GroupInfo) (b : ℤ) → (sample group gs ≡ some b) ↔ Sampled group gs b
sample_iff group gs b = (sample-Sampled group gs b, back)
  where
    back : Sampled group gs b → sample group gs ≡ some b
    back (before, g, behind, e, a, n, l, v) = rw (e, v) (Sampled-sample group before g behind a n l)

module _ {W : Type 0} (env : Env W) (m : Monitor) (s : State W) {w : W} where
  -- A poll whose reply holds the monitor's group, with a defined lag, updates the monitor by that
  -- group's lag plus pending.
  pub poll-Sampled :
      {groups : List GroupInfo} {b : ℤ}
      → env.xinfo_groups m.stream s.world ≡ (ok groups, w)
      → Sampled m.group groups b
      → poll env m s
        ≡ apply_update m b (record { world = w; events = sent (xinfo_groups m.stream) ∷ s.events })
  unfolding poll ◌>>=◌
  poll-Sampled {groups} {b} reply found = rw (reply, (sample_iff m.group groups b).1 found)

  -- A poll that fails, or whose reply has no such group, leaves the monitor and the metrics alone.
  pub poll-keeps :
      {r : Result (List GroupInfo)}
      → env.xinfo_groups m.stream s.world ≡ (r, w)
      → ((groups : List GroupInfo) (b : ℤ) → r ≡ ok groups → ¬ Sampled m.group groups b)
      → poll env m s
        ≡ (ok m, record { world = w; events = sent (xinfo_groups m.stream) ∷ s.events })
  unfolding poll ◌>>=◌
  poll-keeps {r = err e} reply none_found = rw reply
  poll-keeps {r = ok groups} reply none_found = elim (Option-cases (sample m.group groups)) [
    | inl absent ↦ rw (reply, absent)
    | inr (b, e) ↦ absurd (none_found groups b refl ((sample_iff m.group groups b).0 e))
  ]
