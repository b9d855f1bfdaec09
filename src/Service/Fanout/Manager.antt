-- ===== src/Service/Fanout/Manager.antt =====
-- go-api/internal/service/fanout.go, `FanoutManager`: one fan-out for each tenant.
use easyhooks.Prelude.{
  Bytes, lookup, bytes_eq, bytes_eq_refl, false, Option, none, some, Option-cases, List, [], ◌∷◌,
  ◌≡◌, refl, ap, ◌∙◌, inl, inr,
}
use easyhooks.Config.{Config}
use easyhooks.Service.Fanout.{Fanout, new_tenant_fanout}

-- The map from the tenants, whose values are shared by all who ask for them.
pub record FanoutManager : Type 0 where
  pub fanouts : List (Bytes × Fanout)

abbrev pub new_fanout_manager : FanoutManager
new_fanout_manager = record { fanouts = [] }

abbrev pub found_or_new : Config → Bytes → FanoutManager → Option Fanout → Fanout × FanoutManager
found_or_new cfg tenant_id m (some f) = (f, m)
found_or_new cfg tenant_id m none =
    let f = new_tenant_fanout cfg in (f, record { fanouts = (tenant_id, f) ∷ m.fanouts })

pub get_fanout : Config → Bytes → FanoutManager → Fanout × FanoutManager
unfolding lookup
get_fanout cfg tenant_id m = found_or_new cfg tenant_id m (lookup m.fanouts tenant_id)

found-lookup :
    (cfg : Config) (tenant_id : Bytes) (m : FanoutManager) (o : Option Fanout)
    → lookup m.fanouts tenant_id ≡ o
    → lookup (found_or_new cfg tenant_id m o).1.fanouts tenant_id
      ≡ some (found_or_new cfg tenant_id m o).0
unfolding lookup
found-lookup cfg tenant_id m (some f) e = e
found-lookup cfg tenant_id m none e = rw (bytes_eq_refl tenant_id) refl

-- Whoever asks for a tenant's fan-out again gets the same, and nothing changes.
get_fanout-again :
    (cfg : Config) (tenant_id : Bytes) (m : FanoutManager)
    → get_fanout cfg tenant_id (get_fanout cfg tenant_id m).1 ≡ get_fanout cfg tenant_id m
unfolding get_fanout
get_fanout-again cfg tenant_id m =
    ap (found_or_new cfg tenant_id (get_fanout cfg tenant_id m).1)
      (found-lookup cfg tenant_id m (lookup m.fanouts tenant_id) refl)

-- The fan-outs of other tenants stay.
get_fanout-other :
    (cfg : Config) (tenant_id other : Bytes) (m : FanoutManager)
    → bytes_eq tenant_id other ≡ false
    → lookup (get_fanout cfg tenant_id m).1.fanouts other ≡ lookup m.fanouts other
unfolding get_fanout
get_fanout-other cfg tenant_id other m differ = elim (Option-cases (lookup m.fanouts tenant_id)) [
  | inl e ↦
      ap (λ (o : Option Fanout). lookup (found_or_new cfg tenant_id m o).1.fanouts other) e
      ∙ new_other
  | inr (f, e) ↦
      ap (λ (o : Option Fanout). lookup (found_or_new cfg tenant_id m o).1.fanouts other) e
]
  where
    new_other :
        lookup ((tenant_id, new_tenant_fanout cfg) ∷ m.fanouts) other ≡ lookup m.fanouts other
    new_other = unfold lookup in rw differ refl
