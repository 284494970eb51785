-- ===== src/Services/Plans.antt =====
-- bot/src/services/plan_service.py: the base plan. The prices per month, which are floats,
-- are left out.
pub mod Base
use aegis_vpn.Base.{
  ℕ, Option, none, some, List, [], ◌∷◌, Bool, true, false, ◌==◌, if◌then◌else◌, map,
}

-- bot/src/models/plan.py
pub record Plan : Type 0 where
  pub id : ℕ
  pub days : ℕ
  pub stars_price : ℕ
  pub rub_price : Option ℕ
  pub is_active : Bool
  pub is_base : Bool

-- `session.get(Plan, plan_id)`
unfoldable pub find_plan : ℕ → List Plan → Option Plan
find_plan i [] = none
find_plan i (p ∷ ps) = if p.id == i then some p else find_plan i ps

-- The row after both updates.
unfoldable pub mark : ℕ → Plan → Plan
mark plan_id p = record p { is_base = p.id == plan_id }

-- `set_base_plan`: the plan, if there is one, and the table.
unfoldable pub set_base_plan : ℕ → List Plan → Option Plan × List Plan
unfolding mark
set_base_plan plan_id ps = elim (find_plan plan_id ps) [
  | none ↦ (none, ps)
  | some p ↦ (some (mark plan_id p), map (mark plan_id) ps)
]

-- `get_base_plan`
unfoldable pub get_base_plan : List Plan → Option Plan
get_base_plan [] = none
get_base_plan (p ∷ ps) = if p.is_base then some p else get_base_plan ps
