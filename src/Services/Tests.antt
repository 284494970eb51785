-- ===== src/Services/Tests.antt =====
-- The services at concrete inputs.
use aegis_vpn.Base.{◌≡◌, refl, some, none, [], ◌∷◌, true, false, ◌==◌, map, All}
use aegis_vpn.Services.Plans.{Plan, set_base_plan, get_base_plan}
use aegis_vpn.Services.Plans.Base.{set_base_plan_unique}

abbrev month : Plan
month = record {
  id = 1;
  days = 30;
  stars_price = 100;
  rub_price = none;
  is_active = true;
  is_base = true;
}

abbrev year : Plan
year = record {
  id = 2;
  days = 365;
  stars_price = 900;
  rub_price = some 2500;
  is_active = true;
  is_base = false;
}

abbrev year_base : Plan
year_base = record {
  id = 2;
  days = 365;
  stars_price = 900;
  rub_price = some 2500;
  is_active = true;
  is_base = true;
}

abbrev month_other : Plan
month_other = record {
  id = 1;
  days = 30;
  stars_price = 100;
  rub_price = none;
  is_active = true;
  is_base = false;
}

set_run : set_base_plan 2 (month ∷ year ∷ []) ≡ (some year_base, month_other ∷ year_base ∷ [])
unfolding set_base_plan aegis_vpn.Services.Plans.find_plan
set_run = refl

set_base_plan_unique_example :
    (get_base_plan (month_other ∷ year_base ∷ []) ≡ some year_base)
    × All (λ q. q.is_base ≡ (q.id == 2)) (month_other ∷ year_base ∷ [])
    × ((month_other ∷ year_base ∷ [])
        ≡ map (λ (q : Plan). record q { is_base = q.id == 2 }) (month ∷ year ∷ []))
set_base_plan_unique_example =
    set_base_plan_unique 2 (month ∷ year ∷ []) (month_other ∷ year_base ∷ []) year_base set_run
