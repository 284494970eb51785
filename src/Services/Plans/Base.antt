-- ===== src/Services/Plans/Base.antt =====
-- There is one base plan (bot/src/services/plan_service.py).
use mathlib.Core.Path.{subst}
use aegis_vpn.Base.{
  ℕ, ◌≡◌, refl, some, List, [], ◌∷◌, ◌==◌, map, All, arith, Option-cases, inl, inr, ap, ◌∙◌,
  Bool-cases, if◌then◌else◌,
}
use aegis_vpn.Services.Plans.{Plan, find_plan, mark, set_base_plan, get_base_plan}

marked-IsBase : (i : ℕ) (ps : List Plan) → All (λ p. p.is_base ≡ (p.id == i)) (map (mark i) ps)
unfolding mark
marked-IsBase i [] = tt
marked-IsBase i (p ∷ ps) = (refl, marked-IsBase i ps)

get_base_plan-mark :
    (i : ℕ) (p : Plan) (ps : List Plan)
    → find_plan i ps ≡ some p
    → get_base_plan (map (mark i) ps) ≡ some (mark i p)
unfolding find_plan get_base_plan mark
get_base_plan-mark i p [] e = ground (arith, e)
get_base_plan-mark i p (q ∷ qs) e = elim (Bool-cases (q.id == i)) [
  | inl here ↦
      let same : q ≡ p = ground (arith, here, e) in
      ap (λ b. if b then some (mark i q) else get_base_plan (map (mark i) qs)) here
      ∙ ap (λ (r : Plan). some (mark i r)) same
  | inr there ↦
      let later : find_plan i qs ≡ some p = ground (arith, there, e) in
      ap (λ b. if b then some (mark i q) else get_base_plan (map (mark i) qs)) there
      ∙ get_base_plan-mark i p qs later
]

-- After a plan has been made the base plan, it is the one that is found as such, and a plan of the
-- table is marked exactly if it has its id; the plans are else the same.
pub set_base_plan_unique :
    (i : ℕ) (ps ps' : List Plan) (p : Plan)
    → set_base_plan i ps ≡ (some p, ps')
    → (get_base_plan ps' ≡ some p)
      × All (λ q. q.is_base ≡ (q.id == i)) ps'
      × (ps' ≡ map (λ (q : Plan). record q { is_base = q.id == i }) ps)
unfolding set_base_plan mark
set_base_plan_unique i ps ps' p e = elim (Option-cases (find_plan i ps)) [
  | inl missing ↦ ground (arith, missing, e)
  | inr (q, there) ↦
      let plan : mark i q ≡ p = ground (arith, there, e) in
      let table : map (mark i) ps ≡ ps' = ground (arith, there, e) in
      subst
        (λ qs.
          (get_base_plan qs ≡ some p)
          × All (λ q. q.is_base ≡ (q.id == i)) qs
          × (qs ≡ map (λ (q : Plan). record q { is_base = q.id == i }) ps))
        table (get_base_plan-mark i q ps there ∙ ap some plan, marked-IsBase i ps, refl)
]
