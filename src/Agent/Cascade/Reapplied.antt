-- ===== src/Agent/Cascade/Reapplied.antt =====
-- agent/app/cascade.py: what the agent manages in the configuration is told apart from the rest, so
-- applying the same routes again finds nothing to change.
use aegis_vpn.Base.{
  ℕ, Text, codes, Option, none, some, List, [], ◌∷◌, ◌++◌, map, Bool, true, false, not, any, select,
  starts_with, if◌then◌else◌, ◌≡◌, refl, sym, ap, ◌∙◌, Bool-cases, Option-cases, inl, inr,
  select-append, arith,
}
use mathlib.Core.Path.{subst}
use aegis_vpn.Base.Decimal.{show}
use aegis_vpn.Wire.{DesiredCascadeRoute, DesiredCascadeExit}
use aegis_vpn.Agent.Xray.{Config, Outbound, Rule, Balancer, Routing}
use aegis_vpn.Agent.Cascade.{
  is_managed, tag_prefix, exit_tag, balancer_tag, outbound, route_rule, own_outbounds, own_rules,
  Managed, collect, add_route, route_accepted, no_routes, strip_managed, strip_routing, rules_of,
  rest_of, install, apply_cascade_routes, install_collected, by_route_id, list_or_nil, optionally,
  is_empty_routing, own_balancers, had_managed, has_any, balancers_of,
}

select-passed {ℓ} :
    {A : Type ℓ} (p : A → Bool) (x : A) (xs : List A)
    → p x ≡ false
    → select p (x ∷ xs) ≡ select p xs
select-passed p x xs e = rw e refl

-- What is selected is selected again.
select-select {ℓ} : {A : Type ℓ} (p : A → Bool) (xs : List A) → select p (select p xs) ≡ select p xs
select-select p [] = refl
select-select p (x ∷ xs) = elim (Bool-cases (p x)) [
  | inl chosen ↦ rw (chosen, chosen) (ap (λ ys. x ∷ ys) (select-select p xs))
  | inr passed ↦ rw passed (select-select p xs)
]

starts_with-append : (p t : Text) → starts_with p (p ++ t) ≡ true
unfolding starts_with
starts_with-append [] t = refl
starts_with-append (c ∷ cs) t = ground (arith, starts_with-append cs t)

exit_tag_managed : (id : ℕ) (e : DesiredCascadeExit) → is_managed (some (exit_tag id e)) ≡ true
unfolding is_managed exit_tag
exit_tag_managed id e = starts_with-append tag_prefix (show id ++ codes "-exit-" ++ show e.position)

balancer_tag_managed : (id : ℕ) → is_managed (some (balancer_tag id)) ≡ true
unfolding is_managed balancer_tag
balancer_tag_managed id = starts_with-append tag_prefix (show id ++ codes "-balancer")

own_outbounds-exits :
    (id : ℕ) (es : List DesiredCascadeExit) → own_outbounds (map (outbound id) es) ≡ []
unfolding own_outbounds outbound
own_outbounds-exits id [] = refl
own_outbounds-exits id (e ∷ es) =
    select-passed (λ (o : Outbound). not (is_managed o.tag)) (outbound id e) (map (outbound id) es)
      (ap not (exit_tag_managed id e))
    ∙ own_outbounds-exits id es

own_rules-route : (r : DesiredCascadeRoute) → own_rules (route_rule r ∷ []) ≡ []
unfolding own_rules route_rule
own_rules-route r =
    select-passed (λ (q : Rule). not (is_managed q.balancer_tag)) (route_rule r) []
      (ap not (balancer_tag_managed r.route_id))

own_outbounds-append :
    (xs ys : List Outbound) → own_outbounds (xs ++ ys) ≡ own_outbounds xs ++ own_outbounds ys
unfolding own_outbounds
own_outbounds-append xs ys = select-append (λ o. not (is_managed o.tag)) xs ys

own_rules-append : (xs ys : List Rule) → own_rules (xs ++ ys) ≡ own_rules xs ++ own_rules ys
unfolding own_rules
own_rules-append xs ys = select-append (λ r. not (is_managed r.balancer_tag)) xs ys

-- What the loop collects is all managed.
pub IsOurs : Managed → Type 0
IsOurs m = (own_outbounds m.outbounds ≡ []) × (own_rules m.rules ≡ [])

add_route-IsOurs : (r : DesiredCascadeRoute) (m : Managed) → IsOurs m → IsOurs (add_route r m)
unfolding add_route IsOurs
add_route-IsOurs r m h = (
  own_outbounds-append m.outbounds (map (outbound r.route_id) r.exits)
      ∙ ap (λ xs. xs ++ own_outbounds (map (outbound r.route_id) r.exits)) h.0
      ∙ own_outbounds-exits r.route_id r.exits,
  own_rules-append m.rules (route_rule r ∷ [])
      ∙ ap (λ xs. xs ++ own_rules (route_rule r ∷ [])) h.1
      ∙ own_rules-route r,
)

-- A loop that ends has accepted its first route and gone on.
pub collect-accepted :
    (r : DesiredCascadeRoute) (rs : List DesiredCascadeRoute) (m done : Managed)
    → collect (r ∷ rs) m ≡ some done
    → (route_accepted r m.claimed_inbounds ≡ true) × (collect rs (add_route r m) ≡ some done)
unfolding collect
collect-accepted r rs m done e = elim (Bool-cases (route_accepted r m.claimed_inbounds)) [
  | inl yes_it ↦ (yes_it, rw yes_it at e)
  | inr refused ↦ let e' : none ≡ some done = rw refused at e in cc
]

pub some-injective {ℓ} : {A : Type ℓ} {x y : A} → some x ≡ some y → x ≡ y
some-injective e = cc

collect-IsOurs :
    (rs : List DesiredCascadeRoute) (m done : Managed)
    → collect rs m ≡ some done
    → IsOurs m
    → IsOurs done
unfolding collect
collect-IsOurs [] m done e h = subst IsOurs (some-injective e) h
collect-IsOurs (r ∷ rs) m done e h =
    collect-IsOurs rs (add_route r m) done (collect-accepted r rs m done e).1
      (add_route-IsOurs r m h)

pub append-nil {ℓ} : {A : Type ℓ} (xs : List A) → xs ++ [] ≡ xs
append-nil [] = refl
append-nil (x ∷ xs) = ap (λ ys. x ∷ ys) (append-nil xs)

own_rules_own : (xs : List Rule) → own_rules (own_rules xs) ≡ own_rules xs
unfolding own_rules
own_rules_own xs = select-select (λ (r : Rule). not (is_managed r.balancer_tag)) xs

own_outbounds_stripped :
    (o : Option (List Outbound))
    → own_outbounds (list_or_nil (optionally own_outbounds o))
      ≡ list_or_nil (optionally own_outbounds o)
unfolding own_outbounds
own_outbounds_stripped none = refl
own_outbounds_stripped (some xs) = select-select (λ (o : Outbound). not (is_managed o.tag)) xs

empty_routing_has_no_rules : (r : Routing) → is_empty_routing r ≡ true → list_or_nil r.rules ≡ []
unfolding is_empty_routing
empty_routing_has_no_rules r e = elim (Option-cases r.rules) [
  | inl absent ↦ rw absent refl
  | inr (rules, there) ↦ let e' : false ≡ true = rw there at e in cc
]

own_rules_stripped :
    (o : Option Routing)
    → own_rules (rules_of (optionally strip_routing o)) ≡ rules_of (optionally strip_routing o)
unfolding rules_of strip_routing
own_rules_stripped none = unfold own_rules in refl
own_rules_stripped (some r) = elim (Bool-cases (is_empty_routing r)) [
  | inl empty ↦ rw empty (rw (empty_routing_has_no_rules r empty) (unfold own_rules in refl))
  | inr full ↦ rw full (own_rules_own (list_or_nil r.rules))
]

-- Routing rules that have been stripped are kept by the next stripping.
own_rules_kept :
    (c : Config)
    → own_rules (rules_of (strip_managed c).routing) ≡ rules_of (strip_managed c).routing
unfolding strip_managed
own_rules_kept c = own_rules_stripped c.routing

own_outbounds_kept :
    (c : Config)
    → own_outbounds (list_or_nil (strip_managed c).outbounds)
      ≡ list_or_nil (strip_managed c).outbounds
unfolding strip_managed
own_outbounds_kept c = own_outbounds_stripped c.outbounds

-- Installing what is ours, stripping it and installing it again changes nothing.
reinstalled :
    (c : Config) (policy : List (Text × Text)) (m : Managed)
    → IsOurs m
    → install (strip_managed (install (strip_managed c) policy m)) policy m
      ≡ install (strip_managed c) policy m
unfolding install strip_managed strip_routing is_empty_routing IsOurs rules_of rest_of
reinstalled c policy m h =
    let outs : own_outbounds (list_or_nil (strip_managed c).outbounds ++ m.outbounds)
        ≡ list_or_nil (strip_managed c).outbounds =
      own_outbounds-append (list_or_nil (strip_managed c).outbounds) m.outbounds
      ∙ ap (λ xs. own_outbounds (list_or_nil (strip_managed c).outbounds) ++ xs) h.0
      ∙ append-nil (own_outbounds (list_or_nil (strip_managed c).outbounds))
      ∙ own_outbounds_kept c in
    let rules : own_rules (m.rules ++ rules_of (strip_managed c).routing)
        ≡ rules_of (strip_managed c).routing =
      own_rules-append m.rules (rules_of (strip_managed c).routing)
      ∙ ap (λ xs. xs ++ own_rules (rules_of (strip_managed c).routing)) h.1
      ∙ own_rules_kept c in
    λ i. record {
      inbounds = c.inbounds;
      outbounds = some (outs i ++ m.outbounds);
      routing = some (record {
        rules = some (m.rules ++ rules i);
        balancers = some m.balancers;
        rest = rest_of (strip_managed c).routing;
      });
      observatory = (install (strip_managed c) policy m).observatory;
      rest = c.rest;
    }

any-select-not {ℓ} :
    {A : Type ℓ} (p : A → Bool) (xs : List A) → any p (select (λ x. not (p x)) xs) ≡ false
any-select-not p [] = refl
any-select-not p (x ∷ xs) = ground (arith, any-select-not p xs)

present_balancers : (bs : List Balancer) → list_or_nil (if has_any bs then some bs else none) ≡ bs
present_balancers [] = refl
present_balancers (b ∷ bs) = refl

own_balancers_own : (bs : List Balancer) → own_balancers (own_balancers bs) ≡ own_balancers bs
unfolding own_balancers
own_balancers_own bs = select-select (λ (b : Balancer). not (is_managed b.tag)) bs

strip_routing-full :
    (r : Routing) → is_empty_routing r ≡ false → strip_routing (strip_routing r) ≡ strip_routing r
unfolding strip_routing is_empty_routing
strip_routing-full r full =
    let bs = own_balancers (list_or_nil r.balancers) in
    let balancers : own_balancers (list_or_nil (if has_any bs then some bs else none)) ≡ bs =
      ap own_balancers (present_balancers bs) ∙ own_balancers_own (list_or_nil r.balancers) in
    rw full (λ i. record {
      rules = some (own_rules_own (list_or_nil r.rules) i);
      balancers = if has_any (balancers i) then some (balancers i) else none;
      rest = r.rest;
    })

strip_routing-empty : (r : Routing) → is_empty_routing r ≡ true → strip_routing r ≡ r
unfolding strip_routing
strip_routing-empty r empty = rw empty refl

strip_routing_idempotent :
    (o : Option Routing)
    → optionally strip_routing (optionally strip_routing o) ≡ optionally strip_routing o
strip_routing_idempotent none = refl
strip_routing_idempotent (some r) = elim (Bool-cases (is_empty_routing r)) [
  | inl empty ↦ ap (λ q. some (strip_routing q)) (strip_routing-empty r empty)
  | inr full ↦ ap some (strip_routing-full r full)
]

own_outbounds_idempotent :
    (o : Option (List Outbound))
    → optionally own_outbounds (optionally own_outbounds o) ≡ optionally own_outbounds o
unfolding own_outbounds
own_outbounds_idempotent none = refl
own_outbounds_idempotent (some xs) =
    ap some (select-select (λ (o : Outbound). not (is_managed o.tag)) xs)

no_managed_outbounds :
    (o : Option (List Outbound))
    → any (λ (o : Outbound). is_managed o.tag) (list_or_nil (optionally own_outbounds o)) ≡ false
unfolding own_outbounds
no_managed_outbounds none = refl
no_managed_outbounds (some xs) = any-select-not (λ (o : Outbound). is_managed o.tag) xs

empty_routing_has_no_balancers :
    (r : Routing) → is_empty_routing r ≡ true → list_or_nil r.balancers ≡ []
unfolding is_empty_routing
empty_routing_has_no_balancers r e = elim (Option-cases r.balancers) [
  | inl absent ↦ rw absent refl
  | inr (balancers, there) ↦ elim (Option-cases r.rules) [
    | inl absent ↦ let e' : false ≡ true = rw (absent, there) at e in cc
    | inr (rules, also) ↦ let e' : false ≡ true = rw also at e in cc
  ]
]

no_managed_balancers :
    (o : Option Routing)
    → any (λ (b : Balancer). is_managed b.tag) (balancers_of (optionally strip_routing o)) ≡ false
unfolding balancers_of strip_routing
no_managed_balancers none = refl
no_managed_balancers (some r) = elim (Bool-cases (is_empty_routing r)) [
  | inl empty ↦ rw empty (rw (empty_routing_has_no_balancers r empty) refl)
  | inr full ↦
      rw (full, present_balancers (own_balancers (list_or_nil r.balancers)))
        (unfold own_balancers in
          any-select-not (λ (b : Balancer). is_managed b.tag) (list_or_nil r.balancers))
]

strip_removes_managed : (c : Config) → had_managed (strip_managed c) ≡ false
unfolding had_managed strip_managed
strip_removes_managed c = rw (no_managed_outbounds c.outbounds) (no_managed_balancers c.routing)

strip_idempotent : (c : Config) → strip_managed (strip_managed c) ≡ strip_managed c
unfolding strip_managed
strip_idempotent c = λ i. record {
  inbounds = c.inbounds;
  outbounds = own_outbounds_idempotent c.outbounds i;
  routing = strip_routing_idempotent c.routing i;
  observatory = if strip_removes_managed c i then none else (strip_managed c).observatory;
  rest = c.rest;
}

no_routes-IsOurs : IsOurs no_routes
unfolding IsOurs no_routes own_outbounds own_rules
no_routes-IsOurs = (refl, refl)

-- Routes that are accepted have been collected and installed.
pub applied-collected :
    (before after : Config) (first : DesiredCascadeRoute) (routes : List DesiredCascadeRoute)
    → apply_cascade_routes before (first ∷ routes) ≡ some after
    → (m : Managed) × (collect (by_route_id (first ∷ routes)) no_routes ≡ some m)
      × (install (strip_managed before) first.health_policy m ≡ after)
unfolding apply_cascade_routes install_collected
applied-collected before after first routes e =
    elim (Option-cases (collect (by_route_id (first ∷ routes)) no_routes)) [
      | inl refused ↦
          let e' : none ≡ some after =
            subst (λ o. install_collected (strip_managed before) first.health_policy o ≡ some after)
              refused e in
          cc
      | inr (m, accepted) ↦ (
        m,
        accepted,
        some-injective (
            subst (λ o. install_collected (strip_managed before) first.health_policy o ≡ some after)
              accepted e),
      )
    ]

-- Applying routes to the configuration that they have made leaves it as it is: whatever the
-- configuration was before, if the routes were accepted once, they are accepted again and the
-- second application changes nothing.
pub apply_cascade_routes_idempotent :
    (before after : Config) (routes : List DesiredCascadeRoute)
    → apply_cascade_routes before routes ≡ some after
    → apply_cascade_routes after routes ≡ some after
unfolding apply_cascade_routes
apply_cascade_routes_idempotent before after [] e =
    subst (λ c. some (strip_managed c) ≡ some c) (some-injective e)
      (ap some (strip_idempotent before))
apply_cascade_routes_idempotent before after (first ∷ routes) e =
    let (m, accepted, installed) = applied-collected before after first routes e in
    subst (λ o. install_collected (strip_managed after) first.health_policy o ≡ some after)
      (sym accepted)
      (subst (λ c. install_collected (strip_managed c) first.health_policy (some m) ≡ some c)
        installed
        (unfold install_collected in
          ap some (
            reinstalled before first.health_policy m (
              collect-IsOurs (by_route_id (first ∷ routes)) no_routes m accepted
                no_routes-IsOurs))))
