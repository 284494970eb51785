-- ===== src/Agent/Cascade/FailClosed.antt =====
-- agent/app/cascade.py: an inbound of a route is routed to the route's exits and nowhere else.
use aegis_vpn.Base.{
  Text, some, List, [], ◌∷◌, ◌++◌, map, Bool, true, false, ◌||◌, any, mem_text, text_eq,
  text_eq_iff, ◌≡◌, refl, sym, ap, ◌∙◌, Bool-cases, find?, inl, inr, arith, leb,
}
use mathlib.Core.Path.{subst}
use mathlib.Core.List.{Memᴰ}
use aegis_vpn.Base.Members.{Mem-append_right, Mem-append_left, Mem-map, Mem-sort_by}
use aegis_vpn.Wire.{DesiredCascadeRoute, DesiredCascadeExit}
use aegis_vpn.Agent.Xray.{Config, Outbound, Rule, other_rule, inbound_rule}
use aegis_vpn.Agent.Cascade.{
  outbound, route_rule, Managed, collect, add_route, route_accepted, no_routes, strip_managed,
  rules_of, install, apply_cascade_routes, by_route_id, list_or_nil, route_balancer, balancers_of,
}
use aegis_vpn.Agent.Cascade.Reapplied.{
  collect-accepted, applied-collected, some-injective, append-nil,
}

append_assoc {ℓ} : {A : Type ℓ} (xs ys zs : List A) → (xs ++ ys) ++ zs ≡ xs ++ (ys ++ zs)
append_assoc [] ys zs = refl
append_assoc (x ∷ xs) ys zs = ap (λ l. x ∷ l) (append_assoc xs ys zs)

-- A rule that names the inbound; of a rule that the agent did not write nothing is known, so that
-- it may.
unfoldable pub may_match : Text → Rule → Bool
may_match tag r = elim r.body [
  | other_rule text ↦ true
  | inbound_rule inbound_tags ↦ mem_text tag inbound_tags
]

mem_text-append :
    (t : Text) (xs ys : List Text) → mem_text t (xs ++ ys) ≡ (mem_text t xs || mem_text t ys)
unfolding mem_text
mem_text-append t [] ys = refl
mem_text-append t (x ∷ xs) ys = ground (arith, mem_text-append t xs ys)

any-member :
    (p : Text → Bool) (t : Text) (ts : List Text)
    → mem_text t ts ≡ true
    → any p ts ≡ false
    → p t ≡ false
unfolding mem_text
any-member p t [] m h = cc
any-member p t (s ∷ ts) m h = elim (Bool-cases (text_eq t s)) [
  | inl here ↦ subst (λ z. p z ≡ false) (sym ((text_eq_iff t s).0 here)) (ground (arith, h))
  | inr later ↦ any-member p t ts (ground (arith, m, later)) (ground (arith, h))
]

accepted-unclaimed :
    (r : DesiredCascadeRoute) (claimed : List Text) (t : Text)
    → route_accepted r claimed ≡ true
    → mem_text t r.inbound_tags ≡ true
    → mem_text t claimed ≡ false
unfolding route_accepted
accepted-unclaimed r claimed t h m =
    any-member (λ u. mem_text u claimed) t r.inbound_tags m (ground (arith, h))

-- An inbound of a route that is still to come is not claimed yet.
later-unclaimed :
    (rs : List DesiredCascadeRoute) (m done : Managed) (r : DesiredCascadeRoute) (t : Text)
    → collect rs m ≡ some done
    → Memᴰ r rs
    → mem_text t r.inbound_tags ≡ true
    → mem_text t m.claimed_inbounds ≡ false
unfolding add_route
later-unclaimed [] m done r t e there inside = elim there [ ]
later-unclaimed (x ∷ rs) m done r t e (Memᴰ.head here) inside =
    accepted-unclaimed x m.claimed_inbounds t (collect-accepted x rs m done e).0
      (subst (λ (z : DesiredCascadeRoute). mem_text t z.inbound_tags ≡ true) here inside)
later-unclaimed (x ∷ rs) m done r t e (Memᴰ.tail there) inside =
    let later =
      later-unclaimed rs (add_route x m) done r t (collect-accepted x rs m done e).1 there inside in
    ground (arith, mem_text-append t m.claimed_inbounds x.inbound_tags, later)

-- The loop collects the rules, balancers and outbounds of the routes in their order.
collected :
    (rs : List DesiredCascadeRoute) (m done : Managed)
    → collect rs m ≡ some done
    → (done.rules ≡ m.rules ++ map route_rule rs)
      × (done.balancers ≡ m.balancers ++ map route_balancer rs)
unfolding collect add_route
collected [] m done e =
    subst (λ (z : Managed). (z.rules ≡ m.rules ++ []) × (z.balancers ≡ m.balancers ++ []))
      (some-injective e) (sym (append-nil m.rules), sym (append-nil m.balancers))
collected (r ∷ rs) m done e =
    let (rules, balancers) = collected rs (add_route r m) done (collect-accepted r rs m done e).1 in
    (
      rules ∙ append_assoc m.rules (route_rule r ∷ []) (map route_rule rs),
      balancers ∙ append_assoc m.balancers (route_balancer r ∷ []) (map route_balancer rs),
    )

first_rule :
    (rs : List DesiredCascadeRoute) (m done : Managed) (r : DesiredCascadeRoute) (t : Text)
    (more : List Rule)
    → collect rs m ≡ some done
    → Memᴰ r rs
    → mem_text t r.inbound_tags ≡ true
    → find? (may_match t) (map route_rule rs ++ more) ≡ some (route_rule r)
unfolding may_match route_rule
first_rule [] m done r t more e there inside = elim there [ ]
first_rule (x ∷ rs) m done r t more e (Memᴰ.head here) inside =
    subst (λ z. find? (may_match t) (map route_rule (z ∷ rs) ++ more) ≡ some (route_rule r)) here
      (rw inside refl)
first_rule (x ∷ rs) m done r t more e (Memᴰ.tail there) inside =
    let goes_on = (collect-accepted x rs m done e).1 in
    let later : mem_text t (m.claimed_inbounds ++ x.inbound_tags) ≡ false =
      unfold add_route in later-unclaimed rs (add_route x m) done r t goes_on there inside in
    let passed : mem_text t x.inbound_tags ≡ false =
      ground (arith, mem_text-append t m.claimed_inbounds x.inbound_tags, later) in
    rw passed (first_rule rs (add_route x m) done r t more goes_on there inside)

collected_outbounds_kept :
    (rs : List DesiredCascadeRoute) (m done : Managed) (o : Outbound)
    → collect rs m ≡ some done
    → Memᴰ o m.outbounds
    → Memᴰ o done.outbounds
unfolding collect add_route
collected_outbounds_kept [] m done o e there =
    subst (λ (z : Managed). Memᴰ o z.outbounds) (some-injective e) there
collected_outbounds_kept (r ∷ rs) m done o e there =
    collected_outbounds_kept rs (add_route r m) done o (collect-accepted r rs m done e).1
      (Mem-append_left (map (outbound r.route_id) r.exits) there)

collected_outbounds :
    (rs : List DesiredCascadeRoute) (m done : Managed) (r : DesiredCascadeRoute)
    (x : DesiredCascadeExit)
    → collect rs m ≡ some done
    → Memᴰ r rs
    → Memᴰ x r.exits
    → Memᴰ (outbound r.route_id x) done.outbounds
unfolding add_route
collected_outbounds [] m done r x e there inside = elim there [ ]
collected_outbounds (q ∷ rs) m done r x e (Memᴰ.head here) inside =
    collected_outbounds_kept rs (add_route q m) done (outbound r.route_id x)
      (collect-accepted q rs m done e).1
      (subst
        (λ (z : DesiredCascadeRoute).
          Memᴰ (outbound r.route_id x) (m.outbounds ++ map (outbound z.route_id) z.exits))
        here (Mem-append_right m.outbounds (Mem-map (outbound r.route_id) inside)))
collected_outbounds (q ∷ rs) m done r x e (Memᴰ.tail there) inside =
    collected_outbounds rs (add_route q m) done r x (collect-accepted q rs m done e).1 there inside

-- Where the entry's traffic goes: to the route's balancer, which is there with the tags of the
-- route's exits as its selector, and whose exits are there as outbounds.
unfoldable pub IsRouted : Config → DesiredCascadeRoute → Text → Type 0
IsRouted config r tag =
    (find? (may_match tag) (rules_of config.routing) ≡ some (route_rule r))
    × Memᴰ (route_balancer r) (balancers_of config.routing)
    × ((x : DesiredCascadeExit)
        → Memᴰ x r.exits
        → Memᴰ (outbound r.route_id x) (list_or_nil config.outbounds))

installed-IsRouted :
    (rs : List DesiredCascadeRoute) (c : Config) (health_policy : List (Text × Text)) (m : Managed)
    (r : DesiredCascadeRoute) (tag : Text)
    → collect rs no_routes ≡ some m
    → Memᴰ r rs
    → mem_text tag r.inbound_tags ≡ true
    → IsRouted (install c health_policy m) r tag
unfolding IsRouted install rules_of balancers_of no_routes
installed-IsRouted rs c health_policy m r tag accepted there inside =
    let (rules, balancers) = collected rs no_routes m accepted in
    (
      subst (λ xs. find? (may_match tag) (xs ++ rules_of c.routing) ≡ some (route_rule r))
          (sym rules) (first_rule rs no_routes m r tag (rules_of c.routing) accepted there inside),
      subst (λ xs. Memᴰ (route_balancer r) xs) (sym balancers) (Mem-map route_balancer there),
      λ x exit.
          Mem-append_right (list_or_nil c.outbounds)
            (collected_outbounds rs no_routes m r x accepted there exit),
    )

-- After routes are applied, the first rule that may match an inbound of one of them, whatever rules
-- the configuration had before, is the rule of that route; it names the route's balancer, which is
-- there with the tags of the route's exits as its selector, and each exit is there as an outbound.
pub apply_cascade_routes-IsRouted :
    (before after : Config) (routes : List DesiredCascadeRoute) (r : DesiredCascadeRoute)
    (tag : Text)
    → apply_cascade_routes before routes ≡ some after
    → Memᴰ r routes
    → mem_text tag r.inbound_tags ≡ true
    → IsRouted after r tag
apply_cascade_routes-IsRouted before after [] r tag e there inside = elim there [ ]
apply_cascade_routes-IsRouted before after (first ∷ routes) r tag e there inside =
    let (m, accepted, installed) = applied-collected before after first routes e in
    let sorted : Memᴰ r (by_route_id (first ∷ routes)) =
      unfold by_route_id in
      Mem-sort_by (λ (a b : DesiredCascadeRoute). leb a.route_id b.route_id) r (first ∷ routes)
        there in
    subst (λ c. IsRouted c r tag) installed
      (installed-IsRouted (by_route_id (first ∷ routes)) (strip_managed before) first.health_policy
        m r tag accepted sorted inside)
