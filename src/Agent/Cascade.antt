-- ===== src/Agent/Cascade.antt =====
-- agent/app/cascade.py: the routes of the cascade in the node's Xray configuration. What the agent
-- manages there carries the tag prefix "cascade-".
pub mod Reapplied
pub mod FailClosed
use aegis_vpn.Base.{
  ℕ, Text, codes, Option, none, some, List, [], ◌∷◌, ◌++◌, map, Bool, true, false, ◌&&◌, ◌||◌, not,
  leb, any, all, select, text_eq, mem_text, starts_with, is_empty, sort_by, if◌then◌else◌,
}
use aegis_vpn.Base.Decimal.{show}
use aegis_vpn.Base.Equality.{equal}
use aegis_vpn.Wire.{DesiredCascadeRoute, DesiredCascadeExit}
use aegis_vpn.Agent.Xray.{
  Config, Outbound, OutboundBody, Rule, Balancer, Routing, Observatory, text_or, vless_exit,
  inbound_rule, least_ping, probes,
}
use native.Mathlib.Decide.{ℕ_discrete}

unfoldable pub tag_prefix : Text
unfolding codes
tag_prefix = codes "cascade-"

-- `str(tag).startswith(_TAG_PREFIX)`
unfoldable pub is_managed : Option Text → Bool
unfolding tag_prefix starts_with
is_managed none = false
is_managed (some tag) = starts_with tag_prefix tag

abbrev pub list_or_nil {ℓ} : {A : Type ℓ} → Option (List A) → List A
list_or_nil none = []
list_or_nil (some xs) = xs

abbrev pub has_any {ℓ} : {A : Type ℓ} → List A → Bool
has_any [] = false
has_any (x ∷ xs) = true

unfoldable pub exit_tag : ℕ → DesiredCascadeExit → Text
unfolding tag_prefix codes show
exit_tag route_id e = tag_prefix ++ show route_id ++ codes "-exit-" ++ show e.position

unfoldable pub balancer_tag : ℕ → Text
unfolding tag_prefix codes show
balancer_tag route_id = tag_prefix ++ show route_id ++ codes "-balancer"

-- `_outbound`
unfoldable pub outbound : ℕ → DesiredCascadeExit → Outbound
unfolding exit_tag codes
outbound route_id e = record {
  tag = some (exit_tag route_id e);
  body =
      vless_exit e.host e.port e.uuid e.public_key e.short_id e.server_name
        (if is_empty e.xhttp_path then codes "/" else e.xhttp_path);
}

-- The filters of `_strip_managed`.
unfoldable pub own_outbounds : List Outbound → List Outbound
unfolding is_managed
own_outbounds = select (λ o. not (is_managed o.tag))

unfoldable pub own_rules : List Rule → List Rule
unfolding is_managed
own_rules = select (λ r. not (is_managed r.balancer_tag))

unfoldable pub own_balancers : List Balancer → List Balancer
unfolding is_managed
own_balancers = select (λ b. not (is_managed b.tag))

-- An empty object is false in `config.get("routing") or {}`.
unfoldable pub is_empty_routing : Routing → Bool
is_empty_routing r = elim r.rules [
  | some rules ↦ false
  | none ↦ elim r.balancers [ some balancers ↦ false | none ↦ is_empty r.rest ]
]

unfoldable pub strip_routing : Routing → Routing
unfolding own_rules own_balancers is_empty_routing
strip_routing r =
    let balancers = own_balancers (list_or_nil r.balancers) in
    if is_empty_routing r then r else record {
      rules = some (own_rules (list_or_nil r.rules));
      balancers = if has_any balancers then some balancers else none;
      rest = r.rest;
    }

unfoldable pub balancers_of : Option Routing → List Balancer
balancers_of none = []
balancers_of (some r) = list_or_nil r.balancers

unfoldable pub had_managed : Config → Bool
unfolding is_managed balancers_of
had_managed config =
    any (λ (o : Outbound). is_managed o.tag) (list_or_nil config.outbounds)
    || any (λ (b : Balancer). is_managed b.tag) (balancers_of config.routing)

abbrev pub optionally {ℓ} : {A : Type ℓ} → (A → A) → Option A → Option A
optionally f none = none
optionally f (some x) = some (f x)

unfoldable pub strip_managed : Config → Config
unfolding had_managed own_outbounds strip_routing
strip_managed config = record {
  inbounds = config.inbounds;
  outbounds = optionally own_outbounds config.outbounds;
  routing = optionally strip_routing config.routing;
  observatory = if had_managed config then none else config.observatory;
  rest = config.rest;
}

-- `route.health_policy.get(key)`
unfoldable pub policy : Text → List (Text × Text) → Option Text
policy key [] = none
policy key ((k, v) ∷ rest) = if text_eq k key then some v else policy key rest

-- What the loop over the routes collects.
pub record Managed : Type 0 where
  pub claimed_inbounds : List Text
  pub outbounds : List Outbound
  pub all_subjects : List Text
  pub rules : List Rule
  pub balancers : List Balancer

unfoldable pub no_routes : Managed
no_routes = record {
  claimed_inbounds = [];
  outbounds = [];
  all_subjects = [];
  rules = [];
  balancers = [];
}

unfoldable pub route_accepted : DesiredCascadeRoute → List Text → Bool
unfolding codes policy
route_accepted route claimed =
    not (any (λ t. mem_text t claimed) route.inbound_tags)
    && text_eq (text_or (policy (codes "strategy") route.health_policy) (codes "leastPing"))
        (codes "leastPing")
    && all (λ (e : DesiredCascadeExit). starts_with (codes "/") e.xhttp_path) route.exits

unfoldable pub exit_tags : DesiredCascadeRoute → List Text
unfolding exit_tag
exit_tags route = map (exit_tag route.route_id) route.exits

unfoldable pub route_rule : DesiredCascadeRoute → Rule
unfolding balancer_tag
route_rule route = record {
  balancer_tag = some (balancer_tag route.route_id);
  body = inbound_rule route.inbound_tags;
}

unfoldable pub route_balancer : DesiredCascadeRoute → Balancer
unfolding balancer_tag exit_tags
route_balancer route = record {
  tag = some (balancer_tag route.route_id);
  body = least_ping (exit_tags route);
}

unfoldable pub add_route : DesiredCascadeRoute → Managed → Managed
unfolding outbound exit_tags route_rule route_balancer
add_route route m = record {
  claimed_inbounds = m.claimed_inbounds ++ route.inbound_tags;
  outbounds = m.outbounds ++ map (outbound route.route_id) route.exits;
  all_subjects = m.all_subjects ++ exit_tags route;
  rules = m.rules ++ route_rule route ∷ [];
  balancers = m.balancers ++ route_balancer route ∷ [];
}

-- The loop; `none` is `CascadeConfigError`.
unfoldable pub collect : List DesiredCascadeRoute → Managed → Option Managed
unfolding route_accepted add_route
collect [] m = some m
collect (route ∷ routes) m =
    let rest = collect routes (add_route route m) in
    if route_accepted route m.claimed_inbounds then rest else none

unfoldable pub rules_of : Option Routing → List Rule
rules_of none = []
rules_of (some r) = list_or_nil r.rules

unfoldable pub rest_of : Option Routing → Text
rest_of none = []
rest_of (some r) = r.rest

-- The end of `apply_cascade_routes`, on the stripped configuration.
unfoldable pub install : Config → List (Text × Text) → Managed → Config
unfolding codes policy rules_of rest_of
install config health_policy m = record {
  inbounds = config.inbounds;
  outbounds = some (list_or_nil config.outbounds ++ m.outbounds);
  routing = some (record {
    rules = some (m.rules ++ rules_of config.routing);
    balancers = some m.balancers;
    rest = rest_of config.routing;
  });
  observatory = some (
      probes m.all_subjects
        (text_or (policy (codes "probe_url") health_policy)
          (codes "https://www.gstatic.com/generate_204"))
        (text_or (policy (codes "probe_interval") health_policy) (codes "10s")));
  rest = config.rest;
}

unfoldable pub by_route_id : List DesiredCascadeRoute → List DesiredCascadeRoute
by_route_id = sort_by (λ (a b : DesiredCascadeRoute). leb a.route_id b.route_id)

unfoldable pub install_collected : Config → List (Text × Text) → Option Managed → Option Config
install_collected config health_policy none = none
install_collected config health_policy (some m) = some (install config health_policy m)

-- `apply_cascade_routes`: the configuration that it leaves, or `CascadeConfigError`, after which the
-- caller drops the configuration.
unfoldable pub apply_cascade_routes : Config → List DesiredCascadeRoute → Option Config
unfolding strip_managed collect install_collected by_route_id no_routes
apply_cascade_routes config [] = some (strip_managed config)
apply_cascade_routes config (first ∷ routes) =
    install_collected (strip_managed config) first.health_policy
      (collect (by_route_id (first ∷ routes)) no_routes)

unfoldable pub Config-discrete : Discrete Config
Config-discrete = hlevel ℕ_discrete

-- `config != before`, the value that it returns.
unfoldable pub cascade_changed : Config → Config → Bool
unfolding equal
cascade_changed before config = not (equal Config-discrete config before)
