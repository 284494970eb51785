-- ===== src/Control/Cascade/Advertising.antt =====
-- `advertisable_routes` of bot/src/services/cascade_service.py: the routes that may be offered to
-- clients.
pub mod Readiness
use aegis_vpn.Base.{
  ℕ, Text, Option, none, some, List, [], ◌∷◌, Bool, true, false, ◌==◌, ◌&&◌, not, leb, select, map,
  any, all, length, sort_by, text_eq,
}
use aegis_vpn.Control.Db.{Server, CascadeRoute, CascadeRouteExit, CascadeRouteAck, Db, find_server}
use aegis_vpn.Control.Cascade.{RouteHash, route_exits, supports_cascade, current_route_digest}

abbrev pub among : ℕ → List ℕ → Bool
among i is = any (λ j. j == i) is

-- Equality of two sets that are given as lists.
unfoldable pub same_set : List ℕ → List ℕ → Bool
same_set is js = all (λ i. among i js) is && all (λ j. among j is) js

-- The enabled routes of the entries, by their ids.
unfoldable pub enabled_routes : Db → List ℕ → List CascadeRoute
enabled_routes db entry_ids =
    sort_by (λ (a b : CascadeRoute). leb a.id b.id)
      (select (λ r. r.enabled && among r.entry_server_id entry_ids) db.routes)

-- The route is the only one of its entry.
unfoldable pub is_alone : List CascadeRoute → CascadeRoute → Bool
is_alone routes r =
    length (select (λ (other : CascadeRoute). other.entry_server_id == r.entry_server_id) routes)
    == 1

-- `[entry, *exits]`
unfoldable pub participants : Db → CascadeRoute → Server → List Server
participants db r entry = entry ∷ map (λ (x : CascadeRouteExit × Server). x.1) (route_exits db r.id)

-- An acknowledgement of the route as it is now.
unfoldable pub is_current_ack : CascadeRoute → Text → CascadeRouteAck → Bool
is_current_ack r digest a = a.revision == r.revision && text_eq a.config_digest digest

unfoldable pub acks_of : Db → CascadeRoute → List Server → List CascadeRouteAck
acks_of db r ps =
    select
      (λ (a : CascadeRouteAck).
        a.route_id == r.id && among a.server_id (map (λ (p : Server). p.id) ps))
      db.route_acks

has_exits : List (CascadeRouteExit × Server) → Bool
has_exits [] = false
has_exits (x ∷ xs) = true

-- The checks of one route with its entry.
unfoldable pub is_ready : RouteHash → Db → CascadeRoute → Bool
unfolding participants acks_of is_current_ack same_set has_exits
is_ready hash db r = elim (find_server r.entry_server_id db.servers) [
  | none ↦ false
  | some entry ↦
      let ps = participants db r entry in
      has_exits (route_exits db r.id)
      && all (λ (p : Server). p.is_active && supports_cascade p) ps
      && same_set
          (map (λ (a : CascadeRouteAck). a.server_id)
            (select (is_current_ack r (current_route_digest hash db r)) (acks_of db r ps)))
          (map (λ (p : Server). p.id) ps)
]

-- The routes by entry are visited in the order of their first routes, which for entries with one
-- route is the order of the routes.
unfoldable pub advertisable_routes : RouteHash → Db → List ℕ → List CascadeRoute
unfolding enabled_routes is_alone is_ready
advertisable_routes hash db entry_ids =
    let routes = enabled_routes db entry_ids in
    select (λ r. is_alone routes r && is_ready hash db r) routes
