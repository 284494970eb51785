-- ===== src/Control/Cascade/Kinds.antt =====
-- The cascade items of a node are routes and services.
use mathlib.Core.Path.{subst}
use aegis_vpn.Base.{
  ◌≡◌, true, false, List, [], ◌∷◌, ◌++◌, ◌==◌, Bool-cases, inl, inr, map, select, All, All-append,
  Text, Option-cases, ℕ, ◌⊎◌, Bool, sym, if◌then◌else◌, arith,
}
use aegis_vpn.Wire.{
  DesiredItem, DesiredCascadeService, DesiredCascadeRoute, cascade_service, cascade_route,
}
use aegis_vpn.Control.Db.{Server, Db, CascadeRoute, CascadeRouteExit, find_server}
use aegis_vpn.Control.Cascade.{
  RouteHash, build_cascade_items, concat_map, route_items, service_item, entry_item, route_usable,
  route_exits, supports_cascade, current_route_digest,
}

-- A route contributes nothing, or what its entry and its exits get.
route_items-cases :
    (hash : RouteHash) (db : Db) (server : Server) (r : CascadeRoute)
    → (route_items hash db server r ≡ [])
      ⊎ ((entry : Server) × (route_items hash db server r
            ≡ (if server.id == entry.id
                then entry_item (current_route_digest hash db r) r (route_exits db r.id) ∷ []
                else [])
              ++ map (service_item (current_route_digest hash db r) r entry.id) (
                  select
                    (λ (x : CascadeRouteExit × Server). server.id == x.1.id)
                    (route_exits db r.id))))
unfolding route_items
route_items-cases hash db server r =
    elim (Option-cases (find_server r.entry_server_id db.servers)) [
      | inl missing ↦ inl (ground (arith, missing))
      | inr (entry, there) ↦ elim (Bool-cases (route_usable entry (route_exits db r.id))) [
        | inl usable ↦ inr (entry, ground (arith, there, usable))
        | inr unusable ↦ inl (ground (arith, there, unusable))
      ]
    ]

module _ {ℓ} (P : DesiredItem → Type ℓ)
    (of_service : (c : DesiredCascadeService) → P (cascade_service c))
    (of_route : (r : DesiredCascadeRoute) → P (cascade_route r)) where
  services-All :
      (digest : Text) (r : CascadeRoute) (entry_id : ℕ) (es : List (CascadeRouteExit × Server))
      → All P (map (service_item digest r entry_id) es)
  unfolding service_item
  services-All digest r entry_id [] = tt
  services-All digest r entry_id ((e, s) ∷ es) = (of_service _, services-All digest r entry_id es)

  own_item-All :
      (own : Bool) (digest : Text) (r : CascadeRoute) (es : List (CascadeRouteExit × Server))
      → All P (if own then entry_item digest r es ∷ [] else [])
  unfolding entry_item
  own_item-All true digest r es = (of_route _, tt)
  own_item-All false digest r es = tt

  route_items-All :
      (hash : RouteHash) (db : Db) (server : Server) (r : CascadeRoute)
      → All P (route_items hash db server r)
  route_items-All hash db server r =
      let digest = current_route_digest hash db r in
      let exits = route_exits db r.id in
      elim (route_items-cases hash db server r) [
        | inl nothing ↦ subst (All P) (sym nothing) tt
        | inr (entry, whole) ↦ subst (All P) (sym whole) (
            All-append P _ _ (own_item-All (server.id == entry.id) digest r exits) (
              services-All digest r entry.id
                (select (λ (x : CascadeRouteExit × Server). server.id == x.1.id) exits)))
      ]

  concat_map-All :
      (hash : RouteHash) (db : Db) (server : Server) (rs : List CascadeRoute)
      → All P (concat_map (route_items hash db server) rs)
  unfolding concat_map
  concat_map-All hash db server [] = tt
  concat_map-All hash db server (r ∷ rs) =
      All-append P (route_items hash db server r) (concat_map (route_items hash db server) rs)
        (route_items-All hash db server r) (concat_map-All hash db server rs)

  pub cascade_items-All :
      (hash : RouteHash) (db : Db) (server : Server) → All P (build_cascade_items hash db server)
  unfolding build_cascade_items
  cascade_items-All hash db server = elim (Bool-cases (supports_cascade server)) [
    | inl able ↦ rw able (concat_map-All hash db server _)
    | inr unable ↦ rw unable tt
  ]
