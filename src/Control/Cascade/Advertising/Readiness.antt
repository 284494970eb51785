-- ===== src/Control/Cascade/Advertising/Readiness.antt =====
-- A route is advertised only when all of its servers run it as it is now.
use mathlib.Core.List.{Memᴰ}
use aegis_vpn.Base.{ℕ, ◌≡◌, List, [], ◌∷◌, Bool, true, all, All, arith, some, ◌≢◌}
use aegis_vpn.Control.Db.{Server, CascadeRoute, CascadeRouteAck, Db, find_server}
use aegis_vpn.Control.Cascade.{RouteHash, route_exits, supports_cascade, current_route_digest}
use aegis_vpn.Control.Cascade.Advertising.{enabled_routes, is_alone, participants}

module _ {ℓ} {A : Type ℓ} where
  all-All : (p : A → Bool) (xs : List A) → all p xs ≡ true → All (λ x. p x ≡ true) xs
  all-All p [] h = tt
  all-All p (x ∷ xs) h = (ground (arith, h), all-All p xs (ground (arith, h)))

-- A server that runs the route as it is now.
pub record Runs (hash : RouteHash) (db : Db) (r : CascadeRoute) (p : Server) : Type 0 where
  pub active : p.is_active ≡ true
  pub able : supports_cascade p ≡ true
  pub ack : CascadeRouteAck
  pub stored : Memᴰ ack db.route_acks
  pub of_server : ack.server_id ≡ p.id
  pub of_route : ack.route_id ≡ r.id
  pub revision_eq : ack.revision ≡ r.revision
  pub digest_eq : ack.config_digest ≡ current_route_digest hash db r

-- A route that may be offered.
pub record IsReady (hash : RouteHash) (db : Db) (entry_ids : List ℕ) (r : CascadeRoute)
    : Type 0 where
  pub entry : Server
  pub found : find_server r.entry_server_id db.servers ≡ some entry
  pub has_exit : route_exits db r.id ≢ []
  pub alone : is_alone (enabled_routes db entry_ids) r ≡ true
  pub all_run : All (Runs hash db r) (participants db r entry)
