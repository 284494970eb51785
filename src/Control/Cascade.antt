-- ===== src/Control/Cascade.antt =====
-- bot/src/services/cascade_service.py: the items of the cascade routes, and what a node's
-- acknowledgement records of them.
pub mod Kinds
pub mod Advertising
use aegis_vpn.Base.{
  ℕ, Text, codes, Option, none, some, List, [], ◌∷◌, ◌++◌, Bool, true, false, ◌==◌, ◌&&◌, ◌||◌, not,
  ltb, leb, if◌then◌else◌, select, map, any, all, text_eq, mem_text, sort_by, is_empty,
}
use aegis_vpn.Base.Decimal.{show}
use aegis_vpn.Base.Dict.{Dict, insert}
use aegis_vpn.Wire.{
  Bytes, DesiredItem, client, conn_limit, cascade_service, cascade_route, DesiredCascadeExit,
  DesiredCascadeRoute, DesiredCascadeService,
}
use aegis_vpn.Control.Db.{
  Server, Db, CascadeRoute, CascadeRouteExit, CascadeRouteAck, NodeSnapshotPage, find_server,
}

-- One exit in the payload that `current_route_digest` hashes.
pub record ExitPayload : Type 0 where
  pub exit_server_id : ℕ
  pub position : ℕ
  pub service_uuid : Text
  pub server_name : Text
  pub xhttp_path : Text
  pub host : Text
  pub port : ℕ
  pub public_key : Text
  pub short_id : Text

pub record RoutePayload : Type 0 where
  pub route_id : ℕ
  pub revision : ℕ
  pub label : Text
  pub entry_server_id : ℕ
  pub health_policy : List (Text × Text)
  pub transport_policy : List (Text × List Text)
  pub exits : List ExitPayload

-- `hashlib.sha256(json.dumps(payload, …).encode()).hexdigest()` of a route's payload.
abbrev pub RouteHash : Type 0
RouteHash = RoutePayload → Text

unfoldable pub supports_cascade : Server → Bool
supports_cascade s = elim s.features [ none ↦ false | some fs ↦ mem_text (codes "cascade-v2") fs ]

unfoldable pub role_allows : Server → Text → Bool
role_allows s role = text_eq s.node_role role || text_eq s.node_role (codes "both")

-- `ORDER BY position, exit_server_id`
abbrev exit_leb : CascadeRouteExit × Server → CascadeRouteExit × Server → Bool
exit_leb (a, s) (b, t) =
    ltb a.position b.position || (a.position == b.position && leb a.exit_server_id b.exit_server_id)

-- The join with the servers: a row whose server is gone drops out.
join_exits : List Server → List CascadeRouteExit → List (CascadeRouteExit × Server)
join_exits ss [] = []
join_exits ss (e ∷ es) = elim (find_server e.exit_server_id ss) [
  | none ↦ join_exits ss es
  | some s ↦ (e, s) ∷ join_exits ss es
]

unfoldable pub route_exits : Db → ℕ → List (CascadeRouteExit × Server)
unfolding join_exits
route_exits db i =
    sort_by exit_leb
      (join_exits db.servers (select (λ e. e.route_id == i && e.enabled) db.route_exits))

-- `route_exit.xhttp_path or "/"`
or_slash : Text → Text
or_slash p = if is_empty p then codes "/" else p

exit_payload : CascadeRouteExit × Server → ExitPayload
unfolding or_slash
exit_payload (e, s) = record {
  exit_server_id = e.exit_server_id;
  position = e.position;
  service_uuid = e.service_uuid;
  server_name = e.server_name;
  xhttp_path = or_slash e.xhttp_path;
  host = s.host;
  port = s.port;
  public_key = s.public_key;
  short_id = s.short_id;
}

-- `current_route_digest` of a route that exists.
unfoldable pub current_route_digest : RouteHash → Db → CascadeRoute → Text
unfolding exit_payload route_exits
current_route_digest hash db r = hash (record {
  route_id = r.id;
  revision = r.revision;
  label = r.label;
  entry_server_id = r.entry_server_id;
  health_policy = r.health_policy;
  transport_policy = r.transport_policy;
  exits = map exit_payload (route_exits db r.id);
})

-- Whether a route may be sent to its entry and to its exits.
unfoldable pub route_usable : Server → List (CascadeRouteExit × Server) → Bool
unfolding supports_cascade role_allows
route_usable entry [] = false
route_usable entry (e ∷ es) =
    entry.is_active
    && supports_cascade entry
    && role_allows entry (codes "entry")
    && all
        (λ (x : CascadeRouteExit × Server).
          x.1.is_active && supports_cascade x.1 && role_allows x.1 (codes "exit"))
        (e ∷ es)

-- `list((transport_policy or {}).get("inbound_tags") or ["vless-in"])`
unfoldable pub inbound_tags_of : List (Text × List Text) → List Text
inbound_tags_of [] = codes "vless-in" ∷ []
inbound_tags_of ((k, v) ∷ d) =
    if text_eq k (codes "inbound_tags")
    then elim v [ [] ↦ codes "vless-in" ∷ [] | t ∷ ts ↦ t ∷ ts ]
    else inbound_tags_of d

desired_exit : CascadeRouteExit × Server → DesiredCascadeExit
unfolding or_slash
desired_exit (e, s) = record {
  position = e.position;
  host = s.host;
  port = s.port;
  uuid = e.service_uuid;
  public_key = s.public_key;
  short_id = s.short_id;
  server_name = e.server_name;
  xhttp_path = or_slash e.xhttp_path;
}

-- The item of a route for its entry.
unfoldable pub entry_item : Text → CascadeRoute → List (CascadeRouteExit × Server) → DesiredItem
unfolding desired_exit inbound_tags_of
entry_item digest r exits = cascade_route (record {
  route_id = r.id;
  revision = r.revision;
  config_digest = digest;
  label = r.label;
  inbound_tags = inbound_tags_of r.transport_policy;
  exits = map desired_exit exits;
  health_policy = r.health_policy;
})

service_item : Text → CascadeRoute → ℕ → CascadeRouteExit × Server → DesiredItem
service_item digest r entry_id (e, s) = cascade_service (record {
  route_id = r.id;
  revision = r.revision;
  config_digest = digest;
  uuid = e.service_uuid;
  email = codes "cascade_route_" ++ show r.id ++ codes "_entry_" ++ show entry_id;
})

-- What one enabled route contributes to the items of a server.
unfoldable pub route_items : RouteHash → Db → Server → CascadeRoute → List DesiredItem
unfolding entry_item service_item route_usable current_route_digest
route_items hash db server r =
    let exits = route_exits db r.id in
    let digest = current_route_digest hash db r in
    elim (find_server r.entry_server_id db.servers) [
      | none ↦ []
      | some entry ↦
          if route_usable entry exits
          then (if server.id == entry.id then entry_item digest r exits ∷ [] else [])
            ++ map (service_item digest r entry.id)
                (select (λ (x : CascadeRouteExit × Server). server.id == x.1.id) exits)
          else []
    ]

concat_map : (CascadeRoute → List DesiredItem) → List CascadeRoute → List DesiredItem
concat_map f [] = []
concat_map f (r ∷ rs) = f r ++ concat_map f rs

unfoldable pub build_cascade_items : RouteHash → Db → Server → List DesiredItem
unfolding concat_map route_items supports_cascade
build_cascade_items hash db server =
    if supports_cascade server
    then concat_map (route_items hash db server)
        (sort_by (λ (a b : CascadeRoute). leb a.id b.id) (select (λ r. r.enabled) db.routes))
    else []

-- The revisions that the pages of a generation name: the last item of a route wins.
abbrev Revisions : Type 0
Revisions = Dict (ℕ × Text)

note_items : List DesiredItem → Revisions → Revisions
note_items [] d = d
note_items (client c ∷ is) d = note_items is d
note_items (conn_limit l ∷ is) d = note_items is d
note_items (cascade_service s ∷ is) d =
    note_items is (insert s.route_id (s.revision, s.config_digest) d)
note_items (cascade_route r ∷ is) d =
    note_items is (insert r.route_id (r.revision, r.config_digest) d)

note_pages : List NodeSnapshotPage → Revisions → Revisions
unfolding note_items
note_pages [] d = d
note_pages (p ∷ ps) d = note_pages ps (if ltb p.schema_version 2 then d else note_items p.items d)

unfoldable pub record_cascade_ack : ℕ → ℕ → Db → Db
unfolding note_pages
record_cascade_ack server_id generation db =
    let pages =
      select (λ (p : NodeSnapshotPage). p.server_id == server_id && p.generation == generation)
        db.pages in
    record db {
      route_acks =
          select (λ (a : CascadeRouteAck). not (a.server_id == server_id)) db.route_acks
          ++ map
              (λ (e : ℕ × (ℕ × Text)). record {
                route_id = e.0;
                server_id = server_id;
                revision = e.1.0;
                config_digest = e.1.1;
                generation = generation;
              })
              (note_pages pages []);
    }
