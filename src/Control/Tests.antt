-- ===== src/Control/Tests.antt =====
-- The control plane on the small world of Sample: the theorems at concrete inputs.
use mathlib.Core.List.{Memᴰ}
use aegis_vpn.Base.{
  ℕ, ◌≡◌, refl, ◌≤◌, ◌<◌, ◌⊎◌, inl, inr, Text, codes, Option, none, some, List, [], ◌∷◌, ◌++◌, true,
  false, All, concat, length, map, arith, ◌+◌, ◌-◌, ◌/◌, max, if◌then◌else◌, select, ◌≢◌, get_elem?,
  take, drop, ltb, ◌*◌,
}
use aegis_vpn.Base.Result.{Result, ok, err}
use aegis_vpn.Control.Db.{
  Server, NodeSnapshot, Db, find_server, find_snapshot, find_page, find_telemetry, NodeTelemetry,
  Device,
}
use aegis_vpn.Control.Desired.{build_desired_items, subscription_item, device_item}
use aegis_vpn.Control.Desired.Entitlement.{
  Counts, MayConnect, IsEntitled, desired-IsEntitled, desired_complete,
}
use aegis_vpn.Control.State.{
  publish_for, publish_snapshot, paginate, latest_snapshot, schema_of, prune_acknowledged_snapshots,
}
use aegis_vpn.Control.State.Paging.{concat-paginate, length-paginate, get_elem?-paginate}
use aegis_vpn.Control.State.Generations.{
  rows_of, Wanted, publish_is_latest, publish_grows, publish_idempotent,
}
use aegis_vpn.Control.State.Pruning.{prune_exact}
use aegis_vpn.Control.Router.{
  Config, NodeSyncRequest, NodeAckRequest, NodeTelemetryRequest, ControlStatus, accepted, duplicate,
  sync_node, acknowledge_snapshot, receive_telemetry, manifest_of, poll_once, is_controlled,
}
use aegis_vpn.Control.Router.Isolation.{SameAt, acknowledge_isolated}
use aegis_vpn.Control.Router.Acks.{applied_generation-acknowledge}
use aegis_vpn.Control.Router.Polls.{Answered, sync_node-Answered}
use aegis_vpn.Control.Router.Telemetry.{IsOlder, telemetry_once}
use aegis_vpn.Control.Auth.{
  Headers, authenticate_node, normalize_fingerprint, partition, authenticates,
}
use aegis_vpn.Control.Auth.Credentials.{HasPair, authenticated_by_pair}
use aegis_vpn.Control.NodeService.{publish_for_servers}
use aegis_vpn.Control.NodeService.Publishing.{publish_for_servers-IsConsistent}
use aegis_vpn.Control.Consistency.{IsConsistent}
use aegis_vpn.Control.Cascade.Advertising.{advertisable_routes}
use aegis_vpn.Control.Sample.{
  cascade_world, route, codec, hash, server, subscription, world, published, first,
}

abbrev numbers : List ℕ
numbers = 1 ∷ 2 ∷ 3 ∷ []

concat-paginate_example : concat (paginate 2 numbers) ≡ numbers
concat-paginate_example = concat-paginate numbers 2 (omega arith)

length-paginate_example : length (paginate 2 numbers) ≡ (3 + 2 - 1) / 2
length-paginate_example = length-paginate numbers 2 (omega arith)

get_elem?-paginate_example :
    get_elem? (paginate 2 numbers) 1
    ≡ (if ltb (1 * 2) (length numbers) then some (take 2 (drop (1 * 2) numbers)) else none)
get_elem?-paginate_example = get_elem?-paginate numbers 2 (omega arith) 1

publish_is_latest_example :
    let (snapshot, db') = publish_for codec hash 1 100 server world in
    (latest_snapshot 1 db'.snapshots ≡ some snapshot)
    × Wanted codec hash 1 100 server world snapshot
publish_is_latest_example = publish_is_latest codec hash 1 100 server world

publish_grows_example :
    let (snapshot, db') = publish_for codec hash 1 100 server world in
    All (λ (s : NodeSnapshot). s.generation ≤ snapshot.generation) (rows_of 1 db'.snapshots)
    × ((db' ≡ world)
        ⊎ ((0 < snapshot.generation)
            × All
                (λ (s : NodeSnapshot). s.generation < snapshot.generation)
                (rows_of 1 world.snapshots)))
publish_grows_example = publish_grows codec hash 1 100 server world

publish_for-world : publish_for codec hash 1 100 server world ≡ (first, published)
unfolding publish_for latest_snapshot aegis_vpn.Control.State.add_snapshot codes build_desired_items
    paginate aegis_vpn.Control.Db.write_server aegis_vpn.Control.State.page_rows
    aegis_vpn.Base.sort_by aegis_vpn.Control.Cascade.build_cascade_items aegis_vpn.Base.text_eq
    aegis_vpn.Base.Decimal.show aegis_vpn.Base.text_leb
publish_for-world = refl

same_items :
    build_desired_items hash published server 200 ≡ build_desired_items hash world server 100
unfolding build_desired_items aegis_vpn.Control.Cascade.build_cascade_items
same_items = refl

publish_idempotent_example : publish_for codec hash 50 200 server published ≡ (first, published)
publish_idempotent_example =
    publish_idempotent codec hash 1 50 100 200 server server world published first publish_for-world
      refl refl same_items

prune_exact_example :
    let db' = (prune_acknowledged_snapshots 1 5 published).1 in
    (find_snapshot 1 1 db'.snapshots ≡ none) × (find_page 1 1 0 db'.pages ≡ none)
prune_exact_example = prune_exact 1 5 1 1 0 published

abbrev config : Config
config = record {
  codec = codec;
  hash = hash;
  page_size = 1;
  heartbeat = 30000000;
  max_telemetry_bytes = 8;
}

abbrev poll_request : NodeSyncRequest
poll_request = record {
  applied_generation = 0;
  applied_digest = none;
  agent_version = codes "0.1.0";
  capabilities = [];
}

abbrev seen : Server
seen = record server {
  desired_generation = 1;
  control_last_seen_at = some 100;
  control_agent_version = some (codes "0.1.0");
  features = some [];
}

abbrev polled : Db
polled = record published { servers = seen ∷ [] }

sync_run : sync_node config poll_request 1 100 [] world ≡ ok (some (manifest_of first), polled)
unfolding sync_node poll_once find_server aegis_vpn.Base.text_eq codes publish_snapshot
    aegis_vpn.Control.Db.write_server latest_snapshot aegis_vpn.Control.State.add_snapshot
    aegis_vpn.Base.mem_text build_desired_items paginate aegis_vpn.Base.sort_by
    aegis_vpn.Control.State.page_rows aegis_vpn.Control.Cascade.build_cascade_items
    aegis_vpn.Base.Decimal.show aegis_vpn.Base.text_leb
sync_run = refl

sync_node-Answered_example : Answered poll_request 1 (some (manifest_of first)) polled
sync_node-Answered_example =
    sync_node-Answered config poll_request 1 100 [] world polled (some (manifest_of first)) sync_run

abbrev ack_request : NodeAckRequest
ack_request = record { generation = 1; digest = first.digest; success = true; error = none }

abbrev acked : Db
acked = record published {
  servers =
      record server {
        desired_generation = 1;
        applied_generation = 1;
        applied_digest = some first.digest;
        control_last_seen_at = some 50;
        control_last_reconciled_at = some 50;
      }
      ∷ [];
  links =
      record { subscription_id = 7; server_id = 1; is_synced = true }
      ∷ record { subscription_id = 8; server_id = 1; is_synced = true }
      ∷ [];
}

ack_run : acknowledge_snapshot 50 ack_request 1 published ≡ ok (accepted, acked)
unfolding acknowledge_snapshot find_snapshot find_server aegis_vpn.Base.text_eq codes
    aegis_vpn.Control.Router.apply_ack prune_acknowledged_snapshots
    aegis_vpn.Control.Cascade.record_cascade_ack aegis_vpn.Control.Db.write_server
    aegis_vpn.Control.Router.acked_row
ack_run = refl

abbrev waiting : Server
waiting = record server { desired_generation = 1 }

waiting-found : find_server 1 published.servers ≡ some waiting
unfolding find_server
waiting-found = refl

applied_generation-acknowledge_example :
    (after : Server) × (find_server 1 acked.servers ≡ some after)
    × (after.applied_generation ≡ (if true then max 0 1 else 0))
    × (after.desired_generation ≡ 1)
applied_generation-acknowledge_example =
    applied_generation-acknowledge 50 ack_request 1 published acked accepted waiting waiting-found
      ack_run

-- A second server beside the node.
abbrev two_servers : Db
two_servers = record published {
  servers = published.servers ++ record server { id = 2; host = codes "n2" } ∷ [];
  links = published.links ++ record { subscription_id = 7; server_id = 2; is_synced = false } ∷ [];
  route_acks =
      record {
        route_id = 4;
        server_id = 2;
        revision = 1;
        config_digest = codes "c";
        generation = 3;
      }
      ∷ [];
}

abbrev tables_of : Result ℕ (ControlStatus × Db) → Db
tables_of (err e) = two_servers
tables_of (ok (status, db)) = db

abbrev two_acked : Db
two_acked = tables_of (acknowledge_snapshot 50 ack_request 1 two_servers)

two_run : acknowledge_snapshot 50 ack_request 1 two_servers ≡ ok (accepted, two_acked)
unfolding acknowledge_snapshot find_snapshot find_server aegis_vpn.Base.text_eq codes
    aegis_vpn.Control.Router.apply_ack prune_acknowledged_snapshots
    aegis_vpn.Control.Cascade.record_cascade_ack aegis_vpn.Control.Db.write_server
    aegis_vpn.Control.Router.acked_row
two_run = refl

acknowledge_isolated_example : SameAt 2 1 0 two_servers two_acked
acknowledge_isolated_example =
    acknowledge_isolated 50 ack_request 1 2 1 0 two_servers two_acked accepted (λ same. cc) two_run

abbrev report_request : NodeTelemetryRequest
report_request = record { sequence = 4; payload = 1 ∷ 2 ∷ [] }

abbrev reported : Db
reported = record world {
  servers = record server { control_last_seen_at = some 60 } ∷ [];
  telemetry = record { server_id = 1; sequence = 4; payload = 1 ∷ 2 ∷ []; received_at = 60 } ∷ [];
}

report_run : receive_telemetry config 60 report_request 1 world ≡ ok (accepted, reported)
unfolding receive_telemetry find_server find_telemetry aegis_vpn.Control.Db.write_server
    aegis_vpn.Control.Db.write_telemetry aegis_vpn.Control.Router.seen_row
    aegis_vpn.Control.Router.telemetry_row
report_run = refl

telemetry_once_example :
    (t : NodeTelemetry) × (find_telemetry 1 reported.telemetry ≡ some t)
    × (4 ≤ t.sequence)
    × (((accepted ≡ duplicate) × (reported.telemetry ≡ world.telemetry))
        ⊎ ((accepted ≡ accepted)
            × (t.sequence ≡ 4)
            × (t.payload ≡ 1 ∷ 2 ∷ [])
            × IsOlder (find_telemetry 1 world.telemetry) 4
            × ((other : ℕ)
                → (other ≡ 1)
                  ⊎ (find_telemetry other reported.telemetry
                      ≡ find_telemetry other world.telemetry))))
telemetry_once_example =
    telemetry_once config 60 report_request 1 world reported accepted report_run

subscription-Counts : Counts world 1 100 subscription
unfolding aegis_vpn.Control.Desired.is_linked
subscription-Counts = record {
  stored = Memᴰ.head refl;
  linked = refl;
  active = refl;
  unexpired = omega arith;
}

desired-IsEntitled_example :
    All (IsEntitled world 1 100) (build_desired_items hash world server 100)
desired-IsEntitled_example = desired-IsEntitled hash world server 100

desired_complete_example :
    Memᴰ (subscription_item subscription) (build_desired_items hash world server 100)
    × ((d : Device)
        → MayConnect world subscription d
        → Memᴰ (device_item subscription d) (build_desired_items hash world server 100))
desired_complete_example =
    desired_complete hash world server 100 subscription refl subscription-Counts

abbrev headers : Headers
headers = record {
  proxy_secret = codes "p";
  fingerprint = codes "A:B";
  authorization = codes "Bearer t";
}

authenticate_run : authenticate_node (λ t. t) (some (codes "p")) 5 headers (server ∷ []) ≡ ok server
unfolding authenticate_node aegis_vpn.Base.text_eq codes partition
authenticate_run = refl

authenticated_by_pair_example :
    (some (codes "p") ≡ some headers.proxy_secret)
    × (normalize_fingerprint headers.fingerprint ≢ [])
    × ((partition headers.authorization).1 ≢ [])
    × (is_controlled server ≡ true)
    × HasPair
        (λ t. t)
        5
        (normalize_fingerprint headers.fingerprint)
        (partition headers.authorization).1
        server
    × (select
          (authenticates
            (λ t. t)
            5
            (normalize_fingerprint headers.fingerprint)
            (partition headers.authorization).1)
          (server ∷ [])
        ≡ server ∷ [])
authenticated_by_pair_example =
    authenticated_by_pair (λ t. t) (some (codes "p")) 5 headers (server ∷ []) server
      authenticate_run

world-ordered :
    (i : ℕ) (s : Server)
    → find_server i world.servers ≡ some s
    → s.applied_generation ≤ s.desired_generation
unfolding find_server
world-ordered i s e = ground (arith, e)

world-IsConsistent : IsConsistent codec world
world-IsConsistent = record {
  bounds = λ i s e. record { snapshots_le = tt; pages_le = tt; applied_le = world-ordered i s e };
  servable = tt;
}

advertised : advertisable_routes hash cascade_world (1 ∷ []) ≡ route ∷ []
unfolding advertisable_routes aegis_vpn.Base.sort_by find_server
    aegis_vpn.Control.Cascade.route_exits aegis_vpn.Control.Cascade.supports_cascade
    aegis_vpn.Base.mem_text aegis_vpn.Base.text_eq codes
    aegis_vpn.Control.Cascade.current_route_digest
advertised = refl

publish_for_servers-IsConsistent_example :
    (db' : Db) × (publish_for_servers codec hash 1 100 (4 ∷ 1 ∷ []) world ≡ ok db')
    × IsConsistent codec db'
publish_for_servers-IsConsistent_example =
    publish_for_servers-IsConsistent codec hash 1 100 (4 ∷ 1 ∷ []) world (omega arith)
      world-IsConsistent
