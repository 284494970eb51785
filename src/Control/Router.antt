-- ===== src/Control/Router.antt =====
-- bot/src/control/router.py: the endpoints that a node calls, after `authenticate_node` has named
-- its server. An HTTP error is the status code; it commits nothing.
pub mod Acks
pub mod Isolation
pub mod Polls
pub mod Telemetry
use aegis_vpn.Base.{
  ℕ, zero, suc, ◌+◌, ◌-◌, ◌≤◌, max, Text, codes, Option, none, some, List, [], ◌∷◌, Bool, true,
  false, ◌==◌, ◌&&◌, ◌||◌, not, ltb, leb, if◌then◌else◌, map, length, text_eq, opt_text_eq,
  mem_text, text_leb, sort_by, is_empty, all,
}
use aegis_vpn.Base.Result.{Result, ok, err}
use aegis_vpn.Wire.{SnapshotManifest, SnapshotPage, Codec, Bytes, item_valid, known_schema}
use aegis_vpn.Control.Db.{
  Server, SubscriptionServer, NodeSnapshot, NodeSnapshotPage, NodeTelemetry, Db, find_server,
  write_server, find_telemetry, write_telemetry, find_snapshot, find_page,
}
use aegis_vpn.Control.Cascade.{RouteHash, record_cascade_ack}
use aegis_vpn.Control.State.{latest_snapshot, publish_snapshot, prune_acknowledged_snapshots}

-- The settings that the endpoints read, and the libraries behind them.
pub record Config : Type 0 where
  pub codec : Codec
  pub hash : RouteHash
  pub page_size : ℕ
  -- microseconds
  pub heartbeat : ℕ
  pub max_telemetry_bytes : ℕ

pub record NodeSyncRequest : Type 0 where
  pub applied_generation : ℕ
  pub applied_digest : Option Text
  pub agent_version : Text
  pub capabilities : List Text

pub record NodeAckRequest : Type 0 where
  pub generation : ℕ
  pub digest : Text
  pub success : Bool
  pub error : Option Text

-- The payload stands as its canonical JSON.
pub record NodeTelemetryRequest : Type 0 where
  pub sequence : ℕ
  pub payload : Bytes

-- "ok", "duplicate" and "error-recorded"
pub data ControlStatus : Type 0 where
  accepted duplicate error_recorded : ControlStatus

unfoldable pub heartbeat_due : ℕ → ℕ → Option ℕ → Bool
heartbeat_due heartbeat now none = true
heartbeat_due heartbeat now (some t) = leb (max 1000000 heartbeat) (now - t)

unfoldable pub is_controlled : Server → Bool
is_controlled s = text_eq s.control_mode (codes "observe") || text_eq s.control_mode (codes "pull")

-- `sorted(set(capabilities))`
dedup : List Text → List Text
dedup [] = []
dedup (t ∷ ts) = let rest = dedup ts in if mem_text t ts then rest else t ∷ rest

unfoldable pub sorted_set : List Text → List Text
unfolding dedup
sorted_set ts = sort_by text_leb (dedup ts)

texts_eq : List Text → List Text → Bool
texts_eq [] [] = true
texts_eq [] (b ∷ bs) = false
texts_eq (a ∷ as') [] = false
texts_eq (a ∷ as') (b ∷ bs) = text_eq a b && texts_eq as' bs

features_eq : Option (List Text) → List Text → Bool
unfolding texts_eq
features_eq none new = false
features_eq (some old) new = texts_eq old new

-- What a poll writes to the server's row.
unfoldable pub note_poll : Config → ℕ → NodeSyncRequest → Server → Server
unfolding heartbeat_due
note_poll cfg now request current = record current {
  control_last_seen_at =
      if heartbeat_due cfg.heartbeat now current.control_last_seen_at
      then some now
      else current.control_last_seen_at;
  control_agent_version = some request.agent_version;
  features = some (sorted_set request.capabilities);
}

abbrev pub write_row : Server → Db → Db
write_row s db = record db { servers = write_server s db.servers }

published : Config → ℕ → ℕ → Db → Result ℕ (NodeSnapshot × Db)
published cfg now server_id db =
    elim (publish_snapshot cfg.codec cfg.hash cfg.page_size now server_id db) [
      | ok r ↦ ok r
      | err e ↦ err 500
    ]

-- The snapshot that a poll answers from, and what the poll commits.
unfoldable pub poll_snapshot :
    Config → ℕ → NodeSyncRequest → Server → Db → Result ℕ (NodeSnapshot × Db)
unfolding note_poll published features_eq sorted_set
poll_snapshot cfg now request current db =
    let db' = write_row (note_poll cfg now request current) db in
    let republished = published cfg now current.id db' in
    if features_eq current.features (sorted_set request.capabilities)
    then elim (latest_snapshot current.id db.snapshots) [
      | none ↦ republished
      | some s ↦ ok (s, db')
    ]
    else republished

unfoldable pub manifest_of : NodeSnapshot → SnapshotManifest
manifest_of s = record {
  schema_version = s.schema_version;
  generation = s.generation;
  digest = s.digest;
  item_count = s.item_count;
  page_count = s.page_count;
  page_size = s.page_size;
}

-- Whether the node has something to fetch.
unfoldable pub is_news : NodeSyncRequest → NodeSnapshot → Bool
is_news request s =
    ltb request.applied_generation s.generation
    || not (opt_text_eq request.applied_digest (some s.digest))

answer : NodeSyncRequest → NodeSnapshot × Db → Option SnapshotManifest × Db
unfolding is_news manifest_of
answer request (s, db) = (if is_news request s then some (manifest_of s) else none, db)

-- One round of the loop of `sync_node`: `none` means that the node is up to date.
unfoldable pub poll_once :
    Config → ℕ → NodeSyncRequest → ℕ → Db → Result ℕ (Option SnapshotManifest × Db)
unfolding is_controlled poll_snapshot answer
poll_once cfg now request node db = elim (find_server node db.servers) [
  | none ↦ err 401
  | some current ↦
      if is_controlled current
      then elim (poll_snapshot cfg now request current db) [
        | ok r ↦ ok (answer request r)
        | err e ↦ err e
      ]
      else err 401
]

-- `sync_node`: the rounds after the first, until the deadline, each with its time and with what
-- other sessions did to the tables while this one slept. `none` is 204, with no content.
unfoldable pub sync_node :
    Config
    → NodeSyncRequest
    → ℕ
    → ℕ
    → List (ℕ × (Db → Db))
    → Db
    → Result ℕ (Option SnapshotManifest × Db)
sync_node cfg request node now [] db = poll_once cfg now request node db
sync_node cfg request node now ((later, others) ∷ rounds) db =
    elim (poll_once cfg now request node db) [
      | err e ↦ err e
      | ok (some m, db') ↦ ok (some m, db')
      | ok (none, db') ↦ sync_node cfg request node later rounds (others db')
    ]

-- `get_snapshot_page`. Making the response validates it, and what it refuses is a server error.
unfoldable pub get_snapshot_page : ℕ → ℕ → ℕ → Db → Result ℕ SnapshotPage
get_snapshot_page node generation page_index db =
    elim (find_page node generation page_index db.pages) [
      | none ↦ err 404
      | some p ↦
          if known_schema p.schema_version && all item_valid p.items
          then ok (record {
            schema_version = p.schema_version;
            generation = p.generation;
            page_index = p.page_index;
            page_digest = p.page_digest;
            items = p.items;
          })
          else err 500
    ]

-- `request.error or "reconciliation failed"`
error_text : Option Text → Text
error_text none = codes "reconciliation failed"
error_text (some t) = if is_empty t then codes "reconciliation failed" else t

unfoldable pub mark_synced : ℕ → SubscriptionServer → SubscriptionServer
mark_synced node l = if l.server_id == node then record l { is_synced = true } else l

unfoldable pub acked_row : ℕ → NodeAckRequest → Server → Server
acked_row now request current = record current {
  control_last_seen_at = some now;
  applied_generation = request.generation;
  applied_digest = some request.digest;
  control_last_reconciled_at = some now;
  control_last_error = none;
}

-- An acknowledged new generation: the row, the cascade table, the pruning and the links.
unfoldable pub apply_ack : ℕ → NodeAckRequest → Server → Db → Db
unfolding mark_synced
apply_ack now request current db =
    let (_, pruned) = prune_acknowledged_snapshots current.id request.generation (
      record_cascade_ack current.id request.generation
        (write_row (acked_row now request current) db)) in
    record pruned { links = map (mark_synced current.id) pruned.links }

-- The row after a failure was reported, and after a repeated or late acknowledgement.
unfoldable pub failed_row : ℕ → NodeAckRequest → Server → Server
unfolding error_text
failed_row now request current = record current {
  control_last_seen_at = some now;
  control_last_error = some (error_text request.error);
}

unfoldable pub seen_row : ℕ → Server → Server
seen_row now current = record current { control_last_seen_at = some now }

-- `acknowledge_snapshot`
unfoldable pub acknowledge_snapshot : ℕ → NodeAckRequest → ℕ → Db → Result ℕ (ControlStatus × Db)
acknowledge_snapshot now request node db =
    elim (find_snapshot node request.generation db.snapshots) [
      | none ↦ err 404
      | some snapshot ↦ elim (find_server node db.servers) [
        | none ↦ err 404
        | some current ↦
            if not (text_eq snapshot.digest request.digest)
            then err 409
            else if not request.success
            then ok (error_recorded, write_row (failed_row now request current) db)
            else if leb request.generation current.applied_generation
            then ok (duplicate, write_row (seen_row now current) db)
            else ok (accepted, apply_ack now request current db)
      ]
    ]

unfoldable pub telemetry_row : ℕ → NodeTelemetryRequest → ℕ → NodeTelemetry
telemetry_row now request node = record {
  server_id = node;
  sequence = request.sequence;
  payload = request.payload;
  received_at = now;
}

-- `receive_telemetry`
unfoldable pub receive_telemetry :
    Config → ℕ → NodeTelemetryRequest → ℕ → Db → Result ℕ (ControlStatus × Db)
receive_telemetry cfg now request node db =
    if ltb cfg.max_telemetry_bytes (length request.payload)
    then err 413
    else elim (find_server node db.servers) [
      | none ↦ err 401
      | some current ↦
          let db' = write_row (seen_row now current) db in
          let stored = record db' {
            telemetry = write_telemetry (telemetry_row now request node) db'.telemetry;
          } in
          elim (find_telemetry node db.telemetry) [
            | none ↦ ok (accepted, stored)
            | some t ↦
                if leb request.sequence t.sequence
                then ok (duplicate, db')
                else ok (accepted, stored)
          ]
    ]
