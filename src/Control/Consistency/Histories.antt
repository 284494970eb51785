-- ===== src/Control/Consistency/Histories.antt =====
-- Any history of the control plane: publishes, rounds of polls, acknowledgements and reports, of
-- any nodes, in any order. Each is one transaction; a long poll commits each of its rounds.
use aegis_vpn.Base.{ℕ, ◌≡◌, Option}
use aegis_vpn.Base.Result.{ok}
use aegis_vpn.Wire.{SnapshotManifest}
use aegis_vpn.Control.Db.{NodeSnapshot, Db}
use aegis_vpn.Control.State.{publish_snapshot}
use aegis_vpn.Control.Router.{
  Config, NodeSyncRequest, NodeAckRequest, NodeTelemetryRequest, ControlStatus, poll_once,
  acknowledge_snapshot, receive_telemetry,
}

-- One transaction at the time `now`. A call that raises commits nothing and is no step. The rows
-- that the bot's own handlers write (users, subscriptions, devices, links, routes) may change freely.
pub data Step (cfg : Config) (db db' : Db) : Type 0 where
  publish :
      (now node : ℕ) (n : NodeSnapshot)
      → publish_snapshot cfg.codec cfg.hash cfg.page_size now node db ≡ ok (n, db')
      → Step cfg db db'
  poll :
      (now node : ℕ) (request : NodeSyncRequest) (m : Option SnapshotManifest)
      → poll_once cfg now request node db ≡ ok (m, db')
      → Step cfg db db'
  ack :
      (now node : ℕ) (request : NodeAckRequest) (status : ControlStatus)
      → acknowledge_snapshot now request node db ≡ ok (status, db')
      → Step cfg db db'
  report :
      (now node : ℕ) (request : NodeTelemetryRequest) (status : ControlStatus)
      → receive_telemetry cfg now request node db ≡ ok (status, db')
      → Step cfg db db'
  sell :
      db'.servers ≡ db.servers
      → db'.snapshots ≡ db.snapshots
      → db'.pages ≡ db.pages
      → Step cfg db db'

pub data Reach (cfg : Config) (db : Db) : Db → Type 0 where
  here : Reach cfg db db
  next : {mid db' : Db} → Reach cfg db mid → Step cfg mid db' → Reach cfg db db'
