-- ===== src/Control/NodeService.antt =====
-- bot/src/services/node_control_service.py: publishing for a set of servers, and the stored
-- telemetry. The subscription link that it builds from the telemetry is not modelled.
pub mod Publishing
use aegis_vpn.Base.{
  ℕ, Text, codes, Option, none, some, List, [], ◌∷◌, Bool, true, false, ◌||◌, if◌then◌else◌, leb,
  sort_by, text_eq,
}
use aegis_vpn.Base.Result.{Result, ok, err}
use aegis_vpn.Wire.{Codec, Bytes}
use aegis_vpn.Control.Db.{Server, NodeTelemetry, Db, find_server, find_telemetry}
use aegis_vpn.Control.Cascade.{RouteHash}
use aegis_vpn.Control.State.{PublishError, publish_snapshot}

unfoldable pub pushes_to : Server → Bool
pushes_to s = text_eq s.control_mode (codes "push") || text_eq s.control_mode (codes "observe")

unfoldable pub publishes_for : Server → Bool
publishes_for s = text_eq s.control_mode (codes "observe") || text_eq s.control_mode (codes "pull")

-- The loop, over the ids in their order.
unfoldable pub publish_each : Codec → RouteHash → ℕ → ℕ → List ℕ → Db → Result PublishError Db
unfolding publishes_for
publish_each codec hash page_size now [] db = ok db
publish_each codec hash page_size now (i ∷ is) db = elim (find_server i db.servers) [
  | none ↦ publish_each codec hash page_size now is db
  | some s ↦
      if publishes_for s
      then elim (publish_snapshot codec hash page_size now i db) [
        | err e ↦ err e
        | ok (n, db') ↦ publish_each codec hash page_size now is db'
      ]
      else publish_each codec hash page_size now is db
]

-- `publish_for_servers`; the set of ids is a list without repetition.
unfoldable pub publish_for_servers :
    Codec → RouteHash → ℕ → ℕ → List ℕ → Db → Result PublishError Db
unfolding publish_each
publish_for_servers codec hash page_size now server_ids db =
    publish_each codec hash page_size now (sort_by leb server_ids) db

-- `telemetry_for`
unfoldable pub telemetry_for : ℕ → Db → Option Bytes
telemetry_for server_id db = elim (find_telemetry server_id db.telemetry) [
  | none ↦ none
  | some t ↦ some t.payload
]
