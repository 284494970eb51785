-- ===== src/Control/Consistency/Endpoints.antt =====
-- Every endpoint keeps the control tables consistent.
use aegis_vpn.Base.{ℕ, ◌≤◌, ◌≡◌, refl, Option, some, List, [], ◌∷◌, arith, All, inl, inr}
use aegis_vpn.Base.Result.{ok}
use aegis_vpn.Wire.{Codec, SnapshotManifest}
use aegis_vpn.Control.Db.{
  Server, NodeSnapshot, Db, find_server, find_snapshot, id-find_server, find_server_self,
}
use aegis_vpn.Control.Cascade.{record_cascade_ack}
use aegis_vpn.Control.State.{prune_acknowledged_snapshots}
use aegis_vpn.Control.State.Generations.{rows_of}
use aegis_vpn.Control.State.Pruning.{servers-prune, prune-servable, prune-bounds}
use aegis_vpn.Control.Router.Telemetry.{receive-row}
use aegis_vpn.Control.Router.Polls.{poll_snapshot-cases, poll_once-inv}
use aegis_vpn.Control.Router.Acks.{Handled, acknowledge-cases}
use aegis_vpn.Control.Router.{
  acked_row, failed_row, seen_row, accepted, duplicate, error_recorded, Config, NodeSyncRequest,
  NodeAckRequest, NodeTelemetryRequest, ControlStatus, poll_once, acknowledge_snapshot,
  receive_telemetry, apply_ack, poll_snapshot, write_row, note_poll,
}
use aegis_vpn.Control.Consistency.{IsConsistent, write-IsConsistent, same-IsConsistent}
use aegis_vpn.Control.Consistency.Publishing.{publish_snapshot-IsConsistent}

prune-IsConsistent :
    (c : Codec) (i n : ℕ) (db : Db)
    → IsConsistent c db
    → IsConsistent c (prune_acknowledged_snapshots i n db).1
prune-IsConsistent c i n db h = record {
  bounds = λ j r e.
      let old = h.bounds j r (rw (servers-prune i n db) at e) in
      let kept = prune-bounds i n r.id r.desired_generation db old.snapshots_le old.pages_le in
      record { snapshots_le = kept.0; pages_le = kept.1; applied_le = old.applied_le };
  servable = prune-servable c i n db h.servable;
}

-- A snapshot that is found is within the bound of its server.
find_snapshot-le :
    (i g d : ℕ) (ss : List NodeSnapshot) (s : NodeSnapshot)
    → All (λ (n : NodeSnapshot). n.generation ≤ d) (rows_of i ss)
    → find_snapshot i g ss ≡ some s
    → g ≤ d
unfolding find_snapshot
find_snapshot-le i g d [] s h e = cc
find_snapshot-le i g d (t ∷ ss) s h e = ground (arith, find_snapshot-le i g d ss s)

apply_ack-IsConsistent :
    (c : Codec) (now : ℕ) (request : NodeAckRequest) (current : Server) (db : Db)
    → find_server current.id db.servers ≡ some current
    → request.generation ≤ current.desired_generation
    → IsConsistent c db
    → IsConsistent c (apply_ack now request current db)
unfolding apply_ack record_cascade_ack acked_row
apply_ack-IsConsistent c now request current db found le h =
    same-IsConsistent c (prune_acknowledged_snapshots current.id request.generation _).1 _ refl refl
      refl
      (prune-IsConsistent c current.id request.generation _ (
        same-IsConsistent c _ _ refl refl refl (write-IsConsistent c db _ current found refl le h)))

Handled-IsConsistent :
    (c : Codec) (now : ℕ) (request : NodeAckRequest) (current : Server) (db db' : Db)
    (status : ControlStatus)
    → find_server current.id db.servers ≡ some current
    → request.generation ≤ current.desired_generation
    → IsConsistent c db
    → Handled now request current db status db'
    → IsConsistent c db'
unfolding failed_row seen_row
Handled-IsConsistent c now request current db db' accepted found le h done =
    rw done.2 (apply_ack-IsConsistent c now request current db found le h)
Handled-IsConsistent c now request current db db' duplicate found le h done =
    rw done.2 (
      write-IsConsistent c db _ current found refl (h.bounds current.id current found).applied_le h)
Handled-IsConsistent c now request current db db' error_recorded found le h done =
    rw done.1 (
      write-IsConsistent c db _ current found refl (h.bounds current.id current found).applied_le h)

-- An acknowledgement keeps the tables consistent: the applied generation stays within the desired
-- one, and pruning leaves every remaining snapshot whole.
pub acknowledge-IsConsistent :
    (c : Codec) (now : ℕ) (request : NodeAckRequest) (node : ℕ) (db db' : Db)
    (status : ControlStatus)
    → IsConsistent c db
    → acknowledge_snapshot now request node db ≡ ok (status, db')
    → IsConsistent c db'
acknowledge-IsConsistent c now request node db db' status h e =
    let (current, snapshot, er, es, _, done) = acknowledge-cases now request node db db' status e in
    Handled-IsConsistent c now request current db db' status
      (find_server_self node db.servers current er)
      (find_snapshot-le node request.generation current.desired_generation db.snapshots snapshot
        (rw (← id-find_server node db.servers current er) (h.bounds node current er).snapshots_le)
        es)
      h done

-- A telemetry report keeps the tables consistent.
pub telemetry-IsConsistent :
    (c : Codec) (cfg : Config) (now : ℕ) (request : NodeTelemetryRequest) (node : ℕ) (db db' : Db)
    (status : ControlStatus)
    → IsConsistent c db
    → receive_telemetry cfg now request node db ≡ ok (status, db')
    → IsConsistent c db'
telemetry-IsConsistent c cfg now request node db db' status h e =
    let (r, found, servers_eq, snapshots_eq, pages_eq) =
      receive-row cfg now request node db db' status e in
    let found' = find_server_self node db.servers r found in
    same-IsConsistent c (write_row (seen_row now r) db) db' servers_eq snapshots_eq pages_eq (
      unfold seen_row in
      write-IsConsistent c db (seen_row now r) r found' refl (h.bounds r.id r found').applied_le h)

poll_snapshot-IsConsistent :
    (cfg : Config) (now : ℕ) (request : NodeSyncRequest) (current : Server) (db db' : Db)
    (s : NodeSnapshot)
    → find_server current.id db.servers ≡ some current
    → IsConsistent cfg.codec db
    → poll_snapshot cfg now request current db ≡ ok (s, db')
    → IsConsistent cfg.codec db'
poll_snapshot-IsConsistent cfg now request current db db' s found h e =
    let polled : IsConsistent cfg.codec (write_row (note_poll cfg now request current) db) =
      unfold note_poll in
      (write-IsConsistent cfg.codec db (note_poll cfg now request current) current found refl
        (h.bounds current.id current found).applied_le h) in
    elim (poll_snapshot-cases cfg now request current db db' s e) [
      | inl (same, _) ↦ rw same polled
      | inr published_now ↦
          publish_snapshot-IsConsistent cfg.codec cfg.hash cfg.page_size now current.id _ db' s
            polled published_now
    ]

-- One round of a poll keeps the tables consistent.
pub poll_once-IsConsistent :
    (cfg : Config) (now : ℕ) (request : NodeSyncRequest) (node : ℕ) (db db' : Db)
    (m : Option SnapshotManifest)
    → IsConsistent cfg.codec db
    → poll_once cfg now request node db ≡ ok (m, db')
    → IsConsistent cfg.codec db'
poll_once-IsConsistent cfg now request node db db' m h e =
    let (r, s, found, run, _) = poll_once-inv cfg now request node db db' m e in
    poll_snapshot-IsConsistent cfg now request r db db' s (find_server_self node db.servers r found)
      h run
