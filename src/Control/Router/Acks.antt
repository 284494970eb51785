-- ===== src/Control/Router/Acks.antt =====
-- The acknowledgement endpoint, branch by branch.
use aegis_vpn.Base.{
  ℕ, ◌≤◌, ◌<◌, ◌≡◌, refl, some, true, false, arith, inl, inr, Option-cases, text_eq_iff, max,
  if◌then◌else◌, ap, List, ◌∙◌,
}
use aegis_vpn.Base.Result.{ok}
use aegis_vpn.Control.Cascade.{record_cascade_ack}
use aegis_vpn.Control.Db.{
  Server, NodeSnapshot, Db, find_server, find_snapshot, id-find_server, find_server_self,
  write_server, find_server-write,
}
use aegis_vpn.Control.State.Pruning.{servers-prune}
use aegis_vpn.Control.Router.{
  NodeAckRequest, ControlStatus, accepted, duplicate, error_recorded, acknowledge_snapshot,
  apply_ack, failed_row, seen_row, write_row, acked_row,
}

-- What an acknowledgement that was answered has done.
abbrev pub Handled : ℕ → NodeAckRequest → Server → Db → ControlStatus → Db → Type 0
Handled now request current db accepted db' =
    (request.success ≡ true)
    × (current.applied_generation < request.generation)
    × (db' ≡ apply_ack now request current db)
Handled now request current db duplicate db' =
    (request.success ≡ true)
    × (request.generation ≤ current.applied_generation)
    × (db' ≡ write_row (seen_row now current) db)
Handled now request current db error_recorded db' =
    (request.success ≡ false) × (db' ≡ write_row (failed_row now request current) db)

handled :
    (now : ℕ) (request : NodeAckRequest) (node : ℕ) (db db' : Db) (status : ControlStatus)
    {current : Server} {snapshot : NodeSnapshot}
    → find_server node db.servers ≡ some current
    → find_snapshot node request.generation db.snapshots ≡ some snapshot
    → acknowledge_snapshot now request node db ≡ ok (status, db')
    → Handled now request current db status db'
unfolding acknowledge_snapshot
handled now request node db db' accepted er es e = ground (arith, er, es)
handled now request node db db' _ er es e = ground (arith, er, es)

-- An acknowledgement that is answered names a stored snapshot of the node by its digest, and is
-- handled by one of the three branches.
pub acknowledge-cases :
    (now : ℕ) (request : NodeAckRequest) (node : ℕ) (db db' : Db) (status : ControlStatus)
    → acknowledge_snapshot now request node db ≡ ok (status, db')
    → (current : Server) × (snapshot : NodeSnapshot) × (find_server node db.servers ≡ some current)
      × (find_snapshot node request.generation db.snapshots ≡ some snapshot)
      × (snapshot.digest ≡ request.digest)
      × Handled now request current db status db'
unfolding acknowledge_snapshot
acknowledge-cases now request node db db' status e =
    elim (Option-cases (find_snapshot node request.generation db.snapshots)) [
      | inl gone ↦ ground (arith, gone)
      | inr (s, es) ↦ elim (Option-cases (find_server node db.servers)) [
        | inl gone ↦ ground (arith, gone, es)
        | inr (r, er) ↦ (
          r,
          s,
          er,
          es,
          ground (arith, er, es, text_eq_iff s.digest request.digest),
          handled now request node db db' status er es e,
        )
      ]
    ]

-- The row that each branch writes.
after_row : ℕ → NodeAckRequest → Server → ControlStatus → Server
after_row now request current accepted = acked_row now request current
after_row now request current duplicate = seen_row now current
after_row now request current error_recorded = failed_row now request current

id-after_row :
    (now : ℕ) (request : NodeAckRequest) (current : Server) (status : ControlStatus)
    → (after_row now request current status).id ≡ current.id
unfolding after_row acked_row seen_row failed_row
id-after_row now request current accepted = refl
id-after_row now request current duplicate = refl
id-after_row now request current error_recorded = refl

desired-after_row :
    (now : ℕ) (request : NodeAckRequest) (current : Server) (status : ControlStatus)
    → (after_row now request current status).desired_generation ≡ current.desired_generation
unfolding after_row acked_row seen_row failed_row
desired-after_row now request current accepted = refl
desired-after_row now request current duplicate = refl
desired-after_row now request current error_recorded = refl

applied-after_row :
    (now : ℕ) (request : NodeAckRequest) (current : Server) (db db' : Db) (status : ControlStatus)
    → Handled now request current db status db'
    → (after_row now request current status).applied_generation ≡ (
        if request.success
        then max current.applied_generation request.generation
        else current.applied_generation)
unfolding after_row acked_row seen_row failed_row
applied-after_row now request current db db' accepted h = rw h.0 (omega arith)
applied-after_row now request current db db' duplicate h = rw h.0 (omega arith)
applied-after_row now request current db db' error_recorded h = rw h.0

servers-Handled :
    (now : ℕ) (request : NodeAckRequest) (current : Server) (db db' : Db) (status : ControlStatus)
    → Handled now request current db status db'
    → db'.servers ≡ write_server (after_row now request current status) db.servers
unfolding after_row apply_ack record_cascade_ack
servers-Handled now request current db db' accepted h =
    ap (λ (d : Db). d.servers) h.2 ∙ servers-prune current.id request.generation _
servers-Handled now request current db db' duplicate h = ap (λ (d : Db). d.servers) h.2
servers-Handled now request current db db' error_recorded h = ap (λ (d : Db). d.servers) h.1

written :
    (node : ℕ) (current row : Server) (ss : List Server)
    → row.id ≡ current.id
    → find_server node ss ≡ some current
    → find_server node (write_server row ss) ≡ some row
written node current row ss same found = ground (
  arith,
  id-find_server node ss current found,
  find_server-write node row current ss,
  find_server_self node ss current found,
)

-- The applied generation of the node after an acknowledgement that was answered is the acknowledged
-- one if it succeeded and is newer, and else the old one, so it never goes down; the desired
-- generation stays as it was.
pub applied_generation-acknowledge :
    (now : ℕ) (request : NodeAckRequest) (node : ℕ) (db db' : Db) (status : ControlStatus)
    (current : Server)
    → find_server node db.servers ≡ some current
    → acknowledge_snapshot now request node db ≡ ok (status, db')
    → (after : Server) × (find_server node db'.servers ≡ some after)
      × (after.applied_generation ≡ (
          if request.success
          then max current.applied_generation request.generation
          else current.applied_generation))
      × (after.desired_generation ≡ current.desired_generation)
applied_generation-acknowledge now request node db db' status current er e =
    let (r, s, er', es, _, done) = acknowledge-cases now request node db db' status e in
    let same : r ≡ current = cc in
    let done' : Handled now request current db status db' = rw same at done in
    (
      after_row now request current status,
      ap (find_server node) (servers-Handled now request current db db' status done')
          ∙ written node current (after_row now request current status) db.servers
              (id-after_row now request current status) er,
      applied-after_row now request current db db' status done',
      desired-after_row now request current status,
    )
