-- ===== src/Control/Router/Polls.antt =====
-- What a poll answers.
use aegis_vpn.Base.{
  ℕ, ◌≡◌, Option, none, some, List, [], ◌∷◌, arith, inl, inr, Option-cases, ◌⊎◌, if◌then◌else◌, ap,
  ◌∙◌,
}
use aegis_vpn.Base.Result.{ok, Result-cases}
use aegis_vpn.Wire.{SnapshotManifest}
use aegis_vpn.Control.Db.{Server, NodeSnapshot, Db, find_server, id-find_server}
use aegis_vpn.Control.State.{latest_snapshot, publish_snapshot}
use aegis_vpn.Control.State.Generations.{publish_snapshot-inv, publish_is_latest}
use aegis_vpn.Control.Router.{
  Config, NodeSyncRequest, poll_snapshot, poll_once, sync_node, is_news, note_poll, write_row,
  published, manifest_of, answer,
}

-- A poll answers from the tables that it commits: it has run, on the polled server's row, a publish
-- or none, and its snapshot is the latest one.
pub poll_snapshot-cases :
    (cfg : Config) (now : ℕ) (request : NodeSyncRequest) (current : Server) (db db' : Db)
    (s : NodeSnapshot)
    → poll_snapshot cfg now request current db ≡ ok (s, db')
    → let polled = write_row (note_poll cfg now request current) db in
      ((db' ≡ polled) × (latest_snapshot current.id db.snapshots ≡ some s))
      ⊎ (publish_snapshot cfg.codec cfg.hash cfg.page_size now current.id polled ≡ ok (s, db'))
unfolding poll_snapshot published
poll_snapshot-cases cfg now request current db db' s e = ground arith

latest-publish :
    (cfg : Config) (now i : ℕ) (db db' : Db) (s : NodeSnapshot)
    → publish_snapshot cfg.codec cfg.hash cfg.page_size now i db ≡ ok (s, db')
    → latest_snapshot i db'.snapshots ≡ some s
latest-publish cfg now i db db' s e =
    let (server, found, _, run) =
      publish_snapshot-inv cfg.codec cfg.hash cfg.page_size now i db db' s e in
    let latest = rw run at (publish_is_latest cfg.codec cfg.hash cfg.page_size now server db).0 in
    rw (id-find_server i db.servers server found) at latest

-- A poll that is answered names the server's latest snapshot in the tables that it leaves, or
-- nothing if the node has just that one.
abbrev pub Answered : NodeSyncRequest → ℕ → Option SnapshotManifest → Db → Type 0
Answered request node m db =
    (s : NodeSnapshot) × (latest_snapshot node db.snapshots ≡ some s)
    × (m ≡ (if is_news request s then some (manifest_of s) else none))

-- A poll that is answered has found a controlled server and a snapshot of it.
pub poll_once-inv :
    (cfg : Config) (now : ℕ) (request : NodeSyncRequest) (node : ℕ) (db db' : Db)
    (m : Option SnapshotManifest)
    → poll_once cfg now request node db ≡ ok (m, db')
    → (current : Server) × (s : NodeSnapshot) × (find_server node db.servers ≡ some current)
      × (poll_snapshot cfg now request current db ≡ ok (s, db'))
      × (m ≡ (if is_news request s then some (manifest_of s) else none))
unfolding poll_once answer
poll_once-inv cfg now request node db db' m e = elim (Option-cases (find_server node db.servers)) [
  | inl gone ↦ ground (arith, gone)
  | inr (r, found) ↦ elim (Result-cases (poll_snapshot cfg now request r db)) [
    | inr (c, failed) ↦ ground (arith, found, failed)
    | inl (p, run) ↦ (r, p.0, found, ground (arith, found, run), ground (arith, found, run))
  ]
]

poll_once-Answered :
    (cfg : Config) (now : ℕ) (request : NodeSyncRequest) (node : ℕ) (db db' : Db)
    (m : Option SnapshotManifest)
    → poll_once cfg now request node db ≡ ok (m, db')
    → Answered request node m db'
poll_once-Answered cfg now request node db db' m e =
    let (r, s, found, run, answer_eq) = poll_once-inv cfg now request node db db' m e in
    let id_eq : r.id ≡ node = id-find_server node db.servers r found in
    elim (poll_snapshot-cases cfg now request r db db' s run) [
      | inl (same, latest) ↦ (
        s,
        ap (λ (d : Db). latest_snapshot node d.snapshots) same ∙ rw id_eq at latest,
        answer_eq,
      )
      | inr published_now ↦
          (s, rw id_eq at (latest-publish cfg now r.id _ db' s published_now), answer_eq)
    ]

-- A long poll that ends, at once or after any rounds in which others changed the tables, names the
-- latest snapshot of the node in the tables that it leaves, or 204 if the node's request shows
-- that it has that snapshot.
pub sync_node-Answered :
    (cfg : Config) (request : NodeSyncRequest) (node now : ℕ) (rounds : List (ℕ × (Db → Db)))
    (db db' : Db) (m : Option SnapshotManifest)
    → sync_node cfg request node now rounds db ≡ ok (m, db')
    → Answered request node m db'
unfolding sync_node
sync_node-Answered cfg request node now [] db db' m e =
    poll_once-Answered cfg now request node db db' m e
sync_node-Answered cfg request node now ((later, others) ∷ rounds) db db' m e =
    elim (Result-cases (poll_once cfg now request node db)) [
      | inr (c, failed) ↦ ground (arith, failed)
      | inl ((none, mid), polled) ↦
          sync_node-Answered cfg request node later rounds (others mid) db' m
            (ground (arith, polled))
      | inl ((some n, mid), polled) ↦
          poll_once-Answered cfg now request node db db' m (ground (arith, polled))
    ]
