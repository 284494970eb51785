-- ===== src/Control/NodeService/Publishing.antt =====
-- Publishing for a set of servers (bot/src/services/node_control_service.py).
use aegis_vpn.Base.{
  ℕ, ◌<◌, ◌≡◌, refl, some, List, [], ◌∷◌, arith, Option-cases, Bool-cases, inl, inr, sort_by, leb,
}
use aegis_vpn.Base.Result.{ok}
use aegis_vpn.Wire.{Codec}
use aegis_vpn.Control.Db.{Server, NodeSnapshot, Db, find_server}
use aegis_vpn.Control.Cascade.{RouteHash}
use aegis_vpn.Control.State.{publish_snapshot, publish_for}
use aegis_vpn.Control.NodeService.{publishes_for, publish_each, publish_for_servers}
use aegis_vpn.Control.Consistency.{IsConsistent}
use aegis_vpn.Control.Consistency.Publishing.{publish_snapshot-IsConsistent}

publish-total :
    (codec : Codec) (hash : RouteHash) (page_size now i : ℕ) (db : Db) (s : Server)
    → 0 < page_size
    → find_server i db.servers ≡ some s
    → (n : NodeSnapshot) × (db' : Db) × (publish_snapshot codec hash page_size now i db
        ≡ ok (n, db'))
unfolding publish_snapshot
publish-total codec hash page_size now i db s pos there = (
  (publish_for codec hash page_size now s db).0,
  (publish_for codec hash page_size now s db).1,
  ground (arith, pos, there),
)

publish_each-IsConsistent :
    (codec : Codec) (hash : RouteHash) (page_size now : ℕ) (is : List ℕ) (db : Db)
    → 0 < page_size
    → IsConsistent codec db
    → (db' : Db) × (publish_each codec hash page_size now is db ≡ ok db') × IsConsistent codec db'
unfolding publish_each
publish_each-IsConsistent codec hash page_size now [] db pos h = (db, refl, h)
publish_each-IsConsistent codec hash page_size now (i ∷ is) db pos h =
    let skipped = publish_each-IsConsistent codec hash page_size now is db pos h in
    elim (Option-cases (find_server i db.servers)) [
      | inl missing ↦ (skipped.0, ground (arith, missing, skipped.1), skipped.2)
      | inr (s, there) ↦ elim (Bool-cases (publishes_for s)) [
        | inr pushed ↦ (skipped.0, ground (arith, there, pushed, skipped.1), skipped.2)
        | inl pulled ↦
            let (n, db', run) = publish-total codec hash page_size now i db s pos there in
            let (db'', rest, kept) =
              publish_each-IsConsistent codec hash page_size now is db' pos
                (publish_snapshot-IsConsistent codec hash page_size now i db db' n h run) in
            (db'', ground (arith, there, pulled, run, rest), kept)
      ]
    ]

-- With a positive page size, publishing for any set of servers, whether or not they exist or are
-- controlled, returns, and keeps consistent tables consistent.
pub publish_for_servers-IsConsistent :
    (codec : Codec) (hash : RouteHash) (page_size now : ℕ) (server_ids : List ℕ) (db : Db)
    → 0 < page_size
    → IsConsistent codec db
    → (db' : Db) × (publish_for_servers codec hash page_size now server_ids db ≡ ok db')
      × IsConsistent codec db'
unfolding publish_for_servers
publish_for_servers-IsConsistent codec hash page_size now server_ids db pos h =
    publish_each-IsConsistent codec hash page_size now (sort_by leb server_ids) db pos h
