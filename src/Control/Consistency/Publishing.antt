-- ===== src/Control/Consistency/Publishing.antt =====
-- Publishing keeps the control tables consistent.
use aegis_vpn.Base.{
  ℕ, ◌≤◌, ◌<◌, ◌≡◌, refl, some, List, [], ◌∷◌, ◌++◌, ◌==◌, false, arith, All, All-append, All-mono,
  select-append, Bool-cases, inl, inr, Option, ◌⊎◌,
}
use aegis_vpn.Base.Result.{ok}
use aegis_vpn.Wire.{Codec, DesiredItem}
use aegis_vpn.Control.Db.{
  Server, NodeSnapshot, NodeSnapshotPage, Db, find_server, find_server-write, id-find_server,
  find_server_self,
}
use aegis_vpn.Control.Cascade.{RouteHash}
use aegis_vpn.Control.Desired.{build_desired_items}
use aegis_vpn.Control.State.{
  add_snapshot, new_snapshot, next_generation, latest_snapshot, paginate, page_rows, publish_for,
  publish_snapshot,
}
use aegis_vpn.Control.State.Generations.{rows_of, publish-cases, publish_snapshot-inv}
use aegis_vpn.Control.State.Pages.{pages_of, page_rows-bounded, keep-IsServable, new-IsServable}
use aegis_vpn.Control.Consistency.{IsConsistent}

module _ (c : Codec) (page_size : ℕ) (server : Server) (items : List DesiredItem) (db : Db)
    (pos : 0 < page_size) (found : find_server server.id db.servers ≡ some server)
    (h : IsConsistent c db) where
  abbrev latest : Option NodeSnapshot
  latest = latest_snapshot server.id db.snapshots

  abbrev snapshot : NodeSnapshot
  snapshot = new_snapshot c page_size server items latest

  above : server.desired_generation < snapshot.generation
  unfolding new_snapshot next_generation
  above = omega arith

  -- Rows bounded by `d`, with the new snapshot at the end.
  snapshots-append :
      (j d : ℕ)
      → (j == server.id) ≡ false ⊎ (snapshot.generation ≤ d)
      → All (λ (n : NodeSnapshot). n.generation ≤ d) (rows_of j db.snapshots)
      → All (λ (n : NodeSnapshot). n.generation ≤ d) (rows_of j (db.snapshots ++ snapshot ∷ []))
  snapshots-append j d new old =
      rw (select-append (λ (n : NodeSnapshot). n.server_id == j) db.snapshots (snapshot ∷ []))
        (All-append _ (rows_of j db.snapshots) _ old (unfold new_snapshot in ground arith))

  pages-append :
      (j d : ℕ)
      → (j == server.id) ≡ false ⊎ (snapshot.generation ≤ d)
      → All (λ (p : NodeSnapshotPage). p.generation ≤ d) (pages_of j db.pages)
      → All
          (λ (p : NodeSnapshotPage). p.generation ≤ d)
          (pages_of j (
            db.pages
            ++ page_rows c server.id snapshot.generation snapshot.schema_version 0
                (paginate page_size items)))
  pages-append j d new old =
      rw (select-append (λ (p : NodeSnapshotPage). p.server_id == j) db.pages _) (
        All-append _ (pages_of j db.pages) _ old
          (page_rows-bounded c server.id snapshot.generation snapshot.schema_version d j 0 _ new))

  add-IsConsistent : IsConsistent c (add_snapshot c page_size server items latest db).1
  unfolding add_snapshot
  add-IsConsistent = record {
    bounds = λ i r e. elim (Bool-cases (i == server.id)) [
      | inl here ↦
          let old = h.bounds server.id server found in
          let r_eq : r ≡ record server { desired_generation = snapshot.generation } = ground (
            arith,
            find_server-write i (record server { desired_generation = snapshot.generation }) server
                db.servers found,
          ) in
          rw r_eq (record {
            snapshots_le = snapshots-append server.id snapshot.generation (inr (omega arith)) (
                All-mono (λ n le. omega (arith, above)) (rows_of server.id db.snapshots)
                  old.snapshots_le);
            pages_le = pages-append server.id snapshot.generation (inr (omega arith)) (
                All-mono (λ n le. omega (arith, above)) (pages_of server.id db.pages) old.pages_le);
            applied_le = omega (arith, above, old.applied_le);
          })
      | inr other ↦
          let found' : find_server i db.servers ≡ some r = ground (
            arith,
            find_server-write i (record server { desired_generation = snapshot.generation }) server
                db.servers found,
          ) in
          let old = h.bounds i r found' in
          let id_eq : r.id ≡ i = id-find_server i db.servers r found' in
          record {
            snapshots_le =
                snapshots-append r.id r.desired_generation (inl (rw id_eq other)) old.snapshots_le;
            pages_le = pages-append r.id r.desired_generation (inl (rw id_eq other)) old.pages_le;
            applied_le = old.applied_le;
          }
    ];
    servable =
        let old = h.bounds server.id server found in
        All-append _ db.snapshots (snapshot ∷ [])
          (keep-IsServable c server.id snapshot.generation server.desired_generation
            snapshot.schema_version above db.pages (paginate page_size items) db.snapshots
            old.snapshots_le h.servable)
          (
            unfold new_snapshot in
                (new-IsServable c server.id snapshot.generation server.desired_generation
                  snapshot.schema_version above db.pages items snapshot old.pages_le refl refl refl
                  refl refl pos refl),
            tt,
          );
  }

publish_for-IsConsistent :
    (c : Codec) (hash : RouteHash) (page_size now : ℕ) (server : Server) (db : Db)
    → 0 < page_size
    → find_server server.id db.servers ≡ some server
    → IsConsistent c db
    → IsConsistent c (publish_for c hash page_size now server db).1
publish_for-IsConsistent c hash page_size now server db pos found h =
    elim (publish-cases c hash page_size now server db) [
      | inl kept ↦ rw kept.0 h
      | inr added ↦ rw added (
          add-IsConsistent c page_size server (build_desired_items hash db server now) db pos found
            h)
    ]

-- A publish that returns keeps the tables consistent.
pub publish_snapshot-IsConsistent :
    (c : Codec) (hash : RouteHash) (page_size now i : ℕ) (db db' : Db) (n : NodeSnapshot)
    → IsConsistent c db
    → publish_snapshot c hash page_size now i db ≡ ok (n, db')
    → IsConsistent c db'
publish_snapshot-IsConsistent c hash page_size now i db db' n h e =
    let (s, found, pos, run) = publish_snapshot-inv c hash page_size now i db db' n e in
    rw run at (
      publish_for-IsConsistent c hash page_size now s db pos (find_server_self i db.servers s found)
        h)
