-- ===== src/Control/State/Generations.antt =====
-- What `publish_snapshot` returns and how the generations of a server grow.
use mathlib.Core.Path.{subst}
use aegis_vpn.Base.{
  ◌==◌, All-mono, ℕ, ◌≤◌, ◌<◌, ◌≡◌, refl, some, List, [], ◌∷◌, ◌++◌, arith, All, Option-cases, inl,
  inr, ◌⊎◌, text_eq_iff, select, ◌∙◌, ap, sym,
}
use aegis_vpn.Wire.{Codec, items_digest}
use aegis_vpn.Control.Db.{Server, NodeSnapshot, Db, find_server}
use aegis_vpn.Control.Cascade.{RouteHash}
use aegis_vpn.Control.Desired.{build_desired_items}
use aegis_vpn.Control.State.{
  latest_snapshot, generation_of, next_generation, schema_of, is_current, add_snapshot, publish_for,
  new_snapshot, publish_snapshot, ok,
}

-- A snapshot above the latest one, added at the end, is the latest one.
latest-append :
    (i : ℕ) (ss : List NodeSnapshot) (t : NodeSnapshot)
    → t.server_id ≡ i
    → generation_of (latest_snapshot i ss) < t.generation
    → latest_snapshot i (ss ++ t ∷ []) ≡ some t
unfolding latest_snapshot
latest-append i [] t e h = ground arith
latest-append i (s ∷ ss) t e h = ground (arith, latest-append i ss t e)

-- The snapshots of one server.
abbrev pub rows_of : ℕ → List NodeSnapshot → List NodeSnapshot
rows_of i ss = select (λ s. s.server_id == i) ss

-- No snapshot of the server has a higher generation than the latest one.
pub latest-bounds :
    (i g : ℕ) (ss : List NodeSnapshot)
    → generation_of (latest_snapshot i ss) ≤ g
    → All (λ (s : NodeSnapshot). s.generation ≤ g) (rows_of i ss)
unfolding latest_snapshot
latest-bounds i g [] h = tt
latest-bounds i g (s ∷ ss) h = ground (arith, latest-bounds i g ss)

-- The latest snapshot of a server belongs to it.
pub server_id-latest :
    (i : ℕ) (ss : List NodeSnapshot) (t : NodeSnapshot)
    → latest_snapshot i ss ≡ some t
    → t.server_id ≡ i
unfolding latest_snapshot
server_id-latest i [] t h = cc
server_id-latest i (s ∷ ss) t h = ground (arith, server_id-latest i ss t)

-- A latest snapshot that is as wanted is kept.
publish-current :
    (c : Codec) (hash : RouteHash) (page_size now : ℕ) (server : Server) (db : Db)
    (s : NodeSnapshot)
    → latest_snapshot server.id db.snapshots ≡ some s
    → s.digest ≡ items_digest c (build_desired_items hash db server now)
    → s.schema_version ≡ schema_of server
    → publish_for c hash page_size now server db ≡ (s, db)
unfolding publish_for is_current
publish-current c hash page_size now server db s e d v =
    ground
      (arith, e, text_eq_iff s.digest (items_digest c (build_desired_items hash db server now)))

module _ (c : Codec) (hash : RouteHash) (page_size now : ℕ) (server : Server) (db : Db) where
  abbrev pub Wanted : NodeSnapshot → Type 0
  Wanted s =
      (s.digest ≡ items_digest c (build_desired_items hash db server now))
      × (s.schema_version ≡ schema_of server)

  -- A publish keeps a latest snapshot that is as wanted, and else adds one above all others.
  pub publish-cases :
      let (snapshot, db') = publish_for c hash page_size now server db in
      ((db' ≡ db) × (latest_snapshot server.id db.snapshots ≡ some snapshot) × Wanted snapshot)
      ⊎ ((snapshot, db')
          ≡ add_snapshot c page_size server
              (build_desired_items hash db server now)
              (latest_snapshot server.id db.snapshots)
              db)
  unfolding publish_for is_current
  publish-cases = elim (Option-cases (latest_snapshot server.id db.snapshots)) [
    | inl first ↦ ground (arith, first)
    | inr (s, e) ↦
        ground
          (arith, e, text_eq_iff s.digest (items_digest c (build_desired_items hash db server now)))
  ]

  -- After a publish the returned snapshot is the latest one of the server, and it carries the
  -- digest of the items desired at that moment and the schema version of the server.
  pub publish_is_latest :
      let (snapshot, db') = publish_for c hash page_size now server db in
      (latest_snapshot server.id db'.snapshots ≡ some snapshot) × Wanted snapshot
  publish_is_latest = elim publish-cases [
    | inl kept ↦ (rw kept.0 kept.1, kept.2)
    | inr added ↦ rw added (
        unfold add_snapshot new_snapshot next_generation in
        (latest-append server.id db.snapshots _ refl (omega arith), (refl, refl)))
  ]

  -- A publish that wrote anything returns a snapshot with a new generation: above all snapshots of
  -- the server that were there, and above the desired generation of its row. In any case no
  -- snapshot of the server is left above the returned one.
  pub publish_grows :
      let (snapshot, db') = publish_for c hash page_size now server db in
      All
        (λ (s : NodeSnapshot). s.generation ≤ snapshot.generation)
        (rows_of server.id db'.snapshots)
      × ((db' ≡ db)
          ⊎ ((server.desired_generation < snapshot.generation)
              × All
                  (λ (s : NodeSnapshot). s.generation < snapshot.generation)
                  (rows_of server.id db.snapshots)))
  publish_grows = (
    latest-bounds server.id (publish_for c hash page_size now server db).0.generation
        (publish_for c hash page_size now server db).1.snapshots
        (rw publish_is_latest.0 (omega arith)),
    elim publish-cases [
      | inl kept ↦ inl kept.0
      | inr added ↦ inr (
          rw added (
            unfold add_snapshot new_snapshot next_generation in
            (
              omega arith,
              All-mono (λ s h. omega arith) (rows_of server.id db.snapshots)
                  (latest-bounds server.id (generation_of (latest_snapshot server.id db.snapshots))
                    db.snapshots (omega arith)),
            )))
    ],
  )

-- Publishing again while the desired items and the server's schema version are what they were
-- returns the same snapshot and writes nothing, at whatever time and page size.
pub publish_idempotent :
    (c : Codec) (hash : RouteHash) (page_size page_size' now now' : ℕ) (server server' : Server)
    (db db' : Db) (snapshot : NodeSnapshot)
    → publish_for c hash page_size now server db ≡ (snapshot, db')
    → server'.id ≡ server.id
    → schema_of server' ≡ schema_of server
    → build_desired_items hash db' server' now' ≡ build_desired_items hash db server now
    → publish_for c hash page_size' now' server' db' ≡ (snapshot, db')
publish_idempotent c hash ps ps' now now' server server' db db' s first id_eq schema_eq items_eq =
    let latest = rw first at (publish_is_latest c hash ps now server db) in
    publish-current c hash ps' now' server' db' s (rw id_eq latest.0)
      (latest.1.0 ∙ ap (items_digest c) (sym items_eq)) (latest.1.1 ∙ sym schema_eq)

-- A publish that returns has run on the row of its server, with a positive page size.
pub publish_snapshot-inv :
    (c : Codec) (hash : RouteHash) (page_size now i : ℕ) (db db' : Db) (n : NodeSnapshot)
    → publish_snapshot c hash page_size now i db ≡ ok (n, db')
    → (server : Server) × (find_server i db.servers ≡ some server)
      × (0 < page_size)
      × (publish_for c hash page_size now server db ≡ (n, db'))
unfolding publish_snapshot
publish_snapshot-inv c hash page_size now i db db' n e =
    elim (Option-cases (find_server i db.servers)) [
      | inl gone ↦ ground (arith, gone)
      | inr (s, found) ↦ (s, found, ground (arith, found), ground (arith, found))
    ]

latest-cases :
    (i : ℕ) (t : NodeSnapshot) (ts : List NodeSnapshot) (s : NodeSnapshot)
    → latest_snapshot i (t ∷ ts) ≡ some s
    → (s ≡ t) ⊎ (latest_snapshot i ts ≡ some s)
unfolding latest_snapshot
latest-cases i t ts s e = ground arith

-- What holds of all snapshots holds of the latest.
pub latest-All {ℓ} :
    (P : NodeSnapshot → Type ℓ) (i : ℕ) (ss : List NodeSnapshot) (s : NodeSnapshot)
    → All P ss
    → latest_snapshot i ss ≡ some s
    → P s
latest-All P i [] s h e = unfold latest_snapshot in (cc)
latest-All P i (t ∷ ts) s h e = elim (latest-cases i t ts s e) [
  | inl here ↦ subst P (sym here) h.0
  | inr later ↦ latest-All P i ts s h.1 later
]
