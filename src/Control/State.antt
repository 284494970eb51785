-- ===== src/Control/State.antt =====
-- bot/src/control/state.py: the snapshots of a node's desired state, published and pruned.
pub mod Paging
pub mod Generations
pub mod Pages
pub mod Pruning
use aegis_vpn.Base.{
  ℕ, zero, suc, ◌+◌, ◌-◌, ◌/◌, max, Text, Option, none, some, List, [], ◌∷◌, ◌++◌, Bool, true,
  false, ◌==◌, ◌&&◌, not, ltb, leb, if◌then◌else◌, select, map, length, take, drop, text_eq,
}
use aegis_vpn.Base.Result.{Result, ok, err}
use aegis_vpn.Wire.{DesiredItem, Codec, items_digest}
use aegis_vpn.Control.Db.{Server, NodeSnapshot, NodeSnapshotPage, Db, find_server, write_server}
use aegis_vpn.Control.Cascade.{RouteHash, supports_cascade}
use aegis_vpn.Control.Desired.{build_desired_items}

-- `latest_snapshot`: the snapshot of the server with the highest generation.
unfoldable pub latest_snapshot : ℕ → List NodeSnapshot → Option NodeSnapshot
latest_snapshot i [] = none
latest_snapshot i (s ∷ ss) =
    if s.server_id == i
    then elim (latest_snapshot i ss) [
      | none ↦ some s
      | some t ↦ if ltb s.generation t.generation then some t else some s
    ]
    else latest_snapshot i ss

-- `range(start, stop, step)`, for a positive step; `stop` rounds are enough.
unfoldable pub offsets : ℕ → ℕ → ℕ → ℕ → List ℕ
offsets zero start stop step = []
offsets (suc fuel) start stop step =
    let rest = start ∷ offsets fuel (start + step) stop step in if ltb start stop then rest else []

-- `items[offset : offset + page_size]`
abbrev pub slice {ℓ} : {A : Type ℓ} → List A → ℕ → ℕ → List A
slice items size offset = take size (drop offset items)

unfoldable pub paginate {ℓ} : {A : Type ℓ} → ℕ → List A → List (List A)
unfolding offsets
paginate size items = map (slice items size) (offsets (length items) 0 (length items) size)

unfoldable pub page_row : Codec → ℕ → ℕ → ℕ → ℕ → List DesiredItem → NodeSnapshotPage
unfolding items_digest
page_row c server_id generation schema_version index page = record {
  server_id = server_id;
  generation = generation;
  page_index = index;
  schema_version = schema_version;
  page_digest = items_digest c page;
  items = page;
}

-- The rows of the pages, numbered from `index`.
unfoldable pub page_rows : Codec → ℕ → ℕ → ℕ → ℕ → List (List DesiredItem) → List NodeSnapshotPage
unfolding page_row
page_rows c server_id generation schema_version index [] = []
page_rows c server_id generation schema_version index (p ∷ ps) =
    page_row c server_id generation schema_version index p
    ∷ page_rows c server_id generation schema_version (index + 1) ps

pub data PublishError : Type 0 where
  bad_page_size : PublishError
  no_such_server : PublishError

abbrev pub generation_of : Option NodeSnapshot → ℕ
generation_of none = 0
generation_of (some s) = s.generation

-- `max(desired_generation, latest.generation) + 1`
unfoldable pub next_generation : Server → Option NodeSnapshot → ℕ
next_generation server latest = max server.desired_generation (generation_of latest) + 1

unfoldable pub schema_of : Server → ℕ
unfolding supports_cascade
schema_of server = if supports_cascade server then 2 else 1

-- Whether the latest snapshot already says this.
unfoldable pub is_current : Text → ℕ → NodeSnapshot → Bool
is_current digest schema s = text_eq s.digest digest && s.schema_version == schema

unfoldable pub new_snapshot :
    Codec → ℕ → Server → List DesiredItem → Option NodeSnapshot → NodeSnapshot
unfolding next_generation schema_of items_digest
new_snapshot c page_size server items latest = record {
  server_id = server.id;
  generation = next_generation server latest;
  schema_version = schema_of server;
  digest = items_digest c items;
  item_count = length items;
  page_count = length (paginate page_size items);
  page_size = page_size;
}

-- The part of `publish_snapshot` after its early return.
unfoldable pub add_snapshot :
    Codec → ℕ → Server → List DesiredItem → Option NodeSnapshot → Db → NodeSnapshot × Db
unfolding new_snapshot
add_snapshot c page_size server items latest db =
    let snapshot = new_snapshot c page_size server items latest in
    (
      snapshot,
      record db {
        snapshots = db.snapshots ++ snapshot ∷ [];
        pages =
            db.pages
            ++ page_rows c server.id snapshot.generation snapshot.schema_version 0
                (paginate page_size items);
        servers =
            write_server (record server { desired_generation = snapshot.generation }) db.servers;
      },
    )

unfoldable pub publish_for : Codec → RouteHash → ℕ → ℕ → Server → Db → NodeSnapshot × Db
unfolding is_current
publish_for c hash page_size now server db =
    let items = build_desired_items hash db server now in
    let latest = latest_snapshot server.id db.snapshots in
    elim latest [
      | none ↦ add_snapshot c page_size server items none db
      | some s ↦
          if is_current (items_digest c items) (schema_of server) s
          then (s, db)
          else add_snapshot c page_size server items (some s) db
    ]

-- `publish_snapshot`, at the time `now`. The database lock that it takes first is not modelled:
-- one call runs at a time.
unfoldable pub publish_snapshot :
    Codec → RouteHash → ℕ → ℕ → ℕ → Db → Result PublishError (NodeSnapshot × Db)
unfolding publish_for
publish_snapshot c hash page_size now server_id db =
    if ltb page_size 1 then err bad_page_size else elim (find_server server_id db.servers) [
      | none ↦ err no_such_server
      | some server ↦ ok (publish_for c hash page_size now server db)
    ]

-- `prune_acknowledged_snapshots` with its default of two kept generations: the new tables and the
-- number of deleted snapshots.
unfoldable pub prune_acknowledged_snapshots : ℕ → ℕ → Db → ℕ × Db
prune_acknowledged_snapshots server_id acknowledged db =
    let cutoff = acknowledged - 2 in
    if leb cutoff 1
    then (0, db)
    else let kept =
        select (λ (s : NodeSnapshot). not (s.server_id == server_id && ltb s.generation cutoff))
          db.snapshots in
      (
        length db.snapshots - length kept,
        record db {
          snapshots = kept;
          pages =
              select
                (λ (p : NodeSnapshotPage).
                  not (p.server_id == server_id && ltb p.generation cutoff))
                db.pages;
        },
      )
