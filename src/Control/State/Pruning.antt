-- ===== src/Control/State/Pruning.antt =====
-- `prune_acknowledged_snapshots` deletes what is below the kept generations, and nothing else.
use aegis_vpn.Base.{
  ℕ, ◌-◌, ◌≤◌, ◌≡◌, none, List, [], ◌∷◌, ◌==◌, ◌&&◌, not, arith, All, select, ltb, Bool, Bool-cases,
  inr, inl, ◌∙◌, if◌then◌else◌, leb, All-select_select,
}
use aegis_vpn.Wire.{Codec}
use aegis_vpn.Control.Db.{NodeSnapshot, NodeSnapshotPage, Db, find_snapshot, find_page}
use aegis_vpn.Control.State.{prune_acknowledged_snapshots}
use aegis_vpn.Control.State.Generations.{rows_of}
use aegis_vpn.Control.State.Pages.{pages_of, IsServable}

-- What a pruning to `cutoff` keeps.
abbrev keeps_snapshot : ℕ → ℕ → NodeSnapshot → Bool
keeps_snapshot i cutoff s = not (s.server_id == i && ltb s.generation cutoff)

abbrev keeps_page : ℕ → ℕ → NodeSnapshotPage → Bool
keeps_page i cutoff p = not (p.server_id == i && ltb p.generation cutoff)

find_snapshot-select :
    (i cutoff j g : ℕ) (ss : List NodeSnapshot)
    → find_snapshot j g (select (keeps_snapshot i cutoff) ss)
      ≡ (if j == i && ltb g cutoff then none else find_snapshot j g ss)
unfolding find_snapshot
find_snapshot-select i cutoff j g [] = ground arith
find_snapshot-select i cutoff j g (s ∷ ss) = ground (arith, find_snapshot-select i cutoff j g ss)

find_page-select :
    (i cutoff j g k : ℕ) (ps : List NodeSnapshotPage)
    → find_page j g k (select (keeps_page i cutoff) ps)
      ≡ (if j == i && ltb g cutoff then none else find_page j g k ps)
unfolding find_page
find_page-select i cutoff j g k [] = ground arith
find_page-select i cutoff j g k (p ∷ ps) = ground (arith, find_page-select i cutoff j g k ps)

-- After pruning for the acknowledged generation `n`, exactly the server's snapshots below `n - 2`
-- are gone, with all their pages, unless `n - 2` is at most 1; every other snapshot and page, those
-- of newer generations and of other servers too, is found as before.
pub prune_exact :
    (i n j g k : ℕ) (db : Db)
    → let db' = (prune_acknowledged_snapshots i n db).1 in
      let gone = j == i && ltb g (n - 2) && ltb 1 (n - 2) in
      (find_snapshot j g db'.snapshots ≡ (if gone then none else find_snapshot j g db.snapshots))
      × (find_page j g k db'.pages ≡ (if gone then none else find_page j g k db.pages))
unfolding prune_acknowledged_snapshots
prune_exact i n j g k db = ground (
  arith,
  find_snapshot-select i (n - 2) j g db.snapshots,
  find_page-select i (n - 2) j g k db.pages,
)

-- A snapshot that stays can still be downloaded.
select-IsServable :
    (c : Codec) (i cutoff : ℕ) (ps : List NodeSnapshotPage) (ns : List NodeSnapshot)
    → All (IsServable c ps) ns
    → All (IsServable c (select (keeps_page i cutoff) ps)) (select (keeps_snapshot i cutoff) ns)
select-IsServable c i cutoff ps [] h = tt
select-IsServable c i cutoff ps (n ∷ ns) h = elim (Bool-cases (keeps_snapshot i cutoff n)) [
  | inr gone ↦ rw gone (select-IsServable c i cutoff ps ns h.1)
  | inl kept ↦ rw kept (
    record {
      items = h.0.items;
      digest_eq = h.0.digest_eq;
      count_eq = h.0.count_eq;
      size_pos = h.0.size_pos;
      pages_eq = h.0.pages_eq;
      page_at = λ k.
          find_page-select i cutoff n.server_id n.generation k ps
          ∙ ground (arith, kept, h.0.page_at k);
    },
    select-IsServable c i cutoff ps ns h.1,
  )
]

-- Pruning keeps a table in which every snapshot can be downloaded such a table.
pub prune-servable :
    (c : Codec) (i n : ℕ) (db : Db)
    → All (IsServable c db.pages) db.snapshots
    → let db' = (prune_acknowledged_snapshots i n db).1 in
      All (IsServable c db'.pages) db'.snapshots
unfolding prune_acknowledged_snapshots
prune-servable c i n db h = elim (Bool-cases (leb (n - 2) 1)) [
  | inl few ↦ rw few h
  | inr more ↦ rw more (select-IsServable c i (n - 2) db.pages db.snapshots h)
]

-- A bound on the rows of each server is kept too.
pub prune-bounds :
    (i n j d : ℕ) (db : Db)
    → All (λ (s : NodeSnapshot). s.generation ≤ d) (rows_of j db.snapshots)
    → All (λ (p : NodeSnapshotPage). p.generation ≤ d) (pages_of j db.pages)
    → let db' = (prune_acknowledged_snapshots i n db).1 in
      All (λ (s : NodeSnapshot). s.generation ≤ d) (rows_of j db'.snapshots)
      × All (λ (p : NodeSnapshotPage). p.generation ≤ d) (pages_of j db'.pages)
unfolding prune_acknowledged_snapshots
prune-bounds i n j d db hs hp = elim (Bool-cases (leb (n - 2) 1)) [
  | inl few ↦ rw few (hs, hp)
  | inr more ↦ rw more (
    All-select_select _ (keeps_snapshot i (n - 2)) (λ s. s.server_id == j) db.snapshots hs,
    All-select_select _ (keeps_page i (n - 2)) (λ p. p.server_id == j) db.pages hp,
  )
]

pub servers-prune :
    (i n : ℕ) (db : Db) → (prune_acknowledged_snapshots i n db).1.servers ≡ db.servers
unfolding prune_acknowledged_snapshots
servers-prune i n db = ground arith
