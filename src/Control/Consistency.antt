-- ===== src/Control/Consistency.antt =====
-- The invariant of the control tables: generations never run ahead of a server's row, and every
-- snapshot can be downloaded in full.
pub mod Publishing
pub mod Endpoints
pub mod Histories
use aegis_vpn.Base.{
  ℕ, ◌+◌, ◌≤◌, ◌<◌, ◌≡◌, refl, some, List, [], ◌∷◌, ◌++◌, ◌==◌, ◌&&◌, true, false, arith, All,
  All-append, select, select-append, Bool-cases, inl, inr,
}
use aegis_vpn.Wire.{Codec}
use aegis_vpn.Control.Db.{
  Server, NodeSnapshot, NodeSnapshotPage, Db, find_server, write_server, find_server-write,
  id-find_server,
}
use aegis_vpn.Control.State.Generations.{rows_of}
use aegis_vpn.Control.State.Pages.{pages_of, IsServable}

-- No snapshot or page of the server is above the desired generation of its row, and neither is
-- what the node has applied.
pub record ServerBounds (db : Db) (s : Server) : Type 0 where
  pub snapshots_le :
      All (λ (n : NodeSnapshot). n.generation ≤ s.desired_generation) (rows_of s.id db.snapshots)
  pub pages_le :
      All (λ (p : NodeSnapshotPage). p.generation ≤ s.desired_generation) (pages_of s.id db.pages)
  pub applied_le : s.applied_generation ≤ s.desired_generation

pub record IsConsistent (c : Codec) (db : Db) : Type 0 where
  pub bounds : (i : ℕ) (s : Server) → find_server i db.servers ≡ some s → ServerBounds db s
  pub servable : All (IsServable c db.pages) db.snapshots

-- A row may be written that keeps its generations in order.
pub write-IsConsistent :
    (c : Codec) (db : Db) (s t : Server)
    → find_server s.id db.servers ≡ some t
    → s.desired_generation ≡ t.desired_generation
    → s.applied_generation ≤ s.desired_generation
    → IsConsistent c db
    → IsConsistent c (record db { servers = write_server s db.servers })
write-IsConsistent c db s t found same ordered h = record {
  bounds = λ i r e. elim (Bool-cases (i == s.id)) [
    | inl here ↦
        let old = h.bounds s.id t found in
        let id_eq : t.id ≡ s.id = id-find_server s.id db.servers t found in
        let r_eq : r ≡ s = ground (arith, find_server-write i s t db.servers found) in
        rw r_eq (record {
          snapshots_le = rw (same, ← id_eq) old.snapshots_le;
          pages_le = rw (same, ← id_eq) old.pages_le;
          applied_le = ordered;
        })
    | inr other ↦
        let old = h.bounds i r (ground (arith, find_server-write i s t db.servers found)) in
        record {
          snapshots_le = old.snapshots_le;
          pages_le = old.pages_le;
          applied_le = old.applied_le;
        }
  ];
  servable = h.servable;
}

-- The invariant reads three tables only.
pub same-IsConsistent :
    (c : Codec) (db db' : Db)
    → db'.servers ≡ db.servers
    → db'.snapshots ≡ db.snapshots
    → db'.pages ≡ db.pages
    → IsConsistent c db
    → IsConsistent c db'
same-IsConsistent c db db' es en ep h = record {
  bounds = λ i r e.
      let old = h.bounds i r (rw es at e) in
      record {
        snapshots_le = rw en old.snapshots_le;
        pages_le = rw ep old.pages_le;
        applied_le = old.applied_le;
      };
  servable = rw (en, ep) h.servable;
}
