-- ===== src/Control/Router/Telemetry.antt =====
-- The telemetry endpoint: reports in order, each once.
use aegis_vpn.Base.{
  ℕ, ◌≤◌, ◌<◌, ◌≡◌, refl, Option, none, some, arith, Option-cases, inl, inr, ◌⊎◌, Bool-cases, ap,
  leb, ◌∙◌,
}
use native.Mathlib.Decide.{ℕ_discrete}
use aegis_vpn.Base.Result.{ok}
use aegis_vpn.Control.Db.{
  NodeTelemetry, Db, find_server, find_telemetry, write_telemetry, find_telemetry-write_self,
  find_telemetry-write_ne, Server,
}
use aegis_vpn.Control.Router.{
  Config, NodeTelemetryRequest, ControlStatus, accepted, duplicate, receive_telemetry,
  telemetry_row, write_row, seen_row,
}

-- There is no stored report, or it has a lower sequence number.
abbrev pub IsOlder : Option NodeTelemetry → ℕ → Type 0
IsOlder none n = Unit
IsOlder (some t) n = t.sequence < n

receive-cases :
    (cfg : Config) (now : ℕ) (request : NodeTelemetryRequest) (node : ℕ) (db db' : Db)
    (status : ControlStatus)
    → receive_telemetry cfg now request node db ≡ ok (status, db')
    → ((t : NodeTelemetry) × (find_telemetry node db.telemetry ≡ some t)
        × (request.sequence ≤ t.sequence)
        × (status ≡ duplicate)
        × (db'.telemetry ≡ db.telemetry))
      ⊎ ((status ≡ accepted)
          × IsOlder (find_telemetry node db.telemetry) request.sequence
          × (db'.telemetry ≡ write_telemetry (telemetry_row now request node) db.telemetry))
unfolding receive_telemetry
receive-cases cfg now request node db db' status e =
    elim (Option-cases (find_telemetry node db.telemetry)) [
      | inl first ↦ inr (ground (arith, first))
      | inr (t, old) ↦ elim (Bool-cases (leb request.sequence t.sequence)) [
        | inl late ↦
            inl (t, old, ground arith, ground (arith, old, late), ground (arith, old, late))
        | inr new ↦ inr (ground (arith, old, new))
      ]
    ]

-- A telemetry request that is answered leaves a report of the node whose sequence number is at
-- least its own. As a duplicate it leaves all stored reports as they were; accepted, it was newer
-- than the stored report of the node, is the stored report now, and leaves those of all other
-- nodes as they were.
pub telemetry_once :
    (cfg : Config) (now : ℕ) (request : NodeTelemetryRequest) (node : ℕ) (db db' : Db)
    (status : ControlStatus)
    → receive_telemetry cfg now request node db ≡ ok (status, db')
    → (t : NodeTelemetry) × (find_telemetry node db'.telemetry ≡ some t)
      × (request.sequence ≤ t.sequence)
      × (((status ≡ duplicate) × (db'.telemetry ≡ db.telemetry))
          ⊎ ((status ≡ accepted)
              × (t.sequence ≡ request.sequence)
              × (t.payload ≡ request.payload)
              × IsOlder (find_telemetry node db.telemetry) request.sequence
              × ((other : ℕ)
                  → (other ≡ node)
                    ⊎ (find_telemetry other db'.telemetry ≡ find_telemetry other db.telemetry))))
unfolding telemetry_row
telemetry_once cfg now request node db db' status e =
    let row = telemetry_row now request node in
    elim (receive-cases cfg now request node db db' status e) [
      | inl (t, old, le, dup, same) ↦ (t, ap (find_telemetry node) same ∙ old, le, inl (dup, same))
      | inr (acc, older, stored) ↦ (
        row,
        ap (find_telemetry node) stored ∙ find_telemetry-write_self row db.telemetry,
        omega arith,
        inr (
          acc,
          refl,
          refl,
          older,
          λ other. elim (ℕ_discrete other node) [
            | yes same ↦ inl same
            | no ne ↦ inr (
                ap (find_telemetry other) stored
                ∙ find_telemetry-write_ne other row db.telemetry ne)
          ],
        ),
      )
    ]

-- Of the control tables a report writes the row of its server only.
pub receive-row :
    (cfg : Config) (now : ℕ) (request : NodeTelemetryRequest) (node : ℕ) (db db' : Db)
    (status : ControlStatus)
    → receive_telemetry cfg now request node db ≡ ok (status, db')
    → (r : Server) × (find_server node db.servers ≡ some r)
      × (db'.servers ≡ (write_row (seen_row now r) db).servers)
      × (db'.snapshots ≡ db.snapshots)
      × (db'.pages ≡ db.pages)
unfolding receive_telemetry
receive-row cfg now request node db db' status e =
    elim (Option-cases (find_server node db.servers)) [
      | inl gone ↦ ground (arith, gone)
      | inr (r, found) ↦
          (r, found, ground (arith, found), ground (arith, found), ground (arith, found))
    ]
