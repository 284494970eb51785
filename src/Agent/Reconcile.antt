-- ===== src/Agent/Reconcile.antt =====
-- agent/app/reconcile.py: making a node's Xray configuration, its connection limits and its journal
-- of revocations agree with a snapshot. The loop over the inbounds.
pub mod Snapshot
pub mod Limits
pub mod Steps
pub mod Clients
pub mod Converged
pub mod Failed
mod Tests
use aegis_vpn.Base.{
  ℕ, Text, Option, none, some, List, [], ◌∷◌, ◌++◌, map, foldl, Bool, true, false, ◌&&◌, ◌||◌, not,
  ◌==◌, ltb, leb, ◌+◌, length, select, any, all, mem_text, is_empty, if◌then◌else◌, concat,
}
use aegis_vpn.Base.Int.{ℤ, pos, max_zero}
use aegis_vpn.Base.Dict.{Dict, insert, put, get, of_items}
use aegis_vpn.Base.Equality.{equal}
use aegis_vpn.Wire.{
  DesiredItem, DesiredSnapshot, DesiredClient, DesiredCascadeRoute, client, conn_limit,
  cascade_service, cascade_route,
}
use aegis_vpn.Agent.Loop.{AppliedState}
use aegis_vpn.Agent.ConnLimit.{Overrides, replace_overrides, override_of}
use aegis_vpn.Agent.Xray.{
  Config, Inbound, ClientRecord, build_client_record, is_vless, list_vless_inbounds,
}
use aegis_vpn.Agent.Cascade.{apply_cascade_routes, cascade_changed, list_or_nil, has_any}
use aegis_vpn.Agent.Node.{
  NodeState, World, Write, Outcome, Failure, Call, Journal, done, raised, and_then, adds, removes,
  reloads, write_config, write_journal, write_overrides, write_applied, config_unreadable,
  config_not_written, journal_invalid, cascade_rejected, live_failed, sessions_left,
  state_not_saved, load_applied_state, load_pending_revocations, save_pending_revocations, without,
  union, same_texts, set_of, note_call, truthy, clients_of, refresh_from_config,
  retry_pending_revocations,
}
use native.Mathlib.Decide.{ℕ_discrete}

-- `_desired_parts`: a service's client does not expire.
unfoldable pub desired_clients : ℕ → List DesiredItem → List DesiredClient
desired_clients now_ms [] = []
desired_clients now_ms (client c ∷ items) =
    let rest = desired_clients now_ms items in if ltb now_ms c.expire_ms then c ∷ rest else rest
desired_clients now_ms (cascade_service s ∷ items) =
    record { uuid = s.uuid; email = s.email; expire_ms = 4102444800000 }
    ∷ desired_clients now_ms items
desired_clients now_ms (conn_limit l ∷ items) = desired_clients now_ms items
desired_clients now_ms (cascade_route r ∷ items) = desired_clients now_ms items

unfoldable pub desired_routes : List DesiredItem → List DesiredCascadeRoute
desired_routes [] = []
desired_routes (cascade_route r ∷ items) = r ∷ desired_routes items
desired_routes (client c ∷ items) = desired_routes items
desired_routes (conn_limit l ∷ items) = desired_routes items
desired_routes (cascade_service s ∷ items) = desired_routes items

unfoldable pub desired_overrides : List DesiredItem → Overrides → Overrides
desired_overrides [] os = os
desired_overrides (conn_limit l ∷ items) os = desired_overrides items (insert l.user_id l.limit os)
desired_overrides (client c ∷ items) os = desired_overrides items os
desired_overrides (cascade_service s ∷ items) os = desired_overrides items os
desired_overrides (cascade_route r ∷ items) os = desired_overrides items os

unfoldable pub option_discrete : Discrete (Option ℕ)
option_discrete = hlevel ℕ_discrete

-- Equality of dicts keyed by integers.
unfoldable pub same_overrides : Overrides → Overrides → Bool
unfolding override_of
same_overrides os us =
    all (λ (e : ℕ × ℕ). equal option_discrete (override_of e.0 os) (override_of e.0 us)) (os ++ us)

unfoldable pub ClientRecord-discrete : Discrete ClientRecord
ClientRecord-discrete = hlevel ℕ_discrete

unfoldable pub clients-discrete : Discrete (List ClientRecord)
clients-discrete = hlevel ℕ_discrete

unfoldable pub items-discrete : Discrete (List DesiredItem)
items-discrete = hlevel ℕ_discrete

unfoldable pub digest-discrete : Discrete (Option Text)
digest-discrete = hlevel ℕ_discrete

-- `_record_projection`, as the record of the three keys.
unfoldable pub record_projection : ClientRecord → ClientRecord
record_projection r = record { id = r.id; email = r.email; flow = truthy r.flow; rest = [] }

unfoldable pub desired_records : List DesiredClient → Inbound → List ClientRecord
unfolding build_client_record
desired_records clients inbound =
    map (λ (c : DesiredClient). build_client_record c.uuid c.email inbound) clients

entry_of : ClientRecord → Text × ClientRecord
entry_of r = elim r.id [ none ↦ ([], r) | some uuid ↦ (uuid, r) ]

keyed_clients : List ClientRecord → List (Text × ClientRecord)
unfolding entry_of
keyed_clients [] = []
keyed_clients (r ∷ rs) =
    let rest = keyed_clients rs in elim (truthy r.id) [ none ↦ rest | some uuid ↦ (uuid, r) ∷ rest ]

-- `existing_by_uuid` and `desired_by_uuid`
unfoldable pub existing_by_uuid : List ClientRecord → List (Text × ClientRecord)
unfolding keyed_clients
existing_by_uuid records = of_items (keyed_clients records)

unfoldable pub desired_by_uuid : List ClientRecord → List (Text × ClientRecord)
unfolding entry_of
desired_by_uuid records = of_items (map entry_of records)

-- `record is not None and _record_projection(existing) == desired`
agrees : Option ClientRecord → Option ClientRecord → Bool
unfolding record_projection
agrees none desired = false
agrees (some existing) none = false
agrees (some existing) (some desired) =
    equal ClientRecord-discrete (record_projection existing) desired

removal : Inbound → ClientRecord → List (Text × Text)
removal inbound r = elim (truthy inbound.tag) [
  | none ↦ []
  | some tag ↦ elim (truthy r.email) [ none ↦ [] | some email ↦ (tag, email) ∷ [] ]
]

-- The first inner loop.
unfoldable pub removals_at :
    Inbound → List (Text × ClientRecord) → List (Text × ClientRecord) → List (Text × Text)
unfolding agrees removal
removals_at inbound desired [] = []
removals_at inbound desired ((uuid, r) ∷ existing) =
    let rest = removals_at inbound desired existing in
    if agrees (some r) (get uuid desired) then rest else removal inbound r ++ rest

-- The second.
unfoldable pub additions_at :
    Inbound
    → List (Text × ClientRecord)
    → List (Text × ClientRecord)
    → List (Inbound × ClientRecord)
unfolding agrees
additions_at inbound existing [] = []
additions_at inbound existing ((uuid, r) ∷ desired) =
    let rest = additions_at inbound existing desired in
    if agrees (get uuid existing) (some r) then rest else (inbound, r) ∷ rest

unfoldable pub inbound_removals : List DesiredClient → Inbound → List (Text × Text)
unfolding removals_at existing_by_uuid desired_by_uuid clients_of desired_records
inbound_removals clients inbound =
    removals_at inbound (desired_by_uuid (desired_records clients inbound))
      (existing_by_uuid (clients_of inbound))

unfoldable pub inbound_additions : List DesiredClient → Inbound → List (Inbound × ClientRecord)
unfolding additions_at existing_by_uuid desired_by_uuid clients_of desired_records
inbound_additions clients inbound =
    additions_at inbound (existing_by_uuid (clients_of inbound))
      (desired_by_uuid (desired_records clients inbound))

-- `existing != desired_records`
unfoldable pub inbound_differs : List DesiredClient → Inbound → Bool
unfolding clients_of desired_records
inbound_differs clients inbound =
    not (equal clients-discrete (clients_of inbound) (desired_records clients inbound))

-- What the loop leaves of an inbound.
unfoldable pub reconciled_inbound : List DesiredClient → Inbound → Inbound
unfolding inbound_differs clients_of desired_records
reconciled_inbound clients inbound = record {
  tag = inbound.tag;
  port = inbound.port;
  protocol = inbound.protocol;
  network = inbound.network;
  clients = some (
      if inbound_differs clients inbound
      then desired_records clients inbound
      else clients_of inbound);
  rest = inbound.rest;
}

unfoldable pub set_inbounds : List Inbound → Config → Config
set_inbounds inbounds c = record {
  inbounds = inbounds;
  outbounds = c.outbounds;
  routing = c.routing;
  observatory = c.observatory;
  rest = c.rest;
}

unfoldable pub reconciled_config : List DesiredClient → Config → Config
unfolding reconciled_inbound is_vless set_inbounds
reconciled_config clients config =
    set_inbounds (map (λ i. if is_vless i then reconciled_inbound clients i else i) config.inbounds)
      config

pub record ReconcileResult : Type 0 where
  pub success : Bool
  pub changed : Bool
  pub observed : Bool
  pub added : ℕ
  pub removed : ℕ
