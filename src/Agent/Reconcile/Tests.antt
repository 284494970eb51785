-- ===== src/Agent/Reconcile/Tests.antt =====
-- The reconciliation of a node at concrete inputs.
use aegis_vpn.Base.{
  ℕ, Text, codes, Option, none, some, List, [], ◌∷◌, Bool, true, false, ◌≡◌, refl, mem_text, ◌⊎◌,
}
use mathlib.Core.List.{Memᴰ}
use aegis_vpn.Base.Int.{pos}
use aegis_vpn.Wire.{DesiredSnapshot, DesiredCascadeRoute, client, conn_limit, cascade_route}
use aegis_vpn.Agent.Xray.{Config, Inbound, ClientRecord, other_rule}
use aegis_vpn.Agent.Cascade.{apply_cascade_routes}
use aegis_vpn.Agent.Cascade.Reapplied.{apply_cascade_routes_idempotent}
use aegis_vpn.Agent.Cascade.FailClosed.{IsRouted, apply_cascade_routes-IsRouted}
use aegis_vpn.Agent.Node.{
  NodeState, World, Write, done, raised, journal_missing, state_not_saved, write_applied, WriteEnd,
  saved, replaced, not_replaced,
}
use aegis_vpn.Agent.Reconcile.{ReconcileResult}
use aegis_vpn.Agent.Reconcile.Snapshot.{reconcile_snapshot}
use aegis_vpn.Agent.Reconcile.Steps.{node_of}
use aegis_vpn.Agent.Reconcile.Converged.{
  IsConverged, reconcile_snapshot-IsConverged, converged-reconcile_snapshot,
}
use aegis_vpn.Agent.Reconcile.Failed.{reconcile_snapshot_raised}

abbrev old_client : ClientRecord
old_client = record { id = some (codes "o"); email = some (codes "old"); flow = none; rest = [] }

abbrev entry : Inbound
entry = record {
  tag = some (codes "in");
  port = some 443;
  protocol = some (codes "vless");
  network = none;
  clients = some (old_client ∷ []);
  rest = [];
}

abbrev node_config : Config
node_config = record {
  inbounds = entry ∷ [];
  outbounds = none;
  routing = some (record {
    rules = some (record { balancer_tag = none; body = other_rule (codes "direct") } ∷ []);
    balancers = none;
    rest = [];
  });
  observatory = none;
  rest = [];
}

abbrev route : DesiredCascadeRoute
route = record {
  route_id = 1;
  revision = 1;
  config_digest = [];
  label = [];
  inbound_tags = codes "in" ∷ [];
  exits =
      record {
        position = 0;
        host = codes "h";
        port = 443;
        uuid = codes "x";
        public_key = codes "k";
        short_id = codes "s";
        server_name = codes "n";
        xhttp_path = codes "/";
      }
      ∷ [];
  health_policy = [];
}

abbrev snapshot : DesiredSnapshot
snapshot = record {
  schema_version = 1;
  generation = 4;
  digest = codes "d";
  items =
      client (record { uuid = codes "u"; email = codes "new"; expire_ms = 9 })
      ∷ conn_limit (record { user_id = 3; limit = 2 })
      ∷ cascade_route route
      ∷ [];
}

abbrev node : NodeState
node = record {
  config = some node_config;
  applied = none;
  pending = journal_missing;
  overrides = [];
  hy2_clients = [];
  calls = [];
}

abbrev world : (Write → WriteEnd) → World
world writes = record {
  writes = writes;
  xray_adds = λ inbound r. true;
  xray_removes = λ tag email. true;
  xray_ready = true;
  hysteria_kicks = λ ids. true;
  hy2_enabled = true;
  xray_live_delta_limit = pos 32;
}

abbrev good_world : World
good_world = world (λ w. saved)

abbrev full_disk : World
full_disk = world (λ w. elim w [ write_applied ↦ not_replaced | _ ↦ saved ])

-- The directory of the applied state cannot be synced.
abbrev unsynced : World
unsynced = world (λ w. elim w [ write_applied ↦ replaced | _ ↦ saved ])

abbrev config_of : Option Config → Config
config_of none = node_config
config_of (some c) = c

abbrev routed_config : Config
routed_config = config_of (apply_cascade_routes node_config (route ∷ []))

routed_run : apply_cascade_routes node_config (route ∷ []) ≡ some routed_config
unfolding apply_cascade_routes aegis_vpn.Base.sort_by mem_text aegis_vpn.Base.text_eq
routed_run = refl

apply_cascade_routes_idempotent_example :
    apply_cascade_routes routed_config (route ∷ []) ≡ some routed_config
apply_cascade_routes_idempotent_example =
    apply_cascade_routes_idempotent node_config routed_config (route ∷ []) routed_run

in_run : mem_text (codes "in") route.inbound_tags ≡ true
unfolding mem_text aegis_vpn.Base.text_eq codes
in_run = refl

apply_cascade_routes-IsRouted_example : IsRouted routed_config route (codes "in")
apply_cascade_routes-IsRouted_example =
    apply_cascade_routes-IsRouted node_config routed_config (route ∷ []) route (codes "in")
      routed_run (Memᴰ.head refl) in_run

abbrev node_after : NodeState
node_after = node_of (reconcile_snapshot good_world snapshot false 5 node)

abbrev result : ReconcileResult
result = record { success = true; changed = true; observed = false; added = 1; removed = 1 }

reconcile_run : reconcile_snapshot good_world snapshot false 5 node ≡ done node_after result
unfolding reconcile_snapshot aegis_vpn.Base.sort_by mem_text aegis_vpn.Base.text_eq
    aegis_vpn.Agent.Cascade.Config-discrete aegis_vpn.Agent.Cascade.install
    native.Mathlib.Decide.ℕ_discrete aegis_vpn.Base.Dict.of_items
    aegis_vpn.Agent.Reconcile.clients-discrete aegis_vpn.Agent.Reconcile.option_discrete
reconcile_run = refl

reconcile_snapshot-IsConverged_example : IsConverged snapshot 5 node_after
reconcile_snapshot-IsConverged_example =
    reconcile_snapshot-IsConverged good_world snapshot 5 node node_after result reconcile_run

converged-reconcile_snapshot_example :
    (r : ReconcileResult) × (reconcile_snapshot full_disk snapshot false 5 node_after
      ≡ done node_after r)
    × (r.changed ≡ false)
converged-reconcile_snapshot_example =
    converged-reconcile_snapshot full_disk snapshot false 5 node_after
      (reconcile_snapshot-IsConverged good_world snapshot 5 node node_after result reconcile_run)

abbrev node_raised : NodeState
node_raised = node_of (reconcile_snapshot unsynced snapshot false 5 node)

raised_run : reconcile_snapshot unsynced snapshot false 5 node ≡ raised node_raised state_not_saved
unfolding reconcile_snapshot aegis_vpn.Base.sort_by mem_text aegis_vpn.Base.text_eq
    aegis_vpn.Agent.Cascade.Config-discrete aegis_vpn.Agent.Cascade.install
    native.Mathlib.Decide.ℕ_discrete aegis_vpn.Base.Dict.of_items
    aegis_vpn.Agent.Reconcile.clients-discrete aegis_vpn.Agent.Reconcile.option_discrete
raised_run = refl

reconcile_snapshot_raised_example :
    (node_raised.applied ≡ none)
    ⊎ ((state_not_saved ≡ state_not_saved) × IsConverged snapshot 5 node_raised)
reconcile_snapshot_raised_example =
    reconcile_snapshot_raised unsynced snapshot false 5 node node_raised state_not_saved raised_run
