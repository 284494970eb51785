-- ===== src/Agent/Reconcile/Snapshot.antt =====
-- agent/app/reconcile.py: `reconcile_snapshot`. First it works out what is to be changed, and then it
-- carries that out step by step, where each step may raise.
use aegis_vpn.Base.{
  ℕ, Text, Option, none, some, List, [], ◌∷◌, map, Bool, true, false, ◌&&◌, ◌||◌, not, ◌==◌, ltb,
  leb, ◌+◌, length, any, if◌then◌else◌, concat,
}
use aegis_vpn.Base.Int.{pos, max_zero}
use aegis_vpn.Base.Equality.{equal}
use aegis_vpn.Wire.{DesiredSnapshot, DesiredClient}
use aegis_vpn.Agent.Loop.{AppliedState}
use aegis_vpn.Agent.ConnLimit.{Overrides, replace_overrides}
use aegis_vpn.Agent.Xray.{Config, Inbound, ClientRecord, list_vless_inbounds}
use aegis_vpn.Agent.Cascade.{apply_cascade_routes, cascade_changed, has_any}
use aegis_vpn.Agent.Node.{
  NodeState, World, Outcome, done, raised, and_then, adds, removes, reloads, write_config,
  write_journal, write_overrides, write_applied, config_unreadable, config_not_written,
  journal_invalid, cascade_rejected, live_failed, sessions_left, state_not_saved,
  load_applied_state, load_pending_revocations, save_pending_revocations, without, union,
  same_texts, set_of, note_call, write_file, refresh_from_config, retry_pending_revocations,
}
use aegis_vpn.Agent.Reconcile.{
  desired_clients, desired_routes, desired_overrides, same_overrides, items-discrete,
  digest-discrete, inbound_removals, inbound_additions, inbound_differs, reconciled_config,
  ReconcileResult,
}

-- What is to be done.
pub record Changes : Type 0 where
  pub config : Config
  pub config_changed : Bool
  pub cascade_changed : Bool
  pub removals : List (Text × Text)
  pub additions : List (Inbound × ClientRecord)
  pub pending : List Text
  pub override_changed : Bool
  pub changed : Bool

unfoldable pub state_changed : AppliedState → DesiredSnapshot → Bool
state_changed previous snapshot =
    not (previous.generation == snapshot.generation)
    || not (equal digest-discrete previous.digest (some snapshot.digest))
    || not (equal items-discrete previous.items snapshot.items)

-- The work on the configuration that the cascade's routes have been applied to.
unfoldable pub changes_of : DesiredSnapshot → ℕ → NodeState → Config → List Text → Config → Changes
unfolding desired_clients desired_overrides same_overrides inbound_removals inbound_additions
    inbound_differs reconciled_config cascade_changed state_changed without union same_texts set_of
    load_applied_state list_vless_inbounds
changes_of snapshot now_ms n before pending_revocations config =
    let clients = desired_clients now_ms snapshot.items in
    let desired_emails = map (λ (c : DesiredClient). c.email) clients in
    let effective_pending = without pending_revocations desired_emails in
    let inbounds = list_vless_inbounds config in
    let removals = concat (map (inbound_removals clients) inbounds) in
    let removed_emails = set_of (map (λ (r : Text × Text). r.1) removals) in
    let config_changed = cascade_changed before config || any (inbound_differs clients) inbounds in
    let override_changed = not (same_overrides n.overrides (desired_overrides snapshot.items [])) in
    record {
      config = reconciled_config clients config;
      config_changed = config_changed;
      cascade_changed = cascade_changed before config;
      removals = removals;
      additions = concat (map (inbound_additions clients) inbounds);
      pending = union effective_pending (without removed_emails desired_emails);
      override_changed = override_changed;
      changed =
          config_changed
          || override_changed
          || state_changed (load_applied_state n.applied) snapshot
          || has_any effective_pending
          || not (same_texts effective_pending pending_revocations);
    }

unfoldable pub changes_after :
    DesiredSnapshot → ℕ → NodeState → Config → List Text → Option Config → Outcome Changes
unfolding changes_of
changes_after snapshot now_ms n before pending none = raised n cascade_rejected
changes_after snapshot now_ms n before pending (some config) =
    done n (changes_of snapshot now_ms n before pending config)

unfoldable pub changes_with :
    DesiredSnapshot → ℕ → NodeState → Config → Option (List Text) → Outcome Changes
unfolding changes_after apply_cascade_routes desired_routes
changes_with snapshot now_ms n before none = raised n journal_invalid
changes_with snapshot now_ms n before (some pending) =
    changes_after snapshot now_ms n before pending
      (apply_cascade_routes before (desired_routes snapshot.items))

unfoldable pub changes_from : DesiredSnapshot → ℕ → NodeState → Option Config → Outcome Changes
unfolding changes_with load_pending_revocations
changes_from snapshot now_ms n none = raised n config_unreadable
changes_from snapshot now_ms n (some before) =
    changes_with snapshot now_ms n before (load_pending_revocations n.pending)

unfoldable pub find_changes : DesiredSnapshot → ℕ → NodeState → Outcome Changes
unfolding changes_from
find_changes snapshot now_ms n = changes_from snapshot now_ms n n.config

unfoldable pub save_journal_over : World → Changes → NodeState → Option (List Text) → Outcome Unit
unfolding save_pending_revocations same_texts
save_journal_over w c n none = raised n journal_invalid
save_journal_over w c n (some stored) =
    if same_texts c.pending stored
    then done n tt
    else save_pending_revocations w write_journal c.pending n

unfoldable pub save_journal : World → Changes → NodeState → Outcome Unit
unfolding load_pending_revocations save_journal_over
save_journal w c n = save_journal_over w c n (load_pending_revocations n.pending)

unfoldable pub set_config : Config → NodeState → NodeState
set_config config n = record {
  config = some config;
  applied = n.applied;
  pending = n.pending;
  overrides = n.overrides;
  hy2_clients = n.hy2_clients;
  calls = n.calls;
}

unfoldable pub save_config : World → Changes → NodeState → Outcome Unit
unfolding set_config refresh_from_config write_file
save_config w c n =
    if not c.config_changed
    then done n tt
    else and_then (write_file (w.writes write_config) (set_config c.config n) n config_not_written)
        (λ n' t. done (refresh_from_config c.config n') tt)

-- `xray_api_remove` for each removal.
unfoldable pub remove_live : World → List (Text × Text) → NodeState → NodeState × Bool
unfolding note_call
remove_live w [] n = (n, true)
remove_live w ((tag, email) ∷ rs) n =
    let (n', rest) = remove_live w rs (note_call (removes tag email) n) in
    (n', w.xray_removes tag email && rest)

-- `xray_api_add`: an inbound without a tag or a port is refused before any call.
unfoldable pub can_add : Inbound → Bool
can_add inbound = elim inbound.tag [
  | none ↦ false
  | some tag ↦ elim inbound.port [ none ↦ false | some port ↦ has_any tag && ltb 0 port ]
]

unfoldable pub add_live : World → List (Inbound × ClientRecord) → NodeState → NodeState × Bool
unfolding note_call can_add
add_live w [] n = (n, true)
add_live w ((inbound, r) ∷ as') n =
    let (n', rest) =
      add_live w as' (if can_add inbound then note_call (adds inbound.tag r) n else n) in
    (n', can_add inbound && w.xray_adds inbound r && rest)

unfoldable pub use_live_api : World → Changes → Bool
use_live_api w c =
    not c.cascade_changed
    && leb (length c.removals + length c.additions) (max_zero w.xray_live_delta_limit)

-- The live calls, if they are used, and whether they all succeeded.
unfoldable pub call_live : World → Changes → NodeState → NodeState × Bool
unfolding remove_live add_live use_live_api
call_live w c n =
    let (n', removed) = remove_live w c.removals n in
    let (n'', added) = add_live w c.additions n' in
    if use_live_api w c then (n'', removed && added) else (n, false)

unfoldable pub reload_unless : World → NodeState × Bool → Outcome Unit
unfolding note_call
reload_unless w (n, api_ok) =
    if api_ok
    then done n tt
    else if w.xray_ready
    then done (note_call reloads n) tt
    else raised (note_call reloads n) live_failed

unfoldable pub update_xray : World → Changes → NodeState → Outcome Unit
unfolding call_live reload_unless
update_xray w c n = reload_unless w (call_live w c n)

unfoldable pub close_sessions : World → Changes → NodeState → Outcome Unit
unfolding retry_pending_revocations
close_sessions w c n =
    if has_any c.pending
    then and_then (retry_pending_revocations w c.config n)
        (λ n' all_closed. if all_closed then done n' tt else raised n' sessions_left)
    else done n tt

unfoldable pub set_overrides : Overrides → NodeState → NodeState
set_overrides overrides n = record {
  config = n.config;
  applied = n.applied;
  pending = n.pending;
  overrides = overrides;
  hy2_clients = n.hy2_clients;
  calls = n.calls;
}

-- The overrides in memory, which are set once the file is written; the file is read at the start only.
unfoldable pub save_overrides : World → DesiredSnapshot → Changes → NodeState → Outcome Unit
unfolding set_overrides desired_overrides replace_overrides write_file
save_overrides w snapshot c n =
    let overrides =
      replace_overrides (map (λ (o : ℕ × ℕ). (o.0, pos o.1)) (desired_overrides snapshot.items []))
        [] in
    if not c.override_changed
    then done n tt
    else and_then (write_file (w.writes write_overrides) n n state_not_saved)
        (λ n' t. done (set_overrides overrides n') tt)

unfoldable pub applied_of : DesiredSnapshot → AppliedState
applied_of snapshot = record {
  schema_version = snapshot.schema_version;
  generation = snapshot.generation;
  digest = some snapshot.digest;
  items = snapshot.items;
}

unfoldable pub set_applied : AppliedState → NodeState → NodeState
set_applied applied n = record {
  config = n.config;
  applied = some applied;
  pending = n.pending;
  overrides = n.overrides;
  hy2_clients = n.hy2_clients;
  calls = n.calls;
}

unfoldable pub save_applied_state : World → DesiredSnapshot → NodeState → Outcome Unit
unfolding set_applied applied_of write_file
save_applied_state w snapshot n =
    write_file (w.writes write_applied) (set_applied (applied_of snapshot) n) n state_not_saved

-- The steps, once changes are to be made.
unfoldable pub carry_out : World → DesiredSnapshot → Changes → NodeState → Outcome Unit
unfolding save_journal save_config update_xray close_sessions save_overrides save_applied_state
carry_out w snapshot c n = and_then (save_journal w c n) (λ n1 t1.
    and_then (save_config w c n1) (λ n2 t2. and_then (update_xray w c n2) (λ n3 t3.
      and_then (close_sessions w c n3) (λ n4 t4.
        and_then (save_overrides w snapshot c n4) (λ n5 t5. save_applied_state w snapshot n5)))))

unfoldable pub result_of : Bool → Changes → ReconcileResult
result_of observe c = record {
  success = true;
  changed = c.changed;
  observed = observe;
  added = length c.additions;
  removed = length c.removals;
}

unfoldable pub make_changes :
    World → DesiredSnapshot → Bool → NodeState → Changes → Outcome ReconcileResult
unfolding carry_out result_of
make_changes w snapshot observe n c =
    if observe || not c.changed
    then done n (result_of observe c)
    else and_then (carry_out w snapshot c n) (λ n' t. done n' (result_of observe c))

-- `reconcile_snapshot`
unfoldable pub reconcile_snapshot :
    World → DesiredSnapshot → Bool → ℕ → NodeState → Outcome ReconcileResult
unfolding find_changes make_changes
reconcile_snapshot w snapshot observe now_ms n =
    and_then (find_changes snapshot now_ms n) (make_changes w snapshot observe)
