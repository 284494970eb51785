-- ===== src/Agent/Reconcile/Converged.antt =====
-- agent/app/reconcile.py: a call of `reconcile_snapshot` that returns in apply mode leaves the node as
-- the snapshot wants it, and the next one finds nothing to do.
use aegis_vpn.Base.{
  ℕ, Text, Option, none, some, List, [], map, Bool, true, false, ◌||◌, not, any, ==_iff,
  if◌then◌else◌, ◌≡◌, refl, sym, ap, ◌∙◌, Bool-cases, inl, inr, arith,
}
use mathlib.Core.Path.{subst}
use aegis_vpn.Base.Equality.{equal, equal_iff, equal_refl}
use aegis_vpn.Wire.{DesiredSnapshot, DesiredClient}
use aegis_vpn.Agent.Loop.{AppliedState}
use aegis_vpn.Agent.Xray.{Config, list_vless_inbounds}
use aegis_vpn.Agent.Cascade.{apply_cascade_routes, cascade_changed, Config-discrete, has_any}
use aegis_vpn.Agent.Cascade.Reapplied.{apply_cascade_routes_idempotent}
use aegis_vpn.Agent.Node.{
  NodeState, World, done, and_then, load_applied_state, load_pending_revocations, without,
  same_texts,
}
use aegis_vpn.Agent.Reconcile.{
  desired_clients, desired_routes, desired_overrides, same_overrides, items-discrete,
  digest-discrete, inbound_differs, reconciled_config, ReconcileResult,
}
use aegis_vpn.Agent.Reconcile.Snapshot.{
  Changes, state_changed, changes_of, changes_after, changes_with, changes_from, find_changes,
  save_journal, set_applied, applied_of, carry_out, result_of, reconcile_snapshot, make_changes,
}
use aegis_vpn.Agent.Reconcile.Steps.{
  and_then-done, done-injective, IsClear, files, kept_by_journal, kept_by_config, kept_by_overrides,
  files-update_xray, save_journal-keeps, close_sessions-keeps, save_config-keeps,
  save_overrides-keeps, save_journal-IsClear, close_sessions-IsClear, node_of, no_any,
  same_texts-nil, saved_config, saved_overrides, saved_applied, Passes, carry_out-Passes,
}
use aegis_vpn.Agent.Reconcile.Clients.{
  HasClients, none_differs, clients_agree, reconciled-HasClients, apply-set_inbounds,
}

-- The configuration has the clients and the cascade that the snapshot asks for.
unfoldable pub IsWanted : DesiredSnapshot → ℕ → Config → Type 0
IsWanted snapshot now_ms config =
    HasClients (desired_clients now_ms snapshot.items) (list_vless_inbounds config)
    × (apply_cascade_routes config (desired_routes snapshot.items) ≡ some config)

unfoldable pub IsApplied : DesiredSnapshot → AppliedState → Type 0
IsApplied snapshot a =
    (a.generation ≡ snapshot.generation)
    × (a.digest ≡ some snapshot.digest)
    × (a.items ≡ snapshot.items)

-- The node agrees with the snapshot: its configuration's file, the applied state, the journal, in
-- which no revocation is pending, and the overrides.
unfoldable pub IsConverged : DesiredSnapshot → ℕ → NodeState → Type 0
unfolding IsWanted IsApplied
IsConverged snapshot now_ms n =
    ((config : Config) × (n.config ≡ some config) × IsWanted snapshot now_ms config)
    × IsApplied snapshot (load_applied_state n.applied)
    × IsClear n
    × (same_overrides n.overrides (desired_overrides snapshot.items []) ≡ true)

state_changed-IsApplied :
    (snapshot : DesiredSnapshot) (a : AppliedState)
    → state_changed a snapshot ≡ false
    → IsApplied snapshot a
unfolding state_changed IsApplied
state_changed-IsApplied snapshot a e = (
  (==_iff a.generation snapshot.generation).0 (ground (arith, e)),
  (equal_iff digest-discrete a.digest (some snapshot.digest)).0 (ground (arith, e)),
  (equal_iff items-discrete a.items snapshot.items).0 (ground (arith, e)),
)

IsApplied-state_changed :
    (snapshot : DesiredSnapshot) (a : AppliedState)
    → IsApplied snapshot a
    → state_changed a snapshot ≡ false
unfolding state_changed IsApplied
IsApplied-state_changed snapshot a h = ground (
  arith,
  (==_iff a.generation snapshot.generation).1 h.0,
  (equal_iff digest-discrete a.digest (some snapshot.digest)).1 h.1,
  (equal_iff items-discrete a.items snapshot.items).1 h.2,
)

module _ (snapshot : DesiredSnapshot) (now_ms : ℕ) (before config : Config)
    (applied : apply_cascade_routes before (desired_routes snapshot.items) ≡ some config) where
  reconciled-IsWanted :
      IsWanted snapshot now_ms (reconciled_config (desired_clients now_ms snapshot.items) config)
  unfolding IsWanted
  reconciled-IsWanted = (
    reconciled-HasClients (desired_clients now_ms snapshot.items) config,
    unfold reconciled_config in
        apply-set_inbounds
          (reconciled_config (desired_clients now_ms snapshot.items) config).inbounds config config
          (desired_routes snapshot.items)
          (apply_cascade_routes_idempotent before config (desired_routes snapshot.items) applied),
  )

  unchanged-IsWanted :
      (cascade_changed before config
          || any
              (inbound_differs (desired_clients now_ms snapshot.items))
              (list_vless_inbounds config))
        ≡ false
      → IsWanted snapshot now_ms before
  unfolding IsWanted cascade_changed
  unchanged-IsWanted e =
      let same : config ≡ before =
        (equal_iff Config-discrete config before).0 (ground (arith, e)) in
      (
        subst (λ c. HasClients (desired_clients now_ms snapshot.items) (list_vless_inbounds c)) same
            (none_differs (desired_clients now_ms snapshot.items) (list_vless_inbounds config)
              (ground (arith, e))),
        subst (λ c. apply_cascade_routes before (desired_routes snapshot.items) ≡ some c) same
            applied,
      )

-- What the changes have been found from.
unfoldable pub IsFound : DesiredSnapshot → ℕ → NodeState → Changes → Type 0
IsFound snapshot now_ms n c =
    (before : Config) × (config : Config) × (pending : List Text) × (n.config ≡ some before)
    × (load_pending_revocations n.pending ≡ some pending)
    × (apply_cascade_routes before (desired_routes snapshot.items) ≡ some config)
    × (changes_of snapshot now_ms n before pending config ≡ c)

none_of :
    (a b c d e : Bool)
    → (a || b || c || d || e) ≡ false
    → (a ≡ false) × (b ≡ false) × (c ≡ false) × (d ≡ false) × (e ≡ false)
none_of a b c d e h = ground arith

abbrev desired_emails_of : ℕ → DesiredSnapshot → List Text
desired_emails_of now_ms snapshot =
    map (λ (c : DesiredClient). c.email) (desired_clients now_ms snapshot.items)

module _ (snapshot : DesiredSnapshot) (now_ms : ℕ) (n : NodeState) where
  changes_after-IsFound :
      (before : Config) (pending : List Text) (o : Option Config) (n1 : NodeState) (c : Changes)
      → n.config ≡ some before
      → load_pending_revocations n.pending ≡ some pending
      → apply_cascade_routes before (desired_routes snapshot.items) ≡ o
      → changes_after snapshot now_ms n before pending o ≡ done n1 c
      → (n ≡ n1) × IsFound snapshot now_ms n c
  unfolding changes_after IsFound
  changes_after-IsFound before pending none n1 c h g a e = cc
  changes_after-IsFound before pending (some config) n1 c h g a e =
      (done-injective e, (before, config, pending, h, g, a, cc))

  changes_with-IsFound :
      (before : Config) (o : Option (List Text)) (n1 : NodeState) (c : Changes)
      → n.config ≡ some before
      → load_pending_revocations n.pending ≡ o
      → changes_with snapshot now_ms n before o ≡ done n1 c
      → (n ≡ n1) × IsFound snapshot now_ms n c
  unfolding changes_with
  changes_with-IsFound before none n1 c h g e = cc
  changes_with-IsFound before (some pending) n1 c h g e =
      changes_after-IsFound before pending
        (apply_cascade_routes before (desired_routes snapshot.items)) n1 c h g refl e

  changes_from-IsFound :
      (o : Option Config) (n1 : NodeState) (c : Changes)
      → n.config ≡ o
      → changes_from snapshot now_ms n o ≡ done n1 c
      → (n ≡ n1) × IsFound snapshot now_ms n c
  unfolding changes_from
  changes_from-IsFound none n1 c h e = cc
  changes_from-IsFound (some before) n1 c h e =
      changes_with-IsFound before (load_pending_revocations n.pending) n1 c h refl e

  pub found :
      (n1 : NodeState) (c : Changes)
      → find_changes snapshot now_ms n ≡ done n1 c
      → (n ≡ n1) × IsFound snapshot now_ms n c
  unfolding find_changes
  found n1 c e = changes_from-IsFound n.config n1 c refl e

  -- Nothing to change: the node agrees already.
  quiet-IsConverged :
      (c : Changes)
      → IsFound snapshot now_ms n c
      → c.changed ≡ false
      → IsConverged snapshot now_ms n
  unfolding IsFound IsConverged changes_of
  quiet-IsConverged c f e =
      let (before, config, pending, h, g, a, made) = f in
      let e' : (changes_of snapshot now_ms n before pending config).changed ≡ false =
        subst (λ (z : Changes). z.changed ≡ false) (sym made) e in
      let (steady, limits, state, none_pending, none_dropped) =
        none_of
          (cascade_changed before config
            || any (inbound_differs (desired_clients now_ms snapshot.items))
                (list_vless_inbounds config))
          (not (same_overrides n.overrides (desired_overrides snapshot.items [])))
          (state_changed (load_applied_state n.applied) snapshot)
          (has_any (without pending (desired_emails_of now_ms snapshot)))
          (not (same_texts (without pending (desired_emails_of now_ms snapshot)) pending)) e' in
      (
        (before, h, unchanged-IsWanted snapshot now_ms before config a steady),
        state_changed-IsApplied snapshot (load_applied_state n.applied) state,
        g
            ∙ ap some (
                same_texts-nil pending (
                  subst (λ ts. same_texts ts pending ≡ true)
                    (no_any (without pending (desired_emails_of now_ms snapshot)) none_pending)
                    (ground (arith, none_dropped)))),
        ground (arith, limits),
      )

  -- What the steps may rely on.
  IsUsable : Changes → Type 0
  IsUsable c =
      (before : Config) × (n.config ≡ some before)
      × IsWanted snapshot now_ms c.config
      × (c.config_changed ≡ false → IsWanted snapshot now_ms before)
      × (c.override_changed ≡ false
          → same_overrides n.overrides (desired_overrides snapshot.items []) ≡ true)

  found-IsUsable : (c : Changes) → IsFound snapshot now_ms n c → IsUsable c
  unfolding IsFound IsUsable changes_of
  found-IsUsable c f =
      let (before, config, pending, h, g, a, made) = f in
      subst IsUsable made (
        before,
        h,
        reconciled-IsWanted snapshot now_ms before config a,
        unchanged-IsWanted snapshot now_ms before config a,
        λ e. ground (arith, e),
      )

  -- With the snapshot in the file of the applied state, the node that the steps before leave agrees.
  pub Passes-IsConverged :
      (w : World) (c : Changes) (n5 : NodeState)
      → IsFound snapshot now_ms n c
      → Passes w snapshot c n n5
      → IsConverged snapshot now_ms (set_applied (applied_of snapshot) n5)
  unfolding IsUsable
  Passes-IsConverged w c n5 f passes =
      let (before, h, good, unchanged, limits) = found-IsUsable c f in
      let (n1, n2, n3, n4, e1, e2, e3, e4, e5) = passes in
      let k1 : kept_by_journal n1 ≡ kept_by_journal n =
        ap kept_by_journal (sym (ap node_of e1)) ∙ save_journal-keeps w c n in
      let k2 : kept_by_config n2 ≡ kept_by_config n1 =
        ap kept_by_config (sym (ap node_of e2)) ∙ save_config-keeps w c n1 in
      let k3 : files n3 ≡ files n2 = ap files (sym (ap node_of e3)) ∙ files-update_xray w c n2 in
      let k4 : kept_by_journal n4 ≡ kept_by_journal n3 =
        ap kept_by_journal (sym (ap node_of e4)) ∙ close_sessions-keeps w c n3 in
      let k5 : kept_by_overrides n5 ≡ kept_by_overrides n4 =
        ap kept_by_overrides (sym (ap node_of e5)) ∙ save_overrides-keeps w snapshot c n4 in
      let (final, there, wanted) =
        saved_config w c n1 n2 (IsWanted snapshot now_ms) before (ap (λ k. k.0) k1 ∙ h) good
          unchanged e2 in
      let clear : has_any c.pending ≡ false → IsClear n3 = λ empty.
        subst (λ j. load_pending_revocations j ≡ some [])
          (sym (ap (λ k. k.1) k2) ∙ sym (ap (λ k. k.2) k3))
          (save_journal-IsClear w c n n1 (load_pending_revocations n.pending) refl empty
            (unfold save_journal in e1)) in
      let same_limits : n4.overrides ≡ n.overrides =
        ap (λ k. k.2) k4 ∙ ap (λ k. k.3) k3 ∙ ap (λ k. k.2) k2 ∙ ap (λ k. k.2) k1 in
      let overrides : same_overrides n5.overrides (desired_overrides snapshot.items []) ≡ true =
        saved_overrides w snapshot c n4 n5
          (λ kept.
            subst (λ os. same_overrides os (desired_overrides snapshot.items []) ≡ true)
              (sym same_limits) (limits kept))
          e5 in
      let same_config : n5.config ≡ n2.config =
        ap (λ k. k.0) k5 ∙ ap (λ k. k.0) k4 ∙ ap (λ k. k.0) k3 in
      let closed : IsClear n5 =
        subst (λ j. load_pending_revocations j ≡ some []) (sym (ap (λ k. k.2) k5))
          (close_sessions-IsClear w c n3 n4 clear e4) in
      unfold IsConverged IsApplied set_applied applied_of load_applied_state in
      ((final, same_config ∙ there, wanted), (refl, refl, refl), closed, overrides)

  carried-IsConverged :
      (w : World) (c : Changes) (n1 : NodeState)
      → IsFound snapshot now_ms n c
      → carry_out w snapshot c n ≡ done n1 tt
      → IsConverged snapshot now_ms n1
  carried-IsConverged w c n6 f e =
      let (n5, passes, e6) = carry_out-Passes w snapshot c n n6 e in
      subst (IsConverged snapshot now_ms) (sym (saved_applied w snapshot n5 n6 e6))
        (Passes-IsConverged w c n5 f passes)

made-IsConverged :
    (w : World) (snapshot : DesiredSnapshot) (now_ms : ℕ) (n n1 : NodeState) (c : Changes)
    (r : ReconcileResult)
    → IsFound snapshot now_ms n c
    → make_changes w snapshot false n c ≡ done n1 r
    → IsConverged snapshot now_ms n1
unfolding make_changes
made-IsConverged w snapshot now_ms n n1 c r f e = elim (Bool-cases c.changed) [
  | inl changed ↦
      let e1 : and_then (carry_out w snapshot c n) (λ n' t. done n' (result_of false c))
          ≡ done n1 r =
        subst
          (λ b.
            (if false || not b
              then done n (result_of false c)
              else and_then (carry_out w snapshot c n) (λ n' t. done n' (result_of false c)))
            ≡ done n1 r)
          changed e in
      let (n2, t, e2, last) = and_then-done _ _ _ _ e1 in
      subst (IsConverged snapshot now_ms) (done-injective last)
        (carried-IsConverged snapshot now_ms n w c n2 f e2)
  | inr quiet ↦
      let e1 : done n (result_of false c) ≡ done n1 r =
        subst
          (λ b.
            (if false || not b
              then done n (result_of false c)
              else and_then (carry_out w snapshot c n) (λ n' t. done n' (result_of false c)))
            ≡ done n1 r)
          quiet e in
      subst (IsConverged snapshot now_ms) (done-injective e1)
        (quiet-IsConverged snapshot now_ms n c f quiet)
]

-- If a call in apply mode returns, the node agrees with the snapshot at the time of the call: every
-- vless inbound in the configuration's file has exactly the clients that are desired and not
-- expired, applying the desired routes to it again changes nothing, the applied state is the
-- snapshot's generation, digest and items, no revocation is pending, and the overrides are those
-- of the snapshot. This holds however the calls on Xray, Hysteria and the disk end.
pub reconcile_snapshot-IsConverged :
    (w : World) (snapshot : DesiredSnapshot) (now_ms : ℕ) (n n1 : NodeState) (r : ReconcileResult)
    → reconcile_snapshot w snapshot false now_ms n ≡ done n1 r
    → IsConverged snapshot now_ms n1
unfolding reconcile_snapshot
reconcile_snapshot-IsConverged w snapshot now_ms n n1 r e =
    let (n0, c, e0, rest) = and_then-done _ _ _ _ e in
    let (same, f) = found snapshot now_ms n n0 c e0 in
    made-IsConverged w snapshot now_ms n0 n1 c r (subst (λ m. IsFound snapshot now_ms m c) same f)
      rest

module _ (snapshot : DesiredSnapshot) (now_ms : ℕ) (n : NodeState) where
  -- The changes that an agreeing node calls for.
  nothing_changed :
      (config : Config)
      → IsWanted snapshot now_ms config
      → IsConverged snapshot now_ms n
      → (changes_of snapshot now_ms n config [] config).changed ≡ false
  unfolding IsWanted IsConverged changes_of cascade_changed without same_texts
  nothing_changed config wanted h =
      let same : equal Config-discrete config config ≡ true = equal_refl Config-discrete config in
      let agree : any (inbound_differs (desired_clients now_ms snapshot.items))
            (list_vless_inbounds config)
          ≡ false =
        clients_agree (desired_clients now_ms snapshot.items) (list_vless_inbounds config)
          wanted.0 in
      let state : state_changed (load_applied_state n.applied) snapshot ≡ false =
        IsApplied-state_changed snapshot (load_applied_state n.applied) h.1 in
      ground (arith, same, agree, state, h.3)

  converged_changes :
      IsConverged snapshot now_ms n
      → (c : Changes) × (find_changes snapshot now_ms n ≡ done n c) × (c.changed ≡ false)
  unfolding IsConverged find_changes changes_from changes_with changes_after
  converged_changes h =
      let (config, there, wanted) = h.0 in
      (
        changes_of snapshot now_ms n config [] config,
        ap (changes_from snapshot now_ms n) there
            ∙ ap (changes_with snapshot now_ms n config) h.2
            ∙ ap (changes_after snapshot now_ms n config []) (unfold IsWanted in wanted.1),
        nothing_changed config wanted h,
      )

quiet_returns :
    (w : World) (snapshot : DesiredSnapshot) (observe : Bool) (n : NodeState) (c : Changes)
    → c.changed ≡ false
    → make_changes w snapshot observe n c ≡ done n (result_of observe c)
unfolding make_changes
quiet_returns w snapshot observe n c e = elim (Bool-cases observe) [
  | inl looks ↦ rw looks refl
  | inr applies ↦ rw (applies, e) refl
]

-- A node that agrees with a snapshot is left as it is by every later call with that snapshot at the
-- same time, in either mode and however the calls on Xray, Hysteria and the disk would end; the
-- call returns and reports that nothing has changed.
pub converged-reconcile_snapshot :
    (w : World) (snapshot : DesiredSnapshot) (observe : Bool) (now_ms : ℕ) (n : NodeState)
    → IsConverged snapshot now_ms n
    → (r : ReconcileResult) × (reconcile_snapshot w snapshot observe now_ms n ≡ done n r)
      × (r.changed ≡ false)
unfolding reconcile_snapshot
converged-reconcile_snapshot w snapshot observe now_ms n h =
    let (c, e, quiet) = converged_changes snapshot now_ms n h in
    (
      result_of observe c,
      ap (λ o. and_then o (make_changes w snapshot observe)) e
          ∙ quiet_returns w snapshot observe n c quiet,
      unfold result_of in quiet,
    )
