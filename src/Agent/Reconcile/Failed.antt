-- ===== src/Agent/Reconcile/Failed.antt =====
-- agent/app/reconcile.py: what a call of `reconcile_snapshot` leaves if it raises, or if it only
-- observes.
use aegis_vpn.Agent.Cascade.{apply_cascade_routes}
use aegis_vpn.Base.{
  ℕ, Text, Option, none, some, List, Bool, true, false, not, ◌||◌, if◌then◌else◌, ◌≡◌, refl, ap,
  ◌∙◌, inl, inr, ◌⊎◌,
}
use mathlib.Core.Path.{subst}
use aegis_vpn.Wire.{DesiredSnapshot}
use aegis_vpn.Agent.Loop.{AppliedState}
use aegis_vpn.Agent.Xray.{Config}
use aegis_vpn.Agent.Node.{
  NodeState, World, Outcome, Failure, done, raised, and_then, load_pending_revocations,
  write_applied, WriteEnd, saved, replaced, not_replaced, write_file, state_not_saved,
}
use aegis_vpn.Agent.Reconcile.{desired_routes}
use aegis_vpn.Agent.Reconcile.Snapshot.{
  Changes, changes_after, changes_with, changes_from, find_changes, save_journal, save_config,
  update_xray, close_sessions, save_overrides, save_applied_state, carry_out, make_changes,
  reconcile_snapshot, result_of, set_applied, applied_of,
}
use aegis_vpn.Agent.Reconcile.Converged.{IsFound, IsConverged, found, Passes-IsConverged}
use aegis_vpn.Agent.Reconcile.Steps.{
  node_of, files-update_xray, save_journal-keeps, close_sessions-keeps, save_config-keeps,
  save_overrides-keeps, and_then_keeps,
}

-- What a call that raises leaves: its applied state is `a`, or the file was replaced and what raised
-- is the directory's sync, and then the node agrees with the snapshot.
unfoldable pub KeepsApplied :
    {A : Type 0} → DesiredSnapshot → ℕ → Option AppliedState → Outcome A → Type 0
KeepsApplied snapshot now_ms a (done n x) = Unit
KeepsApplied snapshot now_ms a (raised n e) =
    (n.applied ≡ a) ⊎ ((e ≡ state_not_saved) × IsConverged snapshot now_ms n)

module _ (snapshot : DesiredSnapshot) (now_ms : ℕ) (a : Option AppliedState) where
  step_then :
      {A B : Type 0} (m : Outcome A) (f : NodeState → A → Outcome B)
      → (node_of m).applied ≡ a
      → ((n : NodeState) (x : A)
          → m ≡ done n x
          → n.applied ≡ a
          → KeepsApplied snapshot now_ms a (f n x))
      → KeepsApplied snapshot now_ms a (and_then m f)
  unfolding KeepsApplied
  step_then (done n x) f h g = g n x refl h
  step_then (raised n e) f h g = inl h

  raised_inside :
      {A B : Type 0} (m : Outcome A) (f : NodeState → A → Outcome B)
      → KeepsApplied snapshot now_ms a m
      → ((n : NodeState) (x : A) → KeepsApplied snapshot now_ms a (f n x))
      → KeepsApplied snapshot now_ms a (and_then m f)
  unfolding KeepsApplied
  raised_inside (done n x) f h g = g n x
  raised_inside (raised n e) f h g = h

  write_file-KeepsApplied :
      (end : WriteEnd) (after before : NodeState)
      → before.applied ≡ a
      → IsConverged snapshot now_ms after
      → KeepsApplied snapshot now_ms a (write_file end after before state_not_saved)
  unfolding KeepsApplied write_file
  write_file-KeepsApplied saved after before h g = tt
  write_file-KeepsApplied replaced after before h g = inr (refl, g)
  write_file-KeepsApplied not_replaced after before h g = inl h

  carry_out-KeepsApplied :
      (w : World) (c : Changes) (n : NodeState)
      → IsFound snapshot now_ms n c
      → n.applied ≡ a
      → KeepsApplied snapshot now_ms a (carry_out w snapshot c n)
  unfolding carry_out save_applied_state
  carry_out-KeepsApplied w c n found_so h =
      step_then {A = Unit} (save_journal w c n) _ (ap (λ k. k.1) (save_journal-keeps w c n) ∙ h)
        (λ n1 t1 e1 h1.
          step_then {A = Unit} (save_config w c n1) _
            (ap (λ k. k.0) (save_config-keeps w c n1) ∙ h1)
            (λ n2 t2 e2 h2.
              step_then {A = Unit} (update_xray w c n2) _
                (ap (λ k. k.1) (files-update_xray w c n2) ∙ h2)
                (λ n3 t3 e3 h3.
                  step_then {A = Unit} (close_sessions w c n3) _
                    (ap (λ k. k.1) (close_sessions-keeps w c n3) ∙ h3)
                    (λ n4 t4 e4 h4.
                      step_then {A = Unit} (save_overrides w snapshot c n4) _
                        (ap (λ k. k.1) (save_overrides-keeps w snapshot c n4) ∙ h4)
                        (λ n5 t5 e5 h5.
                          write_file-KeepsApplied (w.writes write_applied)
                            (set_applied (applied_of snapshot) n5) n5 h5
                            (Passes-IsConverged snapshot now_ms n w c n5 found_so
                              (n1, n2, n3, n4, e1, e2, e3, e4, e5)))))))

  idle_or :
      {A : Type 0} (b : Bool) (x y : Outcome A)
      → KeepsApplied snapshot now_ms a x
      → KeepsApplied snapshot now_ms a y
      → KeepsApplied snapshot now_ms a (if b then x else y)
  idle_or true x y h g = h
  idle_or false x y h g = g

  make_changes-KeepsApplied :
      (w : World) (observe : Bool) (c : Changes) (n : NodeState)
      → IsFound snapshot now_ms n c
      → n.applied ≡ a
      → KeepsApplied snapshot now_ms a (make_changes w snapshot observe n c)
  unfolding make_changes
  make_changes-KeepsApplied w observe c n found_so h =
      idle_or (observe || not c.changed) (done n (result_of observe c))
        (and_then (carry_out w snapshot c n) (λ n' t. done n' (result_of observe c)))
        (unfold KeepsApplied in tt)
        (raised_inside (carry_out w snapshot c n) (λ n' t. done n' (result_of observe c))
          (carry_out-KeepsApplied w c n found_so h) (λ n' t. unfold KeepsApplied in tt))

module _ (snapshot : DesiredSnapshot) (now_ms : ℕ) (n : NodeState) where
  node_of-after :
      (before : Config) (pending : List Text) (o : Option Config)
      → node_of (changes_after snapshot now_ms n before pending o) ≡ n
  unfolding changes_after
  node_of-after before pending none = refl
  node_of-after before pending (some config) = refl

  node_of-with :
      (before : Config) (o : Option (List Text))
      → node_of (changes_with snapshot now_ms n before o) ≡ n
  unfolding changes_with
  node_of-with before none = refl
  node_of-with before (some pending) =
      node_of-after before pending (apply_cascade_routes before (desired_routes snapshot.items))

  node_of-from : (o : Option Config) → node_of (changes_from snapshot now_ms n o) ≡ n
  unfolding changes_from
  node_of-from none = refl
  node_of-from (some before) = node_of-with before (load_pending_revocations n.pending)

  node_of-find_changes : node_of (find_changes snapshot now_ms n) ≡ n
  unfolding find_changes
  node_of-find_changes = node_of-from n.config

-- A call that raises, at whichever step, leaves the applied state as it was, so that the generation is
-- not taken for applied after a restart; unless the file of the applied state was already replaced
-- and only the sync of its directory failed, and then the node agrees with the snapshot.
pub reconcile_snapshot_raised :
    (w : World) (snapshot : DesiredSnapshot) (observe : Bool) (now_ms : ℕ) (n n1 : NodeState)
    (e : Failure)
    → reconcile_snapshot w snapshot observe now_ms n ≡ raised n1 e
    → (n1.applied ≡ n.applied) ⊎ ((e ≡ state_not_saved) × IsConverged snapshot now_ms n1)
unfolding reconcile_snapshot
reconcile_snapshot_raised w snapshot observe now_ms n n1 e raises =
    unfold KeepsApplied in
    subst (KeepsApplied snapshot now_ms n.applied) raises (
      step_then snapshot now_ms n.applied (find_changes snapshot now_ms n)
        (make_changes w snapshot observe)
        (ap (λ (m : NodeState). m.applied) (node_of-find_changes snapshot now_ms n))
        (λ m c run h.
          let (same, f) = found snapshot now_ms n m c run in
          make_changes-KeepsApplied snapshot now_ms n.applied w observe c m
            (subst (λ k. IsFound snapshot now_ms k c) same f) h))

-- In observe mode a call leaves the node as it is, whether it returns or raises.
pub reconcile_snapshot_observes :
    (w : World) (snapshot : DesiredSnapshot) (now_ms : ℕ) (n : NodeState)
    → node_of (reconcile_snapshot w snapshot true now_ms n) ≡ n
unfolding reconcile_snapshot make_changes
reconcile_snapshot_observes w snapshot now_ms n =
    and_then_keeps (λ m. m) n (find_changes snapshot now_ms n) (make_changes w snapshot true)
      (node_of-find_changes snapshot now_ms n) (λ m c e h. h)
