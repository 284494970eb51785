-- ===== src/Agent/Reconcile/Steps.antt =====
-- agent/app/reconcile.py: what each step of `reconcile_snapshot` keeps of the node, whether it returns
-- or raises, and what holds after the steps that return.
use aegis_vpn.Agent.Reconcile.Limits.{replaced-same}
use aegis_vpn.Agent.Reconcile.{same_overrides, desired_overrides}
use aegis_vpn.Base.Int.{pos}
use aegis_vpn.Base.{
  ℕ, Text, Option, none, some, List, [], ◌∷◌, map, Bool, true, false, ◌&&◌, not, if◌then◌else◌,
  sort_by, ◌≡◌, refl, sym, ap, ◌∙◌, Bool-cases, inl, inr, arith, text_leb, mem_text,
}
use mathlib.Core.Path.{subst}
use aegis_vpn.Wire.{DesiredSnapshot}
use aegis_vpn.Agent.Loop.{AppliedState}
use aegis_vpn.Agent.ConnLimit.{Overrides, replace_overrides}
use aegis_vpn.Agent.Xray.{Config, Inbound, ClientRecord}
use aegis_vpn.Agent.Cascade.{has_any}
use aegis_vpn.Agent.Node.{
  WriteEnd, saved, replaced, not_replaced, write_file, Failure, adds, removes, NodeState, World,
  Outcome, done, raised, and_then, note_call, set_pending, Call, Write, kick,
  save_pending_revocations, retry_pending_revocations, finish_retry, refresh_from_config, without,
  load_pending_revocations, configured_emails, same_texts, Journal, set_of, write_remaining,
  journal_not_written, sessions_left, write_journal, retry_loaded, config_not_written,
  state_not_saved, write_config, write_overrides, write_applied,
}
use aegis_vpn.Agent.Reconcile.Snapshot.{
  Changes, save_journal, save_config, update_xray, close_sessions, save_overrides,
  save_applied_state, call_live, remove_live, add_live, reload_unless, use_live_api, set_config,
  set_overrides, set_applied, applied_of, can_add, save_journal_over, carry_out,
}

-- The node that a call leaves.
abbrev pub node_of : {A : Type 0} → Outcome A → NodeState
node_of (done n a) = n
node_of (raised n e) = n

pub done-injective : {A : Type 0} {n m : NodeState} {a b : A} → done n a ≡ done m b → n ≡ m
done-injective e = cc

-- A chain that returns has returned from its first call.
pub and_then-done :
    {A B : Type 0} (m : Outcome A) (f : NodeState → A → Outcome B) (n : NodeState) (b : B)
    → and_then m f ≡ done n b
    → (n1 : NodeState) × (a : A) × (m ≡ done n1 a) × (f n1 a ≡ done n b)
and_then-done (done n1 a) f n b e = (n1, a, refl, e)
and_then-done (raised n1 x) f n b e = cc

-- A write that returns has replaced the file.
write_file-done :
    (end : WriteEnd) (after before n : NodeState) (e : Failure)
    → write_file end after before e ≡ done n tt
    → after ≡ n
unfolding write_file
write_file-done saved after before n e h = done-injective h
write_file-done replaced after before n e h = cc
write_file-done not_replaced after before n e h = cc

write_file_keeps {ℓ} :
    {X : Type ℓ} (part : NodeState → X) (end : WriteEnd) (after before : NodeState) (e : Failure)
    → part after ≡ part before
    → part (node_of (write_file end after before e)) ≡ part before
unfolding write_file
write_file_keeps part saved after before e h = h
write_file_keeps part replaced after before e h = h
write_file_keeps part not_replaced after before e h = refl

-- What all calls of a chain keep, the chain keeps.
pub and_then_keeps {ℓ} :
    {A B : Type 0} {X : Type ℓ} (part : NodeState → X) (x : X) (m : Outcome A)
    (f : NodeState → A → Outcome B)
    → part (node_of m) ≡ x
    → ((n : NodeState) (a : A) → m ≡ done n a → part n ≡ x → part (node_of (f n a)) ≡ x)
    → part (node_of (and_then m f)) ≡ x
and_then_keeps part x (done n a) f h g = g n a refl h
and_then_keeps part x (raised n e) f h g = h

-- The node but for Hysteria's users and the calls.
abbrev pub files : NodeState → Option Config × Option AppliedState × Journal × Overrides
files n = (n.config, n.applied, n.pending, n.overrides)

files-note_call : (call : Call) (n : NodeState) → files (note_call call n) ≡ files n
unfolding note_call
files-note_call call n = refl

files-remove_live :
    (w : World) (rs : List (Text × Text)) (n : NodeState) → files (remove_live w rs n).0 ≡ files n
unfolding remove_live
files-remove_live w [] n = refl
files-remove_live w ((tag, email) ∷ rs) n =
    files-remove_live w rs (note_call (removes tag email) n) ∙ files-note_call (removes tag email) n

files-add_live :
    (w : World) (rs : List (Inbound × ClientRecord)) (n : NodeState)
    → files (add_live w rs n).0 ≡ files n
unfolding add_live
files-add_live w [] n = refl
files-add_live w ((inbound, r) ∷ rs) n =
    files-add_live w rs (if can_add inbound then note_call (adds inbound.tag r) n else n)
    ∙ elim (Bool-cases (can_add inbound)) [
      | inl added ↦ rw added (files-note_call (adds inbound.tag r) n)
      | inr refused ↦ rw refused refl
    ]

files-call_live : (w : World) (c : Changes) (n : NodeState) → files (call_live w c n).0 ≡ files n
unfolding call_live
files-call_live w c n = elim (Bool-cases (use_live_api w c)) [
  | inl live ↦ rw live (
      files-add_live w c.additions (remove_live w c.removals n).0
      ∙ files-remove_live w c.removals n)
  | inr reload ↦ rw reload refl
]

files-reload_unless :
    (w : World) (r : NodeState × Bool) → files (node_of (reload_unless w r)) ≡ files r.0
unfolding reload_unless note_call
files-reload_unless w r = elim (Bool-cases r.1) [
  | inl fine ↦ rw fine refl
  | inr failed ↦ elim (Bool-cases w.xray_ready) [
    | inl ready ↦ rw (failed, ready) refl
    | inr dead ↦ rw (failed, dead) refl
  ]
]

pub files-update_xray :
    (w : World) (c : Changes) (n : NodeState) → files (node_of (update_xray w c n)) ≡ files n
unfolding update_xray
files-update_xray w c n = files-reload_unless w (call_live w c n) ∙ files-call_live w c n

-- The node but for the journal too.
abbrev pub kept_by_journal : NodeState → Option Config × Option AppliedState × Overrides
kept_by_journal n = (n.config, n.applied, n.overrides)

pub save_journal-keeps :
    (w : World) (c : Changes) (n : NodeState)
    → kept_by_journal (node_of (save_journal w c n)) ≡ kept_by_journal n
unfolding save_journal save_pending_revocations set_pending
save_journal-keeps w c n = ground arith

pub close_sessions-keeps :
    (w : World) (c : Changes) (n : NodeState)
    → kept_by_journal (node_of (close_sessions w c n)) ≡ kept_by_journal n
unfolding close_sessions
close_sessions-keeps w c n = ground arith

-- What is not in the configuration's file.
abbrev pub kept_by_config : NodeState → Option AppliedState × Journal × Overrides
kept_by_config n = (n.applied, n.pending, n.overrides)

pub save_config-keeps :
    (w : World) (c : Changes) (n : NodeState)
    → kept_by_config (node_of (save_config w c n)) ≡ kept_by_config n
unfolding save_config set_config refresh_from_config
save_config-keeps w c n = ground arith

abbrev pub kept_by_overrides : NodeState → Option Config × Option AppliedState × Journal
kept_by_overrides n = (n.config, n.applied, n.pending)

pub save_overrides-keeps :
    (w : World) (snapshot : DesiredSnapshot) (c : Changes) (n : NodeState)
    → kept_by_overrides (node_of (save_overrides w snapshot c n)) ≡ kept_by_overrides n
unfolding save_overrides set_overrides
save_overrides-keeps w snapshot c n = ground arith

-- The journal that is loaded is empty.
abbrev pub IsClear : NodeState → Type 0
IsClear n = load_pending_revocations n.pending ≡ some []

pub no_any : (ts : List Text) → has_any ts ≡ false → ts ≡ []
no_any [] e = refl
no_any (t ∷ ts) e = cc

pub same_texts-nil : (ts : List Text) → same_texts [] ts ≡ true → ts ≡ []
unfolding same_texts
same_texts-nil [] e = refl
same_texts-nil (t ∷ ts) e = unfold mem_text in ground arith

-- A journal that is saved without an entry is clear.
save_nothing :
    (w : World) (file : Write) (ts : List Text) (n n1 : NodeState)
    → has_any ts ≡ false
    → save_pending_revocations w file ts n ≡ done n1 tt
    → IsClear n1
unfolding save_pending_revocations
save_nothing w file ts n n1 empty e =
    let e' : save_pending_revocations w file [] n ≡ done n1 tt =
      subst (λ us. save_pending_revocations w file us n ≡ done n1 tt) (no_any ts empty) e in
    subst IsClear (write_file-done (w.writes file) _ n n1 journal_not_written e')
      (unfold set_pending load_pending_revocations set_of sort_by in refl)

pub save_journal-IsClear :
    (w : World) (c : Changes) (n n1 : NodeState) (o : Option (List Text))
    → load_pending_revocations n.pending ≡ o
    → has_any c.pending ≡ false
    → save_journal_over w c n o ≡ done n1 tt
    → IsClear n1
unfolding save_journal_over
save_journal-IsClear w c n n1 none loaded empty e = cc
save_journal-IsClear w c n n1 (some stored) loaded empty e =
    elim (Bool-cases (same_texts c.pending stored)) [
      | inl same ↦
          let e1 : done n tt ≡ done n1 tt = rw same at e in
          subst IsClear (done-injective e1) (
            loaded
            ∙ ap some (
                same_texts-nil stored
                  (subst (λ us. same_texts us stored ≡ true) (no_any c.pending empty) same)))
      | inr other ↦ save_nothing w write_journal c.pending n n1 empty (rw other at e)
    ]

finish_retry-IsClear :
    (w : World) (pending safe : List Text) (r : NodeState × Bool) (n1 : NodeState)
    → finish_retry w pending safe r ≡ done n1 true
    → IsClear n1
unfolding finish_retry
finish_retry-IsClear w pending safe r n1 e =
    let k : NodeState → Unit {0} → Outcome Bool =
      λ n' t. done n' (not (has_any (without pending safe))) in
    elim (Bool-cases (has_any safe && not r.1)) [
      | inl failed ↦ let e' : done r.0 false ≡ done n1 true = rw failed at e in cc
      | inr kicked ↦
          let e' : and_then (save_pending_revocations w write_remaining (without pending safe) r.0)
                k
              ≡ done n1 true =
            rw kicked at e in
          let (n2, t, emptied, last) =
            and_then-done (save_pending_revocations w write_remaining (without pending safe) r.0) k
              n1 true e' in
          subst IsClear (done-injective last) (
            save_nothing w write_remaining (without pending safe) r.0 n2 (ground (arith, last))
              emptied)
    ]

retry_loaded-IsClear :
    (w : World) (c : Config) (n n1 : NodeState) (o : Option (List Text))
    → load_pending_revocations n.pending ≡ o
    → retry_loaded w c n o ≡ done n1 true
    → IsClear n1
unfolding retry_loaded
retry_loaded-IsClear w c n n1 none loaded e = cc
retry_loaded-IsClear w c n n1 (some pending) loaded e = elim (Bool-cases (has_any pending)) [
  | inl some_left ↦
      let safe = without pending (configured_emails c) in
      let refreshed = refresh_from_config c n in
      finish_retry-IsClear w pending safe
        (if has_any safe then kick w (sort_by text_leb safe) refreshed else (refreshed, true)) n1
        (rw some_left at e)
  | inr empty ↦
      let e1 : done n true ≡ done n1 true = rw empty at e in
      subst IsClear (done-injective e1) (loaded ∙ ap some (no_any pending empty))
]

retry_pending_revocations-IsClear :
    (w : World) (c : Config) (n n1 : NodeState)
    → retry_pending_revocations w c n ≡ done n1 true
    → IsClear n1
unfolding retry_pending_revocations
retry_pending_revocations-IsClear w c n n1 e =
    retry_loaded-IsClear w c n n1 (load_pending_revocations n.pending) refl e

pub close_sessions-IsClear :
    (w : World) (c : Changes) (n n1 : NodeState)
    → (has_any c.pending ≡ false → IsClear n)
    → close_sessions w c n ≡ done n1 tt
    → IsClear n1
unfolding close_sessions
close_sessions-IsClear w c n n1 before e = elim (Bool-cases (has_any c.pending)) [
  | inl some_left ↦
      let e1 : and_then (retry_pending_revocations w c.config n)
            (λ n' all_closed. if all_closed then done n' tt else raised n' sessions_left)
          ≡ done n1 tt =
        rw some_left at e in
      let (n2, closed, retried, last) =
        and_then-done (retry_pending_revocations w c.config n)
          (λ n' all_closed. if all_closed then done n' tt else raised n' sessions_left) n1 tt e1 in
      elim (Bool-cases closed) [
        | inl all_closed ↦
            let e2 : done n2 tt ≡ done n1 tt = rw all_closed at last in
            subst IsClear (done-injective e2) (
              retry_pending_revocations-IsClear w c.config n n2 (
                subst (λ b. retry_pending_revocations w c.config n ≡ done n2 b) all_closed retried))
        | inr left ↦ let e2 : raised n2 sessions_left ≡ done n1 tt = rw left at last in cc
      ]
  | inr empty ↦
      let e1 : done n tt ≡ done n1 tt = rw empty at e in
      subst IsClear (done-injective e1) (before empty)
]

-- The steps but for the last one, which return, pass through the nodes that they leave.
abbrev pub Passes : World → DesiredSnapshot → Changes → NodeState → NodeState → Type 0
Passes w snapshot c n n5 =
    (n1 : NodeState) × (n2 : NodeState) × (n3 : NodeState) × (n4 : NodeState) × (save_journal w c n
      ≡ done n1 tt)
    × (save_config w c n1 ≡ done n2 tt)
    × (update_xray w c n2 ≡ done n3 tt)
    × (close_sessions w c n3 ≡ done n4 tt)
    × (save_overrides w snapshot c n4 ≡ done n5 tt)

pub carry_out-Passes :
    (w : World) (snapshot : DesiredSnapshot) (c : Changes) (n n6 : NodeState)
    → carry_out w snapshot c n ≡ done n6 tt
    → (n5 : NodeState) × Passes w snapshot c n n5 × (save_applied_state w snapshot n5 ≡ done n6 tt)
unfolding carry_out
carry_out-Passes w snapshot c n n6 e =
    let (n1, t1, e1, r1) = and_then-done _ _ _ _ e in
    let (n2, t2, e2, r2) = and_then-done _ _ _ _ r1 in
    let (n3, t3, e3, r3) = and_then-done _ _ _ _ r2 in
    let (n4, t4, e4, r4) = and_then-done _ _ _ _ r3 in
    let (n5, t5, e5, r5) = and_then-done _ _ _ _ r4 in
    (n5, (n1, n2, n3, n4, e1, e2, e3, e4, e5), r5)

-- The configuration's file after its step is the new one if it differs, and else the old one.
pub saved_config {ℓ} :
    (w : World) (c : Changes) (n n1 : NodeState) (P : Config → Type ℓ) (before : Config)
    → n.config ≡ some before
    → P c.config
    → (c.config_changed ≡ false → P before)
    → save_config w c n ≡ done n1 tt
    → (config : Config) × (n1.config ≡ some config) × P config
unfolding save_config
saved_config w c n n1 P before h new old e = elim (Bool-cases c.config_changed) [
  | inl changed ↦
      let (n2, t, written, last) = and_then-done _ _ n1 tt (rw changed at e) in
      let same =
        write_file-done (w.writes write_config) (set_config c.config n) n n2 config_not_written
          written in
      (
        c.config,
        ap (λ (m : NodeState). m.config) (sym (done-injective last))
            ∙ (unfold refresh_from_config in ap (λ (m : NodeState). m.config) (sym same))
            ∙ (unfold set_config in refl),
        new,
      )
  | inr kept ↦
      let e1 : done n tt ≡ done n1 tt = rw kept at e in
      (before, ap (λ (m : NodeState). m.config) (sym (done-injective e1)) ∙ h, old kept)
]

pub saved_overrides :
    (w : World) (snapshot : DesiredSnapshot) (c : Changes) (n n1 : NodeState)
    → (c.override_changed ≡ false
        → same_overrides n.overrides (desired_overrides snapshot.items []) ≡ true)
    → save_overrides w snapshot c n ≡ done n1 tt
    → same_overrides n1.overrides (desired_overrides snapshot.items []) ≡ true
unfolding save_overrides set_overrides
saved_overrides w snapshot c n n1 old e = elim (Bool-cases c.override_changed) [
  | inl changed ↦
      let overrides =
        replace_overrides
          (map (λ (o : ℕ × ℕ). (o.0, pos o.1)) (desired_overrides snapshot.items [])) [] in
      let (n2, t, written, last) =
        and_then-done (write_file (w.writes write_overrides) n n state_not_saved)
          (λ n' t. done (set_overrides overrides n') tt) n1 tt (rw changed at e) in
      subst
        (λ (m : NodeState). same_overrides m.overrides (desired_overrides snapshot.items []) ≡ true)
        (done-injective last) (replaced-same snapshot.items)
  | inr kept ↦
      let e1 : done n tt ≡ done n1 tt = rw kept at e in
      subst
        (λ (m : NodeState). same_overrides m.overrides (desired_overrides snapshot.items []) ≡ true)
        (done-injective e1) (old kept)
]

pub saved_applied :
    (w : World) (snapshot : DesiredSnapshot) (n n1 : NodeState)
    → save_applied_state w snapshot n ≡ done n1 tt
    → n1 ≡ set_applied (applied_of snapshot) n
unfolding save_applied_state
saved_applied w snapshot n n1 e = sym (
    write_file-done (w.writes write_applied) (set_applied (applied_of snapshot) n) n n1
      state_not_saved e)
