-- ===== src/Services/Trial/Single.antt =====
-- bot/src/services/user_service.py: a user starts one trial.
use aegis_vpn.Base.{
  ℕ, ◌<◌, ◌==◌, ==_iff, Text, none, List, [], ◌∷◌, ◌++◌, map, select, select-append, true, false,
  ◌≡◌, refl, sym, ap, ◌∙◌, Bool-cases, inl, inr, arith,
}
use mathlib.Core.Path.{subst}
use aegis_vpn.Base.Result.{Result, ok, err}
use aegis_vpn.Control.Db.{Db, User, Subscription}
use aegis_vpn.Services.Access.{Env, get_accessible_servers_for_user, sync_subscription_to_servers}
use aegis_vpn.Services.Access.Reconciled.{synced}
use aegis_vpn.Services.Payments.{Draws, PaymentError}
use aegis_vpn.Services.Trial.{
  Answer, Caller, TrialStatus, already_used, started, active_exists, banned, activate_trial,
  trial_for, try_trial, start_trial, finish_trial, started_by, has_tg_id, new_user, unexpired_of,
  trial_row, find_latest_subscription,
}

abbrev answered : Text → TrialStatus → Db → Result PaymentError Answer
answered language status db = ok (language, status, db)

same_answer :
    (l l' : Text) (s s' : TrialStatus) (db db' : Db)
    → answered l s db ≡ answered l' s' db'
    → (l ≡ l') × (s ≡ s') × (db ≡ db')
same_answer l l' s s' db db' e = (cc, cc, cc)

not_started :
    (l l' : Text) (s : TrialStatus) (db db' : Db) {A : Type 0}
    → (s ≡ started → ⊥)
    → answered l s db ≡ answered l' started db'
    → A
not_started l l' s db db' other e = absurd (other (same_answer l l' s started db db' e).1)

trial_synced :
    (env : Env) (now : ℕ) (l : Text) (db before db' : Db) (user_id : ℕ) (s : Subscription)
    (rows : List Subscription)
    → sync_subscription_to_servers env now s
        (get_accessible_servers_for_user (record before { subscriptions = rows }) user_id none)
        (record before { subscriptions = rows })
      ≡ ok db'
    → finish_trial env now l db before user_id (ok (s, rows)) ≡ ok (l, started, db')
unfolding finish_trial
trial_synced env now l db before db' user_id s rows e = ground (arith, e)

-- A trial that started leaves the users as they were before its links.
finish_trial-started :
    (env : Env) (now : ℕ) (l l' : Text) (db before db1 : Db) (user_id : ℕ)
    (r : Result PaymentError (Subscription × List Subscription))
    → 0 < env.page_size
    → finish_trial env now l db before user_id r ≡ ok (l', started, db1)
    → (l ≡ l') × (db1.users ≡ before.users)
unfolding finish_trial
finish_trial-started env now l l' db before db1 user_id (err e) pos h = cc
finish_trial-started env now l l' db before db1 user_id (ok (s, rows)) pos h =
    let after : Db = record before { subscriptions = rows } in
    let (db', run, kept) =
      synced env now s (get_accessible_servers_for_user after user_id none) after pos in
    let same =
      same_answer l l' started started db' db1
        (sym (trial_synced env now l db before db' user_id s rows run) ∙ h) in
    (
      same.0,
      ap (λ (t : Db). t.users) (sym same.2)
          ∙ ap (λ r. r.3) kept.0
          ∙ (unfold aegis_vpn.Services.Access.sync_links in refl),
    )

started_by-used : (c : Caller) (u : User) → (started_by u.id c u).trial_used ≡ true
unfolding started_by
started_by-used c u = rw ((==_iff u.id u.id).1 refl) refl

started_by-banned : (i : ℕ) (c : Caller) (u : User) → (started_by i c u).is_banned ≡ u.is_banned
unfolding started_by
started_by-banned i c u = ground arith

started_by-language : (i : ℕ) (c : Caller) (u : User) → (started_by i c u).language ≡ u.language
unfolding started_by
started_by-language i c u = ground arith

has_tg_id-started_by :
    (i : ℕ) (c : Caller) (tg_id : ℕ) (u : User)
    → has_tg_id tg_id (started_by i c u) ≡ has_tg_id tg_id u
unfolding started_by has_tg_id
has_tg_id-started_by i c tg_id u = elim (Bool-cases (u.id == i)) [
  | inl same ↦ rw same refl
  | inr other ↦ rw other refl
]

select-started_by :
    (i : ℕ) (c : Caller) (tg_id : ℕ) (us : List User)
    → select (has_tg_id tg_id) (map (started_by i c) us)
      ≡ map (started_by i c) (select (has_tg_id tg_id) us)
select-started_by i c tg_id [] = refl
select-started_by i c tg_id (u ∷ us) =
    ground (arith, has_tg_id-started_by i c tg_id u, select-started_by i c tg_id us)

start_trial-started :
    (env : Env) (now : ℕ) (d : Draws) (c : Caller) (u : User) (users : List User)
    (active : List Subscription) (db db1 : Db) (l : Text)
    → 0 < env.page_size
    → start_trial env now d c u users active db ≡ ok (l, started, db1)
    → (u.language ≡ l) × (db1.users ≡ map (started_by u.id c) users)
unfolding start_trial
start_trial-started env now d c u users [] db db1 l pos h =
    finish_trial-started env now u.language l db
      (record db { users = map (started_by u.id c) users }) db1 u.id
      (trial_row now u.id d db.subscriptions (find_latest_subscription u.id db.subscriptions)) pos h
start_trial-started env now d c u users (s ∷ []) db db1 l pos h =
    not_started u.language l active_exists db db1 (λ x. cc) h
start_trial-started env now d c u users (s ∷ t ∷ more) db db1 l pos h = cc

-- What a started trial makes of the users.
try_trial-started :
    (env : Env) (now : ℕ) (d : Draws) (c : Caller) (u : User) (users : List User) (db db1 : Db)
    (l : Text)
    → 0 < env.page_size
    → try_trial env now d c u users db ≡ ok (l, started, db1)
    → (u.is_banned ≡ false) × (u.language ≡ l) × (db1.users ≡ map (started_by u.id c) users)
unfolding try_trial
try_trial-started env now d c u users db db1 l pos e = elim (Bool-cases u.is_banned) [
  | inl out ↦ not_started u.language l banned db db1 (λ h. cc) (rw out at e)
  | inr welcome ↦ elim (Bool-cases u.trial_used) [
    | inl used ↦ not_started u.language l already_used db db1 (λ h. cc) (rw (welcome, used) at e)
    | inr unused ↦
        let (spoken, written) =
          start_trial-started env now d c u users (unexpired_of now u.id db.subscriptions) db db1 l
            pos (rw (welcome, unused) at e) in
        (welcome, spoken, written)
  ]
]

-- The row of a user whose trial started answers a second call.
try_trial-again :
    (env : Env) (now : ℕ) (d : Draws) (c c' : Caller) (u : User) (users : List User) (db : Db)
    → u.is_banned ≡ false
    → try_trial env now d c' (started_by u.id c u) users db ≡ ok (u.language, already_used, db)
unfolding try_trial
try_trial-again env now d c c' u users db e =
    let used = started_by-used c u in
    let welcome = started_by-banned u.id c u ∙ e in
    rw (welcome, used) (rw (started_by-language u.id c u) refl)

-- The caller's row, and the list that its trial is written to.
again :
    (env' : Env) (now' : ℕ) (d' : Draws) (c c' : Caller) (u : User) (users : List User) (db1 : Db)
    (l : Text)
    → select (has_tg_id c'.tg_id) users ≡ u ∷ []
    → (u.is_banned ≡ false) × (u.language ≡ l) × (db1.users ≡ map (started_by u.id c) users)
    → activate_trial env' now' d' c' db1 ≡ ok (l, already_used, db1)
unfolding activate_trial trial_for
again env' now' d' c c' u users db1 l found (welcome, spoken, written) =
    let row : select (has_tg_id c'.tg_id) db1.users ≡ started_by u.id c u ∷ [] =
      ap (select (has_tg_id c'.tg_id)) written
      ∙ select-started_by u.id c c'.tg_id users
      ∙ ap (map (started_by u.id c)) found in
    rw row (rw (sym spoken) (try_trial-again env' now' d' c c' u db1.users db1 welcome))

joined :
    (c : Caller) (us : List User)
    → select (has_tg_id c.tg_id) us ≡ []
    → select (has_tg_id c.tg_id) (us ++ new_user c ∷ []) ≡ new_user c ∷ []
unfolding has_tg_id new_user
joined c us e =
    let here : (c.tg_id == c.tg_id) ≡ true = (==_iff c.tg_id c.tg_id).1 refl in
    select-append (λ (u : User). u.tg_id == c.tg_id) us (new_user c ∷ []) ∙ rw (e, here) refl

-- With a positive page size, after a call that started a trial, every later call for the same
-- Telegram id, on the tables that it left, answers that the trial is used and changes nothing.
pub activate_trial_once :
    (env env' : Env) (now now' : ℕ) (d d' : Draws) (c c' : Caller) (db db1 : Db) (l : Text)
    → 0 < env.page_size
    → c.tg_id ≡ c'.tg_id
    → activate_trial env now d c db ≡ ok (l, started, db1)
    → activate_trial env' now' d' c' db1 ≡ ok (l, already_used, db1)
unfolding activate_trial
activate_trial_once env env' now now' d d' c c' db db1 l pos same e =
    go (select (has_tg_id c.tg_id) db.users) refl e
  where
    go :
        (us : List User)
        → select (has_tg_id c.tg_id) db.users ≡ us
        → trial_for env now d c us db ≡ ok (l, started, db1)
        → activate_trial env' now' d' c' db1 ≡ ok (l, already_used, db1)
    go [] found h =
        again env' now' d' c c' (new_user c) (db.users ++ new_user c ∷ []) db1 l
          (subst (λ t. select (has_tg_id t) (db.users ++ new_user c ∷ []) ≡ new_user c ∷ []) same
            (joined c db.users found))
          (try_trial-started env now d c (new_user c) (db.users ++ new_user c ∷ []) db db1 l pos
            (unfold trial_for in h))
    go (u ∷ []) found h =
        again env' now' d' c c' u db.users db1 l
          (subst (λ t. select (has_tg_id t) db.users ≡ u ∷ []) same found)
          (try_trial-started env now d c u db.users db db1 l pos (unfold trial_for in h))
    go (u ∷ v ∷ more) found h = unfold trial_for in cc
