-- ===== src/Services/Payments/Activated.antt =====
-- bot/src/services/payment_service.py: what a paid user has after `apply_paid_subscription`.
use aegis_vpn.Base.{
  ℕ, ◌+◌, ◌≤◌, ◌<◌, max, Text, Option, none, some, List, [], ◌∷◌, ◌++◌, Bool, true, false, ◌==◌,
  ==_iff, ltb, leb, select, sort_by, All, length, if◌then◌else◌, ◌≡◌, refl, sym, ap, ◌∙◌,
  Bool-cases, inl, inr, arith,
}
use mathlib.Core.Path.{subst}
use aegis_vpn.Base.Result.{Result, ok}
use aegis_vpn.Control.Db.{Db, Server, Subscription}
use aegis_vpn.Control.Cascade.Advertising.{among}
use aegis_vpn.Control.Desired.{is_linked}
use aegis_vpn.Services.Access.{
  Env, ids_of, is_accessible, get_accessible_servers_for_user, sync_links,
  sync_subscription_to_servers, pushed_clients,
}
use aegis_vpn.Services.Access.Links.{any-map_key, any-sort_by, any-select, is_linked-put_links}
use aegis_vpn.Services.Access.Publishing.{has_access}
use aegis_vpn.Services.Access.Reconciled.{synced}
use aegis_vpn.Services.Access.Users.{active_of}
use aegis_vpn.Services.Payments.{
  Draws, Granted, PaymentError, of_days, generate_sub_token, write_subscription, latest_of, renewed,
  restored, new_subscription, create_row, restore_or_create, grant_row, grant_subscription,
  sync_granted, apply_paid_subscription,
}
use aegis_vpn.Services.Payments.Single.{
  IsKeyed, is_active_of, active_of-write, active_of-append, is_among-Mem, latest_of-Mem,
  active_of-Mem,
}

-- When the paid days begin: now, or at the end of an active subscription if that is later.
unfoldable pub paid_from : ℕ → List Subscription → ℕ
paid_from now [] = now
paid_from now (s ∷ ss) = max s.expires_at (paid_from now ss)

-- The granted subscription is the user's only active one, lasts for the paid days from now on, and
-- for the paid days after the end of the one that was active, and no longer.
unfoldable pub IsPaid : ℕ → ℕ → ℕ → List Subscription → Subscription → List Subscription → Type 0
IsPaid now user_id plan_days before s after =
    (active_of user_id after ≡ s ∷ [])
    × (now + of_days plan_days ≤ s.expires_at)
    × All (λ (t : Subscription). t.expires_at + of_days plan_days ≤ s.expires_at)
        (active_of user_id before)
    × (s.expires_at ≡ paid_from now (active_of user_id before) + of_days plan_days)

module _ (now user_id plan_days : ℕ) (d : Draws) (subs : List Subscription)
    (keyed : IsKeyed subs) where
  abbrev IsGranted : Result PaymentError Granted → Type 0
  IsGranted r = (g : Granted) × (r ≡ ok g) × IsPaid now user_id plan_days subs g.subscription g.rows

  create_row-IsGranted :
      (token : Text)
      → active_of user_id subs ≡ []
      → IsGranted (create_row now user_id plan_days d subs (some token))
  unfolding create_row IsPaid new_subscription
  create_row-IsGranted token idle =
      let s = new_subscription now user_id plan_days d token in
      (
        record { subscription = s; rows = subs ++ s ∷ []; is_renewal = false },
        refl,
        (
          active_of-append user_id s subs (unfold is_active_of in ground arith) idle,
          omega arith,
          subst (All (λ (t : Subscription). t.expires_at + of_days plan_days ≤ s.expires_at))
              (sym idle) tt,
          rw idle (unfold paid_from in refl),
        ),
      )

  restored-IsGranted :
      (s : Subscription)
      → active_of user_id subs ≡ []
      → latest_of user_id subs ≡ some s
      → IsPaid now user_id plan_days subs
          (restored now plan_days s)
          (write_subscription (restored now plan_days s) subs)
  unfolding IsPaid restored
  restored-IsGranted s idle last =
      let (there, mine) = latest_of-Mem user_id subs s last in
      (
        active_of-write user_id (restored now plan_days s) subs
            (unfold is_active_of in ground (arith, (==_iff s.user_id user_id).1 mine)) keyed
            (is_among-Mem s subs there)
            (subst (All (λ (t : Subscription). t.id ≡ s.id)) (sym idle) tt),
        omega arith,
        subst
            (All (λ (t : Subscription). t.expires_at + of_days plan_days ≤ now + of_days plan_days))
            (sym idle) tt,
        rw idle (unfold paid_from in refl),
      )

  renewed-IsGranted :
      (s : Subscription)
      → active_of user_id subs ≡ s ∷ []
      → IsPaid now user_id plan_days subs
          (renewed now plan_days s)
          (write_subscription (renewed now plan_days s) subs)
  unfolding IsPaid renewed
  renewed-IsGranted s only =
      let (there, mine, active) = active_of-Mem user_id subs s [] only in
      (
        active_of-write user_id (renewed now plan_days s) subs
            (unfold is_active_of in ground (arith, (==_iff s.user_id user_id).1 mine, active)) keyed
            (is_among-Mem s subs there)
            (subst (All (λ (t : Subscription). t.id ≡ s.id)) (sym only) (refl, tt)),
        omega arith,
        subst
            (All (λ (t : Subscription).
              t.expires_at + of_days plan_days ≤ max s.expires_at now + of_days plan_days))
            (sym only) (omega arith, tt),
        rw only (unfold paid_from in refl),
      )

  module _ (token : Text) (drawn : generate_sub_token d.tokens subs ≡ some token) where
    created-IsGranted :
        active_of user_id subs ≡ []
        → IsGranted (create_row now user_id plan_days d subs (generate_sub_token d.tokens subs))
    created-IsGranted idle =
        subst (λ o. IsGranted (create_row now user_id plan_days d subs o)) (sym drawn)
          (create_row-IsGranted token idle)

    restore_or_create-IsGranted :
        (o : Option Subscription)
        → active_of user_id subs ≡ []
        → latest_of user_id subs ≡ o
        → IsGranted (restore_or_create now user_id plan_days d subs o)
    unfolding restore_or_create
    restore_or_create-IsGranted none idle last = created-IsGranted idle
    restore_or_create-IsGranted (some s) idle last = elim (Bool-cases (ltb s.expires_at now)) [
      | inl over ↦
          subst
            (λ b. IsGranted (
              if b
              then ok (record {
                subscription = restored now plan_days s;
                rows = write_subscription (restored now plan_days s) subs;
                is_renewal = true;
              })
              else create_row now user_id plan_days d subs (generate_sub_token d.tokens subs)))
            (sym over)
            ((
              record {
                subscription = restored now plan_days s;
                rows = write_subscription (restored now plan_days s) subs;
                is_renewal = true;
              },
              refl,
              restored-IsGranted s idle last,
            ))
      | inr still ↦
          subst
            (λ b. IsGranted (
              if b
              then ok (record {
                subscription = restored now plan_days s;
                rows = write_subscription (restored now plan_days s) subs;
                is_renewal = true;
              })
              else create_row now user_id plan_days d subs (generate_sub_token d.tokens subs)))
            (sym still) (created-IsGranted idle)
    ]

    grant_row-IsGranted :
        (actives : List Subscription)
        → active_of user_id subs ≡ actives
        → length actives ≤ 1
        → IsGranted (grant_row now user_id plan_days d subs actives)
    unfolding grant_row
    grant_row-IsGranted [] e h = restore_or_create-IsGranted (latest_of user_id subs) e refl
    grant_row-IsGranted (s ∷ []) e h = (
      record {
        subscription = renewed now plan_days s;
        rows = write_subscription (renewed now plan_days s) subs;
        is_renewal = true;
      },
      refl,
      renewed-IsGranted s e,
    )
    grant_row-IsGranted (s ∷ t ∷ rest) e h = absurd (omega (arith, h))

    grant_subscription-IsGranted :
        length (active_of user_id subs) ≤ 1
        → IsGranted (grant_subscription now user_id plan_days d subs)
    unfolding grant_subscription
    grant_subscription-IsGranted h = grant_row-IsGranted (active_of user_id subs) refl h

among-accessible :
    (db : Db) (user_id i : ℕ)
    → among i (ids_of (get_accessible_servers_for_user db user_id none))
      ≡ has_access db.grants db.servers user_id i
unfolding get_accessible_servers_for_user has_access
among-accessible db user_id i =
    let chosen = select (is_accessible db.grants user_id none) db.servers in
    any-map_key (λ (s : Server). s.id) i (sort_by (λ (a b : Server). leb a.id b.id) chosen)
    ∙ any-sort_by (λ (s : Server). s.id == i) (λ (a b : Server). leb a.id b.id) chosen
    ∙ any-select (λ (s : Server). s.id == i) (is_accessible db.grants user_id none) db.servers

pub granted_synced :
    (env : Env) (now user_id : ℕ) (db db' : Db) (g : Granted)
    → sync_subscription_to_servers env now g.subscription
        (get_accessible_servers_for_user (record db { subscriptions = g.rows }) user_id none)
        (record db { subscriptions = g.rows })
      ≡ ok db'
    → sync_granted env now user_id db (ok g) ≡ ok (db', g.subscription.sub_token, g.is_renewal)
unfolding sync_granted
granted_synced env now user_id db db' g e = ground (arith, e)

linked_now :
    (env : Env) (db : Db) (s : Subscription) (ss : List Server) (i : ℕ)
    → among i (ids_of ss) ≡ true
    → is_linked (sync_links env s ss db).links i s.id ≡ true
unfolding sync_links
linked_now env db s ss i e =
    is_linked-put_links env (pushed_clients db s) s.id ss db.links i s.id
    ∙ ground (arith, e, (==_iff s.id s.id).1 refl)

-- With a positive page size, an id for each row, at most one active subscription of the user and a
-- free token among those drawn, a payment is applied. After it the user has one active
-- subscription, whose token is returned; it lasts for the paid days, counted from now or from the
-- end of the one that was active before if that is later; and it is linked to every server that the
-- user may use.
pub apply_paid_subscription-IsPaid :
    (env : Env) (now : ℕ) (d : Draws) (user_id plan_days : ℕ) (db : Db) (token : Text)
    → 0 < env.page_size
    → IsKeyed db.subscriptions
    → length (active_of user_id db.subscriptions) ≤ 1
    → generate_sub_token d.tokens db.subscriptions ≡ some token
    → (db' : Db) × (s : Subscription) × (is_renewal : Bool) × (apply_paid_subscription env now d
          user_id plan_days db
        ≡ ok (db', s.sub_token, is_renewal))
      × IsPaid now user_id plan_days db.subscriptions s db'.subscriptions
      × ((i : ℕ)
          → has_access db.grants db.servers user_id i ≡ true
          → is_linked db'.links i s.id ≡ true)
unfolding apply_paid_subscription sync_links
apply_paid_subscription-IsPaid env now d user_id plan_days db token pos keyed single drawn =
    let (g, granted, paid) : IsGranted now user_id plan_days d db.subscriptions keyed
        (grant_subscription now user_id plan_days d db.subscriptions) =
      grant_subscription-IsGranted now user_id plan_days d db.subscriptions keyed token drawn
        single in
    let after : Db = record db { subscriptions = g.rows } in
    let accessible = get_accessible_servers_for_user after user_id none in
    let (db', run, kept) = synced env now g.subscription accessible after pos in
    (
      db',
      g.subscription,
      g.is_renewal,
      ap (sync_granted env now user_id db) granted ∙ granted_synced env now user_id db db' g run,
      (subst (λ rows. IsPaid now user_id plan_days db.subscriptions g.subscription rows)
          (sym (ap (λ r. r.2) kept.0)) paid),
      λ i allowed.
          ap (λ ls. is_linked ls i g.subscription.id) (ap (λ r. r.0) kept.0)
          ∙ (linked_now env after g.subscription accessible i
              (among-accessible after user_id i ∙ allowed)),
    )
