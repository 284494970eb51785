-- ===== src/Services/Payments/Confirmed.antt =====
-- bot/src/services/payment_service.py: what the confirmation of a Platega payment does.
use aegis_vpn.Control.Desired.{is_linked}
use aegis_vpn.Services.Access.Publishing.{has_access}
use aegis_vpn.Base.{
  ℕ, ◌<◌, ◌≤◌, Text, none, some, Bool, true, false, ◌==◌, any, length, ◌≡◌, refl, sym, ap, ◌∙◌,
  arith,
}
use aegis_vpn.Base.Result.{Result, ok, err}
use aegis_vpn.Control.Db.{Db, User, Payment, Subscription}
use aegis_vpn.Services.Access.{Env, get_accessible_servers_for_user, sync_links}
use aegis_vpn.Services.Access.Reconciled.{synced}
use aegis_vpn.Services.Access.Users.{active_of}
use aegis_vpn.Services.Payments.{
  Draws, Granted, PaymentError, is_claimable, claim, finish_confirm, sync_granted,
  confirm_platega_payment, generate_sub_token,
}
use aegis_vpn.Services.Payments.Single.{IsKeyed}
use aegis_vpn.Services.Payments.Activated.{IsPaid, granted_synced, apply_paid_subscription-IsPaid}

-- A payment that leaves its row unclaimable is not confirmed again.
pub refused :
    (env : Env) (now : ℕ) (d : Draws) (payment : Payment) (db : Db)
    → any (is_claimable payment.id) db.payments ≡ false
    → confirm_platega_payment env now d payment db ≡ ok (false, db)
unfolding confirm_platega_payment
refused env now d payment db e = ground (arith, e)

abbrev pub answered : Bool → Db → Result PaymentError (Bool × Db)
answered b db = ok (b, db)

pub same_tables : (db db1 : Db) (a b : Bool) → answered a db ≡ answered b db1 → db ≡ db1
same_tables db db1 a b e = cc

pub payments_kept :
    (env : Env) (now user_id : ℕ) (db : Db) (r : Result PaymentError Granted) (b : Bool) (db1 : Db)
    → 0 < env.page_size
    → finish_confirm (sync_granted env now user_id db r) ≡ ok (b, db1)
    → db1.payments ≡ db.payments
unfolding finish_confirm sync_granted
payments_kept env now user_id db (err e) b db1 pos h = cc
payments_kept env now user_id db (ok g) b db1 pos h =
    let after : Db = record db { subscriptions = g.rows } in
    let (db', run, kept) =
      synced env now g.subscription (get_accessible_servers_for_user after user_id none) after
        pos in
    let done_so : answered true db' ≡ answered b db1 =
      ap finish_confirm (sym (granted_synced env now user_id db db' g run)) ∙ h in
    ap (λ (t : Db). t.payments) (sym (same_tables db' db1 true b done_so))
    ∙ ap (λ r. r.5) kept.0
    ∙ (unfold sync_links in refl)

-- With a positive page size, an id for each subscription, at most one active subscription of the
-- user and a free token among those drawn, the confirmation of a payment whose row is not yet
-- confirmed and whose user is there returns true. After it the user has one active subscription,
-- which lasts for the paid days, counted from now or from the end of the one that was active before if
-- that is later, and is linked to every server that the user may use.
pub confirm_platega_payment-IsPaid :
    (env : Env) (now : ℕ) (d : Draws) (payment : Payment) (db : Db) (token : Text)
    → 0 < env.page_size
    → IsKeyed db.subscriptions
    → length (active_of payment.user_id db.subscriptions) ≤ 1
    → generate_sub_token d.tokens db.subscriptions ≡ some token
    → any (is_claimable payment.id) db.payments ≡ true
    → any (λ (u : User). u.id == payment.user_id) db.users ≡ true
    → (db' : Db) × (s : Subscription) × (confirm_platega_payment env now d payment db
        ≡ ok (true, db'))
      × IsPaid now payment.user_id payment.plan_days db.subscriptions s db'.subscriptions
      × ((i : ℕ)
          → has_access db.grants db.servers payment.user_id i ≡ true
          → is_linked db'.links i s.id ≡ true)
unfolding confirm_platega_payment claim
confirm_platega_payment-IsPaid env now d payment db token pos keyed single drawn free known =
    let (db', s, renewal, run, paid, linked) =
      apply_paid_subscription-IsPaid env now d payment.user_id payment.plan_days
        (claim payment.id db) token pos keyed single drawn in
    (
      db',
      s,
      rw (free, known) (ap finish_confirm run ∙ (unfold finish_confirm in refl)),
      paid,
      linked,
    )
