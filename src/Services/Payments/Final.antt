-- ===== src/Services/Payments/Final.antt =====
-- bot/src/services/payment_service.py and bot/src/main.py: a confirmed payment stays confirmed over
-- any history of callbacks and of checks by the user.
use aegis_vpn.Base.{
  ℕ, ◌<◌, Text, codes, Option, none, some, List, [], ◌∷◌, ◌++◌, map, select, Bool, true, false,
  ◌&&◌, not, ◌==◌, any, ◌≡◌, ◌⊎◌, refl, sym, ap, ◌∙◌, Bool-cases, Option-cases, inl, inr, arith,
  text_eq, text_eq_refl, is_empty,
}
use mathlib.Core.Path.{subst}
use aegis_vpn.Base.Result.{Result, ok, err}
use aegis_vpn.Control.Db.{Db, User, Payment}
use aegis_vpn.Services.Access.{Env}
use aegis_vpn.Services.Payments.{
  Draws, PaymentError, is_claimable, claimed, claim, grant_subscription, apply_paid_subscription,
  confirm_platega_payment,
}
use aegis_vpn.Services.Payments.Confirmed.{payments_kept, refused, answered, same_tables}
use aegis_vpn.Services.Payments.Callback.{
  PlategaSettings, Callback, CallbackData, Amount, or_empty, platega_enabled,
  platega_callback_handler, handle_data, handle_payment, settle_payment, after_confirm,
  close_payment, with_status, is_confirmed, verify_callback_headers, amount_raises, to_upper,
}

-- A row of the payment that is not confirmed.
unfoldable pub is_open : ℕ → Payment → Bool
unfolding is_confirmed
is_open i p = p.id == i && not (is_confirmed p)

-- A row of the payment without a status.
unfoldable pub is_stateless : ℕ → Payment → Bool
is_stateless i p = p.id == i && elim p.status [ none ↦ true | some status ↦ false ]

abbrev pub tables_of : Db → Result PaymentError (Bool × Db) → Db
tables_of db (err e) = db
tables_of db (ok (b, db')) = db'

-- What callbacks, and checks of some payment by a user, make of the tables.
pub data History : Db → Db → Type 0 where
  nothing_happened : {db : Db} → History db db
  then_callback :
      {db db' : Db} (settings : PlategaSettings) (env : Env) (now : ℕ) (d : Draws)
      (request : Callback)
      → 0 < env.page_size
      → History db db'
      → History db (platega_callback_handler settings env now d request db').1
  then_check :
      {db db' : Db} (env : Env) (now : ℕ) (d : Draws) (payment : Payment)
      → 0 < env.page_size
      → History db db'
      → History db (tables_of db' (confirm_platega_payment env now d payment db'))

any-map :
    (f g : Payment → Bool) (h : Payment → Payment)
    → ((p : Payment) → f p ≡ false → g (h p) ≡ false)
    → (ps : List Payment) → any f ps ≡ false
    → any g (map h ps) ≡ false
any-map f g h keeps [] e = refl
any-map f g h keeps (p ∷ ps) e = ground (arith, keeps p, any-map f g h keeps ps, e)

open_claimable : (i : ℕ) (p : Payment) → is_open i p ≡ false → is_claimable i p ≡ false
unfolding is_open is_confirmed is_claimable
open_claimable i p e = elim (Option-cases p.status) [
  | inl absent ↦ rw absent (ground arith)
  | inr (status, here) ↦ rw here (rw here at e)
]

closed_by_status : (i : ℕ) (p : Payment) → p.status ≡ some (codes "confirmed") → is_open i p ≡ false
unfolding is_open is_confirmed
closed_by_status i p e = rw e (ground (arith, text_eq_refl (codes "confirmed")))

claimed_kept : (i j : ℕ) (p : Payment) → is_open i p ≡ false → is_open i (claimed j p) ≡ false
unfolding claimed
claimed_kept i j p e = elim (Bool-cases (is_claimable j p)) [
  | inl free ↦ rw free (closed_by_status i (record p { status = some (codes "confirmed") }) refl)
  | inr taken ↦ rw taken e
]

claimless :
    (i : ℕ) (p : Payment)
    → is_stateless i p ≡ false
    → is_claimable i p ≡ false
    → is_open i p ≡ false
unfolding is_open is_confirmed is_claimable is_stateless
claimless i p e taken = elim (Option-cases p.status) [
  | inl absent ↦ rw absent (ground (arith, rw absent at e))
  | inr (status, here) ↦ rw here (rw here at taken)
]

claimed_closed : (i : ℕ) (p : Payment) → is_stateless i p ≡ false → is_open i (claimed i p) ≡ false
unfolding claimed
claimed_closed i p e = elim (Bool-cases (is_claimable i p)) [
  | inl free ↦ rw free (closed_by_status i (record p { status = some (codes "confirmed") }) refl)
  | inr taken ↦ rw taken (claimless i p e taken)
]

with_status_kept :
    (i : ℕ) (status : Text) (p q : Payment)
    → is_confirmed p ≡ false
    → is_open i p ≡ false
    → is_open i q ≡ false
    → is_open i (with_status p.id status q) ≡ false
unfolding is_open with_status
with_status_kept i status p q late closed e = elim (Bool-cases (q.id == p.id)) [
  | inl same ↦ rw same (ground (arith, rw late at closed, same))
  | inr other ↦ rw other e
]

any-select :
    (f g : Payment → Bool) (ps : List Payment) → any f ps ≡ false → any f (select g ps) ≡ false
any-select f g [] e = refl
any-select f g (p ∷ ps) e = ground (arith, any-select f g ps, e)

-- All rows of the payment are confirmed.
abbrev IsSettled : ℕ → Db → Type 0
IsSettled i db = any (is_open i) db.payments ≡ false

settled_refused : (i : ℕ) (db : Db) → IsSettled i db → any (is_claimable i) db.payments ≡ false
settled_refused i db e = go db.payments e
  where
    go : (ps : List Payment) → any (is_open i) ps ≡ false → any (is_claimable i) ps ≡ false
    go [] h = refl
    go (p ∷ ps) h = ground (arith, open_claimable i p, go ps, h)

unclaimable_settled :
    (i : ℕ) (ps : List Payment)
    → any (is_stateless i) ps ≡ false
    → any (is_claimable i) ps ≡ false
    → any (is_open i) ps ≡ false
unclaimable_settled i [] stated free = refl
unclaimable_settled i (p ∷ ps) stated free =
    ground (arith, claimless i p, unclaimable_settled i ps, stated, free)

-- What a confirmation does to the payments, if it returns.
confirmed_payments :
    (env : Env) (now : ℕ) (d : Draws) (payment : Payment) (db db1 : Db) (b : Bool)
    → 0 < env.page_size
    → confirm_platega_payment env now d payment db ≡ ok (b, db1)
    → ((any (is_claimable payment.id) db.payments ≡ false) × (db ≡ db1))
      ⊎ (db1.payments ≡ map (claimed payment.id) db.payments)
unfolding confirm_platega_payment apply_paid_subscription claim
confirmed_payments env now d payment db db1 b pos e =
    elim (Bool-cases (any (is_claimable payment.id) db.payments)) [
      | inr none_free ↦
          let left : answered false db ≡ answered b db1 = rw none_free at e in
          inl (none_free, same_tables db db1 false b left)
      | inl free ↦ elim (Bool-cases (any (λ (u : User). u.id == payment.user_id) db.users)) [
        | inl known ↦ inr (
            payments_kept env now payment.user_id (claim payment.id db)
              (grant_subscription now payment.user_id payment.plan_days d db.subscriptions) b db1
              pos (rw (free, known) at e))
        | inr unknown ↦
            let left : answered false (claim payment.id db) ≡ answered b db1 =
              rw (free, unknown) at e in
            inr (
              ap (λ (t : Db). t.payments)
                (sym (same_tables (claim payment.id db) db1 false b left)))
      ]
    ]

confirm-IsSettled :
    (i : ℕ) (env : Env) (now : ℕ) (d : Draws) (payment : Payment) (db : Db)
    → 0 < env.page_size
    → IsSettled i db
    → IsSettled i (tables_of db (confirm_platega_payment env now d payment db))
confirm-IsSettled i env now d payment db pos settled =
    go (confirm_platega_payment env now d payment db) refl
  where
    go :
        (r : Result PaymentError (Bool × Db))
        → confirm_platega_payment env now d payment db ≡ r
        → IsSettled i (tables_of db r)
    go (err x) run = settled
    go (ok (b, db1)) run = elim (confirmed_payments env now d payment db db1 b pos run) [
      | inl (none_free, same) ↦ subst (IsSettled i) same settled
      | inr changed ↦
          ap (any (is_open i)) changed
          ∙ any-map (is_open i) (is_open i) (claimed payment.id) (claimed_kept i payment.id)
              db.payments settled
    ]

close-IsSettled :
    (i : ℕ) (status : Text) (p : Payment) (db : Db)
    → is_open i p ≡ false
    → IsSettled i db
    → IsSettled i (close_payment status p db)
unfolding close_payment
close-IsSettled i status p db closed settled = elim (Bool-cases (is_confirmed p)) [
  | inl final ↦ rw final settled
  | inr late ↦ rw late (
      any-map (is_open i) (is_open i) (with_status p.id status)
        (λ q. with_status_kept i status p q late closed) db.payments settled)
]

after_confirm_tables :
    (db : Db) (r : Result PaymentError (Bool × Db)) → (after_confirm db r).1 ≡ tables_of db r
unfolding after_confirm
after_confirm_tables db (err e) = refl
after_confirm_tables db (ok (b, db')) = refl

settle-IsSettled :
    (i : ℕ) (env : Env) (now : ℕ) (d : Draws) (status : Text) (p : Payment) (db : Db)
    → 0 < env.page_size
    → is_open i p ≡ false
    → IsSettled i db
    → IsSettled i (settle_payment env now d status p db).1
unfolding settle_payment
settle-IsSettled i env now d status p db pos closed settled =
    elim (Bool-cases (text_eq status (codes "CONFIRMED"))) [
      | inl paid ↦ rw paid (
          subst (IsSettled i)
            (sym (after_confirm_tables db (confirm_platega_payment env now d p db)))
            (confirm-IsSettled i env now d p db pos settled))
      | inr unpaid ↦ rw unpaid (elim (Bool-cases (text_eq status (codes "CHARGEBACKED"))) [
        | inl back ↦ rw back (close-IsSettled i (codes "chargeback") p db closed settled)
        | inr kept ↦ rw kept (elim (Bool-cases (text_eq status (codes "CANCELED"))) [
          | inl off ↦ rw off (close-IsSettled i (codes "canceled") p db closed settled)
          | inr on ↦ rw on settled
        ])
      ])
    ]

handle-IsSettled :
    (i : ℕ) (env : Env) (now : ℕ) (d : Draws) (status : Text) (paid : Amount) (ps : List Payment)
    (db : Db)
    → 0 < env.page_size
    → any (is_open i) ps ≡ false
    → IsSettled i db
    → IsSettled i (handle_payment env now d status paid ps db).1
unfolding handle_payment amount_raises
handle-IsSettled i env now d status paid [] db pos closed settled = settled
handle-IsSettled i env now d status paid (p ∷ []) db pos closed settled =
    elim (Bool-cases (amount_raises paid p.rub_amount)) [
      | inl bad ↦ rw bad settled
      | inr good ↦
          rw good (settle-IsSettled i env now d status p db pos (ground (arith, closed)) settled)
    ]
handle-IsSettled i env now d status paid (p ∷ q ∷ rest) db pos closed settled = settled

data-IsSettled :
    (i : ℕ) (env : Env) (now : ℕ) (d : Draws) (body : Option CallbackData) (db : Db)
    → 0 < env.page_size
    → IsSettled i db
    → IsSettled i (handle_data env now d body db).1
unfolding handle_data to_upper
data-IsSettled i env now d none db pos settled = settled
data-IsSettled i env now d (some body) db pos settled =
    elim (Bool-cases (is_empty (or_empty body.id))) [
      | inl unnamed ↦ rw unnamed settled
      | inr named ↦ rw named (
          handle-IsSettled i env now d (map to_upper (or_empty body.status)) body.amount
            (select
              (λ (p : Payment). text_eq p.tg_payment_id (codes "platega_" ++ or_empty body.id))
              db.payments)
            db pos
            (any-select (is_open i)
              (λ (p : Payment). text_eq p.tg_payment_id (codes "platega_" ++ or_empty body.id))
              db.payments settled)
            settled)
    ]

callback-IsSettled :
    (i : ℕ) (settings : PlategaSettings) (env : Env) (now : ℕ) (d : Draws) (request : Callback)
    (db : Db)
    → 0 < env.page_size
    → IsSettled i db
    → IsSettled i (platega_callback_handler settings env now d request db).1
unfolding platega_callback_handler
callback-IsSettled i settings env now d request db pos settled =
    elim (Bool-cases (platega_enabled settings)) [
      | inr off ↦ rw off settled
      | inl on ↦
          elim (Bool-cases (verify_callback_headers settings request.merchant_id request.secret)) [
            | inr forged ↦ rw forged (rw on settled)
            | inl genuine ↦
                rw genuine (rw on (data-IsSettled i env now d request.body db pos settled))
          ]
    ]

History-IsSettled : (i : ℕ) {db db' : Db} → History db db' → IsSettled i db → IsSettled i db'
History-IsSettled i nothing_happened settled = settled
History-IsSettled i (then_callback {db' = db'} settings env now d request pos before) settled =
    callback-IsSettled i settings env now d request db' pos (History-IsSettled i before settled)
History-IsSettled i (then_check {db' = db'} env now d payment pos before) settled =
    confirm-IsSettled i env now d payment db' pos (History-IsSettled i before settled)

-- With positive page sizes, once a confirmation of a payment that has a status has returned, whatever
-- it returned, and after any history of callbacks with any contents and of checks of any payments, a
-- later confirmation of the payment returns false and changes nothing.
pub confirmed_for_good :
    (env env' : Env) (now now' : ℕ) (d d' : Draws) (payment : Payment) (db db1 db2 : Db) (b : Bool)
    → 0 < env.page_size
    → any (is_stateless payment.id) db.payments ≡ false
    → confirm_platega_payment env now d payment db ≡ ok (b, db1)
    → History db1 db2
    → confirm_platega_payment env' now' d' payment db2 ≡ ok (false, db2)
confirmed_for_good env env' now now' d d' payment db db1 db2 b pos stated e later =
    let at_first : IsSettled payment.id db1 =
      elim (confirmed_payments env now d payment db db1 b pos e) [
        | inl (none_free, same) ↦
            subst (IsSettled payment.id) same
              (unclaimable_settled payment.id db.payments stated none_free)
        | inr changed ↦
            ap (any (is_open payment.id)) changed
            ∙ any-map (is_stateless payment.id) (is_open payment.id) (claimed payment.id)
                (claimed_closed payment.id) db.payments stated
      ] in
    refused env' now' d' payment db2
      (settled_refused payment.id db2 (History-IsSettled payment.id later at_first))
