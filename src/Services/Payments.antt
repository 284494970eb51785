-- ===== src/Services/Payments.antt =====
-- bot/src/services/payment_service.py: what a payment does to the user's subscription, and the
-- confirmation of a Platega payment, which claims the payment's row first. The lock for each user is
-- not modelled: one call runs at a time. The random token, the random UUID and the id that the
-- database gives to a new row are arguments. A link in a message to the user is not modelled.
pub mod Single
pub mod Activated
pub mod Confirmed
pub mod Callback
pub mod Final
pub mod Samples
mod Tests
use aegis_vpn.Base.{
  ℕ, ◌+◌, ◌*◌, max, Text, codes, Option, none, some, List, [], ◌∷◌, ◌++◌, map, Bool, true, false,
  ◌&&◌, not, ◌==◌, leb, ltb, any, select, find?, text_eq, sort_by, if◌then◌else◌,
}
use aegis_vpn.Base.Result.{Result, ok, err}
use aegis_vpn.Control.Db.{Db, User, Subscription, Payment}
use aegis_vpn.Control.State.{PublishError}
use aegis_vpn.Services.Access.{Env, get_accessible_servers_for_user, sync_subscription_to_servers}
use aegis_vpn.Services.Access.Users.{active_of}

-- `timedelta(days=days)` in microseconds.
unfoldable pub of_days : ℕ → ℕ
of_days days = days * 86400000000

-- What a new row takes: its id, its UUID, and the tokens that are drawn until one is free.
pub record Draws : Type 0 where
  pub new_id : ℕ
  pub new_uuid : Text
  pub tokens : List Text

-- `scalar_one_or_none` raises for several rows; a publication may raise; the draws may not suffice.
pub data PaymentError : Type 0 where
  multiple_active no_token : PaymentError
  publish_failed : PublishError → PaymentError

-- `generate_sub_token` of bot/src/services/subscription_service.py
unfoldable pub generate_sub_token : List Text → List Subscription → Option Text
generate_sub_token tokens subs =
    find? (λ t. not (any (λ (s : Subscription). text_eq s.sub_token t) subs)) tokens

-- Attributes of one row are assigned; the new row keeps its id.
unfoldable pub write_subscription : Subscription → List Subscription → List Subscription
write_subscription s [] = []
write_subscription s (t ∷ ts) = if t.id == s.id then s ∷ ts else t ∷ write_subscription s ts

abbrev pub first_row : List Subscription → Option Subscription
first_row [] = none
first_row (s ∷ ss) = some s

-- `expired_sub`: the user's subscription that ends last.
unfoldable pub latest_of : ℕ → List Subscription → Option Subscription
latest_of user_id subs = first_row (
    sort_by (λ (a b : Subscription). leb b.expires_at a.expires_at)
      (select (λ (s : Subscription). s.user_id == user_id) subs))

unfoldable pub renewed : ℕ → ℕ → Subscription → Subscription
unfolding of_days
renewed now plan_days s = record s { expires_at = max s.expires_at now + of_days plan_days }

unfoldable pub restored : ℕ → ℕ → Subscription → Subscription
unfolding of_days
restored now plan_days s = record s {
  is_active = true;
  plan_days = plan_days;
  expires_at = now + of_days plan_days;
}

unfoldable pub new_subscription : ℕ → ℕ → ℕ → Draws → Text → Subscription
unfolding of_days
new_subscription now user_id plan_days d token = record {
  id = d.new_id;
  user_id = user_id;
  sub_token = token;
  client_uuid = d.new_uuid;
  plan_days = plan_days;
  started_at = now;
  expires_at = now + of_days plan_days;
  is_active = true;
}

-- The subscription that is to be synced, the rows, and `is_renewal`.
pub record Granted : Type 0 where
  pub subscription : Subscription
  pub rows : List Subscription
  pub is_renewal : Bool

unfoldable pub create_row :
    ℕ → ℕ → ℕ → Draws → List Subscription → Option Text → Result PaymentError Granted
unfolding new_subscription
create_row now user_id plan_days d subs none = err no_token
create_row now user_id plan_days d subs (some token) =
    let s = new_subscription now user_id plan_days d token in
    ok (record { subscription = s; rows = subs ++ s ∷ []; is_renewal = false })

unfoldable pub restore_or_create :
    ℕ → ℕ → ℕ → Draws → List Subscription → Option Subscription → Result PaymentError Granted
unfolding create_row generate_sub_token restored write_subscription
restore_or_create now user_id plan_days d subs none =
    create_row now user_id plan_days d subs (generate_sub_token d.tokens subs)
restore_or_create now user_id plan_days d subs (some s) =
    if ltb s.expires_at now
    then ok (record {
      subscription = restored now plan_days s;
      rows = write_subscription (restored now plan_days s) subs;
      is_renewal = true;
    })
    else create_row now user_id plan_days d subs (generate_sub_token d.tokens subs)

unfoldable pub grant_row :
    ℕ → ℕ → ℕ → Draws → List Subscription → List Subscription → Result PaymentError Granted
unfolding restore_or_create latest_of renewed write_subscription
grant_row now user_id plan_days d subs [] =
    restore_or_create now user_id plan_days d subs (latest_of user_id subs)
grant_row now user_id plan_days d subs (s ∷ []) = ok (record {
  subscription = renewed now plan_days s;
  rows = write_subscription (renewed now plan_days s) subs;
  is_renewal = true;
})
grant_row now user_id plan_days d subs (s ∷ t ∷ rest) = err multiple_active

-- The row that the payment leaves active.
unfoldable pub grant_subscription :
    ℕ → ℕ → ℕ → Draws → List Subscription → Result PaymentError Granted
unfolding grant_row active_of
grant_subscription now user_id plan_days d subs =
    grant_row now user_id plan_days d subs (active_of user_id subs)

unfoldable pub sync_granted :
    Env → ℕ → ℕ → Db → Result PaymentError Granted → Result PaymentError (Db × Text × Bool)
unfolding sync_subscription_to_servers get_accessible_servers_for_user
sync_granted env now user_id db (err e) = err e
sync_granted env now user_id db (ok g) =
    let after = record db { subscriptions = g.rows } in
    elim (sync_subscription_to_servers env now g.subscription
      (get_accessible_servers_for_user after user_id none) after) [
        | err e ↦ err (publish_failed e)
        | ok db' ↦ ok (db', g.subscription.sub_token, g.is_renewal)
      ]

-- `apply_paid_subscription`
unfoldable pub apply_paid_subscription :
    Env → ℕ → Draws → ℕ → ℕ → Db → Result PaymentError (Db × Text × Bool)
unfolding grant_subscription sync_granted
apply_paid_subscription env now d user_id plan_days db =
    sync_granted env now user_id db (grant_subscription now user_id plan_days d db.subscriptions)

-- `Payment.status != "confirmed"`, which is not true of NULL.
unfoldable pub is_claimable : ℕ → Payment → Bool
is_claimable payment_id p =
    p.id == payment_id
    && elim p.status [ none ↦ false | some status ↦ not (text_eq status (codes "confirmed")) ]

unfoldable pub claimed : ℕ → Payment → Payment
unfolding is_claimable
claimed payment_id p =
    if is_claimable payment_id p then record p { status = some (codes "confirmed") } else p

-- The update that claims the row.
unfoldable pub claim : ℕ → Db → Db
unfolding claimed
claim payment_id db = record db { payments = map (claimed payment_id) db.payments }

unfoldable pub finish_confirm :
    Result PaymentError (Db × Text × Bool) → Result PaymentError (Bool × Db)
finish_confirm (err e) = err e
finish_confirm (ok (db, token, is_renewal)) = ok (true, db)

-- `confirm_platega_payment`: whether it activated the subscription, and the tables; after an error
-- the transaction is rolled back.
unfoldable pub confirm_platega_payment :
    Env → ℕ → Draws → Payment → Db → Result PaymentError (Bool × Db)
unfolding is_claimable claim apply_paid_subscription finish_confirm
confirm_platega_payment env now d payment db =
    if not (any (is_claimable payment.id) db.payments)
    then ok (false, db)
    else if any (λ (u : User). u.id == payment.user_id) db.users
    then finish_confirm
        (apply_paid_subscription env now d payment.user_id payment.plan_days (claim payment.id db))
    else ok (false, claim payment.id db)
