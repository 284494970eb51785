-- ===== src/Services/Payments/Tests.antt =====
-- Payments of the sample user.
use aegis_vpn.Base.{
  ℕ, ◌<◌, ◌≤◌, Text, codes, List, [], ◌∷◌, Bool, true, false, any, length, ◌==◌, ◌≡◌, refl, arith,
  some, none,
}
use aegis_vpn.Base.Result.{Result, ok}
use aegis_vpn.Control.Db.{Db, User, Subscription, Payment}
use aegis_vpn.Control.Desired.{is_linked}
use aegis_vpn.Control.Sample.{subscription, world}
use aegis_vpn.Services.Access.Publishing.{has_access}
use aegis_vpn.Services.Access.Users.{active_of}
use aegis_vpn.Services.Payments.Samples.{env, draws, page_size_run}
use aegis_vpn.Services.Payments.{
  PaymentError, generate_sub_token, apply_paid_subscription, confirm_platega_payment, is_claimable,
}
use aegis_vpn.Services.Payments.Activated.{IsPaid, apply_paid_subscription-IsPaid}
use aegis_vpn.Services.Payments.Confirmed.{confirm_platega_payment-IsPaid}
use aegis_vpn.Services.Payments.Callback.{
  PlategaSettings, Callback, rubles, platega_callback_handler,
}
use aegis_vpn.Services.Payments.Final.{
  is_stateless, nothing_happened, then_callback, confirmed_for_good,
}

abbrev payment : Payment
payment = record {
  id = 5;
  user_id = 3;
  tg_payment_id = codes "platega_t";
  plan_days = 30;
  rub_amount = some 199;
  status = some (codes "pending");
}

abbrev paying_world : Db
paying_world = record world { subscriptions = subscription ∷ []; payments = payment ∷ [] }

single_run : length (active_of 3 paying_world.subscriptions) ≤ 1
unfolding active_of
single_run = ground arith

drawn_run : generate_sub_token draws.tokens paying_world.subscriptions ≡ some (codes "nt")
unfolding generate_sub_token aegis_vpn.Base.text_eq codes
drawn_run = refl

claimable_run : any (is_claimable payment.id) paying_world.payments ≡ true
unfolding is_claimable aegis_vpn.Base.text_eq codes
claimable_run = refl

known_run : any (λ (u : User). u.id == payment.user_id) paying_world.users ≡ true
known_run = refl

apply_paid_subscription-IsPaid_example :
    (db' : Db) × (s : Subscription) × (is_renewal : Bool) × (apply_paid_subscription env 100 draws 3
        30 paying_world
      ≡ ok (db', s.sub_token, is_renewal))
    × IsPaid 100 3 30 paying_world.subscriptions s db'.subscriptions
    × ((i : ℕ)
        → has_access paying_world.grants paying_world.servers 3 i ≡ true
        → is_linked db'.links i s.id ≡ true)
apply_paid_subscription-IsPaid_example =
    apply_paid_subscription-IsPaid env 100 draws 3 30 paying_world (codes "nt") page_size_run
      (refl, tt) single_run drawn_run

confirm_platega_payment-IsPaid_example :
    (db' : Db) × (s : Subscription) × (confirm_platega_payment env 100 draws payment paying_world
      ≡ ok (true, db'))
    × IsPaid 100 3 30 paying_world.subscriptions s db'.subscriptions
    × ((i : ℕ)
        → has_access paying_world.grants paying_world.servers 3 i ≡ true
        → is_linked db'.links i s.id ≡ true)
confirm_platega_payment-IsPaid_example =
    confirm_platega_payment-IsPaid env 100 draws payment paying_world (codes "nt") page_size_run
      (refl, tt) single_run drawn_run claimable_run known_run

abbrev db_of : Result PaymentError (Bool × Db) → Db
db_of (ok (b, db)) = db
db_of e = paying_world

abbrev confirmed_world : Db
confirmed_world = db_of (confirm_platega_payment env 100 draws payment paying_world)

confirmed_run :
    confirm_platega_payment env 100 draws payment paying_world ≡ ok (true, confirmed_world)
unfolding confirm_platega_payment aegis_vpn.Base.text_eq aegis_vpn.Base.sort_by
    aegis_vpn.Control.Db.find_server aegis_vpn.Control.State.publish_snapshot
confirmed_run = refl

abbrev settings : PlategaSettings
settings = record { merchant_id = some (codes "m"); secret = some (codes "s") }

abbrev callback_of : Text → Callback
callback_of status = record {
  merchant_id = some (codes "m");
  secret = some (codes "s");
  body = some (record { id = some (codes "t"); status = some status; amount = rubles 199 });
}

callback_confirms_run :
    platega_callback_handler settings env 100 draws (callback_of (codes "Confirmed")) paying_world
    ≡ (200, confirmed_world)
unfolding platega_callback_handler aegis_vpn.Base.text_eq aegis_vpn.Base.sort_by
    aegis_vpn.Control.Db.find_server aegis_vpn.Control.State.publish_snapshot
callback_confirms_run = refl

forged_run :
    platega_callback_handler settings env 100 draws
      (record (callback_of (codes "CONFIRMED")) { secret = some (codes "x") })
      paying_world
    ≡ (403, paying_world)
unfolding platega_callback_handler aegis_vpn.Base.text_eq
forged_run = refl

stated_run : any (is_stateless payment.id) paying_world.payments ≡ false
unfolding is_stateless
stated_run = refl

abbrev charged_world : Db
charged_world =
    (platega_callback_handler settings env 150 draws (callback_of (codes "CHARGEBACKED"))
      confirmed_world).1

confirmed_for_good_example :
    confirm_platega_payment env 200 draws payment charged_world ≡ ok (false, charged_world)
confirmed_for_good_example =
    confirmed_for_good env env 100 200 draws draws payment paying_world confirmed_world
      charged_world true page_size_run stated_run confirmed_run
      (then_callback settings env 150 draws (callback_of (codes "CHARGEBACKED")) page_size_run
        nothing_happened)
