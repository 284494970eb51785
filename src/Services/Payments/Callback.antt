-- ===== src/Services/Payments/Callback.antt =====
-- platega_callback_handler of bot/src/main.py and verify_callback_headers of
-- bot/src/services/platega_client.py. The id and the status of the body are texts; an exception is
-- answered with 500 and changes nothing. The logs and the alert to the admins are not modelled.
use aegis_vpn.Base.{
  ℕ, ◌-◌, Text, codes, Option, none, some, List, [], ◌∷◌, ◌++◌, map, select, Bool, true, false,
  ◌&&◌, not, ◌==◌, leb, text_eq, is_empty, opt_text_eq, if◌then◌else◌,
}
use aegis_vpn.Base.Result.{Result, ok, err}
use aegis_vpn.Control.Db.{Db, Payment}
use aegis_vpn.Services.Access.{Env}
use aegis_vpn.Services.Payments.{Draws, PaymentError, confirm_platega_payment}

pub record PlategaSettings : Type 0 where
  pub merchant_id : Option Text
  pub secret : Option Text

-- `value or ""`
abbrev pub or_empty : Option Text → Text
or_empty none = []
or_empty (some t) = t

unfoldable pub platega_enabled : PlategaSettings → Bool
platega_enabled settings =
    not (is_empty (or_empty settings.merchant_id)) && not (is_empty (or_empty settings.secret))

unfoldable pub verify_callback_headers : PlategaSettings → Option Text → Option Text → Bool
unfolding platega_enabled
verify_callback_headers settings merchant_id secret =
    platega_enabled settings
    && text_eq (or_empty merchant_id) (or_empty settings.merchant_id)
    && text_eq (or_empty secret) (or_empty settings.secret)

pub data Amount : Type 0 where
  no_amount not_a_number : Amount
  rubles : ℕ → Amount

pub record CallbackData : Type 0 where
  pub id : Option Text
  pub status : Option Text
  pub amount : Amount

-- The body is `none` if it is not JSON.
pub record Callback : Type 0 where
  pub merchant_id : Option Text
  pub secret : Option Text
  pub body : Option CallbackData

-- ASCII `str.upper`
unfoldable pub to_upper : ℕ → ℕ
to_upper c = if leb b'a' c && leb c b'z' then c - 32 else c

-- `int(cb_amount)` is taken only for a payment with an amount.
unfoldable pub amount_raises : Amount → Option ℕ → Bool
amount_raises not_a_number (some billed) = true
amount_raises a b = false

unfoldable pub is_confirmed : Payment → Bool
is_confirmed p = opt_text_eq p.status (some (codes "confirmed"))

unfoldable pub with_status : ℕ → Text → Payment → Payment
with_status payment_id status p =
    if p.id == payment_id then record p { status = some status } else p

-- The status of a payment that is not confirmed is replaced.
unfoldable pub close_payment : Text → Payment → Db → Db
unfolding is_confirmed with_status
close_payment status payment db =
    if is_confirmed payment
    then db
    else record db { payments = map (with_status payment.id status) db.payments }

unfoldable pub after_confirm : Db → Result PaymentError (Bool × Db) → ℕ × Db
after_confirm db (err e) = (500, db)
after_confirm db (ok (b, db')) = (200, db')

unfoldable pub settle_payment : Env → ℕ → Draws → Text → Payment → Db → ℕ × Db
unfolding close_payment after_confirm confirm_platega_payment
settle_payment env now d status payment db =
    if text_eq status (codes "CONFIRMED")
    then after_confirm db (confirm_platega_payment env now d payment db)
    else if text_eq status (codes "CHARGEBACKED")
    then (200, close_payment (codes "chargeback") payment db)
    else if text_eq status (codes "CANCELED")
    then (200, close_payment (codes "canceled") payment db)
    else (200, db)

-- The rows of the transaction, of which there is at most one.
unfoldable pub handle_payment : Env → ℕ → Draws → Text → Amount → List Payment → Db → ℕ × Db
unfolding amount_raises settle_payment
handle_payment env now d status paid [] db = (200, db)
handle_payment env now d status paid (p ∷ []) db =
    if amount_raises paid p.rub_amount then (500, db) else settle_payment env now d status p db
handle_payment env now d status paid (p ∷ q ∷ rest) db = (500, db)

unfoldable pub handle_data : Env → ℕ → Draws → Option CallbackData → Db → ℕ × Db
unfolding handle_payment to_upper
handle_data env now d none db = (400, db)
handle_data env now d (some data_) db =
    if is_empty (or_empty data_.id)
    then (400, db)
    else handle_payment env now d (map to_upper (or_empty data_.status)) data_.amount
        (select (λ (p : Payment). text_eq p.tg_payment_id (codes "platega_" ++ or_empty data_.id))
          db.payments)
        db

-- The status of the response, and the tables.
unfoldable pub platega_callback_handler : PlategaSettings → Env → ℕ → Draws → Callback → Db → ℕ × Db
unfolding platega_enabled verify_callback_headers handle_data
platega_callback_handler settings env now d request db =
    if not (platega_enabled settings)
    then (503, db)
    else if not (verify_callback_headers settings request.merchant_id request.secret)
    then (403, db)
    else handle_data env now d request.body db
