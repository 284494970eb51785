-- ===== src/Services/Trial.antt =====
-- bot/src/services/user_service.py: activate_trial. A Telegram id is never negative here, and the id
-- of a new user is an argument. What is not committed is rolled back.
pub mod Single
mod Tests
use aegis_vpn.Base.{
  ℕ, ◌+◌, Text, codes, Option, none, some, List, [], ◌∷◌, ◌++◌, map, Bool, true, false, ◌&&◌, ◌==◌,
  leb, ltb, select, sort_by, is_empty, starts_with, if◌then◌else◌,
}
use aegis_vpn.Base.Result.{Result, ok, err}
use aegis_vpn.Control.Db.{Db, User, Subscription}
use aegis_vpn.Services.Access.{Env, get_accessible_servers_for_user, sync_subscription_to_servers}
use aegis_vpn.Services.Payments.{
  Draws, PaymentError, multiple_active, no_token, first_row, generate_sub_token, of_days,
  new_subscription, write_subscription,
}

abbrev pub trial_days : ℕ
trial_days = 3

-- ASCII `str.lower`
to_lower : ℕ → ℕ
to_lower c = if leb b'A' c && leb c b'Z' then c + 32 else c

unfoldable pub pick_language : Option Text → Text
unfolding to_lower
pick_language none = codes "ru"
pick_language (some code) =
    if starts_with (codes "en") (map to_lower code) then codes "en" else codes "ru"

pub data TrialStatus : Type 0 where
  banned already_used active_exists failed started : TrialStatus

-- The caller's Telegram id, name and language code, and the id that a new user would get.
pub record Caller : Type 0 where
  pub tg_id : ℕ
  pub username : Option Text
  pub language_code : Option Text
  pub new_user_id : ℕ

unfoldable pub new_user : Caller → User
unfolding pick_language
new_user c = record {
  id = c.new_user_id;
  tg_id = c.tg_id;
  username = c.username;
  language = pick_language c.language_code;
  is_banned = false;
  trial_used = false;
  conn_limit = none;
}

-- `find_latest_subscription` of bot/src/services/subscription_service.py
unfoldable pub find_latest_subscription : ℕ → List Subscription → Option Subscription
find_latest_subscription user_id subs = first_row (
    sort_by (λ (a b : Subscription). leb b.id a.id)
      (select (λ (s : Subscription). s.user_id == user_id) subs))

unfoldable pub unexpired_of : ℕ → ℕ → List Subscription → List Subscription
unexpired_of now user_id =
    select (λ (s : Subscription). s.user_id == user_id && s.is_active && ltb now s.expires_at)

-- The row that the trial uses again, with the token that it keeps or gets.
unfoldable pub reused : ℕ → Draws → Subscription → Text → Subscription
unfolding of_days
reused now d s token = record s {
  is_active = true;
  started_at = now;
  expires_at = now + of_days trial_days;
  plan_days = trial_days;
  sub_token = token;
  client_uuid = if is_empty s.client_uuid then d.new_uuid else s.client_uuid;
}

-- The trial's subscription, and the rows with it.
unfoldable pub trial_row :
    ℕ
    → ℕ
    → Draws
    → List Subscription
    → Option Subscription
    → Result PaymentError (Subscription × List Subscription)
unfolding generate_sub_token reused new_subscription write_subscription
trial_row now user_id d subs none = elim (generate_sub_token d.tokens subs) [
  | none ↦ err no_token
  | some token ↦ let s = new_subscription now user_id trial_days d token in ok (s, subs ++ s ∷ [])
]
trial_row now user_id d subs (some s) =
    if is_empty s.sub_token
    then elim (generate_sub_token d.tokens subs) [
      | none ↦ err no_token
      | some token ↦ let s' = reused now d s token in ok (s', write_subscription s' subs)
    ]
    else let s' = reused now d s s.sub_token in ok (s', write_subscription s' subs)

unfoldable pub started_by : ℕ → Caller → User → User
started_by user_id c u =
    if u.id == user_id then record u { username = c.username; trial_used = true } else u

abbrev pub Answer : Type 0
Answer = Text × TrialStatus × Db

-- `db` is what a roll back leaves, `users` are the rows with the caller's.
unfoldable pub finish_trial :
    Env
    → ℕ
    → Text
    → Db
    → Db
    → ℕ
    → Result PaymentError (Subscription × List Subscription)
    → Result PaymentError Answer
unfolding sync_subscription_to_servers get_accessible_servers_for_user
finish_trial env now language db before user_id (err e) = err e
finish_trial env now language db before user_id (ok (s, rows)) =
    let after = record before { subscriptions = rows } in
    elim (sync_subscription_to_servers env now s
      (get_accessible_servers_for_user after user_id none) after) [
        | err e ↦ ok (language, failed, db)
        | ok db' ↦ ok (language, started, db')
      ]

unfoldable pub start_trial :
    Env
    → ℕ
    → Draws
    → Caller
    → User
    → List User
    → List Subscription
    → Db
    → Result PaymentError Answer
unfolding trial_row find_latest_subscription started_by finish_trial
start_trial env now d c u users [] db =
    finish_trial env now u.language db (record db { users = map (started_by u.id c) users }) u.id
      (trial_row now u.id d db.subscriptions (find_latest_subscription u.id db.subscriptions))
start_trial env now d c u users (s ∷ []) db = ok (u.language, active_exists, db)
start_trial env now d c u users (s ∷ t ∷ rest) db = err multiple_active

unfoldable pub try_trial :
    Env → ℕ → Draws → Caller → User → List User → Db → Result PaymentError Answer
unfolding start_trial unexpired_of
try_trial env now d c u users db =
    if u.is_banned
    then ok (u.language, banned, db)
    else if u.trial_used
    then ok (u.language, already_used, db)
    else start_trial env now d c u users (unexpired_of now u.id db.subscriptions) db

-- The rows with the caller's Telegram id, of which there is at most one.
unfoldable pub trial_for : Env → ℕ → Draws → Caller → List User → Db → Result PaymentError Answer
unfolding try_trial new_user
trial_for env now d c [] db = try_trial env now d c (new_user c) (db.users ++ new_user c ∷ []) db
trial_for env now d c (u ∷ []) db = try_trial env now d c u db.users db
trial_for env now d c (u ∷ v ∷ rest) db = err multiple_active

unfoldable pub has_tg_id : ℕ → User → Bool
has_tg_id tg_id u = u.tg_id == tg_id

-- `activate_trial`: the language, the status, and the tables.
unfoldable pub activate_trial : Env → ℕ → Draws → Caller → Db → Result PaymentError Answer
unfolding trial_for has_tg_id
activate_trial env now d c db = trial_for env now d c (select (has_tg_id c.tg_id) db.users) db
