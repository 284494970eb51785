-- ===== src/Services/Trial/Tests.antt =====
-- Trials of a new user and of the sample user.
use aegis_vpn.Base.{ℕ, Text, codes, none, some, List, [], ◌∷◌, Bool, true, false, ◌≡◌, refl}
use aegis_vpn.Base.Result.{Result, ok}
use aegis_vpn.Control.Db.{Db}
use aegis_vpn.Control.Sample.{subscription, world}
use aegis_vpn.Services.Payments.{PaymentError}
use aegis_vpn.Services.Payments.Samples.{env, draws, page_size_run}
use aegis_vpn.Services.Trial.{Answer, Caller, activate_trial, already_used, active_exists, started}
use aegis_vpn.Services.Trial.Single.{activate_trial_once}

abbrev caller : Caller
caller = record {
  tg_id = 44;
  username = none;
  language_code = some (codes "EN-us");
  new_user_id = 4;
}

abbrev tables_of : Result PaymentError Answer → Db
tables_of (ok (l, status, db)) = db
tables_of e = world

abbrev trial_world : Db
trial_world = tables_of (activate_trial env 100 draws caller world)

started_run : activate_trial env 100 draws caller world ≡ ok (codes "en", started, trial_world)
unfolding activate_trial aegis_vpn.Base.sort_by aegis_vpn.Base.text_eq
    aegis_vpn.Control.Db.find_server aegis_vpn.Control.State.publish_snapshot
    aegis_vpn.Base.starts_with
started_run = refl

abbrev single_world : Db
single_world = record world { subscriptions = subscription ∷ [] }

active_exists_run :
    activate_trial env 1 draws (record caller { tg_id = 33 }) single_world
    ≡ ok (codes "ru", active_exists, single_world)
unfolding activate_trial
active_exists_run = refl

activate_trial_once_example :
    activate_trial env 200 draws (record caller { username = some (codes "n") }) trial_world
    ≡ ok (codes "en", already_used, trial_world)
activate_trial_once_example =
    activate_trial_once env env 100 200 draws draws caller
      (record caller { username = some (codes "n") }) world trial_world (codes "en") page_size_run
      refl started_run
