-- ===== src/Services/Access/Tests.antt =====
-- Access to the sample server, which is taken out of public use.
use aegis_vpn.Base.{
  ℕ, ◌<◌, Text, codes, List, [], ◌∷◌, Bool, true, false, ◌&&◌, ◌==◌, any, if◌then◌else◌, ◌≡◌, refl,
  arith, none, some,
}
use aegis_vpn.Base.Result.{ok}
use aegis_vpn.Control.Db.{Db, Server, Subscription}
use aegis_vpn.Control.Desired.{is_linked, is_eligible}
use aegis_vpn.Control.Sample.{codec, hash, server, subscription, world}
use aegis_vpn.Services.Access.{
  Env, Pending, is_granted, reconcile_subscription_servers, reconcile_user_subscriptions,
  grant_user_access, revoke_user_access, nothing_pending,
}
use aegis_vpn.Services.Access.Reconciled.{
  to_be_linked, KeptAccess, reconcile_subscription_servers-linked,
}
use aegis_vpn.Services.Access.Publishing.{has_access}
use aegis_vpn.Services.Access.Users.{is_among, active_of, reconcile_user_subscriptions-linked}
use aegis_vpn.Services.Access.Grants.{is_public, revoke_user_access_cuts, grant_user_access_links}

abbrev env : Env
env = record { codec = codec; hash = hash; page_size = 10; bulk_add = λ s clients. true }

abbrev private_server : Server
private_server = record server { access_mode = codes "private" }

abbrev private_db : Db
private_db = record world {
  servers = private_server ∷ [];
  grants = record { server_id = 1; user_id = 3 } ∷ [];
}

page_size_run : 0 < env.page_size
page_size_run = ground arith

private_run :
    any (λ (t : Server). t.id == private_server.id && is_public t) private_db.servers ≡ false
unfolding is_public aegis_vpn.Base.text_eq codes
private_run = refl

active_run :
    any (λ (t : Server). t.id == private_server.id && t.is_active) private_db.servers ≡ true
active_run = refl

reconcile_subscription_servers-linked_example :
    (db' : Db) × (p' : Pending) × (reconcile_subscription_servers env 100 none subscription
        private_db nothing_pending
      ≡ ok (db', p'))
    × ((i j : ℕ) → is_linked db'.links i j ≡ to_be_linked private_db none subscription i j)
    × KeptAccess private_db db'
reconcile_subscription_servers-linked_example =
    reconcile_subscription_servers-linked env 100 none subscription private_db nothing_pending
      page_size_run

reconcile_user_subscriptions-linked_example :
    (db' : Db) × (removals : List (Text × Text × Text)) × (reconcile_user_subscriptions env 100 3
        private_db
      ≡ ok (db', removals))
    × ((i j : ℕ)
        → is_linked db'.links i j ≡ (
            if is_among j (active_of 3 private_db.subscriptions)
            then has_access private_db.grants private_db.servers 3 i
            else is_linked private_db.links i j))
    × KeptAccess private_db db'
reconcile_user_subscriptions-linked_example =
    reconcile_user_subscriptions-linked env 100 3 private_db page_size_run

revoke_user_access_cuts_example :
    (revoked : Bool) × (db' : Db) × (removals : List (Text × Text × Text)) × (revoke_user_access env
        100 private_server 3 private_db
      ≡ (revoked, ok (db', removals)))
    × (is_granted db'.grants private_server.id 3 ≡ false)
    × ((sub : Subscription) (later : ℕ)
        → is_among sub.id (active_of 3 private_db.subscriptions) ≡ true
        → is_eligible db' private_server.id later sub ≡ false)
revoke_user_access_cuts_example =
    revoke_user_access_cuts env 100 private_server 3 private_db page_size_run private_run

grant_user_access_links_example :
    (granted : Bool) × (db' : Db) × (removals : List (Text × Text × Text)) × (grant_user_access env
        100 private_server 3 private_db
      ≡ (granted, ok (db', removals)))
    × (is_granted db'.grants private_server.id 3 ≡ true)
    × ((sub : Subscription)
        → is_among sub.id (active_of 3 private_db.subscriptions) ≡ true
        → is_linked db'.links private_server.id sub.id ≡ true)
grant_user_access_links_example =
    grant_user_access_links env 100 private_server 3 private_db page_size_run active_run
