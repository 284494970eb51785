-- ===== src/Services/Access.antt =====
-- bot/src/services/server_access_service.py, and sync_subscription_to_servers of
-- bot/src/services/subscription_service.py: which servers a user may use, and the links between
-- subscriptions and servers. What the nodes' agents answer is `bulk_add`; calls that take a client
-- off a node are best effort, so they are collected and change nothing here. A link's server is
-- there by its foreign key.
pub mod Links
pub mod Publishing
pub mod Reconciled
pub mod Users
pub mod Grants
mod Tests
use aegis_vpn.Base.{
  ℕ, ◌+◌, Text, codes, Option, none, some, List, [], ◌∷◌, ◌++◌, map, Bool, true, false, ◌&&◌, ◌||◌,
  not, ◌==◌, leb, any, select, text_eq, sort_by, if◌then◌else◌,
}
use aegis_vpn.Base.Decimal.{show}
use aegis_vpn.Base.Result.{Result, ok, err}
use aegis_vpn.Wire.{Codec, DesiredClient}
use aegis_vpn.Control.Db.{
  Db, Server, Subscription, SubscriptionServer, Device, ServerAccessGrant, find_server,
  write_server, User,
}
use aegis_vpn.Control.Cascade.{RouteHash}
use aegis_vpn.Control.Cascade.Advertising.{among}
use aegis_vpn.Control.Desired.{client_email, live_device}
use aegis_vpn.Control.State.{PublishError}
use aegis_vpn.Control.NodeService.{pushes_to, publishes_for, publish_for_servers}

-- The libraries and settings, and whether an agent adds a batch of clients.
pub record Env : Type 0 where
  pub codec : Codec
  pub hash : RouteHash
  pub page_size : ℕ
  pub bulk_add : Server → List DesiredClient → Bool

unfoldable pub is_granted : List ServerAccessGrant → ℕ → ℕ → Bool
is_granted grants server_id user_id =
    any (λ (g : ServerAccessGrant). g.server_id == server_id && g.user_id == user_id) grants

-- `_group_clause`; another group is no condition.
unfoldable pub group_allows : Option Text → Server → Bool
group_allows none s = true
group_allows (some group) s =
    if text_eq group (codes "safe") || text_eq group (codes "fast")
    then text_eq s.subscription_group group || text_eq s.subscription_group (codes "both")
    else true

unfoldable pub is_accessible : List ServerAccessGrant → ℕ → Option Text → Server → Bool
unfolding is_granted group_allows
is_accessible grants user_id group s =
    s.is_active
    && (text_eq s.access_mode (codes "public") || is_granted grants s.id user_id)
    && group_allows group s

unfoldable pub get_accessible_servers_for_user : Db → ℕ → Option Text → List Server
unfolding is_accessible
get_accessible_servers_for_user db user_id group =
    sort_by (λ (a b : Server). leb a.id b.id)
      (select (is_accessible db.grants user_id group) db.servers)

-- The clients that `sync_subscription_to_servers` sends to a node.
unfoldable pub pushed_clients : Db → Subscription → List DesiredClient
unfolding client_email live_device codes show
pushed_clients db sub =
    record { uuid = sub.client_uuid; email = client_email sub; expire_ms = 0 }
    ∷ map
        (λ (d : Device). record {
          uuid = d.uuid;
          email = client_email sub ++ codes "_dev_" ++ show d.id;
          expire_ms = 0;
        })
        (select (live_device sub) db.devices)

unfoldable pub sync_to_server : Env → List DesiredClient → Server → Bool
unfolding pushes_to
sync_to_server env clients s = if pushes_to s then env.bulk_add s clients else false

-- The link of a subscription and a server is set, or added if there is none.
unfoldable pub put_link : ℕ → ℕ → Bool → List SubscriptionServer → List SubscriptionServer
put_link sub_id server_id synced [] =
    record { subscription_id = sub_id; server_id = server_id; is_synced = synced } ∷ []
put_link sub_id server_id synced (l ∷ ls) =
    if l.server_id == server_id && l.subscription_id == sub_id
    then record l { is_synced = synced } ∷ ls
    else l ∷ put_link sub_id server_id synced ls

unfoldable pub put_links :
    Env → List DesiredClient → ℕ → List Server → List SubscriptionServer → List SubscriptionServer
unfolding put_link sync_to_server
put_links env clients sub_id [] links = links
put_links env clients sub_id (s ∷ ss) links =
    put_links env clients sub_id ss (put_link sub_id s.id (sync_to_server env clients s) links)

unfoldable pub sync_links : Env → Subscription → List Server → Db → Db
unfolding put_links pushed_clients
sync_links env sub servers db = record db {
  links = put_links env (pushed_clients db sub) sub.id servers db.links;
}

unfoldable pub publish : Env → ℕ → List ℕ → Db → Result PublishError Db
unfolding publish_for_servers
publish env now server_ids db =
    publish_for_servers env.codec env.hash env.page_size now server_ids db

unfoldable pub sync_subscription_to_servers :
    Env → ℕ → Subscription → List Server → Db → Result PublishError Db
unfolding sync_links publish
sync_subscription_to_servers env now sub [] db = ok db
sync_subscription_to_servers env now sub (s ∷ ss) db =
    publish env now (map (λ (t : Server). t.id) (s ∷ ss)) (sync_links env sub (s ∷ ss) db)

-- What is left to do after the loop: the clients to take off the agents, and the servers to publish
-- for.
pub record Pending : Type 0 where
  pub removals : List (Text × Text × Text)
  pub publications : List ℕ

unfoldable pub nothing_pending : Pending
nothing_pending = record { removals = []; publications = [] }

abbrev pub concerns : Option ℕ → ℕ → Bool
concerns none server_id = true
concerns (some target) server_id = server_id == target

-- `allowed_servers`
unfoldable pub allowed_servers : Db → Subscription → Option ℕ → List Server
unfolding get_accessible_servers_for_user
allowed_servers db sub target =
    select (λ s. concerns target s.id) (get_accessible_servers_for_user db sub.user_id none)

-- `current_links`
unfoldable pub current_links : Db → Subscription → Option ℕ → List SubscriptionServer
current_links db sub target =
    select (λ l. concerns target l.server_id)
      (select (λ (l : SubscriptionServer). l.subscription_id == sub.id) db.links)

abbrev pub ids_of : List Server → List ℕ
ids_of = map (λ (s : Server). s.id)

unfoldable pub shared_agent : Server → List Server → Bool
unfolding pushes_to
shared_agent s allowed =
    any
      (λ (t : Server).
        pushes_to t && text_eq t.agent_url s.agent_url && text_eq t.agent_token s.agent_token)
      allowed

unfoldable pub client_uuids : Db → Subscription → List Text
client_uuids db sub =
    sub.client_uuid
    ∷ map (λ (d : Device). d.uuid) (select (λ (d : Device). d.subscription_id == sub.id) db.devices)

-- What a link that goes leaves to do.
unfoldable pub pending_of :
    Db → Subscription → List Server → SubscriptionServer → Server → Pending → Pending
unfolding shared_agent client_uuids publishes_for
pending_of db sub allowed l s p = record {
  removals =
      (if l.is_synced && pushes_to s && not (shared_agent s allowed)
        then map (λ uuid. (s.agent_url, s.agent_token, uuid)) (client_uuids db sub)
        else [])
      ++ p.removals;
  publications = (if publishes_for s then l.server_id ∷ [] else []) ++ p.publications;
}

unfoldable pub delete_link : ℕ → ℕ → List SubscriptionServer → List SubscriptionServer
delete_link sub_id server_id =
    select
      (λ (l : SubscriptionServer). not (l.server_id == server_id && l.subscription_id == sub_id))

unfoldable pub note_gone :
    Db → Subscription → List Server → SubscriptionServer → Option Server → Pending → Pending
unfolding pending_of
note_gone db sub allowed l none p = p
note_gone db sub allowed l (some s) p = pending_of db sub allowed l s p

-- The loop over the links.
unfoldable pub drop_links :
    Subscription → List Server → List SubscriptionServer → Db × Pending → Db × Pending
unfolding note_gone delete_link
drop_links sub allowed [] r = r
drop_links sub allowed (l ∷ ls) (db, p) =
    if among l.server_id (ids_of allowed)
    then drop_links sub allowed ls (db, p)
    else drop_links sub allowed ls (
      record db { links = delete_link sub.id l.server_id db.links },
      note_gone db sub allowed l (find_server l.server_id db.servers) p,
    )

unfoldable pub missing_servers : List Server → List SubscriptionServer → List Server
missing_servers allowed links =
    select (λ s. not (among s.id (map (λ (l : SubscriptionServer). l.server_id) links))) allowed

unfoldable pub finish_drop :
    Subscription
    → List Server
    → List SubscriptionServer
    → Pending
    → Result PublishError Db
    → Result PublishError (Db × Pending)
unfolding drop_links
finish_drop sub allowed links p (err e) = err e
finish_drop sub allowed links p (ok db) = ok (drop_links sub allowed links (db, p))

-- `reconcile_subscription_servers`, with the sets of its caller.
unfoldable pub reconcile_subscription_servers :
    Env → ℕ → Option ℕ → Subscription → Db → Pending → Result PublishError (Db × Pending)
unfolding allowed_servers current_links missing_servers sync_subscription_to_servers finish_drop
reconcile_subscription_servers env now target sub db p =
    let allowed = allowed_servers db sub target in
    let links = current_links db sub target in
    finish_drop sub allowed links p
      (sync_subscription_to_servers env now sub (missing_servers allowed links) db)

-- The loops of `reconcile_user_subscriptions` and `reconcile_server_subscriptions`.
unfoldable pub reconcile_each :
    Env → ℕ → Option ℕ → List Subscription → Db → Pending → Result PublishError (Db × Pending)
unfolding reconcile_subscription_servers
reconcile_each env now target [] db p = ok (db, p)
reconcile_each env now target (sub ∷ subs) db p =
    elim (reconcile_subscription_servers env now target sub db p) [
      | err e ↦ err e
      | ok (db', p') ↦ reconcile_each env now target subs db' p'
    ]

unfoldable pub distinct : List ℕ → List ℕ
distinct [] = []
distinct (i ∷ is) = let rest = distinct is in if among i rest then rest else i ∷ rest

-- The publication for the servers that were noted, and the clients that `_flush_removals` takes off
-- the agents.
unfoldable pub finish_each :
    Env
    → ℕ
    → Result PublishError (Db × Pending)
    → Result PublishError (Db × List (Text × Text × Text))
unfolding publish distinct
finish_each env now (err e) = err e
finish_each env now (ok (db, p)) = elim (publish env now (distinct p.publications) db) [
  | err e ↦ err e
  | ok db' ↦ ok (db', p.removals)
]

abbrev pub Reconciled : Type 0
Reconciled = Result PublishError (Db × List (Text × Text × Text))

unfoldable pub reconcile_user_subscriptions : Env → ℕ → ℕ → Db → Reconciled
unfolding reconcile_each finish_each nothing_pending
reconcile_user_subscriptions env now user_id db = finish_each env now (
    reconcile_each env now none
      (select (λ (s : Subscription). s.user_id == user_id && s.is_active) db.subscriptions) db
      nothing_pending)

unfoldable pub reconcile_server_subscriptions : Env → ℕ → ℕ → Db → Reconciled
unfolding reconcile_each finish_each nothing_pending
reconcile_server_subscriptions env now server_id db = finish_each env now (
    reconcile_each env now (some server_id)
      (select (λ (s : Subscription). any (λ (u : User). u.id == s.user_id) db.users && s.is_active)
        db.subscriptions)
      db nothing_pending)

-- `set_server_access_mode`
unfoldable pub set_server_access_mode : Env → ℕ → Server → Text → Db → Reconciled
unfolding reconcile_server_subscriptions
set_server_access_mode env now s access_mode db =
    reconcile_server_subscriptions env now s.id
      (record db { servers = write_server (record s { access_mode = access_mode }) db.servers })

-- `set_server_active`: the tables as it commits them first, and what follows.
unfoldable pub set_server_active : Env → ℕ → Server → Bool → Db → Db × Reconciled
unfolding reconcile_server_subscriptions
set_server_active env now s is_active db =
    let committed = record db {
      servers = write_server (record s { is_active = is_active }) db.servers;
    } in
    (committed, reconcile_server_subscriptions env now s.id committed)

-- `grant_user_access`, with the value that it returns.
unfoldable pub grant_user_access : Env → ℕ → Server → ℕ → Db → Bool × Reconciled
unfolding reconcile_user_subscriptions is_granted
grant_user_access env now s user_id db =
    if is_granted db.grants s.id user_id
    then (false, reconcile_user_subscriptions env now user_id db)
    else (
      true,
      reconcile_user_subscriptions env now user_id
          (record db { grants = db.grants ++ record { server_id = s.id; user_id = user_id } ∷ [] }),
    )

unfoldable pub without_grant : ℕ → ℕ → List ServerAccessGrant → List ServerAccessGrant
without_grant server_id user_id =
    select (λ (g : ServerAccessGrant). not (g.server_id == server_id && g.user_id == user_id))

-- `revoke_user_access`
unfoldable pub revoke_user_access : Env → ℕ → Server → ℕ → Db → Bool × Reconciled
unfolding reconcile_user_subscriptions is_granted without_grant
revoke_user_access env now s user_id db =
    if is_granted db.grants s.id user_id
    then (
      true,
      reconcile_user_subscriptions env now user_id
          (record db { grants = without_grant s.id user_id db.grants }),
    )
    else (false, reconcile_user_subscriptions env now user_id db)
