-- ===== src/Control/Desired.antt =====
-- `build_desired_items` of bot/src/control/state.py: the items of one node, in their fixed order.
pub mod Entitlement
use aegis_vpn.Base.{
  ℕ, ◌/◌, Text, codes, Option, none, some, List, [], ◌∷◌, ◌++◌, Bool, true, false, ◌==◌, ◌&&◌, ◌||◌,
  not, ltb, if◌then◌else◌, select, map, any, text_eq, text_leb, sort_by,
}
use aegis_vpn.Base.Int.{max_zero}
use aegis_vpn.Base.Decimal.{show, show_padded}
use aegis_vpn.Base.Dict.{Dict, insert}
use aegis_vpn.Wire.{DesiredItem, client, conn_limit, cascade_service, cascade_route}
use aegis_vpn.Control.Db.{Server, User, Subscription, Device, SubscriptionServer, Db}
use aegis_vpn.Control.Cascade.{RouteHash, build_cascade_items}

-- `int(value.timestamp() * 1000)` of a naive UTC time.
unfoldable pub expiry_ms : ℕ → ℕ
expiry_ms expires_at = expires_at / 1000

-- `_item_sort_key`
unfoldable pub item_sort_key : DesiredItem → Text × Text × Text
item_sort_key (client c) = (codes "client", c.email, c.uuid)
item_sort_key (conn_limit l) = (codes "conn_limit", show_padded l.user_id, [])
item_sort_key (cascade_service s) = (codes "cascade_service", show_padded s.route_id, s.uuid)
item_sort_key (cascade_route r) = (codes "cascade_route", show_padded r.route_id, [])

-- The order of a tuple of three texts.
abbrev key_leb : Text × Text × Text → Text × Text × Text → Bool
key_leb (a, b, c) (x, y, z) =
    if text_eq a x then (if text_eq b y then text_leb c z else text_leb b y) else text_leb a x

unfoldable pub item_leb : DesiredItem → DesiredItem → Bool
unfolding item_sort_key
item_leb a b = key_leb (item_sort_key a) (item_sort_key b)

-- The join: the subscription is linked to the server.
unfoldable pub is_linked : List SubscriptionServer → ℕ → ℕ → Bool
is_linked links server_id subscription_id =
    any (λ l. l.server_id == server_id && l.subscription_id == subscription_id) links

unfoldable pub is_eligible : Db → ℕ → ℕ → Subscription → Bool
unfolding is_linked
is_eligible db server_id now s =
    is_linked db.links server_id s.id && s.is_active && ltb now s.expires_at

-- `f"user_{subscription.user_id}_sub_{subscription.id}"`
unfoldable pub client_email : Subscription → Text
client_email s = codes "user_" ++ show s.user_id ++ codes "_sub_" ++ show s.id

unfoldable pub subscription_item : Subscription → DesiredItem
unfolding client_email expiry_ms
subscription_item s =
    client
      (record { uuid = s.client_uuid; email = client_email s; expire_ms = expiry_ms s.expires_at })

unfoldable pub device_item : Subscription → Device → DesiredItem
unfolding client_email expiry_ms
device_item s d = client (record {
  uuid = d.uuid;
  email = client_email s ++ codes "_dev_" ++ show d.id;
  expire_ms = expiry_ms s.expires_at;
})

-- The devices of the subscription that the loop does not skip.
unfoldable pub live_device : Subscription → Device → Bool
live_device s d = d.subscription_id == s.id && d.is_active && not d.is_suspended

unfoldable pub subscription_items : Db → Subscription → List DesiredItem
unfolding subscription_item device_item live_device
subscription_items db s =
    subscription_item s ∷ map (device_item s) (select (live_device s) db.devices)

all_subscription_items : Db → List Subscription → List DesiredItem
unfolding subscription_items
all_subscription_items db [] = []
all_subscription_items db (s ∷ ss) = subscription_items db s ++ all_subscription_items db ss

-- The override of one user, if the user has one.
note_limit : List User → ℕ → Dict ℕ → Dict ℕ
note_limit [] i d = d
note_limit (u ∷ us) i d =
    if u.id == i
    then elim u.conn_limit [ none ↦ d | some l ↦ insert i (max_zero l) d ]
    else note_limit us i d

conn_limits : List User → List Subscription → Dict ℕ → Dict ℕ
unfolding note_limit
conn_limits us [] d = d
conn_limits us (s ∷ ss) d = conn_limits us ss (note_limit us s.user_id d)

limit_item : ℕ × ℕ → DesiredItem
limit_item (user_id, limit) = conn_limit (record { user_id = user_id; limit = limit })

-- The items before the sort.
unfoldable pub unsorted_items : RouteHash → Db → Server → ℕ → List DesiredItem
unfolding is_eligible all_subscription_items conn_limits limit_item
unsorted_items hash db server now =
    let subscriptions = select (is_eligible db server.id now) db.subscriptions in
    all_subscription_items db subscriptions
    ++ (map limit_item (conn_limits db.users subscriptions [])
        ++ build_cascade_items hash db server)

-- `build_desired_items` of a server that exists.
unfoldable pub build_desired_items : RouteHash → Db → Server → ℕ → List DesiredItem
unfolding unsorted_items item_leb
build_desired_items hash db server now =
    if server.is_active then sort_by item_leb (unsorted_items hash db server now) else []
