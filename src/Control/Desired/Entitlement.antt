-- ===== src/Control/Desired/Entitlement.antt =====
-- Who is let in at a node: the client items are those of the active subscriptions that are linked to
-- it, and of their devices (bot/src/control/state.py).
use mathlib.Core.List.{Memᴰ}
use mathlib.Core.Path.{subst}
use aegis_vpn.Base.{
  ℕ, ◌<◌, ◌≡◌, refl, ◌⊎◌, inl, inr, List, [], ◌∷◌, true, false, map, select, All, sort_by, arith,
  All-append, Bool-cases, sym,
}
use aegis_vpn.Base.Members.{
  Mem-append_left, Mem-append_right, Mem-map, Mem-select, All-select_where, All-map, Mem-sort_by,
  All-sort_by,
}
use aegis_vpn.Base.Dict.{Dict}
use aegis_vpn.Wire.{DesiredItem, client, conn_limit, cascade_service, cascade_route}
use aegis_vpn.Control.Db.{Server, Subscription, Device, Db}
use aegis_vpn.Control.Cascade.{RouteHash}
use aegis_vpn.Control.Cascade.Kinds.{cascade_items-All}
use aegis_vpn.Control.Desired.{
  expiry_ms, is_linked, is_eligible, subscription_item, device_item, live_device,
  subscription_items, all_subscription_items, limit_item, conn_limits, unsorted_items,
  build_desired_items, item_leb,
}

-- A subscription that counts at the node: linked to it, active, and not expired.
pub record Counts (db : Db) (node now : ℕ) (s : Subscription) : Type 0 where
  pub stored : Memᴰ s db.subscriptions
  pub linked : is_linked db.links node s.id ≡ true
  pub active : s.is_active ≡ true
  pub unexpired : now < s.expires_at

-- A device of the subscription that may connect.
pub record MayConnect (db : Db) (s : Subscription) (d : Device) : Type 0 where
  pub stored : Memᴰ d db.devices
  pub owner : d.subscription_id ≡ s.id
  pub active : d.is_active ≡ true
  pub unsuspended : d.is_suspended ≡ false

-- A client item is of a subscription that counts, or of one of its devices that may connect, and
-- ends with that subscription.
abbrev pub IsEntitled : Db → ℕ → ℕ → DesiredItem → Type 0
IsEntitled db node now (client c) =
    (s : Subscription) × Counts db node now s
    × (c.expire_ms ≡ expiry_ms s.expires_at)
    × ((c.uuid ≡ s.client_uuid) ⊎ ((d : Device) × MayConnect db s d × (c.uuid ≡ d.uuid)))
IsEntitled db node now (conn_limit l) = Unit
IsEntitled db node now (cascade_service c) = Unit
IsEntitled db node now (cascade_route r) = Unit

eligible-Counts :
    (db : Db) (node now : ℕ) (s : Subscription)
    → Memᴰ s db.subscriptions
    → is_eligible db node now s ≡ true
    → Counts db node now s
unfolding is_eligible
eligible-Counts db node now s m e = record {
  stored = m;
  linked = ground (arith, e);
  active = ground (arith, e);
  unexpired = ground (arith, e);
}

subscription_items-IsEntitled :
    (db : Db) (node now : ℕ) (s : Subscription)
    → Counts db node now s
    → All (IsEntitled db node now) (subscription_items db s)
unfolding subscription_items subscription_item device_item live_device
subscription_items-IsEntitled db node now s c = (
  (s, c, refl, inl refl),
  All-map (MayConnect db s) (IsEntitled db node now) (device_item s)
      (λ d may. (s, c, refl, inr (d, may, refl))) (select (live_device s) db.devices)
      (All-select_where (MayConnect db s) (live_device s) db.devices (λ d m live. record {
        stored = m;
        owner = ground (arith, live);
        active = ground (arith, live);
        unsuspended = ground (arith, live);
      })),
)

all_items-IsEntitled :
    (db : Db) (node now : ℕ) (ss : List Subscription)
    → All (Counts db node now) ss
    → All (IsEntitled db node now) (all_subscription_items db ss)
unfolding all_subscription_items
all_items-IsEntitled db node now [] h = tt
all_items-IsEntitled db node now (s ∷ ss) h =
    All-append (IsEntitled db node now) (subscription_items db s) (all_subscription_items db ss)
      (subscription_items-IsEntitled db node now s h.0) (all_items-IsEntitled db node now ss h.1)

limits-IsEntitled :
    (db : Db) (node now : ℕ) (d : Dict ℕ) → All (IsEntitled db node now) (map limit_item d)
unfolding limit_item
limits-IsEntitled db node now [] = tt
limits-IsEntitled db node now (p ∷ d) = (tt, limits-IsEntitled db node now d)

active_items :
    (hash : RouteHash) (db : Db) (server : Server) (now : ℕ)
    → server.is_active ≡ true
    → build_desired_items hash db server now ≡ sort_by item_leb (unsorted_items hash db server now)
unfolding build_desired_items
active_items hash db server now active = ground (arith, active)

inactive_items :
    (hash : RouteHash) (db : Db) (server : Server) (now : ℕ)
    → server.is_active ≡ false
    → build_desired_items hash db server now ≡ []
unfolding build_desired_items
inactive_items hash db server now inactive = ground (arith, inactive)

-- Every client item of a node is of a stored subscription that is linked to it, active and not
-- expired, with the UUID of that subscription or of one of its devices that is active and not
-- suspended, and ends when the subscription does.
pub desired-IsEntitled :
    (hash : RouteHash) (db : Db) (server : Server) (now : ℕ)
    → All (IsEntitled db server.id now) (build_desired_items hash db server now)
unfolding unsorted_items
desired-IsEntitled hash db server now = elim (Bool-cases server.is_active) [
  | inl active ↦
      let counting = select (is_eligible db server.id now) db.subscriptions in
      let subscribed = all_items-IsEntitled db server.id now counting (
        All-select_where (Counts db server.id now) (is_eligible db server.id now) db.subscriptions
          (eligible-Counts db server.id now)) in
      let limited = limits-IsEntitled db server.id now (conn_limits db.users counting []) in
      let cascaded =
        cascade_items-All (IsEntitled db server.id now) (λ c. tt) (λ r. tt) hash db server in
      subst (All (IsEntitled db server.id now)) (sym (active_items hash db server now active)) (
        All-sort_by item_leb (IsEntitled db server.id now) (unsorted_items hash db server now) (
          All-append (IsEntitled db server.id now) _ _ subscribed
            (All-append (IsEntitled db server.id now) _ _ limited cascaded)))
  | inr inactive ↦
      subst (All (IsEntitled db server.id now)) (sym (inactive_items hash db server now inactive))
        tt
]

Mem-all_items :
    (db : Db) (s : Subscription) (i : DesiredItem) (ss : List Subscription)
    → Memᴰ s ss
    → Memᴰ i (subscription_items db s)
    → Memᴰ i (all_subscription_items db ss)
unfolding all_subscription_items
Mem-all_items db s i [] m h = elim m [ ]
Mem-all_items db s i (t ∷ ts) (Memᴰ.head e) h =
    Mem-append_left (all_subscription_items db ts)
      (subst (λ u. Memᴰ i (subscription_items db u)) e h)
Mem-all_items db s i (t ∷ ts) (Memᴰ.tail m) h =
    Mem-append_right (subscription_items db t) (Mem-all_items db s i ts m h)

Counts-eligible :
    (db : Db) (node now : ℕ) (s : Subscription)
    → Counts db node now s
    → is_eligible db node now s ≡ true
unfolding is_eligible
Counts-eligible db node now s c = ground (arith, c.linked, c.active, c.unexpired)

-- What a subscription that counts puts into the items is in the list that the node gets.
Mem-desired :
    (hash : RouteHash) (db : Db) (server : Server) (now : ℕ) (s : Subscription) (i : DesiredItem)
    → server.is_active ≡ true
    → Counts db server.id now s
    → Memᴰ i (subscription_items db s)
    → Memᴰ i (build_desired_items hash db server now)
unfolding unsorted_items
Mem-desired hash db server now s i active c m =
    subst (Memᴰ i) (sym (active_items hash db server now active)) (
      Mem-sort_by item_leb i (unsorted_items hash db server now) (
        Mem-append_left _ (
          Mem-all_items db s i (select (is_eligible db server.id now) db.subscriptions)
            (Mem-select (is_eligible db server.id now) s db.subscriptions
              (Counts-eligible db server.id now s c) c.stored)
            m)))

-- At an active node, for each stored subscription that is linked to it, active and not expired, the
-- item of the subscription is among the items, and so is that of each of its devices that is active
-- and not suspended.
pub desired_complete :
    (hash : RouteHash) (db : Db) (server : Server) (now : ℕ) (s : Subscription)
    → server.is_active ≡ true
    → Counts db server.id now s
    → Memᴰ (subscription_item s) (build_desired_items hash db server now)
      × ((d : Device)
          → MayConnect db s d
          → Memᴰ (device_item s d) (build_desired_items hash db server now))
unfolding subscription_items live_device
desired_complete hash db server now s active c = (
  Mem-desired hash db server now s (subscription_item s) active c (Memᴰ.head refl),
  λ d may. Mem-desired hash db server now s (device_item s d) active c (
      Memᴰ.tail (
        Mem-map (device_item s) (
          Mem-select (live_device s) d db.devices
            (ground (arith, may.owner, may.active, may.unsuspended)) may.stored))),
)
