-- ===== src/Control/Db.antt =====
-- The tables that the control plane reads and writes (bot/src/models/), each as the list of its
-- rows. Times are microseconds since 1970 in UTC. A column is a field if the modelled code reads
-- or writes it.
use aegis_vpn.Base.{
  ℕ, ◌≡◌, ◌&&◌, arith, refl, Text, Option, none, some, List, [], ◌∷◌, Bool, ◌==◌, if◌then◌else◌, ap,
  ◌∙◌,
}
use aegis_vpn.Base.Int.{ℤ}
use aegis_vpn.Wire.{DesiredItem, Bytes}

pub record Server : Type 0 where
  pub id : ℕ
  pub host : Text
  pub port : ℕ
  pub public_key : Text
  pub short_id : Text
  pub agent_url : Text
  pub agent_token : Text
  pub control_mode : Text
  pub control_token_hash : Option Text
  pub control_cert_fingerprint : Option Text
  pub control_previous_token_hash : Option Text
  pub control_previous_cert_fingerprint : Option Text
  pub control_previous_credential_expires_at : Option ℕ
  pub desired_generation : ℕ
  pub applied_generation : ℕ
  pub applied_digest : Option Text
  pub control_last_seen_at : Option ℕ
  pub control_last_reconciled_at : Option ℕ
  pub control_last_error : Option Text
  pub control_agent_version : Option Text
  -- the list under "features" of `control_capabilities`
  pub features : Option (List Text)
  pub node_role : Text
  pub access_mode : Text
  pub subscription_group : Text
  pub is_active : Bool

pub record User : Type 0 where
  pub id : ℕ
  pub tg_id : ℕ
  pub username : Option Text
  pub language : Text
  pub is_banned : Bool
  pub trial_used : Bool
  pub conn_limit : Option ℤ

pub record Subscription : Type 0 where
  pub id : ℕ
  pub user_id : ℕ
  pub sub_token : Text
  pub client_uuid : Text
  pub plan_days : ℕ
  pub started_at : ℕ
  pub expires_at : ℕ
  pub is_active : Bool

pub record Device : Type 0 where
  pub id : ℕ
  pub subscription_id : ℕ
  pub uuid : Text
  pub is_active : Bool
  pub is_suspended : Bool

pub record SubscriptionServer : Type 0 where
  pub subscription_id : ℕ
  pub server_id : ℕ
  pub is_synced : Bool

pub record NodeSnapshot : Type 0 where
  pub server_id : ℕ
  pub generation : ℕ
  pub schema_version : ℕ
  pub digest : Text
  pub item_count : ℕ
  pub page_count : ℕ
  pub page_size : ℕ

pub record NodeSnapshotPage : Type 0 where
  pub server_id : ℕ
  pub generation : ℕ
  pub page_index : ℕ
  pub schema_version : ℕ
  pub page_digest : Text
  pub items : List DesiredItem

pub record NodeTelemetry : Type 0 where
  pub server_id : ℕ
  pub sequence : ℕ
  pub payload : Bytes
  pub received_at : ℕ

pub record CascadeRoute : Type 0 where
  pub id : ℕ
  pub label : Text
  pub entry_server_id : ℕ
  pub enabled : Bool
  pub revision : ℕ
  pub health_policy : List (Text × Text)
  pub transport_policy : List (Text × List Text)

pub record CascadeRouteExit : Type 0 where
  pub route_id : ℕ
  pub exit_server_id : ℕ
  pub position : ℕ
  pub service_uuid : Text
  pub server_name : Text
  pub xhttp_path : Text
  pub enabled : Bool

pub record CascadeRouteAck : Type 0 where
  pub route_id : ℕ
  pub server_id : ℕ
  pub revision : ℕ
  pub config_digest : Text
  pub generation : ℕ

pub record ServerAccessGrant : Type 0 where
  pub server_id : ℕ
  pub user_id : ℕ

pub record Payment : Type 0 where
  pub id : ℕ
  pub user_id : ℕ
  pub tg_payment_id : Text
  pub plan_days : ℕ
  pub rub_amount : Option ℕ
  pub status : Option Text

pub record Db : Type 0 where
  pub servers : List Server
  pub users : List User
  pub subscriptions : List Subscription
  pub devices : List Device
  pub links : List SubscriptionServer
  pub snapshots : List NodeSnapshot
  pub pages : List NodeSnapshotPage
  pub telemetry : List NodeTelemetry
  pub routes : List CascadeRoute
  pub route_exits : List CascadeRouteExit
  pub route_acks : List CascadeRouteAck
  pub grants : List ServerAccessGrant
  pub payments : List Payment

-- `session.get(Server, id)`
unfoldable pub find_server : ℕ → List Server → Option Server
find_server i [] = none
find_server i (s ∷ ss) = if s.id == i then some s else find_server i ss

-- Attributes of one row are assigned; the new row keeps its id.
unfoldable pub write_server : Server → List Server → List Server
write_server s [] = []
write_server s (t ∷ ss) = if t.id == s.id then s ∷ ss else t ∷ write_server s ss

-- `session.get(NodeTelemetry, id)`
unfoldable pub find_telemetry : ℕ → List NodeTelemetry → Option NodeTelemetry
find_telemetry i [] = none
find_telemetry i (t ∷ ts) = if t.server_id == i then some t else find_telemetry i ts

-- The row of its server is replaced, or added if there is none.
unfoldable pub write_telemetry : NodeTelemetry → List NodeTelemetry → List NodeTelemetry
write_telemetry t [] = t ∷ []
write_telemetry t (u ∷ us) = if u.server_id == t.server_id then t ∷ us else u ∷ write_telemetry t us

-- `session.get(NodeSnapshot, {"server_id": …, "generation": …})`
unfoldable pub find_snapshot : ℕ → ℕ → List NodeSnapshot → Option NodeSnapshot
find_snapshot i g [] = none
find_snapshot i g (s ∷ ss) =
    if s.server_id == i && s.generation == g then some s else find_snapshot i g ss

-- `session.get(NodeSnapshotPage, {"server_id": …, "generation": …, "page_index": …})`
unfoldable pub find_page : ℕ → ℕ → ℕ → List NodeSnapshotPage → Option NodeSnapshotPage
find_page i g n [] = none
find_page i g n (p ∷ ps) =
    if p.server_id == i && p.generation == g && p.page_index == n
    then some p
    else find_page i g n ps

pub find_server-write_self :
    (s t : Server) (ss : List Server)
    → find_server s.id ss ≡ some t
    → find_server s.id (write_server s ss) ≡ some s
unfolding find_server write_server
find_server-write_self s t [] h = cc
find_server-write_self s t (u ∷ us) h = ground (arith, find_server-write_self s t us)

pub find_server-write_ne :
    (i : ℕ) (s : Server) (ss : List Server)
    → ¬ (i ≡ s.id)
    → find_server i (write_server s ss) ≡ find_server i ss
unfolding find_server write_server
find_server-write_ne i s [] h = refl
find_server-write_ne i s (u ∷ us) h = ground (arith, find_server-write_ne i s us h)

pub find_telemetry-write_self :
    (t : NodeTelemetry) (ts : List NodeTelemetry)
    → find_telemetry t.server_id (write_telemetry t ts) ≡ some t
unfolding find_telemetry write_telemetry
find_telemetry-write_self t [] = ground arith
find_telemetry-write_self t (u ∷ us) = ground (arith, find_telemetry-write_self t us)

pub find_telemetry-write_ne :
    (i : ℕ) (t : NodeTelemetry) (ts : List NodeTelemetry)
    → ¬ (i ≡ t.server_id)
    → find_telemetry i (write_telemetry t ts) ≡ find_telemetry i ts
unfolding find_telemetry write_telemetry
find_telemetry-write_ne i t [] h = ground arith
find_telemetry-write_ne i t (u ∷ us) h = ground (arith, find_telemetry-write_ne i t us h)

-- The row found under an id has that id.
pub id-find_server : (i : ℕ) (ss : List Server) (s : Server) → find_server i ss ≡ some s → s.id ≡ i
unfolding find_server
id-find_server i [] s h = cc
id-find_server i (t ∷ ss) s h = ground (arith, id-find_server i ss s)

-- A written row is found under its id; the others are found as before.
pub find_server-write :
    (i : ℕ) (s t : Server) (ss : List Server)
    → find_server s.id ss ≡ some t
    → find_server i (write_server s ss) ≡ (if i == s.id then some s else find_server i ss)
find_server-write i s t ss h =
    ground (arith, find_server-write_self s t ss h, find_server-write_ne i s ss)

pub find_server_self :
    (i : ℕ) (ss : List Server) (s : Server)
    → find_server i ss ≡ some s
    → find_server s.id ss ≡ some s
find_server_self i ss s h = ap (λ k. find_server k ss) (id-find_server i ss s h) ∙ h
