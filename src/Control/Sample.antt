-- ===== src/Control/Sample.antt =====
-- A small world in which the control plane runs: one node, one user with a subscription and a
-- device, and a second subscription that has ended.
use aegis_vpn.Base.{
  ℕ, ◌≡◌, refl, Text, codes, Option, none, some, List, [], ◌∷◌, ◌++◌, true, false, take,
}
use aegis_vpn.Base.Result.{ok}
use aegis_vpn.Wire.{DesiredItem, client, conn_limit, cascade_service, cascade_route, Codec, Bytes}
use aegis_vpn.Control.Db.{
  Server, User, Subscription, Device, SubscriptionServer, NodeSnapshot, NodeSnapshotPage, Db,
  CascadeRoute,
}
use aegis_vpn.Control.Cascade.{RouteHash}
use aegis_vpn.Control.Desired.{build_desired_items}
use aegis_vpn.Control.State.{publish_snapshot}

abbrev pub zeros64 : List ℕ
zeros64 = codes "0000000000000000000000000000000000000000000000000000000000000000"

abbrev pub item_bytes : List DesiredItem → Bytes
item_bytes [] = []
item_bytes (client c ∷ is) = c.uuid ++ item_bytes is
item_bytes (conn_limit l ∷ is) = codes "l" ++ item_bytes is
item_bytes (cascade_service s ∷ is) = codes "s" ++ item_bytes is
item_bytes (cascade_route r ∷ is) = codes "r" ++ item_bytes is

-- A codec for the tests: the texts are the UUIDs, and the hash pads them.
abbrev pub codec : Codec
codec = record {
  dumps = item_bytes;
  sha256_hex = λ b. take 64 (b ++ zeros64);
  dump_manifest = λ m. [];
  dump_page = λ p. p.page_index ∷ [];
  load_manifest = λ b. none;
  load_page = λ b. none;
}

abbrev pub hash : RouteHash
hash = λ r. zeros64

abbrev pub server : Server
server = record {
  id = 1;
  host = codes "n1";
  port = 443;
  public_key = codes "k";
  short_id = codes "s";
  agent_url = codes "a";
  agent_token = codes "t";
  control_mode = codes "pull";
  control_token_hash = some (codes "t");
  control_cert_fingerprint = some (codes "ab");
  control_previous_token_hash = none;
  control_previous_cert_fingerprint = none;
  control_previous_credential_expires_at = none;
  desired_generation = 0;
  applied_generation = 0;
  applied_digest = none;
  control_last_seen_at = none;
  control_last_reconciled_at = none;
  control_last_error = none;
  control_agent_version = none;
  features = none;
  node_role = codes "both";
  access_mode = codes "public";
  subscription_group = codes "safe";
  is_active = true;
}

abbrev pub subscription : Subscription
subscription = record {
  id = 7;
  user_id = 3;
  sub_token = codes "tu";
  client_uuid = codes "u";
  plan_days = 30;
  started_at = 0;
  expires_at = 9000;
  is_active = true;
}

abbrev pub ended : Subscription
ended = record {
  id = 8;
  user_id = 3;
  sub_token = codes "te";
  client_uuid = codes "e";
  plan_days = 30;
  started_at = 0;
  expires_at = 10;
  is_active = true;
}

abbrev pub device : Device
device = record {
  id = 2;
  subscription_id = 7;
  uuid = codes "d";
  is_active = true;
  is_suspended = false;
}

abbrev pub world : Db
world = record {
  servers = server ∷ [];
  users =
      record {
        id = 3;
        tg_id = 33;
        username = none;
        language = codes "ru";
        is_banned = false;
        trial_used = false;
        conn_limit = none;
      }
      ∷ [];
  subscriptions = subscription ∷ ended ∷ [];
  devices = device ∷ [];
  links =
      record { subscription_id = 7; server_id = 1; is_synced = false }
      ∷ record { subscription_id = 8; server_id = 1; is_synced = false }
      ∷ [];
  snapshots = [];
  pages = [];
  telemetry = [];
  routes = [];
  route_exits = [];
  route_acks = [];
  grants = [];
  payments = [];
}

-- The items of the node: the device before the subscription, by their e-mails' order.
abbrev pub u_item : DesiredItem
u_item = client (record { uuid = codes "u"; email = codes "user_3_sub_7"; expire_ms = 9 })

abbrev pub d_item : DesiredItem
d_item = client (record { uuid = codes "d"; email = codes "user_3_sub_7_dev_2"; expire_ms = 9 })

pub items-world : build_desired_items hash world server 100 ≡ u_item ∷ d_item ∷ []
unfolding build_desired_items aegis_vpn.Base.sort_by aegis_vpn.Control.Cascade.build_cascade_items
    aegis_vpn.Base.text_eq codes aegis_vpn.Base.Decimal.show aegis_vpn.Base.text_leb
items-world = refl

abbrev pub padded : Text → Text
padded t = take 64 (t ++ zeros64)

abbrev pub first : NodeSnapshot
first = record {
  server_id = 1;
  generation = 1;
  schema_version = 1;
  digest = padded (codes "ud");
  item_count = 2;
  page_count = 2;
  page_size = 1;
}

abbrev pub published : Db
published = record world {
  servers = record server { desired_generation = 1 } ∷ [];
  snapshots = first ∷ [];
  pages =
      record {
        server_id = 1;
        generation = 1;
        page_index = 0;
        schema_version = 1;
        page_digest = padded (codes "u");
        items = u_item ∷ [];
      }
      ∷ record {
        server_id = 1;
        generation = 1;
        page_index = 1;
        schema_version = 1;
        page_digest = padded (codes "d");
        items = d_item ∷ [];
      }
      ∷ [];
}

pub publish-world : publish_snapshot codec hash 1 100 1 world ≡ ok (first, published)
unfolding publish_snapshot aegis_vpn.Control.Db.find_server aegis_vpn.Control.State.latest_snapshot
    aegis_vpn.Control.State.add_snapshot codes build_desired_items aegis_vpn.Control.State.paginate
    aegis_vpn.Control.Db.write_server aegis_vpn.Control.State.page_rows aegis_vpn.Base.sort_by
    aegis_vpn.Control.Cascade.build_cascade_items aegis_vpn.Base.text_eq aegis_vpn.Base.Decimal.show
    aegis_vpn.Base.text_leb
publish-world = refl

-- A second node, and a cascade route from the first to it that both have acknowledged.
abbrev pub entry_node : Server
entry_node = record server { features = some (codes "cascade-v2" ∷ []) }

abbrev pub exit_node : Server
exit_node = record entry_node { id = 2; host = codes "n2" }

abbrev pub route : CascadeRoute
route = record {
  id = 5;
  label = codes "r";
  entry_server_id = 1;
  enabled = true;
  revision = 3;
  health_policy = [];
  transport_policy = [];
}

abbrev pub cascade_world : Db
cascade_world = record world {
  servers = entry_node ∷ exit_node ∷ [];
  routes = route ∷ [];
  route_exits =
      record {
        route_id = 5;
        exit_server_id = 2;
        position = 0;
        service_uuid = codes "x";
        server_name = codes "n";
        xhttp_path = codes "/";
        enabled = true;
      }
      ∷ [];
  route_acks =
      record { route_id = 5; server_id = 1; revision = 3; config_digest = zeros64; generation = 4 }
      ∷ record {
        route_id = 5;
        server_id = 2;
        revision = 3;
        config_digest = zeros64;
        generation = 9;
      }
      ∷ [];
}
