-- ===== src/Agent/Xray.antt =====
-- agent/app/xray.py: the Xray configuration as the agent reads and edits it, and the record of a
-- client. A key of a JSON object that the agent never looks at is in `rest`, as its text; a key with
-- the value null counts as absent.
use aegis_vpn.Base.{
  ℕ, ◌+◌, Text, codes, Option, none, some, List, [], Bool, false, ◌&&◌, leb, map, select, text_eq,
  is_empty, if◌then◌else◌,
}

-- An entry of an inbound's `settings.clients`.
pub record ClientRecord : Type 0 where
  pub id : Option Text
  pub email : Option Text
  pub flow : Option Text
  pub rest : Text

-- `network` is that of `streamSettings`, and `clients` that of `settings`.
pub record Inbound : Type 0 where
  pub tag : Option Text
  pub port : Option ℕ
  pub protocol : Option Text
  pub network : Option Text
  pub clients : Option (List ClientRecord)
  pub rest : Text

-- The body of an outbound: of the shape that the agent writes, or another's.
pub data OutboundBody : Type 0 where
  other_outbound : Text → OutboundBody
  vless_exit :
      (address : Text) (port : ℕ) (uuid public_key short_id server_name path : Text) → OutboundBody

pub record Outbound : Type 0 where
  pub tag : Option Text
  pub body : OutboundBody

pub data RuleBody : Type 0 where
  other_rule : Text → RuleBody
  inbound_rule : (inbound_tags : List Text) → RuleBody

pub record Rule : Type 0 where
  pub balancer_tag : Option Text
  pub body : RuleBody

pub data BalancerBody : Type 0 where
  other_balancer : Text → BalancerBody
  least_ping : (selector : List Text) → BalancerBody

pub record Balancer : Type 0 where
  pub tag : Option Text
  pub body : BalancerBody

pub record Routing : Type 0 where
  pub rules : Option (List Rule)
  pub balancers : Option (List Balancer)
  pub rest : Text

pub data Observatory : Type 0 where
  other_observatory : Text → Observatory
  probes : (subjects : List Text) (url interval : Text) → Observatory

pub record Config : Type 0 where
  pub inbounds : List Inbound
  pub outbounds : Option (List Outbound)
  pub routing : Option Routing
  pub observatory : Option Observatory
  pub rest : Text

-- `value or default`, of a text that may be absent.
abbrev pub text_or : Option Text → Text → Text
text_or none default = default
text_or (some t) default = if is_empty t then default else t

unfoldable pub is_vless : Inbound → Bool
is_vless inbound = elim inbound.protocol [ none ↦ false | some p ↦ text_eq p (codes "vless") ]

unfoldable pub list_vless_inbounds : Config → List Inbound
unfolding is_vless
list_vless_inbounds config = select is_vless config.inbounds

pub data Transport : Type 0 where
  tcp grpc xhttp : Transport

-- ASCII `str.lower`
lower : ℕ → ℕ
lower c = if leb b'A' c && leb c b'Z' then c + 32 else c

unfoldable pub get_transport_type : Inbound → Transport
unfolding lower
get_transport_type inbound =
    let network = map lower (text_or inbound.network (codes "tcp")) in
    if text_eq network (codes "grpc")
    then grpc
    else if text_eq network (codes "xhttp")
    then xhttp
    else tcp

abbrev vision : Text
vision = codes "xtls-rprx-vision"

-- `record["flow"]` of the clients of an inbound.
unfoldable pub flow_of : Transport → Option Text
unfolding codes
flow_of tcp = some vision
flow_of grpc = none
flow_of xhttp = none

unfoldable pub build_client_record : Text → Text → Inbound → ClientRecord
unfolding get_transport_type flow_of
build_client_record uuid email inbound = record {
  id = some uuid;
  email = some email;
  flow = flow_of (get_transport_type inbound);
  rest = [];
}
