-- ===== src/Wire.antt =====
-- What the control endpoint and the node exchange: bot/src/control/schemas.py and its twin
-- agent/app/control_models.py, with the limits that pydantic enforces on the node. JSON encoding
-- and SHA-256 are libraries: the record `Codec` stands for them.
use aegis_vpn.Base.{ℕ, Text, Option, List, Bool, true, ◌&&◌, ◌||◌, leb, ◌==◌, length, all}

pub record DesiredClient : Type 0 where
  pub uuid : Text
  pub email : Text
  pub expire_ms : ℕ

pub record DesiredConnLimit : Type 0 where
  pub user_id : ℕ
  pub limit : ℕ

pub record DesiredCascadeService : Type 0 where
  pub route_id : ℕ
  pub revision : ℕ
  pub config_digest : Text
  pub uuid : Text
  pub email : Text

pub record DesiredCascadeExit : Type 0 where
  pub position : ℕ
  pub host : Text
  pub port : ℕ
  pub uuid : Text
  pub public_key : Text
  pub short_id : Text
  pub server_name : Text
  pub xhttp_path : Text

-- The health policy is a JSON object; the program reads texts from it.
pub record DesiredCascadeRoute : Type 0 where
  pub route_id : ℕ
  pub revision : ℕ
  pub config_digest : Text
  pub label : Text
  pub inbound_tags : List Text
  pub exits : List DesiredCascadeExit
  pub health_policy : List (Text × Text)

pub data DesiredItem : Type 0 where
  client : DesiredClient → DesiredItem
  conn_limit : DesiredConnLimit → DesiredItem
  cascade_service : DesiredCascadeService → DesiredItem
  cascade_route : DesiredCascadeRoute → DesiredItem

pub record SnapshotManifest : Type 0 where
  pub schema_version : ℕ
  pub generation : ℕ
  pub digest : Text
  pub item_count : ℕ
  pub page_count : ℕ
  pub page_size : ℕ

pub record SnapshotPage : Type 0 where
  pub schema_version : ℕ
  pub generation : ℕ
  pub page_index : ℕ
  pub page_digest : Text
  pub items : List DesiredItem

pub record DesiredSnapshot : Type 0 where
  pub schema_version : ℕ
  pub generation : ℕ
  pub digest : Text
  pub items : List DesiredItem

-- `Literal[1, 2]`
unfoldable pub known_schema : ℕ → Bool
known_schema v = v == 1 || v == 2

-- `Field(min_length=64, max_length=64)`
unfoldable pub digest_valid : Text → Bool
digest_valid d = length d == 64

unfoldable pub exit_valid : DesiredCascadeExit → Bool
exit_valid e = leb 1 e.port && leb e.port 65535

unfoldable pub item_valid : DesiredItem → Bool
unfolding digest_valid exit_valid
item_valid (client c) = true
item_valid (conn_limit l) = true
item_valid (cascade_service s) =
    leb 1 s.route_id && leb 1 s.revision && digest_valid s.config_digest
item_valid (cascade_route r) =
    leb 1 r.route_id
    && leb 1 r.revision
    && digest_valid r.config_digest
    && leb 1 (length r.inbound_tags)
    && leb 1 (length r.exits)
    && all exit_valid r.exits

unfoldable pub manifest_valid : SnapshotManifest → Bool
unfolding known_schema digest_valid
manifest_valid m =
    known_schema m.schema_version
    && leb 1 m.generation
    && digest_valid m.digest
    && leb 1 m.page_size

unfoldable pub page_valid : SnapshotPage → Bool
unfolding known_schema digest_valid
page_valid p =
    known_schema p.schema_version
    && leb 1 p.generation
    && digest_valid p.page_digest
    && all item_valid p.items

unfoldable pub snapshot_valid : DesiredSnapshot → Bool
unfolding known_schema digest_valid
snapshot_valid s =
    known_schema s.schema_version
    && leb 1 s.generation
    && digest_valid s.digest
    && all item_valid s.items

abbrev pub Bytes : Type 0
Bytes = List ℕ

-- A decoded body: the value under `schema_version`, if the body is an object that has one, and
-- the body read at the fields of the message, if it has them all at their types.
pub record Decoded (M : Type 0) : Type 0 where
  pub schema_version : Option ℕ
  pub message : Option M

-- `json` and `hashlib`. The loaders give `none` where `json.loads` raises.
pub record Codec : Type 0 where
  pub dumps : List DesiredItem → Bytes
  pub sha256_hex : Bytes → Text
  pub dump_manifest : SnapshotManifest → Bytes
  pub dump_page : SnapshotPage → Bytes
  pub load_manifest : Bytes → Option (Decoded SnapshotManifest)
  pub load_page : Bytes → Option (Decoded SnapshotPage)

-- `hashlib.sha256(canonical_json(items)).hexdigest()`
unfoldable pub items_digest : Codec → List DesiredItem → Text
items_digest c items = c.sha256_hex (c.dumps items)
