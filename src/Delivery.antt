-- ===== src/Delivery.antt =====
-- The two ends of the control channel together: what the control plane publishes and serves
-- (bot/src/control/) is what the node's client downloads (agent/app/control_client.py).
pub mod Pages
pub mod Download
mod Tests
use aegis_vpn.Base.{
  ℕ, zero, suc, ◌+◌, ◌≤◌, ◌<◌, ◌≡◌, refl, Text, Option, none, some, List, [], ◌∷◌, ◌++◌, true,
  false, All, length, mem_text, all,
}
use aegis_vpn.Base.Result.{Result, ok, err}
use aegis_vpn.Wire.{
  SnapshotPage, DesiredItem, Codec, Decoded, items_digest, item_valid, known_schema,
}
use aegis_vpn.Control.Db.{NodeSnapshot, Db}
use aegis_vpn.Control.Router.{get_snapshot_page}
use aegis_vpn.Control.State.Pages.{IsServable}
use aegis_vpn.Agent.Client.{
  ControlClient, Network, Request, RawControlResponse, page_request, replied, note_uuids,
}
use aegis_vpn.Agent.Client.Failover.{IsFair}

-- The response of the page endpoint.
abbrev pub page_reply : Codec → Result ℕ SnapshotPage → RawControlResponse
page_reply codec (ok p) = record { status = 200; body = codec.dump_page p }
page_reply codec (err status) = record { status = status; body = [] }

-- What SHA-256 is relied on for: a digest in hexadecimal has 64 digits.
abbrev pub DigestLaw : Codec → Type 0
DigestLaw codec = (b : List ℕ) → length (codec.sha256_hex b) ≡ 64

-- What JSON is relied on for with a page: it is read back as it was written, and its text is within
-- the bytes that the client accepts.
pub record IsCarried (codec : Codec) (max_bytes : ℕ) (p : SnapshotPage) : Type 0 where
  pub reads_back :
      codec.load_page (codec.dump_page p)
      ≡ some (record { schema_version = some p.schema_version; message = some p })
  pub fits : length (codec.dump_page p) ≤ max_bytes

-- One of the client's endpoints reaches the control plane of the node, whose tables are `db`; each
-- of the others reaches it too or is down.
pub record IsReachable (codec : Codec) (node : ℕ) (db : Db) (net : Network) (c : ControlClient)
    : Type 0 where
  pub up : Text
  pub known : mem_text up c.urls ≡ true
  pub serves :
      (g k : ℕ)
      → net (page_request g k) up ≡ replied (page_reply codec (get_snapshot_page node g k db))
  pub fair :
      (g k : ℕ)
      → All
          (IsFair net
            (page_request g k)
            c.max_page_bytes
            (page_reply codec (get_snapshot_page node g k db)))
          c.urls

abbrev pub sizes : Codec → List (List DesiredItem) → ℕ
sizes codec [] = 0
sizes codec (p ∷ ps) = length (codec.dumps p) + sizes codec ps
