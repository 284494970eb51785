-- ===== src/Delivery/Tests.antt =====
-- A download from the small world of Control/Sample: the first of the two endpoints is down.
use aegis_vpn.Base.{
  ℕ, zero, suc, ◌≡◌, refl, ◌≤◌, Text, codes, Option, none, some, [], ◌∷◌, true, arith, length, sym,
  ap, ◌∙◌, inl, inr, length-take, length-append, min, ◌+◌, mem_text, text_eq, ◌++◌, get_elem?, all,
  Bool,
}
use aegis_vpn.Base.Result.{Result, ok, err}
use mathlib.Core.Option
use aegis_vpn.Wire.{
  Codec, Decoded, SnapshotPage, Bytes, DesiredSnapshot, SnapshotManifest, item_valid,
}
use aegis_vpn.Control.Db.{find_page}
use aegis_vpn.Control.State.{page_row, paginate}
use aegis_vpn.Control.State.Pages.{IsServable}
use aegis_vpn.Control.Router.{get_snapshot_page, manifest_of}
use aegis_vpn.Control.Sample.{codec, published, zeros64, first, u_item, d_item}
use aegis_vpn.Agent.Client.{
  ControlClient, Network, Attempt, Request, download, unreachable, replied, page_request,
}
use aegis_vpn.Agent.Client.Uuids.{Distinct, uuids_of}
use aegis_vpn.Delivery.{
  DigestLaw, IsCarried, IsReachable, page_reply, sizes, items_digest, DesiredItem, known_schema,
}
use aegis_vpn.Delivery.Download.{download_delivers}

abbrev decoded : Result ℕ SnapshotPage → Option (Decoded SnapshotPage)
decoded (ok p) = some (record { schema_version = some p.schema_version; message = some p })
decoded (err e) = none

-- A page is known by its index.
abbrev read_page : Bytes → Option (Decoded SnapshotPage)
read_page [] = none
read_page (k ∷ ks) = decoded (get_snapshot_page 1 1 k published)

abbrev wire : Codec
wire = record codec { load_page = read_page }

abbrev near : Text
near = codes "https://a"

abbrev far : Text
far = codes "https://b"

abbrev answer_at : Bool → Request → Attempt
answer_at true (page_request g k) = replied (page_reply wire (get_snapshot_page 1 g k published))
answer_at b r = unreachable

abbrev net : Network
net request u = answer_at (text_eq u near) request

abbrev node_client : ControlClient
node_client = record {
  urls = far ∷ near ∷ [];
  max_page_bytes = 1000;
  max_snapshot_bytes = 5000;
  max_pages = 10;
  max_items = 100;
  agent_version = codes "0.1.0";
  capabilities = [];
  preferred_url = none;
}

length-zeros64 : length zeros64 ≡ 64
unfolding codes
length-zeros64 = refl

at_least : (n : ℕ) → min 64 (n + 64) ≡ 64
at_least n = omega arith

digests : DigestLaw wire
digests b =
    length-take 64 (b ++ zeros64)
    ∙ ap (min 64) (length-append b zeros64)
    ∙ ap (λ n. min 64 (length b + n)) length-zeros64
    ∙ at_least (length b)

near_known : mem_text near (far ∷ near ∷ []) ≡ true
unfolding mem_text text_eq codes
near_known = refl

answer-near :
    (g k : ℕ)
    → net (page_request g k) near ≡ replied (page_reply wire (get_snapshot_page 1 g k published))
unfolding text_eq codes
answer-near g k = refl

answer-far : (g k : ℕ) → net (page_request g k) far ≡ unreachable
unfolding text_eq codes
answer-far g k = refl

reach : IsReachable wire 1 published net node_client
reach = record {
  up = near;
  known = near_known;
  serves = answer-near;
  fair = λ g k. (inl (rw (answer-far g k) tt), (inr (answer-near g k), tt));
}

index-page :
    (k : ℕ) (p : SnapshotPage) → get_snapshot_page 1 1 k published ≡ ok p → k ≡ p.page_index
unfolding get_snapshot_page find_page
index-page k p e = ground (arith, e)

carried :
    (k : ℕ) (p : SnapshotPage) → get_snapshot_page 1 1 k published ≡ ok p → IsCarried wire 1000 p
carried k p e = record {
  reads_back =
      ap decoded (ap (λ i. get_snapshot_page 1 1 i published) (sym (index-page k p e)) ∙ e);
  fits = omega arith;
}

digest-first : first.digest ≡ items_digest wire (u_item ∷ d_item ∷ [])
unfolding aegis_vpn.Wire.items_digest codes
digest-first = refl

count-pages : 2 ≡ length (paginate {A = DesiredItem} 1 (u_item ∷ d_item ∷ []))
unfolding paginate
count-pages = refl

page-first :
    (k : ℕ)
    → find_page 1 1 k published.pages
      ≡ Option.map
          (page_row wire 1 1 1 k)
          (get_elem? (paginate {A = DesiredItem} 1 (u_item ∷ d_item ∷ [])) k)
unfolding paginate find_page page_row codes
page-first zero = refl
page-first (suc zero) = refl
page-first (suc (suc k)) = ground arith

abbrev servable : IsServable wire published.pages first
servable = record {
  items = u_item ∷ d_item ∷ [];
  digest_eq = digest-first;
  count_eq = refl;
  size_pos = omega arith;
  pages_eq = count-pages;
  page_at = page-first;
}

items-valid : all item_valid (u_item ∷ d_item ∷ []) ≡ true
unfolding item_valid
items-valid = refl

known-first : known_schema 1 ≡ true
unfolding aegis_vpn.Wire.known_schema
known-first = refl

sizes-first : sizes wire (paginate 1 (u_item ∷ d_item ∷ [])) ≡ 2
unfolding paginate codes
sizes-first = refl

small : sizes wire (paginate 1 (u_item ∷ d_item ∷ [])) ≤ 5000
small = rw sizes-first (omega arith)

items-Distinct : Distinct (uuids_of (u_item ∷ d_item ∷ []))
unfolding mem_text text_eq codes
items-Distinct = (refl, (refl, tt))

download_delivers_example :
    (c' : ControlClient) × (download wire net (manifest_of first) node_client ≡ (
      ok (
          some (record {
            schema_version = 1;
            generation = 1;
            digest = first.digest;
            items = u_item ∷ d_item ∷ [];
          })),
      c',
    ))
download_delivers_example =
    download_delivers wire digests 1 published net node_client reach first known-first (omega arith)
      carried servable refl items-valid items-Distinct (omega arith) (omega arith) small
