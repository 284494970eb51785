-- ===== src/Delivery/Pages.antt =====
-- One page, and then the rest of the pages, as the client fetches them.
use aegis_vpn.Base.{
  ℕ, ◌+◌, ◌≤◌, ◌≡◌, Text, Option, some, List, ◌++◌, true, length, all, arith, text_eq_refl, ◌∙◌, ap,
}
use aegis_vpn.Base.Result.{ok}
use aegis_vpn.Wire.{
  SnapshotPage, DesiredItem, Codec, items_digest, item_valid, known_schema, page_valid,
}
use aegis_vpn.Control.Db.{NodeSnapshot, Db}
use aegis_vpn.Control.Router.{get_snapshot_page, manifest_of}
use aegis_vpn.Agent.Client.{
  ControlClient, Network, page_request, replied, note_uuids, Progress, fetch_page, accept_page,
  validated,
}
use aegis_vpn.Agent.Client.Failover.{failover_available}
use aegis_vpn.Delivery.{DigestLaw, IsCarried, IsReachable, page_reply}

-- A page of a snapshot as the endpoint sends it.
abbrev pub served : Codec → NodeSnapshot → ℕ → List DesiredItem → SnapshotPage
served codec n index items = record {
  schema_version = n.schema_version;
  generation = n.generation;
  page_index = index;
  page_digest = items_digest codec items;
  items = items;
}

module _ (codec : Codec) (digests : DigestLaw codec) (node : ℕ) (db : Db) (net : Network)
    (c : ControlClient) (reach : IsReachable codec node db net c) (n : NodeSnapshot)
    (schema : known_schema n.schema_version ≡ true) (positive : 1 ≤ n.generation) where
  served-valid :
      (index : ℕ) (items : List DesiredItem)
      → all item_valid items ≡ true
      → page_valid (served codec n index items) ≡ true
  unfolding page_valid items_digest
  served-valid index items h = ground (arith, schema, digests (codec.dumps items))

  validated-served :
      (index : ℕ) (items : List DesiredItem)
      → IsCarried codec c.max_page_bytes (served codec n index items)
      → all item_valid items ≡ true
      → validated page_valid (codec.load_page (codec.dump_page (served codec n index items)))
        ≡ ok (served codec n index items)
  unfolding validated
  validated-served index items carried h =
      rw (carried.reads_back, schema, served-valid index items h)

  accept-served :
      (index : ℕ) (items : List DesiredItem) (progress : Progress) (seen : List Text)
      → note_uuids items progress.seen_client_uuids ≡ some seen
      → progress.total_bytes + length (codec.dumps items) ≤ c.max_snapshot_bytes
      → accept_page codec c.max_snapshot_bytes
          (manifest_of n)
          index
          (served codec n index items)
          progress
        ≡ ok (record {
          items = progress.items ++ items;
          total_bytes = progress.total_bytes + length (codec.dumps items);
          seen_client_uuids = seen;
        })
  unfolding accept_page manifest_of
  accept-served index items progress seen e fits =
      ground (arith, e, text_eq_refl (items_digest codec items))

  pub fetch-served :
      (index : ℕ) (items : List DesiredItem) (progress : Progress) (seen : List Text)
      (preferred : Option Text)
      → get_snapshot_page node n.generation index db ≡ ok (served codec n index items)
      → IsCarried codec c.max_page_bytes (served codec n index items)
      → all item_valid items ≡ true
      → note_uuids items progress.seen_client_uuids ≡ some seen
      → progress.total_bytes + length (codec.dumps items) ≤ c.max_snapshot_bytes
      → (u : Text) × (fetch_page codec net
            (manifest_of n)
            index
            progress
            (record c { preferred_url = preferred })
          ≡ (
            ok (record {
              items = progress.items ++ items;
              total_bytes = progress.total_bytes + length (codec.dumps items);
              seen_client_uuids = seen;
            }),
            record c { preferred_url = some u },
          ))
  unfolding fetch_page manifest_of
  fetch-served index items progress seen preferred page carried valid fresh room =
      let page_sent = served codec n index items in
      let (u, run) =
        failover_available net (page_request n.generation index) c.max_page_bytes
          (record c { preferred_url = preferred }) (page_reply codec (ok page_sent)) reach.up
          (omega arith, carried.fits) reach.known
          (reach.serves n.generation index ∙ ap (λ r. replied (page_reply codec r)) page)
          (rw page at (reach.fair n.generation index)) in
      (
        u,
        ground (
          arith,
          run,
          validated-served index items carried valid,
          accept-served index items progress seen fresh room,
        ),
      )
