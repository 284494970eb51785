-- ===== src/Delivery/Download.antt =====
-- The download of a whole snapshot.
use mathlib.Core.Option
use mathlib.Core.List.{append-nil, append_assoc}
use aegis_vpn.Base.{
  ℕ, suc, ◌+◌, ◌≤◌, ◌≡◌, refl, Text, Option, some, List, [], ◌∷◌, ◌++◌, true, length, all, arith,
  concat, get_elem?, all-append, and-true, sym, ◌∙◌, text_eq_iff, ap,
}
use aegis_vpn.Base.Result.{ok}
use aegis_vpn.Wire.{
  SnapshotPage, DesiredItem, Codec, items_digest, item_valid, known_schema, snapshot_valid,
}
use aegis_vpn.Control.Db.{NodeSnapshot, Db, find_page}
use aegis_vpn.Control.State.{page_row, paginate}
use aegis_vpn.Control.State.Paging.{length-paginate, concat-paginate, no_page}
use aegis_vpn.Control.Router.{get_snapshot_page, manifest_of}
use aegis_vpn.Agent.Client.{
  ControlClient, Network, note_uuids, Progress, fetch_pages, accept_manifest, finish, download,
  nothing_yet,
}
use aegis_vpn.Agent.Client.Soundness.{fetch_pages-step, download-ok}
use aegis_vpn.Agent.Client.Uuids.{
  note_uuids-append, Distinct, uuids_of, note_uuids-total, Fresh-nil,
}
use aegis_vpn.Delivery.{DigestLaw, IsCarried, IsReachable, sizes, IsServable}
use aegis_vpn.Delivery.Pages.{served, fetch-served}

module _ (codec : Codec) (digests : DigestLaw codec) (node : ℕ) (db : Db) (net : Network)
    (c : ControlClient) (reach : IsReachable codec node db net c) (n : NodeSnapshot)
    (schema : known_schema n.schema_version ≡ true) (positive : 1 ≤ n.generation)
    (carried : (k : ℕ) (p : SnapshotPage)
      → get_snapshot_page node n.generation k db ≡ ok p
      → IsCarried codec c.max_page_bytes p) where
  -- The pages `rest` are stored from `index` on.
  abbrev StoredFrom : ℕ → List (List DesiredItem) → Type 0
  StoredFrom index rest =
      (j k : ℕ)
      → j ≡ index + k
      → find_page node n.generation j db.pages
        ≡ Option.map (page_row codec node n.generation n.schema_version j) (get_elem? rest k)

  page-stored :
      (index : ℕ) (p : List DesiredItem) (ps : List (List DesiredItem))
      → StoredFrom index (p ∷ ps)
      → all item_valid p ≡ true
      → get_snapshot_page node n.generation index db ≡ ok (served codec n index p)
  unfolding get_snapshot_page page_row
  page-stored index p ps stored valid = ground (arith, stored index 0 (omega arith), schema, valid)

  fetch-rest :
      (rest : List (List DesiredItem)) (index : ℕ) (progress : Progress) (out : List Text)
      (preferred : Option Text)
      → StoredFrom index rest
      → all item_valid (concat rest) ≡ true
      → note_uuids (concat rest) progress.seen_client_uuids ≡ some out
      → progress.total_bytes + sizes codec rest ≤ c.max_snapshot_bytes
      → (done : Progress) × (c' : ControlClient) × (fetch_pages codec net
            (manifest_of n)
            (length rest)
            index
            progress
            (record c { preferred_url = preferred })
          ≡ (ok done, c'))
        × (done.items ≡ progress.items ++ concat rest)
  fetch-rest [] index progress out preferred stored valid fresh room = (
    progress,
    record c { preferred_url = preferred },
    unfold fetch_pages in refl,
    sym (append-nil progress.items),
  )
  fetch-rest (p ∷ ps) index progress out preferred stored valid fresh room =
      let (mid, first, later) =
        note_uuids-append p (concat ps) progress.seen_client_uuids out fresh in
      let both =
        and-true (all item_valid p) (all item_valid (concat ps))
          (sym (all-append item_valid p (concat ps)) ∙ valid) in
      let (u, run) =
        fetch-served codec digests node db net c reach n schema positive index p progress mid
          preferred (page-stored index p ps stored both.0)
          (carried index (served codec n index p) (page-stored index p ps stored both.0)) both.0
          first (omega arith) in
      let step : Progress = record {
        items = progress.items ++ p;
        total_bytes = progress.total_bytes + length (codec.dumps p);
        seen_client_uuids = mid;
      } in
      let (done, c', rest_run, items_eq) =
        fetch-rest ps (index + 1) step out (some u) (λ j k e. stored j (suc k) (omega arith)) both.1
          later (omega arith) in
      (
        done,
        c',
        fetch_pages-step codec net (manifest_of n) (length ps) index progress step
              (record c { preferred_url = preferred }) (record c { preferred_url = some u }) run
            ∙ rest_run,
        items_eq ∙ append_assoc progress.items p (concat ps),
      )

  accepted-manifest :
      (served_n : IsServable codec db.pages n)
      → n.page_count ≤ c.max_pages
      → n.item_count ≤ c.max_items
      → accept_manifest c (manifest_of n) ≡ ok (manifest_of n)
  unfolding accept_manifest manifest_of
  accepted-manifest s pages_fit items_fit = ground (
    arith,
    s.count_eq,
    s.pages_eq,
    length-paginate s.items n.page_size s.size_pos,
    no_page n.page_size s.size_pos,
  )

  finished-at :
      (progress : Progress)
      → n.digest ≡ items_digest codec progress.items
      → n.item_count ≡ length progress.items
      → all item_valid progress.items ≡ true
      → finish codec (manifest_of n) progress
        ≡ ok (
            some (record {
              schema_version = n.schema_version;
              generation = n.generation;
              digest = n.digest;
              items = progress.items;
            }))
  unfolding finish manifest_of snapshot_valid
  finished-at progress d l valid = ground (
    arith,
    schema,
    digests (codec.dumps progress.items),
    text_eq_iff (items_digest codec progress.items) n.digest,
  )

  finished :
      (items : List DesiredItem) (progress : Progress)
      → progress.items ≡ items
      → n.digest ≡ items_digest codec items
      → n.item_count ≡ length items
      → all item_valid items ≡ true
      → finish codec (manifest_of n) progress
        ≡ ok (
            some (record {
              schema_version = n.schema_version;
              generation = n.generation;
              digest = n.digest;
              items = items;
            }))
  finished items progress e d l valid =
      finished-at progress (rw e d) (rw e l) (rw e valid)
      ∙ ap
          (λ l. ok (
            some (record {
              schema_version = n.schema_version;
              generation = n.generation;
              digest = n.digest;
              items = l;
            })))
          e

  stored-pages :
      (served_n : IsServable codec db.pages n)
      → n.server_id ≡ node
      → StoredFrom 0 (paginate n.page_size served_n.items)
  stored-pages s here j k e =
      let at_zero : j ≡ k = omega arith in rw (at_zero, sym here) (s.page_at k)

  -- A stored snapshot of the node that can be served, with a known schema version, a positive
  -- generation, valid items and no client UUID twice, arrives at the node whole and unchanged, with
  -- its generation, digest, schema version and the items in their order, if it is within the
  -- client's limits on pages, items and bytes, each page that the endpoint serves is read back as
  -- written and within the page limit, digests have 64 digits, and one of the client's endpoints
  -- reaches the control plane while each other one does too or is down.
  pub download_delivers :
      (served_n : IsServable codec db.pages n)
      → n.server_id ≡ node
      → all item_valid served_n.items ≡ true
      → Distinct (uuids_of served_n.items)
      → n.page_count ≤ c.max_pages
      → n.item_count ≤ c.max_items
      → sizes codec (paginate n.page_size served_n.items) ≤ c.max_snapshot_bytes
      → (c' : ControlClient) × (download codec net (manifest_of n) c ≡ (
        ok (
            some (record {
              schema_version = n.schema_version;
              generation = n.generation;
              digest = n.digest;
              items = served_n.items;
            })),
        c',
      ))
  download_delivers s here valid different pages_fit items_fit bytes_fit =
      let pages = paginate n.page_size s.items in
      let counted : (manifest_of n).page_count ≡ length pages = unfold manifest_of in s.pages_eq in
      let whole = concat-paginate s.items n.page_size s.size_pos in
      let (out, fresh) = note_uuids-total s.items [] different (Fresh-nil (uuids_of s.items)) in
      let (done, c', run, items_eq) =
        fetch-rest pages 0 nothing_yet out c.preferred_url (stored-pages s here) (rw whole valid)
          (rw whole fresh) (omega arith) in
      (
        c',
        download-ok codec net (manifest_of n) done c c' _ (accepted-manifest s pages_fit items_fit)
            (ap (λ k. fetch_pages codec net (manifest_of n) k 0 nothing_yet c) counted ∙ run)
            (finished s.items done (items_eq ∙ whole) s.digest_eq s.count_eq valid),
      )
