-- ===== src/Agent/Client/Soundness.antt =====
-- What the client has checked of a snapshot that `sync` returns, whatever the network did.
use aegis_vpn.Base.{
  ℕ, zero, suc, ◌+◌, ◌≤◌, ◌≡◌, refl, Text, Option, some, [], true, length, arith, text_eq_iff, inl,
  inr, ◌⊎◌, sym, ap, ◌∙◌,
}
use aegis_vpn.Base.Result.{Result, ok, err, Result-cases}
use aegis_vpn.Wire.{
  page_valid, SnapshotPage, manifest_valid, DesiredSnapshot, SnapshotManifest, Codec, items_digest,
  snapshot_valid,
}
use aegis_vpn.Agent.Client.Uuids.{note_uuids-append_some, Distinct, uuids_of, distinct}
use aegis_vpn.Agent.Client.{
  request_with_failover, page_request, validated, sync_request, Request, try_urls, ordered_urls,
  ControlClient, Network, Progress, protocol_error, ControlError, note_uuids, fetch_pages,
  fetch_page, accept_page, finish, download, sync, >>=-ok, accept_manifest, ◌>>=◌, nothing_yet,
  lift, >>=-inv, SnapshotPage,
}

-- One round of the loop.
pub fetch_pages-step :
    (codec : Codec) (net : Network) (m : SnapshotManifest) (n index : ℕ) (progress next : Progress)
    (c c' : ControlClient)
    → fetch_page codec net m index progress c ≡ (ok next, c')
    → fetch_pages codec net m (suc n) index progress c
      ≡ fetch_pages codec net m n (index + 1) next c'
unfolding fetch_pages
fetch_pages-step codec net m n index progress next c c' e =
    >>=-ok (fetch_page codec net m index progress) (fetch_pages codec net m n (index + 1)) c c' next
      e

-- The three parts of a download that succeed make one that does.
pub download-ok :
    (codec : Codec) (net : Network) (m : SnapshotManifest) (done : Progress) (c c' : ControlClient)
    (s : Option DesiredSnapshot)
    → accept_manifest c m ≡ ok m
    → fetch_pages codec net m m.page_count 0 nothing_yet c ≡ (ok done, c')
    → finish codec m done ≡ ok s
    → download codec net m c ≡ (ok s, c')
unfolding download
download-ok codec net m done c c' s accepted fetched finished =
    >>=-ok (lift (accept_manifest c m))
      (λ x. fetch_pages codec net x x.page_count 0 nothing_yet >>= λ progress.
        lift (finish codec x progress))
      c c m (ap (λ r. (r, c)) accepted)
    ∙ >>=-ok (fetch_pages codec net m m.page_count 0 nothing_yet)
        (λ progress. lift (finish codec m progress)) c c' done fetched
    ∙ ap (λ r. (r, c')) finished

accept_manifest-cases :
    (c : ControlClient) (m : SnapshotManifest)
    → (accept_manifest c m ≡ ok m) ⊎ (accept_manifest c m ≡ err protocol_error)
unfolding accept_manifest
accept_manifest-cases c m = ground arith

-- A download that returns has done all three.
pub download-inv :
    (codec : Codec) (net : Network) (m : SnapshotManifest) (c c' : ControlClient)
    (s : Option DesiredSnapshot)
    → download codec net m c ≡ (ok s, c')
    → (done : Progress) × (accept_manifest c m ≡ ok m)
      × (fetch_pages codec net m m.page_count 0 nothing_yet c ≡ (ok done, c'))
      × (finish codec m done ≡ ok s)
unfolding download
download-inv codec net m c c' s e =
    let pages = λ (x : SnapshotManifest). fetch_pages codec net x x.page_count 0 nothing_yet in
    let last = λ (x : SnapshotManifest) (progress : Progress). lift (finish codec x progress) in
    elim (accept_manifest-cases c m) [
      | inl accepted ↦
          let run =
            sym (
              >>=-ok (lift (accept_manifest c m)) (λ x. pages x >>= last x) c c m
                (ap (λ r. (r, c)) accepted))
            ∙ e in
          let (done, mid, fetched, finished) = >>=-inv (pages m) (last m) c c' s run in
          (
            done,
            accepted,
            fetched
                ∙ ap
                    (λ (r : Result ControlError (Option DesiredSnapshot) × ControlClient).
                      (ok done, r.1))
                    finished,
            ap (λ (r : Result ControlError (Option DesiredSnapshot) × ControlClient). r.0) finished,
          )
      | inr refused ↦ ground (arith, refused)
    ]

-- What one accepted page leaves as it was: the UUIDs seen are those of the items gathered.
abbrev IsGathered : Progress → Type 0
IsGathered p = note_uuids p.items [] ≡ some p.seen_client_uuids

accept_page-IsGathered :
    (codec : Codec) (max_snapshot_bytes : ℕ) (m : SnapshotManifest) (index : ℕ) (p : SnapshotPage)
    (progress next : Progress)
    → accept_page codec max_snapshot_bytes m index p progress ≡ ok next
    → IsGathered progress
    → IsGathered next
unfolding accept_page
accept_page-IsGathered codec max_snapshot_bytes m index p progress next e g =
    ground (arith, note_uuids-append_some progress.items p.items [] progress.seen_client_uuids g)

fetch_page-inv :
    (codec : Codec) (net : Network) (m : SnapshotManifest) (index : ℕ) (progress next : Progress)
    (c c' : ControlClient)
    → fetch_page codec net m index progress c ≡ (ok next, c')
    → (p : SnapshotPage) × (limit : ℕ) × (accept_page codec limit m index p progress ≡ ok next)
unfolding fetch_page
fetch_page-inv codec net m index progress next c c' e =
    let asked = request_with_failover net (page_request m.generation index) c.max_page_bytes c in
    elim (Result-cases asked.0) [
      | inl (r, replied_ok) ↦ elim (Result-cases (validated page_valid (codec.load_page r.body))) [
        | inl (p, read) ↦ (p, c.max_snapshot_bytes, ground (arith, replied_ok, read))
        | inr (x, unread) ↦ ground (arith, replied_ok, unread)
      ]
      | inr (x, failed) ↦ ground (arith, failed)
    ]

fetch_pages-IsGathered :
    (codec : Codec) (net : Network) (m : SnapshotManifest) (n index : ℕ) (progress done : Progress)
    (c c' : ControlClient)
    → fetch_pages codec net m n index progress c ≡ (ok done, c')
    → IsGathered progress
    → IsGathered done
unfolding fetch_pages
fetch_pages-IsGathered codec net m zero index progress done c c' e g = ground (arith, e)
fetch_pages-IsGathered codec net m (suc n) index progress done c c' e g =
    let (next, mid, one, rest) =
      >>=-inv (fetch_page codec net m index progress) (fetch_pages codec net m n (index + 1)) c c'
        done e in
    let (p, limit, accepted) = fetch_page-inv codec net m index progress next c mid one in
    fetch_pages-IsGathered codec net m n (index + 1) next done mid c' rest
      (accept_page-IsGathered codec limit m index p progress next accepted g)

-- What a returned snapshot satisfies.
pub record IsSound (codec : Codec) (max_items : ℕ) (s : DesiredSnapshot) : Type 0 where
  pub valid : snapshot_valid s ≡ true
  pub digest_eq : s.digest ≡ items_digest codec s.items
  pub within : length s.items ≤ max_items
  pub different : Distinct (uuids_of s.items)

finish-inv :
    (codec : Codec) (m : SnapshotManifest) (done : Progress) (s : DesiredSnapshot)
    → finish codec m done ≡ ok (some s)
    → (s.items ≡ done.items)
      × (s.digest ≡ items_digest codec s.items)
      × (length s.items ≡ m.item_count)
      × (snapshot_valid s ≡ true)
unfolding finish
finish-inv codec m done s e = ground (arith, text_eq_iff (items_digest codec done.items) m.digest)

accept_manifest-within :
    (c : ControlClient) (m : SnapshotManifest)
    → accept_manifest c m ≡ ok m
    → m.item_count ≤ c.max_items
unfolding accept_manifest
accept_manifest-within c m e = ground (arith, e)

download-IsSound :
    (codec : Codec) (net : Network) (m : SnapshotManifest) (c c' : ControlClient)
    (s : DesiredSnapshot)
    → download codec net m c ≡ (ok (some s), c')
    → IsSound codec c.max_items s
download-IsSound codec net m c c' s e =
    let (done, accepted, fetched, finished) = download-inv codec net m c c' (some s) e in
    let gathered =
      fetch_pages-IsGathered codec net m m.page_count 0 nothing_yet done c c' fetched
        (unfold note_uuids in refl) in
    let (same, digest_eq, counted, valid) = finish-inv codec m done s finished in
    record {
      valid = valid;
      digest_eq = digest_eq;
      within = rw (sym counted) at (accept_manifest-within c m accepted);
      different = rw (sym same) at (distinct done.items [] done.seen_client_uuids gathered).0;
    }

request-keeps :
    (net : Network) (r : Request) (b : ℕ) (c : ControlClient)
    → (request_with_failover net r b c).1.max_items ≡ c.max_items
unfolding request_with_failover
request-keeps net r b c = elim (Result-cases (try_urls net r b (ordered_urls c))) [
  | inl (a, e) ↦ ground (arith, e)
  | inr (x, e) ↦ ground (arith, e)
]

-- Whatever the endpoints answer, a snapshot that `sync` returns is valid, has the digest of its
-- items, has at most as many items as the client accepts, and lets no client UUID in twice.
pub sync-IsSound :
    (codec : Codec) (net : Network) (generation : ℕ) (digest : Option Text) (c c' : ControlClient)
    (s : DesiredSnapshot)
    → sync codec net generation digest c ≡ (ok (some s), c')
    → IsSound codec c.max_items s
unfolding sync
sync-IsSound codec net generation digest c c' s e =
    let request = sync_request generation digest c.agent_version c.capabilities in
    let asked = request_with_failover net request c.max_page_bytes c in
    let kept = request-keeps net request c.max_page_bytes c in
    elim (Result-cases asked.0) [
      | inl (r, replied_ok) ↦
          elim (Result-cases (validated manifest_valid (codec.load_manifest r.body))) [
            | inl (m, read) ↦
                rw kept at
                  (download-IsSound codec net m asked.1 c' s (ground (arith, replied_ok, read)))
            | inr (x, unread) ↦ ground (arith, replied_ok, unread)
          ]
      | inr (x, failed) ↦ ground (arith, failed)
    ]
