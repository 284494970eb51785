-- ===== src/Agent/Client.antt =====
-- agent/app/control_client.py: requests with failover over several endpoints, and the download of a
-- snapshot. The HTTP library is the parameter `Network`; within one call of `sync` no request is
-- sent twice to one endpoint, so a function of the request and the endpoint says all it can do.
-- What a request does to the preferred endpoint stays when a later one raises, so a call returns
-- the client beside its result.
pub mod Failover
pub mod Uuids
pub mod Soundness
use aegis_vpn.Base.{
  ℕ, zero, suc, ◌+◌, ◌-◌, ◌/◌, Text, codes, Option, none, some, List, [], ◌∷◌, ◌++◌, Bool, true,
  false, ◌==◌, ◌&&◌, ◌||◌, not, ltb, leb, if◌then◌else◌, map, select, any, all, length, text_eq,
  mem_text, starts_with, opt_text_eq, ◌≡◌, inl, arith, inr,
}
use aegis_vpn.Base.Result.{Result, ok, err, Result-cases}
use aegis_vpn.Wire.{
  DesiredItem, client, conn_limit, cascade_service, cascade_route, SnapshotManifest, SnapshotPage,
  DesiredSnapshot, Codec, Decoded, Bytes, items_digest, known_schema, manifest_valid, page_valid,
  snapshot_valid,
}

-- `ControlProtocolError`, `ControlRequestError` and `ValueError`
pub data ControlError : Type 0 where
  protocol_error request_error value_error : ControlError

pub record RawControlResponse : Type 0 where
  pub status : ℕ
  pub body : Bytes

-- How one call of the requester ends: with a response, with the byte limit passed, or with one of
-- the errors that the loop catches.
pub data Attempt : Type 0 where
  replied : RawControlResponse → Attempt
  too_large : Attempt
  unreachable : Attempt

pub data Request : Type 0 where
  sync_request : ℕ → Option Text → Text → List Text → Request
  page_request : ℕ → ℕ → Request
  ack_request : ℕ → Text → Bool → Option Text → Request
  telemetry_request : ℕ → Bytes → Request

abbrev pub Network : Type 0
Network = Request → Text → Attempt

pub record ControlClient : Type 0 where
  pub urls : List Text
  pub max_page_bytes : ℕ
  pub max_snapshot_bytes : ℕ
  pub max_pages : ℕ
  pub max_items : ℕ
  pub agent_version : Text
  pub capabilities : List Text
  pub preferred_url : Option Text

-- What `str.strip` removes.
is_space : ℕ → Bool
is_space c =
    (leb 9 c && leb c 13)
    || (leb 28 c && leb c 32)
    || c == 0x85
    || c == 0xa0
    || c == 0x1680
    || (leb 0x2000 c && leb c 0x200a)
    || c == 0x2028
    || c == 0x2029
    || c == 0x202f
    || c == 0x205f
    || c == 0x3000

-- `url.rstrip("/")`
rstrip_slash : Text → Text
rstrip_slash [] = []
rstrip_slash (c ∷ cs) =
    let rest = rstrip_slash cs in
    elim rest [ [] ↦ if c == b'/' then [] else c ∷ [] | d ∷ ds ↦ c ∷ d ∷ ds ]

unfoldable pub normalize_urls : List Text → List Text
unfolding is_space rstrip_slash
normalize_urls urls = map rstrip_slash (select (λ u. not (all is_space u)) urls)

-- `ControlClient.__init__`, as far as it decides.
unfoldable pub make_client :
    List Text → ℕ → ℕ → ℕ → ℕ → Text → List Text → Result ControlError ControlClient
unfolding normalize_urls
make_client urls max_page_bytes max_snapshot_bytes max_pages max_items agent_version capabilities =
    let normalized = normalize_urls urls in
    if leb (length normalized) 0
    then err value_error
    else if any (λ u. not (starts_with (codes "https://") u)) normalized
    then err value_error
    else if ltb max_page_bytes 1 || ltb max_snapshot_bytes max_page_bytes
    then err value_error
    else if ltb max_pages 1 || ltb max_items 1
    then err value_error
    else ok (record {
      urls = normalized;
      max_page_bytes = max_page_bytes;
      max_snapshot_bytes = max_snapshot_bytes;
      max_pages = max_pages;
      max_items = max_items;
      agent_version = agent_version;
      capabilities = capabilities;
      preferred_url = none;
    })

abbrev pub Call : Type 0 → Type 0
Call A = ControlClient → Result ControlError A × ControlClient

infixl 5 ◌>>=◌
abbrev pub ◌>>=◌ : {A B : Type 0} → Call A → (A → Call B) → Call B
◌>>=◌ m f c = let (r, c') = m c in elim r [ ok a ↦ f a c' | err e ↦ (err e, c') ]

-- A call that returns hands its value and its client on.
pub >>=-ok :
    {A B : Type 0} (m : Call A) (f : A → Call B) (c c' : ControlClient) (a : A)
    → m c ≡ (ok a, c')
    → (m >>= f) c ≡ f a c'
>>=-ok m f c c' a e = ground (arith, e)

-- If a chain returned, both of its parts did.
pub >>=-inv :
    {A B : Type 0} (m : Call A) (f : A → Call B) (c c' : ControlClient) (b : B)
    → (m >>= f) c ≡ (ok b, c')
    → (a : A) × (mid : ControlClient) × (m c ≡ (ok a, mid)) × (f a mid ≡ (ok b, c'))
>>=-inv m f c c' b e = elim (Result-cases (m c).0) [
  | inl (a, run) ↦ (a, (m c).1, ground (arith, run), ground (arith, run))
  | inr (x, failed) ↦ ground (arith, failed)
]

abbrev pub lift : {A : Type 0} → Result ControlError A → Call A
lift r c = (r, c)

unfoldable pub ordered_urls : ControlClient → List Text
ordered_urls c = elim c.preferred_url [
  | none ↦ c.urls
  | some u ↦ if mem_text u c.urls then u ∷ select (λ v. not (text_eq v u)) c.urls else c.urls
]

-- The loop over the endpoints: the accepted response, and the endpoint that gave it.
unfoldable pub try_urls :
    Network → Request → ℕ → List Text → Result ControlError (RawControlResponse × Text)
try_urls net request max_bytes [] = err request_error
try_urls net request max_bytes (u ∷ us) = elim (net request u) [
  | too_large ↦ err protocol_error
  | unreachable ↦ try_urls net request max_bytes us
  | replied r ↦
      if ltb max_bytes (length r.body)
      then err protocol_error
      else if leb 500 r.status
      then try_urls net request max_bytes us
      else ok (r, u)
]

-- `_request_with_failover`
unfoldable pub request_with_failover : Network → Request → ℕ → Call RawControlResponse
unfolding ordered_urls
request_with_failover net request max_bytes c =
    elim (try_urls net request max_bytes (ordered_urls c)) [
      | err e ↦ (err e, c)
      | ok (r, u) ↦ (ok r, record c { preferred_url = some u })
    ]

-- `_parse_json`, `_validate_schema_version` and the validation of the message.
unfoldable pub validated : {M : Type 0} → (M → Bool) → Option (Decoded M) → Result ControlError M
validated valid none = err protocol_error
validated valid (some d) = elim d.schema_version [
  | none ↦ err protocol_error
  | some v ↦
      if known_schema v
      then elim d.message [
        | none ↦ err protocol_error
        | some m ↦ if valid m then ok m else err protocol_error
      ]
      else err protocol_error
]

expected_pages : SnapshotManifest → ℕ
expected_pages m = if m.item_count == 0 then 0 else (m.item_count + m.page_size - 1) / m.page_size

-- The checks on the manifest.
unfoldable pub accept_manifest :
    ControlClient → SnapshotManifest → Result ControlError SnapshotManifest
unfolding expected_pages
accept_manifest c m =
    if ltb c.max_pages m.page_count
    then err protocol_error
    else if ltb c.max_items m.item_count
    then err protocol_error
    else if not (m.page_count == expected_pages m)
    then err protocol_error
    else ok m

-- What the loop over the pages has gathered.
pub record Progress : Type 0 where
  pub items : List DesiredItem
  pub total_bytes : ℕ
  pub seen_client_uuids : List Text

abbrev pub nothing_yet : Progress
nothing_yet = record { items = []; total_bytes = 0; seen_client_uuids = [] }

note_uuid : Text → List Text → Option (List Text)
note_uuid u seen = if mem_text u seen then none else some (u ∷ seen)

-- `none` where a client UUID comes twice.
unfoldable pub note_uuids : List DesiredItem → List Text → Option (List Text)
unfolding note_uuid
note_uuids [] seen = some seen
note_uuids (client i ∷ is) seen = elim (note_uuid i.uuid seen) [
  | none ↦ none
  | some seen' ↦ note_uuids is seen'
]
note_uuids (cascade_service i ∷ is) seen = elim (note_uuid i.uuid seen) [
  | none ↦ none
  | some seen' ↦ note_uuids is seen'
]
note_uuids (conn_limit i ∷ is) seen = note_uuids is seen
note_uuids (cascade_route i ∷ is) seen = note_uuids is seen

is_page_of : SnapshotManifest → ℕ → SnapshotPage → Bool
is_page_of m index p =
    p.schema_version == m.schema_version && p.generation == m.generation && p.page_index == index

-- The checks on one page, and what it adds.
unfoldable pub accept_page :
    Codec → ℕ → SnapshotManifest → ℕ → SnapshotPage → Progress → Result ControlError Progress
unfolding is_page_of note_uuids items_digest
accept_page codec max_snapshot_bytes m index p progress =
    if not (is_page_of m index p)
    then err protocol_error
    else if not (text_eq (items_digest codec p.items) p.page_digest)
    then err protocol_error
    else elim (note_uuids p.items progress.seen_client_uuids) [
      | none ↦ err protocol_error
      | some seen ↦
          let total = progress.total_bytes + length (codec.dumps p.items) in
          if ltb max_snapshot_bytes total
          then err protocol_error
          else ok (record {
            items = progress.items ++ p.items;
            total_bytes = total;
            seen_client_uuids = seen;
          })
    ]

-- One page: its request, its validation and its checks.
unfoldable pub fetch_page : Codec → Network → SnapshotManifest → ℕ → Progress → Call Progress
fetch_page codec net m index progress c =
    (request_with_failover net (page_request m.generation index) c.max_page_bytes >>= λ r.
    if not (r.status == 200)
    then lift (err request_error)
    else lift (validated page_valid (codec.load_page r.body)) >>= λ p.
        lift (accept_page codec c.max_snapshot_bytes m index p progress))
      c

-- The loop: `n` pages are left, the next one is `index`.
unfoldable pub fetch_pages : Codec → Network → SnapshotManifest → ℕ → ℕ → Progress → Call Progress
fetch_pages codec net m zero index progress = lift (ok progress)
fetch_pages codec net m (suc n) index progress =
    fetch_page codec net m index progress >>= fetch_pages codec net m n (index + 1)

-- The checks after the loop.
unfoldable pub finish :
    Codec → SnapshotManifest → Progress → Result ControlError (Option DesiredSnapshot)
unfolding items_digest
finish codec m progress =
    let snapshot : DesiredSnapshot = record {
      schema_version = m.schema_version;
      generation = m.generation;
      digest = m.digest;
      items = progress.items;
    } in
    if not (length progress.items == m.item_count)
    then err protocol_error
    else if not (text_eq (items_digest codec progress.items) m.digest)
    then err protocol_error
    else if snapshot_valid snapshot
    then ok (some snapshot)
    else err protocol_error

-- The download of the snapshot that a manifest names.
unfoldable pub download : Codec → Network → SnapshotManifest → Call (Option DesiredSnapshot)
download codec net manifest c =
    (lift (accept_manifest c manifest) >>= λ m.
    fetch_pages codec net m m.page_count 0 nothing_yet >>= λ progress.
    lift (finish codec m progress))
      c

-- `ControlClient.sync`; `none` means that there is no news.
unfoldable pub sync : Codec → Network → ℕ → Option Text → Call (Option DesiredSnapshot)
sync codec net generation digest c =
    (request_with_failover net (sync_request generation digest c.agent_version c.capabilities)
          c.max_page_bytes
        >>= λ r.
            if r.status == 204
            then lift (ok none)
            else if not (r.status == 200)
            then lift (err request_error)
            else lift (validated manifest_valid (codec.load_manifest r.body))
              >>= download codec net)
      c

-- `ack` and `send_telemetry`: a status other than 200 raises.
unfoldable pub ack : Network → ℕ → Text → Bool → Option Text → Call Unit
ack net generation digest success error =
    request_with_failover net (ack_request generation digest success error) 65536 >>= λ r.
    lift (if r.status == 200 then ok tt else err request_error)

unfoldable pub send_telemetry : Network → ℕ → Bytes → Call Unit
send_telemetry net sequence payload =
    request_with_failover net (telemetry_request sequence payload) 65536 >>= λ r.
    lift (if r.status == 200 then ok tt else err request_error)
