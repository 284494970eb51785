-- ===== src/Agent/Tests.antt =====
-- The client at concrete inputs.
use aegis_vpn.Base.{
  ◌≡◌, refl, Text, codes, none, some, [], ◌∷◌, true, text_eq, arith, inl, inr, mem_text, All,
  if◌then◌else◌, List, false, ◌++◌, get_elem?, min, ℕ, map, ◌*◌, length, ◌^◌, ◌+◌, ◌≤◌, max, ◌-◌,
}
use aegis_vpn.Base.Result.{ok}
use aegis_vpn.Wire.{
  Codec, SnapshotManifest, SnapshotPage, DesiredItem, DesiredSnapshot, client, known_schema,
  manifest_valid, page_valid, item_valid, digest_valid, exit_valid, items_digest, snapshot_valid,
}
use aegis_vpn.Agent.Client.{
  ControlClient, Network, Attempt, Request, RawControlResponse, sync, sync_request, page_request,
  replied, unreachable, request_with_failover, ordered_urls, try_urls, validated, download,
  accept_manifest, fetch_pages, fetch_page, accept_page, finish, note_uuids,
}
use aegis_vpn.Agent.Client.Failover.{IsFair, Answers, failover_available, failover-Answers}
use mathlib.Core.List.{Perm}
use aegis_vpn.Agent.ConnLimit.Newest.{IsOlder}
use aegis_vpn.Agent.ConnLimit.{Sample, Cycle, overflow, enforce_conn_limit_once}
use aegis_vpn.Agent.ConnLimit.Enforcement.{IsExcess, rule_after, overflow-kept, enforce_blocks}
use aegis_vpn.Agent.Loop.{
  Round, LoopState, Action, apply, news, run_round, start, supervise, answered, unanswered,
}
use aegis_vpn.Agent.Loop.Sequences.{
  History, IsReserved, Acknowledges, IsNoAck, reports, round-Acknowledges, History-IsReserved,
}
use aegis_vpn.Agent.Loop.Pauses.{supervise-doubles}
use aegis_vpn.Agent.Client.Soundness.{IsSound, sync-IsSound}

abbrev near : Text
near = codes "https://a"

abbrev far : Text
far = codes "https://b"

abbrev node_client : ControlClient
node_client = record {
  urls = far ∷ near ∷ [];
  max_page_bytes = 1000;
  max_snapshot_bytes = 5000;
  max_pages = 10;
  max_items = 100;
  agent_version = codes "0.1.0";
  capabilities = [];
  preferred_url = none;
}

abbrev zeros64 : Text
zeros64 = codes "0000000000000000000000000000000000000000000000000000000000000000"

abbrev item : DesiredItem
item = client (record { uuid = codes "u"; email = codes "user_3_sub_7"; expire_ms = 9 })

abbrev manifest : SnapshotManifest
manifest = record {
  schema_version = 1;
  generation = 4;
  digest = zeros64;
  item_count = 1;
  page_count = 1;
  page_size = 50;
}

abbrev page : SnapshotPage
page = record {
  schema_version = 1;
  generation = 4;
  page_index = 0;
  page_digest = zeros64;
  items = item ∷ [];
}

-- A codec that knows one manifest and one page.
abbrev codec : Codec
codec = record {
  dumps = λ is. [];
  sha256_hex = λ b. zeros64;
  dump_manifest = λ m. [];
  dump_page = λ p. [];
  load_manifest = λ b. some (record { schema_version = some 1; message = some manifest });
  load_page = λ b. some (record { schema_version = some 1; message = some page });
}

abbrev good : RawControlResponse
good = record { status = 200; body = 1 ∷ 2 ∷ [] }

abbrev busy : RawControlResponse
busy = record { status = 503; body = [] }

-- The first endpoint is overloaded, the second one answers.
abbrev net : Network
net request u = if text_eq u near then replied good else replied busy

abbrev snapshot : DesiredSnapshot
snapshot = record { schema_version = 1; generation = 4; digest = zeros64; items = item ∷ [] }

abbrev settled : ControlClient
settled = record node_client { preferred_url = some near }

sync_run : sync codec net 3 none node_client ≡ (ok (some snapshot), settled)
unfolding sync request_with_failover try_urls text_eq codes validated known_schema manifest_valid
    download accept_manifest fetch_pages fetch_page mem_text page_valid item_valid accept_page
    finish note_uuids ordered_urls digest_valid exit_valid items_digest snapshot_valid
sync_run = refl

sync-IsSound_example : IsSound codec 100 snapshot
sync-IsSound_example = sync-IsSound codec net 3 none node_client settled snapshot sync_run

answer-near : net (page_request 4 0) near ≡ replied good
unfolding text_eq codes
answer-near = refl

answer-far : net (page_request 4 0) far ≡ replied busy
unfolding text_eq codes
answer-far = refl

near_known : mem_text near (far ∷ near ∷ []) ≡ true
unfolding mem_text text_eq codes
near_known = refl

all-IsFair : All (IsFair net (page_request 4 0) 1000 good) (far ∷ near ∷ [])
all-IsFair = (inl (rw answer-far (omega arith, omega arith)), (inr answer-near, tt))

failover_available_example :
    (u : Text) × (request_with_failover net (page_request 4 0) 1000 node_client
      ≡ (ok good, record node_client { preferred_url = some u }))
failover_available_example =
    failover_available net (page_request 4 0) 1000 node_client good near (omega arith, omega arith)
      near_known answer-near all-IsFair

request_run : request_with_failover net (page_request 4 0) 1000 node_client ≡ (ok good, settled)
unfolding request_with_failover aegis_vpn.Agent.Client.try_urls text_eq codes
request_run = refl

failover-Answers_example :
    (u : Text) × Answers net (page_request 4 0) 1000 (ordered_urls node_client) good u
    × (settled ≡ record node_client { preferred_url = some u })
failover-Answers_example =
    failover-Answers net (page_request 4 0) 1000 node_client settled good request_run

abbrev addresses : List (Text × ℕ)
addresses = (codes "1.1.1.1", 10) ∷ (codes "2.2.2.2", 30) ∷ (codes "3.3.3.3", 20) ∷ []

overflow-kept_example :
    (kept : List (Text × ℕ)) × (blocked : List (Text × ℕ)) × Perm (kept ++ blocked) addresses
    × (overflow 2 1 addresses ≡ map (λ (ip : Text × ℕ). ip.0) blocked)
    × (length kept ≡ min (2 - 1) (length addresses))
    × All (λ k. All (IsOlder k) blocked) kept
overflow-kept_example = overflow-kept 2 1 addresses

abbrev sample : Sample
sample = record {
  online = codes "user_3_sub_7" ∷ [];
  hy2_counts = [];
  ips = λ email. some addresses;
}

abbrev cycle : Cycle
cycle = record {
  kicked = [];
  block_rule = some (codes "1.1.1.1" ∷ []);
  had_excess = true;
  blocked = 1;
}

cycle_run : enforce_conn_limit_once 0 ((3, 2) ∷ []) false sample ≡ some cycle
unfolding enforce_conn_limit_once mem_text codes text_eq aegis_vpn.Base.sort_by
cycle_run = refl

enforce_blocks_example :
    All (IsExcess 0 ((3, 2) ∷ []) sample) (rule_after cycle.block_rule [])
    × (cycle.had_excess ≡ false → rule_after cycle.block_rule [] ≡ [])
enforce_blocks_example =
    enforce_blocks 0 ((3, 2) ∷ []) false sample [] cycle (λ clean. refl) cycle_run

abbrev good_round : Round
good_round = record {
  sync = news snapshot;
  reconcile = λ s. some true;
  cached = record { schema_version = 1; generation = 0; digest = none; items = [] };
  pending = false;
  acks = answered;
  builds = true;
  saves = true;
  sends = answered;
}

round-Acknowledges_example :
    (first : List Action) × (later : List Action) × ((run_round apply good_round (start none)).0
      ≡ first ++ later)
    × Acknowledges apply good_round first
    × All IsNoAck later
round-Acknowledges_example = round-Acknowledges apply good_round (start none)

-- The report arrives, and its answer is lost.
abbrev lost_round : Round
lost_round = record good_round { sends = unanswered }

abbrev after_lost : LoopState
after_lost = (run_round apply lost_round (start none)).1

abbrev after_round : LoopState
after_round = (run_round apply good_round after_lost).1

history : History apply (start after_round.file) (
    reports (run_round apply good_round after_lost).0
    ++ reports (run_round apply lost_round (start none)).0
    ++ [])
unfolding run_round start
history =
    History.restart
      (History.round good_round (History.round lost_round (History.begin none) refl) refl)

History-IsReserved_example : IsReserved (start after_round.file) (
    reports (run_round apply good_round after_lost).0
    ++ reports (run_round apply lost_round (start none)).0
    ++ [])
History-IsReserved_example = History-IsReserved history

pause_run : get_elem? (supervise 1 (false ∷ false ∷ false ∷ [])) 2 ≡ some 4
unfolding supervise
pause_run = refl

supervise-doubles_example : 4 ≡ min 60 (1 * 2 ^ 2)
supervise-doubles_example =
    supervise-doubles 1 2 4 (false ∷ false ∷ false ∷ []) (omega arith) pause_run
