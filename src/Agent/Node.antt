-- ===== src/Agent/Node.antt =====
-- agent/app/reconcile.py, agent/app/hysteria.py: the node's files, and the journal of revocations
-- that are still to be carried out. The files are in the state; `World` says how each call on them,
-- on Xray and on Hysteria ends. A set of texts is a list without repetition.
use aegis_vpn.Base.{
  Text, Option, none, some, List, [], ◌∷◌, ◌++◌, map, Bool, true, false, ◌&&◌, ◌||◌, not, select,
  all, mem_text, is_empty, text_leb, sort_by, if◌then◌else◌, concat,
}
use aegis_vpn.Base.Int.{ℤ}
use aegis_vpn.Base.Dict.{get, of_items}
use aegis_vpn.Agent.Loop.{AppliedState}
use aegis_vpn.Agent.ConnLimit.{Overrides}
use aegis_vpn.Agent.Xray.{Config, Inbound, ClientRecord, list_vless_inbounds}
use aegis_vpn.Agent.Cascade.{list_or_nil, has_any}

-- The file of the pending revocations.
pub data Journal : Type 0 where
  journal_missing journal_broken : Journal
  journal : (emails : List Text) → Journal

-- What a call does to Xray, in the order of the calls.
pub data Call : Type 0 where
  adds : (tag : Option Text) → ClientRecord → Call
  removes : (tag email : Text) → Call
  reloads : Call
  kicks : List Text → Call

-- The node: its files (`config` is `none` if it cannot be read), the overrides and Hysteria's users
-- in memory, and the calls that have been made, the last one first.
pub record NodeState : Type 0 where
  pub config : Option Config
  pub applied : Option AppliedState
  pub pending : Journal
  pub overrides : Overrides
  pub hy2_clients : List (Text × Text)
  pub calls : List Call

pub data Write : Type 0 where
  write_journal write_remaining write_config write_overrides write_applied : Write

-- How `_atomic_write_json` and `_atomic_write_text` end: they return; or they raise after the file has
-- been replaced, when the directory cannot be synced; or they raise before that.
pub data WriteEnd : Type 0 where
  saved replaced not_replaced : WriteEnd

-- How the calls end: how a write ends, whether Xray adds or removes a client, whether it
-- answers after a reload, and whether Hysteria closes sessions; and the settings.
pub record World : Type 0 where
  pub writes : Write → WriteEnd
  pub xray_adds : Inbound → ClientRecord → Bool
  pub xray_removes : (tag email : Text) → Bool
  pub xray_ready : Bool
  pub hysteria_kicks : List Text → Bool
  pub hy2_enabled : Bool
  pub xray_live_delta_limit : ℤ

pub data Failure : Type 0 where
  config_unreadable config_not_written journal_invalid journal_not_written : Failure
  cascade_rejected live_failed sessions_left state_not_saved : Failure

-- A call that changes the node returns or raises, and leaves the node either way.
pub data Outcome (A : Type 0) : Type 0 where
  done : NodeState → A → Outcome A
  raised : NodeState → Failure → Outcome A

abbrev pub and_then : {A B : Type 0} → Outcome A → (NodeState → A → Outcome B) → Outcome B
and_then (done n a) f = f n a
and_then (raised n e) f = raised n e

-- A write of a file, with the node if the file is replaced and if it is not.
unfoldable pub write_file : WriteEnd → NodeState → NodeState → Failure → Outcome Unit
write_file saved after before e = done after tt
write_file replaced after before e = raised after e
write_file not_replaced after before e = raised before e

unfoldable pub load_applied_state : Option AppliedState → AppliedState
load_applied_state none = record { schema_version = 1; generation = 0; digest = none; items = [] }
load_applied_state (some applied) = applied

-- `set(texts)`
unfoldable pub set_of : List Text → List Text
set_of [] = []
set_of (t ∷ ts) = let rest = set_of ts in if mem_text t rest then rest else t ∷ rest

unfoldable pub without : List Text → List Text → List Text
without ts us = select (λ t. not (mem_text t us)) ts

unfoldable pub union : List Text → List Text → List Text
unfolding without
union ts us = ts ++ without us ts

unfoldable pub same_texts : List Text → List Text → Bool
same_texts ts us = all (λ t. mem_text t us) ts && all (λ u. mem_text u ts) us

unfoldable pub load_pending_revocations : Journal → Option (List Text)
unfolding set_of
load_pending_revocations journal_missing = some []
load_pending_revocations journal_broken = none
load_pending_revocations (journal emails) =
    if all (λ e. not (is_empty e)) emails then some (set_of emails) else none

unfoldable pub set_pending : Journal → NodeState → NodeState
set_pending pending n = record {
  config = n.config;
  applied = n.applied;
  pending = pending;
  overrides = n.overrides;
  hy2_clients = n.hy2_clients;
  calls = n.calls;
}

unfoldable pub note_call : Call → NodeState → NodeState
note_call call n = record {
  config = n.config;
  applied = n.applied;
  pending = n.pending;
  overrides = n.overrides;
  hy2_clients = n.hy2_clients;
  calls = call ∷ n.calls;
}

unfoldable pub save_pending_revocations : World → Write → List Text → NodeState → Outcome Unit
unfolding set_pending write_file
save_pending_revocations w file values n =
    write_file (w.writes file) (set_pending (journal (sort_by text_leb values)) n) n
      journal_not_written

-- The value if it is there and not empty.
abbrev pub truthy : Option Text → Option Text
truthy none = none
truthy (some t) = if is_empty t then none else some t

unfoldable pub clients_of : Inbound → List ClientRecord
clients_of inbound = list_or_nil inbound.clients

abbrev keep_some {ℓ} : {A : Type ℓ} → List (Option A) → List A
keep_some [] = []
keep_some (none ∷ xs) = keep_some xs
keep_some (some x ∷ xs) = x ∷ keep_some xs

unfoldable pub configured_emails : Config → List Text
unfolding list_vless_inbounds clients_of
configured_emails config = set_of (
    keep_some (
      map (λ (r : ClientRecord). truthy r.email)
        (concat (map clients_of (list_vless_inbounds config)))))

-- `refresh_from_config` of agent/app/hysteria.py: the dict's items from one client.
hy2_entries : ClientRecord → List (Text × Text)
hy2_entries r = elim (truthy r.id) [
  | none ↦ []
  | some uuid ↦ elim (truthy r.email) [ none ↦ [] | some email ↦ (uuid, email) ∷ [] ]
]

unfoldable pub refresh_from_config : Config → NodeState → NodeState
unfolding hy2_entries list_vless_inbounds clients_of
refresh_from_config config n = record {
  config = n.config;
  applied = n.applied;
  pending = n.pending;
  overrides = n.overrides;
  hy2_clients =
      of_items (concat (map hy2_entries (concat (map clients_of (list_vless_inbounds config)))));
  calls = n.calls;
}

-- `authenticate` of agent/app/hysteria.py: the e-mail that a secret stands for.
unfoldable pub authenticate : Text → NodeState → Option Text
authenticate secret n = get secret n.hy2_clients

-- `kick` of agent/app/hysteria.py
unfoldable pub kick : World → List Text → NodeState → NodeState × Bool
unfolding note_call
kick w ids n =
    if not w.hy2_enabled || not (has_any ids)
    then (n, true)
    else (note_call (kicks ids) n, w.hysteria_kicks ids)

-- The end of `retry_pending_revocations`, after the kick.
unfoldable pub finish_retry : World → List Text → List Text → NodeState × Bool → Outcome Bool
unfolding save_pending_revocations without
finish_retry w pending safe_to_kick (n, kicked) =
    let remaining = without pending safe_to_kick in
    if has_any safe_to_kick && not kicked
    then done n false
    else and_then (save_pending_revocations w write_remaining remaining n)
        (λ n' t. done n' (not (has_any remaining)))

unfoldable pub retry_loaded : World → Config → NodeState → Option (List Text) → Outcome Bool
unfolding configured_emails refresh_from_config kick finish_retry without
retry_loaded w config n none = raised n journal_invalid
retry_loaded w config n (some pending) =
    let safe_to_kick = without pending (configured_emails config) in
    let refreshed = refresh_from_config config n in
    if not (has_any pending)
    then done n true
    else finish_retry w pending safe_to_kick (
        if has_any safe_to_kick
        then kick w (sort_by text_leb safe_to_kick) refreshed
        else (refreshed, true))

-- `retry_pending_revocations`, with a configuration that is given.
unfoldable pub retry_pending_revocations : World → Config → NodeState → Outcome Bool
unfolding load_pending_revocations retry_loaded
retry_pending_revocations w config n = retry_loaded w config n (load_pending_revocations n.pending)
