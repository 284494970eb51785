-- ===== src/Agent/Loop.antt =====
-- agent/app/control_loop.py: the node's loop over polling, reconciling, acknowledging and reporting,
-- and its supervisor. What the client, the reconciliation and the disk do in one round is an
-- argument; the pauses are in seconds, before their random shortening.
pub mod Sequences
pub mod Pauses
use aegis_vpn.Base.{
  ℕ, zero, suc, ◌+◌, ◌*◌, min, Text, Option, none, some, List, [], ◌∷◌, ◌++◌, Bool, true, false,
  ◌==◌, ◌&&◌, not, ltb, leb, if◌then◌else◌, is_empty, ◌||◌,
}
use aegis_vpn.Base.Int.{ℤ, pos, max_zero}
use aegis_vpn.Wire.{DesiredItem, DesiredSnapshot}

pub data Mode : Type 0 where
  observe apply : Mode

-- `AppliedState`
pub record AppliedState : Type 0 where
  pub schema_version : ℕ
  pub generation : ℕ
  pub digest : Option Text
  pub items : List DesiredItem

-- What `client.sync` does: it raises, has no news, or returns a snapshot.
pub data SyncReply : Type 0 where
  sync_failed no_news : SyncReply
  news : DesiredSnapshot → SyncReply

-- How a message to the control plane ends: the call returns; or it raises, and the message has arrived
-- and its answer was lost, or it has not arrived.
pub data Sending : Type 0 where
  answered unanswered not_arrived : Sending

-- What one round meets. `reconcile` is `none` if it raises, and else whether it succeeded; `cached`
-- and `pending` are what is loaded for the cached reconciliation; `acks` and `sends` are the ends of
-- `ack` and `send_telemetry`; `builds` and `saves` tell whether the call returns.
pub record Round : Type 0 where
  pub sync : SyncReply
  pub reconcile : DesiredSnapshot → Option Bool
  pub cached : AppliedState
  pub pending : Bool
  pub acks : Sending
  pub builds : Bool
  pub saves : Bool
  pub sends : Sending

-- `_load_telemetry_sequence`, of the file's number if it has one.
unfoldable pub load_telemetry_sequence : Option ℤ → ℕ
load_telemetry_sequence none = 0
load_telemetry_sequence (some n) = max_zero n

-- The loop's variables, and the file of the telemetry sequence.
pub record LoopState : Type 0 where
  pub sequence : ℕ
  pub reserved_sequence : ℕ
  pub backoff : ℕ
  pub file : Option ℤ

unfoldable pub start : Option ℤ → LoopState
unfolding load_telemetry_sequence
start file = record {
  sequence = load_telemetry_sequence file;
  reserved_sequence = load_telemetry_sequence file;
  backoff = 1;
  file = file;
}

has_digest : Option Text → Bool
has_digest none = false
has_digest (some t) = not (is_empty t)

abbrev cached_snapshot : AppliedState → Text → DesiredSnapshot
cached_snapshot a digest = record {
  schema_version = a.schema_version;
  generation = a.generation;
  digest = digest;
  items = a.items;
}

-- `_reconcile_cached_state`: whether it returns.
unfoldable pub reconcile_cached_state : Mode → Round → Bool
unfolding has_digest
reconcile_cached_state observe r = true
reconcile_cached_state apply r =
    if r.pending
    then true
    else if ltb r.cached.generation 1 || not (has_digest r.cached.digest)
    then true
    else elim r.cached.digest [
      | none ↦ true
      | some digest ↦ elim (r.reconcile (cached_snapshot r.cached digest)) [
        | none ↦ false
        | some success ↦ true
      ]
    ]

-- What of a round arrives, acknowledgements and reports, and whether the report was answered; and its
-- pause.
pub data Action : Type 0 where
  acknowledged : ℕ → Text → Action
  reported : ℕ → (was_answered : Bool) → Action
  paused : ℕ → Action

-- The first half of a round, up to the report: what it sent, and whether it went through.
unfoldable pub apply_news : Mode → Round → List Action × Bool
unfolding reconcile_cached_state
apply_news mode r = elim r.sync [
  | sync_failed ↦ ([], false)
  | no_news ↦ ([], reconcile_cached_state mode r)
  | news s ↦ elim (r.reconcile s) [
    | none ↦ ([], false)
    | some false ↦ ([], true)
    | some true ↦ elim mode [
      | observe ↦ ([], true)
      | apply ↦ elim r.acks [
        | answered ↦ (acknowledged s.generation s.digest ∷ [], true)
        | unanswered ↦ (acknowledged s.generation s.digest ∷ [], false)
        | not_arrived ↦ ([], false)
      ]
    ]
  ]
]

abbrev pub sequence_block : ℕ
sequence_block = 1024

-- The reservation of sequence numbers: the state after it, and whether it went through. The
-- variable is set before the file is written.
unfoldable pub reserve : Round → LoopState → LoopState × Bool
reserve r st =
    let reserved = st.sequence + sequence_block in
    if ltb st.reserved_sequence (st.sequence + 1)
    then if r.saves
      then (record st { reserved_sequence = reserved; file = some (pos reserved) }, true)
      else (record st { reserved_sequence = reserved }, false)
    else (st, true)

-- The handler of an exception: a pause, which doubles up to a minute. The cached reconciliation that
-- it tries before changes none of these variables, and its errors are dropped.
unfoldable pub back_off : LoopState → List Action × LoopState
back_off st = (paused st.backoff ∷ [], record st { backoff = min 60 (st.backoff * 2) })

-- The call of `send_telemetry`. The variable `sequence` goes up only when the call returns, so a report
-- whose answer was lost is followed by one with the same number.
unfoldable pub sent_as : Sending → ℕ → LoopState → List Action × LoopState
unfolding back_off
sent_as answered number st =
    (reported number true ∷ [], record st { sequence = number; backoff = 1 })
sent_as unanswered number st = (reported number false ∷ (back_off st).0, (back_off st).1)
sent_as not_arrived number st = back_off st

unfoldable pub send_report : Round → ℕ → LoopState × Bool → List Action × LoopState
unfolding back_off sent_as
send_report r sequence (reserved, through) =
    if through then sent_as r.sends (sequence + 1) reserved else back_off reserved

-- The second half of a round: the report.
unfoldable pub report : Round → LoopState → List Action × LoopState
unfolding reserve send_report back_off sent_as
report r st = if r.builds then send_report r st.sequence (reserve r st) else back_off st

-- One round of `control_loop` that no stop interrupts.
unfoldable pub run_round : Mode → Round → LoopState → List Action × LoopState
unfolding apply_news report back_off
run_round mode r st =
    let (sent, through) = apply_news mode r in
    let (later, st') = (if through then report r st else back_off st) in (sent ++ later, st')

-- `supervise_control_loop`: the pauses, for runs of the loop that end with the stop set or not.
unfoldable pub supervise : ℕ → List Bool → List ℕ
supervise backoff [] = []
supervise backoff (true ∷ runs) = []
supervise backoff (false ∷ runs) = backoff ∷ supervise (min 60 (backoff * 2)) runs
