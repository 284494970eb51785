-- ===== src/Agent/Loop/Sequences.antt =====
-- The sequence numbers of the reports, over rounds and restarts (agent/app/control_loop.py).
use mathlib.Core.Path.{subst}
use aegis_vpn.Base.{
  ◌∙◌, ℕ, suc, ◌≤◌, ◌<◌, ◌≡◌, refl, Option, some, List, [], ◌∷◌, ◌++◌, true, All, arith, Bool-cases,
  inl, inr, ◌⊎◌, ap, Option-cases, sym, All-mono, if◌then◌else◌, Bool, false, ◌+◌,
}
use aegis_vpn.Base.Int.{ℤ}
use aegis_vpn.Wire.{DesiredSnapshot}
use aegis_vpn.Agent.Loop.{
  sync_failed, no_news, Mode, observe, apply, Round, SyncReply, news, LoopState, Action,
  acknowledged, reported, paused, start, load_telemetry_sequence, run_round, report, reserve,
  back_off, apply_news, send_report, sent_as, Sending, answered, unanswered, not_arrived,
}

-- A report that arrived: its number, and whether the node got the answer.
abbrev pub Arrival : Type 0
Arrival = ℕ × Bool

-- The reports that arrived, the newest first.
abbrev pub reports : List Action → List Arrival
reports [] = []
reports (acknowledged g d ∷ done) = reports done
reports (reported n b ∷ done) = (n, b) ∷ reports done
reports (paused n ∷ done) = reports done

-- No number is above those that arrived after it, and one that was answered is below them.
abbrev pub Ascending : List Arrival → Type 0
Ascending [] = Unit
Ascending (a ∷ as') =
    All (λ (b : Arrival). (b.0 ≤ a.0) × (b.1 ≡ true → b.0 < a.0)) as' × Ascending as'

-- The rounds of a node whose file can be written, with restarts between them, and the reports that
-- arrived. A crash inside a round is a round whose report is not answered, and then a restart.
pub data History (mode : Mode) : LoopState → List Arrival → Type 0 where
  begin : (file : Option ℤ) → History mode (start file) []
  round :
      {st : LoopState} {ns : List Arrival} (r : Round)
      → History mode st ns
      → r.saves ≡ true
      → History mode (run_round mode r st).1 (reports (run_round mode r st).0 ++ ns)
  restart :
      {st : LoopState} {ns : List Arrival} → History mode st ns → History mode (start st.file) ns

-- A number that arrived is reserved, is the next one at most, and is in use if it was answered.
abbrev pub IsUsed : LoopState → Arrival → Type 0
IsUsed st a =
    (a.0 ≤ st.reserved_sequence) × (a.0 ≤ suc st.sequence) × (a.1 ≡ true → a.0 ≤ st.sequence)

-- The numbers that arrived are reserved and in order, and what is reserved stands in the file.
pub record IsReserved (st : LoopState) (ns : List Arrival) : Type 0 where
  pub within : st.sequence ≤ st.reserved_sequence
  pub written : st.reserved_sequence ≤ load_telemetry_sequence st.file
  pub used : All (IsUsed st) ns
  pub ascending : Ascending ns

-- A report or a pause.
abbrev pub IsNoAck : Action → Type 0
IsNoAck (acknowledged g d) = ⊥
IsNoAck (reported n b) = Unit
IsNoAck (paused n) = Unit

-- What a round acknowledges, if anything: the snapshot that it polled and has applied.
abbrev pub Acknowledges : Mode → Round → List Action → Type 0
Acknowledges mode r sent =
    (sent ≡ [])
    ⊎ ((s : DesiredSnapshot) × (mode ≡ apply)
        × (r.sync ≡ news s)
        × (r.reconcile s ≡ some true)
        × (sent ≡ acknowledged s.generation s.digest ∷ []))

Sending-cases : (a : Sending) → (a ≡ answered) ⊎ (a ≡ unanswered) ⊎ (a ≡ not_arrived)
Sending-cases answered = inl refl
Sending-cases unanswered = inr (inl refl)
Sending-cases not_arrived = inr (inr refl)

news-cases :
    (mode : Mode) (r : Round) (reply : SyncReply)
    → r.sync ≡ reply
    → Acknowledges mode r (apply_news mode r).0
unfolding apply_news
news-cases mode r sync_failed e = inl (ground (arith, e))
news-cases mode r no_news e = inl (ground (arith, e))
news-cases observe r (news s) e = elim (Option-cases (r.reconcile s)) [
  | inl raised ↦ inl (ground (arith, e, raised))
  | inr (success, done) ↦ inl (ground (arith, e, done))
]
news-cases apply r (news s) e = elim (Option-cases (r.reconcile s)) [
  | inl raised ↦ inl (ground (arith, e, raised))
  | inr (success, done) ↦ elim (Bool-cases success) [
    | inr failed ↦ inl (ground (arith, e, done, failed))
    | inl applied ↦ elim (Sending-cases r.acks) [
      | inl returned ↦
          inr (s, refl, e, done ∙ ap some applied, ground (arith, e, done, applied, returned))
      | inr (inl lost) ↦
          inr (s, refl, e, done ∙ ap some applied, ground (arith, e, done, applied, lost))
      | inr (inr missing) ↦ inl (ground (arith, e, done, applied, missing))
    ]
  ]
]

-- The first half of a round reports nothing.
reports-news :
    (mode : Mode) (r : Round) (later : List Action)
    → reports ((apply_news mode r).0 ++ later) ≡ reports later
unfolding apply_news
reports-news mode r later = elim (news-cases mode r r.sync refl) [
  | inl quiet ↦ ap (λ sent. reports (sent ++ later)) quiet
  | inr (s, m, polled, applied, acked) ↦ ap (λ sent. reports (sent ++ later)) acked
]

back_off-IsNoAck : (st : LoopState) → All IsNoAck (back_off st).0
unfolding back_off
back_off-IsNoAck st = (tt, tt)

sent_as-IsNoAck : (a : Sending) (n : ℕ) (st : LoopState) → All IsNoAck (sent_as a n st).0
unfolding sent_as
sent_as-IsNoAck answered n st = (tt, tt)
sent_as-IsNoAck unanswered n st = (tt, back_off-IsNoAck st)
sent_as-IsNoAck not_arrived n st = back_off-IsNoAck st

report-IsNoAck : (r : Round) (st : LoopState) → All IsNoAck (report r st).0
unfolding report send_report
report-IsNoAck r st = elim (Bool-cases r.builds) [
  | inl built ↦ elim (Bool-cases (reserve r st).1) [
    | inl through ↦ rw (built, through) (sent_as-IsNoAck r.sends (st.sequence + 1) (reserve r st).0)
    | inr unsaved ↦ rw (built, unsaved) (back_off-IsNoAck (reserve r st).0)
  ]
  | inr unbuilt ↦ rw unbuilt (back_off-IsNoAck st)
]

-- A round acknowledges nothing but the snapshot that it polled, and that only in the mode that applies
-- snapshots and after a reconciliation that succeeded.
pub round-Acknowledges :
    (mode : Mode) (r : Round) (st : LoopState)
    → (first : List Action) × (later : List Action) × ((run_round mode r st).0 ≡ first ++ later)
      × Acknowledges mode r first
      × All IsNoAck later
unfolding run_round
round-Acknowledges mode r st = (
  (apply_news mode r).0,
  (if (apply_news mode r).1 then report r st else back_off st).0,
  refl,
  news-cases mode r r.sync refl,
  elim (Bool-cases (apply_news mode r).1) [
    | inl through ↦ rw through (report-IsNoAck r st)
    | inr failed ↦ rw failed (back_off-IsNoAck st)
  ],
)

-- What one round does to the numbers.
record RoundNumbers (st st' : LoopState) (sent : List Arrival) : Type 0 where
  pub within : st'.sequence ≤ st'.reserved_sequence
  pub written : st'.reserved_sequence ≤ load_telemetry_sequence st'.file
  pub grows : st.reserved_sequence ≤ st'.reserved_sequence
  pub sent_eq :
      ((sent ≡ []) × (st'.sequence ≡ st.sequence))
      ⊎ ((sent ≡ (suc st.sequence, true) ∷ []) × (st'.sequence ≡ suc st.sequence))
      ⊎ ((sent ≡ (suc st.sequence, false) ∷ [])
          × (st'.sequence ≡ st.sequence)
          × (suc st.sequence ≤ st'.reserved_sequence))

back_off-numbers :
    (st : LoopState)
    → st.sequence ≤ st.reserved_sequence
    → st.reserved_sequence ≤ load_telemetry_sequence st.file
    → RoundNumbers st (back_off st).1 (reports (back_off st).0)
unfolding back_off
back_off-numbers st within written = record {
  within = within;
  written = written;
  grows = omega arith;
  sent_eq = inl (refl, refl);
}

sent_as-numbers :
    (a : Sending) (old st : LoopState)
    → st.sequence ≡ old.sequence
    → suc st.sequence ≤ st.reserved_sequence
    → st.reserved_sequence ≤ load_telemetry_sequence st.file
    → old.reserved_sequence ≤ st.reserved_sequence
    → RoundNumbers old
        (sent_as a (old.sequence + 1) st).1
        (reports (sent_as a (old.sequence + 1) st).0)
unfolding sent_as back_off
sent_as-numbers answered old st same room written grows =
    let next : old.sequence + 1 ≡ suc old.sequence = omega arith in
    record {
      within = omega arith;
      written = written;
      grows = grows;
      sent_eq = inr (inl (ap (λ n. (n, true) ∷ []) next, next));
    }
sent_as-numbers unanswered old st same room written grows =
    let next : old.sequence + 1 ≡ suc old.sequence = omega arith in
    record {
      within = omega arith;
      written = written;
      grows = grows;
      sent_eq = inr (inr (ap (λ n. (n, false) ∷ []) next, same, omega arith));
    }
sent_as-numbers not_arrived old st same room written grows = record {
  within = omega arith;
  written = written;
  grows = grows;
  sent_eq = inl (refl, same);
}

-- A reservation that succeeds leaves room for the next number.
reserve-room :
    (r : Round) (st : LoopState)
    → r.saves ≡ true
    → st.reserved_sequence ≤ load_telemetry_sequence st.file
    → ((reserve r st).1 ≡ true)
      × ((reserve r st).0.sequence ≡ st.sequence)
      × (suc (reserve r st).0.sequence ≤ (reserve r st).0.reserved_sequence)
      × ((reserve r st).0.reserved_sequence ≤ load_telemetry_sequence (reserve r st).0.file)
      × (st.reserved_sequence ≤ (reserve r st).0.reserved_sequence)
unfolding reserve load_telemetry_sequence
reserve-room r st saves written = ground (arith, saves, written)

report-numbers :
    (r : Round) (st : LoopState)
    → r.saves ≡ true
    → st.sequence ≤ st.reserved_sequence
    → st.reserved_sequence ≤ load_telemetry_sequence st.file
    → RoundNumbers st (report r st).1 (reports (report r st).0)
unfolding report send_report
report-numbers r st saves within written =
    let (through, same, room, kept, grows) = reserve-room r st saves written in
    elim (Bool-cases r.builds) [
      | inl built ↦
          rw (built, through) (sent_as-numbers r.sends st (reserve r st).0 same room kept grows)
      | inr unbuilt ↦ rw unbuilt (back_off-numbers st within written)
    ]

same-numbers :
    (st st' st'' : LoopState) (sent sent' : List Arrival)
    → st'' ≡ st'
    → sent' ≡ sent
    → RoundNumbers st st' sent
    → RoundNumbers st st'' sent'
same-numbers st st' st'' sent sent' state_eq sent_same h =
    subst (λ s. RoundNumbers st s sent') (sym state_eq)
      (subst (RoundNumbers st st') (sym sent_same) h)

round-numbers :
    (mode : Mode) (r : Round) (st : LoopState)
    → r.saves ≡ true
    → st.sequence ≤ st.reserved_sequence
    → st.reserved_sequence ≤ load_telemetry_sequence st.file
    → RoundNumbers st (run_round mode r st).1 (reports (run_round mode r st).0)
unfolding run_round
round-numbers mode r st saves within written = elim (Bool-cases (apply_news mode r).1) [
  | inl through ↦
      let state : (run_round mode r st).1 ≡ (report r st).1 = ground (arith, through) in
      let sent : reports (run_round mode r st).0 ≡ reports (report r st).0 =
        ap (λ later. reports ((apply_news mode r).0 ++ later)) (ground (arith, through))
        ∙ reports-news mode r (report r st).0 in
      same-numbers st (report r st).1 (run_round mode r st).1 (reports (report r st).0)
        (reports (run_round mode r st).0) state sent (report-numbers r st saves within written)
  | inr failed ↦
      let state : (run_round mode r st).1 ≡ (back_off st).1 = ground (arith, failed) in
      let sent : reports (run_round mode r st).0 ≡ reports (back_off st).0 =
        ap (λ later. reports ((apply_news mode r).0 ++ later)) (ground (arith, failed))
        ∙ reports-news mode r (back_off st).0 in
      same-numbers st (back_off st).1 (run_round mode r st).1 (reports (back_off st).0)
        (reports (run_round mode r st).0) state sent (back_off-numbers st within written)
]

IsUsed-grows :
    (st st' : LoopState) (a : Arrival)
    → st.reserved_sequence ≤ st'.reserved_sequence
    → st.sequence ≤ st'.sequence
    → IsUsed st a
    → IsUsed st' a
IsUsed-grows st st' a grows up h =
    (omega (arith, h.0), omega (arith, h.1), λ e. omega (arith, h.2 e))

-- A number that arrives next is not below the others, and above those that were answered.
next_above :
    (st : LoopState) (ns : List Arrival)
    → All (IsUsed st) ns
    → All (λ (b : Arrival). (b.0 ≤ suc st.sequence) × (b.1 ≡ true → b.0 < suc st.sequence)) ns
next_above st ns = All-mono (λ (b : Arrival) h. (h.1, λ was. omega (arith, h.2 was))) ns

extend :
    (st st' : LoopState) (sent ns : List Arrival)
    → IsReserved st ns
    → RoundNumbers st st' sent
    → IsReserved st' (sent ++ ns)
extend st st' sent ns old new =
    let used : st.sequence ≤ st'.sequence → All (IsUsed st') ns =
      λ up. All-mono (λ a. IsUsed-grows st st' a new.grows up) ns old.used in
    elim new.sent_eq [
      | inl (quiet, same) ↦ subst (IsReserved st') (sym (ap (λ l. l ++ ns) quiet)) (record {
        within = new.within;
        written = new.written;
        used = used (omega arith);
        ascending = old.ascending;
      })
      | inr (inl (one, up)) ↦ subst (IsReserved st') (sym (ap (λ l. l ++ ns) one)) (record {
        within = new.within;
        written = new.written;
        used = ((omega (arith, new.within), omega arith, λ e. omega arith), used (omega arith));
        ascending = (next_above st ns old.used, old.ascending);
      })
      | inr (inr (one, same, room)) ↦ subst (IsReserved st') (sym (ap (λ l. l ++ ns) one)) (record {
        within = new.within;
        written = new.written;
        used = ((room, omega arith, λ e. cc), used (omega arith));
        ascending = (next_above st ns old.used, old.ascending);
      })
    ]

restarted : (st : LoopState) (ns : List Arrival) → IsReserved st ns → IsReserved (start st.file) ns
unfolding start
restarted st ns old = record {
  within = omega arith;
  written = omega arith;
  used =
      All-mono
        (λ a.
          IsUsed-grows st (start st.file) a (omega (arith, old.written))
            (omega (arith, old.within, old.written)))
        ns old.used;
  ascending = old.ascending;
}

-- In every history of rounds and restarts in which the file can be written, the number of each report
-- that arrived is not above those that arrived after it, and below them if the node got its answer;
-- and each is at most what the file reserves, from which a node that restarts goes on. So a number
-- arrives again only if its answer was lost.
pub History-IsReserved :
    {mode : Mode} {st : LoopState} {ns : List Arrival} → History mode st ns → IsReserved st ns
History-IsReserved (begin file) =
    unfold start in
    record { within = omega arith; written = omega arith; used = tt; ascending = tt }
History-IsReserved {mode = mode} (round {st = st} {ns = ns} r h saves) =
    let old = History-IsReserved h in
    let new = round-numbers mode r st saves old.within old.written in
    extend st (run_round mode r st).1 (reports (run_round mode r st).0) ns old new
History-IsReserved (restart {st = st} {ns = ns} h) = restarted st ns (History-IsReserved h)
