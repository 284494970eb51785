-- ===== src/Control/Router/Isolation.antt =====
-- What the acknowledgement of one node leaves of the other servers' data.
use mathlib.Core.List.{append-nil}
use aegis_vpn.Base.{
  ℕ, ◌≡◌, ◌≢◌, refl, sym, ap, ◌∙◌, List, [], ◌∷◌, ◌++◌, map, select, select-append, false, not,
  ◌==◌, arith, Bool-cases, inl, inr, if◌then◌else◌, Text,
}
use mathlib.Core.Path.{subst}
use aegis_vpn.Base.Result.{ok}
use aegis_vpn.Control.Db.{
  Server, SubscriptionServer, CascadeRouteAck, Db, find_server, find_snapshot, find_page,
  id-find_server, find_server-write_ne,
}
use aegis_vpn.Control.Cascade.{record_cascade_ack}
use aegis_vpn.Control.State.{prune_acknowledged_snapshots}
use aegis_vpn.Control.State.Pruning.{prune_exact, servers-prune}
use aegis_vpn.Control.Router.{
  NodeAckRequest, ControlStatus, accepted, duplicate, error_recorded, acknowledge_snapshot,
  apply_ack, failed_row, seen_row, write_row, acked_row, mark_synced,
}
use aegis_vpn.Control.Router.Acks.{Handled, acknowledge-cases}

abbrev pub acks_at : ℕ → Db → List CascadeRouteAck
acks_at j db = select (λ (a : CascadeRouteAck). a.server_id == j) db.route_acks

abbrev pub links_at : ℕ → Db → List SubscriptionServer
links_at j db = select (λ (l : SubscriptionServer). l.server_id == j) db.links

-- The row of a server, one of its snapshots and pages, the routes that it has acknowledged, and the
-- links of its subscriptions, are the same in both tables.
abbrev pub SameAt : (j g k : ℕ) → Db → Db → Type 0
SameAt j g k db db' =
    (find_server j db'.servers ≡ find_server j db.servers)
    × (find_snapshot j g db'.snapshots ≡ find_snapshot j g db.snapshots)
    × (find_page j g k db'.pages ≡ find_page j g k db.pages)
    × (acks_at j db' ≡ acks_at j db)
    × (links_at j db' ≡ links_at j db)

SameAt-trans : (j g k : ℕ) (a b c : Db) → SameAt j g k a b → SameAt j g k b c → SameAt j g k a c
SameAt-trans j g k a b c h n = (n.0 ∙ h.0, n.1 ∙ h.1, n.2 ∙ h.2, n.3 ∙ h.3, n.4 ∙ h.4)

module _ (i j g k : ℕ) (apart : j ≢ i) where
  write-SameAt : (s : Server) (db : Db) → s.id ≡ i → SameAt j g k db (write_row s db)
  write-SameAt s db e =
      (find_server-write_ne j s db.servers (λ same. apart (same ∙ e)), refl, refl, refl, refl)

  acks-SameAt :
      (old : List CascadeRouteAck)
      → select
          (λ (a : CascadeRouteAck). a.server_id == j)
          (select (λ (a : CascadeRouteAck). not (a.server_id == i)) old)
        ≡ select (λ (a : CascadeRouteAck). a.server_id == j) old
  acks-SameAt [] = refl
  acks-SameAt (a ∷ as') = ground (arith, acks-SameAt as', apart)

  new_acks_elsewhere :
      (generation : ℕ) (es : List (ℕ × (ℕ × Text)))
      → select
          (λ (a : CascadeRouteAck). a.server_id == j)
          (map
            (λ (e : ℕ × (ℕ × Text)). record {
              route_id = e.0;
              server_id = i;
              revision = e.1.0;
              config_digest = e.1.1;
              generation = generation;
            })
            es)
        ≡ []
  new_acks_elsewhere generation [] = refl
  new_acks_elsewhere generation (e ∷ es) = ground (arith, new_acks_elsewhere generation es, apart)

  acks-joined :
      (old new : List CascadeRouteAck)
      → select (λ (a : CascadeRouteAck). a.server_id == j) new ≡ []
      → select
          (λ (a : CascadeRouteAck). a.server_id == j)
          (select (λ (a : CascadeRouteAck). not (a.server_id == i)) old ++ new)
        ≡ select (λ (a : CascadeRouteAck). a.server_id == j) old
  acks-joined old new none_new =
      let kept = select (λ (a : CascadeRouteAck). not (a.server_id == i)) old in
      select-append (λ (a : CascadeRouteAck). a.server_id == j) kept new
      ∙ ap (λ l. select (λ (a : CascadeRouteAck). a.server_id == j) kept ++ l) none_new
      ∙ append-nil (select (λ (a : CascadeRouteAck). a.server_id == j) kept)
      ∙ acks-SameAt old

  cascade-SameAt : (generation : ℕ) (db : Db) → SameAt j g k db (record_cascade_ack i generation db)
  unfolding record_cascade_ack
  cascade-SameAt generation db =
      (refl, refl, refl, acks-joined db.route_acks _ (new_acks_elsewhere generation _), refl)

  prune-SameAt :
      (generation : ℕ) (db : Db) → SameAt j g k db (prune_acknowledged_snapshots i generation db).1
  prune-SameAt generation db =
      let (snapshots, pages) = prune_exact i generation j g k db in
      let other : (j == i) ≡ false = ground (arith, apart) in
      (
        ap (find_server j) (servers-prune i generation db),
        rw other at snapshots,
        rw other at pages,
        unfold prune_acknowledged_snapshots in ground arith,
        unfold prune_acknowledged_snapshots in ground arith,
      )

  links-SameAt :
      (ls : List SubscriptionServer)
      → select (λ (l : SubscriptionServer). l.server_id == j) (map (mark_synced i) ls)
        ≡ select (λ (l : SubscriptionServer). l.server_id == j) ls
  unfolding mark_synced
  links-SameAt [] = refl
  links-SameAt (l ∷ ls) = elim (Bool-cases (l.server_id == i)) [
    | inl own ↦ ground (arith, own, links-SameAt ls, apart)
    | inr other ↦ rw other (ap (λ t. if l.server_id == j then l ∷ t else t) (links-SameAt ls))
  ]

module _ (j g k : ℕ) (now : ℕ) (request : NodeAckRequest) (current : Server) (db : Db)
    (apart : j ≢ current.id) where
  apply_ack-SameAt : SameAt j g k db (apply_ack now request current db)
  unfolding apply_ack
  apply_ack-SameAt =
      let i = current.id in
      let generation = request.generation in
      let written = write_row (acked_row now request current) db in
      let noted = record_cascade_ack i generation written in
      let pruned = (prune_acknowledged_snapshots i generation noted).1 in
      let (server, snapshot, page, acks, links) =
        SameAt-trans j g k db noted pruned
          (SameAt-trans j g k db written noted
            (write-SameAt i j g k apart (acked_row now request current) db
              (unfold acked_row in refl))
            (cascade-SameAt i j g k apart generation written))
          (prune-SameAt i j g k apart generation noted) in
      (server, snapshot, page, acks, links-SameAt i j g k apart pruned.links ∙ links)

  Handled-SameAt :
      (db' : Db) (status : ControlStatus)
      → Handled now request current db status db'
      → SameAt j g k db db'
  Handled-SameAt db' accepted h = subst (SameAt j g k db) (sym h.2) apply_ack-SameAt
  Handled-SameAt db' duplicate h =
      subst (SameAt j g k db) (sym h.2)
        (write-SameAt current.id j g k apart (seen_row now current) db (unfold seen_row in refl))
  Handled-SameAt db' error_recorded h = subst (SameAt j g k db) (sym h.1) (
      write-SameAt current.id j g k apart (failed_row now request current) db
        (unfold failed_row in refl))

-- An acknowledgement that is answered leaves what belongs to any other server as it was: its row, each
-- of its snapshots and pages, the routes that it has acknowledged, and the links of its
-- subscriptions.
pub acknowledge_isolated :
    (now : ℕ) (request : NodeAckRequest) (node j g k : ℕ) (db db' : Db) (status : ControlStatus)
    → j ≢ node
    → acknowledge_snapshot now request node db ≡ ok (status, db')
    → SameAt j g k db db'
acknowledge_isolated now request node j g k db db' status apart e =
    let (current, snapshot, er, es, _, done) = acknowledge-cases now request node db db' status e in
    let own = id-find_server node db.servers current er in
    Handled-SameAt j g k now request current db (λ same. apart (same ∙ own)) db' status done
