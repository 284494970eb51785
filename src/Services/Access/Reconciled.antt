-- ===== src/Services/Access/Reconciled.antt =====
-- bot/src/services/server_access_service.py: after its reconciliation a subscription is linked to the
-- servers that its user may use, and to no other.
use aegis_vpn.Base.{
  ℕ, ◌<◌, Option, none, List, [], ◌∷◌, map, Bool, true, false, ◌&&◌, ◌||◌, not, ◌==◌, ==_iff, any,
  select, if◌then◌else◌, ◌≡◌, refl, sym, ap, ◌∙◌, Bool-cases, inl, inr, arith, leb,
}
use aegis_vpn.Base.Result.{ok}
use aegis_vpn.Control.Db.{
  Db, Server, User, Subscription, Device, SubscriptionServer, ServerAccessGrant, Payment,
  find_server,
}
use aegis_vpn.Control.Cascade.Advertising.{among}
use aegis_vpn.Control.Desired.{is_linked}
use aegis_vpn.Services.Access.{
  Env, Pending, ids_of, concerns, current_links, allowed_servers, missing_servers, is_accessible,
  get_accessible_servers_for_user, sync_links, sync_subscription_to_servers, pushed_clients,
  delete_link, note_gone, put_links, drop_links, finish_drop, reconcile_subscription_servers,
}
use aegis_vpn.Services.Access.Links.{
  any-select_key, any-map_key, any-sort_by, any-select, is_linked-put_links, is_linked-drop_links,
}
use aegis_vpn.Services.Access.Publishing.{has_access, Kept, publish-Kept}

module _ (db : Db) (sub : Subscription) (target : Option ℕ) (i : ℕ) where
  among-allowed :
      among i (ids_of (allowed_servers db sub target))
      ≡ (has_access db.grants db.servers sub.user_id i && concerns target i)
  unfolding allowed_servers get_accessible_servers_for_user has_access
  among-allowed =
      let accessible = get_accessible_servers_for_user db sub.user_id none in
      any-map_key (λ (s : Server). s.id) i (select (λ s. concerns target s.id) accessible)
      ∙ any-select_key (λ (s : Server). s.id) (concerns target) i accessible
      ∙ ap (λ b. b && concerns target i)
          (any-sort_by (λ (s : Server). s.id == i) (λ (a b : Server). leb a.id b.id)
              (select (is_accessible db.grants sub.user_id none) db.servers)
            ∙ any-select (λ (s : Server). s.id == i) (is_accessible db.grants sub.user_id none)
                db.servers)

  any-current :
      any (λ (l : SubscriptionServer). l.server_id == i) (current_links db sub target)
      ≡ (is_linked db.links i sub.id && concerns target i)
  unfolding current_links is_linked
  any-current =
      any-select_key (λ (l : SubscriptionServer). l.server_id) (concerns target) i
        (select (λ (l : SubscriptionServer). l.subscription_id == sub.id) db.links)
      ∙ ap (λ b. b && concerns target i)
          (any-select (λ (l : SubscriptionServer). l.server_id == i)
            (λ (l : SubscriptionServer). l.subscription_id == sub.id) db.links)

  among-missing :
      among i
        (ids_of (missing_servers (allowed_servers db sub target) (current_links db sub target)))
      ≡ (among i (ids_of (allowed_servers db sub target))
          && not (any (λ (l : SubscriptionServer). l.server_id == i) (current_links db sub target)))
  unfolding missing_servers
  among-missing =
      let allowed = allowed_servers db sub target in
      let there = map (λ (l : SubscriptionServer). l.server_id) (current_links db sub target) in
      any-map_key (λ (s : Server). s.id) i (select (λ s. not (among s.id there)) allowed)
      ∙ any-select_key (λ (s : Server). s.id) (λ k. not (among k there)) i allowed
      ∙ ap (λ b. b && not (among i there)) (sym (any-map_key (λ (s : Server). s.id) i allowed))
      ∙ ap (λ b. among i (ids_of allowed) && not b)
          (any-map_key (λ (l : SubscriptionServer). l.server_id) i (current_links db sub target))

-- Whether a subscription is to be linked to a server after its reconciliation.
unfoldable pub to_be_linked : Db → Option ℕ → Subscription → ℕ → ℕ → Bool
to_be_linked db target sub i j =
    if sub.id == j && concerns target i
    then has_access db.grants db.servers sub.user_id i
    else is_linked db.links i j

agreement :
    (same h k l : Bool)
    → (linked : Bool) → (same ≡ true → linked ≡ l)
    → ((linked || (same && ((h && k) && not (l && k)))) && not (same && not (h && k) && (l && k)))
      ≡ (if same && k then h else linked)
agreement false h k l linked e = ground arith
agreement true h k l linked e = rw (e refl) (ground arith)

-- The loop over the links changes nothing but the links.
abbrev others :
    Db
    → List Server
      × List ServerAccessGrant
      × List Subscription
      × List User
      × List Device
      × List Payment
others db = (db.servers, db.grants, db.subscriptions, db.users, db.devices, db.payments)

others-drop_links :
    (sub : Subscription) (allowed : List Server) (ls : List SubscriptionServer) (r : Db × Pending)
    → others (drop_links sub allowed ls r).0 ≡ others r.0
unfolding drop_links
others-drop_links sub allowed [] r = refl
others-drop_links sub allowed (l ∷ ls) (db, p) =
    elim (Bool-cases (among l.server_id (ids_of allowed))) [
      | inl kept ↦ rw kept (others-drop_links sub allowed ls (db, p))
      | inr gone ↦ rw gone (
          others-drop_links sub allowed ls (
            record db { links = delete_link sub.id l.server_id db.links },
            note_gone db sub allowed l (find_server l.server_id db.servers) p,
          ))
    ]

pub synced :
    (env : Env) (now : ℕ) (sub : Subscription) (ss : List Server) (db : Db)
    → 0 < env.page_size
    → (db' : Db) × (sync_subscription_to_servers env now sub ss db ≡ ok db')
      × Kept (sync_links env sub ss db) db'
unfolding sync_subscription_to_servers
synced env now sub [] db pos =
    (db, refl, (unfold sync_links put_links in (refl, λ grants user_id i. refl)))
synced env now sub (s ∷ ss) db pos =
    publish-Kept env now (ids_of (s ∷ ss)) (sync_links env sub (s ∷ ss) db) pos

-- The links after the additions and the removals.
linked_after :
    (sub : Subscription) (target : Option ℕ) (db db1 : Db) (p : Pending) (i j : ℕ)
    → is_linked db1.links i j ≡ (
        is_linked db.links i j
        || (sub.id == j
            && among i (
                ids_of
                  (missing_servers (allowed_servers db sub target) (current_links db sub target)))))
    → is_linked
        (drop_links sub
          (allowed_servers db sub target)
          (current_links db sub target)
          (db1, p)).0.links
        i
        j
      ≡ to_be_linked db target sub i j
unfolding to_be_linked
linked_after sub target db db1 p i j added =
    let A = among i (ids_of (allowed_servers db sub target)) in
    let C = any (λ (l : SubscriptionServer). l.server_id == i) (current_links db sub target) in
    let linked = is_linked db.links i j in
    let h = has_access db.grants db.servers sub.user_id i in
    let k = concerns target i in
    let same = sub.id == j in
    is_linked-drop_links sub (allowed_servers db sub target) (current_links db sub target) (db1, p)
      i j
    ∙ ap (λ b. b && not (same && not A && C)) added
    ∙ ap (λ b. (linked || (same && b)) && not (same && not A && C)) (among-missing db sub target i)
    ∙ ap (λ b. (linked || (same && (b && not C))) && not (same && not b && C))
        (among-allowed db sub target i)
    ∙ ap (λ b. (linked || (same && ((h && k) && not b))) && not (same && not (h && k) && b))
        (any-current db sub target i)
    ∙ agreement same h k (is_linked db.links i sub.id) linked
        (λ e. ap (is_linked db.links i) (sym ((==_iff sub.id j).0 e)))

-- What a reconciliation keeps: everything but the links, and who may use what.
abbrev pub KeptAccess : Db → Db → Type 0
KeptAccess db db' =
    (db'.grants ≡ db.grants)
    × (db'.subscriptions ≡ db.subscriptions)
    × ((grants : List ServerAccessGrant) (user_id i : ℕ)
        → has_access grants db'.servers user_id i ≡ has_access grants db.servers user_id i)

-- With a positive page size the reconciliation of one subscription returns. After it the
-- subscription is linked to a server that it concerns exactly if its user may use the server; its
-- other links and those of other subscriptions are as before.
pub reconcile_subscription_servers-linked :
    (env : Env) (now : ℕ) (target : Option ℕ) (sub : Subscription) (db : Db) (p : Pending)
    → 0 < env.page_size
    → (db' : Db) × (p' : Pending) × (reconcile_subscription_servers env now target sub db p
        ≡ ok (db', p'))
      × ((i j : ℕ) → is_linked db'.links i j ≡ to_be_linked db target sub i j)
      × KeptAccess db db'
unfolding reconcile_subscription_servers
reconcile_subscription_servers-linked env now target sub db p pos =
    let allowed = allowed_servers db sub target in
    let links = current_links db sub target in
    let (db1, run, kept) = synced env now sub (missing_servers allowed links) db pos in
    let dropped = drop_links sub allowed links (db1, p) in
    (
      dropped.0,
      dropped.1,
      ap (finish_drop sub allowed links p) run ∙ (unfold finish_drop in refl),
      (λ i j. linked_after sub target db db1 p i j (
          ap (λ ls. is_linked ls i j) (ap (λ r. r.0) kept.0)
          ∙ (unfold sync_links in
              is_linked-put_links env (pushed_clients db sub) sub.id (missing_servers allowed links)
                db.links i j))),
      (
        ap (λ r. r.1) (others-drop_links sub allowed links (db1, p))
            ∙ ap (λ r. r.1) kept.0
            ∙ (unfold sync_links in refl),
        ap (λ r. r.2) (others-drop_links sub allowed links (db1, p))
            ∙ ap (λ r. r.2) kept.0
            ∙ (unfold sync_links in refl),
        λ grants user_id i.
            ap (λ ss. has_access grants ss user_id i)
              (ap (λ r. r.0) (others-drop_links sub allowed links (db1, p)))
            ∙ kept.1 grants user_id i
            ∙ (unfold sync_links in refl),
      ),
    )
