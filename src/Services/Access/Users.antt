-- ===== src/Services/Access/Users.antt =====
-- bot/src/services/server_access_service.py: the reconciliation of all active subscriptions of a user.
use aegis_vpn.Base.{
  ℕ, ◌<◌, Text, Option, none, List, [], ◌∷◌, Bool, true, false, ◌&&◌, ◌||◌, ◌==◌, ==_iff, any,
  select, All, if◌then◌else◌, ◌≡◌, refl, ap, ◌∙◌, Bool-cases, inl, inr, arith, and-true,
}
use aegis_vpn.Base.Result.{ok}
use aegis_vpn.Control.Db.{Db, Subscription}
use aegis_vpn.Control.Desired.{is_linked}
use aegis_vpn.Services.Access.{
  Env, Pending, concerns, reconcile_each, publish, finish_each, reconcile_user_subscriptions,
  nothing_pending, distinct,
}
use aegis_vpn.Services.Access.Publishing.{has_access, publish-Kept}
use aegis_vpn.Services.Access.Reconciled.{
  to_be_linked, KeptAccess, reconcile_subscription_servers-linked,
}

abbrev pub is_among : ℕ → List Subscription → Bool
is_among j subs = any (λ (s : Subscription). s.id == j) subs

KeptAccess-trans : (a b c : Db) → KeptAccess a b → KeptAccess b c → KeptAccess a c
KeptAccess-trans a b c h g =
    (g.0 ∙ h.0, g.1 ∙ h.1, λ grants user_id i. g.2 grants user_id i ∙ h.2 grants user_id i)

pub same_access :
    (a b : Db) (user_id i : ℕ)
    → KeptAccess a b
    → has_access b.grants b.servers user_id i ≡ has_access a.grants a.servers user_id i
same_access a b user_id i h =
    ap (λ grants. has_access grants b.servers user_id i) h.0 ∙ h.2 a.grants user_id i

one_more :
    (here rest k h linked : Bool)
    → (if rest && k then h else (if here && k then h else linked))
      ≡ (if (here || rest) && k then h else linked)
one_more true true k h linked = ground arith
one_more true false k h linked = ground arith
one_more false true k h linked = ground arith
one_more false false k h linked = ground arith

-- The loop over subscriptions of one user.
reconcile_each-linked :
    (env : Env) (now : ℕ) (target : Option ℕ) (user_id : ℕ) (subs : List Subscription) (db : Db)
    (p : Pending)
    → 0 < env.page_size
    → All (λ (s : Subscription). s.user_id ≡ user_id) subs
    → (db' : Db) × (p' : Pending) × (reconcile_each env now target subs db p ≡ ok (db', p'))
      × ((i j : ℕ)
          → is_linked db'.links i j ≡ (
              if is_among j subs && concerns target i
              then has_access db.grants db.servers user_id i
              else is_linked db.links i j))
      × KeptAccess db db'
unfolding reconcile_each to_be_linked
reconcile_each-linked env now target user_id [] db p pos h =
    (db, p, refl, (λ i j. refl), (refl, refl, λ grants u i. refl))
reconcile_each-linked env now target user_id (s ∷ ss) db p pos h =
    let (db1, p1, run1, linked1, kept1) =
      reconcile_subscription_servers-linked env now target s db p pos in
    let (db2, p2, run2, linked2, kept2) =
      reconcile_each-linked env now target user_id ss db1 p1 pos h.1 in
    (
      db2,
      p2,
      ground (arith, run1, run2),
      (λ i j.
          linked2 i j
          ∙ ap (λ b. if is_among j ss && concerns target i then b else is_linked db1.links i j)
              (same_access db db1 user_id i kept1)
          ∙ ap
              (λ b.
                if is_among j ss && concerns target i
                then has_access db.grants db.servers user_id i
                else b)
              (linked1 i j
                ∙ (unfold to_be_linked in
                    ap
                      (λ u.
                        if s.id == j && concerns target i
                        then has_access db.grants db.servers u i
                        else is_linked db.links i j)
                      h.0))
          ∙ one_more (s.id == j) (is_among j ss) (concerns target i)
              (has_access db.grants db.servers user_id i) (is_linked db.links i j)),
      KeptAccess-trans db db1 db2 kept1 kept2,
    )

every_server :
    (here h linked : Bool) → (if here && true then h else linked) ≡ (if here then h else linked)
every_server true h linked = refl
every_server false h linked = refl

unfoldable pub active_of : ℕ → List Subscription → List Subscription
active_of user_id = select (λ (s : Subscription). s.user_id == user_id && s.is_active)

active_of-All :
    (user_id : ℕ) (subs : List Subscription)
    → All (λ (s : Subscription). s.user_id ≡ user_id) (active_of user_id subs)
unfolding active_of
active_of-All user_id [] = tt
active_of-All user_id (s ∷ ss) = elim (Bool-cases (s.user_id == user_id && s.is_active)) [
  | inl chosen ↦ rw chosen (
    (==_iff s.user_id user_id).0 (and-true (s.user_id == user_id) s.is_active chosen).0,
    active_of-All user_id ss,
  )
  | inr passed ↦ rw passed (active_of-All user_id ss)
]

finished :
    (env : Env) (now : ℕ) (db db' : Db) (p : Pending)
    → publish env now (distinct p.publications) db ≡ ok db'
    → finish_each env now (ok (db, p)) ≡ ok (db', p.removals)
unfolding finish_each
finished env now db db' p e = ground (arith, e)

-- With a positive page size the reconciliation of a user's subscriptions returns. After it each
-- active subscription of the user is linked to a server exactly if the user may use it, and the
-- links of the other subscriptions are as before.
pub reconcile_user_subscriptions-linked :
    (env : Env) (now user_id : ℕ) (db : Db)
    → 0 < env.page_size
    → (db' : Db) × (removals : List (Text × Text × Text)) × (reconcile_user_subscriptions env now
          user_id db
        ≡ ok (db', removals))
      × ((i j : ℕ)
          → is_linked db'.links i j ≡ (
              if is_among j (active_of user_id db.subscriptions)
              then has_access db.grants db.servers user_id i
              else is_linked db.links i j))
      × KeptAccess db db'
unfolding reconcile_user_subscriptions active_of
reconcile_user_subscriptions-linked env now user_id db pos =
    let subs = active_of user_id db.subscriptions in
    let (db1, p1, run1, linked1, kept1) =
      reconcile_each-linked env now none user_id subs db nothing_pending pos
        (active_of-All user_id db.subscriptions) in
    let (db2, run2, kept2) = publish-Kept env now (distinct p1.publications) db1 pos in
    (
      db2,
      p1.removals,
      ap (finish_each env now) run1 ∙ finished env now db1 db2 p1 run2,
      (λ i j.
          ap (λ ls. is_linked ls i j) (ap (λ r. r.0) kept2.0)
          ∙ linked1 i j
          ∙ every_server (is_among j subs) (has_access db.grants db.servers user_id i)
              (is_linked db.links i j)),
      KeptAccess-trans db db1 db2 kept1 (ap (λ r. r.1) kept2.0, ap (λ r. r.2) kept2.0, kept2.1),
    )
