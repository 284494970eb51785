-- ===== src/Services/Access/Grants.antt =====
-- bot/src/services/server_access_service.py: granting and revoking a user's access to a server.
use aegis_vpn.Base.{
  ℕ, ◌<◌, Text, codes, List, [], ◌∷◌, ◌++◌, Bool, true, false, ◌&&◌, ◌==◌, ==_iff, any, text_eq,
  if◌then◌else◌, ◌≡◌, refl, ap, ◌∙◌, Bool-cases, inl, inr, arith,
}
use aegis_vpn.Base.Result.{ok}
use aegis_vpn.Control.Db.{Db, Server, Subscription, ServerAccessGrant}
use aegis_vpn.Control.Desired.{is_linked, is_eligible}
use aegis_vpn.Services.Access.{
  Env, is_granted, group_allows, is_accessible, without_grant, reconcile_user_subscriptions,
  grant_user_access, revoke_user_access,
}
use aegis_vpn.Services.Access.Publishing.{has_access}
use aegis_vpn.Services.Access.Users.{is_among, active_of, reconcile_user_subscriptions-linked}

unfoldable pub is_public : Server → Bool
is_public s = text_eq s.access_mode (codes "public")

is_granted-without_grant :
    (i user_id : ℕ) (grants : List ServerAccessGrant)
    → is_granted (without_grant i user_id grants) i user_id ≡ false
unfolding is_granted without_grant
is_granted-without_grant i user_id [] = refl
is_granted-without_grant i user_id (g ∷ gs) = ground (arith, is_granted-without_grant i user_id gs)

is_granted-added :
    (i user_id : ℕ) (grants : List ServerAccessGrant)
    → is_granted (grants ++ record { server_id = i; user_id = user_id } ∷ []) i user_id ≡ true
unfolding is_granted
is_granted-added i user_id [] = ground arith
is_granted-added i user_id (g ∷ gs) = ground (arith, is_granted-added i user_id gs)

no_access :
    (grants : List ServerAccessGrant) (user_id i : ℕ) (ss : List Server)
    → is_granted grants i user_id ≡ false
    → any (λ (s : Server). s.id == i && is_public s) ss ≡ false
    → has_access grants ss user_id i ≡ false
unfolding has_access is_accessible is_public
no_access grants user_id i [] h g = refl
no_access grants user_id i (s ∷ ss) h g =
    let rest = no_access grants user_id i ss h (ground (arith, g)) in
    elim (Bool-cases (s.id == i)) [
      | inl here ↦
          let none_here : is_granted grants s.id user_id ≡ false =
            ap (λ k. is_granted grants k user_id) ((==_iff s.id i).0 here) ∙ h in
          ground (arith, rest, here, none_here, g)
      | inr other ↦ ground (arith, rest, other)
    ]

granted_access :
    (grants : List ServerAccessGrant) (user_id i : ℕ) (ss : List Server)
    → is_granted grants i user_id ≡ true
    → any (λ (s : Server). s.id == i && s.is_active) ss ≡ true
    → has_access grants ss user_id i ≡ true
unfolding has_access is_accessible group_allows
granted_access grants user_id i [] h g = cc
granted_access grants user_id i (s ∷ ss) h g = elim (Bool-cases (s.id == i && s.is_active)) [
  | inl here ↦
      let there : is_granted grants s.id user_id ≡ true =
        ap (λ k. is_granted grants k user_id) ((==_iff s.id i).0 (ground (arith, here))) ∙ h in
      ground (arith, here, there)
  | inr other ↦ ground (arith, granted_access grants user_id i ss h (ground (arith, g, other)))
]

-- The reconciliation that follows a revocation, on the tables without the grant.
cut_off :
    (env : Env) (now : ℕ) (s : Server) (user_id : ℕ) (db : Db)
    → 0 < env.page_size
    → is_granted db.grants s.id user_id ≡ false
    → any (λ (t : Server). t.id == s.id && is_public t) db.servers ≡ false
    → (db' : Db) × (removals : List (Text × Text × Text)) × (reconcile_user_subscriptions env now
          user_id db
        ≡ ok (db', removals))
      × (is_granted db'.grants s.id user_id ≡ false)
      × ((sub : Subscription) (later : ℕ)
          → is_among sub.id (active_of user_id db.subscriptions) ≡ true
          → is_eligible db' s.id later sub ≡ false)
unfolding is_eligible
cut_off env now s user_id db pos none_left private =
    let (db', removals, run, linked, kept) =
      reconcile_user_subscriptions-linked env now user_id db pos in
    (
      db',
      removals,
      run,
      ap (λ grants. is_granted grants s.id user_id) kept.0 ∙ none_left,
      λ sub later active.
          let unlinked : is_linked db'.links s.id sub.id ≡ false =
            linked s.id sub.id
            ∙ ap
                (λ b.
                  if b
                  then has_access db.grants db.servers user_id s.id
                  else is_linked db.links s.id sub.id)
                active
            ∙ no_access db.grants user_id s.id db.servers none_left private in
          ground (arith, unlinked),
    )

linked_up :
    (env : Env) (now : ℕ) (s : Server) (user_id : ℕ) (db : Db)
    → 0 < env.page_size
    → is_granted db.grants s.id user_id ≡ true
    → any (λ (t : Server). t.id == s.id && t.is_active) db.servers ≡ true
    → (db' : Db) × (removals : List (Text × Text × Text)) × (reconcile_user_subscriptions env now
          user_id db
        ≡ ok (db', removals))
      × (is_granted db'.grants s.id user_id ≡ true)
      × ((sub : Subscription)
          → is_among sub.id (active_of user_id db.subscriptions) ≡ true
          → is_linked db'.links s.id sub.id ≡ true)
linked_up env now s user_id db pos granted active =
    let (db', removals, run, linked, kept) =
      reconcile_user_subscriptions-linked env now user_id db pos in
    (
      db',
      removals,
      run,
      ap (λ grants. is_granted grants s.id user_id) kept.0 ∙ granted,
      λ sub among.
          linked s.id sub.id
          ∙ ap
              (λ b.
                if b
                then has_access db.grants db.servers user_id s.id
                else is_linked db.links s.id sub.id)
              among
          ∙ granted_access db.grants user_id s.id db.servers granted active,
    )

-- With a positive page size, and if the server is not public, a revocation returns and the server is
-- cut off from the user: it has no grant, and no active subscription of the user counts among those
-- whose clients the server's desired state holds, at any time afterwards.
pub revoke_user_access_cuts :
    (env : Env) (now : ℕ) (s : Server) (user_id : ℕ) (db : Db)
    → 0 < env.page_size
    → any (λ (t : Server). t.id == s.id && is_public t) db.servers ≡ false
    → (revoked : Bool) × (db' : Db) × (removals : List (Text × Text × Text)) × (revoke_user_access
          env now s user_id db
        ≡ (revoked, ok (db', removals)))
      × (is_granted db'.grants s.id user_id ≡ false)
      × ((sub : Subscription) (later : ℕ)
          → is_among sub.id (active_of user_id db.subscriptions) ≡ true
          → is_eligible db' s.id later sub ≡ false)
unfolding revoke_user_access
revoke_user_access_cuts env now s user_id db pos private =
    elim (Bool-cases (is_granted db.grants s.id user_id)) [
      | inl there ↦
          let after : Db = record db { grants = without_grant s.id user_id db.grants } in
          let (db', removals, run, gone, unlinked) =
            cut_off env now s user_id after pos (is_granted-without_grant s.id user_id db.grants)
              private in
          (true, db', removals, ground (arith, there, run), gone, unlinked)
      | inr absent ↦
          let (db', removals, run, gone, unlinked) =
            cut_off env now s user_id db pos absent private in
          (false, db', removals, ground (arith, absent, run), gone, unlinked)
    ]

-- With a positive page size, and if the server is active, a grant returns, is stored, and links every
-- active subscription of the user to the server.
pub grant_user_access_links :
    (env : Env) (now : ℕ) (s : Server) (user_id : ℕ) (db : Db)
    → 0 < env.page_size
    → any (λ (t : Server). t.id == s.id && t.is_active) db.servers ≡ true
    → (granted : Bool) × (db' : Db) × (removals : List (Text × Text × Text)) × (grant_user_access
          env now s user_id db
        ≡ (granted, ok (db', removals)))
      × (is_granted db'.grants s.id user_id ≡ true)
      × ((sub : Subscription)
          → is_among sub.id (active_of user_id db.subscriptions) ≡ true
          → is_linked db'.links s.id sub.id ≡ true)
unfolding grant_user_access
grant_user_access_links env now s user_id db pos active =
    elim (Bool-cases (is_granted db.grants s.id user_id)) [
      | inl there ↦
          let (db', removals, run, kept, linked) =
            linked_up env now s user_id db pos there active in
          (false, db', removals, ground (arith, there, run), kept, linked)
      | inr absent ↦
          let after : Db = record db {
            grants = db.grants ++ record { server_id = s.id; user_id = user_id } ∷ [];
          } in
          let (db', removals, run, kept, linked) =
            linked_up env now s user_id after pos (is_granted-added s.id user_id db.grants)
              active in
          (true, db', removals, ground (arith, absent, run), kept, linked)
    ]
