-- ===== src/Services/Access/Publishing.antt =====
-- bot/src/services/server_access_service.py: publishing for the nodes changes neither who may use a
-- server nor which subscription is linked to it.
use aegis_vpn.Base.{
  ℕ, ◌<◌, Option, none, some, List, [], ◌∷◌, Bool, ◌&&◌, ◌==◌, any, sort_by, leb, ◌≡◌, refl, sym,
  ap, ◌∙◌, Bool-cases, Option-cases, inl, inr, arith, ◌||◌,
}
use mathlib.Core.Path.{subst}
use aegis_vpn.Base.Result.{ok}
use aegis_vpn.Wire.{Codec, items_digest, DesiredItem}
use aegis_vpn.Control.Db.{
  Db, Server, User, Subscription, Device, SubscriptionServer, ServerAccessGrant, Payment,
  NodeSnapshot, find_server, write_server, id-find_server,
}
use aegis_vpn.Control.Cascade.{RouteHash}
use aegis_vpn.Control.Desired.{build_desired_items}
use aegis_vpn.Control.State.{
  publish_snapshot, publish_for, add_snapshot, latest_snapshot, is_current, schema_of, new_snapshot,
}
use aegis_vpn.Control.NodeService.{publishes_for, publish_each, publish_for_servers}
use aegis_vpn.Services.Access.{Env, is_accessible, publish, group_allows}

-- Whether a user may use a server, by its id.
unfoldable pub has_access : List ServerAccessGrant → List Server → ℕ → ℕ → Bool
has_access grants servers user_id i =
    any (λ (s : Server). s.id == i && is_accessible grants user_id none s) servers

same_row : (s t : Server) → some s ≡ some t → s ≡ t
same_row s t e = cc

any-write_server :
    (p : Server → Bool) (s t : Server) (ss : List Server)
    → find_server s.id ss ≡ some t
    → p s ≡ p t
    → any p (write_server s ss) ≡ any p ss
unfolding find_server write_server
any-write_server p s t [] h e = cc
any-write_server p s t (u ∷ us) h e = elim (Bool-cases (u.id == s.id)) [
  | inl here ↦
      let found : some u ≡ some t = rw here at h in
      rw here (ap (λ b. b || any p us) (e ∙ ap p (sym (same_row u t found))))
  | inr other ↦ rw other (ap (λ b. p u || b) (any-write_server p s t us (rw other at h) e))
]

-- What publishing keeps of the tables.
abbrev pub rows :
    Db
    → List SubscriptionServer
      × List ServerAccessGrant
      × List Subscription
      × List User
      × List Device
      × List Payment
rows db = (db.links, db.grants, db.subscriptions, db.users, db.devices, db.payments)

abbrev pub Kept : Db → Db → Type 0
Kept db db' =
    (rows db' ≡ rows db)
    × ((grants : List ServerAccessGrant) (user_id i : ℕ)
        → has_access grants db'.servers user_id i ≡ has_access grants db.servers user_id i)

Kept-trans : (a b c : Db) → Kept a b → Kept b c → Kept a c
Kept-trans a b c h g = (g.0 ∙ h.0, λ grants user_id i. g.1 grants user_id i ∙ h.1 grants user_id i)

add_snapshot-Kept :
    (codec : Codec) (page_size : ℕ) (s : Server) (items : List DesiredItem)
    (latest : Option NodeSnapshot) (db : Db)
    → find_server s.id db.servers ≡ some s
    → Kept db (add_snapshot codec page_size s items latest db).1
unfolding add_snapshot has_access is_accessible group_allows
add_snapshot-Kept codec page_size s items latest db there = (
  refl,
  λ grants user_id i.
      any-write_server (λ (t : Server). t.id == i && is_accessible grants user_id none t)
        (record s { desired_generation = (new_snapshot codec page_size s items latest).generation })
        s db.servers there refl,
)

publish_for-Kept :
    (codec : Codec) (hash : RouteHash) (page_size now : ℕ) (s : Server) (db : Db)
    → find_server s.id db.servers ≡ some s
    → Kept db (publish_for codec hash page_size now s db).1
unfolding publish_for
publish_for-Kept codec hash page_size now s db there =
    let items = build_desired_items hash db s now in
    elim (Option-cases (latest_snapshot s.id db.snapshots)) [
      | inl first ↦
          let run : publish_for codec hash page_size now s db
              ≡ add_snapshot codec page_size s items none db =
            ground (arith, first) in
          subst (λ r. Kept db r.1) (sym run)
            (add_snapshot-Kept codec page_size s items none db there)
      | inr (latest, before) ↦
          elim (Bool-cases (is_current (items_digest codec items) (schema_of s) latest)) [
            | inl current ↦
                let run : publish_for codec hash page_size now s db ≡ (latest, db) =
                  ground (arith, before, current) in
                subst (λ r. Kept db r.1) (sym run) (refl, λ grants user_id i. refl)
            | inr stale ↦
                let run : publish_for codec hash page_size now s db
                    ≡ add_snapshot codec page_size s items (some latest) db =
                  ground (arith, before, stale) in
                subst (λ r. Kept db r.1) (sym run)
                  (add_snapshot-Kept codec page_size s items (some latest) db there)
          ]
    ]

publish_each-Kept :
    (codec : Codec) (hash : RouteHash) (page_size now : ℕ) (is : List ℕ) (db : Db)
    → 0 < page_size
    → (db' : Db) × (publish_each codec hash page_size now is db ≡ ok db') × Kept db db'
unfolding publish_each
publish_each-Kept codec hash page_size now [] db pos = (db, refl, (refl, λ grants user_id i. refl))
publish_each-Kept codec hash page_size now (i ∷ is) db pos =
    let skipped = publish_each-Kept codec hash page_size now is db pos in
    elim (Option-cases (find_server i db.servers)) [
      | inl missing ↦ (skipped.0, ground (arith, missing, skipped.1), skipped.2)
      | inr (s, there) ↦ elim (Bool-cases (publishes_for s)) [
        | inr pushed ↦ (skipped.0, ground (arith, there, pushed, skipped.1), skipped.2)
        | inl pulled ↦
            let (n, db1) = publish_for codec hash page_size now s db in
            let run : publish_snapshot codec hash page_size now i db ≡ ok (n, db1) =
              unfold publish_snapshot in ground (arith, pos, there) in
            let (db2, rest, kept) = publish_each-Kept codec hash page_size now is db1 pos in
            (
              db2,
              ground (arith, there, pulled, run, rest),
              Kept-trans db db1 db2
                  (publish_for-Kept codec hash page_size now s db (
                    subst (λ k. find_server k db.servers ≡ some s)
                      (sym (id-find_server i db.servers s there)) there))
                  kept,
            )
      ]
    ]

-- With a positive page size publishing returns.
pub publish-Kept :
    (env : Env) (now : ℕ) (is : List ℕ) (db : Db)
    → 0 < env.page_size
    → (db' : Db) × (publish env now is db ≡ ok db') × Kept db db'
unfolding publish publish_for_servers
publish-Kept env now is db pos =
    publish_each-Kept env.codec env.hash env.page_size now (sort_by leb is) db pos
