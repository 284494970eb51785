-- ===== src/Services/Access/Links.antt =====
-- bot/src/services/server_access_service.py: how the loops over servers and links change the links.
use aegis_vpn.Base.{
  ℕ, List, [], ◌∷◌, map, Bool, true, false, ◌&&◌, ◌||◌, not, ◌==◌, ==_iff, any, select, ◌≡◌, refl,
  sym, ap, ◌∙◌, Bool-cases, inl, inr, arith, sort_by, insert_by,
}
use aegis_vpn.Wire.{DesiredClient}
use aegis_vpn.Control.Db.{Db, Server, Subscription, SubscriptionServer, find_server}
use aegis_vpn.Control.Cascade.Advertising.{among}
use aegis_vpn.Control.Desired.{is_linked}
use aegis_vpn.Services.Access.{
  Env, Pending, put_link, put_links, sync_to_server, delete_link, drop_links, ids_of, note_gone,
}

module _ {ℓ} {A : Type ℓ} where
  -- A selection by the key of an element has the keys that the test lets through.
  pub any-select_key :
      (key : A → ℕ) (p : ℕ → Bool) (i : ℕ) (xs : List A)
      → any (λ x. key x == i) (select (λ x. p (key x)) xs) ≡ (any (λ x. key x == i) xs && p i)
  any-select_key key p i [] = refl
  any-select_key key p i (x ∷ xs) = elim (Bool-cases (key x == i)) [
    | inl here ↦
        let same : p (key x) ≡ p i = ap p ((==_iff (key x) i).0 here) in
        ground (arith, any-select_key key p i xs, same, here)
    | inr other ↦ ground (arith, any-select_key key p i xs, other)
  ]

  pub any-map_key :
      (key : A → ℕ) (i : ℕ) (xs : List A) → among i (map key xs) ≡ any (λ x. key x == i) xs
  any-map_key key i [] = refl
  any-map_key key i (x ∷ xs) = ap (λ b. key x == i || b) (any-map_key key i xs)

  any-insert_by :
      (p : A → Bool) (le : A → A → Bool) (x : A) (xs : List A)
      → any p (insert_by le x xs) ≡ (p x || any p xs)
  unfolding insert_by
  any-insert_by p le x [] = refl
  any-insert_by p le x (y ∷ ys) = ground (arith, any-insert_by p le x ys)

  pub any-sort_by :
      (p : A → Bool) (le : A → A → Bool) (xs : List A) → any p (sort_by le xs) ≡ any p xs
  unfolding sort_by
  any-sort_by p le [] = refl
  any-sort_by p le (x ∷ xs) =
      any-insert_by p le x (sort_by le xs) ∙ ap (λ b. p x || b) (any-sort_by p le xs)

  pub any-select : (p q : A → Bool) (xs : List A) → any p (select q xs) ≡ any (λ x. p x && q x) xs
  any-select p q [] = refl
  any-select p q (x ∷ xs) = ground (arith, any-select p q xs)

is_linked-put_link :
    (sub_id server_id : ℕ) (synced : Bool) (links : List SubscriptionServer) (i j : ℕ)
    → is_linked (put_link sub_id server_id synced links) i j
      ≡ (is_linked links i j || (server_id == i && sub_id == j))
unfolding is_linked put_link
is_linked-put_link sub_id server_id synced [] i j = ground arith
is_linked-put_link sub_id server_id synced (l ∷ ls) i j =
    ground (arith, is_linked-put_link sub_id server_id synced ls i j)

pub is_linked-put_links :
    (env : Env) (clients : List DesiredClient) (sub_id : ℕ) (ss : List Server)
    (links : List SubscriptionServer) (i j : ℕ)
    → is_linked (put_links env clients sub_id ss links) i j
      ≡ (is_linked links i j || (sub_id == j && among i (ids_of ss)))
unfolding put_links
is_linked-put_links env clients sub_id [] links i j = ground arith
is_linked-put_links env clients sub_id (s ∷ ss) links i j =
    is_linked-put_links env clients sub_id ss
      (put_link sub_id s.id (sync_to_server env clients s) links) i j
    ∙ ground (arith, is_linked-put_link sub_id s.id (sync_to_server env clients s) links i j)

is_linked-delete_link :
    (sub_id server_id : ℕ) (links : List SubscriptionServer) (i j : ℕ)
    → is_linked (delete_link sub_id server_id links) i j
      ≡ (is_linked links i j && not (server_id == i && sub_id == j))
unfolding is_linked delete_link
is_linked-delete_link sub_id server_id [] i j = refl
is_linked-delete_link sub_id server_id (l ∷ ls) i j =
    ground (arith, is_linked-delete_link sub_id server_id ls i j)

among-same : (m i : ℕ) (is : List ℕ) → (m == i) ≡ true → among i is ≡ among m is
among-same m i is e = ap (λ n. among n is) (sym ((==_iff m i).0 e))

kept_goes_on :
    (sub_id m i j : ℕ) (is : List ℕ) (linked rest : Bool)
    → among m is ≡ true
    → (linked && not (sub_id == j && not (among i is) && rest))
      ≡ (linked && not (sub_id == j && not (among i is) && (m == i || rest)))
kept_goes_on sub_id m i j is linked rest kept = elim (Bool-cases (m == i)) [
  | inl here ↦ rw (among-same m i is here, kept) (ground arith)
  | inr other ↦ rw other refl
]

gone_goes_on :
    (sub_id m i j : ℕ) (is : List ℕ) (links : List SubscriptionServer) (rest : Bool)
    → among m is ≡ false
    → (is_linked (delete_link sub_id m links) i j && not (sub_id == j && not (among i is) && rest))
      ≡ (is_linked links i j && not (sub_id == j && not (among i is) && (m == i || rest)))
gone_goes_on sub_id m i j is links rest gone =
    ap (λ b. b && not (sub_id == j && not (among i is) && rest))
      (is_linked-delete_link sub_id m links i j)
    ∙ elim (Bool-cases (m == i)) [
      | inl here ↦ rw (among-same m i is here, gone) (ground arith)
      | inr other ↦ rw other (ground arith)
    ]

pub is_linked-drop_links :
    (sub : Subscription) (allowed : List Server) (ls : List SubscriptionServer) (r : Db × Pending)
    (i j : ℕ)
    → is_linked (drop_links sub allowed ls r).0.links i j ≡ (
        is_linked r.0.links i j
        && not (
            sub.id == j
            && not (among i (ids_of allowed))
            && any (λ (l : SubscriptionServer). l.server_id == i) ls))
unfolding drop_links
is_linked-drop_links sub allowed [] r i j = ground arith
is_linked-drop_links sub allowed (l ∷ ls) (db, p) i j =
    let after : Db = record db { links = delete_link sub.id l.server_id db.links } in
    let noted = note_gone db sub allowed l (find_server l.server_id db.servers) p in
    elim (Bool-cases (among l.server_id (ids_of allowed))) [
      | inl kept ↦ rw kept (
          is_linked-drop_links sub allowed ls (db, p) i j
          ∙ kept_goes_on sub.id l.server_id i j (ids_of allowed) (is_linked db.links i j)
              (any (λ (k : SubscriptionServer). k.server_id == i) ls) kept)
      | inr gone ↦ rw gone (
          is_linked-drop_links sub allowed ls (after, noted) i j
          ∙ gone_goes_on sub.id l.server_id i j (ids_of allowed) db.links
              (any (λ (k : SubscriptionServer). k.server_id == i) ls) gone)
    ]
