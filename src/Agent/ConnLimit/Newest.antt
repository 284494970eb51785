-- ===== src/Agent/ConnLimit/Newest.antt =====
-- The order in which a user's addresses are kept (agent/app/connlimit.py): the newest first.
use mathlib.Core.List.Perm
use mathlib.Core.List.{Perm}
use aegis_vpn.Base.{
  ℕ, zero, suc, ◌≤◌, ◌≡◌, Text, List, [], ◌∷◌, Bool, leb, insert_by, sort_by, take, drop, All,
  All-mono, arith, Bool-cases, inl, inr, length, refl, ap, ◌∙◌,
}
use aegis_vpn.Base.Members.{All-insert_by}
use aegis_vpn.Agent.ConnLimit.{newest_first}

pub All-drop {ℓ κ} :
    {A : Type ℓ} (P : A → Type κ) (n : ℕ) (xs : List A) → All P xs → All P (drop n xs)
All-drop P zero xs h = h
All-drop P (suc n) [] h = tt
All-drop P (suc n) (x ∷ xs) h = All-drop P n xs h.1

module _ {ℓ} {A : Type ℓ} (le : A → A → Bool) where
  length-insert_by : (x : A) (xs : List A) → length (insert_by le x xs) ≡ suc (length xs)
  unfolding insert_by
  length-insert_by x [] = refl
  length-insert_by x (y ∷ ys) = ground (arith, length-insert_by x ys)

  length-sort_by : (xs : List A) → length (sort_by le xs) ≡ length xs
  unfolding sort_by
  length-sort_by [] = refl
  length-sort_by (x ∷ xs) = length-insert_by x (sort_by le xs) ∙ ap suc (length-sort_by xs)

  insert_by-Perm : (x : A) (xs : List A) → Perm (insert_by le x xs) (x ∷ xs)
  unfolding insert_by
  insert_by-Perm x [] = Perm.refl _
  insert_by-Perm x (y ∷ ys) = elim (Bool-cases (le x y)) [
    | inl first ↦ rw first (Perm.refl _)
    | inr later ↦ rw later (Perm.trans (Perm.cons y (insert_by-Perm x ys)) (Perm.swap x y ys))
  ]

  sort_by-Perm : (xs : List A) → Perm (sort_by le xs) xs
  unfolding sort_by
  sort_by-Perm [] = Perm.refl _
  sort_by-Perm (x ∷ xs) =
      Perm.trans (insert_by-Perm x (sort_by le xs)) (Perm.cons x (sort_by-Perm xs))

-- Seen no later than the given address.
abbrev pub IsOlder : Text × ℕ → Text × ℕ → Type 0
IsOlder a b = b.1 ≤ a.1

abbrev IsNewestFirst : List (Text × ℕ) → Type 0
IsNewestFirst [] = Unit
IsNewestFirst (a ∷ as') = All (IsOlder a) as' × IsNewestFirst as'

abbrev newer : Text × ℕ → Text × ℕ → Bool
newer a b = leb b.1 a.1

insert-IsNewestFirst :
    (a : Text × ℕ) (xs : List (Text × ℕ)) → IsNewestFirst xs → IsNewestFirst (insert_by newer a xs)
unfolding insert_by
insert-IsNewestFirst a [] h = (tt, tt)
insert-IsNewestFirst a (b ∷ bs) h = elim (Bool-cases (newer a b)) [
  | inl first ↦
      let below : IsOlder a b = ground (arith, first) in
      rw first ((below, All-mono (λ c le. omega (arith, below, le)) bs h.0), h)
  | inr later ↦
      let below : IsOlder b a = ground (arith, later) in
      rw later (All-insert_by newer (IsOlder b) a bs below h.0, insert-IsNewestFirst a bs h.1)
]

sort-IsNewestFirst : (xs : List (Text × ℕ)) → IsNewestFirst (sort_by newer xs)
unfolding sort_by
sort-IsNewestFirst [] = tt
sort-IsNewestFirst (a ∷ as') = insert-IsNewestFirst a (sort_by newer as') (sort-IsNewestFirst as')

cut-IsNewestFirst :
    (n : ℕ) (xs : List (Text × ℕ))
    → IsNewestFirst xs
    → All (λ a. All (IsOlder a) (drop n xs)) (take n xs)
cut-IsNewestFirst zero xs h = tt
cut-IsNewestFirst (suc n) [] h = tt
cut-IsNewestFirst (suc n) (a ∷ as') h =
    (All-drop (IsOlder a) n as' h.0, cut-IsNewestFirst n as' h.1)

pub newest_first-Perm : (ips : List (Text × ℕ)) → Perm (newest_first ips) ips
unfolding newest_first
newest_first-Perm ips = sort_by-Perm newer ips

pub length-newest_first : (ips : List (Text × ℕ)) → length (newest_first ips) ≡ length ips
unfolding newest_first
length-newest_first ips = length-sort_by newer ips

-- Cut anywhere, the list has its newer addresses in front.
pub newest_in_front :
    (n : ℕ) (ips : List (Text × ℕ))
    → All (λ a. All (IsOlder a) (drop n (newest_first ips))) (take n (newest_first ips))
unfolding newest_first
newest_in_front n ips = cut-IsNewestFirst n (sort_by newer ips) (sort-IsNewestFirst ips)
