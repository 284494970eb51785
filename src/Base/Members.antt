-- ===== src/Base/Members.antt =====
-- Members of the lists that queries and loops make.

use mathlib.Core.List.{Memᴰ}
use mathlib.Core.Path.{subst}
use aegis_vpn.Base.{
  List, [], ◌∷◌, ◌++◌, map, select, All, insert_by, sort_by, ◌≡◌, refl, sym, ap, Bool, true,
  Bool-cases, inl, inr,
}

module _ {ℓ} {A : Type ℓ} where
  pub Mem-append_left : {x : A} {xs : List A} (ys : List A) → Memᴰ x xs → Memᴰ x (xs ++ ys)
  Mem-append_left ys (Memᴰ.head e) = Memᴰ.head e
  Mem-append_left ys (Memᴰ.tail m) = Memᴰ.tail (Mem-append_left ys m)

  pub Mem-append_right : {x : A} (xs : List A) {ys : List A} → Memᴰ x ys → Memᴰ x (xs ++ ys)
  Mem-append_right [] m = m
  Mem-append_right (y ∷ xs) m = Memᴰ.tail (Mem-append_right xs m)

  pub Mem-map {κ} :
      {B : Type κ} (f : A → B) {x : A} {xs : List A} → Memᴰ x xs → Memᴰ (f x) (map f xs)
  Mem-map f (Memᴰ.head e) = Memᴰ.head (ap f e)
  Mem-map f (Memᴰ.tail m) = Memᴰ.tail (Mem-map f m)

  pub Mem-select :
      (p : A → Bool) (x : A) (xs : List A) → p x ≡ true → Memᴰ x xs → Memᴰ x (select p xs)
  Mem-select p x [] h m = elim m [ ]
  Mem-select p x (y ∷ ys) h (Memᴰ.head e) =
      let chosen : p y ≡ true = rw (sym e) h in rw chosen (Memᴰ.head e)
  Mem-select p x (y ∷ ys) h (Memᴰ.tail m) = elim (Bool-cases (p y)) [
    | inl chosen ↦ rw chosen (Memᴰ.tail (Mem-select p x ys h m))
    | inr passed ↦ rw passed (Mem-select p x ys h m)
  ]

  -- A member of the list satisfies what all of it do.
  pub All-select_where {κ} :
      (P : A → Type κ) (p : A → Bool) (xs : List A)
      → ((x : A) → Memᴰ x xs → p x ≡ true → P x)
      → All P (select p xs)
  All-select_where P p [] f = tt
  All-select_where P p (x ∷ xs) f =
      let rest = All-select_where P p xs (λ y m h. f y (Memᴰ.tail m) h) in
      elim (Bool-cases (p x)) [
        | inl chosen ↦ rw chosen (f x (Memᴰ.head refl) chosen, rest)
        | inr passed ↦ rw passed rest
      ]

  pub All-map {κ μ} :
      {B : Type κ} (P : A → Type μ) (Q : B → Type μ) (f : A → B)
      → ((x : A) → P x → Q (f x))
      → (xs : List A) → All P xs
      → All Q (map f xs)
  All-map P Q f g [] h = tt
  All-map P Q f g (x ∷ xs) h = (g x h.0, All-map P Q f g xs h.1)

  -- A member of the tail may stand in another one.
  Mem-cons :
      (x y : A) (xs ys : List A) → Memᴰ x (y ∷ xs) → (Memᴰ x xs → Memᴰ x ys) → Memᴰ x (y ∷ ys)
  Mem-cons x y xs ys (Memᴰ.head e) f = Memᴰ.head e
  Mem-cons x y xs ys (Memᴰ.tail m) f = Memᴰ.tail (f m)

  module _ (le : A → A → Bool) where
    Mem-insert_here : (x : A) (xs : List A) → Memᴰ x (insert_by le x xs)
    unfolding insert_by
    Mem-insert_here x [] = Memᴰ.head refl
    Mem-insert_here x (y ∷ ys) = elim (Bool-cases (le x y)) [
      | inl before ↦ rw before (Memᴰ.head refl)
      | inr after ↦ rw after (Memᴰ.tail (Mem-insert_here x ys))
    ]

    Mem-insert_there : (x z : A) (xs : List A) → Memᴰ x xs → Memᴰ x (insert_by le z xs)
    unfolding insert_by
    Mem-insert_there x z [] m = elim m [ ]
    Mem-insert_there x z (y ∷ ys) m = elim (Bool-cases (le z y)) [
      | inl before ↦ rw before (Memᴰ.tail m)
      | inr after ↦ rw after (Mem-cons x y ys (insert_by le z ys) m (Mem-insert_there x z ys))
    ]

    pub Mem-sort_by : (x : A) (xs : List A) → Memᴰ x xs → Memᴰ x (sort_by le xs)
    unfolding sort_by
    Mem-sort_by x [] m = elim m [ ]
    Mem-sort_by x (y ∷ ys) (Memᴰ.head e) =
        subst (λ z. Memᴰ z (insert_by le y (sort_by le ys))) (sym e)
          (Mem-insert_here y (sort_by le ys))
    Mem-sort_by x (y ∷ ys) (Memᴰ.tail m) = Mem-insert_there x y (sort_by le ys) (Mem-sort_by x ys m)

    pub All-insert_by {κ} :
        (P : A → Type κ) (x : A) (xs : List A) → P x → All P xs → All P (insert_by le x xs)
    unfolding insert_by
    All-insert_by P x [] p h = (p, tt)
    All-insert_by P x (y ∷ ys) p h = elim (Bool-cases (le x y)) [
      | inl before ↦ rw before (p, h)
      | inr after ↦ rw after (h.0, All-insert_by P x ys p h.1)
    ]

    pub All-sort_by {κ} : (P : A → Type κ) (xs : List A) → All P xs → All P (sort_by le xs)
    unfolding sort_by
    All-sort_by P [] h = tt
    All-sort_by P (x ∷ xs) h = All-insert_by P x (sort_by le xs) h.0 (All-sort_by P xs h.1)
