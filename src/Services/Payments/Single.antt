-- ===== src/Services/Payments/Single.antt =====
-- bot/src/services/payment_service.py: the row that a payment writes is the user's only active one.
use aegis_vpn.Base.{
  ℕ, some, List, [], ◌∷◌, ◌++◌, Bool, true, false, ◌&&◌, ◌==◌, ==_iff, leb, select, select-append,
  sort_by, All, if◌then◌else◌, ◌≡◌, refl, sym, ap, ◌∙◌, Bool-cases, inl, inr, arith, and-true,
}
use mathlib.Core.List.{Memᴰ}
use mathlib.Core.Path.{subst}
use aegis_vpn.Base.Members.{All-select_where, All-sort_by}
use aegis_vpn.Control.Db.{Subscription}
use aegis_vpn.Services.Access.Users.{active_of, is_among}
use aegis_vpn.Services.Payments.{write_subscription, latest_of, first_row}

same_row : (s t : Subscription) → some s ≡ some t → s ≡ t
same_row s t e = cc

-- The primary key: no two rows have one id.
abbrev pub IsKeyed : List Subscription → Type 0
IsKeyed [] = Unit
IsKeyed (s ∷ ss) = (is_among s.id ss ≡ false) × IsKeyed ss

unfoldable pub is_active_of : ℕ → Subscription → Bool
is_active_of user_id s = s.user_id == user_id && s.is_active

active_of-here :
    (user_id : ℕ) (s : Subscription) (ss : List Subscription)
    → is_active_of user_id s ≡ true
    → active_of user_id (s ∷ ss) ≡ s ∷ active_of user_id ss
unfolding active_of is_active_of
active_of-here user_id s ss e = rw e refl

active_of-not_here :
    (user_id : ℕ) (s : Subscription) (ss : List Subscription)
    → is_active_of user_id s ≡ false
    → active_of user_id (s ∷ ss) ≡ active_of user_id ss
unfolding active_of is_active_of
active_of-not_here user_id s ss e = rw e refl

-- Where no row has an id, no active row has it.
active_of-absent :
    (user_id k : ℕ) (ss : List Subscription)
    → All (λ (s : Subscription). s.id ≡ k) (active_of user_id ss)
    → is_among k ss ≡ false
    → active_of user_id ss ≡ []
active_of-absent user_id k [] h g = unfold active_of in refl
active_of-absent user_id k (s ∷ ss) h g = elim (Bool-cases (is_active_of user_id s)) [
  | inl active ↦
      let h' : (s.id ≡ k) × All (λ (t : Subscription). t.id ≡ k) (active_of user_id ss) =
        subst (All (λ (t : Subscription). t.id ≡ k)) (active_of-here user_id s ss active) h in
      absurd (ground (arith, h'.0, g))
  | inr idle ↦
      active_of-not_here user_id s ss idle
      ∙ active_of-absent user_id k ss
          (subst (All (λ (t : Subscription). t.id ≡ k)) (active_of-not_here user_id s ss idle) h)
          (ground (arith, g))
]

only_later :
    (user_id k : ℕ) (t : Subscription) (ts : List Subscription)
    → All (λ (u : Subscription). u.id ≡ k) (active_of user_id (t ∷ ts))
    → All (λ (u : Subscription). u.id ≡ k) (active_of user_id ts)
only_later user_id k t ts h = elim (Bool-cases (is_active_of user_id t)) [
  | inl active ↦
      let h' : (t.id ≡ k) × All (λ (u : Subscription). u.id ≡ k) (active_of user_id ts) =
        subst (All (λ (u : Subscription). u.id ≡ k)) (active_of-here user_id t ts active) h in
      h'.1
  | inr idle ↦ subst (All (λ (u : Subscription). u.id ≡ k)) (active_of-not_here user_id t ts idle) h
]

written_here :
    (user_id : ℕ) (s t : Subscription) (ts : List Subscription)
    → (t.id == s.id) ≡ true
    → active_of user_id (write_subscription s (t ∷ ts)) ≡ active_of user_id (s ∷ ts)
unfolding write_subscription
written_here user_id s t ts here =
    ap (λ b. active_of user_id (if b then s ∷ ts else t ∷ write_subscription s ts)) here

written_later :
    (user_id : ℕ) (s t : Subscription) (ts : List Subscription)
    → (t.id == s.id) ≡ false
    → active_of user_id (write_subscription s (t ∷ ts))
      ≡ active_of user_id (t ∷ write_subscription s ts)
unfolding write_subscription
written_later user_id s t ts other =
    ap (λ b. active_of user_id (if b then s ∷ ts else t ∷ write_subscription s ts)) other

-- An active row of the user is written over a row with its id, where no other active one is.
pub active_of-write :
    (user_id : ℕ) (s : Subscription) (ss : List Subscription)
    → is_active_of user_id s ≡ true
    → IsKeyed ss
    → is_among s.id ss ≡ true
    → All (λ (t : Subscription). t.id ≡ s.id) (active_of user_id ss)
    → active_of user_id (write_subscription s ss) ≡ s ∷ []
active_of-write user_id s [] active keyed there h = cc
active_of-write user_id s (t ∷ ts) active keyed there h = elim (Bool-cases (t.id == s.id)) [
  | inl here ↦
      let absent : is_among s.id ts ≡ false =
        subst (λ k. is_among k ts ≡ false) ((==_iff t.id s.id).0 here) keyed.0 in
      written_here user_id s t ts here
      ∙ active_of-here user_id s ts active
      ∙ ap (λ rest. s ∷ rest)
          (active_of-absent user_id s.id ts (only_later user_id s.id t ts h) absent)
  | inr other ↦ elim (Bool-cases (is_active_of user_id t)) [
    | inl also ↦
        let h' : (t.id ≡ s.id) × All (λ (u : Subscription). u.id ≡ s.id) (active_of user_id ts) =
          subst (All (λ (u : Subscription). u.id ≡ s.id)) (active_of-here user_id t ts also) h in
        absurd (ground (arith, h'.0, other))
    | inr idle ↦
        written_later user_id s t ts other
        ∙ active_of-not_here user_id t (write_subscription s ts) idle
        ∙ active_of-write user_id s ts active keyed.1 (ground (arith, there, other))
            (only_later user_id s.id t ts h)
  ]
]

pub active_of-append :
    (user_id : ℕ) (s : Subscription) (ss : List Subscription)
    → is_active_of user_id s ≡ true
    → active_of user_id ss ≡ []
    → active_of user_id (ss ++ s ∷ []) ≡ s ∷ []
unfolding active_of is_active_of
active_of-append user_id s ss active e =
    select-append (λ (t : Subscription). t.user_id == user_id && t.is_active) ss (s ∷ [])
    ∙ rw (e, active) refl

-- A member of the rows is among them by its id.
pub is_among-Mem : (s : Subscription) (ss : List Subscription) → Memᴰ s ss → is_among s.id ss ≡ true
is_among-Mem s [] m = elim m [ ]
is_among-Mem s (t ∷ ts) (Memᴰ.head e) =
    let same : (t.id == s.id) ≡ true =
      (==_iff t.id s.id).1 (ap (λ (u : Subscription). u.id) (sym e)) in
    ground (arith, same)
is_among-Mem s (t ∷ ts) (Memᴰ.tail m) = ground (arith, is_among-Mem s ts m)

first_of_all {ℓ} :
    (P : Subscription → Type ℓ) (ss : List Subscription) (s : Subscription)
    → All P ss
    → first_row ss ≡ some s
    → P s
first_of_all P [] s h e = cc
first_of_all P (t ∷ ts) s h e = subst P (same_row t s e) h.0

pub latest_of-Mem :
    (user_id : ℕ) (subs : List Subscription) (s : Subscription)
    → latest_of user_id subs ≡ some s
    → Memᴰ s subs × (s.user_id ≡ user_id)
unfolding latest_of
latest_of-Mem user_id subs s e =
    let chosen = select (λ (t : Subscription). t.user_id == user_id) subs in
    first_of_all (λ t. Memᴰ t subs × (t.user_id ≡ user_id))
      (sort_by (λ (a b : Subscription). leb b.expires_at a.expires_at) chosen) s
      (All-sort_by (λ (a b : Subscription). leb b.expires_at a.expires_at)
        (λ t. Memᴰ t subs × (t.user_id ≡ user_id)) chosen
        (All-select_where (λ t. Memᴰ t subs × (t.user_id ≡ user_id))
          (λ (t : Subscription). t.user_id == user_id) subs
          (λ t m e'. (m, (==_iff t.user_id user_id).0 e'))))
      e

-- The only active row of the user is among the rows, and the user's.
pub active_of-Mem :
    (user_id : ℕ) (subs : List Subscription) (s : Subscription) (rest : List Subscription)
    → active_of user_id subs ≡ s ∷ rest
    → Memᴰ s subs × (s.user_id ≡ user_id) × (s.is_active ≡ true)
active_of-Mem user_id subs s rest e =
    let found : All
        (λ (t : Subscription). Memᴰ t subs × (t.user_id ≡ user_id) × (t.is_active ≡ true))
        (active_of user_id subs) =
      unfold active_of in
      All-select_where
        (λ (t : Subscription). Memᴰ t subs × (t.user_id ≡ user_id) × (t.is_active ≡ true))
        (λ (t : Subscription). t.user_id == user_id && t.is_active) subs
        (λ t m e'.
          let (mine, active) = and-true (t.user_id == user_id) t.is_active e' in
          (m, (==_iff t.user_id user_id).0 mine, active)) in
    let first : All
        (λ (t : Subscription). Memᴰ t subs × (t.user_id ≡ user_id) × (t.is_active ≡ true))
        (s ∷ rest) =
      subst (All (λ (t : Subscription). Memᴰ t subs × (t.user_id ≡ user_id) × (t.is_active ≡ true)))
        e found in
    first.0
