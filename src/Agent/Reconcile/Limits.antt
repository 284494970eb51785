-- ===== src/Agent/Reconcile/Limits.antt =====
-- agent/app/reconcile.py, agent/app/connlimit.py: the overrides that a snapshot asks for are those
-- that `replace_overrides` leaves.
use mathlib.Core.Path.{subst}
use aegis_vpn.Base.{
  ℕ, Option, none, some, List, [], ◌∷◌, ◌++◌, map, true, ◌==◌, all, if◌then◌else◌, ◌≡◌, refl, ap,
  ◌∙◌, Bool-cases, inl, inr, arith, ==_iff,
}
use aegis_vpn.Base.Int.{pos}
use aegis_vpn.Base.Dict.{insert}
use aegis_vpn.Base.Equality.{equal, equal_refl}
use aegis_vpn.Wire.{DesiredItem, client, conn_limit, cascade_service, cascade_route}
use aegis_vpn.Agent.ConnLimit.{Overrides, replace_overrides, override_of}
use aegis_vpn.Agent.Reconcile.{same_overrides, desired_overrides, option_discrete}

override_of-insert :
    (j k v : ℕ) (os : Overrides)
    → override_of j (insert k v os) ≡ (if k == j then some v else override_of j os)
unfolding override_of
override_of-insert j k v [] = refl
override_of-insert j k v ((k', v') ∷ os) = ground (arith, override_of-insert j k v os)

-- Each key stands once.
IsDict : Overrides → Type 0
IsDict [] = Unit
IsDict ((k, v) ∷ os) = (override_of k os ≡ none) × IsDict os

insert-IsDict : (k v : ℕ) (os : Overrides) → IsDict os → IsDict (insert k v os)
unfolding IsDict override_of
insert-IsDict k v [] h = (refl, tt)
insert-IsDict k v ((k', v') ∷ os) h = elim (Bool-cases (k' == k)) [
  | inl same ↦ rw same (h.0, h.1)
  | inr other ↦
      rw other (ground (arith, override_of-insert k' k v os, h.0, other), insert-IsDict k v os h.1)
]

desired_overrides-IsDict :
    (items : List DesiredItem) (os : Overrides) → IsDict os → IsDict (desired_overrides items os)
unfolding desired_overrides
desired_overrides-IsDict [] os h = h
desired_overrides-IsDict (conn_limit l ∷ items) os h =
    desired_overrides-IsDict items (insert l.user_id l.limit os)
      (insert-IsDict l.user_id l.limit os h)
desired_overrides-IsDict (client c ∷ items) os h = desired_overrides-IsDict items os h
desired_overrides-IsDict (cascade_service s ∷ items) os h = desired_overrides-IsDict items os h
desired_overrides-IsDict (cascade_route r ∷ items) os h = desired_overrides-IsDict items os h

first_of : Option ℕ → Option ℕ → Option ℕ
first_of none o = o
first_of (some n) o = some n

first_of-none : (o : Option ℕ) → first_of o (override_of 0 []) ≡ o
unfolding first_of override_of
first_of-none none = refl
first_of-none (some n) = refl

override_of-replace :
    (j : ℕ) (os acc : Overrides)
    → IsDict os
    → override_of j (replace_overrides (map (λ (o : ℕ × ℕ). (o.0, pos o.1)) os) acc)
      ≡ first_of (override_of j os) (override_of j acc)
unfolding override_of replace_overrides IsDict first_of
override_of-replace j [] acc h = refl
override_of-replace j ((k, v) ∷ os) acc h =
    override_of-replace j os (insert k v acc) h.1
    ∙ ap (first_of (override_of j os)) (override_of-insert j k v acc)
    ∙ elim (Bool-cases (k == j)) [
      | inl same ↦
          let gone : override_of j os ≡ none =
            subst (λ z. override_of z os ≡ none) ((==_iff k j).0 same) h.0 in
          rw (same, gone) refl
      | inr other ↦ rw other refl
    ]

same_entries :
    (os us es : Overrides)
    → ((j : ℕ) → override_of j os ≡ override_of j us)
    → all (λ (e : ℕ × ℕ). equal option_discrete (override_of e.0 os) (override_of e.0 us)) es ≡ true
same_entries os us [] f = refl
same_entries os us (e ∷ es) f =
    rw (f e.0, equal_refl option_discrete (override_of e.0 us)) (same_entries os us es f)

pub replaced-same :
    (items : List DesiredItem)
    → same_overrides
        (replace_overrides (map (λ (o : ℕ × ℕ). (o.0, pos o.1)) (desired_overrides items [])) [])
        (desired_overrides items [])
      ≡ true
unfolding same_overrides IsDict
replaced-same items =
    let os = desired_overrides items [] in
    let us = replace_overrides (map (λ (o : ℕ × ℕ). (o.0, pos o.1)) os) [] in
    same_entries us os (us ++ os) (λ j.
      override_of-replace j os [] (desired_overrides-IsDict items [] tt)
      ∙ first_of-none (override_of j os))
