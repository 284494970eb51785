-- ===== src/Base/Equality.antt =====
-- The `==` of Python values whose equality is decidable.
use aegis_vpn.Base.{◌≡◌, refl, ◌↔◌, Bool, true, false}

unfoldable pub equal {ℓ} : {A : Type ℓ} → Discrete A → A → A → Bool
equal d a b = elim (d a b) [ yes e ↦ true | no e ↦ false ]

pub equal_iff {ℓ} : {A : Type ℓ} (d : Discrete A) (a b : A) → (equal d a b ≡ true) ↔ (a ≡ b)
unfolding equal
equal_iff d a b = elim (d a b) as (λ t. (elim t [ yes e ↦ true | no e ↦ false ] ≡ true) ↔ (a ≡ b)) [
  | yes e ↦ (λ h. e, λ h. refl)
  | no e ↦ (λ h. cc, λ h. absurd (e h))
]

pub equal_refl {ℓ} : {A : Type ℓ} (d : Discrete A) (a : A) → equal d a a ≡ true
equal_refl d a = (equal_iff d a a).1 refl
