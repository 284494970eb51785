-- ===== src/Base/Texts.antt =====
-- A Python `str` as the list of its code points, and its tests.
use Prim.Native.Nat.{ℕ}
use Prim.Native.Char.{code}
use Prim.Native.String.{String}
use mathlib.Core.Path.{◌≡◌, refl, sym, subst}
use mathlib.Core.Logic.{◌↔◌, inl, inr}
use mathlib.Core.Bool.{Bool, true, false, ◌&&◌, ◌||◌}
use mathlib.Core.List.{List, [], ◌∷◌}
use mathlib.Core.Option.{Option, none, some}
use native.Mathlib.Omega.{arith}
use aegis_vpn.Base.Lists.{All}
use aegis_vpn.Base.Tests.{Bool-cases, ◌==◌, ltb}

abbrev pub Text : Type 0
Text = List ℕ

-- A literal.
unfoldable pub codes : String → Text
codes String.[] = []
codes (String.◌∷◌ c s) = code c ∷ codes s

unfoldable pub text_eq : Text → Text → Bool
text_eq [] [] = true
text_eq [] (b ∷ bs) = false
text_eq (a ∷ as') [] = false
text_eq (a ∷ as') (b ∷ bs) = a == b && text_eq as' bs

text_eq_sound : (s t : Text) → text_eq s t ≡ true → s ≡ t
unfolding text_eq
text_eq_sound [] [] h = refl
text_eq_sound [] (b ∷ bs) h = cc
text_eq_sound (a ∷ as') [] h = cc
text_eq_sound (a ∷ as') (b ∷ bs) h = ground (arith, text_eq_sound as' bs)

pub text_eq_refl : (s : Text) → text_eq s s ≡ true
unfolding text_eq
text_eq_refl [] = refl
text_eq_refl (a ∷ as') = ground (arith, text_eq_refl as')

pub text_eq_iff : (s t : Text) → (text_eq s t ≡ true) ↔ (s ≡ t)
text_eq_iff s t = (text_eq_sound s t, λ e. rw e (text_eq_refl t))

-- Equality of values that may be `None`.
abbrev pub opt_text_eq : Option Text → Option Text → Bool
opt_text_eq none none = true
opt_text_eq none (some t) = false
opt_text_eq (some s) none = false
opt_text_eq (some s) (some t) = text_eq s t

-- `value in values`
unfoldable pub mem_text : Text → List Text → Bool
mem_text t [] = false
mem_text t (s ∷ ss) = text_eq t s || mem_text t ss

unfoldable pub starts_with : Text → Text → Bool
starts_with [] t = true
starts_with (p ∷ ps) [] = false
starts_with (p ∷ ps) (c ∷ cs) = p == c && starts_with ps cs

-- The lexicographic order of Python's `str`.
unfoldable pub text_leb : Text → Text → Bool
text_leb [] t = true
text_leb (a ∷ as') [] = false
text_leb (a ∷ as') (b ∷ bs) = ltb a b || (a == b && text_leb as' bs)

-- The empty text is false in a condition.
abbrev pub is_empty : Text → Bool
is_empty [] = true
is_empty (c ∷ cs) = false

pub All-mem {ℓ} :
    (P : Text → Type ℓ) (p : Text) (us : List Text) → mem_text p us ≡ true → All P us → P p
unfolding mem_text
All-mem P p [] m h = cc
All-mem P p (v ∷ us) m h = elim (Bool-cases (text_eq p v)) [
  | inl here ↦ subst P (sym ((text_eq_iff p v).0 here)) h.0
  | inr later ↦ All-mem P p us (ground (arith, later)) h.1
]
