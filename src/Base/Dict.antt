-- ===== src/Base/Dict.antt =====
-- A Python dict keyed by integers or by texts, in insertion order: what the modelled code does with one is to
-- set a key, and to read its entries in order.
use aegis_vpn.Base.{ℕ, Text, text_eq, Option, none, some, List, [], ◌∷◌, ◌==◌, if◌then◌else◌}

abbrev pub Dict {ℓ} : Type ℓ → Type ℓ
Dict Value = List (ℕ × Value)

-- A key that is there keeps its place.
abbrev pub insert {ℓ} : {Value : Type ℓ} → ℕ → Value → Dict Value → Dict Value
insert key value [] = (key, value) ∷ []
insert key value ((there, old) ∷ entries) =
    if there == key then (there, value) ∷ entries else (there, old) ∷ insert key value entries

module _ {ℓ} {Value : Type ℓ} where
  abbrev pub put : Text → Value → List (Text × Value) → List (Text × Value)
  put key value [] = (key, value) ∷ []
  put key value ((there, old) ∷ entries) =
      if text_eq there key then (there, value) ∷ entries else (there, old) ∷ put key value entries

  abbrev pub get : Text → List (Text × Value) → Option Value
  get key [] = none
  get key ((there, value) ∷ entries) = if text_eq there key then some value else get key entries

  put_all : List (Text × Value) → List (Text × Value) → List (Text × Value)
  put_all [] entries = entries
  put_all ((key, value) ∷ items) entries = put_all items (put key value entries)

  -- `{key: value for key, value in items}`
  unfoldable pub of_items : List (Text × Value) → List (Text × Value)
  unfolding put_all
  of_items items = put_all items []
