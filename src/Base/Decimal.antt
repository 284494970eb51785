-- ===== src/Base/Decimal.antt =====
-- `str(n)` of a natural number, and the zero-padded `f"{n:020d}"`.
use aegis_vpn.Base.{
  ℕ, zero, suc, ◌+◌, ◌-◌, ◌/◌, ◌%◌, Text, [], ◌∷◌, ◌++◌, ltb, length, if◌then◌else◌,
}

-- The digits of `n`, with fuel; `n + 1` rounds are enough.
unfoldable pub digits : ℕ → ℕ → Text
digits zero n = []
digits (suc fuel) n =
    let rest = digits fuel (n / 10) ++ (b'0' + n % 10) ∷ [] in
    if ltb n 10 then (b'0' + n) ∷ [] else rest

unfoldable pub show : ℕ → Text
unfolding digits
show n = digits (suc n) n

zeros : ℕ → Text
zeros zero = []
zeros (suc n) = b'0' ∷ zeros n

-- `f"{n:020d}"`
unfoldable pub show_padded : ℕ → Text
unfolding zeros show
show_padded n = let t = show n in zeros (20 - length t) ++ t
