-- ===== src/Agent/Loop/Pauses.antt =====
-- The pauses of the supervisor (agent/app/control_loop.py).
use native.Mathlib.Nat.{pow-suc, mul_assoc, mul_comm, mul-le-mul_right}
use aegis_vpn.Base.{
  ◌∙◌, ap, sym, leb, Bool-cases, inl, inr, ℕ, zero, suc, ◌*◌, ◌^◌, ◌≤◌, ◌≡◌, min, List, [], ◌∷◌,
  Bool, true, false, get_elem?, some, arith,
}
use aegis_vpn.Agent.Loop.{supervise}

power_positive : (k : ℕ) → 1 ≤ 2 ^ k
power_positive zero = omega arith
power_positive (suc k) =
    let below = power_positive k in let next : 2 ^ suc k ≡ 2 ^ k * 2 = pow-suc 2 k in omega arith

-- A cap before more doublings changes nothing under a cap after them.
doubled : (n k : ℕ) → min 60 (min 60 (n * 2) * 2 ^ k) ≡ min 60 (n * 2 ^ suc k)
doubled n k =
    let positive = power_positive k in
    let next : n * 2 ^ suc k ≡ n * 2 * 2 ^ k =
      ap (λ p. n * p) (pow-suc 2 k ∙ mul_comm (2 ^ k) 2) ∙ sym (mul_assoc n 2 (2 ^ k)) in
    elim (Bool-cases (leb (n * 2) 60)) [
      | inl small ↦
          let low : min 60 (n * 2) ≡ n * 2 = ground (arith, small) in
          ap (λ m. min 60 (m * 2 ^ k)) low ∙ ap (λ m. min 60 m) (sym next)
      | inr large ↦
          let high : min 60 (n * 2) ≡ 60 = ground (arith, large) in
          let above : 60 * 2 ^ k ≤ n * 2 * 2 ^ k =
            mul-le-mul_right (2 ^ k) (ground (arith, large)) in
          ap (λ m. min 60 (m * 2 ^ k)) high ∙ omega arith
    ]

-- The supervisor's pauses double, from the first one up to a minute: from a pause of at most a
-- minute, the pause after `k` more failed runs is the first one times the power `2 ^ k`, or a
-- minute if that is longer.
pub supervise-doubles :
    (backoff k d : ℕ) (runs : List Bool)
    → backoff ≤ 60
    → get_elem? (supervise backoff runs) k ≡ some d
    → d ≡ min 60 (backoff * 2 ^ k)
unfolding supervise
supervise-doubles backoff k d [] h e = ground (arith, e)
supervise-doubles backoff k d (true ∷ runs) h e = ground (arith, e)
supervise-doubles backoff zero d (false ∷ runs) h e =
    let first : d ≡ backoff = ground (arith, e) in omega arith
supervise-doubles backoff (suc k) d (false ∷ runs) h e =
    supervise-doubles (min 60 (backoff * 2)) k d runs (omega arith) e ∙ doubled backoff k
