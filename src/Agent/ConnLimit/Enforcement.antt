-- ===== src/Agent/ConnLimit/Enforcement.antt =====
-- What one cycle of the connection limit blocks (agent/app/connlimit.py).
use mathlib.Core.List.{Memᴰ}
use mathlib.Core.List.{Perm}
use aegis_vpn.Base.{
  drop-eq-nil, min, sym, length-take, take-append-drop, ℕ, ◌+◌, ◌-◌, ◌<◌, ◌≡◌, refl, Text, Option,
  none, some, List, [], ◌∷◌, ◌++◌, false, map, take, drop, length, All, All-append, arith, inl, inr,
  Bool-cases, Option-cases, ap, ◌∙◌, Bool, leb, ltb, All-mono, ◌&&◌,
}
use mathlib.Core.Path.{subst}
use aegis_vpn.Base.Members.{All-map, Mem-map, All-sort_by}
use aegis_vpn.Agent.ConnLimit.Newest.{
  All-drop, IsOlder, length-newest_first, newest_first-Perm, newest_in_front,
}
use aegis_vpn.Agent.ConnLimit.{
  emails_of, has_any, Overrides, Sample, Decision, Cycle, limit_for, hy2_count, newest_first,
  overflow, decide, enforce_conn_limit_once, not,
}

abbrev addresses : List (Text × ℕ) → List Text
addresses ips = map (λ (ip : Text × ℕ). ip.0) ips

overflow-drop :
    (limit hy2 : ℕ) (ips : List (Text × ℕ))
    → overflow limit hy2 ips ≡ addresses (drop (limit - hy2) (newest_first ips))
unfolding overflow
overflow-drop limit hy2 ips =
    let sorted = newest_first ips in
    let counted = length-newest_first ips in
    elim (Bool-cases (ltb (limit - hy2) (length ips))) [
      | inl cut ↦ ground (arith, cut)
      | inr fits ↦
          let nothing : drop (limit - hy2) sorted ≡ [] =
            drop-eq-nil (limit - hy2) sorted (ground (arith, fits, counted)) in
          ground (arith, fits, nothing)
    ]

-- A user's addresses fall into those that are kept and those that are blocked, and into nothing else.
-- As many are kept as the limit leaves beside the user's Hysteria sessions, or all if there are no
-- more, and none if the sessions alone reach the limit; and no blocked address was seen later than
-- a kept one.
pub overflow-kept :
    (limit hy2 : ℕ) (ips : List (Text × ℕ))
    → (kept : List (Text × ℕ)) × (blocked : List (Text × ℕ)) × Perm (kept ++ blocked) ips
      × (overflow limit hy2 ips ≡ map (λ (ip : Text × ℕ). ip.0) blocked)
      × (length kept ≡ min (limit - hy2) (length ips))
      × All (λ k. All (IsOlder k) blocked) kept
overflow-kept limit hy2 ips =
    let sorted = newest_first ips in
    let whole = take-append-drop (limit - hy2) sorted in
    (
      take (limit - hy2) sorted,
      drop (limit - hy2) sorted,
      subst (λ l. Perm l ips) (sym whole) (newest_first-Perm ips),
      overflow-drop limit hy2 ips,
      length-take (limit - hy2) sorted ∙ ap (min (limit - hy2)) (length-newest_first ips),
      newest_in_front (limit - hy2) ips,
    )

All-members {ℓ} : {A : Type ℓ} (xs : List A) → All (λ x. Memᴰ x xs) xs
All-members [] = tt
All-members (x ∷ xs) = (Memᴰ.head refl, All-mono (λ y m. Memᴰ.tail m) xs (All-members xs))

-- Blocked addresses are addresses of the user, who is over the limit.
overflow-Mem :
    (limit hy2 : ℕ) (ips : List (Text × ℕ))
    → All (λ t. Memᴰ t (addresses ips) × (limit < length ips + hy2)) (overflow limit hy2 ips)
unfolding overflow newest_first
overflow-Mem limit hy2 ips = elim (Bool-cases (leb (length ips + hy2) limit)) [
  | inl within ↦
      let nothing : overflow limit hy2 ips ≡ [] = ground (arith, within) in
      subst (All (λ t. Memᴰ t (addresses ips) × (limit < length ips + hy2))) (sym nothing) tt
  | inr over ↦ elim (Bool-cases (ltb (limit - hy2) (length ips))) [
    | inl cut ↦
        let rest : overflow limit hy2 ips ≡ addresses (drop (limit - hy2) (newest_first ips)) =
          ground (arith, over, cut) in
        subst (All (λ t. Memᴰ t (addresses ips) × (limit < length ips + hy2))) (sym rest) (
          All-map (λ (ip : Text × ℕ). Memᴰ ip ips)
            (λ t. Memᴰ t (addresses ips) × (limit < length ips + hy2)) (λ (ip : Text × ℕ). ip.0)
            (λ ip m. (Mem-map (λ (ip : Text × ℕ). ip.0) m, ground (arith, over)))
            (drop (limit - hy2) (newest_first ips))
            (All-drop (λ (ip : Text × ℕ). Memᴰ ip ips) (limit - hy2) (newest_first ips)
              (All-sort_by (λ (a b : Text × ℕ). leb b.1 a.1) (λ (ip : Text × ℕ). Memᴰ ip ips) ips
                (All-members ips))))
    | inr fits ↦
        let nothing : overflow limit hy2 ips ≡ [] = ground (arith, over, fits) in
        subst (All (λ t. Memᴰ t (addresses ips) × (limit < length ips + hy2))) (sym nothing) tt
  ]
]

-- An address of a user who is limited and has more connections than the limit.
pub record IsExcess (node_limit : ℕ) (os : Overrides) (s : Sample) (t : Text) : Type 0 where
  pub email : Text
  pub ips : List (Text × ℕ)
  pub reported : s.ips email ≡ some ips
  pub limited : 0 < limit_for node_limit os email
  pub over : limit_for node_limit os email < length ips + hy2_count email s.hy2_counts
  pub among : Memᴰ t (map (λ (ip : Text × ℕ). ip.0) ips)

decide-IsExcess :
    (node_limit : ℕ) (os : Overrides) (s : Sample) (emails : List Text) (d : Decision)
    → decide node_limit os s emails ≡ some d
    → All (IsExcess node_limit os s) d.excess
unfolding decide
decide-IsExcess node_limit os s [] d e =
    let none_yet : d.excess ≡ [] = ground (arith, e) in
    subst (All (IsExcess node_limit os s)) (sym none_yet) tt
decide-IsExcess node_limit os s (email ∷ emails) d e =
    let limit = limit_for node_limit os email in
    let hy2 = hy2_count email s.hy2_counts in
    elim (Option-cases (decide node_limit os s emails)) [
      | inl failed ↦ ground (arith, failed, e)
      | inr (rest, later) ↦
          let ih = decide-IsExcess node_limit os s emails rest later in
          elim (Bool-cases (leb limit 0)) [
            | inl free ↦
                let same : d.excess ≡ rest.excess = ground (arith, free, later, e) in
                subst (All (IsExcess node_limit os s)) (sym same) ih
            | inr limited ↦ elim (Option-cases (s.ips email)) [
              | inl failed ↦ ground (arith, limited, failed, later, e)
              | inr (ips, reported) ↦
                  let both : d.excess ≡ overflow limit hy2 ips ++ rest.excess =
                    ground (arith, limited, reported, later, e) in
                  subst (All (IsExcess node_limit os s)) (sym both) (
                    All-append (IsExcess node_limit os s) (overflow limit hy2 ips) rest.excess
                      (All-mono
                        (λ t m. record {
                          email = email;
                          ips = ips;
                          reported = reported;
                          limited = ground (arith, limited);
                          over = m.1;
                          among = m.0;
                        })
                        (overflow limit hy2 ips) (overflow-Mem limit hy2 ips))
                      ih)
            ]
          ]
    ]

has_any_none : (ts : List Text) → has_any ts ≡ false → ts ≡ []
unfolding has_any
has_any_none [] h = refl
has_any_none (t ∷ ts) h = ground (arith, h)

-- The addresses that Xray blocks after a cycle whose call, if it was made, succeeded.
abbrev pub rule_after : Option (List Text) → List Text → List Text
rule_after none installed = installed
rule_after (some rule) installed = rule

-- After a cycle that returns, whether or not it called Xray, every blocked address is one of a user
-- who is limited and over the limit in this cycle's sample; and if the cycle noted no excess, none
-- is blocked. It is assumed that none was blocked before if the previous cycle noted no excess, and
-- that a call of Xray succeeds.
pub enforce_blocks :
    (node_limit : ℕ) (os : Overrides) (prev : Bool) (s : Sample) (installed : List Text) (c : Cycle)
    → (prev ≡ false → installed ≡ [])
    → enforce_conn_limit_once node_limit os prev s ≡ some c
    → All (IsExcess node_limit os s) (rule_after c.block_rule installed)
      × (c.had_excess ≡ false → rule_after c.block_rule installed ≡ [])
unfolding enforce_conn_limit_once
enforce_blocks node_limit os prev s installed c clean e =
    elim (Option-cases (decide node_limit os s (emails_of s.online s.hy2_counts))) [
      | inl failed ↦ ground (arith, failed, e)
      | inr (d, decided) ↦
          let excess =
            decide-IsExcess node_limit os s (emails_of s.online s.hy2_counts) d decided in
          elim (Bool-cases (not (has_any d.excess) && not prev)) [
            | inl quiet ↦
                let skipped : c.block_rule ≡ none = ground (arith, quiet, decided, e) in
                let still : rule_after c.block_rule installed ≡ [] =
                  ap (λ r. rule_after r installed) skipped ∙ clean (ground (arith, quiet)) in
                (subst (All (IsExcess node_limit os s)) (sym still) tt, λ h. still)
            | inr called ↦
                let given : c.block_rule ≡ some d.excess = ground (arith, called, decided, e) in
                let now : rule_after c.block_rule installed ≡ d.excess =
                  ap (λ r. rule_after r installed) given in
                let noted : c.had_excess ≡ has_any d.excess = ground (arith, called, decided, e) in
                (
                  subst (All (IsExcess node_limit os s)) (sym now) excess,
                  λ h. now ∙ has_any_none d.excess (sym noted ∙ h),
                )
          ]
    ]
