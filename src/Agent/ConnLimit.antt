-- ===== src/Agent/ConnLimit.antt =====
-- agent/app/connlimit.py: the limit on a user's simultaneous connections, over Xray's source IPs and
-- Hysteria's sessions together. What the two servers report is an argument; the set of e-mails is
-- a list without repetition.
pub mod Enforcement
pub mod Newest
use aegis_vpn.Base.{
  ℕ, zero, suc, ◌+◌, ◌-◌, ◌*◌, max, Text, codes, Option, none, some, List, [], ◌∷◌, ◌++◌, Bool,
  true, false, ◌==◌, ◌&&◌, not, ltb, leb, if◌then◌else◌, map, select, drop, length, all, text_eq,
  mem_text, sort_by, is_empty, find?,
}
use aegis_vpn.Base.Int.{ℤ, max_zero}
use aegis_vpn.Base.Dict.{Dict, insert}

-- `_overrides`
abbrev pub Overrides : Type 0
Overrides = Dict ℕ

-- `set_override`, in memory.
unfoldable pub set_override : ℕ → Option ℤ → Overrides → Overrides
set_override user_id none os = select (λ (o : ℕ × ℕ). not (o.0 == user_id)) os
set_override user_id (some limit) os = insert user_id (max_zero limit) os

-- `replace_overrides`, where the write succeeds: the dict is built from its items in their order.
unfoldable pub replace_overrides : List (ℕ × ℤ) → Overrides → Overrides
replace_overrides [] done = done
replace_overrides ((user_id, limit) ∷ rest) done =
    replace_overrides rest (insert user_id (max_zero limit) done)

-- `text.split("_")`
unfoldable pub split_underscore : Text → List Text
split_underscore [] = [] ∷ []
split_underscore (c ∷ cs) =
    let parts = split_underscore cs in
    if c == b'_' then [] ∷ parts else elim parts [ [] ↦ (c ∷ []) ∷ [] | p ∷ ps ↦ (c ∷ p) ∷ ps ]

is_digit : ℕ → Bool
is_digit c = leb b'0' c && leb c b'9'

-- `int` of ASCII digits, the most significant first.
decimal_value : ℕ → Text → ℕ
decimal_value n [] = n
decimal_value n (c ∷ cs) = decimal_value (10 * n + (c - b'0')) cs

user_id_of_parts : List Text → Option ℕ
unfolding is_digit decimal_value
user_id_of_parts (head ∷ number ∷ rest) =
    if text_eq head (codes "user") && not (is_empty number) && all is_digit number
    then some (decimal_value 0 number)
    else none
user_id_of_parts (head ∷ []) = none
user_id_of_parts [] = none

-- `_user_id_from_email`
unfoldable pub user_id_from_email : Text → Option ℕ
unfolding split_underscore user_id_of_parts
user_id_from_email email = user_id_of_parts (split_underscore email)

unfoldable pub override_of : ℕ → Overrides → Option ℕ
override_of user_id [] = none
override_of user_id ((other, limit) ∷ os) =
    if other == user_id then some limit else override_of user_id os

-- `_limit_for`; the node's default is `settings.conn_limit`.
unfoldable pub limit_for : ℕ → Overrides → Text → ℕ
unfolding user_id_from_email override_of
limit_for node_limit os email = elim (user_id_from_email email) [
  | none ↦ node_limit
  | some user_id ↦ elim (override_of user_id os) [ none ↦ node_limit | some limit ↦ limit ]
]

-- What the servers report in one cycle. `ips` is `none` for a user whose query fails.
pub record Sample : Type 0 where
  pub online : List Text
  pub hy2_counts : List (Text × ℕ)
  pub ips : Text → Option (List (Text × ℕ))

add_email : Text → List Text → List Text
add_email t ts = if mem_text t ts then ts else t ∷ ts

-- `set(online) | set(hy2_counts)`
emails_of : List Text → List (Text × ℕ) → List Text
unfolding add_email
emails_of [] [] = []
emails_of [] ((t, n) ∷ counts) = add_email t (emails_of [] counts)
emails_of (t ∷ ts) counts = add_email t (emails_of ts counts)

-- `hy2_counts.get(email, 0)`
unfoldable pub hy2_count : Text → List (Text × ℕ) → ℕ
hy2_count email [] = 0
hy2_count email ((t, n) ∷ counts) = if text_eq t email then n else hy2_count email counts

-- `sorted(ips.items(), key=…, reverse=True)`: the newest first.
unfoldable pub newest_first : List (Text × ℕ) → List (Text × ℕ)
newest_first ips = sort_by (λ (a b : Text × ℕ). leb b.1 a.1) ips

-- The IPs of one limited user that are blocked.
unfoldable pub overflow : ℕ → ℕ → List (Text × ℕ) → List Text
unfolding newest_first
overflow limit hy2 ips =
    let xray_keep = limit - hy2 in
    if leb (length ips + hy2) limit
    then []
    else if ltb xray_keep (length ips)
    then map (λ (ip : Text × ℕ). ip.0) (drop xray_keep (newest_first ips))
    else []

unfoldable pub must_kick : ℕ → ℕ → List (Text × ℕ) → Bool
must_kick limit hy2 ips = not (leb (length ips + hy2) limit) && ltb 0 hy2

-- The blocked IPs and the users to kick.
pub record Decision : Type 0 where
  pub excess : List Text
  pub hy2_kick : List Text

-- The loop over the users, whose IPs have been queried before it.
unfoldable pub decide : ℕ → Overrides → Sample → List Text → Option Decision
unfolding overflow must_kick limit_for hy2_count
decide node_limit os s [] = some (record { excess = []; hy2_kick = [] })
decide node_limit os s (email ∷ emails) =
    let limit = limit_for node_limit os email in
    let hy2 = hy2_count email s.hy2_counts in
    elim (decide node_limit os s emails) [
      | none ↦ none
      | some rest ↦ if leb limit 0 then some rest else elim (s.ips email) [
        | none ↦ none
        | some ips ↦ some (record {
          excess = overflow limit hy2 ips ++ rest.excess;
          hy2_kick = (if must_kick limit hy2 ips then email ∷ [] else []) ++ rest.hy2_kick;
        })
      ]
    ]

-- What a cycle does: the sessions it kicks, the list that it gives to Xray if it calls it, and what
-- it leaves in `_prev_had_excess`.
pub record Cycle : Type 0 where
  pub kicked : List Text
  pub block_rule : Option (List Text)
  pub had_excess : Bool
  pub blocked : ℕ

has_any : List Text → Bool
has_any [] = false
has_any (t ∷ ts) = true

-- `enforce_conn_limit_once`; `none` is `StatsQueryError`.
unfoldable pub enforce_conn_limit_once : ℕ → Overrides → Bool → Sample → Option Cycle
unfolding decide emails_of has_any
enforce_conn_limit_once node_limit os prev_had_excess s =
    elim (decide node_limit os s (emails_of s.online s.hy2_counts)) [
      | none ↦ none
      | some d ↦
          if not (has_any d.excess) && not prev_had_excess
          then some
              (record { kicked = d.hy2_kick; block_rule = none; had_excess = false; blocked = 0 })
          else some (record {
            kicked = d.hy2_kick;
            block_rule = some d.excess;
            had_excess = has_any d.excess;
            blocked = length d.excess;
          })
    ]
