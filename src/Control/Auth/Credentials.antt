-- ===== src/Control/Auth/Credentials.antt =====
-- What a request must carry to be taken for a server (bot/src/control/auth.py).
use aegis_vpn.Base.{
  ℕ, ◌≤◌, ◌≡◌, Text, Option, none, some, List, [], ◌∷◌, true, false, select, arith, text_eq_iff,
  is_empty, inl, inr, Bool, Bool-cases, Option-cases, sym, ap, ◌≢◌,
}
use aegis_vpn.Base.Result.{ok}
use aegis_vpn.Control.Db.{Server}
use aegis_vpn.Control.Router.{is_controlled}
use aegis_vpn.Control.Auth.{
  Headers, normalize_fingerprint, partition, matches, current_pair, previous_pair, authenticates,
  authenticate_node, the_only,
}

-- A whole pair of the server: the fingerprint and the token of one and the same issue.
pub data HasPair (hash : Text → Text) (now : ℕ) (fingerprint token : Text) (s : Server)
    : Type 0 where
  current :
      s.control_cert_fingerprint ≡ some fingerprint
      → s.control_token_hash ≡ some (hash token)
      → HasPair hash now fingerprint token s
  previous :
      (t : ℕ)
      → s.control_previous_credential_expires_at ≡ some t
      → now ≤ t
      → s.control_previous_cert_fingerprint ≡ some fingerprint
      → s.control_previous_token_hash ≡ some (hash token)
      → HasPair hash now fingerprint token s

matches_sound : (o : Option Text) (t : Text) → matches o t ≡ true → o ≡ some t
unfolding matches
matches_sound none t e = ground arith
matches_sound (some s) t e = ap some ((text_eq_iff s t).0 (ground arith))

previous_sound :
    (hash : Text → Text) (now : ℕ) (fingerprint token : Text) (s : Server)
    → previous_pair now fingerprint (hash token) s ≡ true
    → HasPair hash now fingerprint token s
unfolding previous_pair
previous_sound hash now fingerprint token s e =
    elim (Option-cases s.control_previous_credential_expires_at) [
      | inr (t, there) ↦
          previous t there (ground (arith, there, e))
            (matches_sound s.control_previous_cert_fingerprint fingerprint
              (ground (arith, there, e)))
            (matches_sound s.control_previous_token_hash (hash token) (ground (arith, there, e)))
      | inl missing ↦ ground (arith, missing, e)
    ]

current_sound :
    (hash : Text → Text) (now : ℕ) (fingerprint token : Text) (s : Server)
    → current_pair fingerprint (hash token) s ≡ true
    → HasPair hash now fingerprint token s
unfolding current_pair
current_sound hash now fingerprint token s e =
    current (matches_sound s.control_cert_fingerprint fingerprint (ground (arith, e)))
      (matches_sound s.control_token_hash (hash token) (ground (arith, e)))

authenticates_sound :
    (hash : Text → Text) (now : ℕ) (fingerprint token : Text) (s : Server)
    → authenticates hash now fingerprint token s ≡ true
    → (is_controlled s ≡ true) × HasPair hash now fingerprint token s
unfolding authenticates
authenticates_sound hash now fingerprint token s e = (
  ground (arith, e),
  elim (Bool-cases (current_pair fingerprint (hash token) s)) [
    | inl whole ↦ current_sound hash now fingerprint token s whole
    | inr other ↦ previous_sound hash now fingerprint token s (ground (arith, other, e))
  ],
)

-- A selection holds what was asked for.
select-holds :
    (p : Server → Bool) (xs ys : List Server) (x : Server) → select p xs ≡ x ∷ ys → p x ≡ true
select-holds p [] ys x e = ground (arith, e)
select-holds p (z ∷ zs) ys x e = elim (Bool-cases (p z)) [
  | inl chosen ↦
      let found : z ∷ select p zs ≡ x ∷ ys = rw chosen at e in ground (arith, chosen, found)
  | inr passed ↦ select-holds p zs ys x (rw passed at e)
]

the_only-inv : (xs : List Server) (s : Server) → the_only xs ≡ ok s → xs ≡ s ∷ []
unfolding the_only
the_only-inv [] s e = ground (arith, e)
the_only-inv (x ∷ []) s e = ground (arith, e)
the_only-inv (x ∷ y ∷ ys) s e = ground (arith, e)

is_empty-nonempty : (t : Text) → is_empty t ≡ false → t ≢ []
is_empty-nonempty t e none_left = ground (arith, e, none_left)

-- A request that is let in as a server carries the configured proxy secret and a fingerprint and a
-- token that are not empty; the server is controlled, has both of them as one pair, the current one
-- or the previous one within its time, and is the only server of the table that they authenticate.
pub authenticated_by_pair :
    (hash : Text → Text) (secret : Option Text) (now : ℕ) (headers : Headers)
    (servers : List Server) (s : Server)
    → authenticate_node hash secret now headers servers ≡ ok s
    → (secret ≡ some headers.proxy_secret)
      × (normalize_fingerprint headers.fingerprint ≢ [])
      × ((partition headers.authorization).1 ≢ [])
      × (is_controlled s ≡ true)
      × HasPair hash now
          (normalize_fingerprint headers.fingerprint)
          (partition headers.authorization).1
          s
      × (select
            (authenticates hash now
              (normalize_fingerprint headers.fingerprint)
              (partition headers.authorization).1)
            servers
          ≡ s ∷ [])
unfolding authenticate_node
authenticated_by_pair hash none now headers servers s e = ground (arith, e)
authenticated_by_pair hash (some secret) now headers servers s e =
    let fingerprint = normalize_fingerprint headers.fingerprint in
    let token = (partition headers.authorization).1 in
    let chosen : the_only (select (authenticates hash now fingerprint token) servers) ≡ ok s =
      ground (arith, e) in
    let alone = the_only-inv (select (authenticates hash now fingerprint token) servers) s chosen in
    let (controlled, pair) =
      authenticates_sound hash now fingerprint token s
        (select-holds (authenticates hash now fingerprint token) servers [] s alone) in
    (
      ap some (sym ((text_eq_iff headers.proxy_secret secret).0 (ground (arith, e)))),
      is_empty-nonempty fingerprint (ground (arith, e)),
      is_empty-nonempty token (ground (arith, e)),
      controlled,
      pair,
      alone,
    )
