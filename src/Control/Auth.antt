-- ===== src/Control/Auth.antt =====
-- bot/src/control/auth.py: which server a request comes from. `hash` stands for the SHA-256 of
-- the token, in hexadecimal.
pub mod Credentials
use aegis_vpn.Base.{
  ℕ, ◌+◌, Text, codes, Option, none, some, List, [], ◌∷◌, Bool, true, false, ◌==◌, ◌&&◌, ◌||◌, not,
  leb, if◌then◌else◌, select, map, text_eq, is_empty, opt_text_eq, all, ltb,
}
use aegis_vpn.Base.Result.{Result, ok, err}
use aegis_vpn.Control.Db.{Server}
use aegis_vpn.Control.Router.{is_controlled}

-- ASCII `str.lower`
lower : ℕ → ℕ
lower c = if leb b'A' c && leb c b'Z' then c + 32 else c

is_hex : ℕ → Bool
is_hex c = (leb b'0' c && leb c b'9') || (leb b'a' c && leb c b'f')

unfoldable pub normalize_fingerprint : Text → Text
unfolding lower is_hex
normalize_fingerprint value = select is_hex (map lower value)

-- `value.partition(" ")`, without the separator
unfoldable pub partition : Text → Text × Text
partition [] = ([], [])
partition (c ∷ cs) =
    let (head, tail) = partition cs in if c == b' ' then ([], cs) else (c ∷ head, tail)

pub record Headers : Type 0 where
  pub proxy_secret : Text
  pub fingerprint : Text
  pub authorization : Text

-- A stored value that is there, is not empty, and equals the given one.
unfoldable pub matches : Option Text → Text → Bool
matches none t = false
matches (some s) t = not (is_empty s) && text_eq s t

unfoldable pub current_pair : Text → Text → Server → Bool
unfolding matches
current_pair fingerprint token_hash s =
    matches s.control_cert_fingerprint fingerprint && matches s.control_token_hash token_hash

not_expired : ℕ → Option ℕ → Bool
not_expired now none = false
not_expired now (some t) = leb now t

unfoldable pub previous_pair : ℕ → Text → Text → Server → Bool
unfolding matches not_expired
previous_pair now fingerprint token_hash s =
    not_expired now s.control_previous_credential_expires_at
    && matches s.control_previous_cert_fingerprint fingerprint
    && matches s.control_previous_token_hash token_hash

-- The rows that the query selects.
unfoldable pub is_candidate : Text → Server → Bool
unfolding is_controlled
is_candidate fingerprint s =
    (opt_text_eq s.control_cert_fingerprint (some fingerprint)
      || opt_text_eq s.control_previous_cert_fingerprint (some fingerprint))
    && is_controlled s

unfoldable pub authenticates : (Text → Text) → ℕ → Text → Text → Server → Bool
unfolding is_candidate current_pair previous_pair
authenticates hash now fingerprint token s =
    is_candidate fingerprint s
    && (current_pair fingerprint (hash token) s || previous_pair now fingerprint (hash token) s)

the_only : List Server → Result ℕ Server
the_only [] = err 401
the_only (s ∷ []) = ok s
the_only (s ∷ t ∷ ss) = err 401

-- `hmac.compare_digest` raises for texts that are not ASCII.
unfoldable pub is_ascii : Text → Bool
is_ascii = all (λ c. ltb c 128)

-- `authenticate_node`, over all servers, whose stored fingerprints and hashes are ASCII. The
-- exception of a comparison is answered with 500.
unfoldable pub authenticate_node :
    (Text → Text) → Option Text → ℕ → Headers → List Server → Result ℕ Server
unfolding the_only authenticates normalize_fingerprint is_ascii
authenticate_node hash none now headers servers = err 503
authenticate_node hash (some secret) now headers servers =
    let fingerprint = normalize_fingerprint headers.fingerprint in
    let (scheme, token) = partition headers.authorization in
    if not (is_ascii headers.proxy_secret && is_ascii secret)
    then err 500
    else if text_eq headers.proxy_secret secret
        && not (is_empty fingerprint)
        && text_eq (map lower scheme) (codes "bearer")
        && not (is_empty token)
    then the_only (select (authenticates hash now fingerprint token) servers)
    else err 401
