-- ===== src/Agent/Client/Uuids.antt =====
-- Client UUIDs come at most once: what the check of agent/app/control_client.py over the pages
-- amounts to.
use aegis_vpn.Base.{◌≡◌, refl, Text, some, List, [], ◌∷◌, ◌++◌, false, mem_text, arith, text_eq_iff}
use aegis_vpn.Wire.{DesiredItem, client, conn_limit, cascade_service, cascade_route}
use aegis_vpn.Agent.Client.{note_uuids}

-- Checking the UUIDs of two lists is checking them of the one and then of the other.
pub note_uuids-append :
    (xs ys : List DesiredItem) (seen out : List Text)
    → note_uuids (xs ++ ys) seen ≡ some out
    → (mid : List Text) × (note_uuids xs seen ≡ some mid) × (note_uuids ys mid ≡ some out)
unfolding note_uuids
note_uuids-append [] ys seen out e = (seen, refl, e)
note_uuids-append (client i ∷ xs) ys seen out e =
    let later : note_uuids (xs ++ ys) (i.uuid ∷ seen) ≡ some out = ground arith in
    let (mid, first, second) = note_uuids-append xs ys (i.uuid ∷ seen) out later in
    (mid, ground (arith, first), second)
note_uuids-append (cascade_service i ∷ xs) ys seen out e =
    let later : note_uuids (xs ++ ys) (i.uuid ∷ seen) ≡ some out = ground arith in
    let (mid, first, second) = note_uuids-append xs ys (i.uuid ∷ seen) out later in
    (mid, ground (arith, first), second)
note_uuids-append (conn_limit i ∷ xs) ys seen out e = note_uuids-append xs ys seen out e
note_uuids-append (cascade_route i ∷ xs) ys seen out e = note_uuids-append xs ys seen out e

pub note_uuids-append_some :
    (xs ys : List DesiredItem) (seen mid : List Text)
    → note_uuids xs seen ≡ some mid
    → note_uuids (xs ++ ys) seen ≡ note_uuids ys mid
unfolding note_uuids
note_uuids-append_some [] ys seen mid e = ground arith
note_uuids-append_some (client i ∷ xs) ys seen mid e =
    ground (arith, note_uuids-append_some xs ys (i.uuid ∷ seen) mid)
note_uuids-append_some (cascade_service i ∷ xs) ys seen mid e =
    ground (arith, note_uuids-append_some xs ys (i.uuid ∷ seen) mid)
note_uuids-append_some (conn_limit i ∷ xs) ys seen mid e = note_uuids-append_some xs ys seen mid e
note_uuids-append_some (cascade_route i ∷ xs) ys seen mid e =
    note_uuids-append_some xs ys seen mid e

-- The UUIDs by which clients are let in.
abbrev pub uuids_of : List DesiredItem → List Text
uuids_of [] = []
uuids_of (client i ∷ is) = i.uuid ∷ uuids_of is
uuids_of (cascade_service i ∷ is) = i.uuid ∷ uuids_of is
uuids_of (conn_limit i ∷ is) = uuids_of is
uuids_of (cascade_route i ∷ is) = uuids_of is

-- No text comes twice.
abbrev pub Distinct : List Text → Type 0
Distinct [] = Unit
Distinct (t ∷ ts) = (mem_text t ts ≡ false) × Distinct ts

-- None of the texts is among the others.
abbrev pub Fresh : List Text → List Text → Type 0
Fresh seen [] = Unit
Fresh seen (t ∷ ts) = (mem_text t seen ≡ false) × Fresh seen ts

Fresh-cons :
    (u : Text) (seen ts : List Text) → Fresh (u ∷ seen) ts → (mem_text u ts ≡ false) × Fresh seen ts
unfolding mem_text
Fresh-cons u seen [] h = (refl, tt)
Fresh-cons u seen (t ∷ ts) h =
    ground (arith, Fresh-cons u seen ts, text_eq_iff u t, text_eq_iff t u)

pub distinct :
    (is : List DesiredItem) (seen out : List Text)
    → note_uuids is seen ≡ some out
    → Distinct (uuids_of is) × Fresh seen (uuids_of is)
unfolding note_uuids
distinct [] seen out e = (tt, tt)
distinct (client i ∷ is) seen out e =
    let later : note_uuids is (i.uuid ∷ seen) ≡ some out = ground arith in
    let rest = distinct is (i.uuid ∷ seen) out later in
    let parts = Fresh-cons i.uuid seen (uuids_of is) rest.1 in
    ((parts.0, rest.0), (ground arith, parts.1))
distinct (cascade_service i ∷ is) seen out e =
    let later : note_uuids is (i.uuid ∷ seen) ≡ some out = ground arith in
    let rest = distinct is (i.uuid ∷ seen) out later in
    let parts = Fresh-cons i.uuid seen (uuids_of is) rest.1 in
    ((parts.0, rest.0), (ground arith, parts.1))
distinct (conn_limit i ∷ is) seen out e = distinct is seen out e
distinct (cascade_route i ∷ is) seen out e = distinct is seen out e

Fresh-push :
    (u : Text) (seen ts : List Text) → mem_text u ts ≡ false → Fresh seen ts → Fresh (u ∷ seen) ts
unfolding mem_text
Fresh-push u seen [] m h = tt
Fresh-push u seen (t ∷ ts) m h =
    ground (arith, Fresh-push u seen ts, text_eq_iff u t, text_eq_iff t u)

-- Items whose UUIDs are distinct pass the check.
pub note_uuids-total :
    (is : List DesiredItem) (seen : List Text)
    → Distinct (uuids_of is)
    → Fresh seen (uuids_of is)
    → (out : List Text) × (note_uuids is seen ≡ some out)
unfolding note_uuids
note_uuids-total [] seen d f = (seen, refl)
note_uuids-total (client i ∷ is) seen d f =
    let (out, e) =
      note_uuids-total is (i.uuid ∷ seen) d.1 (Fresh-push i.uuid seen (uuids_of is) d.0 f.1) in
    (out, ground (arith, e, f.0))
note_uuids-total (cascade_service i ∷ is) seen d f =
    let (out, e) =
      note_uuids-total is (i.uuid ∷ seen) d.1 (Fresh-push i.uuid seen (uuids_of is) d.0 f.1) in
    (out, ground (arith, e, f.0))
note_uuids-total (conn_limit i ∷ is) seen d f = note_uuids-total is seen d f
note_uuids-total (cascade_route i ∷ is) seen d f = note_uuids-total is seen d f

pub Fresh-nil : (ts : List Text) → Fresh [] ts
unfolding mem_text
Fresh-nil [] = tt
Fresh-nil (t ∷ ts) = (refl, Fresh-nil ts)
