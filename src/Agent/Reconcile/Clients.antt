-- ===== src/Agent/Reconcile/Clients.antt =====
-- agent/app/reconcile.py: the clients of the inbounds after the loop, and the cascade's part of the
-- configuration, which the loop does not touch.
use aegis_vpn.Base.{
  Text, Option, none, some, List, [], ◌∷◌, map, true, false, any, select, All, if◌then◌else◌, ◌≡◌,
  refl, sym, ap, ◌∙◌, Bool-cases, inl, inr, arith,
}
use aegis_vpn.Base.Equality.{equal_iff, equal_refl}
use aegis_vpn.Wire.{DesiredClient, DesiredCascadeRoute}
use aegis_vpn.Agent.Xray.{
  Config, Inbound, is_vless, list_vless_inbounds, build_client_record, get_transport_type,
}
use aegis_vpn.Agent.Cascade.{
  apply_cascade_routes, install_collected, install, strip_managed, had_managed, collect,
  by_route_id, no_routes, Managed,
}
use aegis_vpn.Agent.Node.{clients_of}
use aegis_vpn.Agent.Reconcile.{
  desired_records, inbound_differs, reconciled_inbound, reconciled_config, set_inbounds,
  clients-discrete,
}

-- Every vless inbound has exactly these clients.
abbrev pub HasClients : List DesiredClient → List Inbound → Type 0
HasClients clients inbounds =
    All (λ (i : Inbound). clients_of i ≡ desired_records clients i) inbounds

not_differs :
    (clients : List DesiredClient) (i : Inbound)
    → inbound_differs clients i ≡ false
    → clients_of i ≡ desired_records clients i
unfolding inbound_differs
not_differs clients i e =
    (equal_iff clients-discrete (clients_of i) (desired_records clients i)).0 (ground (arith, e))

pub none_differs :
    (clients : List DesiredClient) (is : List Inbound)
    → any (inbound_differs clients) is ≡ false
    → HasClients clients is
none_differs clients [] e = tt
none_differs clients (i ∷ is) e =
    (not_differs clients i (ground (arith, e)), none_differs clients is (ground (arith, e)))

pub clients_agree :
    (clients : List DesiredClient) (is : List Inbound)
    → HasClients clients is
    → any (inbound_differs clients) is ≡ false
unfolding inbound_differs
clients_agree clients [] h = refl
clients_agree clients (i ∷ is) h =
    rw (h.0, equal_refl clients-discrete (desired_records clients i)) (clients_agree clients is h.1)

desired_records-reconciled :
    (clients cs : List DesiredClient) (i : Inbound)
    → desired_records clients (reconciled_inbound cs i) ≡ desired_records clients i
unfolding desired_records reconciled_inbound build_client_record get_transport_type
desired_records-reconciled clients cs i = refl

clients_of-reconciled :
    (clients : List DesiredClient) (i : Inbound)
    → clients_of (reconciled_inbound clients i) ≡ desired_records clients i
unfolding clients_of reconciled_inbound
clients_of-reconciled clients i = elim (Bool-cases (inbound_differs clients i)) [
  | inl differs ↦ rw differs refl
  | inr same ↦ rw same (not_differs clients i same)
]

all_reconciled :
    (clients : List DesiredClient) (is : List Inbound)
    → HasClients clients
        (select is_vless (map (λ i. if is_vless i then reconciled_inbound clients i else i) is))
all_reconciled clients [] = tt
all_reconciled clients (i ∷ is) = elim (Bool-cases (is_vless i)) [
  | inl vless ↦
      let still : is_vless (reconciled_inbound clients i) ≡ true =
        unfold is_vless reconciled_inbound in vless in
      rw (vless, still)
        (
          clients_of-reconciled clients i ∙ sym (desired_records-reconciled clients clients i),
          all_reconciled clients is,
        )
  | inr other ↦ rw (other, other) (all_reconciled clients is)
]

pub reconciled-HasClients :
    (clients : List DesiredClient) (c : Config)
    → HasClients clients (list_vless_inbounds (reconciled_config clients c))
unfolding reconciled_config list_vless_inbounds set_inbounds
reconciled-HasClients clients c = all_reconciled clients c.inbounds

set_some : List Inbound → Option Config → Option Config
unfolding set_inbounds
set_some is none = none
set_some is (some c) = some (set_inbounds is c)

installed_elsewhere :
    (is : List Inbound) (c d : Config) (policy : List (Text × Text)) (o : Option Managed)
    → install_collected c policy o ≡ some d
    → install_collected (set_inbounds is c) policy o ≡ some (set_inbounds is d)
unfolding install_collected install set_inbounds set_some
installed_elsewhere is c d policy none e = cc
installed_elsewhere is c d policy (some m) e = ap (set_some is) e

pub apply-set_inbounds :
    (is : List Inbound) (c d : Config) (routes : List DesiredCascadeRoute)
    → apply_cascade_routes c routes ≡ some d
    → apply_cascade_routes (set_inbounds is c) routes ≡ some (set_inbounds is d)
unfolding apply_cascade_routes strip_managed had_managed set_inbounds set_some
apply-set_inbounds is c d [] e = ap (set_some is) e
apply-set_inbounds is c d (first ∷ routes) e =
    installed_elsewhere is (strip_managed c) d first.health_policy
      (collect (by_route_id (first ∷ routes)) no_routes) e
