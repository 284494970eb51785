-- ===== src/Agent/Client/Failover.antt =====
-- Failover: what a request returns, and when it must succeed.
use aegis_vpn.Base.{
  ℕ, ◌≤◌, ◌<◌, ◌≡◌, refl, Text, some, List, [], ◌∷◌, ◌++◌, true, false, arith, All, inl, inr, ◌⊎◌,
  length, mem_text, select, text_eq, not, Bool-cases, text_eq_iff, Option-cases, ap, ◌∙◌, All-mem,
  All-select_mono,
}
use aegis_vpn.Base.Result.{ok, Result-cases}
use aegis_vpn.Agent.Client.{
  ControlClient, Network, Request, RawControlResponse, Attempt, replied, too_large, unreachable,
  try_urls, ordered_urls, request_with_failover, ltb, leb,
}

-- An endpoint that the loop passes over: it cannot be reached, or answers with a server error
-- within the byte limit.
abbrev pub IsDown : ℕ → Attempt → Type 0
IsDown max_bytes too_large = ⊥
IsDown max_bytes unreachable = Unit
IsDown max_bytes (replied r) = (500 ≤ r.status) × (length r.body ≤ max_bytes)

-- A response that the loop returns.
abbrev pub IsUsable : ℕ → RawControlResponse → Type 0
IsUsable max_bytes r = (r.status < 500) × (length r.body ≤ max_bytes)

mem-others :
    (u p : Text) (us : List Text)
    → text_eq u p ≡ false
    → mem_text u us ≡ true
    → mem_text u (select (λ v. not (text_eq v p)) us) ≡ true
unfolding mem_text
mem-others u p [] ne m = cc
mem-others u p (v ∷ us) ne m =
    ground (arith, mem-others u p us ne, text_eq_iff u v, text_eq_iff v p, text_eq_iff u p)

ordered-All : (P : Text → Type 0) (c : ControlClient) → All P c.urls → All P (ordered_urls c)
unfolding ordered_urls
ordered-All P c h = elim (Option-cases c.preferred_url) [
  | inl first ↦ rw first h
  | inr (p, e) ↦ elim (Bool-cases (mem_text p c.urls)) [
    | inr stale ↦ rw (e, stale) h
    | inl known ↦
        rw (e, known)
          (All-mem P p c.urls known h, All-select_mono P (λ v. not (text_eq v p)) c.urls h)
  ]
]

ordered-mem :
    (c : ControlClient) (u : Text) → mem_text u c.urls ≡ true → mem_text u (ordered_urls c) ≡ true
unfolding ordered_urls mem_text
ordered-mem c u m = elim (Option-cases c.preferred_url) [
  | inl first ↦ ground (arith, first)
  | inr (p, e) ↦ ground (arith, e, mem-others u p c.urls)
]

module _ (net : Network) (request : Request) (max_bytes : ℕ) where
  try-down :
      (a : Attempt) (u : Text) (us : List Text)
      → net request u ≡ a
      → IsDown max_bytes a
      → try_urls net request max_bytes (u ∷ us) ≡ try_urls net request max_bytes us
  unfolding try_urls
  try-down too_large u us e d = absurd d
  try-down unreachable u us e d = rw (e, try_urls)
  try-down (replied r) u us e d = rw (e, try_urls) (ground arith)

  try-usable :
      (u : Text) (us : List Text) (r : RawControlResponse)
      → net request u ≡ replied r
      → IsUsable max_bytes r
      → try_urls net request max_bytes (u ∷ us) ≡ ok (r, u)
  unfolding try_urls
  try-usable u us r e h = rw (e, try_urls) (ground arith)

  -- The endpoints before the one that answered were down, and its answer was usable.
  abbrev pub Answers : List Text → RawControlResponse → Text → Type 0
  Answers us r u =
      (before : List Text) × (after : List Text) × (us ≡ before ++ u ∷ after)
      × All (λ v. IsDown max_bytes (net request v)) before
      × (net request u ≡ replied r)
      × IsUsable max_bytes r

  skip :
      (v : Text) (us : List Text) (r : RawControlResponse) (u : Text)
      → IsDown max_bytes (net request v)
      → Answers us r u
      → Answers (v ∷ us) r u
  skip v us r u d (before, after, split, downs, e, h) =
      (v ∷ before, after, ap (λ l. v ∷ l) split, (d, downs), e, h)

  step :
      (a : Attempt) (v : Text) (us : List Text) (r : RawControlResponse) (u : Text)
      → net request v ≡ a
      → try_urls net request max_bytes (v ∷ us) ≡ ok (r, u)
      → (try_urls net request max_bytes us ≡ ok (r, u) → Answers us r u)
      → Answers (v ∷ us) r u
  unfolding try_urls
  step too_large v us r u e h rec = ground (arith, e)
  step unreachable v us r u e h rec = skip v us r u (rw e tt) (rec (ground (arith, e)))
  step (replied q) v us r u e h rec = elim (Bool-cases (ltb max_bytes (length q.body))) [
    | inl large ↦ ground (arith, e, large)
    | inr small ↦ elim (Bool-cases (leb 500 q.status)) [
      | inl failed ↦ skip v us r u (rw e (ground arith)) (rec (ground (arith, e, small, failed)))
      | inr fine ↦
          let same : q ≡ r = ground (arith, e, small, fine) in
          let here : v ≡ u = ground (arith, e, small, fine) in
          ([], us, ap (λ w. w ∷ us) here, tt, rw (← here, ← same) e, rw (← same) (ground arith))
    ]
  ]

  try_urls-inv :
      (us : List Text) (r : RawControlResponse) (u : Text)
      → try_urls net request max_bytes us ≡ ok (r, u)
      → Answers us r u
  try_urls-inv [] r u e = unfold try_urls in (cc)
  try_urls-inv (v ∷ us) r u e = step (net request v) v us r u refl e (try_urls-inv us r u)

  -- An endpoint that is down, or serves the reply.
  abbrev pub IsFair : RawControlResponse → Text → Type 0
  IsFair reply u = IsDown max_bytes (net request u) ⊎ (net request u ≡ replied reply)

  try_urls-fair :
      (us : List Text) (reply : RawControlResponse) (up : Text)
      → IsUsable max_bytes reply
      → net request up ≡ replied reply
      → mem_text up us ≡ true
      → All (IsFair reply) us
      → (u : Text) × (try_urls net request max_bytes us ≡ ok (reply, u))
  try_urls-fair [] reply up h e m f = unfold mem_text in (cc)
  try_urls-fair (v ∷ us) reply up h e m (inr serves, f) = (v, try-usable v us reply serves h)
  try_urls-fair (v ∷ us) reply up h e m (inl down, f) = elim (Bool-cases (text_eq up v)) [
    | inl here ↦ (v, try-usable v us reply (rw (← (text_eq_iff up v).0 here) e) h)
    | inr later ↦
        let (u, run) =
          try_urls-fair us reply up h e (unfold mem_text in (ground (arith, later))) f in
        (u, try-down (net request v) v us refl down ∙ run)
  ]

  -- If one of the configured endpoints serves a usable reply, and each of the others serves the same
  -- reply or is down, then the request returns that reply, whichever endpoint was preferred before.
  pub failover_available :
      (c : ControlClient) (reply : RawControlResponse) (up : Text)
      → IsUsable max_bytes reply
      → mem_text up c.urls ≡ true
      → net request up ≡ replied reply
      → All (IsFair reply) c.urls
      → (u : Text) × (request_with_failover net request max_bytes c
          ≡ (ok reply, record c { preferred_url = some u }))
  unfolding request_with_failover
  failover_available c reply up h m e f =
      let (u, run) =
        try_urls-fair (ordered_urls c) reply up h e (ordered-mem c up m)
          (ordered-All (IsFair reply) c f) in
      (u, rw (run, request_with_failover))

  -- A request that returns has its response from an endpoint that comes first, in the order of the
  -- client, of those that are not down; the response is no server error and is within the byte
  -- limit; the endpoint is preferred from then on, and the client is else as it was.
  pub failover-Answers :
      (c c' : ControlClient) (r : RawControlResponse)
      → request_with_failover net request max_bytes c ≡ (ok r, c')
      → (u : Text) × Answers (ordered_urls c) r u × (c' ≡ record c { preferred_url = some u })
  unfolding request_with_failover
  failover-Answers c c' r e =
      elim (Result-cases (try_urls net request max_bytes (ordered_urls c))) [
        | inr (x, failed) ↦ ground (arith, failed)
        | inl ((q, u), run) ↦
            let same : q ≡ r = ground (arith, run) in
            (u, try_urls-inv (ordered_urls c) r u (rw same at run), ground (arith, run))
      ]
