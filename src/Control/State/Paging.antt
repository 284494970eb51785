-- ===== src/Control/State/Paging.antt =====
-- The pages of a snapshot: their contents, their number and their sizes.
use aegis_vpn.Base.{
  ℕ, zero, suc, ◌+◌, ◌-◌, ◌/◌, ◌≤◌, ◌<◌, ◌≡◌, List, length, map, drop, concat, arith,
  take-append-drop, drop-eq-nil, drop-drop, length-map, ltb, Bool-cases, inl, inr, sym, ◌∙◌, ap,
  get_elem?, take, ◌*◌, some, none, if◌then◌else◌, false, refl,
}
use native.Mathlib.Nat.{add-div_right, div-eq_of_lt, sub-zero}
use aegis_vpn.Control.State.{offsets, slice, paginate}

-- One page more for each `size` items, the last of them counted whole.
ceil_step :
    (x size : ℕ) → 0 < size → 0 < x → (x + size - 1) / size ≡ suc ((x - size + size - 1) / size)
ceil_step x size ps px =
    let whole : x + size - 1 ≡ x - 1 + size = omega arith in
    rw (whole, add-div_right (x - 1) ps)
      (elim (Bool-cases (ltb x size)) [
        | inl part ↦
            let none_left : x - size + size - 1 ≡ size - 1 = ground arith in
            rw none_left (
              omega (
                arith,
                div-eq_of_lt {n = x - 1} {m = size} (ground arith),
                div-eq_of_lt {n = size - 1} {m = size} (omega arith),
              ))
        | inr full ↦ let left : x - size + size - 1 ≡ x - 1 = ground arith in rw left (omega arith)
      ])

pub no_page : (size : ℕ) → 0 < size → (0 + size - 1) / size ≡ 0
no_page size ps = let e : 0 + size - 1 ≡ size - 1 = omega arith in rw e (div-eq_of_lt (omega arith))

module _ {ℓ} {A : Type ℓ} (items : List A) (size : ℕ) (pos : 0 < size) where
  concat-slices :
      (fuel start : ℕ)
      → length items ≤ start + fuel
      → concat (map (slice items size) (offsets fuel start (length items) size)) ≡ drop start items
  unfolding offsets
  concat-slices zero start h = sym (drop-eq-nil start items (omega arith))
  concat-slices (suc fuel) start h = elim (Bool-cases (ltb start (length items))) [
    | inl more ↦
        rw (more, concat-slices fuel (start + size) (omega arith), ← drop-drop, take-append-drop)
    | inr done ↦ rw done (sym (drop-eq-nil start items (ground arith)))
  ]

  length-offsets :
      (fuel start : ℕ)
      → length items ≤ start + fuel
      → length (offsets fuel start (length items) size) ≡ (length items - start + size - 1) / size
  unfolding offsets
  length-offsets zero start h =
      let e : length items - start ≡ 0 = omega arith in rw e (sym (no_page size pos))
  length-offsets (suc fuel) start h = elim (Bool-cases (ltb start (length items))) [
    | inl more ↦
        let e : length items - (start + size) ≡ length items - start - size = omega arith in
        rw (more, length-offsets fuel (start + size) (omega arith), e)
          (sym (ceil_step (length items - start) size pos (ground arith)))
    | inr done ↦
        let e : length items - start ≡ 0 = ground arith in rw (done, e) (sym (no_page size pos))
  ]

  -- The pages, one after the other, are the items in their order.
  pub concat-paginate : concat (paginate size items) ≡ items
  unfolding paginate
  concat-paginate = concat-slices (length items) 0 (omega arith)

  -- There are as many pages as the node expects.
  pub length-paginate : length (paginate size items) ≡ (length items + size - 1) / size
  unfolding paginate
  length-paginate =
      length-map (slice items size) (offsets (length items) 0 (length items) size)
      ∙ length-offsets (length items) 0 (omega arith)
      ∙ ap (λ n. (n + size - 1) / size) (sub-zero (length items))

  page_from :
      (fuel start i : ℕ)
      → length items ≤ start + fuel
      → get_elem? (map (slice items size) (offsets fuel start (length items) size)) i ≡ (
          if ltb (start + i * size) (length items)
          then some (take size (drop (start + i * size) items))
          else none)
  unfolding offsets
  page_from zero start i h =
      let past : ltb (start + i * size) (length items) ≡ false = ground (arith, h) in rw past refl
  page_from (suc fuel) start zero h = elim (Bool-cases (ltb start (length items))) [
    | inl more ↦ let here : start + 0 * size ≡ start = omega arith in rw (here, more) refl
    | inr done ↦ let here : start + 0 * size ≡ start = omega arith in rw (here, done) refl
  ]
  page_from (suc fuel) start (suc i) h = elim (Bool-cases (ltb start (length items))) [
    | inl more ↦
        let next : start + suc i * size ≡ start + size + i * size = omega arith in
        rw (more, next) (page_from fuel (start + size) i (omega arith))
    | inr done ↦
        let past : ltb (start + suc i * size) (length items) ≡ false = ground (arith, done) in
        rw (done, past) refl
  ]

  -- The page at an index holds the items from that index times the size on, the last page what is
  -- left, and past the items there is no page.
  pub get_elem?-paginate :
      (i : ℕ)
      → get_elem? (paginate size items) i
        ≡ (if ltb (i * size) (length items) then some (take size (drop (i * size) items)) else none)
  unfolding paginate
  get_elem?-paginate i =
      let origin : 0 + i * size ≡ i * size = omega arith in
      rw origin at (page_from (length items) 0 i (omega arith))
