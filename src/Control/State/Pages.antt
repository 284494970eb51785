-- ===== src/Control/State/Pages.antt =====
-- Every snapshot in the table can be downloaded in full: its pages are there, and they are the
-- pages of a list of items with its digest.
use aegis_vpn.Base.{
  ℕ, zero, suc, ◌+◌, ◌≤◌, ◌<◌, ◌≡◌, refl, none, List, [], ◌∷◌, ◌++◌, false, ◌==◌, ◌&&◌, arith, All,
  select, length, get_elem?, ◌⊎◌, ◌∙◌,
}
use mathlib.Core.Option
use aegis_vpn.Wire.{Codec, items_digest, DesiredItem}
use aegis_vpn.Control.Db.{NodeSnapshot, NodeSnapshotPage, find_page}
use aegis_vpn.Control.State.{page_row, page_rows, paginate}

-- The pages of one server.
abbrev pub pages_of : ℕ → List NodeSnapshotPage → List NodeSnapshotPage
pages_of i ps = select (λ p. p.server_id == i) ps

pub record IsServable (c : Codec) (pages : List NodeSnapshotPage) (n : NodeSnapshot) : Type 0 where
  pub items : List DesiredItem
  pub digest_eq : n.digest ≡ items_digest c items
  pub count_eq : n.item_count ≡ length items
  pub size_pos : 0 < n.page_size
  pub pages_eq : n.page_count ≡ length (paginate n.page_size items)
  pub page_at :
      (k : ℕ)
      → find_page n.server_id n.generation k pages
        ≡ Option.map
            (page_row c n.server_id n.generation n.schema_version k)
            (get_elem? (paginate n.page_size items) k)

find_page-append_none :
    (i g k : ℕ) (ps qs : List NodeSnapshotPage)
    → find_page i g k ps ≡ none
    → find_page i g k (ps ++ qs) ≡ find_page i g k qs
unfolding find_page
find_page-append_none i g k [] qs h = refl
find_page-append_none i g k (p ∷ ps) qs h = ground (arith, find_page-append_none i g k ps qs)

find_page-append_left :
    (i g k : ℕ) (ps qs : List NodeSnapshotPage)
    → find_page i g k qs ≡ none
    → find_page i g k (ps ++ qs) ≡ find_page i g k ps
unfolding find_page
find_page-append_left i g k [] qs h = h
find_page-append_left i g k (p ∷ ps) qs h = ground (arith, find_page-append_left i g k ps qs)

-- A generation above those of the server has no page yet.
find_page-above :
    (i g k d : ℕ) (ps : List NodeSnapshotPage)
    → d < g
    → All (λ (p : NodeSnapshotPage). p.generation ≤ d) (pages_of i ps)
    → find_page i g k ps ≡ none
unfolding find_page
find_page-above i g k d [] lt h = refl
find_page-above i g k d (p ∷ ps) lt h = ground (arith, find_page-above i g k d ps lt)

module _ (c : Codec) (i g v : ℕ) where
  -- The rows of a new snapshot hold its pages by their index.
  find-page_rows :
      (index k n : ℕ) (ps : List (List DesiredItem))
      → n ≡ index + k
      → find_page i g n (page_rows c i g v index ps)
        ≡ Option.map (page_row c i g v n) (get_elem? ps k)
  unfolding find_page page_rows
  find-page_rows index k n [] e = refl
  find-page_rows index zero n (p ∷ ps) e =
      let same : n ≡ index = omega arith in rw same (ground arith)
  find-page_rows index (suc k) n (p ∷ ps) e =
      let later : (index == n) ≡ false = ground arith in
      let rest = find-page_rows (index + 1) k n ps (omega arith) in ground (arith, rest, later)

  find_page-rows_ne :
      (j h k index : ℕ) (ps : List (List DesiredItem))
      → (j == i && h == g) ≡ false
      → find_page j h k (page_rows c i g v index ps) ≡ none
  unfolding find_page page_rows
  find_page-rows_ne j h k index [] ne = refl
  find_page-rows_ne j h k index (p ∷ ps) ne =
      ground (arith, find_page-rows_ne j h k (index + 1) ps ne)

-- All pages of a new snapshot have its generation and its server.
pub page_rows-bounded :
    (c : Codec) (i g v d j index : ℕ) (ps : List (List DesiredItem))
    → (j == i) ≡ false ⊎ (g ≤ d)
    → All (λ (p : NodeSnapshotPage). p.generation ≤ d) (pages_of j (page_rows c i g v index ps))
unfolding page_rows
page_rows-bounded c i g v d j index [] h = tt
page_rows-bounded c i g v d j index (p ∷ ps) h =
    ground (arith, page_rows-bounded c i g v d j (index + 1) ps h)

module _ (c : Codec) (i G d v : ℕ) (lt : d < G) (ps : List NodeSnapshotPage) where
  -- Snapshots up to `d` keep their pages when those of a snapshot above `d` are added.
  pub keep-IsServable :
      (pages : List (List DesiredItem)) (ns : List NodeSnapshot)
      → All (λ (n : NodeSnapshot). n.generation ≤ d) (select (λ n. n.server_id == i) ns)
      → All (IsServable c ps) ns
      → All (IsServable c (ps ++ page_rows c i G v 0 pages)) ns
  keep-IsServable pages [] le h = tt
  keep-IsServable pages (n ∷ ns) le h = (
    record {
      items = h.0.items;
      digest_eq = h.0.digest_eq;
      count_eq = h.0.count_eq;
      size_pos = h.0.size_pos;
      pages_eq = h.0.pages_eq;
      page_at = λ k.
          find_page-append_left n.server_id n.generation k ps (page_rows c i G v 0 pages)
            (find_page-rows_ne c i G v n.server_id n.generation k 0 pages (ground arith))
          ∙ h.0.page_at k;
    },
    keep-IsServable pages ns (ground arith) h.1,
  )

  -- The new snapshot is served from its own pages.
  pub new-IsServable :
      (items : List DesiredItem) (n : NodeSnapshot)
      → All (λ (p : NodeSnapshotPage). p.generation ≤ d) (pages_of i ps)
      → n.server_id ≡ i
      → n.generation ≡ G
      → n.schema_version ≡ v
      → n.digest ≡ items_digest c items
      → n.item_count ≡ length items
      → 0 < n.page_size
      → n.page_count ≡ length (paginate n.page_size items)
      → IsServable c (ps ++ page_rows c i G v 0 (paginate n.page_size items)) n
  new-IsServable items n le ei eg ev ed ec es ep = record {
    items = items;
    digest_eq = ed;
    count_eq = ec;
    size_pos = es;
    pages_eq = ep;
    page_at = λ k.
        rw (ei, eg, ev)
          (find_page-append_none i G k ps (page_rows c i G v 0 (paginate n.page_size items))
              (find_page-above i G k d ps lt le)
            ∙ find-page_rows c i G v 0 k k (paginate n.page_size items) (omega arith));
  }
