-- ===== src/MaptblCache/Pages.antt =====
-- The fragments as find_fragment_index and the loop of cache_leb2peb_pair meet them.
use ssdfs_tools.Prelude.{
  ℕ, suc, ◌+◌, ◌<◌, ◌≡◌, ◌≢◌, refl, ap, ◌∙◌, true, false, ltb, leb, ◌==◌, List, [], ◌∷◌, ◌++◌,
  length, u64_max, ok, none, Bool-cases, ◌⊎◌, inl, inr, window, arith,
}
use ssdfs_tools.LittleEndian.{le_value, fetch}
use ssdfs_tools.MaptblCache.{
  cache_magic, pairs_per_fragment, magic_key, items_count, start_leb, end_leb, Entry, Added,
  find_from, insert_from, add_leb2peb_pair,
}
use ssdfs_tools.MaptblCache.Layout.{key, AllEntries, IsFragment, length-compose}
use ssdfs_tools.MaptblCache.Put.{last_leb}
use ssdfs_tools.MaptblCache.Order.{IsSorted}

-- The LEBs that the header of a fragment has.
abbrev pub first_key : List Entry → ℕ
first_key [] = u64_max
first_key (e ∷ es) = key e

abbrev pub last_key : List Entry → ℕ
last_key [] = u64_max
last_key (e ∷ []) = key e
last_key (e ∷ (d ∷ es)) = last_key (d ∷ es)

pub last_leb-last_key :
    (e : Entry) (es : List Entry) → le_value (last_leb (e ∷ es)) ≡ last_key (e ∷ es)
last_leb-last_key e [] = refl
last_leb-last_key e (d ∷ es) = last_leb-last_key d es

-- A fragment of the cache, with the fields that find_fragment_index reads.
pub record IsPage (page_size : ℕ) (es : List Entry) (fragment : List ℕ) : Type 0 where
  pub layout : IsFragment page_size es fragment
  pub sorted : IsSorted es
  pub magic : magic_key fragment ≡ cache_magic
  pub starts : start_leb fragment ≡ first_key es
  pub ends : end_leb fragment ≡ last_key es

-- A fragment that is full of entries below a LEB, and fragments that are.
pub record IsFull (page_size leb_id : ℕ) (fragment : List ℕ) : Type 0 where
  pub es : List Entry
  pub page : IsPage page_size es fragment
  pub size : length es ≡ pairs_per_fragment page_size
  pub filled : 0 < length es
  pub above : last_key es < leb_id

abbrev pub AllFull : (page_size leb_id : ℕ) → List (List ℕ) → Type 0
AllFull page_size leb_id [] = Unit
AllFull page_size leb_id (f ∷ fs) = IsFull page_size leb_id f × AllFull page_size leb_id fs

first_key_set : (es : List Entry) → 0 < length es → AllEntries es → first_key es ≢ u64_max
first_key_set [] filled good = absurd (omega arith)
first_key_set (e ∷ es) filled good = let (_, _, set) = good.0 in set

-- The header of a page is there to be read.
header_there :
    (page_size : ℕ) (es : List Entry) (f : List ℕ)
    → IsFragment page_size es f
    → fetch 0 32 f ≡ ok (window 0 32 f)
unfolding fetch
header_there page_size es f page =
    let total = ap length page.form in
    let fits : ltb (length f) 32 ≡ false =
      ground (arith, total, length-compose page.head page.rest es page.entries, page.head_size) in
    rw fits refl

module _ (page_size leb_id i : ℕ) (f : List ℕ) (fs : List (List ℕ)) (es : List Entry)
    (page : IsPage page_size es f) where
  abbrev capacity : ℕ
  capacity = pairs_per_fragment page_size

  same : (magic_key f == cache_magic) ≡ true
  same = ground (arith, page.magic)

  -- A full fragment is passed, and one with room is taken.
  find_full :
      length es ≡ capacity
      → 0 < length es
      → last_key es < leb_id
      → find_from capacity leb_id i (f ∷ fs) ≡ find_from capacity leb_id (i + 1) fs
  unfolding find_from
  find_full full filled above =
      let set = first_key_set es filled page.layout.entries in
      let a : (start_leb f == u64_max) ≡ false = ground (arith, page.starts, set) in
      let b : leb leb_id (end_leb f) ≡ false = ground (arith, page.ends, above) in
      let c : ltb (items_count f) capacity ≡ false = ground (arith, page.layout.counts, full) in
      let d : ltb (end_leb f) leb_id ≡ true = ground (arith, page.ends, above) in
      elim (Bool-cases (leb (start_leb f) leb_id)) [
        | inl t ↦ rw (header_there page_size es f page.layout, same, a, t, b, d, c) refl
        | inr t ↦ rw (header_there page_size es f page.layout, same, a, t, d, c) refl
      ]

  pub find_room :
      length es < capacity
      → (es ≡ []) ⊎ (last_key es < leb_id)
      → find_from capacity leb_id i (f ∷ fs) ≡ ok i
  unfolding find_from
  find_room free (inl none_yet) =
      let first = page.starts ∙ ap first_key none_yet in
      let a : (start_leb f == u64_max) ≡ true = ground (arith, first) in
      rw (header_there page_size es f page.layout, same, a) refl
  find_room free (inr above) =
      let b : leb leb_id (end_leb f) ≡ false = ground (arith, page.ends, above) in
      let c : ltb (items_count f) capacity ≡ true = ground (arith, page.layout.counts, free) in
      let d : ltb (end_leb f) leb_id ≡ true = ground (arith, page.ends, above) in
      elim (Bool-cases (start_leb f == u64_max)) [
        | inl s ↦ rw (header_there page_size es f page.layout, same, s) refl
        | inr s ↦ elim (Bool-cases (leb (start_leb f) leb_id)) [
          | inl t ↦ rw (header_there page_size es f page.layout, same, s, t, b, d, c) refl
          | inr t ↦ rw (header_there page_size es f page.layout, same, s, t, d, c) refl
        ]
      ]

-- The fragments before, all full, are passed.
pub find_from-append :
    (page_size leb_id i : ℕ) (fs gs : List (List ℕ))
    → AllFull page_size leb_id fs
    → find_from (pairs_per_fragment page_size) leb_id i (fs ++ gs)
      ≡ find_from (pairs_per_fragment page_size) leb_id (i + length fs) gs
find_from-append page_size leb_id i [] gs full =
    let e : i ≡ i + 0 = omega arith in
    ap (λ k. find_from (pairs_per_fragment page_size) leb_id k gs) e
find_from-append page_size leb_id i (f ∷ fs) gs full =
    let head = full.0 in
    let e : i + 1 + length fs ≡ i + suc (length fs) = omega arith in
    find_full page_size leb_id i f (fs ++ gs) head.es head.page head.size head.filled head.above
    ∙ find_from-append page_size leb_id (i + 1) fs gs full.1
    ∙ ap (λ k. find_from (pairs_per_fragment page_size) leb_id k gs) e

pub insert_from-append :
    (page_size : ℕ) (fs gs : List (List ℕ)) (f : List ℕ) (entry : Entry) (added : Added)
    → add_leb2peb_pair page_size f entry ≡ ok added
    → added.moving ≡ none
    → insert_from page_size (length fs) (fs ++ (f ∷ gs)) entry
      ≡ ok (record { fragments = fs ++ (added.fragment ∷ gs); added_bytes = added.added_bytes })
unfolding insert_from
insert_from-append page_size [] gs f entry added e m = rw (e, m) refl
insert_from-append page_size (d ∷ fs) gs f entry added e m =
    rw (insert_from-append page_size fs gs f entry added e m) refl
