-- ===== src/FragmentsArray/Callers.antt =====
-- The creations and destructions of the three arrays of sbin/mkfs.ssdfs: segment_bitmap.c,
-- mapping_table.c and mapping_table_cache.c, with the number of the buffers that each computes.
use native.Mathlib.Nat.{lt-div-mul-add, div-mul-le_self}
use ssdfs_tools.Prelude.{
  ℕ, ◌+◌, ◌-◌, ◌*◌, ◌/◌, ◌^◌, ◌<◌, ◌≤◌, ◌≡◌, ap, ◌∙◌, Bool, true, false, ◌==◌, if◌then◌else◌, List,
  [], ◌∷◌, length, length-append, ◌++◌, subst, Bool-cases, inl, inr, u8, u32, u64_max, sub_u32,
  Outcome, ok, arith,
}
use ssdfs_tools.Heap.{Heap}
use ssdfs_tools.Heap.Owned.{IsHeap}
use ssdfs_tools.MaptblCache.{pairs_per_fragment}
use ssdfs_tools.FragmentsArray.{
  FragmentsArray, Created, Run, done, wild, create_fragments_array, destroy_fragments_array,
}
use ssdfs_tools.FragmentsArray.Leaks.{SameLive, create-destroy_fragments_array}

module _ (grants : ℕ → Bool) where
  unfoldable pub segbmap_create_fragments_array :
      (segs_per_chain pebs_per_seg : ℕ) → Heap → Run Created
  segbmap_create_fragments_array segs_per_chain pebs_per_seg =
      create_fragments_array grants false (segs_per_chain * pebs_per_seg)

  unfoldable pub maptbl_create_fragments_array : (maptbl_pebs : ℕ) → Heap → Run Created
  maptbl_create_fragments_array maptbl_pebs = create_fragments_array grants true maptbl_pebs

-- The number of segments is cut to a byte here.
unfoldable pub segbmap_destroy_fragments_array :
    (segs_per_chain pebs_per_seg : ℕ) → FragmentsArray → Heap → Outcome Heap
segbmap_destroy_fragments_array segs_per_chain pebs_per_seg =
    destroy_fragments_array (u8 segs_per_chain * pebs_per_seg)

unfoldable pub maptbl_destroy_fragments_array :
    (maptbl_pebs : ℕ) → FragmentsArray → Heap → Outcome Heap
maptbl_destroy_fragments_array maptbl_pebs = destroy_fragments_array maptbl_pebs

unfoldable pub maptbl_cache_destroy_fragments_array :
    (fragments_count : ℕ) → FragmentsArray → Heap → Outcome Heap
maptbl_cache_destroy_fragments_array fragments_count = destroy_fragments_array fragments_count

-- The LEBs of a segment's PEBs that have one; `segs` lists, for each segment, the `leb_id` of its
-- PEBs.
unfoldable pub count_lebs : (lebs_count : ℕ) → List ℕ → ℕ
count_lebs lebs_count [] = lebs_count
count_lebs lebs_count (leb_id ∷ pebs) =
    count_lebs (if leb_id == u64_max then lebs_count else u32 (lebs_count + 1)) pebs

unfoldable pub count_all_lebs : (lebs_count : ℕ) → List (List ℕ) → ℕ
count_all_lebs lebs_count [] = lebs_count
count_all_lebs lebs_count (pebs ∷ segs) = count_all_lebs (count_lebs lebs_count pebs) segs

-- `fragments_count` of the LEBs and of the pairs in a fragment.
unfoldable pub fragments_of : (lebs_count pairs : ℕ) → ℕ
fragments_of lebs_count pairs = sub_u32 (u32 (lebs_count + pairs)) 1 / pairs

unfoldable pub maptbl_cache_create_fragments_array :
    (grants : ℕ → Bool) (page_size : ℕ) → List (List ℕ) → Heap → Run Created
maptbl_cache_create_fragments_array grants page_size segs h =
    let pairs = u32 (pairs_per_fragment page_size) in
    if pairs == 0
    then wild
    else create_fragments_array grants true (fragments_of (count_all_lebs 0 segs) pairs) h

-- All LEBs of the segments that are set.
abbrev pub set_lebs : List ℕ → List ℕ
set_lebs [] = []
set_lebs (leb_id ∷ pebs) =
    let rest = set_lebs pebs in if leb_id == u64_max then rest else leb_id ∷ rest

abbrev pub all_set_lebs : List (List ℕ) → List ℕ
all_set_lebs [] = []
all_set_lebs (pebs ∷ segs) = set_lebs pebs ++ all_set_lebs segs

count_lebs-length :
    (n : ℕ) (pebs : List ℕ)
    → n + length (set_lebs pebs) < 2 ^ 32
    → count_lebs n pebs ≡ n + length (set_lebs pebs)
unfolding count_lebs
count_lebs-length n [] h = omega arith
count_lebs-length n (leb_id ∷ pebs) h = elim (Bool-cases (leb_id == u64_max)) [
  | inl t ↦
      let fits =
        subst (λ c. n + length (if c then set_lebs pebs else leb_id ∷ set_lebs pebs) < 2 ^ 32) t
          h in
      rw t (count_lebs-length n pebs fits)
  | inr t ↦
      let fits =
        subst (λ c. n + length (if c then set_lebs pebs else leb_id ∷ set_lebs pebs) < 2 ^ 32) t
          h in
      let next : u32 (n + 1) ≡ n + 1 = omega (arith, fits) in
      rw (t, next) (count_lebs-length (n + 1) pebs (omega (arith, fits)) ∙ omega arith)
]

count_all_lebs-length :
    (n : ℕ) (segs : List (List ℕ))
    → n + length (all_set_lebs segs) < 2 ^ 32
    → count_all_lebs n segs ≡ n + length (all_set_lebs segs)
unfolding count_all_lebs
count_all_lebs-length n [] h = omega arith
count_all_lebs-length n (pebs ∷ segs) h =
    let size = length-append (set_lebs pebs) (all_set_lebs segs) in
    let first = count_lebs-length n pebs (omega (arith, size, h)) in
    ap (λ k. count_all_lebs k segs) first
    ∙ count_all_lebs-length (n + length (set_lebs pebs)) segs (omega (arith, size, h))
    ∙ omega (arith, size)

-- The fragments of the mapping table cache are as few as have room for a pair of every LEB that is
-- set, as long as the LEBs and the pairs of a fragment are fewer than 2^32 in sum.
pub fragments_of-cover :
    (pairs : ℕ) (segs : List (List ℕ))
    → 0 < pairs
    → length (all_set_lebs segs) + pairs < 2 ^ 32
    → (length (all_set_lebs segs) ≤ fragments_of (count_all_lebs 0 segs) pairs * pairs)
      × (fragments_of (count_all_lebs 0 segs) pairs * pairs < length (all_set_lebs segs) + pairs)
unfolding fragments_of
fragments_of-cover pairs segs some_pairs fits =
    let n = length (all_set_lebs segs) in
    let counted : count_all_lebs 0 segs ≡ n =
      count_all_lebs-length 0 segs (omega (arith, fits)) ∙ omega arith in
    let sum : sub_u32 (u32 (count_all_lebs 0 segs + pairs)) 1 ≡ n + pairs - 1 =
      omega (arith, counted, fits, some_pairs) in
    let above : n + pairs - 1 < (n + pairs - 1) / pairs * pairs + pairs =
      lt-div-mul-add some_pairs in
    let below : (n + pairs - 1) / pairs * pairs ≤ n + pairs - 1 =
      div-mul-le_self (n + pairs - 1) pairs in
    rw sum (omega (arith, above), omega (arith, below, some_pairs))

module _ (grants : ℕ → Bool) (base : Heap) (valid : IsHeap base) where
  -- The array of the segment bitmap, of less than 256 segments, is destroyed as it was created:
  -- without a fault, and with the heap as live as before the creation.
  pub segbmap_create-destroy_fragments_array :
      (segs_per_chain pebs_per_seg : ℕ) (r : Created)
      → segs_per_chain < 2 ^ 8
      → segbmap_create_fragments_array grants segs_per_chain pebs_per_seg base ≡ done r
      → (h : Heap) × (segbmap_destroy_fragments_array segs_per_chain pebs_per_seg r.fragments r.heap
          ≡ ok h)
        × SameLive base h
  unfolding segbmap_create_fragments_array segbmap_destroy_fragments_array
  segbmap_create-destroy_fragments_array segs_per_chain pebs_per_seg r few made =
      let same : u8 segs_per_chain ≡ segs_per_chain = omega arith in
      let back =
        create-destroy_fragments_array grants base valid (segs_per_chain * pebs_per_seg) r made in
      (
        back.0,
        ap (λ n. destroy_fragments_array (n * pebs_per_seg) r.fragments r.heap) same ∙ back.1,
        back.2,
      )
