-- ===== src/Segments.antt =====
-- sbin/mkfs.ssdfs/common.c: reserve_segments, which gives the next segments of a new volume to a
-- kind of metadata.
pub mod Reserved
mod Tests
use ssdfs_tools.Prelude.{
  ℕ, zero, suc, ◌+◌, ◌-◌, ◌==◌, ltb, leb, if◌then◌else◌, List, [], ◌∷◌, length, Outcome, ok, err,
  einval, erange, fault, fail_if, ◌>>=◌, ◌>>◌,
}

-- struct ssdfs_segment_desc, as far as the function sets it.
pub record SegmentDesc : Type 0 where
  pub seg_type : ℕ
  pub seg_state : ℕ

-- struct ssdfs_metadata_desc
pub record MetadataDesc : Type 0 where
  pub start_seg_index : ℕ
  pub segs_count : ℕ
  pub seg_state : ℕ

-- The segments have `segs_capacity` elements. `next_seg_index` is last_allocated_seg_index + 1:
-- that field begins with -1.
pub record VolumeLayout : Type 0 where
  pub segs : List SegmentDesc
  pub next_seg_index : ℕ
  pub meta_array : ℕ → MetadataDesc

-- A store behind the array is a fault.
unfoldable pub store_seg : List SegmentDesc → (index : ℕ) → SegmentDesc → Outcome (List SegmentDesc)
store_seg [] index seg = fault
store_seg (s ∷ segs) zero seg = ok (seg ∷ segs)
store_seg (s ∷ segs) (suc index) seg = store_seg segs index seg >>= λ rest. ok (s ∷ rest)

-- The loop, over the segments that are left.
unfoldable pub reserve_from :
    (left index : ℕ) → SegmentDesc → List SegmentDesc → Outcome (List SegmentDesc)
reserve_from zero index seg segs = ok segs
reserve_from (suc left) index seg segs =
    store_seg segs index seg >>= reserve_from left (index + 1) seg

-- A segs_count of 0 is only warned of. SSDFS_METADATA_ITEMS_MAX is 5.
unfoldable pub reserve_segments : VolumeLayout → (meta_index : ℕ) → Outcome VolumeLayout
reserve_segments layout meta_index = do
  let index = layout.next_seg_index
  let desc = layout.meta_array meta_index
  fail_if (leb 5 meta_index) einval
  if desc.segs_count == 0 then ok layout else (do
    fail_if (leb (length layout.segs) index) erange
    segs ←
        reserve_from desc.segs_count index
          (record { seg_type = meta_index; seg_state = desc.seg_state }) layout.segs
    ok (record {
      segs = segs;
      next_seg_index = index + desc.segs_count;
      meta_array = λ k.
          if k == meta_index then record desc { start_seg_index = index } else layout.meta_array k;
    }))
