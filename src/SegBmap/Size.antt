-- ===== src/SegBmap/Size.antt =====
-- SEG_BMAP_FRAGMENTS against the capacity of the fragments, at the page size of the tools, 4096.
use ssdfs_tools.Prelude.{ℕ, ◌+◌, ◌*◌, ◌/◌, ◌<◌, ◌≤◌, ◌≡◌, ◌^◌, refl, ap, ok, arith}
use ssdfs_tools.SegBmap.{
  seg_bmap_bytes, seg_bmap_fragments, items_per_fragment, define_first_fragment_item,
}

-- The number of fragments in plain arithmetic.
abbrev pub fragments_of : ℕ → ℕ
fragments_of items =
    let bytes = (items + 1) / 2 in (bytes + (bytes + 4095) / 4096 * 32 + 4095) / 4096

fragments-eq :
    (items : ℕ) → items < 2 ^ 28 → seg_bmap_fragments items 4096 ≡ ok (fragments_of items)
unfolding seg_bmap_fragments seg_bmap_bytes
fragments-eq items h = ground arith

pub items_per_page : items_per_fragment 4096 ≡ ok 8128
unfolding items_per_fragment
items_per_page = refl

pub define_first_fragment_item_lem :
    (index : ℕ) → index < 2 ^ 32 → define_first_fragment_item index 4096 ≡ ok (index * 8128)
unfolding define_first_fragment_item
define_first_fragment_item_lem index h = rw items_per_page (ap ok (omega arith))

-- For less than 2 ^ 28 segments and at least one, the fragments of SEG_BMAP_FRAGMENTS at a page size
-- of 4096 each begin at a segment of the volume, so that none of them is empty, and together they
-- have an item for each segment, if the bare bitmap takes at most 127 pages of 4096 bytes.
pub seg_bmap_fragments_cover :
    (items : ℕ)
    → 0 < items
    → items < 2 ^ 28
    → (count : ℕ) × (seg_bmap_fragments items 4096 ≡ ok count)
      × ((index : ℕ)
          → index < count
          → (first : ℕ) × (define_first_fragment_item index 4096 ≡ ok first) × (first < items))
      × ((items + 1) / 2 ≤ 127 * 4096 → items ≤ count * 8128)
seg_bmap_fragments_cover items pos small = (
  fragments_of items,
  fragments-eq items small,
  λ index below. (index * 8128, define_first_fragment_item_lem index (omega arith), omega arith),
  λ h. omega arith,
)

-- Between 1048513 and 1048576 segments the fragments of SEG_BMAP_FRAGMENTS are too few: it counts
-- the headers of the pages that the bare bitmap takes, one less than the fragments are.
pub seg_bmap_fragments_short :
    (items : ℕ)
    → 1048512 < items
    → items ≤ 1048576
    → (count : ℕ) × (seg_bmap_fragments items 4096 ≡ ok count) × (count * 8128 < items)
seg_bmap_fragments_short items lo hi =
    (fragments_of items, fragments-eq items (omega arith), omega arith)
