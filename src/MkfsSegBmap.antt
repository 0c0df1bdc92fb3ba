-- ===== src/MkfsSegBmap.antt =====
-- sbin/mkfs.ssdfs/segment_bitmap.c: how mkfs spreads the fragments of the segment bitmap over
-- segments and PEBs, and the header of each fragment.
pub mod Spread
pub mod Fragment
mod Tests
use ssdfs_tools.Prelude.{
  ℕ, ◌-◌, ◌^◌, leb, u64, sub_u64, u16_max, einval, erange, bug_on, ◌+◌, ◌*◌, ◌/◌, ◌%◌, min, Bool,
  ltb, ◌==◌, ◌||◌, if◌then◌else◌, u8, u16, u32, sub_u32, Outcome, ok, err, fault, e2big, fail_if,
  ◌>>=◌, ◌>>◌,
}
use ssdfs_tools.SegBmap.{
  FragmentHeader, hdr_size, divide, seg_bmap_bytes, seg_bmap_fragments, payload_bytes_per_fragment,
  items_per_fragment, define_first_fragment_item,
}

-- PAGE_CACHE_SIZE and SSDFS_SEGBMAP_SEGS
abbrev pub page_cache_size : ℕ
page_cache_size = 4096

abbrev pub segbmap_segs_max : ℕ
segbmap_segs_max = 8

-- What the functions use of struct ssdfs_volume_layout and of its struct ssdfs_segbmap_layout;
-- `segs` is `*segs`.
pub record Layout : Type 0 where
  pub fs_size : ℕ
  pub seg_size : ℕ
  pub erase_size : ℕ
  pub page_size : ℕ
  pub has_backup_copy : Bool
  pub segs_per_chain : ℕ
  pub fragments_per_peb : ℕ
  pub pebs_per_seg : ℕ
  pub fragments_count : ℕ
  pub fragment_size : ℕ
  pub bmap_bytes : ℕ
  pub segs : ℕ

-- The fragments of a PEB and the PEBs of a segment.
pub record Shares : Type 0 where
  pub fragments_per_peb : ℕ
  pub pebs_per_seg : ℕ

-- `x = a / b; if (a % b) x++; if (x == 0) x = 1;` of 16-bit variables.
unfoldable pub share : ℕ → ℕ → Outcome ℕ
share a b = do
  quotient ← divide a b
  let x = if a % b == 0 then u16 quotient else u16 (u16 quotient + 1)
  ok (if x == 0 then 1 else x)

-- segbmap_mkfs_allocation_policy from the last value of `segbmap_segs` on.
unfoldable pub spread_fragments : (fragments segbmap_segs pebs_per_seg : ℕ) → Outcome Shares
spread_fragments fragments segbmap_segs pebs_per_seg = do
  fragments_per_seg ← share fragments segbmap_segs
  fragments_per_peb ← share fragments_per_seg pebs_per_seg
  pebs ← share fragments_per_seg fragments_per_peb
  ok (record { fragments_per_peb = fragments_per_peb; pebs_per_seg = pebs })

-- The segments of a chain, an 8-bit variable.
unfoldable pub chain_segs : (fragments fragments_per_seg : ℕ) → Outcome ℕ
chain_segs fragments fragments_per_seg = do
  segs ← divide (fragments + fragments_per_seg - 1) fragments_per_seg
  ok (u8 segs)

-- The fragments of a PEB where those asked for do not fit.
unfoldable pub fitting_fragments : Layout → (fragments : ℕ) → Outcome ℕ
fitting_fragments layout fragments = do
  fit ← divide (sub_u32 layout.erase_size (u32 (layout.page_size * 2)) / 2) layout.page_size
  ok (min (if u16 fit == 0 then 1 else u16 fit) fragments)

-- segbmap_mkfs_allocation_policy; `ok` carries the layout that it leaves.
unfoldable pub segbmap_mkfs_allocation_policy : Layout → Outcome Layout
segbmap_mkfs_allocation_policy layout = do
  seg_nums ← divide layout.fs_size layout.seg_size
  bmap_bytes ← seg_bmap_bytes seg_nums
  fragments ← seg_bmap_fragments seg_nums page_cache_size
  pebs ← divide layout.seg_size layout.erase_size
  let pebs_per_seg = u16 pebs
  segs ← chain_segs fragments (u16 (layout.fragments_per_peb * pebs_per_seg))
  fragments_per_peb ←
      if ltb layout.erase_size (u32 (layout.fragments_per_peb * layout.page_size))
        || ltb segbmap_segs_max segs
      then fitting_fragments layout fragments
      else ok layout.fragments_per_peb
  segbmap_segs ← chain_segs fragments (u16 (fragments_per_peb * pebs_per_seg))
  fail_if (ltb segbmap_segs_max segbmap_segs) e2big
  spread ← spread_fragments fragments segbmap_segs pebs_per_seg
  ok (record layout {
    segs_per_chain = segbmap_segs;
    fragments_per_peb = spread.fragments_per_peb;
    pebs_per_seg = spread.pebs_per_seg;
    fragments_count = fragments;
    fragment_size = layout.page_size;
    bmap_bytes = bmap_bytes;
    segs = if layout.has_backup_copy then segbmap_segs * 2 else segbmap_segs;
  })

-- SSDFS_SEGBMAP_HDR_MAGIC
abbrev pub segbmap_hdr_magic : ℕ
segbmap_hdr_magic = 0x534D

-- The header of a fragment, and where it is: the index of the PEB's buffer in the fragments array
-- and the offset in that buffer.
pub record Prepared : Type 0 where
  pub buffer : ℕ
  pub offset : ℕ
  pub hdr : FragmentHeader

-- The bytes of a fragment, behind those of the fragments before it and no more than a page.
unfoldable pub bytes_of_fragment : (bmap_bytes fragments index : ℕ) → Outcome ℕ
bytes_of_fragment bmap_bytes fragments index = do
  payload_bytes ← payload_bytes_per_fragment page_cache_size
  let all_bytes = u64 (bmap_bytes + fragments * hdr_size)
  let rest = sub_u64 all_bytes (u64 (index * (payload_bytes + hdr_size)))
  bug_on (leb u16_max (min rest page_cache_size))
  ok (min rest page_cache_size)

-- The segments of a fragment.
unfoldable pub segs_of_fragment : (seg_nums start_item : ℕ) → Outcome ℕ
segs_of_fragment seg_nums start_item = do
  items ← items_per_fragment page_cache_size
  bug_on (leb u16_max (min items (seg_nums - start_item)))
  ok (min items (seg_nums - start_item))

-- segbmap_prepare_fragment; `before` is the header that the buffer has, of which it keeps two
-- fields. The difference in `peb_index` is not positive, and its quotient is cut to 16 bits.
unfoldable pub segbmap_prepare_fragment : Layout → (index : ℕ) → FragmentHeader → Outcome Prepared
segbmap_prepare_fragment layout index before = do
  let fragments = u16 layout.fragments_count
  let per_peb = layout.fragments_per_peb
  fail_if (leb fragments index) einval
  seg_nums ← divide layout.fs_size layout.seg_size
  let per_seg = u16 (layout.pebs_per_seg * per_peb)
  segment ← divide index per_seg
  let seg_index = u16 segment
  peb ← divide (index - seg_index * per_seg) per_peb
  let peb_index = u16 (2 ^ 16 - u16 peb)
  start_item ← define_first_fragment_item index page_cache_size
  fail_if (leb seg_nums start_item) erange
  fragment_bytes ← bytes_of_fragment layout.bmap_bytes fragments index
  total_segs ← segs_of_fragment seg_nums start_item
  ok (record {
    buffer = index / per_peb;
    offset = index % per_peb * layout.fragment_size;
    hdr = record before {
      magic = segbmap_hdr_magic;
      seg_index = seg_index;
      peb_index = peb_index;
      flags = 0;
      start_item = start_item;
      sequence_id = u16 index;
      fragment_bytes = fragment_bytes;
      total_segs = total_segs;
      clean_or_using_segs = total_segs;
      used_or_dirty_segs = 0;
      bad_segs = 0;
    };
  })
