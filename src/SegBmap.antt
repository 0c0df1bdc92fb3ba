-- ===== src/SegBmap.antt =====
-- lib/segbmap.c and include/segbmap.h: the segment bitmap, four bits for each segment, cut into
-- fragments with a header each. The header is that of include/ssdfs_abi.h.
pub mod Size
pub mod Table
pub mod Found
pub mod Bytes
pub mod Scan
pub mod Alloc
mod Tests
use ssdfs_tools.Prelude.{
  ℕ, zero, suc, ◌+◌, ◌-◌, ◌*◌, ◌/◌, ◌%◌, ◌^◌, min, Bool, true as t, false as f, leb, ltb, ◌==◌,
  ◌||◌, if◌then◌else◌, Option, none, some, List, [], ◌∷◌, get_or, set, u8, u32, u64, u16_max,
  u32_max, u64_max, sub_u32, sub_u64, Errno, einval, erange, enodata, Outcome, ok, err, bug, fault,
  bug_on, load, ◌>>=◌, ◌>>◌,
}
use ssdfs_tools.Bitmap.{
  items_per_byte, aligned_start_item, aligned_end_item, first_state_in_byte,
  find_first_item_in_byte, set_state_in_byte, state_at,
}

-- SSDFS_SEG_STATE_BITS and SSDFS_SEG_STATE_MASK
abbrev pub seg_state_bits : ℕ
seg_state_bits = 4

abbrev pub seg_state_mask : ℕ
seg_state_mask = 0xF

-- The states of a segment that the tools write.
abbrev pub seg_clean : ℕ
seg_clean = 0

abbrev pub seg_reserved : ℕ
seg_reserved = 9

-- struct ssdfs_segbmap_fragment_header
pub record FragmentHeader : Type 0 where
  pub magic : ℕ
  pub seg_index : ℕ
  pub peb_index : ℕ
  pub flags : ℕ
  pub seg_type : ℕ
  pub start_item : ℕ
  pub sequence_id : ℕ
  pub fragment_bytes : ℕ
  pub checksum : ℕ
  pub total_segs : ℕ
  pub clean_or_using_segs : ℕ
  pub used_or_dirty_segs : ℕ
  pub bad_segs : ℕ

-- `sizeof(struct ssdfs_segbmap_fragment_header)`, a packed structure.
abbrev pub hdr_size : ℕ
hdr_size = 0x20

-- `a / b` of unsigned operands.
abbrev pub divide : ℕ → ℕ → Outcome ℕ
divide a b = if b == 0 then fault else ok (a / b)

-- SEG_BMAP_BYTES
unfoldable pub seg_bmap_bytes : ℕ → Outcome ℕ
seg_bmap_bytes items_count = do
  items ← items_per_byte seg_state_bits
  let bytes = u64 (items_count + items - 1) / items
  bug_on (leb u32_max bytes)
  ok bytes

-- SEG_BMAP_FRAGMENTS
unfoldable pub seg_bmap_fragments : ℕ → ℕ → Outcome ℕ
seg_bmap_fragments items_count page_size = do
  bytes ← seg_bmap_bytes items_count
  pages ← divide (u32 (bytes + page_size + 2 ^ 32 - 1)) page_size
  let total = u32 (bytes + pages * hdr_size)
  fragments ← divide (u32 (total + page_size + 2 ^ 32 - 1)) page_size
  bug_on (leb u16_max fragments)
  ok fragments

-- ssdfs_segbmap_payload_bytes_per_fragment
unfoldable pub payload_bytes_per_fragment : ℕ → Outcome ℕ
payload_bytes_per_fragment fragment_size = do
  bug_on (leb fragment_size hdr_size)
  ok (u32 (fragment_size - hdr_size))

-- ssdfs_segbmap_items_per_fragment
unfoldable pub items_per_fragment : ℕ → Outcome ℕ
items_per_fragment fragment_size = do
  bug_on (leb fragment_size hdr_size)
  per_byte ← items_per_byte seg_state_bits
  let items = u32 (u32 (fragment_size - hdr_size) * per_byte)
  bug_on (leb u32_max items)
  ok items

-- ssdfs_segbmap_define_first_fragment_item
unfoldable pub define_first_fragment_item : ℕ → ℕ → Outcome ℕ
define_first_fragment_item fragment_index fragment_size = do
  items ← items_per_fragment fragment_size
  ok (u64 (fragment_index * items))

-- ssdfs_segbmap_get_item_byte_offset and ssdfs_segbmap_get_state_from_byte of
-- sbin/dump.ssdfs/show_peb_dump.c
abbrev pub get_item_byte_offset : ℕ → Outcome ℕ
get_item_byte_offset fragment_item = do
  items ← items_per_byte seg_state_bits
  ok (u32 (hdr_size + fragment_item / items))

abbrev pub get_state_from_byte : ℕ → ℕ → ℕ
get_state_from_byte byte byte_item = state_at byte (byte_item * seg_state_bits) seg_state_mask

-- Four rows of the source's table to a line.
detect_clean_seg : List Bool
detect_clean_seg =
    t ∷ t ∷ t ∷ t ∷ t ∷ t ∷ t ∷ t ∷ t ∷ t ∷ t ∷ t ∷ t ∷ t ∷ t ∷ t ∷ t ∷ f ∷ f ∷ f ∷ f ∷ f ∷ f ∷ f
    ∷ f ∷ f ∷ f ∷ f ∷ f ∷ f ∷ f ∷ f ∷ t ∷ f ∷ f ∷ f ∷ f ∷ f ∷ f ∷ f ∷ f ∷ f ∷ f ∷ f ∷ f ∷ f ∷ f ∷ f
    ∷ t ∷ f ∷ f ∷ f ∷ f ∷ f ∷ f ∷ f ∷ f ∷ f ∷ f ∷ f ∷ f ∷ f ∷ f ∷ f ∷ t ∷ f ∷ f ∷ f ∷ f ∷ f ∷ f ∷ f
    ∷ f ∷ f ∷ f ∷ f ∷ f ∷ f ∷ f ∷ f ∷ t ∷ f ∷ f ∷ f ∷ f ∷ f ∷ f ∷ f ∷ f ∷ f ∷ f ∷ f ∷ f ∷ f ∷ f ∷ f
    ∷ t ∷ f ∷ f ∷ f ∷ f ∷ f ∷ f ∷ f ∷ f ∷ f ∷ f ∷ f ∷ f ∷ f ∷ f ∷ f ∷ t ∷ f ∷ f ∷ f ∷ f ∷ f ∷ f ∷ f
    ∷ f ∷ f ∷ f ∷ f ∷ f ∷ f ∷ f ∷ f ∷ t ∷ f ∷ f ∷ f ∷ f ∷ f ∷ f ∷ f ∷ f ∷ f ∷ f ∷ f ∷ f ∷ f ∷ f ∷ f
    ∷ t ∷ f ∷ f ∷ f ∷ f ∷ f ∷ f ∷ f ∷ f ∷ f ∷ f ∷ f ∷ f ∷ f ∷ f ∷ f ∷ t ∷ f ∷ f ∷ f ∷ f ∷ f ∷ f ∷ f
    ∷ f ∷ f ∷ f ∷ f ∷ f ∷ f ∷ f ∷ f ∷ t ∷ f ∷ f ∷ f ∷ f ∷ f ∷ f ∷ f ∷ f ∷ f ∷ f ∷ f ∷ f ∷ f ∷ f ∷ f
    ∷ t ∷ f ∷ f ∷ f ∷ f ∷ f ∷ f ∷ f ∷ f ∷ f ∷ f ∷ f ∷ f ∷ f ∷ f ∷ f ∷ t ∷ f ∷ f ∷ f ∷ f ∷ f ∷ f ∷ f
    ∷ f ∷ f ∷ f ∷ f ∷ f ∷ f ∷ f ∷ f ∷ t ∷ f ∷ f ∷ f ∷ f ∷ f ∷ f ∷ f ∷ f ∷ f ∷ f ∷ f ∷ f ∷ f ∷ f ∷ f
    ∷ t ∷ f ∷ f ∷ f ∷ f ∷ f ∷ f ∷ f ∷ f ∷ f ∷ f ∷ f ∷ f ∷ f ∷ f ∷ f ∷ []

-- BYTE_CONTAINS_CLEAN_STATE
pub byte_contains_clean_state : ℕ → Bool
unfolding detect_clean_seg
byte_contains_clean_state value = get_or detect_clean_seg value f

-- What SET_FIRST_CLEAN_ITEM_IN_FRAGMENT leaves: the bytes behind `fragment`, `*found_seg`, and the
-- code, `none` for 0.
pub record Search : Type 0 where
  pub fragment : List ℕ
  pub found_seg : ℕ
  pub code : Option Errno

module _ (start max state : ℕ) where
  -- After the loop: the code of a search that found nothing is -ENODATA.
  abbrev pub end_search : List ℕ → ℕ → Option Errno → Search
  end_search fragment found_seg code = record {
    fragment = fragment;
    found_seg = found_seg;
    code = if found_seg == u64_max then some enodata else code;
  }

  -- The number of the segment found, U64_MAX for one out of the range of the search.
  abbrev pub found_segment : ℕ → ℕ → ℕ
  found_segment index offset =
      let seg = u64 (start + u32 (index * 2) + offset) in if leb max seg then u64_max else seg

  -- The loop at byte `index`, with `rounds` bytes left to search.
  pub search_bytes : (rounds index start_offset : ℕ) → List ℕ → Outcome Search
  search_bytes zero index start_offset fragment = ok (end_search fragment u64_max none)
  search_bytes (suc rounds) index start_offset fragment = do
    value ← load fragment index
    elim (find_first_item_in_byte value seg_clean seg_state_bits seg_state_mask start_offset
        byte_contains_clean_state first_state_in_byte) [
          | ok offset ↦
              (set_state_in_byte value offset seg_state_bits seg_state_mask state >>= λ value'.
              ok (end_search (set fragment index value') (found_segment index offset) none))
          | err enodata ↦ search_bytes rounds (index + 1) 0 fragment
          | err e ↦ ok (record { fragment = fragment; found_seg = u64_max; code = some e })
          | bug ↦ bug
          | fault ↦ fault
        ]

-- From the alignment of the range on; `bytes` is the payload of the fragment.
pub search_range : FragmentHeader → List ℕ → (start_item max_item state bytes : ℕ) → Outcome Search
search_range hdr fragment start_item max_item state bytes = do
  items ← items_per_byte seg_state_bits
  let first = hdr.start_item
  let aligned_start = aligned_start_item start_item seg_state_bits
  let aligned_end = aligned_end_item 64 max_item seg_state_bits
  let byte_range = sub_u64 aligned_end first / items
  bug_on (leb u32_max byte_range)
  let end = min bytes (u32 byte_range)
  let index = if leb first aligned_start then u32 (aligned_start - first) / items else 0
  let offset = if leb first aligned_start then u8 (start_item - aligned_start) else 0
  search_bytes first max_item state (end - index) index offset fragment

-- SET_FIRST_CLEAN_ITEM_IN_FRAGMENT; `before` is `*found_seg` at the call.
pub set_first_clean_item_in_fragment :
    FragmentHeader → List ℕ → (start_item max_item page_size state before : ℕ) → Outcome Search
set_first_clean_item_in_fragment hdr fragment start_item max_item page_size state before =
    let bytes = sub_u32 hdr.fragment_bytes hdr_size in
    if leb max_item start_item
    then ok (record { fragment = fragment; found_seg = before; code = some einval })
    else if hdr.start_item == u64_max
    then ok (record { fragment = fragment; found_seg = u64_max; code = some erange })
    else if (bytes == 0) || ltb page_size bytes
    then ok (record { fragment = fragment; found_seg = u64_max; code = some erange })
    else search_range hdr fragment start_item max_item state bytes
