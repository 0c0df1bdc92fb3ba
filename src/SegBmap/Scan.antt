-- ===== src/SegBmap/Scan.antt =====
-- SET_FIRST_CLEAN_ITEM_IN_FRAGMENT finds the first clean segment of the searched part of a fragment
-- and sets its state, or finds that there is none.
use ssdfs_tools.Prelude.{
  ℕ, ◌+◌, ◌-◌, ◌*◌, ◌/◌, ◌%◌, ◌^◌, min, ◌<◌, ◌≤◌, ◌≡◌, ◌⊎◌, inl, inr, true, false, Bool-cases, ltb,
  leb, ◌==◌, if◌then◌else◌, List, length, u8, u32, sub_u32, sub_u64, u32_max, u64_max, arith,
}
use ssdfs_tools.Bitmap.{aligned_end_item}
use ssdfs_tools.SegBmap.{
  FragmentHeader, hdr_size, search_bytes, search_range, set_first_clean_item_in_fragment,
}
use ssdfs_tools.SegBmap.Found.{IsBytes, Found, NotFound}
use ssdfs_tools.SegBmap.Bytes.{search_bytes_lem}

-- The first item of the fragment that is looked at, and the end of the searched part: the items
-- below the aligned end that the fragment's bytes hold.
abbrev pub search_lo : FragmentHeader → ℕ → ℕ
search_lo hdr start = if leb hdr.start_item (start / 16 * 16) then start - hdr.start_item else 0

abbrev pub search_hi : FragmentHeader → ℕ → ℕ
search_hi hdr max_item =
    2 * min (hdr.fragment_bytes - hdr_size) (((max_item + 1) / 16 * 16 - hdr.start_item) / 2)

-- A fragment whose header tells the truth, and a range that the guards of the function let pass.
pub record PassesGuards (hdr : FragmentHeader) (fragment : List ℕ) (start max_item page_size : ℕ)
    : Type 0 where
  pub in_order : start < max_item
  pub max_fits : max_item + 1 < 2 ^ 64
  pub first_below : hdr.start_item ≤ (max_item + 1) / 16 * 16
  pub has_payload : hdr_size < hdr.fragment_bytes
  pub bytes_fit : hdr.fragment_bytes < 2 ^ 16
  pub in_page : hdr.fragment_bytes - hdr_size ≤ page_size
  pub in_memory : hdr.fragment_bytes - hdr_size ≤ length fragment
  pub range_fits : ((max_item + 1) / 16 * 16 - hdr.start_item) / 2 < u32_max
  pub start_near : start / 16 * 16 ≤ hdr.start_item + search_hi hdr max_item

-- Such a range with a start that the search of a byte accepts, inside the searched part.
pub record IsSearchable (hdr : FragmentHeader) (fragment : List ℕ) (start max_item page_size : ℕ)
    : Type 0 where
  pub guards : PassesGuards hdr fragment start max_item page_size
  pub first_even : hdr.start_item % 2 ≡ 0
  pub start_aligned : start % 16 ≤ 2
  pub start_inside : search_lo hdr start ≤ search_hi hdr max_item

module _ (hdr : FragmentHeader) (fragment : List ℕ) (start max_item page_size state before : ℕ)
    (guards : PassesGuards hdr fragment start max_item page_size) where
  pub enters :
      set_first_clean_item_in_fragment hdr fragment start max_item page_size state before
      ≡ search_range hdr fragment start max_item state (hdr.fragment_bytes - hdr_size)
  unfolding set_first_clean_item_in_fragment
  enters =
      let in_order : leb max_item start ≡ false = ground arith in
      let known : hdr.start_item == u64_max ≡ false = ground arith in
      let bytes : sub_u32 hdr.fragment_bytes hdr_size ≡ hdr.fragment_bytes - hdr_size =
        omega arith in
      let nonempty : hdr.fragment_bytes - hdr_size == 0 ≡ false = ground arith in
      let in_page : ltb page_size (hdr.fragment_bytes - hdr_size) ≡ false = ground arith in
      rw (in_order, known, bytes, nonempty, in_page)

  range-eq :
      sub_u64 (aligned_end_item 64 max_item 4) hdr.start_item / 2
      ≡ ((max_item + 1) / 16 * 16 - hdr.start_item) / 2
  range-eq = omega arith

  pub ranges-near :
      leb hdr.start_item (start / 16 * 16) ≡ true
      → search_range hdr fragment start max_item state (hdr.fragment_bytes - hdr_size)
        ≡ search_bytes hdr.start_item max_item state
            (search_hi hdr max_item / 2 - (start / 16 * 16 - hdr.start_item) / 2)
            ((start / 16 * 16 - hdr.start_item) / 2)
            (start % 16)
            fragment
  unfolding search_range
  ranges-near h =
      let in_range : leb u32_max (((max_item + 1) / 16 * 16 - hdr.start_item) / 2) ≡ false =
        ground arith in
      let index : u32 (start / 16 * 16 - hdr.start_item) / 2
          ≡ (start / 16 * 16 - hdr.start_item) / 2 =
        ground arith in
      let offset : u8 (start - start / 16 * 16) ≡ start % 16 = omega arith in
      let bytes : min (hdr.fragment_bytes - hdr_size)
            (((max_item + 1) / 16 * 16 - hdr.start_item) / 2 % 2 ^ 32)
          ≡ search_hi hdr max_item / 2 =
        omega arith in
      rw (h, range-eq, in_range, index, offset, bytes)

  ranges-far :
      leb hdr.start_item (start / 16 * 16) ≡ false
      → search_range hdr fragment start max_item state (hdr.fragment_bytes - hdr_size)
        ≡ search_bytes hdr.start_item max_item state (search_hi hdr max_item / 2) 0 0 fragment
  unfolding search_range
  ranges-far h =
      let in_range : leb u32_max (((max_item + 1) / 16 * 16 - hdr.start_item) / 2) ≡ false =
        ground arith in
      let bytes : min (hdr.fragment_bytes - hdr_size)
              (((max_item + 1) / 16 * 16 - hdr.start_item) / 2 % 2 ^ 32)
            - 0
          ≡ search_hi hdr max_item / 2 =
        omega arith in
      rw (h, range-eq, in_range, bytes)

-- Over a searchable fragment the function aborts nowhere and reads nothing out of range. It sets
-- the first clean item of the searched part, and reports its segment number with the code 0, or
-- U64_MAX with -ENODATA if the number is not below `max_item`; or no item there is clean, the
-- fragment is left as it was, and the code is -ENODATA.
pub set_first_clean_item_lem :
    (hdr : FragmentHeader) (fragment : List ℕ) (start max_item page_size state before : ℕ)
    → IsSearchable hdr fragment start max_item page_size
    → IsBytes fragment
    → state ≤ 15
    → let result =
        set_first_clean_item_in_fragment hdr fragment start max_item page_size state before in
      Found fragment hdr.start_item max_item state
        (search_lo hdr start)
        (search_hi hdr max_item)
        result
      ⊎ NotFound fragment (search_lo hdr start) (search_hi hdr max_item) result
set_first_clean_item_lem hdr fragment start max_item page_size state before valid bytes fits =
    elim (Bool-cases (leb hdr.start_item (start / 16 * 16))) [
      | inl near ↦
          rw
            (
              enters hdr fragment start max_item page_size state before valid.guards,
              ranges-near hdr fragment start max_item page_size state before valid.guards near,
            )
            (search_bytes_lem fragment bytes state fits hdr.start_item max_item (omega arith) _
              ((start / 16 * 16 - hdr.start_item) / 2) (start % 16) (search_lo hdr start)
              (search_hi hdr max_item) (omega arith) (ground arith) (ground arith) (ground arith)
              (ground arith) (ground arith))
      | inr far ↦
          rw
            (
              enters hdr fragment start max_item page_size state before valid.guards,
              ranges-far hdr fragment start max_item page_size state before valid.guards far,
            )
            (search_bytes_lem fragment bytes state fits hdr.start_item max_item (omega arith) _ 0 0
              (search_lo hdr start) (search_hi hdr max_item) (omega arith) (ground arith)
              (ground arith) (ground arith) (ground arith) (ground arith))
    ]
