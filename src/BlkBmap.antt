-- ===== src/BlkBmap.antt =====
-- lib/blkbmap.c and include/blkbmap.h: the block bitmap, two bits for each logical block.
pub mod Table
pub mod Area
mod Tests
use ssdfs_tools.Prelude.{
  ℕ, zero, suc, ◌+◌, ◌-◌, ◌/◌, ◌^◌, Bool, true as t, false as f, leb, ◌||◌, if◌then◌else◌, List, [],
  ◌∷◌, get_or, set, u32, sub_u32, Outcome, ok, err, einval, bug_on, fail_if, load, ◌>>=◌, ◌>>◌,
  ◌==◌,
}
use ssdfs_tools.Bitmap.{items_per_byte, aligned_start_item, aligned_end_item, set_state_in_byte}

-- SSDFS_BLK_STATE_BITS and SSDFS_BLK_STATE_MASK
abbrev pub blk_state_bits : ℕ
blk_state_bits = 2

abbrev pub blk_state_mask : ℕ
blk_state_mask = 3

-- SSDFS_BLK_FREE to SSDFS_BLK_STATE_MAX
abbrev pub blk_free : ℕ
blk_free = 0

abbrev pub blk_pre_allocated : ℕ
blk_pre_allocated = 1

abbrev pub blk_invalid : ℕ
blk_invalid = 2

abbrev pub blk_valid : ℕ
blk_valid = 3

abbrev pub blk_state_max : ℕ
blk_state_max = blk_valid + 1

-- BLK_BMAP_BYTES
pub blk_bmap_bytes : ℕ → Outcome ℕ
blk_bmap_bytes items_count = do
  items ← items_per_byte blk_state_bits
  ok ((items_count + items - 1) / items)

-- Four rows of the source's table to a line.
detect_free_blk : List Bool
detect_free_blk =
    t ∷ t ∷ t ∷ t ∷ t ∷ t ∷ t ∷ t ∷ t ∷ t ∷ t ∷ t ∷ t ∷ t ∷ t ∷ t ∷ t ∷ t ∷ t ∷ t ∷ t ∷ t ∷ t ∷ t
    ∷ t ∷ t ∷ t ∷ t ∷ t ∷ t ∷ t ∷ t ∷ t ∷ t ∷ t ∷ t ∷ t ∷ t ∷ t ∷ t ∷ t ∷ t ∷ t ∷ t ∷ t ∷ t ∷ t ∷ t
    ∷ t ∷ t ∷ t ∷ t ∷ t ∷ t ∷ t ∷ t ∷ t ∷ t ∷ t ∷ t ∷ t ∷ t ∷ t ∷ t ∷ t ∷ t ∷ t ∷ t ∷ t ∷ t ∷ t ∷ t
    ∷ t ∷ t ∷ t ∷ t ∷ t ∷ t ∷ t ∷ t ∷ t ∷ t ∷ t ∷ t ∷ t ∷ f ∷ f ∷ f ∷ t ∷ f ∷ f ∷ f ∷ t ∷ f ∷ f ∷ f
    ∷ t ∷ t ∷ t ∷ t ∷ t ∷ f ∷ f ∷ f ∷ t ∷ f ∷ f ∷ f ∷ t ∷ f ∷ f ∷ f ∷ t ∷ t ∷ t ∷ t ∷ t ∷ f ∷ f ∷ f
    ∷ t ∷ f ∷ f ∷ f ∷ t ∷ f ∷ f ∷ f ∷ t ∷ t ∷ t ∷ t ∷ t ∷ t ∷ t ∷ t ∷ t ∷ t ∷ t ∷ t ∷ t ∷ t ∷ t ∷ t
    ∷ t ∷ t ∷ t ∷ t ∷ t ∷ f ∷ f ∷ f ∷ t ∷ f ∷ f ∷ f ∷ t ∷ f ∷ f ∷ f ∷ t ∷ t ∷ t ∷ t ∷ t ∷ f ∷ f ∷ f
    ∷ t ∷ f ∷ f ∷ f ∷ t ∷ f ∷ f ∷ f ∷ t ∷ t ∷ t ∷ t ∷ t ∷ f ∷ f ∷ f ∷ t ∷ f ∷ f ∷ f ∷ t ∷ f ∷ f ∷ f
    ∷ t ∷ t ∷ t ∷ t ∷ t ∷ t ∷ t ∷ t ∷ t ∷ t ∷ t ∷ t ∷ t ∷ t ∷ t ∷ t ∷ t ∷ t ∷ t ∷ t ∷ t ∷ f ∷ f ∷ f
    ∷ t ∷ f ∷ f ∷ f ∷ t ∷ f ∷ f ∷ f ∷ t ∷ t ∷ t ∷ t ∷ t ∷ f ∷ f ∷ f ∷ t ∷ f ∷ f ∷ f ∷ t ∷ f ∷ f ∷ f
    ∷ t ∷ t ∷ t ∷ t ∷ t ∷ f ∷ f ∷ f ∷ t ∷ f ∷ f ∷ f ∷ t ∷ f ∷ f ∷ f ∷ []

-- BYTE_CONTAINS_FREE_BLK
pub byte_contains_free_blk : ℕ → Bool
unfolding detect_free_blk
byte_contains_free_blk value = get_or detect_free_blk value f

-- `*bmap` as its bytes, with the number of items set so far.
pub record Progress : Type 0 where
  pub bmap : List ℕ
  pub processed : ℕ
  pub finished : Bool

module _ (items_count state : ℕ) where
  -- The loop over `j` in the byte `cur`, with `rounds` items of the byte left. The flag is the
  -- jump to `finish_set_blkbmap`.
  pub fill_byte : (rounds j cur : ℕ) → List ℕ → ℕ → Outcome Progress
  fill_byte zero j cur bmap processed =
      ok (record { bmap = bmap; processed = processed; finished = f })
  fill_byte (suc rounds) j cur bmap processed =
      if leb items_count processed
      then ok (record { bmap = bmap; processed = processed; finished = t })
      else do
        byte ← load bmap cur
        value ← set_state_in_byte byte j blk_state_bits blk_state_mask state
        fill_byte rounds (j + 1) cur (set bmap cur value) (processed + 1)

  -- The loop over `i`, with `bytes` rounds left.
  pub fill_bytes : (bytes byte_item cur : ℕ) → List ℕ → ℕ → Outcome (List ℕ)
  fill_bytes zero byte_item cur bmap processed = ok bmap
  fill_bytes (suc bytes) byte_item cur bmap processed = do
    items ← items_per_byte blk_state_bits
    p ← fill_byte (items - byte_item) byte_item cur bmap processed
    if p.finished then ok p.bmap else fill_bytes bytes 0 (cur + 1) p.bmap p.processed

-- ssdfs_blkbmap_set_area. `ok` carries the bitmap at the return of 0. `state` is an `int` by its bit
-- pattern, so that 2 ^ 31 and above are the negative ones.
pub set_area : List ℕ → (start_item items_count state : ℕ) → Outcome (List ℕ)
set_area bmap start_item items_count state = do
  fail_if (leb (2 ^ 31) state || leb blk_state_max state) einval
  items ← items_per_byte blk_state_bits
  bug_on (items == 0)
  let aligned_start = aligned_start_item start_item blk_state_bits
  let aligned_end = aligned_end_item 32 (u32 (start_item + items_count)) blk_state_bits
  let bytes_count = sub_u32 aligned_end aligned_start / items
  fill_bytes items_count state bytes_count (start_item - aligned_start) (aligned_start / items) bmap
      0
