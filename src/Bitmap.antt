-- ===== src/Bitmap.antt =====
-- include/common_bitmap.h: items of a few bits packed into bytes.
pub mod Bytes
use ssdfs_tools.Prelude.{
  ℕ, zero, suc, ◌+◌, ◌-◌, ◌*◌, ◌/◌, ◌%◌, ◌^◌, Bool, true, false, not, ltb, leb, ◌==◌, if◌then◌else◌,
  u8, not_u8, ◌<<<◌, ◌>>>◌, bit_and, bit_or, Outcome, ok, err, bug, fault, enodata, bug_on, ◌>>=◌,
  ◌>>◌,
}

abbrev pub bits_per_byte : ℕ
bits_per_byte = 8

-- `SSDFS_ITEMS_PER_BYTE`; items of no bits divide by zero.
abbrev pub items_per_byte : ℕ → Outcome ℕ
items_per_byte bits =
    if ltb bits_per_byte bits then bug else if bits == 0 then fault else ok (bits_per_byte / bits)

-- `ALIGNED_START_ITEM`: what the shift left brings in was shifted out before.
abbrev pub aligned_start_item : ℕ → ℕ → ℕ
aligned_start_item item bits = item >>> bits <<< bits

-- `ALIGNED_END_ITEM`, where the sum is done in a word of `width` bits.
abbrev pub aligned_end_item : ℕ → ℕ → ℕ → ℕ
aligned_end_item width item bits = ((item + bits_per_byte / bits - 1) % 2 ^ width) >>> bits <<< bits

-- The state of the item whose lowest bit is bit `i`.
abbrev pub state_at : ℕ → ℕ → ℕ → ℕ
state_at value i mask = bit_and (value >>> i) mask

module _ (value state bits mask : ℕ) where
  -- The loop of `FIRST_STATE_IN_BYTE` at bit `i`: `i` grows by `bits`, at least 1, so that eight
  -- rounds end it.
  unfoldable pub scan_byte : ℕ → ℕ → ℕ
  scan_byte zero i = bits_per_byte / bits
  scan_byte (suc rounds) i =
      let next = scan_byte rounds (u8 (i + bits)) in
      let found = if state_at value i mask == state then i / bits else next in
      if ltb i bits_per_byte then found else bits_per_byte / bits

  unfoldable pub first_state_in_byte : ℕ → Outcome ℕ
  first_state_in_byte start_offset = do
    bug_on (ltb bits_per_byte bits)
    bug_on (not (bits % 2 == 0))
    items ← items_per_byte bits
    bug_on (ltb items start_offset)
    ok (scan_byte bits_per_byte (u8 (start_offset * bits)))

-- `check` and `op` are the callbacks; `ok` carries `*found_offset`.
unfoldable pub find_first_item_in_byte :
    (value state bits mask start_offset : ℕ) (check : ℕ → Bool) (op : ℕ → ℕ → ℕ → ℕ → ℕ → Outcome ℕ)
    → Outcome ℕ
find_first_item_in_byte value state bits mask start_offset check op = do
  bug_on (ltb bits_per_byte bits)
  bug_on (not (bits % 2 == 0))
  items ← items_per_byte bits
  bug_on (ltb items start_offset)
  if check value
      then (op value state bits mask start_offset >>= λ offset.
          if ltb offset items then ok offset else err enodata)
      else err enodata

-- The byte that `SET_STATE_IN_BYTE` stores.
abbrev pub put_state : ℕ → ℕ → ℕ → ℕ → ℕ
put_state byte shift mask new_state =
    bit_or (bit_and byte (not_u8 (mask <<< shift))) (u8 (u8 (bit_and new_state mask) <<< shift))

unfoldable pub set_state_in_byte : ℕ → ℕ → ℕ → ℕ → ℕ → Outcome ℕ
set_state_in_byte byte item bits mask new_state = do
  items ← items_per_byte bits
  bug_on (leb items item)
  ok (put_state byte (item * bits) mask new_state)
