-- ===== src/Bitmap/Bytes.antt =====
-- One byte of a bitmap: what an item reads as after `SET_STATE_IN_BYTE`, and what
-- `FIRST_STATE_IN_BYTE` finds. The two widths in use (2 and 4 bits) are checked over all bytes.
use ssdfs_tools.Prelude.{
  ℕ, zero, suc, ◌+◌, ◌*◌, ◌<◌, ◌≤◌, ◌≡◌, ◌≢◌, refl, Bool, true, false, ◌&&◌, not, ltb, ltb→lt, ◌==◌,
  ==_iff, if◌then◌else◌, arith,
}
use ssdfs_tools.Prelude.Below.{every_below, every_below-at}
use ssdfs_tools.Bitmap.{put_state, state_at, scan_byte}

-- Item `j` of a byte.
abbrev pub byte_item : ℕ → ℕ → ℕ → ℕ → ℕ
byte_item bits mask v j = state_at v (j * bits) mask

and_split : (a b : Bool) → (a && b) ≡ true → (a ≡ true) × (b ≡ true)
and_split a b h = ground arith

module _ (bits items mask : ℕ) where
  abbrev put_test : ℕ → ℕ → ℕ → ℕ → Bool
  put_test v s k j =
      byte_item bits mask (put_state v (k * bits) mask s) j
      == (if k == j then s else byte_item bits mask v j)

  put_bytes : ℕ → ℕ → ℕ → Bool
  unfolding every_below
  put_bytes v s k = ltb (put_state v (k * bits) mask s) 256 && every_below items (put_test v s k)

  put_table : Bool
  unfolding every_below put_bytes
  put_table = every_below 256 λ v. every_below (mask + 1) λ s. every_below items (put_bytes v s)

  module _ (checked : put_table ≡ true) (v s k : ℕ) (hv : v < 256) (hs : s ≤ mask)
      (hk : k < items) where
    put_bytes_rows : put_bytes v s k ≡ true
    unfolding put_table
    put_bytes_rows =
        every_below-at items (put_bytes v s) k
          (every_below-at (mask + 1) (λ x. every_below items (put_bytes v x)) s
            (every_below-at 256 (λ x. every_below (mask + 1) λ y. every_below items (put_bytes x y))
              v checked hv)
            (omega arith))
          hk

    -- The stored value is a byte.
    put_state-lt : put_state v (k * bits) mask s < 256
    unfolding put_bytes
    put_state-lt =
        ltb→lt _ _
          (and_split (ltb (put_state v (k * bits) mask s) 256) (every_below items (put_test v s k))
            put_bytes_rows).0

    -- The written item reads as the new state, every other item as before.
    item-put_state :
        (j : ℕ)
        → j < items
        → byte_item bits mask (put_state v (k * bits) mask s) j
          ≡ (if k == j then s else byte_item bits mask v j)
    unfolding put_bytes
    item-put_state j hj = (==_iff _ _).0 (
        every_below-at items (put_test v s k) j
          (and_split (ltb (put_state v (k * bits) mask s) 256) (every_below items (put_test v s k))
            put_bytes_rows).1
          hj)

put_table_blk : put_table 2 4 3 ≡ true
unfolding put_table
put_table_blk = refl

put_table_seg : put_table 4 2 15 ≡ true
unfolding put_table
put_table_seg = refl

pub put_state-lt_blk : (v s k : ℕ) → v < 256 → s ≤ 3 → k < 4 → put_state v (k * 2) 3 s < 256
put_state-lt_blk = put_state-lt 2 4 3 put_table_blk

pub put_state-lt_seg : (v s k : ℕ) → v < 256 → s ≤ 15 → k < 2 → put_state v (k * 4) 15 s < 256
put_state-lt_seg = put_state-lt 4 2 15 put_table_seg

pub item-put_state_blk :
    (v s k : ℕ)
    → v < 256
    → s ≤ 3
    → k < 4
    → (j : ℕ) → j < 4
    → byte_item 2 3 (put_state v (k * 2) 3 s) j ≡ (if k == j then s else byte_item 2 3 v j)
item-put_state_blk = item-put_state 2 4 3 put_table_blk

pub item-put_state_seg :
    (v s k : ℕ)
    → v < 256
    → s ≤ 15
    → k < 2
    → (j : ℕ) → j < 2
    → byte_item 4 15 (put_state v (k * 4) 15 s) j ≡ (if k == j then s else byte_item 4 15 v j)
item-put_state_seg = item-put_state 4 2 15 put_table_seg

-- What the scan of a byte of two items returns: the first item from `off` on in state `s`, or 2.
abbrev scan_test : ℕ → ℕ → ℕ → ℕ → Bool
scan_test v s off r =
    if ltb r off
    then false
    else if ltb 2 r
    then false
    else if (if r == 2 then false else not (byte_item 4 15 v r == s))
    then false
    else if (if off == 0 then (if ltb 0 r then byte_item 4 15 v 0 == s else false) else false)
    then false
    else if (if ltb off 2 then (if ltb 1 r then byte_item 4 15 v 1 == s else false) else false)
    then false
    else true

scan_bytes : ℕ → ℕ → ℕ → Bool
unfolding scan_byte
scan_bytes v s off = scan_test v s off (scan_byte v s 4 15 8 (off * 4))

scan_table : every_below 256 (λ v. every_below 16 λ s. every_below 3 (scan_bytes v s)) ≡ true
unfolding every_below scan_bytes
scan_table = refl

pub record IsFirst (v s off r : ℕ) : Type 0 where
  pub from : off ≤ r
  pub within : r ≤ 2
  pub found : r < 2 → byte_item 4 15 v r ≡ s
  pub passed : (j : ℕ) → off ≤ j → j < r → byte_item 4 15 v j ≢ s

scan_test-passed :
    (v s off r j : ℕ) → scan_test v s off r ≡ true → off ≤ j → j < r → byte_item 4 15 v j ≢ s
scan_test-passed v s off r zero t p q = ground arith
scan_test-passed v s off r (suc zero) t p q = ground arith
scan_test-passed v s off r (suc (suc j)) t p q = ground arith

scan_test-IsFirst : (v s off r : ℕ) → scan_test v s off r ≡ true → IsFirst v s off r
scan_test-IsFirst v s off r t = record {
  from = ground arith;
  within = ground arith;
  found = λ h. ground arith;
  passed = λ j p q. scan_test-passed v s off r j t p q;
}

-- The scan returns the first item from `off` on in state `s`, or 2 where there is none.
pub scan_byte-IsFirst :
    (v s off : ℕ) → v < 256 → s < 16 → off ≤ 2 → IsFirst v s off (scan_byte v s 4 15 8 (off * 4))
unfolding scan_bytes
scan_byte-IsFirst v s off hv hs ho = scan_test-IsFirst v s off _ checked
  where
    checked : scan_bytes v s off ≡ true
    checked =
        every_below-at 3 (scan_bytes v s) off
          (every_below-at 16 (λ x. every_below 3 (scan_bytes v x)) s
            (every_below-at 256 (λ x. every_below 16 λ y. every_below 3 (scan_bytes x y)) v
              scan_table hv)
            hs)
          (omega arith)
