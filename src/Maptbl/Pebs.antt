-- ===== src/Maptbl/Pebs.antt =====
-- maptbl_prepare_peb_table: which PEBs the stripes of a portion have.
use native.Mathlib.Nat.{div-add-mod', mod-lt, div-eq_of_lt-le, mul-le-mul_left}
use ssdfs_tools.Prelude.{
  ℕ, ◌+◌, ◌-◌, ◌*◌, ◌/◌, ◌%◌, ◌^◌, ◌<◌, ◌≤◌, ◌≡◌, ◌⊎◌, inl, inr, refl, true, false, ltb, leb, ◌==◌,
  min, Bool-cases, if◌then◌else◌, u32, u64, u16_max, sub_u64, Outcome, ok, arith,
}
use ssdfs_tools.Maptbl.{Layout, PebTable, maptbl_prepare_peb_table, peb_desc_per_stripe}

-- The share that `pebs_count` is computed from.
abbrev pub share_of : (rest stripes : ℕ) → ℕ
share_of rest stripes = (rest + rest % stripes) / stripes

module _ (r s : ℕ) (some : 0 < s) where
  whole : r / s * s + r % s ≡ r
  whole = div-add-mod' r s

  small : r % s < s
  small = mod-lt r some

  times : (r / s + 1) * s ≡ r / s * s + s
  times = omega arith

  more_times : (r / s + 1 + 1) * s ≡ r / s * s + s + s
  more_times = omega arith

  share_exact : r % s ≡ 0 → share_of r s ≡ r / s
  share_exact none_left =
      div-eq_of_lt-le s (omega (arith, whole)) (omega (arith, whole, times, small, none_left))

  share_less : r % s + r % s < s → share_of r s ≡ r / s
  share_less few = div-eq_of_lt-le s (omega (arith, whole)) (omega (arith, whole, times, few))

  share_more : s ≤ r % s + r % s → share_of r s ≡ r / s + 1
  share_more many =
      div-eq_of_lt-le s (omega (arith, whole, times, many))
        (omega (arith, whole, more_times, small))

  -- The share is at most the distance of two stripes, and just that in the two cases that follow.
  pub share_at_most : share_of r s ≤ peb_desc_per_stripe r s
  share_at_most = elim (Bool-cases (r % s == 0)) [
    | inl t ↦ let e = share_exact (ground (arith, t)) in rw t (omega (arith, e))
    | inr t ↦ elim (Bool-cases (leb s (r % s + r % s))) [
      | inl u ↦ let e = share_more (ground (arith, u)) in rw t (omega (arith, e))
      | inr u ↦ let e = share_less (ground (arith, u)) in rw t (omega (arith, e))
    ]
  ]

  pub share_full : (r % s ≡ 0) ⊎ (s ≤ r % s + r % s) → share_of r s ≡ peb_desc_per_stripe r s
  share_full (inl none_left) =
      let t : (r % s == 0) ≡ true = ground (arith, none_left) in rw t (share_exact none_left)
  share_full (inr many) =
      let t : (r % s == 0) ≡ false = ground (arith, many, some) in rw t (share_more many)

  -- The last PEB of a stripe is left out in the other case.
  pub share_short : 0 < r % s → r % s + r % s < s → share_of r s + 1 ≡ peb_desc_per_stripe r s
  share_short left few =
      let t : (r % s == 0) ≡ false = ground (arith, left) in
      let e = share_less few in rw t (omega (arith, e))

  -- The stripes have room for all.
  pub stripes_cover : r ≤ peb_desc_per_stripe r s * s
  stripes_cover = elim (Bool-cases (r % s == 0)) [
    | inl t ↦ let e : r % s ≡ 0 = ground (arith, t) in rw t (omega (arith, whole, e))
    | inr t ↦ rw t (omega (arith, whole, times, small))
  ]

  pub stripe_in : peb_desc_per_stripe r s ≤ r
  stripe_in =
      let one_each : r / s * 1 ≤ r / s * s = mul-le-mul_left (r / s) some in
      elim (Bool-cases (r % s == 0)) [
        | inl t ↦ rw t (omega (arith, whole, one_each))
        | inr t ↦
            let left : 0 < r % s = ground (arith, t) in rw t (omega (arith, whole, one_each, left))
      ]

  -- And not for a stripe more.
  pub stripes_tight : peb_desc_per_stripe r s * s < r + s
  stripes_tight = elim (Bool-cases (r % s == 0)) [
    | inl t ↦ rw t (omega (arith, whole, some))
    | inr t ↦ let left : 0 < r % s = ground (arith, t) in rw t (omega (arith, whole, times, left))
  ]

count_of :
    (volume start share : ℕ)
    → (if leb volume start then 0 else if ltb volume (start + share) then volume - start else share)
      ≡ min share (volume - start)
count_of volume start share = grind arith

-- The prepared page of a stripe.
pub record IsStripe (portion_index stripe_index start share volume : ℕ) (answer : Outcome PebTable)
    : Type 0 where
  pub table : PebTable
  pub made : answer ≡ ok table
  pub starts : table.start_peb ≡ start
  pub counts : table.pebs_count ≡ min share (volume - start)
  pub stripe : table.stripe_id ≡ stripe_index
  pub portion : table.portion_id ≡ portion_index
  pub bytes : table.bytes_count ≡ 288 + table.pebs_count * 8
  pub reserved : table.reserved_pebs ≤ table.pebs_count

module _ (layout : Layout) (portion i : ℕ) (blocks : 0 < layout.erase_size)
    (few : layout.fs_size / layout.erase_size < 2 ^ 63) (word : layout.pebs_per_portion < u16_max)
    (percent : layout.reserved_pebs_per_fragment ≤ 100)
    (narrow : layout.stripes_per_portion < 2 ^ 16) (there : i < layout.stripes_per_portion)
    (low : layout.pebs_per_portion * portion < layout.fs_size / layout.erase_size) where
  abbrev pub volume : ℕ
  volume = layout.fs_size / layout.erase_size

  abbrev pub base : ℕ
  base = layout.pebs_per_portion * portion

  -- The PEBs of the portion.
  abbrev pub rest : ℕ
  rest = min (volume - base) layout.pebs_per_portion

  abbrev pub stripe : ℕ
  stripe = peb_desc_per_stripe rest layout.stripes_per_portion

  abbrev pub share : ℕ
  share = share_of rest layout.stripes_per_portion

  base_fits : u64 base ≡ base
  base_fits = omega (arith, low, few)

  rest_fits : sub_u64 volume base ≡ volume - base
  rest_fits = omega (arith, low, few)

  some : 0 < layout.stripes_per_portion
  some = omega (arith, there)

  stripe_small : stripe < u16_max
  stripe_small = omega (arith, stripe_in rest layout.stripes_per_portion some, word)

  before : stripe * i + stripe ≤ stripe * layout.stripes_per_portion
  before =
      let next : stripe * (i + 1) ≡ stripe * i + stripe = omega arith in
      let up : stripe * (i + 1) ≤ stripe * layout.stripes_per_portion =
        mul-le-mul_left stripe (omega (arith, there)) in
      omega (arith, next, up)

  abbrev pub start : ℕ
  start = base + stripe * i

  stripe_fits : u32 stripe ≡ stripe
  stripe_fits = omega (arith, stripe_small)

  start_fits : u64 start ≡ start
  start_fits =
      omega
        (arith, before, stripes_tight rest layout.stripes_per_portion some, narrow, word, low, few)

  abbrev pub count : ℕ
  count = min share (volume - start)

  count_small : count < u16_max
  count_small = omega (arith, share_at_most rest layout.stripes_per_portion some, stripe_small)

  reserved_few : count * layout.reserved_pebs_per_fragment / 100 ≤ count
  reserved_few =
      let most : count * layout.reserved_pebs_per_fragment ≤ count * 100 =
        mul-le-mul_left count percent in
      omega (arith, most)

  abbrev table : PebTable
  table = record {
    magic = 0x5074;
    flags = 0;
    recover_months = 1;
    recover_threshold = 0;
    start_peb = start;
    pebs_count = count;
    last_selected_peb = 0;
    reserved_pebs = count * layout.reserved_pebs_per_fragment / 100;
    stripe_id = i;
    portion_id = portion;
    fragment_id = i;
    bytes_count = 288 + count * 8;
  }

  made : maptbl_prepare_peb_table layout portion i ≡ ok table
  unfolding maptbl_prepare_peb_table
  made =
      let a : (layout.erase_size == 0) ≡ false = ground (arith, blocks) in
      let b : leb layout.stripes_per_portion i ≡ false = ground (arith, there) in
      let c : leb u16_max count ≡ false = ground (arith, count_small) in
      let d : leb u16_max (count * layout.reserved_pebs_per_fragment / 100) ≡ false =
        ground (arith, count_small, reserved_few) in
      let e : u32 (288 + count * 8) ≡ 288 + count * 8 = omega (arith, count_small) in
      rw (a, b, base_fits, rest_fits, stripe_fits, start_fits, count_of volume start share, c, d, e)
        refl

  pub prepared : IsStripe portion i start share volume (maptbl_prepare_peb_table layout portion i)
  prepared = record {
    table = table;
    made = made;
    starts = refl;
    counts = refl;
    stripe = refl;
    portion = refl;
    bytes = refl;
    reserved = reserved_few;
  }
