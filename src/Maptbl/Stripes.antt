-- ===== src/Maptbl/Stripes.antt =====
-- The stripes of a portion together: apart from each other, and when they have all its PEBs.
use native.Mathlib.Nat.{mul-le-mul_left, div-lt_iff_lt-mul, lt-div-mul-add, div-mul-le_self}
use ssdfs_tools.Prelude.{
  ℕ, zero, suc, ◌+◌, ◌-◌, ◌*◌, ◌/◌, ◌%◌, ◌^◌, ◌<◌, ◌≤◌, ◌≡◌, ◌⊎◌, inl, inr, ap, sym, ◌∙◌, min, leb,
  ok-injective, Bool-cases, ◌==◌, u16_max, Outcome, ok, arith,
}
use ssdfs_tools.Maptbl.{Layout, PebTable, maptbl_prepare_peb_table, peb_desc_per_stripe}
use ssdfs_tools.Maptbl.Pebs.{
  share_of, share_at_most, share_full, share_short, stripes_cover, IsStripe, prepared,
}

-- The PEBs of the volume, those before a portion, and those of it.
abbrev pub volume_pebs : Layout → ℕ
volume_pebs layout = layout.fs_size / layout.erase_size

abbrev pub first_peb : Layout → ℕ → ℕ
first_peb layout portion = layout.pebs_per_portion * portion

abbrev pub portion_pebs : Layout → ℕ → ℕ
portion_pebs layout portion =
    min (volume_pebs layout - first_peb layout portion) layout.pebs_per_portion

-- A layout within the widths of its fields, and a portion that starts inside the volume.
pub record IsPortion (layout : Layout) (portion : ℕ) : Type 0 where
  pub blocks : 0 < layout.erase_size
  pub few : volume_pebs layout < 2 ^ 63
  pub word : layout.pebs_per_portion < u16_max
  pub percent : layout.reserved_pebs_per_fragment ≤ 100
  pub narrow : layout.stripes_per_portion < 2 ^ 16
  pub low : first_peb layout portion < volume_pebs layout

pub record HasPeb (peb_id : ℕ) (table : PebTable) : Type 0 where
  pub at_or_after : table.start_peb ≤ peb_id
  pub before : peb_id < table.start_peb + table.pebs_count

-- The page of stripe `i` of a portion, and that the earlier stripes end before it.
pub record Apart (layout : Layout) (portion i : ℕ) (answer : Outcome PebTable) : Type 0 where
  pub table : PebTable
  pub made : answer ≡ ok table
  pub starts :
      table.start_peb
      ≡ first_peb layout portion
        + peb_desc_per_stripe (portion_pebs layout portion) layout.stripes_per_portion * i
  pub in_volume : (table.pebs_count ≡ 0) ⊎ (table.start_peb + table.pebs_count ≤ volume_pebs layout)
  pub reserved : table.reserved_pebs ≤ table.pebs_count
  pub in_order :
      (j : ℕ) (earlier : PebTable)
      → j < i
      → maptbl_prepare_peb_table layout portion j ≡ ok earlier
      → earlier.start_peb + earlier.pebs_count ≤ table.start_peb

-- A page that is prepared, and has a PEB or not.
pub record WithPeb (peb_id : ℕ) (answer : Outcome PebTable) : Type 0 where
  pub table : PebTable
  pub made : answer ≡ ok table
  pub has : HasPeb peb_id table

pub record WithoutPeb (peb_id : ℕ) (answer : Outcome PebTable) : Type 0 where
  pub table : PebTable
  pub made : answer ≡ ok table
  pub misses : (peb_id < table.start_peb) ⊎ (table.start_peb + table.pebs_count ≤ peb_id)

positive : (r q s : ℕ) → 0 < r → r ≤ q * s → 0 < q
positive r zero s some cover = absurd (omega (arith, some, cover))
positive r (suc q) s some cover = omega arith

times_first : (q j : ℕ) → j ≡ 0 → q * j ≡ 0
times_first q j first = ap (λ k. q * k) first ∙ omega arith

module _ (layout : Layout) (portion : ℕ) (h : IsPortion layout portion) where
  abbrev rest : ℕ
  rest = portion_pebs layout portion

  abbrev s : ℕ
  s = layout.stripes_per_portion

  abbrev stripe : ℕ
  stripe = peb_desc_per_stripe rest s

  page :
      (i : ℕ)
      → i < s
      → IsStripe portion i
          (first_peb layout portion + stripe * i)
          (share_of rest s)
          (volume_pebs layout)
          (maptbl_prepare_peb_table layout portion i)
  page i there = prepared layout portion i h.blocks h.few h.word h.percent h.narrow there h.low

  -- The page of each stripe is prepared without an abort. It starts as many distances of two
  -- stripes behind the first PEB of the portion as there are stripes before it, and all of these
  -- end before it, so that no PEB is in two stripes of the portion. If it has PEBs, they end
  -- inside the volume, and no more of them are reserved than it has. The stripe may reach behind
  -- the end of the portion.
  pub maptbl_prepare_peb_table-Apart :
      (i : ℕ)
      → i < layout.stripes_per_portion
      → Apart layout portion i (maptbl_prepare_peb_table layout portion i)
  maptbl_prepare_peb_table-Apart i there =
      let one = page i there in
      let one_counts = one.counts in
      let one_starts = one.starts in
      record {
        table = one.table;
        made = one.made;
        starts = one.starts;
        in_volume = elim (Bool-cases (leb (volume_pebs layout) one.table.start_peb)) [
          | inl behind ↦ inl (ground (arith, behind, one_counts, one_starts))
          | inr inside ↦ inr (ground (arith, inside, one_counts, one_starts))
        ];
        reserved = one.reserved;
        in_order = λ j earlier below made.
            let other = page j (omega (arith, below, there)) in
            let same : other.table ≡ earlier = ok-injective (sym other.made ∙ made) in
            let other_starts = other.starts in
            let other_counts = other.counts in
            let most = share_at_most rest s (omega (arith, there)) in
            let next : stripe * (j + 1) ≡ stripe * j + stripe = omega arith in
            let up : stripe * (j + 1) ≤ stripe * i =
              mul-le-mul_left stripe (omega (arith, below)) in
            let start_eq = ap (λ (t : PebTable). t.start_peb) same in
            let count_eq = ap (λ (t : PebTable). t.pebs_count) same in
            omega
              (arith, one_starts, other_starts, other_counts, most, next, up, start_eq, count_eq);
      }

  -- Where the number of stripes divides the PEBs of the portion, or leaves at least half a stripe
  -- over, every PEB of the portion is in a stripe: in the one that its distance from the portion's
  -- start, divided by the distance of two stripes, names.
  pub maptbl_prepare_peb_table-WithPeb :
      (peb_id : ℕ)
      → first_peb layout portion ≤ peb_id
      → peb_id < first_peb layout portion + portion_pebs layout portion
      → 0 < layout.stripes_per_portion
      → (portion_pebs layout portion % layout.stripes_per_portion ≡ 0)
        ⊎ (layout.stripes_per_portion
            ≤ portion_pebs layout portion % layout.stripes_per_portion
              + portion_pebs layout portion % layout.stripes_per_portion)
      → WithPeb peb_id (
          maptbl_prepare_peb_table layout portion (
            (peb_id - first_peb layout portion)
            / peb_desc_per_stripe (portion_pebs layout portion) layout.stripes_per_portion))
  maptbl_prepare_peb_table-WithPeb peb_id from to some even =
      let k = peb_id - first_peb layout portion in
      let cover = stripes_cover rest s some in
      let inside : 0 < rest = omega (arith, from, to) in
      let wide : 0 < stripe = positive rest stripe s inside cover in
      let flip : s * stripe ≡ stripe * s = omega arith in
      let i = k / stripe in
      let there : i < s = (div-lt_iff_lt-mul wide).1 (omega (arith, from, to, cover, flip)) in
      let one = page i there in
      let one_starts = one.starts in
      let one_counts = one.counts in
      let full = share_full rest s some even in
      let above : k < i * stripe + stripe = lt-div-mul-add wide in
      let below : i * stripe ≤ k = div-mul-le_self k stripe in
      let turn : i * stripe ≡ stripe * i = omega arith in
      record {
        table = one.table;
        made = one.made;
        has = record {
          at_or_after = omega (arith, one_starts, below, turn, from);
          before = omega (arith, one_starts, one_counts, full, above, turn, from, to, below);
        };
      }

  -- Where the number of stripes leaves over less than half a stripe, but not nothing, the PEB before
  -- the second stripe is in none, although it is in the portion.
  pub maptbl_prepare_peb_table-WithoutPeb :
      (j : ℕ)
      → j < layout.stripes_per_portion
      → 0 < portion_pebs layout portion % layout.stripes_per_portion
      → portion_pebs layout portion % layout.stripes_per_portion
          + portion_pebs layout portion % layout.stripes_per_portion
        < layout.stripes_per_portion
      → WithoutPeb
          (first_peb layout portion
            + (peb_desc_per_stripe (portion_pebs layout portion) layout.stripes_per_portion - 1))
          (maptbl_prepare_peb_table layout portion j)
  maptbl_prepare_peb_table-WithoutPeb j there left few =
      let one = page j there in
      let one_starts = one.starts in
      let one_counts = one.counts in
      let short = share_short rest s (omega (arith, there)) left few in
      record {
        table = one.table;
        made = one.made;
        misses = elim (Bool-cases (j == 0)) [
          | inl z ↦
              let zeroth : stripe * j ≡ 0 = times_first stripe j (ground (arith, z)) in
              inr (omega (arith, one_starts, one_counts, short, zeroth))
          | inr z ↦
              let later : stripe * 1 ≤ stripe * j = mul-le-mul_left stripe (ground (arith, z)) in
              inl (omega (arith, one_starts, later, short))
        ];
      }
