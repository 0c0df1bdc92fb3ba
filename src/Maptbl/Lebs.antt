-- ===== src/Maptbl/Lebs.antt =====
-- maptbl_prepare_leb_table: which LEBs the fragments of a portion have.
use ssdfs_tools.Prelude.{
  ℕ, ◌+◌, ◌-◌, ◌*◌, ◌/◌, ◌^◌, ◌<◌, ◌≤◌, ◌≡◌, refl, false, leb, ◌==◌, min, replicate, if◌then◌else◌,
  u16, u32, u64, u16_max, Outcome, ok, arith,
}
use ssdfs_tools.Maptbl.{Layout, LebTable, maptbl_prepare_leb_table}

-- What a fragment is like that is found at a LEB of the volume.
pub record IsLebFragment (volume portion_index mempage_index start limit : ℕ)
    (answer : Outcome LebTable) : Type 0 where
  pub table : LebTable
  pub made : answer ≡ ok table
  pub starts : table.start_leb ≡ start
  pub portion : table.portion_id ≡ portion_index
  pub mempage : table.fragment_id ≡ mempage_index
  pub counts : table.lebs_count ≡ min (min (volume - start) limit) 1016
  pub inside : table.start_leb + table.lebs_count ≤ volume
  pub bytes : table.bytes_count ≡ 32 + table.lebs_count * 4
  pub fits : table.bytes_count ≤ 4096

module _ (layout : Layout) (portion m : ℕ) (pages : 0 < layout.page_size)
    (blocks : 0 < layout.erase_size) (small : layout.fs_size / layout.erase_size < 2 ^ 63)
    (there : m < u16 (layout.lebtbl_portion_bytes / layout.page_size))
    (low : layout.lebs_per_portion * portion + 1016 * m < layout.fs_size / layout.erase_size) where
  abbrev volume : ℕ
  volume = layout.fs_size / layout.erase_size

  abbrev base : ℕ
  base = layout.lebs_per_portion * portion

  abbrev start : ℕ
  start = base + 1016 * m

  abbrev count : ℕ
  count = min (min (volume - start) layout.lebs_per_portion) 1016

  abbrev table : LebTable
  table = record {
    magic = 0x4C74;
    flags = 0;
    start_leb = start;
    lebs_count = count;
    mapped_lebs = 0;
    migrating_lebs = 0;
    portion_id = portion;
    fragment_id = m;
    bytes_count = 32 + count * 4;
    descriptors = replicate 4064 0xFF;
  }

  first_leb : (if m == 0 then base else start) ≡ start
  first_leb = ground arith

  count_few : count ≤ 1016
  count_few = omega arith

  made : maptbl_prepare_leb_table layout portion m ≡ ok table
  unfolding maptbl_prepare_leb_table
  made =
      let a : (layout.page_size == 0) ≡ false = ground arith in
      let b : (layout.erase_size == 0) ≡ false = ground arith in
      let c : (u16 (layout.lebtbl_portion_bytes / layout.page_size) == 0) ≡ false = ground arith in
      let d : leb (u16 (layout.lebtbl_portion_bytes / layout.page_size)) m ≡ false = ground arith in
      let base_fits : u64 base ≡ base = omega (arith, low, small) in
      let start_fits : u64 start ≡ start = omega (arith, low, small) in
      let e : leb volume start ≡ false = ground arith in
      let f : leb u16_max count ≡ false = ground (arith, count_few) in
      let g : u32 (32 + count * 4) ≡ 32 + count * 4 = omega (arith, count_few) in
      rw (a, b, c, d, base_fits, start_fits, e, f, g, first_leb) refl

  pub prepared :
      IsLebFragment volume portion m start layout.lebs_per_portion
        (maptbl_prepare_leb_table layout portion m)
  prepared = record {
    table = table;
    made = made;
    starts = refl;
    portion = refl;
    mempage = refl;
    counts = refl;
    inside = omega (arith, low);
    bytes = refl;
    fits = omega (arith, count_few);
  }

-- A LEB that a fragment has.
pub record HasLeb (leb_id : ℕ) (table : LebTable) : Type 0 where
  pub at_or_after : table.start_leb ≤ leb_id
  pub before : leb_id < table.start_leb + table.lebs_count

-- The fragment that is found for a LEB.
pub record FoundLeb (volume portion_index mempage_index start limit leb_id : ℕ)
    (answer : Outcome LebTable) : Type 0 where
  pub fragment : IsLebFragment volume portion_index mempage_index start limit answer
  pub has : HasLeb leb_id fragment.table

-- A LEB of the volume is in the memory page of its portion that its distance from the portion's start,
-- divided by 1016, names, where the portion has that page: the fragment prepared there succeeds,
-- starts at or before the LEB and ends behind it, does not go beyond the volume, and its descriptors
-- fit into the page of 4096 bytes.
pub maptbl_prepare_leb_table-FoundLeb :
    (layout : Layout) (portion leb_id : ℕ)
    → 0 < layout.page_size
    → 0 < layout.erase_size
    → layout.fs_size / layout.erase_size < 2 ^ 63
    → layout.lebs_per_portion * portion ≤ leb_id
    → leb_id < layout.lebs_per_portion * portion + layout.lebs_per_portion
    → leb_id < layout.fs_size / layout.erase_size
    → (leb_id - layout.lebs_per_portion * portion) / 1016
      < u16 (layout.lebtbl_portion_bytes / layout.page_size)
    → FoundLeb
        (layout.fs_size / layout.erase_size)
        portion
        ((leb_id - layout.lebs_per_portion * portion) / 1016)
        (layout.lebs_per_portion * portion
          + 1016 * ((leb_id - layout.lebs_per_portion * portion) / 1016))
        layout.lebs_per_portion
        leb_id
        (maptbl_prepare_leb_table layout portion
          ((leb_id - layout.lebs_per_portion * portion) / 1016))
maptbl_prepare_leb_table-FoundLeb layout portion leb_id pages blocks small low high inside there =
    let m = (leb_id - layout.lebs_per_portion * portion) / 1016 in
    let from : layout.lebs_per_portion * portion + 1016 * m ≤ leb_id = omega arith in
    let to : leb_id < layout.lebs_per_portion * portion + 1016 * m + 1016 = omega arith in
    let starts : layout.lebs_per_portion * portion + 1016 * m < layout.fs_size / layout.erase_size =
      omega arith in
    let fragment = prepared layout portion m pages blocks small there starts in
    let from_start = fragment.starts in
    let counts = fragment.counts in
    record {
      fragment = fragment;
      has = record {
        at_or_after = omega (arith, from_start, from);
        before = omega (arith, from_start, counts, from, to, low, high, inside);
      };
    }

-- Two fragments that have the same LEB.
pub record Overlap (leb_id : ℕ) (one other : Outcome LebTable) : Type 0 where
  pub first : LebTable
  pub second : LebTable
  pub first_made : one ≡ ok first
  pub second_made : other ≡ ok second
  pub in_first : HasLeb leb_id first
  pub in_second : HasLeb leb_id second

-- The last memory page of a portion that is not its first one, and in which the portion ends before
-- the descriptors of the page do, has the first LEB of the next portion as well, which the first page
-- of that portion has.
pub maptbl_prepare_leb_table-Overlap :
    (layout : Layout) (portion m : ℕ)
    → 0 < layout.page_size
    → 0 < layout.erase_size
    → layout.fs_size / layout.erase_size < 2 ^ 63
    → 0 < m
    → m < u16 (layout.lebtbl_portion_bytes / layout.page_size)
    → 1016 * m < layout.lebs_per_portion
    → layout.lebs_per_portion < 1016 * (m + 1)
    → layout.lebs_per_portion * (portion + 1) < layout.fs_size / layout.erase_size
    → Overlap
        (layout.lebs_per_portion * (portion + 1))
        (maptbl_prepare_leb_table layout portion m)
        (maptbl_prepare_leb_table layout (portion + 1) 0)
maptbl_prepare_leb_table-Overlap layout portion m pages blocks small later there starts ends more =
    let next : layout.lebs_per_portion * (portion + 1)
        ≡ layout.lebs_per_portion * portion + layout.lebs_per_portion =
      omega arith in
    let here : layout.lebs_per_portion * portion + 1016 * m < layout.fs_size / layout.erase_size =
      omega (arith, next, starts, more) in
    let one = prepared layout portion m pages blocks small there here in
    let other =
      prepared layout (portion + 1) 0 pages blocks small (omega (arith, there))
        (omega (arith, more)) in
    let one_starts = one.starts in
    let one_counts = one.counts in
    let other_starts = other.starts in
    let other_counts = other.counts in
    record {
      first = one.table;
      second = other.table;
      first_made = one.made;
      second_made = other.made;
      in_first = record {
        at_or_after = omega (arith, one_starts, next, starts);
        before = omega (arith, one_starts, one_counts, next, starts, ends, more);
      };
      in_second = record {
        at_or_after = omega (arith, other_starts);
        before = omega (arith, other_starts, other_counts, more, starts);
      };
    }
