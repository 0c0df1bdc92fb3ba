-- ===== src/Maptbl.antt =====
-- sbin/mkfs.ssdfs/mapping_table.c: the fragments of the mapping table. A portion has pages for the
-- descriptors of its LEBs, and a page for each stripe of its PEBs.
pub mod Lebs
pub mod Pebs
pub mod Stripes
pub mod Correct
mod Tests
use ssdfs_tools.Prelude.{
  ℕ, zero, suc, ◌+◌, ◌-◌, ◌*◌, ◌/◌, ◌%◌, ◌==◌, ltb, leb, if◌then◌else◌, min, List, [], ◌∷◌,
  replicate, ◌^◌, u16, u32, u64, u16_max, sub_u64, Outcome, ok, fault, bug_on, ◌>>=◌, ◌>>◌,
}

abbrev pub page_cache_size : ℕ
page_cache_size = 4096

-- The sizes of struct ssdfs_leb_table_fragment_header and struct ssdfs_leb_descriptor, and of those of
-- the PEB table.
abbrev pub lebtbl_fragment_hdr_size : ℕ
lebtbl_fragment_hdr_size = 32

abbrev pub leb_descriptor_size : ℕ
leb_descriptor_size = 4

abbrev pub pebtbl_fragment_hdr_size : ℕ
pebtbl_fragment_hdr_size = 288

abbrev pub peb_descriptor_size : ℕ
peb_descriptor_size = 8

-- SSDFS_LEB_DESC_PER_FRAGMENT
abbrev pub leb_desc_per_fragment : ℕ → ℕ
leb_desc_per_fragment fragment_size =
    (fragment_size - lebtbl_fragment_hdr_size) / leb_descriptor_size

-- struct ssdfs_leb_table_fragment_header, and the bytes behind it in a page of the cache.
pub record LebTable : Type 0 where
  pub magic : ℕ
  pub flags : ℕ
  pub start_leb : ℕ
  pub lebs_count : ℕ
  pub mapped_lebs : ℕ
  pub migrating_lebs : ℕ
  pub portion_id : ℕ
  pub fragment_id : ℕ
  pub bytes_count : ℕ
  pub descriptors : List ℕ

-- struct ssdfs_peb_table_fragment_header
pub record PebTable : Type 0 where
  pub magic : ℕ
  pub flags : ℕ
  pub recover_months : ℕ
  pub recover_threshold : ℕ
  pub start_peb : ℕ
  pub pebs_count : ℕ
  pub last_selected_peb : ℕ
  pub reserved_pebs : ℕ
  pub stripe_id : ℕ
  pub portion_id : ℕ
  pub fragment_id : ℕ
  pub bytes_count : ℕ

-- What the functions use of the volume layout.
pub record Layout : Type 0 where
  pub fs_size : ℕ
  pub erase_size : ℕ
  pub page_size : ℕ
  pub lebtbl_portion_bytes : ℕ
  pub lebs_per_portion : ℕ
  pub pebs_per_portion : ℕ
  pub stripes_per_portion : ℕ
  pub reserved_pebs_per_fragment : ℕ

-- `lebs_count` of maptbl_prepare_leb_table.
abbrev pub lebs_of_fragment : (pebs_per_volume start lebs_per_portion per_mempage : ℕ) → ℕ
lebs_of_fragment pebs_per_volume start lebs_per_portion per_mempage =
    if leb pebs_per_volume start
    then 0
    else min (min (pebs_per_volume - start) lebs_per_portion) per_mempage

-- A division by a size of 0 is a fault.
unfoldable pub maptbl_prepare_leb_table :
    Layout → (portion_index mempage_index : ℕ) → Outcome LebTable
maptbl_prepare_leb_table layout portion_index mempage_index = do
  let per_mempage = leb_desc_per_fragment page_cache_size
  (if layout.page_size == 0 then fault else ok tt)
  let lebtbl_mempages = u16 (layout.lebtbl_portion_bytes / layout.page_size)
  bug_on (lebtbl_mempages == 0)
  bug_on (leb lebtbl_mempages mempage_index)
  let start_portion_leb = u64 (layout.lebs_per_portion * portion_index)
  let start_fragment_leb = u64 (start_portion_leb + per_mempage * mempage_index)
  (if layout.erase_size == 0 then fault else ok tt)
  let lebs_count =
      lebs_of_fragment (layout.fs_size / layout.erase_size) start_fragment_leb
        layout.lebs_per_portion per_mempage
  bug_on (leb u16_max lebs_count)
  ok (record {
    magic = 0x4C74;
    flags = 0;
    start_leb = if mempage_index == 0 then start_portion_leb else start_fragment_leb;
    lebs_count = lebs_count;
    mapped_lebs = 0;
    migrating_lebs = 0;
    portion_id = portion_index;
    fragment_id = mempage_index;
    bytes_count = u32 (lebtbl_fragment_hdr_size + lebs_count * leb_descriptor_size);
    descriptors = replicate (page_cache_size - lebtbl_fragment_hdr_size) 0xFF;
  })

-- `peb_desc_per_stripe` of maptbl_prepare_peb_table.
abbrev pub peb_desc_per_stripe : (pebs stripes : ℕ) → ℕ
peb_desc_per_stripe pebs stripes =
    if pebs % stripes == 0 then pebs / stripes else pebs / stripes + 1

-- `pebs_count` of maptbl_prepare_peb_table, for the PEBs of the portion from `portion_start` on.
abbrev pub pebs_of_stripe :
    (pebs_per_volume portion_start start_peb pebs_per_portion stripes : ℕ) → ℕ
pebs_of_stripe pebs_per_volume portion_start start_peb pebs_per_portion stripes =
    let rest = min (sub_u64 pebs_per_volume portion_start) pebs_per_portion in
    let share = (rest + rest % stripes) / stripes in
    if leb pebs_per_volume start_peb
    then 0
    else if ltb pebs_per_volume (start_peb + share)
    then pebs_per_volume - start_peb
    else share

unfoldable pub maptbl_prepare_peb_table :
    Layout → (portion_index stripe_index : ℕ) → Outcome PebTable
maptbl_prepare_peb_table layout portion_index stripe_index = do
  (if layout.erase_size == 0 then fault else ok tt)
  let pebs_per_volume = layout.fs_size / layout.erase_size
  bug_on (leb layout.stripes_per_portion stripe_index)
  let portion_start = u64 (layout.pebs_per_portion * portion_index)
  let rest_pebs = min (sub_u64 pebs_per_volume portion_start) layout.pebs_per_portion
  let per_stripe = u32 (peb_desc_per_stripe rest_pebs layout.stripes_per_portion)
  let start_peb = u64 (portion_start + per_stripe * stripe_index)
  let pebs_count =
      pebs_of_stripe pebs_per_volume portion_start start_peb layout.pebs_per_portion
        layout.stripes_per_portion
  bug_on (leb u16_max pebs_count)
  let reserved_pebs = pebs_count * layout.reserved_pebs_per_fragment / 100
  bug_on (leb u16_max reserved_pebs)
  ok (record {
    magic = 0x5074;
    flags = 0;
    recover_months = 1;
    recover_threshold = 0;
    start_peb = start_peb;
    pebs_count = pebs_count;
    last_selected_peb = 0;
    reserved_pebs = reserved_pebs;
    stripe_id = stripe_index;
    portion_id = portion_index;
    fragment_id = stripe_index;
    bytes_count = u32 (pebtbl_fragment_hdr_size + pebs_count * peb_descriptor_size);
  })

-- correct_maptbl_stripes_per_portion: the value that it leaves.
unfoldable pub correct_maptbl_stripes_per_portion : (stripes nand_dies : ℕ) → Outcome ℕ
correct_maptbl_stripes_per_portion stripes nand_dies =
    if ltb nand_dies stripes
    then (if nand_dies == 0
        then fault
        else if stripes % nand_dies == 0
        then ok stripes
        else ok (u16 (stripes - stripes % nand_dies)))
    else if ltb stripes nand_dies
    then (if stripes == 0
        then fault
        else if nand_dies % stripes == 0
        then ok stripes
        else ok (u16 (stripes + 2 ^ 16 - u16 (nand_dies % stripes))))
    else ok stripes
