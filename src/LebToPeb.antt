-- ===== src/LebToPeb.antt =====
-- sbin/mkfs.ssdfs/mapping_table.c: the mapping of the LEBs of new segments to PEBs, map_leb2peb
-- and what it calls, with META2SEG_TYPE of sbin/mkfs.ssdfs/mkfs.h and SEG2PEB_TYPE of
-- include/ssdfs_constants.h. A pointer to a table is what it is formed from: the number of the
-- fragment, of the portion in it, and of the page in the portion. The fields of the headers that
-- the functions leave alone are left out.
pub mod Unused
pub mod Place
pub mod Stripe
pub mod Step
pub mod Call
pub mod Total
pub mod Written
pub mod Injective
pub mod Translate
pub mod Segment
mod Tests
use ssdfs_tools.Prelude.{
  ℕ, zero, suc, ◌+◌, ◌-◌, ◌*◌, ◌/◌, ◌%◌, ◌==◌, ltb, leb, Bool, true, false, not, ◌&&◌, ◌||◌,
  if◌then◌else◌, List, [], ◌∷◌, u16, u32, u64, u16_max, u64_max, sub_u64, Outcome, ok, err, erange,
  fault, bug_on, ◌>>=◌, ◌>>◌,
}
use ssdfs_tools.Maptbl.{
  lebtbl_fragment_hdr_size, leb_descriptor_size, pebtbl_fragment_hdr_size, peb_descriptor_size,
}
use ssdfs_tools.MaptblCache.{Cache, cache_leb2peb_pair}

-- SSDFS_LEB_DESC_PER_FRAGMENT and SSDFS_PEB_DESC_PER_FRAGMENT of a page of the cache.
abbrev pub leb_desc_per_mempage : ℕ
leb_desc_per_mempage = 1016

abbrev pub peb_desc_per_stripe : ℕ
peb_desc_per_stripe = 476

pub record LebDesc : Type 0 where
  pub physical_index : ℕ
  pub relation_index : ℕ

-- struct ssdfs_leb_table_fragment_header, with the descriptors behind it.
pub record LebPage : Type 0 where
  pub magic : ℕ
  pub start_leb : ℕ
  pub lebs_count : ℕ
  pub mapped_lebs : ℕ
  pub migrating_lebs : ℕ
  pub bytes_count : ℕ
  pub descs : ℕ → LebDesc

pub record PebDesc : Type 0 where
  pub peb_type : ℕ
  pub state : ℕ

-- struct ssdfs_peb_table_fragment_header, with two of its bitmaps and the descriptors behind it.
pub record PebPage : Type 0 where
  pub magic : ℕ
  pub start_peb : ℕ
  pub pebs_count : ℕ
  pub last_selected_peb : ℕ
  pub bytes_count : ℕ
  pub used : ℕ → Bool
  pub dirty : ℕ → Bool
  pub descs : ℕ → PebDesc

-- The pages of a portion: those of its LEBs, and one for each stripe of its PEBs.
pub record Portion : Type 0 where
  pub lebs : ℕ → LebPage
  pub pebs : ℕ → PebPage

-- The portions of the fragments.
abbrev pub Tables : Type 0
Tables = ℕ → ℕ → Portion

-- What the functions use of the volume layout.
pub record Layout : Type 0 where
  pub seg_size : ℕ
  pub erase_size : ℕ
  pub page_size : ℕ
  pub maptbl_pebs : ℕ
  pub portions_per_fragment : ℕ
  pub stripes_per_portion : ℕ
  pub lebs_per_portion : ℕ
  pub lebtbl_portion_bytes : ℕ

abbrev pub put {ℓ} : {A : Type ℓ} → (ℕ → A) → ℕ → A → ℕ → A
put f i a k = if k == i then a else f k

-- Where the descriptor of a LEB stands.
pub record LebPlace : Type 0 where
  pub fragment_index : ℕ
  pub portion_index : ℕ
  pub mempage_index : ℕ
  pub leb_desc_index : ℕ

-- A division by zero is a fault.
abbrev pub divides : ℕ → Outcome (Unit {0})
divides n = if n == 0 then fault else ok tt

unfoldable pub get_lebtbl_fragment : Layout → (leb_id : ℕ) → Outcome LebPlace
get_lebtbl_fragment layout leb_id = do
  let leb_desc_per_peb = u32 (layout.lebs_per_portion * layout.portions_per_fragment)
  divides leb_desc_per_peb
  let fragment_index = u32 (leb_id / leb_desc_per_peb)
  bug_on (leb layout.maptbl_pebs fragment_index)
  let in_fragment = sub_u64 leb_id (u32 (fragment_index * leb_desc_per_peb))
  let portion_index = u32 (in_fragment / layout.lebs_per_portion)
  bug_on (leb layout.portions_per_fragment portion_index)
  let in_portion = sub_u64 in_fragment (u32 (portion_index * layout.lebs_per_portion))
  let mempage_index = u32 (in_portion / leb_desc_per_mempage)
  divides layout.page_size
  bug_on (leb (layout.lebtbl_portion_bytes / layout.page_size) mempage_index)
  ok (record {
    fragment_index = fragment_index;
    portion_index = portion_index;
    mempage_index = mempage_index;
    leb_desc_index = in_portion % leb_desc_per_mempage;
  })

-- BITS_PER_LONG
abbrev pub bits_per_long : ℕ
bits_per_long = 64

-- Whether the bits from `start` on are set, as many as are counted.
unfoldable pub all_set : (used : ℕ → Bool) → (start count : ℕ) → Bool
all_set used start zero = true
all_set used start (suc count) = used start && all_set used (start + 1) count

-- The first loop of find_unused_peb, over the words of the bitmap that are left.
unfoldable pub skip_full_words : (used : ℕ → Bool) → (left index : ℕ) → ℕ
skip_full_words used zero index = index
skip_full_words used (suc left) index =
    let rest = skip_full_words used left (u16 (index + 1)) in
    if all_set used (index * bits_per_long) bits_per_long then rest else index

-- The second one, over the PEBs that are left.
unfoldable pub skip_used_pebs : (used : ℕ → Bool) → (left peb_index : ℕ) → ℕ
skip_used_pebs used zero peb_index = peb_index
skip_used_pebs used (suc left) peb_index =
    let rest = skip_used_pebs used left (u16 (peb_index + 1)) in
    if used peb_index then rest else peb_index

unfoldable pub find_unused_peb : PebPage → ℕ
find_unused_peb hdr =
    let bmap_ulongs = u16 ((hdr.pebs_count + bits_per_long - 1) / bits_per_long) in
    let start = u16 (skip_full_words hdr.used bmap_ulongs 0 * bits_per_long) in
    let peb_index = skip_used_pebs hdr.used (hdr.pebs_count - start) start in
    if leb hdr.pebs_count peb_index then u16_max else peb_index

-- META2SEG_TYPE and SEG2PEB_TYPE
unfoldable pub meta2seg_type : (meta_index : ℕ) → ℕ
meta2seg_type meta_index =
    if meta_index == 0
    then 2
    else if meta_index == 1
    then 1
    else if meta_index == 2
    then 3
    else if meta_index == 3
    then 4
    else 0

-- SSDFS_MAPTBL_PEB_TYPE_MAX
abbrev pub peb_type_max : ℕ
peb_type_max = 9

unfoldable pub seg2peb_type : (seg_type : ℕ) → ℕ
seg2peb_type seg_type =
    if seg_type == 8
    then 1
    else if seg_type == 5
    then 2
    else if seg_type == 6
    then 3
    else if seg_type == 7
    then 4
    else if seg_type == 2
    then 5
    else if seg_type == 1
    then 6
    else if seg_type == 3
    then 7
    else if seg_type == 4
    then 8
    else peb_type_max

-- The tests that define_peb_as_used and define_peb_as_pre_erased begin with.
abbrev pub check_peb : PebPage → (peb_index : ℕ) → Outcome (Unit {0})
check_peb hdr peb_index = do
  bug_on (not (hdr.magic == 0x5074))
  bug_on (leb hdr.pebs_count hdr.last_selected_peb)
  bug_on (leb hdr.pebs_count peb_index)
  bug_on (not (hdr.bytes_count == pebtbl_fragment_hdr_size + hdr.pebs_count * peb_descriptor_size))
  bug_on (not ((hdr.descs peb_index).state == 0))
  bug_on (not ((hdr.descs peb_index).peb_type == 0))

-- SSDFS_METADATA_ITEMS_MAX is 5; the state of the PEB becomes SSDFS_MAPTBL_USING_PEB_STATE.
unfoldable pub define_peb_as_used : PebPage → (peb_index meta_index : ℕ) → Outcome PebPage
define_peb_as_used hdr peb_index meta_index = do
  let peb_type = seg2peb_type (meta2seg_type meta_index)
  bug_on (ltb 5 meta_index)
  bug_on (peb_type == 0 || leb peb_type_max peb_type)
  check_peb hdr peb_index
  ok (record hdr {
    descs = put hdr.descs peb_index (record { peb_type = peb_type; state = 3 });
    used = put hdr.used peb_index true;
  })

-- The state becomes SSDFS_MAPTBL_PRE_ERASE_STATE.
unfoldable pub define_peb_as_pre_erased : PebPage → (peb_index : ℕ) → Outcome PebPage
define_peb_as_pre_erased hdr peb_index = do
  check_peb hdr peb_index
  ok (record hdr {
    descs = put hdr.descs peb_index (record { peb_type = 0; state = 16 });
    dirty = put hdr.dirty peb_index true;
  })

-- DEFINE_PEB_INDEX_IN_PORTION
unfoldable pub define_peb_index_in_portion : (stripe_index item_index : ℕ) → Outcome ℕ
define_peb_index_in_portion stripe_index item_index = do
  let peb_index = u32 (u32 (peb_desc_per_stripe * stripe_index) + item_index)
  bug_on (leb u16_max peb_index)
  ok peb_index

unfoldable pub define_leb_as_mapped :
    LebPage → (leb_desc_index physical_index : ℕ) → Outcome LebPage
define_leb_as_mapped hdr leb_desc_index physical_index = do
  bug_on (not (hdr.magic == 0x4C74))
  bug_on (hdr.lebs_count == 0)
  bug_on (ltb hdr.lebs_count hdr.mapped_lebs)
  bug_on (ltb hdr.lebs_count hdr.migrating_lebs)
  bug_on (ltb hdr.lebs_count (hdr.mapped_lebs + hdr.migrating_lebs))
  bug_on (not (hdr.bytes_count == lebtbl_fragment_hdr_size + hdr.lebs_count * leb_descriptor_size))
  ok (record hdr {
    descs =
        put hdr.descs leb_desc_index
          (record { physical_index = physical_index; relation_index = u16_max });
    mapped_lebs = u16 (hdr.mapped_lebs + 1);
  })

unfoldable pub get_stripe_index : Layout → LebPage → (leb_id : ℕ) → Outcome ℕ
get_stripe_index layout lebtbl_hdr leb_id = do
  let stripes_per_portion = layout.stripes_per_portion
  divides layout.erase_size
  let pebs_per_seg = u32 (layout.seg_size / layout.erase_size)
  divides pebs_per_seg
  let leb_index = leb_id % pebs_per_seg
  if stripes_per_portion == 1
      then ok (u16 (sub_u64 leb_id lebtbl_hdr.start_leb / peb_desc_per_stripe))
      else if ltb stripes_per_portion pebs_per_seg
      then (do
        divides stripes_per_portion
        let leb_index_per_stripe =
            u32 (pebs_per_seg + stripes_per_portion - 1) / stripes_per_portion
        divides leb_index_per_stripe
        bug_on (leb u16_max (leb_index / leb_index_per_stripe))
        ok (leb_index / leb_index_per_stripe))
      else (do bug_on (leb u16_max pebs_per_seg); ok (leb_index / pebs_per_seg))

-- The tables behind a mapping.
abbrev pub put_portion : Tables → (fragment_index portion_index : ℕ) → Portion → Tables
put_portion tables fragment_index portion_index portion =
    put tables fragment_index (put (tables fragment_index) portion_index portion)

abbrev pub put_pages : Portion → (mempage_index stripe_index : ℕ) → LebPage → PebPage → Portion
put_pages portion mempage_index stripe_index lebtbl pebtbl = record {
  lebs = put portion.lebs mempage_index lebtbl;
  pebs = put portion.pebs stripe_index pebtbl;
}

-- The PEB, or U64_MAX, and the tables.
unfoldable pub map_leb2peb : Layout → Tables → (leb_id meta_index : ℕ) → Outcome (ℕ × Tables)
map_leb2peb layout tables leb_id meta_index = do
  place ← get_lebtbl_fragment layout leb_id
  let portion = tables place.fragment_index place.portion_index
  let lebtbl = portion.lebs place.mempage_index
  bug_on (not (lebtbl.magic == 0x4C74))
  bug_on (ltb leb_id lebtbl.start_leb)
  bug_on (leb (u64 (lebtbl.start_leb + lebtbl.lebs_count)) leb_id)
  stripe_index ← get_stripe_index layout lebtbl leb_id
  let pebtbl = portion.pebs stripe_index
  bug_on (not (pebtbl.magic == 0x5074))
  let peb_index = find_unused_peb pebtbl
  if peb_index == u16_max then ok (u64_max, tables) else (do
    pebtbl' ← define_peb_as_used pebtbl peb_index meta_index
    physical_index ← define_peb_index_in_portion stripe_index peb_index
    lebtbl' ← define_leb_as_mapped lebtbl place.leb_desc_index physical_index
    ok (
      u64 (pebtbl.start_peb + peb_index),
      put_portion tables place.fragment_index place.portion_index
          (put_pages portion place.mempage_index stripe_index lebtbl' pebtbl'),
    ))

-- struct ssdfs_peb_content, as far as the mapping uses it.
pub record PebContent : Type 0 where
  pub leb_id : ℕ
  pub peb_id : ℕ

pub record Mapping : Type 0 where
  pub tables : Tables
  pub cache : Cache
  pub pebs : List PebContent

-- The PEBs of map_segment_lebs2pebs, from the first one on.
unfoldable pub map_segment_lebs2pebs :
    Layout → (seg_type : ℕ) → Tables → Cache → List PebContent → Outcome Mapping
map_segment_lebs2pebs layout seg_type tables cache [] =
    ok (record { tables = tables; cache = cache; pebs = [] })
map_segment_lebs2pebs layout seg_type tables cache (peb ∷ pebs) = elim (peb.leb_id == u64_max) [
  | true ↦ do
    rest ← map_segment_lebs2pebs layout seg_type tables cache pebs
    ok (record rest { pebs = peb ∷ rest.pebs })
  | false ↦ do
    (peb_id, tables') ← map_leb2peb layout tables peb.leb_id seg_type
    (if peb_id == u64_max then err erange else ok tt)
    cache' ← cache_leb2peb_pair cache peb.leb_id peb_id
    rest ← map_segment_lebs2pebs layout seg_type tables' cache' pebs
    ok (record rest { pebs = (record peb { peb_id = peb_id }) ∷ rest.pebs })
]
