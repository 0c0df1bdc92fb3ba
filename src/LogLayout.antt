-- ===== src/LogLayout.antt =====
-- sbin/mkfs.ssdfs/common.c: where the extents of a log lie, and the pages that the log takes. An
-- extent is named by its number in the enumeration of sbin/mkfs.ssdfs/mkfs.h.
pub mod Align
pub mod Order
pub mod Pages
pub mod Metadata
pub mod Backups
mod Tests
use ssdfs_tools.Prelude.{
  ℕ, zero, suc, ◌+◌, ◌-◌, ◌*◌, ◌/◌, ◌%◌, ◌==◌, ltb, leb, Bool, true, false, ◌&&◌, ◌||◌,
  if◌then◌else◌, List, [], ◌∷◌, length, u32, sub_u32, Outcome, ok, err, einval, erange, fault,
  bug_on, fail_if, ◌>>=◌, ◌>>◌,
}

-- The extents of a log.
abbrev pub seg_header : ℕ
seg_header = 0

abbrev pub block_bitmap : ℕ
block_bitmap = 1

abbrev pub offset_table : ℕ
offset_table = 2

abbrev pub block_descriptors : ℕ
block_descriptors = 3

abbrev pub maptbl_cache : ℕ
maptbl_cache = 4

abbrev pub log_payload : ℕ
log_payload = 5

abbrev pub log_footer : ℕ
log_footer = 6

abbrev pub block_bitmap_backup : ℕ
block_bitmap_backup = 7

abbrev pub offset_table_backup : ℕ
offset_table_backup = 8

-- struct ssdfs_extent_desc, without the buffer.
pub record Extent : Type 0 where
  pub offset : ℕ
  pub bytes_count : ℕ

-- What the functions use of the volume layout.
pub record Layout : Type 0 where
  pub page_size : ℕ
  pub erase_size : ℕ

-- The page size of a log: PAGE_CACHE_SIZE for the superblock and the initial snapshot.
abbrev pub log_page_size : Layout → (seg_type : ℕ) → ℕ
log_page_size layout seg_type =
    if (seg_type == 1) || (seg_type == 2) then 4096 else layout.page_size

-- sizeof(struct ssdfs_segment_header)
abbrev pub hdr_size : ℕ
hdr_size = 2048

abbrev pub inline_capacity : (page_size : ℕ) → ℕ
inline_capacity page_size = sub_u32 page_size hdr_size

-- `n += page_size - 1; n = (n / page_size) * page_size;`
unfoldable pub align : (page_size n : ℕ) → ℕ
align page_size n = u32 (u32 (n + (page_size - 1)) / page_size * page_size)

-- The first step of set_extent_start_offset: the sizes before the extent, by falling through.
abbrev pub front_offset : (ℕ → Extent) → (extent_index : ℕ) → ℕ
front_offset extents i =
    let o0 = (extents seg_header).offset in
    let o1 =
      if leb maptbl_cache i then u32 (o0 + (extents block_descriptors).bytes_count) else o0 in
    let o2 =
      if leb block_descriptors i then u32 (o1 + (extents offset_table).bytes_count) else o1 in
    let o3 = if leb offset_table i then u32 (o2 + (extents block_bitmap).bytes_count) else o2 in
    if leb block_bitmap i then u32 (o3 + (extents seg_header).bytes_count) else o3

-- The second and the third one.
abbrev pub payload_offset : (page_size : ℕ) → (ℕ → Extent) → (extent_index offset : ℕ) → ℕ
payload_offset page_size extents i offset =
    let cache = (extents maptbl_cache).bytes_count in
    let start = align page_size offset in
    let behind =
      if leb log_footer i
      then align page_size (u32 (start + (extents log_payload).bytes_count))
      else start in
    if i == maptbl_cache
    then start
    else align page_size
        (if ltb (inline_capacity page_size) cache then u32 (behind + cache) else behind)

-- The last one.
abbrev pub backup_offset : (page_size : ℕ) → (ℕ → Extent) → (extent_index offset : ℕ) → ℕ
backup_offset page_size extents i offset =
    let start =
      if i == offset_table_backup
      then u32 (offset + (extents block_bitmap_backup).bytes_count)
      else offset in
    align page_size (u32 (start + (extents log_footer).bytes_count))

abbrev pub start_offset : (page_size : ℕ) → (ℕ → Extent) → (extent_index : ℕ) → ℕ
start_offset page_size extents i =
    let front = front_offset extents i in
    if ltb i maptbl_cache
    then front
    else if ltb i block_bitmap_backup
    then payload_offset page_size extents i front
    else backup_offset page_size extents i (payload_offset page_size extents i front)

-- A division by a page size of 0 is a fault.
unfoldable pub set_extent_start_offset :
    Layout → (seg_type : ℕ) → (ℕ → Extent) → (extent_index : ℕ) → Outcome (ℕ → Extent)
set_extent_start_offset layout seg_type extents i = do
  let page_size = log_page_size layout seg_type
  fail_if (ltb offset_table_backup i) einval
  (if (page_size == 0) && leb maptbl_cache i then fault else ok tt)
  ok (λ k.
      if k == i
      then record (extents i) { offset = start_offset page_size extents i }
      else extents k)

-- The bytes of calculate_log_pages, behind the payload and behind the backups.
abbrev pub payload_bytes : (page_size : ℕ) → (ℕ → Extent) → ℕ
payload_bytes page_size extents =
    let cache = (extents maptbl_cache).bytes_count in
    let b1 = u32 ((extents seg_header).bytes_count + (extents block_bitmap).bytes_count) in
    let b2 = u32 (b1 + (extents offset_table).bytes_count) in
    let b3 = u32 (b2 + (extents block_descriptors).bytes_count) in
    let b4 = if ltb (inline_capacity page_size) cache then align page_size b3 else b3 in
    let b5 = align page_size (u32 (b4 + cache)) in
    align page_size (u32 (b5 + (extents log_payload).bytes_count))

abbrev pub log_bytes : (page_size : ℕ) → (ℕ → Extent) → ℕ
log_bytes page_size extents =
    let b1 = u32 (payload_bytes page_size extents + (extents log_footer).bytes_count) in
    let b2 = u32 (b1 + (extents block_bitmap_backup).bytes_count) in
    align page_size (u32 (b2 + (extents offset_table_backup).bytes_count))

unfoldable pub calculate_log_pages : Layout → (seg_type : ℕ) → (ℕ → Extent) → Outcome ℕ
calculate_log_pages layout seg_type extents = do
  let page_size = log_page_size layout seg_type
  (if page_size == 0 then fault else ok tt)
  bug_on (ltb layout.erase_size (log_bytes page_size extents))
  ok (log_bytes page_size extents / page_size)

abbrev pub metadata_bytes : (page_size : ℕ) → (ℕ → Extent) → ℕ
metadata_bytes page_size extents =
    let b1 = u32 ((extents seg_header).bytes_count + (extents block_bitmap).bytes_count) in
    let b2 = align page_size (u32 (b1 + (extents offset_table).bytes_count)) in
    let b3 = align page_size (u32 (b2 + (extents maptbl_cache).bytes_count)) in
    let b4 = u32 (b3 + (extents log_footer).bytes_count) in
    let b5 = u32 (b4 + (extents block_bitmap_backup).bytes_count) in
    u32 (u32 (b5 + (extents offset_table_backup).bytes_count) + (page_size - 1))

unfoldable pub calculate_metadata_blks : Layout → (seg_type : ℕ) → (ℕ → Extent) → Outcome ℕ
calculate_metadata_blks layout seg_type extents = do
  let page_size = log_page_size layout seg_type
  (if page_size == 0 then fault else ok tt)
  bug_on (ltb layout.erase_size (metadata_bytes page_size extents))
  ok (metadata_bytes page_size extents / page_size)
