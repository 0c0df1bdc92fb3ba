-- ===== src/Peb.antt =====
-- lib/ssdfs_common.c: the reads of the parts of a PEB, and ssdfs_find_any_valid_peb. The read
-- operation of the device is a parameter: what it stores in the buffer, or its error.
pub mod Places
pub mod Search
mod Tests
use ssdfs_tools.Prelude.{
  ℕ, zero, suc, ◌+◌, ◌*◌, ◌/◌, ◌==◌, ltb, ◌&&◌, Bool, true, false, if◌then◌else◌, Option, none,
  some, List, u64, Outcome, ok, err, bug, fault, enodata, ◌>>=◌,
}
use ssdfs_tools.Csum.{le16, is_csum_valid}

-- SSDFS_RESERVED_VBR_SIZE and SSDFS_INITIAL_SNAPSHOT_SEG
abbrev pub reserved_vbr_size : ℕ
reserved_vbr_size = 1024

abbrev pub initial_snapshot_seg : ℕ
initial_snapshot_seg = 0

-- SSDFS_SUPER_MAGIC and SSDFS_SEGMENT_HDR_MAGIC
abbrev pub super_magic : ℕ
super_magic = 0x53734466

abbrev pub segment_hdr_magic : ℕ
segment_hdr_magic = 0x5348

-- sizeof(struct ssdfs_segment_header); that of struct ssdfs_partial_log_header is not larger.
abbrev pub segment_header_size : ℕ
segment_header_size = 0x800

-- le32_to_cpu of the field at offset `k`.
abbrev pub le32 : ℕ → List ℕ → ℕ
le32 k buf = le16 k buf + 65536 * le16 (k + 2) buf

-- The offset on the device of an offset in a PEB.
abbrev pub peb_offset : (peb_id peb_size area_offset : ℕ) → ℕ
peb_offset peb_id peb_size area_offset = u64 (u64 (peb_id * peb_size) + area_offset)

-- The offset that ssdfs_read_segment_header reads at.
abbrev pub header_offset : (peb_id peb_size log_offset : ℕ) → ℕ
header_offset peb_id peb_size log_offset =
    if peb_id == initial_snapshot_seg
    then (if log_offset == 0 then reserved_vbr_size else log_offset)
    else peb_offset peb_id peb_size log_offset

module _ (read : (offset size : ℕ) → Outcome (List ℕ)) where
  -- ssdfs_read_area_content, which ssdfs_read_blk_desc_array, ssdfs_read_blk2off_table,
  -- ssdfs_read_block_bitmap and ssdfs_read_mapping_table_cache call with their own arguments.
  unfoldable pub ssdfs_read_area_content : (peb_id peb_size area_offset size : ℕ) → Outcome (List ℕ)
  ssdfs_read_area_content peb_id peb_size area_offset size =
      read (peb_offset peb_id peb_size area_offset) size

  abbrev pub ssdfs_read_log_footer : (peb_id peb_size area_offset size : ℕ) → Outcome (List ℕ)
  ssdfs_read_log_footer peb_id peb_size area_offset size =
      read (peb_offset peb_id peb_size area_offset) size

  abbrev pub ssdfs_read_partial_log_footer :
      (peb_id peb_size area_offset size : ℕ) → Outcome (List ℕ)
  ssdfs_read_partial_log_footer peb_id peb_size area_offset size =
      read (peb_offset peb_id peb_size area_offset) size

  abbrev pub ssdfs_read_partial_log_header :
      (peb_id peb_size log_offset size : ℕ) → Outcome (List ℕ)
  ssdfs_read_partial_log_header peb_id peb_size log_offset size =
      read (peb_offset peb_id peb_size log_offset) size

  -- ssdfs_read_segment_header; it does not use `size`.
  abbrev pub ssdfs_read_segment_header : (peb_id peb_size log_offset size : ℕ) → Outcome (List ℕ)
  ssdfs_read_segment_header peb_id peb_size log_offset size =
      read (header_offset peb_id peb_size log_offset) segment_header_size

-- The signature of a segment header.
abbrev pub has_magic : List ℕ → Bool
has_magic hdr = (le32 0 hdr == super_magic) && (le16 4 hdr == segment_hdr_magic)

module _ (read : (offset size : ℕ) → Outcome (List ℕ)) (crc32 : ℕ → List ℕ → ℕ)
    (fs_size erase_size : ℕ) where
  -- The checks of a round: whether the header is valid, and the header as they leave it.
  unfoldable pub judge_header : List ℕ → Outcome (Bool × List ℕ)
  judge_header hdr =
      if has_magic hdr then is_csum_valid crc32 8 hdr segment_header_size else ok (false, hdr)

  -- The read and the checks of a round.
  unfoldable pub check_header : ℕ → Outcome (Bool × List ℕ)
  check_header offset =
      ssdfs_read_segment_header read (offset / erase_size) erase_size 0 erase_size >>= judge_header

  -- The loop of ssdfs_find_any_valid_peb; `none` if the fuel does not reach its end.
  unfoldable pub search_pebs : (fuel offset factor : ℕ) → Option (Outcome (List ℕ))
  search_pebs zero offset factor = none
  search_pebs (suc fuel) offset factor =
      let first = offset == reserved_vbr_size in
      let factor' = if first then factor else u64 (factor * 2) in
      let offset' = if first then erase_size else u64 (offset + u64 (factor' * erase_size)) in
      let rest = search_pebs fuel offset' factor' in
      elim (check_header offset) [
        | ok (true, hdr) ↦ some (ok hdr)
        | ok (false, hdr) ↦ if ltb offset' fs_size then rest else some (err enodata)
        | err e ↦ some (err e)
        | bug ↦ some bug
        | fault ↦ some fault
      ]

  -- ssdfs_find_any_valid_peb; `ok` carries `*hdr` at the return of 0.
  unfoldable pub ssdfs_find_any_valid_peb : ℕ → Option (Outcome (List ℕ))
  ssdfs_find_any_valid_peb fuel =
      if erase_size == 0 then some fault else search_pebs fuel reserved_vbr_size 1
