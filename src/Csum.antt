-- ===== src/Csum.antt =====
-- lib/ssdfs_common.c: the checksum of a metadata structure, struct ssdfs_metadata_check of
-- include/ssdfs_abi.h. The check lies in the buffer that it checks, at the offset `at`; crc32 of
-- zlib is a parameter.
pub mod Valid
mod Tests
use ssdfs_tools.Prelude.{
  ℕ, ◌+◌, ◌-◌, ◌*◌, ◌/◌, ◌%◌, ◌^◌, Bool, true, false, ◌==◌, ltb, if◌then◌else◌, List, [], ◌∷◌,
  get_or, length, window, patch, u32, bit_and, Outcome, ok, err, bug, fault, einval,
}

-- le16_to_cpu of the field at offset `k`.
abbrev pub le16 : ℕ → List ℕ → ℕ
le16 k buf = get_or buf k 0 + 256 * get_or buf (k + 1) 0

-- cpu_to_le32: the bytes of the field.
abbrev pub le32_bytes : ℕ → List ℕ
le32_bytes v = v % 256 ∷ v / 256 % 256 ∷ v / 65536 % 256 ∷ v / 16777216 % 256 ∷ []

-- The fields of the check at `at`: the bytes it covers, its flags, and the bytes of its sum.
abbrev pub check_bytes : ℕ → List ℕ → ℕ
check_bytes at buf = le16 at buf

abbrev pub check_flags : ℕ → List ℕ → ℕ
check_flags at buf = le16 (at + 2) buf

abbrev pub check_csum : ℕ → List ℕ → List ℕ
check_csum at buf = window (at + 4) 4 buf

abbrev pub set_check_csum : ℕ → List ℕ → List ℕ → List ℕ
set_check_csum at csum buf = patch (at + 4) csum buf

abbrev pub check_size : ℕ
check_size = 8

-- SSDFS_CRC32
abbrev pub csum_crc32 : ℕ
csum_crc32 = 1

-- `a == b` of two fields by their bytes.
abbrev pub same_bytes : List ℕ → List ℕ → Bool
same_bytes [] [] = true
same_bytes [] (y ∷ ys) = false
same_bytes (x ∷ xs) [] = false
same_bytes (x ∷ xs) (y ∷ ys) = if x == y then same_bytes xs ys else false

-- is_csum_valid behind its call of ssdfs_calculate_csum: `buf` is the buffer before that call.
abbrev pub compare_csum : ℕ → List ℕ → Outcome (List ℕ) → Outcome (Bool × List ℕ)
compare_csum at buf (ok calculated) =
    let old_csum = check_csum at buf in
    ok (same_bytes old_csum (check_csum at calculated), set_check_csum at old_csum calculated)
compare_csum at buf (err e) = ok (false, buf)
compare_csum at buf bug = bug
compare_csum at buf fault = fault

module _ (crc32 : ℕ → List ℕ → ℕ) where
  -- ssdfs_crc32_le
  abbrev pub ssdfs_crc32_le : List ℕ → List ℕ
  ssdfs_crc32_le bytes = le32_bytes (2 ^ 32 - 1 - u32 (crc32 0 bytes))

  -- ssdfs_calculate_csum; `ok` carries the buffer at the return of 0.
  unfoldable pub ssdfs_calculate_csum : (at : ℕ) (buf : List ℕ) (buf_size : ℕ) → Outcome (List ℕ)
  ssdfs_calculate_csum at buf buf_size =
      let bytes = check_bytes at buf in
      let zeroed = set_check_csum at (0 ∷ 0 ∷ 0 ∷ 0 ∷ []) buf in
      if ltb (length buf) (at + check_size)
      then fault
      else if ltb buf_size bytes
      then err einval
      else if bit_and (check_flags at buf) csum_crc32 == 0
      then err einval
      else if ltb (length buf) bytes
      then fault
      else ok (set_check_csum at (ssdfs_crc32_le (window 0 bytes zeroed)) zeroed)

  -- is_csum_valid; the answer and the buffer that it leaves.
  unfoldable pub is_csum_valid : (at : ℕ) (buf : List ℕ) (buf_size : ℕ) → Outcome (Bool × List ℕ)
  is_csum_valid at buf buf_size = compare_csum at buf (ssdfs_calculate_csum at buf buf_size)
