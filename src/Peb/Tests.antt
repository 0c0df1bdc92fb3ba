-- ===== src/Peb/Tests.antt =====
-- A device with one segment header, and an instance of the theorem on the search for it.
use ssdfs_tools.Prelude.{
  ℕ, ◌≡◌, refl, ◌∙◌, ◌==◌, if◌then◌else◌, List, [], ◌∷◌, replicate, length-replicate, patch,
  length-patch, inl, some, Outcome, ok, arith,
}
use ssdfs_tools.Csum.{ssdfs_calculate_csum, is_csum_valid}
use ssdfs_tools.Peb.{judge_header, check_header, search_pebs, ssdfs_find_any_valid_peb}
use ssdfs_tools.Peb.Search.{Answers, SearchEnd, find_any_valid_peb_lem}

abbrev no_crc : ℕ → List ℕ → ℕ
no_crc start bytes = start

-- The signature, and a check of 16 bytes.
abbrev header_start : List ℕ
header_start =
    0x66 ∷ 0x44 ∷ 0x73 ∷ 0x53 ∷ 0x48 ∷ 0x53 ∷ 0 ∷ 0 ∷ 16 ∷ 0 ∷ 1 ∷ 0 ∷ 255 ∷ 255 ∷ 255 ∷ 255 ∷ []

-- The header is at the start of PEB 3 of 2048 bytes each; all else is zero.
abbrev device : (offset size : ℕ) → Outcome (List ℕ)
device offset size = ok (patch 0 (if offset == 6144 then header_start else []) (replicate size 0))

device-Answers : Answers device
device-Answers offset size = inl (
  patch 0 (if offset == 6144 then header_start else []) (replicate size 0),
  refl,
  length-patch 0 _ (replicate size 0) ∙ length-replicate size 0,
)

finds_peb_3 :
    ssdfs_find_any_valid_peb device no_crc 20000 2048 3
    ≡ some (ok (patch 0 header_start (replicate 2048 0)))
unfolding ssdfs_find_any_valid_peb search_pebs check_header judge_header is_csum_valid
    ssdfs_calculate_csum
finds_peb_3 = refl

find_any_valid_peb_lem_example :
    SearchEnd device no_crc 20000 2048 (ssdfs_find_any_valid_peb device no_crc 20000 2048 20001)
find_any_valid_peb_lem_example =
    find_any_valid_peb_lem device no_crc 20000 2048 (omega arith) device-Answers (omega arith) 20001
      (omega arith)
