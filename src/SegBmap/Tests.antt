-- ===== src/SegBmap/Tests.antt =====
-- Concrete runs and instances of the theorems on the segment bitmap.
use ssdfs_tools.Prelude.{
  ℕ, zero, suc, ◌≡◌, refl, ◌⊎◌, none, some, enodata, u64_max, List, [], ◌∷◌, ok, bug, arith,
}
use ssdfs_tools.SegBmap.{
  FragmentHeader, Search, search_bytes, search_range, set_first_clean_item_in_fragment,
}
use ssdfs_tools.SegBmap.Found.{IsBytes, Found, NotFound}
use ssdfs_tools.SegBmap.Scan.{IsSearchable, set_first_clean_item_lem}
use ssdfs_tools.SegBmap.Alloc.{misaligned_start_aborts}

abbrev hdr : FragmentHeader
hdr = record {
  magic = 0;
  seg_index = 0;
  peb_index = 0;
  flags = 0;
  seg_type = 0;
  start_item = 0;
  sequence_id = 0;
  fragment_bytes = 40;
  checksum = 0;
  total_segs = 16;
  clean_or_using_segs = 16;
  used_or_dirty_segs = 0;
  bad_segs = 0;
}

-- Segments 0 to 2 are reserved.
abbrev fragment : List ℕ
fragment = 0x99 ∷ 0x09 ∷ 0 ∷ 0 ∷ 0 ∷ 0 ∷ 0 ∷ 0 ∷ []

abbrev found_three : Search
found_three = record {
  fragment = 0x99 ∷ 0x99 ∷ 0 ∷ 0 ∷ 0 ∷ 0 ∷ 0 ∷ 0 ∷ [];
  found_seg = 3;
  code = none;
}

abbrev found_four : Search
found_four = record {
  fragment = 0x99 ∷ 0x99 ∷ 9 ∷ 0 ∷ 0 ∷ 0 ∷ 0 ∷ 0 ∷ [];
  found_seg = 4;
  code = none;
}

-- A volume of 14 segments: none is searched, although segment 3 is clean.
searches_none :
    set_first_clean_item_in_fragment hdr fragment 0 14 4096 9 0
    ≡ ok (record { fragment = fragment; found_seg = u64_max; code = some enodata })
unfolding set_first_clean_item_in_fragment search_range search_bytes
searches_none = refl

fragment-IsBytes : IsBytes fragment
fragment-IsBytes zero = omega arith
fragment-IsBytes (suc zero) = omega arith
fragment-IsBytes (suc (suc zero)) = omega arith
fragment-IsBytes (suc (suc (suc zero))) = omega arith
fragment-IsBytes (suc (suc (suc (suc zero)))) = omega arith
fragment-IsBytes (suc (suc (suc (suc (suc zero))))) = omega arith
fragment-IsBytes (suc (suc (suc (suc (suc (suc zero)))))) = omega arith
fragment-IsBytes (suc (suc (suc (suc (suc (suc (suc zero))))))) = omega arith
fragment-IsBytes (suc (suc (suc (suc (suc (suc (suc (suc i)))))))) = omega arith

fragment-IsSearchable : IsSearchable hdr fragment 0 16 4096
fragment-IsSearchable = omega arith

set_first_clean_item_lem_example :
    let result = set_first_clean_item_in_fragment hdr fragment 0 16 4096 9 0 in
    Found fragment 0 16 9 0 16 result ⊎ NotFound fragment 0 16 result
set_first_clean_item_lem_example =
    set_first_clean_item_lem hdr fragment 0 16 4096 9 0 fragment-IsSearchable fragment-IsBytes
      (omega arith)

misaligned_start_aborts_example : set_first_clean_item_in_fragment hdr fragment 5 16 4096 9 0 ≡ bug
misaligned_start_aborts_example =
    misaligned_start_aborts hdr fragment 5 16 4096 9 0 (omega arith) (omega arith) (omega arith)
      (omega arith)
