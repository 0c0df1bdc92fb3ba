-- ===== src/Maptbl/Tests.antt =====
-- A volume of 3000 blocks of 128 KB in portions of 1428, and one of 9 in a portion of four stripes.
use ssdfs_tools.Prelude.{ℕ, ◌+◌, ◌≡◌, refl, inl, arith, Outcome, ok}
use ssdfs_tools.Maptbl.{PebTable, Layout, maptbl_prepare_leb_table, maptbl_prepare_peb_table}
use ssdfs_tools.Maptbl.Lebs.{
  FoundLeb, Overlap, maptbl_prepare_leb_table-FoundLeb, maptbl_prepare_leb_table-Overlap,
}
use ssdfs_tools.Maptbl.Stripes.{
  IsPortion, Apart, WithPeb, WithoutPeb, maptbl_prepare_peb_table-Apart,
  maptbl_prepare_peb_table-WithPeb, maptbl_prepare_peb_table-WithoutPeb,
}

abbrev volume : Layout
volume = record {
  fs_size = 393216000;
  erase_size = 131072;
  page_size = 4096;
  lebtbl_portion_bytes = 8192;
  lebs_per_portion = 1428;
  pebs_per_portion = 1428;
  stripes_per_portion = 3;
  reserved_pebs_per_fragment = 50;
}

maptbl_prepare_leb_table-FoundLeb_example :
    FoundLeb 3000 1 1 2444 1428 2500 (maptbl_prepare_leb_table volume 1 1)
maptbl_prepare_leb_table-FoundLeb_example =
    maptbl_prepare_leb_table-FoundLeb volume 1 2500 (omega arith) (omega arith) (omega arith)
      (omega arith) (omega arith) (omega arith) (omega arith)

maptbl_prepare_leb_table-Overlap_example :
    Overlap 1428 (maptbl_prepare_leb_table volume 0 1) (maptbl_prepare_leb_table volume 1 0)
maptbl_prepare_leb_table-Overlap_example =
    maptbl_prepare_leb_table-Overlap volume 0 1 (omega arith) (omega arith) (omega arith)
      (omega arith) (omega arith) (omega arith) (omega arith) (omega arith)

volume-IsPortion : IsPortion volume 1
volume-IsPortion = record {
  blocks = omega arith;
  few = omega arith;
  word = omega arith;
  percent = omega arith;
  narrow = omega arith;
  low = omega arith;
}

maptbl_prepare_peb_table-Apart_example : Apart volume 1 2 (maptbl_prepare_peb_table volume 1 2)
maptbl_prepare_peb_table-Apart_example =
    maptbl_prepare_peb_table-Apart volume 1 volume-IsPortion 2 (omega arith)

maptbl_prepare_peb_table-WithPeb_example : WithPeb 2000 (maptbl_prepare_peb_table volume 1 1)
maptbl_prepare_peb_table-WithPeb_example =
    maptbl_prepare_peb_table-WithPeb volume 1 volume-IsPortion 2000 (omega arith) (omega arith)
      (omega arith) (inl refl)

abbrev nine : Layout
nine = record volume {
  fs_size = 1179648;
  lebs_per_portion = 1904;
  pebs_per_portion = 1904;
  stripes_per_portion = 4;
}

nine-IsPortion : IsPortion nine 0
nine-IsPortion = record {
  blocks = omega arith;
  few = omega arith;
  word = omega arith;
  percent = omega arith;
  narrow = omega arith;
  low = omega arith;
}

-- The nine PEBs are in stripes of two, three apart: the third one is in none.
maptbl_prepare_peb_table-WithoutPeb_example : WithoutPeb 2 (maptbl_prepare_peb_table nine 0 0)
maptbl_prepare_peb_table-WithoutPeb_example =
    maptbl_prepare_peb_table-WithoutPeb nine 0 nine-IsPortion 0 (omega arith) (omega arith)
      (omega arith)

-- With five stripes, the last one of the first portion has the first two PEBs of the next portion.
abbrev five : Layout
five = record volume { stripes_per_portion = 5 }

abbrev range_of : Outcome PebTable → ℕ × ℕ
range_of (ok table) = (table.start_peb, table.start_peb + table.pebs_count)
range_of _ = (0, 0)

last_stripe : range_of (maptbl_prepare_peb_table five 0 4) ≡ (1144, 1430)
unfolding maptbl_prepare_peb_table
last_stripe = refl

next_portion : range_of (maptbl_prepare_peb_table five 1 0) ≡ (1428, 1714)
unfolding maptbl_prepare_peb_table
next_portion = refl
