-- ===== src/LogLayout/Tests.antt =====
-- Logs with pages of 4096 bytes: runs of the code, and instances of the theorems.
use ssdfs_tools.Prelude.{ℕ, ◌≤◌, ◌≡◌, refl, [], ◌∷◌, get_or, ok, arith}
use ssdfs_tools.LogLayout.{
  Extent, Layout, log_bytes, align, start_offset, calculate_log_pages, calculate_metadata_blks,
}
use ssdfs_tools.LogLayout.Order.{IsPlaced, set_extent_start_offset-IsPlaced}
use ssdfs_tools.LogLayout.Pages.{EndsInside, calculate_log_pages-EndsInside}
use ssdfs_tools.LogLayout.Backups.{backups_overlap}

abbrev layout : Layout
layout = record { page_size = 4096; erase_size = 131072 }

-- The segment header, the block bitmap, the offset table, the block descriptors, no cache, the
-- payload, the footer, and the two backups.
abbrev sizes : ℕ → ℕ
sizes i = get_or (2048 ∷ 100 ∷ 200 ∷ 300 ∷ 0 ∷ 9000 ∷ 2048 ∷ 100 ∷ 200 ∷ []) i 0

abbrev extents : ℕ → Extent
extents i = record { offset = 0; bytes_count = sizes i }

offsets :
    start_offset 4096 extents 0
      ∷ start_offset 4096 extents 1
      ∷ start_offset 4096 extents 2
      ∷ start_offset 4096 extents 3
      ∷ start_offset 4096 extents 4
      ∷ start_offset 4096 extents 5
      ∷ start_offset 4096 extents 6
      ∷ start_offset 4096 extents 7
      ∷ start_offset 4096 extents 8
      ∷ []
    ≡ 0 ∷ 2048 ∷ 2148 ∷ 2348 ∷ 4096 ∷ 4096 ∷ 16384 ∷ 20480 ∷ 20480 ∷ []
unfolding align
offsets = refl

pages : calculate_log_pages layout 3 extents ≡ ok 5
unfolding calculate_log_pages align
pages = refl

blocks : calculate_metadata_blks layout 3 extents ≡ ok 2
unfolding calculate_metadata_blks align
blocks = refl

bytes_fit : log_bytes 4096 extents ≤ 131072
unfolding align
bytes_fit = omega arith

set_extent_start_offset-IsPlaced_example : IsPlaced layout 3 extents
set_extent_start_offset-IsPlaced_example =
    set_extent_start_offset-IsPlaced layout 3 extents (omega arith) (omega arith)

calculate_log_pages-EndsInside_example :
    (pages : ℕ) × (calculate_log_pages layout 3 extents ≡ ok pages) × EndsInside 4096 extents pages
calculate_log_pages-EndsInside_example =
    calculate_log_pages-EndsInside layout 3 extents (omega arith) (omega arith) refl bytes_fit

backups_overlap_example : start_offset 4096 extents 7 ≡ start_offset 4096 extents 8
backups_overlap_example =
    backups_overlap 4096 (omega arith) extents (omega arith) (omega arith) (omega arith)
      (omega arith)
