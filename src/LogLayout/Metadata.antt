-- ===== src/LogLayout/Metadata.antt =====
-- The blocks of the metadata of a log against the pages of the log.
use native.Mathlib.Nat.{div-lt_iff_lt-mul}
use ssdfs_tools.Prelude.{ℕ, ◌+◌, ◌-◌, ◌*◌, ◌/◌, ◌^◌, ◌<◌, ◌≤◌, ◌≡◌, ap, ◌∙◌, u32, ok, arith}
use ssdfs_tools.LogLayout.{
  Extent, Layout, log_page_size, align, payload_bytes, log_bytes, metadata_bytes,
  calculate_log_pages, calculate_metadata_blks,
}
use ssdfs_tools.LogLayout.Align.{align_bounds, align-align, align_zero, align_mono}
use ssdfs_tools.LogLayout.Order.{bytes_of, all_bytes, front, behind_bounds, footer_eq}
use ssdfs_tools.LogLayout.Pages.{payload_reaches, log_bytes_pages}

module _ (p : ℕ) (some : 0 < p) (extents : ℕ → Extent)
    (small : (extents 0).offset + all_bytes extents + 9 * p < 2 ^ 32)
    (first : (extents 0).offset ≡ 0) (no_cache : bytes_of extents 4 ≡ 0) where
  abbrev b : ℕ → ℕ
  b i = bytes_of extents i

  abbrev head : ℕ
  head = b 0 + b 1 + b 2

  -- The bytes that are divided, the rounding of the last sum left out.
  metadata_eq : metadata_bytes p extents ≡ align p head + b 6 + b 7 + b 8 + (p - 1)
  metadata_eq =
      let bounds = align_bounds p some head (omega (arith, small)) in
      let word : u32 (u32 (b 0 + b 1) + b 2) ≡ head = omega (arith, small) in
      let none : u32 (align p head + b 4) ≡ align p head + 0 =
        omega (arith, bounds, no_cache, small) in
      let twice : align p (u32 (align p (u32 (u32 (b 0 + b 1) + b 2)) + b 4)) ≡ align p head =
        ap (λ n. align p (u32 (align p n + b 4))) word
        ∙ ap (align p) none
        ∙ align-align p some head 0 (omega (arith, small))
        ∙ (let z = align_zero p some (omega (arith, small)) in omega (arith, z)) in
      omega (arith, twice, bounds, small)

  head_inside : align p head ≤ payload_bytes p extents
  head_inside =
      let reach = payload_reaches p some extents small first in
      let footer = footer_eq p some extents small in
      let t = behind_bounds p some extents small in
      let m =
        align_mono p some head (front p some extents small) (omega arith) (omega (arith, small)) in
      omega (arith, reach, footer, t, m)

  fewer : metadata_bytes p extents / p ≤ log_bytes p extents / p
  fewer =
      let whole = log_bytes_pages p some extents small first in
      let pages : ℕ = log_bytes p extents / p in
      let next : (pages + 1) * p ≡ pages * p + p = omega arith in
      let below : metadata_bytes p extents < (pages + 1) * p =
        omega (arith, metadata_eq, head_inside, whole, next, some) in
      let quotient : metadata_bytes p extents / p < pages + 1 = (div-lt_iff_lt-mul some).1 below in
      omega (arith, quotient)

-- calculate_metadata_blks never counts more blocks for the metadata of a log than
-- calculate_log_pages counts pages for the whole of it, where both return, for a log without a
-- cache of the mapping table that begins at offset 0. The page size is not 0, and the bytes of the
-- extents with nine pages are below 2^32.
pub calculate_metadata_blks-le-calculate_log_pages :
    (layout : Layout) (seg_type : ℕ) (extents : ℕ → Extent) (blks pages : ℕ)
    → 0 < log_page_size layout seg_type
    → (extents 0).offset + all_bytes extents + 9 * log_page_size layout seg_type < 2 ^ 32
    → (extents 0).offset ≡ 0
    → bytes_of extents 4 ≡ 0
    → calculate_metadata_blks layout seg_type extents ≡ ok blks
    → calculate_log_pages layout seg_type extents ≡ ok pages
    → blks ≤ pages
unfolding calculate_metadata_blks calculate_log_pages
calculate_metadata_blks-le-calculate_log_pages layout seg_type extents blks pages some small first
      no_cache e f =
    let less = fewer (log_page_size layout seg_type) some extents small first no_cache in
    ground (arith, less, e, f)
