-- ===== src/LogLayout/Backups.antt =====
-- The backups of the block bitmap and of the offset table.
use ssdfs_tools.Prelude.{ℕ, ◌+◌, ◌*◌, ◌^◌, ◌<◌, ◌≤◌, ◌≡◌, ap, ◌∙◌, arith}
use ssdfs_tools.LogLayout.{Extent, align, start_offset}
use ssdfs_tools.LogLayout.Align.{align-align, align_one}
use ssdfs_tools.LogLayout.Order.{
  bytes_of, all_bytes, start, behind, extra, extra_bound, extra_bounds, start_bounds, behind_bounds,
  footer_eq, bitmap_backup_eq, table_backup_eq,
}

module _ (p : ℕ) (some : 0 < p) (extents : ℕ → Extent)
    (small : (extents 0).offset + all_bytes extents + 9 * p < 2 ^ 32) where
  abbrev b : ℕ → ℕ
  b i = bytes_of extents i

  -- The footer begins at a page.
  behind_footer :
      (n : ℕ)
      → n ≤ b 6 + b 7
      → align p (start_offset p extents 6 + n) ≡ start_offset p extents 6 + align p n
  behind_footer n less =
      let from : ℕ = start p some extents small in
      let room : ℕ = extra p some extents small in
      let s = start_bounds p some extents small in
      let t = behind_bounds p some extents small in
      let e = extra_bound p some extents small in
      let x = extra_bounds p some extents small in
      let footer = footer_eq p some extents small in
      let first : align p (behind p some extents small + (align p room + n))
          ≡ behind p some extents small + align p (align p room + n) =
        align-align p some (from + b 5) (align p room + n) (omega (arith, s, e, x, less, small)) in
      let second : align p (align p room + n) ≡ align p room + align p n =
        align-align p some room n (omega (arith, e, less, small)) in
      let split : start_offset p extents 6 + n ≡ behind p some extents small + (align p room + n) =
        omega (arith, footer) in
      ap (align p) split ∙ first ∙ omega (arith, second, footer)

  -- The backups of the block bitmap and of the offset table begin at the same page when the footer
  -- and the first backup fit into one page together: set_extent_start_offset does not round
  -- between the two. The page size is not 0 and below 2^31, and the bytes of the extents with nine
  -- pages are below 2^32.
  pub backups_overlap :
      p < 2 ^ 31 → 0 < b 6 → b 6 + b 7 ≤ p → start_offset p extents 7 ≡ start_offset p extents 8
  backups_overlap page footer fit =
      let one = align_one p some (b 6) footer (omega (arith, fit)) page in
      let other = align_one p some (b 7 + b 6) (omega (arith, footer)) (omega (arith, fit)) page in
      let seventh = bitmap_backup_eq p some extents small in
      let eighth = table_backup_eq p some extents small in
      let first = behind_footer (b 6) (omega arith) in
      let second = behind_footer (b 7 + b 6) (omega arith) in
      let order : start_offset p extents 6 + b 7 + b 6 ≡ start_offset p extents 6 + (b 7 + b 6) =
        omega arith in
      let rounded = ap (align p) order in
      omega (arith, one, other, seventh, eighth, first, second, rounded)
