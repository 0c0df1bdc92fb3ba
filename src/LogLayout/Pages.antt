-- ===== src/LogLayout/Pages.antt =====
-- The pages of a log against where its extents end, and against those of its metadata.
use native.Mathlib.Nat.{mul-div_cancel}
use ssdfs_tools.Prelude.{
  ℕ, zero, suc, ◌+◌, ◌-◌, ◌*◌, ◌/◌, ◌^◌, ◌<◌, ◌≤◌, ◌≡◌, refl, sym, ap, ◌∙◌, Bool, true, false, ltb,
  ◌==◌, Bool-cases, if◌then◌else◌, inl, inr, u32, ok, arith,
}
use ssdfs_tools.LogLayout.{
  Extent, Layout, log_page_size, inline_capacity, align, start_offset, payload_bytes, log_bytes,
  calculate_log_pages,
}
use ssdfs_tools.LogLayout.Align.{align_eq, align_bounds, align-align, align_zero, align_mono}
use ssdfs_tools.LogLayout.Order.{
  bytes_of, all_bytes, front, start, behind, extra, extra_large, extra_none, start_bounds,
  behind_bounds, footer_eq, IsOrdered, start_offset-IsOrdered,
}

module _ (p : ℕ) (some : 0 < p) (extents : ℕ → Extent)
    (small : (extents 0).offset + all_bytes extents + 9 * p < 2 ^ 32)
    (first : (extents 0).offset ≡ 0) where
  abbrev b : ℕ → ℕ
  b i = bytes_of extents i

  -- The bytes before the cache, in the order in which they are summed.
  abbrev summed : ℕ
  summed = u32 (u32 (u32 (b 0 + b 1) + b 2) + b 3)

  summed_eq : summed ≡ front p some extents small
  summed_eq = omega (arith, small, first)

  start_le : start p some extents small ≤ front p some extents small + p
  start_le =
      let s = align_bounds p some (front p some extents small) (omega (arith, small)) in
      omega (arith, s)

  -- The bytes up to the payload's end, with the test of the cache's size as an argument.
  abbrev filled : Bool → ℕ → ℕ
  filled large n = align p (u32 (align p (u32 ((if large then align p n else n) + b 4)) + b 5))

  filled_eq :
      (large : Bool)
      → ltb (inline_capacity p) (b 4) ≡ large
      → payload_bytes p extents ≡ filled large (front p some extents small)
  filled_eq large t =
      ap (filled (ltb (inline_capacity p) (b 4))) summed_eq
      ∙ ap (λ a. filled a (front p some extents small)) t

  abbrev from : ℕ
  from = start p some extents small

  large_eq : filled true (front p some extents small) ≡ align p (b 4) + behind p some extents small
  large_eq =
      let s = start_bounds p some extents small in
      let word : u32 (from + b 4) ≡ from + b 4 = omega (arith, s, small) in
      let cache = align_bounds p some (b 4) (omega (arith, small)) in
      let whole : align p (from + b 4) ≡ from + align p (b 4) =
        align-align p some (front p some extents small) (b 4) (omega (arith, small)) in
      let next : u32 (from + align p (b 4) + b 5) ≡ align p (b 4) + (from + b 5) =
        omega (arith, s, cache, small) in
      ap (λ a. align p (u32 (align p a + b 5))) word
      ∙ ap (λ a. align p (u32 (a + b 5))) whole
      ∙ ap (align p) next
      ∙ align-align p some (b 4) (from + b 5) (omega (arith, s, small))

  small_bounds :
      (behind p some extents small ≤ filled false (front p some extents small))
      × (filled false (front p some extents small) + b 6 + b 7 + b 8 ≤ all_bytes extents + 4 * p)
  small_bounds =
      let n : ℕ = front p some extents small in
      let word : u32 (n + b 4) ≡ n + b 4 = omega (arith, small) in
      let cache = align_bounds p some (n + b 4) (omega (arith, small)) in
      let more : from ≤ align p (n + b 4) =
        align_mono p some n (n + b 4) (omega arith) (omega (arith, small)) in
      let next : u32 (align p (n + b 4) + b 5) ≡ align p (n + b 4) + b 5 =
        omega (arith, cache, small) in
      let same : filled false n ≡ align p (align p (n + b 4) + b 5) =
        ap (λ a. align p (u32 (align p a + b 5))) word ∙ ap (align p) next in
      let least =
        align_mono p some (from + b 5) (align p (n + b 4) + b 5) (omega (arith, more))
          (omega (arith, cache, small)) in
      let most = align_bounds p some (align p (n + b 4) + b 5) (omega (arith, cache, small)) in
      (omega (arith, same, least), omega (arith, same, most, cache, first))

  -- The footer begins in the bytes of the payload.
  pub payload_reaches :
      (start_offset p extents 6 ≤ payload_bytes p extents)
      × (payload_bytes p extents + b 6 + b 7 + b 8 ≤ all_bytes extents + 4 * p)
  payload_reaches =
      let footer = footer_eq p some extents small in
      let s = start_bounds p some extents small in
      let t = behind_bounds p some extents small in
      elim (Bool-cases (ltb (inline_capacity p) (b 4))) [
        | inl y ↦
            let e : extra p some extents small ≡ b 4 = extra_large p some extents small y in
            let e' = ap (align p) e in
            let same = filled_eq true y in
            let cache = align_bounds p some (b 4) (omega (arith, small)) in
            (
              omega (arith, footer, same, large_eq, e'),
              omega (arith, same, large_eq, s, t, cache, first),
            )
        | inr n ↦
            let e : extra p some extents small ≡ 0 = extra_none p some extents small n in
            let e' = ap (align p) e ∙ align_zero p some (omega (arith, small)) in
            let same = filled_eq false n in
            let bounds = small_bounds in
            (omega (arith, footer, same, bounds, e'), omega (arith, same, bounds))
      ]

  -- The bytes of the log are whole pages, which reach behind the footer and the backups, as they
  -- are summed.
  pub log_bytes_pages :
      (log_bytes p extents ≡ log_bytes p extents / p * p)
      × (payload_bytes p extents + b 6 + b 7 + b 8 ≤ log_bytes p extents)
  log_bytes_pages =
      let reach = payload_reaches in
      let sum : ℕ = payload_bytes p extents + b 6 + b 7 + b 8 in
      let word : u32 (u32 (u32 (payload_bytes p extents + b 6) + b 7) + b 8) ≡ sum =
        omega (arith, reach, small, first) in
      let same : log_bytes p extents ≡ align p sum = ap (align p) word in
      let whole : align p sum ≡ (sum + (p - 1)) / p * p =
        align_eq p some sum (omega (arith, reach, small)) in
      let quotient : log_bytes p extents / p ≡ (sum + (p - 1)) / p =
        ap (λ a. a / p) (same ∙ whole) ∙ mul-div_cancel _ some in
      let bounds = align_bounds p some sum (omega (arith, reach, small)) in
      (same ∙ whole ∙ ap (λ a. a * p) (sym quotient), omega (arith, same, bounds))

-- The ends of the extents, in the order of the log.
module _ (p : ℕ) (extents : ℕ → Extent) (off : ℕ → ℕ) (order : IsOrdered p extents off) where
  before_footer :
      (i : ℕ)
      → i < 7
      → (i ≡ 4 → inline_capacity p < bytes_of extents 4)
      → off i + bytes_of extents i ≤ off 6 + bytes_of extents 6
  before_footer zero h large = omega (
    arith, order.header, order.bitmap, order.table, order.descriptors, order.cache_start,
    order.payload,
  )
  before_footer (suc zero) h large =
      omega (arith, order.bitmap, order.table, order.descriptors, order.cache_start, order.payload)
  before_footer (suc (suc zero)) h large =
      omega (arith, order.table, order.descriptors, order.cache_start, order.payload)
  before_footer (suc (suc (suc zero))) h large =
      omega (arith, order.descriptors, order.cache_start, order.payload)
  before_footer (suc (suc (suc (suc zero)))) h large =
      let c = order.cache (large refl) in omega (arith, c, order.payload)
  before_footer (suc (suc (suc (suc (suc zero))))) h large = omega (arith, order.payload)
  before_footer (suc (suc (suc (suc (suc (suc zero)))))) h large = omega arith
  before_footer (suc (suc (suc (suc (suc (suc (suc k))))))) h large = absurd (omega (arith, h))

-- The extents of a log without backups end in its pages.
abbrev pub EndsInside : (page_size : ℕ) → (ℕ → Extent) → (pages : ℕ) → Type 0
EndsInside page_size extents pages =
    (i : ℕ)
    → i < 7
    → (i ≡ 4 → inline_capacity page_size < bytes_of extents 4)
    → start_offset page_size extents i + bytes_of extents i ≤ pages * page_size

module _ (layout : Layout) (seg_type : ℕ) (extents : ℕ → Extent)
    (some : 0 < log_page_size layout seg_type)
    (small : (extents 0).offset + all_bytes extents + 9 * log_page_size layout seg_type < 2 ^ 32)
    (first : (extents 0).offset ≡ 0) where
  abbrev page_size : ℕ
  page_size = log_page_size layout seg_type

  -- calculate_log_pages counts enough pages: the extents up to the footer end in them, at the
  -- offsets of set_extent_start_offset. It returns when the bytes of the log fit into an erase
  -- block. A cache that fits behind the segment header is left out. The log begins at offset 0,
  -- the page size is not 0, and the bytes of the extents with nine pages are below 2^32.
  pub calculate_log_pages-EndsInside :
      log_bytes page_size extents ≤ layout.erase_size
      → (pages : ℕ) × (calculate_log_pages layout seg_type extents ≡ ok pages)
        × EndsInside page_size extents pages
  unfolding calculate_log_pages
  calculate_log_pages-EndsInside fits =
      let page : (page_size == 0) ≡ false = ground (arith, some) in
      let n : ltb layout.erase_size (log_bytes page_size extents) ≡ false = ground (arith, fits) in
      let whole = log_bytes_pages page_size some extents small first in
      let reach = payload_reaches page_size some extents small first in
      let order = start_offset-IsOrdered page_size some extents small in
      (
        log_bytes page_size extents / page_size,
        rw (page, n) refl,
        λ i h large.
            let e =
              before_footer page_size extents (start_offset page_size extents) order i h large in
            omega (arith, e, whole, reach),
      )
