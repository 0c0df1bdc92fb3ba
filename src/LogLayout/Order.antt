-- ===== src/LogLayout/Order.antt =====
-- The extents of a log one behind the other.
use ssdfs_tools.Prelude.{
  ℕ, ◌+◌, ◌-◌, ◌*◌, ◌/◌, ◌^◌, ◌<◌, ◌≤◌, ◌≡◌, refl, sym, ap, ◌∙◌, true, false, ltb, leb, ◌==◌,
  Bool-cases, if◌then◌else◌, inl, inr, u32, ok, arith,
}
use ssdfs_tools.LogLayout.{
  Extent, Layout, log_page_size, inline_capacity, align, start_offset, front_offset,
  set_extent_start_offset,
}
use ssdfs_tools.LogLayout.Align.{align_eq, align_bounds, align_add}

abbrev pub bytes_of : (ℕ → Extent) → ℕ → ℕ
bytes_of extents i = (extents i).bytes_count

-- The bytes of all extents.
abbrev pub all_bytes : (ℕ → Extent) → ℕ
all_bytes extents =
    bytes_of extents 0
    + bytes_of extents 1
    + bytes_of extents 2
    + bytes_of extents 3
    + bytes_of extents 4
    + bytes_of extents 5
    + bytes_of extents 6
    + bytes_of extents 7
    + bytes_of extents 8

-- Where the extents begin, against the ends of those before them. A cache that fits behind the
-- segment header has no room of its own.
pub record IsOrdered (page_size : ℕ) (extents : ℕ → Extent) (offset : ℕ → ℕ) : Type 0 where
  pub header : offset 0 + bytes_of extents 0 ≤ offset 1
  pub bitmap : offset 1 + bytes_of extents 1 ≤ offset 2
  pub table : offset 2 + bytes_of extents 2 ≤ offset 3
  pub descriptors : offset 3 + bytes_of extents 3 ≤ offset 4
  pub cache :
      inline_capacity page_size < bytes_of extents 4 → offset 4 + bytes_of extents 4 ≤ offset 5
  pub cache_start : offset 4 ≤ offset 5
  pub payload : offset 5 + bytes_of extents 5 ≤ offset 6
  pub footer : offset 6 + bytes_of extents 6 ≤ offset 7
  pub footer_table : offset 6 + bytes_of extents 6 ≤ offset 8

module _ (p : ℕ) (some : 0 < p) (extents : ℕ → Extent)
    (small : (extents 0).offset + all_bytes extents + 9 * p < 2 ^ 32) where
  abbrev b : ℕ → ℕ
  b i = bytes_of extents i

  -- The end of the block descriptors.
  abbrev pub front : ℕ
  front = (extents 0).offset + b 3 + b 2 + b 1 + b 0

  -- What the cache takes of the room behind them.
  pub extra : ℕ
  extra = if ltb (inline_capacity p) (b 4) then b 4 else 0

  pub extra_large : ltb (inline_capacity p) (b 4) ≡ true → extra ≡ b 4
  unfolding extra
  extra_large y = rw y refl

  pub extra_none : ltb (inline_capacity p) (b 4) ≡ false → extra ≡ 0
  unfolding extra
  extra_none n = rw n refl

  pub extra_bound : extra ≤ b 4
  unfolding extra
  extra_bound = ground arith

  pub with_extra :
      (n : ℕ)
      → n + b 4 < 2 ^ 32
      → (if ltb (inline_capacity p) (b 4) then u32 (n + b 4) else n) ≡ n + extra
  unfolding extra
  with_extra n h = elim (Bool-cases (ltb (inline_capacity p) (b 4))) [
    | inl y ↦ rw y (omega (arith, h))
    | inr n' ↦ rw n' (omega arith)
  ]

  pub front_eq : (i : ℕ) → 4 ≤ i → front_offset extents i ≡ front
  front_eq i h =
      let a : leb 4 i ≡ true = ground (arith, h) in
      let c : leb 3 i ≡ true = ground (arith, h) in
      let d : leb 2 i ≡ true = ground (arith, h) in
      let e : leb 1 i ≡ true = ground (arith, h) in rw (a, c, d, e) (omega (arith, small))

  abbrev pub start : ℕ
  start = align p front

  pub start_pages : start ≡ (front + (p - 1)) / p * p
  start_pages = align_eq p some front (omega (arith, small))

  abbrev pub behind : ℕ
  behind = align p (start + b 5)

  pub start_bounds : (front ≤ start) × (start < front + p)
  start_bounds = align_bounds p some front (omega (arith, small))

  pub behind_bounds : (start + b 5 ≤ behind) × (behind < start + b 5 + p)
  behind_bounds =
      let s = start_bounds in align_bounds p some (start + b 5) (omega (arith, s, small))

  behind_pages : behind ≡ (start + b 5 + (p - 1)) / p * p
  behind_pages = let s = start_bounds in align_eq p some (start + b 5) (omega (arith, s, small))

  pub extra_bounds : (extra ≤ align p extra) × (align p extra < extra + p)
  extra_bounds = let e = extra_bound in align_bounds p some extra (omega (arith, e, small))

  -- The offsets of the cache, the payload and the footer.
  pub cache_eq : start_offset p extents 4 ≡ start
  cache_eq = ap (align p) (front_eq 4 (omega arith))

  pub payload_eq : start_offset p extents 5 ≡ start + align p extra
  payload_eq =
      let s = start_bounds in
      let e = extra_bound in
      ap (λ n. align p (if ltb (inline_capacity p) (b 4) then u32 (align p n + b 4) else align p n))
        (front_eq 5 (omega arith))
      ∙ ap (align p) (with_extra start (omega (arith, s, small)))
      ∙ ap (λ n. align p (n + extra)) start_pages
      ∙ align_add p some ((front + (p - 1)) / p) extra (omega (arith, start_pages, s, e, small))
      ∙ ap (λ n. n + align p extra) (sym start_pages)

  pub footer_eq : start_offset p extents 6 ≡ behind + align p extra
  footer_eq =
      let s = start_bounds in
      let t = behind_bounds in
      let e = extra_bound in
      let word : u32 (start + b 5) ≡ start + b 5 = omega (arith, s, small) in
      ap
        (λ n. align p (
          if ltb (inline_capacity p) (b 4)
          then u32 (align p (u32 (align p n + b 5)) + b 4)
          else align p (u32 (align p n + b 5))))
        (front_eq 6 (omega arith))
      ∙ ap
          (λ n.
            align p (if ltb (inline_capacity p) (b 4) then u32 (align p n + b 4) else align p n))
          word
      ∙ ap (align p) (with_extra behind (omega (arith, s, t, small)))
      ∙ ap (λ n. align p (n + extra)) behind_pages
      ∙ align_add p some ((start + b 5 + (p - 1)) / p) extra
          (omega (arith, behind_pages, s, t, e, small))
      ∙ ap (λ n. n + align p extra) (sym behind_pages)

  pub footer_bound : start_offset p extents 6 < front + b 4 + b 5 + 3 * p
  footer_bound =
      let s = start_bounds in
      let t = behind_bounds in
      let e = extra_bound in let x = extra_bounds in omega (arith, footer_eq, s, t, e, x)

  pub bitmap_backup_eq : start_offset p extents 7 ≡ align p (start_offset p extents 6 + b 6)
  bitmap_backup_eq =
      let f = footer_bound in
      let word : u32 (start_offset p extents 6 + b 6) ≡ start_offset p extents 6 + b 6 =
        omega (arith, f, small) in
      ap (align p) word

  pub table_backup_eq : start_offset p extents 8 ≡ align p (start_offset p extents 6 + b 7 + b 6)
  table_backup_eq =
      let f = footer_bound in
      let word : u32 (u32 (start_offset p extents 6 + b 7) + b 6)
          ≡ start_offset p extents 6 + b 7 + b 6 =
        omega (arith, f, small) in
      ap (align p) word

  pub start_offset-IsOrdered : IsOrdered p extents (start_offset p extents)
  start_offset-IsOrdered =
      let s = start_bounds in
      let t = behind_bounds in
      let x = extra_bounds in
      let f = footer_bound in
      let seventh =
        align_bounds p some (start_offset p extents 6 + b 6) (omega (arith, f, small)) in
      let eighth =
        align_bounds p some (start_offset p extents 6 + b 7 + b 6) (omega (arith, f, small)) in
      record {
        header = omega (arith, small);
        bitmap = omega (arith, small);
        table = omega (arith, small);
        descriptors = omega (arith, cache_eq, s, small);
        cache = λ large.
            let y : ltb (inline_capacity p) (b 4) ≡ true = ground (arith, large) in
            let whole : extra ≡ b 4 = unfold extra in rw y refl in
            omega (arith, cache_eq, payload_eq, x, whole);
        cache_start = omega (arith, cache_eq, payload_eq);
        payload = omega (arith, payload_eq, footer_eq, t);
        footer = omega (arith, bitmap_backup_eq, seventh);
        footer_table = omega (arith, table_backup_eq, eighth);
      }

-- What set_extent_start_offset does to each extent of a log.
pub record IsPlaced (layout : Layout) (seg_type : ℕ) (extents : ℕ → Extent) : Type 0 where
  pub sets :
      (i : ℕ)
      → i < 9
      → set_extent_start_offset layout seg_type extents i
        ≡ ok (λ k.
          if k == i
          then record (extents i) {
            offset = start_offset (log_page_size layout seg_type) extents i;
          }
          else extents k)
  pub ordered :
      IsOrdered
        (log_page_size layout seg_type)
        extents
        (start_offset (log_page_size layout seg_type) extents)

-- set_extent_start_offset sets the offset of each of the nine extents of a log and changes no
-- other one, and with these offsets no extent begins before the end of the one before it, in the
-- order of the enumeration. Two pairs are left out: a cache that fits behind the segment header
-- and the payload, and the two backups. The page size is not 0, and the bytes of the extents with
-- nine pages are below 2^32.
pub set_extent_start_offset-IsPlaced :
    (layout : Layout) (seg_type : ℕ) (extents : ℕ → Extent)
    → 0 < log_page_size layout seg_type
    → (extents 0).offset + all_bytes extents + 9 * log_page_size layout seg_type < 2 ^ 32
    → IsPlaced layout seg_type extents
unfolding set_extent_start_offset
set_extent_start_offset-IsPlaced layout seg_type extents some small = record {
  sets = λ i h.
      let known : ltb 8 i ≡ false = ground (arith, h) in
      let page : (log_page_size layout seg_type == 0) ≡ false = ground (arith, some) in
      rw (known, page) refl;
  ordered = start_offset-IsOrdered (log_page_size layout seg_type) some extents small;
}
