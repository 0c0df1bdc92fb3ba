-- ===== src/SegBmap/Alloc.antt =====
-- What the callers of SET_FIRST_CLEAN_ITEM_IN_FRAGMENT may rely on, and what they may not.
use ssdfs_tools.Prelude.{
  ℕ, suc, ◌+◌, ◌-◌, ◌*◌, ◌/◌, ◌%◌, ◌<◌, ◌≤◌, ◌≡◌, sym, ◌∙◌, ◌⊎◌, inl, inr, true, Bool-cases, ltb,
  leb, lt→ltb, load-eq-get_or, ◌>>=◌, none, List, length, Outcome, ok, ok-injective, ap, subst, bug,
  arith,
}
use ssdfs_tools.SegBmap.{
  FragmentHeader, Search, seg_clean, search_bytes, set_first_clean_item_in_fragment,
}
use ssdfs_tools.Bitmap.{find_first_item_in_byte}
use ssdfs_tools.SegBmap.Found.{IsBytes, SetItem, Found, NotFound, seg_state}
use ssdfs_tools.SegBmap.Scan.{
  PassesGuards, IsSearchable, enters, ranges-near, search_lo, search_hi, set_first_clean_item_lem,
}

-- What a reported segment is.
pub record Reported (hdr : FragmentHeader) (fragment : List ℕ) (max_item state : ℕ) (r : Search)
    : Type 0 where
  pub item : ℕ
  pub number : r.found_seg ≡ hdr.start_item + item
  pub below_max : r.found_seg < max_item
  pub below_end : r.found_seg < (max_item + 1) / 16 * 16
  pub clean : seg_state fragment item ≡ seg_clean
  pub in_fragment : item < 2 * length fragment
  pub set_item : SetItem fragment r.fragment item state

module _ (hdr : FragmentHeader) (fragment : List ℕ) (start max_item page_size state before : ℕ)
    (valid : IsSearchable hdr fragment start max_item page_size) (bytes : IsBytes fragment)
    (fits : state ≤ 15) where
  Found-Reported :
      (r : Search) (result : Outcome Search)
      → Found fragment hdr.start_item max_item state
          (search_lo hdr start)
          (search_hi hdr max_item)
          result
      → result ≡ ok r
      → r.code ≡ none
      → Reported hdr fragment max_item state r
  Found-Reported r result f e c = elim (Bool-cases (leb max_item (hdr.start_item + f.item))) [
    | inl beyond ↦
        let q = ok-injective (sym e ∙ rw beyond at f.returns) in cc (sym c ∙ ap (λ s. s.code) q)
    | inr within ↦
        let q = ok-injective (sym e ∙ rw within at f.returns) in
        let number : r.found_seg ≡ hdr.start_item + f.item = ap (λ s. s.found_seg) q in
        record {
          item = f.item;
          number = number;
          below_max = ground arith;
          below_end = omega (arith, number, f.is_first.below);
          clean = f.is_first.clean;
          in_fragment = omega (arith, f.is_first.below);
          set_item = subst (λ s. SetItem fragment s.fragment f.item state) (sym q) f.set_item;
        }
  ]

  -- A segment that is reported with the code 0 was clean and is now in the new state, it lies below
  -- `max_item`, and below the last multiple of 16 that is at most `max_item + 1`.
  pub reported_lem :
      (r : Search)
      → set_first_clean_item_in_fragment hdr fragment start max_item page_size state before ≡ ok r
      → r.code ≡ none
      → Reported hdr fragment max_item state r
  reported_lem r e c =
      dispatch (
        set_first_clean_item_lem hdr fragment start max_item page_size state before valid bytes
          fits)
    where
      result : Outcome Search
      result = set_first_clean_item_in_fragment hdr fragment start max_item page_size state before

      dispatch :
          Found fragment hdr.start_item max_item state
              (search_lo hdr start)
              (search_hi hdr max_item)
              result
            ⊎ NotFound fragment (search_lo hdr start) (search_hi hdr max_item) result
          → Reported hdr fragment max_item state r
      dispatch (inl f) = Found-Reported r result f e c
      dispatch (inr n) = cc (sym c ∙ ap (λ s. s.code) (ok-injective (sym e ∙ n.1)))

search_bytes-abort :
    (first max_item state rounds index off : ℕ) (fragment : List ℕ)
    → index < length fragment
    → 2 < off
    → search_bytes first max_item state (suc rounds) index off fragment ≡ bug
unfolding search_bytes find_first_item_in_byte
search_bytes-abort first max_item state rounds index off fragment in_range far =
    let late : ltb 2 off ≡ true = lt→ltb _ _ far in
    rw (load-eq-get_or fragment index 0 in_range) (rw (late, ◌>>=◌))

-- ALIGNED_START_ITEM shifts by the bits of a state, and so aligns to 16 segments where a byte has
-- two. A search that passes the guards and starts 3 to 15 segments behind a multiple of 16 inside
-- the fragment aborts by the BUG_ON of FIND_FIRST_ITEM_IN_BYTE.
pub misaligned_start_aborts :
    (hdr : FragmentHeader) (fragment : List ℕ) (start max_item page_size state before : ℕ)
    → PassesGuards hdr fragment start max_item page_size
    → hdr.start_item ≤ start / 16 * 16
    → (start / 16 * 16 - hdr.start_item) / 2 < search_hi hdr max_item / 2
    → 2 < start % 16
    → set_first_clean_item_in_fragment hdr fragment start max_item page_size state before ≡ bug
misaligned_start_aborts hdr fragment start max_item page_size state before guards near inside off =
    rw
      (
        enters hdr fragment start max_item page_size state before guards,
        ranges-near hdr fragment start max_item page_size state before guards (ground arith),
      )
      (aborts (search_hi hdr max_item / 2) _ (omega arith) (omega arith))
  where
    aborts :
        (end index : ℕ)
        → index < end
        → index < length fragment
        → search_bytes hdr.start_item max_item state (end - index) index (start % 16) fragment ≡ bug
    aborts end index p q =
        let e : end - index ≡ suc (end - index - 1) = omega arith in
        rw e (
          search_bytes-abort hdr.start_item max_item state (end - index - 1) index (start % 16)
            fragment q off)
