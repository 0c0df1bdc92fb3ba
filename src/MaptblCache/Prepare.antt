-- ===== src/MaptblCache/Prepare.antt =====
-- maptbl_cache_mkfs_prepare: every fragment becomes an empty page.
use ssdfs_tools.Prelude.{
  ℕ, suc, ◌+◌, ◌<◌, ◌≤◌, ◌≡◌, refl, ap, false, leb, List, [], ◌∷◌, length, u16_max, Outcome, ok,
  arith,
}
use ssdfs_tools.MaptblCache.{
  Cache, maptbl_cache_prepare_fragment, prepare_fragments, maptbl_cache_mkfs_prepare,
}
use ssdfs_tools.MaptblCache.Pages.{IsPage}
use ssdfs_tools.MaptblCache.Fill.{empty_page, empty_page-IsFragment, prepare_fragment-empty_page}

pub empty_page-IsPage :
    (page_size sequence_id : ℕ)
    → 36 ≤ page_size
    → IsPage page_size [] (empty_page page_size sequence_id)
empty_page-IsPage page_size sequence_id h = record {
  layout = empty_page-IsFragment page_size sequence_id h;
  sorted = tt;
  magic = refl;
  starts = refl;
  ends = refl;
}

-- Empty pages.
abbrev pub AllEmpty : (page_size : ℕ) → List (List ℕ) → Type 0
AllEmpty page_size [] = Unit
AllEmpty page_size (f ∷ fs) = IsPage page_size [] f × AllEmpty page_size fs

pub record ArePrepared (page_size count : ℕ) (answer : Outcome (List (List ℕ))) : Type 0 where
  pub pages : List (List ℕ)
  pub succeeds : answer ≡ ok pages
  pub same_count : length pages ≡ count
  pub empty : AllEmpty page_size pages

prepare_fragments-ArePrepared :
    (cache : Cache) (i : ℕ) (fs : List (List ℕ))
    → 36 ≤ cache.page_size
    → i + length fs ≤ length cache.fragments
    → ArePrepared cache.page_size (length fs) (prepare_fragments cache i fs)
unfolding prepare_fragments maptbl_cache_prepare_fragment
prepare_fragments-ArePrepared cache i [] h fits = record {
  pages = [];
  succeeds = refl;
  same_count = refl;
  empty = tt;
}
prepare_fragments-ArePrepared cache i (f ∷ fs) h fits =
    let rest = prepare_fragments-ArePrepared cache (i + 1) fs h (omega (arith, fits)) in
    let valid : leb (length cache.fragments) i ≡ false = ground (arith, fits) in
    record {
      pages = empty_page cache.page_size i ∷ rest.pages;
      succeeds = rw (valid, prepare_fragment-empty_page cache.page_size i h, rest.succeeds) refl;
      same_count = ap suc rest.same_count;
      empty = (empty_page-IsPage cache.page_size i h, rest.empty);
    }

-- The cache behind the preparation.
pub record IsPrepared (cache : Cache) (answer : Outcome Cache) : Type 0 where
  pub pages : List (List ℕ)
  pub succeeds :
      answer ≡ ok (record { page_size = cache.page_size; fragments = pages; bytes = cache.bytes })
  pub same_count : length pages ≡ length cache.fragments
  pub empty : AllEmpty cache.page_size pages

-- With less than 2^16 - 1 fragments of at least 36 bytes the preparation succeeds: it keeps the number
-- of the fragments and the count of bytes, and every fragment is an empty page, whatever it was before.
pub maptbl_cache_mkfs_prepare-IsPrepared :
    (cache : Cache)
    → 36 ≤ cache.page_size
    → length cache.fragments < u16_max
    → IsPrepared cache (maptbl_cache_mkfs_prepare cache)
unfolding maptbl_cache_mkfs_prepare
maptbl_cache_mkfs_prepare-IsPrepared cache h few =
    let answer = prepare_fragments-ArePrepared cache 0 cache.fragments h (omega arith) in
    let valid : leb u16_max (length cache.fragments) ≡ false = ground arith in
    record {
      pages = answer.pages;
      succeeds = rw (valid, answer.succeeds) refl;
      same_count = answer.same_count;
      empty = answer.empty;
    }
