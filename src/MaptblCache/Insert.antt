-- ===== src/MaptblCache/Insert.antt =====
-- add_leb2peb_pair on a fragment with room refines the insertion into a sorted list.
use ssdfs_tools.Prelude.{
  ℕ, zero, suc, ◌+◌, ◌*◌, ◌^◌, ◌<◌, ◌≡◌, refl, sym, ap, ◌∙◌, subst, ◌==◌, none, if◌then◌else◌, List,
  ◌∷◌, ◌++◌, length, window, Outcome, ok, arith,
}
use ssdfs_tools.LittleEndian.{le_value}
use ssdfs_tools.LittleEndian.Windows.{length-drop, window_prefix}
use ssdfs_tools.MaptblCache.{
  pairs_per_fragment, magic_key, start_leb, end_leb, Entry, Added, add_leb2peb_pair,
}
use ssdfs_tools.MaptblCache.Layout.{
  key, pairs, states, magic, compose, IsEntry, AllEntries, IsFragment, length-compose,
}
use ssdfs_tools.MaptblCache.Find.{NoneAbove, AllAbove, AllEntries-append}
use ssdfs_tools.MaptblCache.Put.{first_leb, last_leb, length-first_leb, length-last_leb}
use ssdfs_tools.MaptblCache.Stamp.{
  stamp, items_count-stamp, bytes_count-stamp, start_leb-stamp, end_leb-stamp, length-stamp,
  magic_key-stamp,
}
use ssdfs_tools.MaptblCache.Add.{
  sum, sum_all, bound, room, before, after, remaining, remaining_size, added, succeeds_there,
}
use ssdfs_tools.MaptblCache.Order.{insert_sorted, IsSorted, where_to_insert}

-- What is counted as the bytes of a fragment with a number of entries.
abbrev pub used : ℕ → ℕ
used zero = 0
used (suc n) = 36 + suc n * 20

-- The call succeeds, and leaves a page with the entries whose header has their first and last LEB.
pub record IsAdded (page_size : ℕ) (before after : List Entry) (old : List ℕ)
    (answer : Outcome Added) : Type 0 where
  pub added : Added
  pub succeeds : answer ≡ ok added
  pub fragment : IsFragment page_size after added.fragment
  pub moves_none : added.moving ≡ none
  pub bytes : used (length before) + added.added_bytes ≡ used (length after)
  pub same_magic : magic_key added.fragment ≡ magic_key old
  pub starts : start_leb added.fragment ≡ le_value (first_leb after)
  pub ends : end_leb added.fragment ≡ le_value (last_leb after)

counted : (n : ℕ) → used n + ((if n == 0 then 36 else 0) + 20) ≡ used (suc n)
counted zero = omega arith
counted (suc n) = grind arith

-- A fragment under a header with the first and the last of its entries, and their number.
module _ (page_size n : ℕ) (head rest : List ℕ) (es : List Entry) (head_size : length head ≡ 32)
    (count : length es ≡ n + 1) (good : AllEntries es) (fits : 36 + (n + 1) * 20 < 2 ^ 16) where
  abbrev stamped : List ℕ
  stamped = stamp head (first_leb es) (last_leb es) (n + 1)

  tail : List ℕ
  tail = pairs es ++ (magic ++ (states es ++ rest))

  first_fits : length (first_leb es) ≡ 8
  first_fits = length-first_leb n es (omega (arith, count)) good

  last_fits : length (last_leb es) ≡ 8
  last_fits = length-last_leb n es (omega (arith, count)) good

  stamped_size : length stamped ≡ 32
  stamped_size =
      length-stamp head (first_leb es) (last_leb es) tail (n + 1) head_size first_fits last_fits

  stamp-IsFragment :
      length head + 16 * length es + 4 + 4 * length es + length rest ≡ page_size
      → IsFragment page_size es (compose stamped rest es)
  unfolding tail
  stamp-IsFragment total = record {
    head = stamped;
    rest = rest;
    form = refl;
    head_size = stamped_size;
    size = omega (arith, length-compose stamped rest es good, stamped_size, head_size, total);
    counts =
        items_count-stamp head (first_leb es) (last_leb es) tail (n + 1) head_size first_fits
          last_fits (omega (arith, fits))
        ∙ sym count;
    counts_bytes =
        bytes_count-stamp head (first_leb es) (last_leb es) tail (n + 1) head_size first_fits
          last_fits fits
        ∙ ap (λ k. 36 + k * 20) (sym count);
    entries = good;
  }

  same_magic_there : magic_key (compose stamped rest es) ≡ le_value (window 4 2 head)
  unfolding tail
  same_magic_there =
      magic_key-stamp head (first_leb es) (last_leb es) tail (n + 1) head_size first_fits last_fits

  starts_there : start_leb (compose stamped rest es) ≡ le_value (first_leb es)
  unfolding tail
  starts_there =
      start_leb-stamp head (first_leb es) (last_leb es) tail (n + 1) head_size first_fits last_fits

  ends_there : end_leb (compose stamped rest es) ≡ le_value (last_leb es)
  unfolding tail
  ends_there =
      end_leb-stamp head (first_leb es) (last_leb es) tail (n + 1) head_size first_fits last_fits

module _ (page_size : ℕ) (small : page_size < 2 ^ 16) (fragment : List ℕ) (new : Entry)
    (fine : IsEntry new) (xs ys : List Entry) (f : IsFragment page_size (xs ++ ys) fragment)
    (free : length (xs ++ ys) < pairs_per_fragment page_size) where
  abbrev all : List Entry
  all = xs ++ (new ∷ ys)

  abbrev n : ℕ
  n = length xs + length ys

  all_fine : AllEntries all
  all_fine =
      AllEntries-append xs (new ∷ ys) (before page_size fragment new fine xs ys f free)
        (fine, after page_size fragment new fine xs ys f free)

  count : length all ≡ n + 1
  count = omega (arith, sum_all page_size fragment new fine xs ys f free)

  fits : 36 + (n + 1) * 20 < 2 ^ 16
  fits = omega (arith, bound page_size fragment new fine xs ys f free, small)

  abbrev rest : List ℕ
  rest = remaining page_size fragment new fine xs ys f free

  total : length f.head + 16 * length all + 4 + 4 * length all + length rest ≡ page_size
  total =
      let old : length (compose f.head f.rest (xs ++ ys)) ≡ page_size =
        ap length (sym f.form) ∙ f.size in
      omega (
        arith,
        old,
        length-compose f.head f.rest (xs ++ ys) f.entries,
        count,
        sum page_size fragment new fine xs ys f free,
        f.head_size,
        room page_size fragment new fine xs ys f free,
        remaining_size page_size fragment new fine xs ys f free,
        length-drop 16 f.rest,
      )

  abbrev behind_head : List ℕ
  behind_head = pairs (xs ++ ys) ++ (magic ++ (states (xs ++ ys) ++ f.rest))

  is_added :
      NoneAbove (key new) xs
      → AllAbove (key new) ys
      → IsAdded page_size (xs ++ ys) all fragment (add_leb2peb_pair page_size fragment new)
  is_added below above = record {
    added = added page_size fragment new fine xs ys f free;
    succeeds = succeeds_there page_size fragment new fine xs ys f free below above;
    fragment = stamp-IsFragment page_size n f.head rest all f.head_size count all_fine fits total;
    moves_none = refl;
    bytes =
        let all_counted : suc n ≡ length all = omega (arith, count) in
        ap (λ k. used k + ((if n == 0 then 36 else 0) + 20))
          (sum page_size fragment new fine xs ys f free)
        ∙ counted n
        ∙ ap used all_counted;
    same_magic =
        same_magic_there page_size n f.head rest all f.head_size count all_fine fits
        ∙ sym (
            ap magic_key f.form
            ∙ ap le_value (window_prefix f.head behind_head 4 2 (omega (arith, f.head_size))));
    starts = starts_there page_size n f.head rest all f.head_size count all_fine fits;
    ends = ends_there page_size n f.head rest all f.head_size count all_fine fits;
  }

-- On a page below 64 KB that holds a sorted sequence of entries and has room for one more, the call
-- succeeds and moves no entry out; the page then holds, in the layout of a fragment, the sequence
-- with the new entry inserted behind the entries whose LEBs are not above its own. The header counts
-- the entries and their bytes, has the first and the last LEB and keeps its magic number, and the
-- bytes added to the cache are those by which the fragment has grown.
pub add_leb2peb_pair-insert_sorted :
    (page_size : ℕ) (fragment : List ℕ) (es : List Entry) (new : Entry)
    → page_size < 2 ^ 16
    → IsFragment page_size es fragment
    → IsSorted es
    → IsEntry new
    → length es < pairs_per_fragment page_size
    → IsAdded page_size es (insert_sorted new es) fragment (add_leb2peb_pair page_size fragment new)
add_leb2peb_pair-insert_sorted page_size fragment es new small f sorted fine free =
    let place = where_to_insert new es sorted in
    subst
      (λ l.
        IsAdded page_size l (insert_sorted new es) fragment
          (add_leb2peb_pair page_size fragment new))
      (sym place.form)
      (subst
        (λ l.
          IsAdded page_size (place.left ++ place.right) l fragment
            (add_leb2peb_pair page_size fragment new))
        (sym place.inserted)
        (is_added page_size small fragment new fine place.left place.right
          (subst (λ l. IsFragment page_size l fragment) place.form f)
          (subst (λ l. length l < pairs_per_fragment page_size) place.form free) place.below
          place.above))
