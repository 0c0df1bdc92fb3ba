-- ===== src/MaptblCache/Fill.antt =====
-- A fragment as maptbl_cache_prepare_fragment makes it, and as a sequence of insertions fills it.
use ssdfs_tools.Prelude.{
  ℕ, suc, ◌+◌, ◌^◌, ◌<◌, ◌≤◌, ◌≡◌, refl, ap, ◌∙◌, false, Bool-cases, inl, inr, ltb, leb, List, [],
  ◌∷◌, ◌++◌, length, length-replicate, replicate, drop, u64_max, Outcome, ok, ◌>>=◌, arith,
}
use ssdfs_tools.LittleEndian.{le_bytes, store}
use ssdfs_tools.LittleEndian.Windows.{patch_over, length-drop}
use ssdfs_tools.Peb.{super_magic}
use ssdfs_tools.MaptblCache.{
  cache_magic, peb_state_magic, pairs_per_fragment, prepare_fragment, Entry, add_leb2peb_pair,
}
use ssdfs_tools.MaptblCache.Layout.{key, AllEntries, IsFragment}
use ssdfs_tools.MaptblCache.Order.{insert_sorted, IsSorted, insert_sorted-IsSorted}
use ssdfs_tools.MaptblCache.Insert.{add_leb2peb_pair-insert_sorted}

-- The header of an empty fragment.
abbrev pub empty_head : ℕ → List ℕ
empty_head sequence_id =
    le_bytes 4 super_magic
    ++ le_bytes 2 cache_magic
    ++ (1 ∷ 20 ∷ [])
    ++ le_bytes 2 sequence_id
    ++ le_bytes 2 0
    ++ le_bytes 2 0
    ++ le_bytes 2 36
    ++ le_bytes 8 u64_max
    ++ le_bytes 8 u64_max

-- A page that the outcome carries, and that holds the entries.
pub record Holds (page_size : ℕ) (es : List Entry) (answer : Outcome (List ℕ)) : Type 0 where
  pub page : List ℕ
  pub succeeds : answer ≡ ok page
  pub fragment : IsFragment page_size es page

-- An empty fragment.
abbrev pub empty_page : (page_size sequence_id : ℕ) → List ℕ
empty_page page_size sequence_id =
    (empty_head sequence_id ++ le_bytes 4 peb_state_magic) ++ drop 36 (replicate page_size 0)

pub prepare_fragment-empty_page :
    (page_size sequence_id : ℕ)
    → 36 ≤ page_size
    → prepare_fragment page_size sequence_id ≡ ok (empty_page page_size sequence_id)
unfolding prepare_fragment store
prepare_fragment-empty_page page_size sequence_id h =
    let zeros : List ℕ = replicate page_size 0 in
    let size : length zeros ≡ page_size = length-replicate page_size 0 in
    let fits : ltb (length zeros) 36 ≡ false = ground (arith, size) in
    let bytes : List ℕ = empty_head sequence_id ++ le_bytes 4 peb_state_magic in
    rw fits (ap ok (patch_over bytes zeros (omega (arith, size))))

pub empty_page-IsFragment :
    (page_size sequence_id : ℕ)
    → 36 ≤ page_size
    → IsFragment page_size [] (empty_page page_size sequence_id)
empty_page-IsFragment page_size sequence_id h =
    let zeros : List ℕ = replicate page_size 0 in
    let size : length zeros ≡ page_size = length-replicate page_size 0 in
    record {
      head = empty_head sequence_id;
      rest = drop 36 zeros;
      form = refl;
      head_size = refl;
      size = omega (arith, length-drop 36 zeros, size);
      counts = refl;
      counts_bytes = refl;
      entries = tt;
    }

-- Entries added one behind the other, and the same as insertions into a sorted sequence.
unfoldable pub add_all : (page_size : ℕ) → List ℕ → List Entry → Outcome (List ℕ)
add_all page_size fragment [] = ok fragment
add_all page_size fragment (e ∷ es) = do
  added ← add_leb2peb_pair page_size fragment e
  add_all page_size added.fragment es

unfoldable pub insert_all : (sorted arriving : List Entry) → List Entry
insert_all sorted [] = sorted
insert_all sorted (e ∷ es) = insert_all (insert_sorted e sorted) es

length-insert_sorted :
    (new : Entry) (es : List Entry) → length (insert_sorted new es) ≡ suc (length es)
unfolding insert_sorted
length-insert_sorted new [] = refl
length-insert_sorted new (e ∷ es) = elim (Bool-cases (leb (key e) (key new))) [
  | inl t ↦ rw t (ap suc (length-insert_sorted new es))
  | inr t ↦ rw t refl
]

-- A page below 64 KB that holds a sorted sequence takes any entries, in any order, as long as they
-- fit: all the calls succeed, and the page then holds the sequence with all of them inserted.
pub add_all-insert_all :
    (page_size : ℕ) (fragment : List ℕ) (sorted arriving : List Entry)
    → page_size < 2 ^ 16
    → IsFragment page_size sorted fragment
    → IsSorted sorted
    → AllEntries arriving
    → length sorted + length arriving ≤ pairs_per_fragment page_size
    → Holds page_size (insert_all sorted arriving) (add_all page_size fragment arriving)
unfolding add_all insert_all
add_all-insert_all page_size fragment sorted [] small f s fine fits = record {
  page = fragment;
  succeeds = refl;
  fragment = f;
}
add_all-insert_all page_size fragment sorted (e ∷ es) small f s fine fits =
    let step =
      add_leb2peb_pair-insert_sorted page_size fragment sorted e small f s fine.0
        (omega (arith, fits)) in
    let rest =
      add_all-insert_all page_size step.added.fragment (insert_sorted e sorted) es small
        step.fragment (insert_sorted-IsSorted e sorted s) fine.1
        (omega (arith, fits, length-insert_sorted e sorted)) in
    record {
      page = rest.page;
      succeeds =
          ap (λ m. m >>= λ added. add_all page_size added.fragment es) step.succeeds
          ∙ rest.succeeds;
      fragment = rest.fragment;
    }

pub insert_all-IsSorted :
    (sorted arriving : List Entry) → IsSorted sorted → IsSorted (insert_all sorted arriving)
unfolding insert_all
insert_all-IsSorted sorted [] s = s
insert_all-IsSorted sorted (e ∷ es) s =
    insert_all-IsSorted (insert_sorted e sorted) es (insert_sorted-IsSorted e sorted s)

-- What holds of the page behind the preparation and a number of insertions.
pub record IsFilled (page_size : ℕ) (es : List Entry) (answer : Outcome (List ℕ)) : Type 0 where
  pub holds : Holds page_size (insert_all [] es) answer
  pub sorted : IsSorted (insert_all [] es)

-- A fragment that is prepared in a page of at least 36 bytes and below 64 KB takes any entries that
-- fit, in any order: no call fails, and the page holds the entries sorted by their LEBs.
pub prepare_fragment-add_all :
    (page_size sequence_id : ℕ) (es : List Entry)
    → 36 ≤ page_size
    → page_size < 2 ^ 16
    → AllEntries es
    → length es ≤ pairs_per_fragment page_size
    → IsFilled page_size es
        (prepare_fragment page_size sequence_id >>= λ page. add_all page_size page es)
prepare_fragment-add_all page_size sequence_id es large small fine fits =
    let filled =
      add_all-insert_all page_size (empty_page page_size sequence_id) [] es small
        (empty_page-IsFragment page_size sequence_id large) tt fine (omega (arith, fits)) in
    record {
      holds = record {
        page = filled.page;
        succeeds =
            ap (λ m. m >>= λ page. add_all page_size page es)
              (prepare_fragment-empty_page page_size sequence_id large)
            ∙ filled.succeeds;
        fragment = filled.fragment;
      };
      sorted = insert_all-IsSorted [] es tt;
    }
