-- ===== src/MaptblCache/Tests.antt =====
-- Fragments of one to three entries: runs of the code, and instances of the theorems.
use ssdfs_tools.Prelude.{
  ℕ, zero, suc, ◌+◌, ◌≡◌, refl, List, [], ◌∷◌, ◌++◌, map, replicate, inl, Outcome, ok, ◌>>=◌, arith,
}
use ssdfs_tools.LittleEndian.{le_bytes, get_le, store, fetch, memmove}
use ssdfs_tools.MaptblCache.{
  Entry, Cache, pair_offset, items_count, bytes_count, start_leb, end_leb, add_leb2peb_pair,
  prepare_fragment, cache_leb2peb_pair, maptbl_cache_mkfs_prepare, prepare_fragments,
  maptbl_cache_prepare_fragment, find_fragment_index, find_from, insert_from, first_peb_state,
  peb_state_area, area_size, make_room, peb_state_area_size, item_index, shift_items, put_entry,
}
use ssdfs_tools.MaptblCache.Layout.{compose, IsEntry, IsFragment}
use ssdfs_tools.MaptblCache.Stamp.{stamp}
use ssdfs_tools.MaptblCache.Order.{insert_sorted}
use ssdfs_tools.MaptblCache.Insert.{IsAdded, add_leb2peb_pair-insert_sorted}
use ssdfs_tools.MaptblCache.Fill.{
  empty_head, empty_page, add_all, IsFilled, prepare_fragment-add_all,
}
use ssdfs_tools.MaptblCache.Pages.{IsPage}
use ssdfs_tools.MaptblCache.Append.{IsAppended, entry_of, cache_leb2peb_pair-append}
use ssdfs_tools.MaptblCache.Prepare.{
  empty_page-IsPage, IsPrepared, maptbl_cache_mkfs_prepare-IsPrepared,
}

abbrev three : Entry
three = entry_of 3 30

abbrev five : Entry
five = entry_of 5 50

three-IsEntry : IsEntry three
three-IsEntry = (refl, refl, ground arith)

five-IsEntry : IsEntry five
five-IsEntry = (refl, refl, ground arith)

-- A page with the entry of LEB 5, and as many bytes behind it.
abbrev page_of_five : ℕ → List ℕ
page_of_five more =
    compose (stamp (empty_head 0) (le_bytes 8 5) (le_bytes 8 5) 1) (replicate more 0) (five ∷ [])

page_of_five-IsFragment : IsFragment 100 (five ∷ []) (page_of_five 44)
page_of_five-IsFragment = record {
  head = stamp (empty_head 0) (le_bytes 8 5) (le_bytes 8 5) 1;
  rest = replicate 44 0;
  form = refl;
  head_size = refl;
  size = refl;
  counts = refl;
  counts_bytes = refl;
  entries = (five-IsEntry, tt);
}

add_leb2peb_pair-insert_sorted_example :
    IsAdded 100
      (five ∷ [])
      (insert_sorted three (five ∷ []))
      (page_of_five 44)
      (add_leb2peb_pair 100 (page_of_five 44) three)
add_leb2peb_pair-insert_sorted_example =
    add_leb2peb_pair-insert_sorted 100 (page_of_five 44) (five ∷ []) three (omega arith)
      page_of_five-IsFragment (tt, tt) three-IsEntry (omega arith)

prepare_fragment-add_all_example :
    IsFilled 100
      (five ∷ three ∷ [])
      (prepare_fragment 100 0 >>= λ page. add_all 100 page (five ∷ three ∷ []))
prepare_fragment-add_all_example =
    prepare_fragment-add_all 100 0 (five ∷ three ∷ []) (omega arith) (omega arith)
      (five-IsEntry, (three-IsEntry, tt)) (omega arith)

-- A fragment of one entry that is full, and an empty one.
abbrev two_pages : Cache
two_pages = record { page_size = 56; fragments = page_of_five 0 ∷ empty_page 56 1 ∷ []; bytes = 56 }

page_of_five-IsPage : IsPage 56 (five ∷ []) (page_of_five 0)
page_of_five-IsPage = record {
  layout = record {
    head = stamp (empty_head 0) (le_bytes 8 5) (le_bytes 8 5) 1;
    rest = [];
    form = refl;
    head_size = refl;
    size = refl;
    counts = refl;
    counts_bytes = refl;
    entries = (five-IsEntry, tt);
  };
  sorted = (tt, tt);
  magic = refl;
  starts = refl;
  ends = refl;
}

cache_leb2peb_pair-append_example :
    IsAppended two_pages
      (page_of_five 0 ∷ [])
      []
      ([] ++ (entry_of 9 90 ∷ []))
      (cache_leb2peb_pair two_pages 9 90)
cache_leb2peb_pair-append_example =
    cache_leb2peb_pair-append two_pages (page_of_five 0 ∷ []) [] (empty_page 56 1) [] 9 90 refl
      (omega arith) (omega arith) (omega arith)
      (
        record {
          es = five ∷ [];
          page = page_of_five-IsPage;
          size = refl;
          filled = omega arith;
          above = omega arith;
        },
        tt,
      )
      (empty_page-IsPage 56 1 (omega arith)) (omega arith) (inl refl)

-- The fragments before the preparation may be anything.
abbrev fresh : Cache
fresh = record { page_size = 100; fragments = (7 ∷ []) ∷ [] ∷ []; bytes = 0 }

maptbl_cache_mkfs_prepare-IsPrepared_example : IsPrepared fresh (maptbl_cache_mkfs_prepare fresh)
maptbl_cache_mkfs_prepare-IsPrepared_example =
    maptbl_cache_mkfs_prepare-IsPrepared fresh (omega arith) (omega arith)

-- What the header of a fragment says, and the LEBs of its pairs.
abbrev lebs_from : ℕ → ℕ → List ℕ → List ℕ
lebs_from zero i f = []
lebs_from (suc n) i f = get_le 8 (pair_offset i) f ∷ lebs_from n (i + 1) f

abbrev view : List ℕ → List ℕ
view f = items_count f ∷ start_leb f ∷ end_leb f ∷ bytes_count f ∷ lebs_from (items_count f) 0 f

abbrev register : List ℕ → Cache → Outcome (List (List ℕ))
register [] cache = ok (map view cache.fragments)
register (leb_id ∷ lebs) cache = cache_leb2peb_pair cache leb_id 70 >>= register lebs

abbrev views : List ℕ → Outcome (List (List ℕ))
views lebs = maptbl_cache_mkfs_prepare fresh >>= register lebs

fills_in_order :
    views (7 ∷ 9 ∷ 8 ∷ 11 ∷ [])
    ≡ ok ((3 ∷ 7 ∷ 9 ∷ 96 ∷ 7 ∷ 8 ∷ 9 ∷ []) ∷ (1 ∷ 11 ∷ 11 ∷ 56 ∷ 11 ∷ []) ∷ [])
unfolding maptbl_cache_mkfs_prepare prepare_fragments maptbl_cache_prepare_fragment prepare_fragment
    store fetch memmove cache_leb2peb_pair find_fragment_index find_from insert_from
    add_leb2peb_pair first_peb_state peb_state_area area_size make_room peb_state_area_size
    item_index shift_items put_entry
fills_in_order = refl

-- A LEB amid those of a full fragment: the fragment counts four entries, and 116 bytes in a page of
-- 100, and its last LEB is what lies behind the pairs.
amid_a_full_fragment :
    views (7 ∷ 9 ∷ 11 ∷ 8 ∷ [])
    ≡ ok (
        (4 ∷ 7 ∷ 18374689783799828563 ∷ 116 ∷ 7 ∷ 8 ∷ 9 ∷ 18374689783799828563 ∷ [])
        ∷ (1 ∷ 11 ∷ 11 ∷ 56 ∷ 11 ∷ [])
        ∷ [])
unfolding maptbl_cache_mkfs_prepare prepare_fragments maptbl_cache_prepare_fragment prepare_fragment
    store fetch memmove cache_leb2peb_pair find_fragment_index find_from insert_from
    add_leb2peb_pair first_peb_state peb_state_area area_size make_room peb_state_area_size
    item_index shift_items put_entry
amid_a_full_fragment = refl

-- A LEB below the first one of a full fragment goes to the next fragment.
below_a_full_fragment :
    views (7 ∷ 9 ∷ 11 ∷ 3 ∷ [])
    ≡ ok ((3 ∷ 7 ∷ 11 ∷ 96 ∷ 7 ∷ 9 ∷ 11 ∷ []) ∷ (1 ∷ 3 ∷ 3 ∷ 56 ∷ 3 ∷ []) ∷ [])
unfolding maptbl_cache_mkfs_prepare prepare_fragments maptbl_cache_prepare_fragment prepare_fragment
    store fetch memmove cache_leb2peb_pair find_fragment_index find_from insert_from
    add_leb2peb_pair first_peb_state peb_state_area area_size make_room peb_state_area_size
    item_index shift_items put_entry
below_a_full_fragment = refl
