-- ===== src/LebToPeb/Tests.antt =====
-- A portion of six LEBs over two stripes of three PEBs: runs of the code, and instances of the
-- theorems.
use ssdfs_tools.Prelude.{
  ℕ, ◌*◌, ◌≡◌, refl, Bool, true, false, List, [], ◌∷◌, ltb, u16_max, u64_max, Outcome, ok, ◌>>=◌,
  Ensures, arith,
}
use ssdfs_tools.LittleEndian.{store, fetch, memmove}
use ssdfs_tools.MaptblCache.{
  Cache, cache_leb2peb_pair, maptbl_cache_mkfs_prepare, prepare_fragments, prepare_fragment,
  maptbl_cache_prepare_fragment, find_fragment_index, find_from, insert_from, first_peb_state,
  peb_state_area, area_size, make_room, peb_state_area_size, item_index, shift_items, put_entry,
  add_leb2peb_pair,
}
use ssdfs_tools.LebToPeb.{
  Layout, LebPage, PebPage, Tables, LebPlace, PebContent, Mapping, get_lebtbl_fragment,
  get_stripe_index, all_set, skip_full_words, skip_used_pebs, find_unused_peb, define_peb_as_used,
  define_leb_as_mapped, define_peb_index_in_portion, meta2seg_type, seg2peb_type, map_leb2peb,
  map_segment_lebs2pebs,
}
use ssdfs_tools.LebToPeb.Unused.{IsSearched, find_unused_peb-IsSearched}
use ssdfs_tools.LebToPeb.Place.{IsPlace, get_lebtbl_fragment-IsPlace}
use ssdfs_tools.LebToPeb.Stripe.{IsStripe, get_stripe_index-IsStripe}
use ssdfs_tools.LebToPeb.Step.{IsLayout}
use ssdfs_tools.LebToPeb.Total.{IsReady, Outcomes, map_leb2peb-Outcomes}
use ssdfs_tools.LebToPeb.Injective.{IsInjective, map_leb2peb-IsInjective}
use ssdfs_tools.LebToPeb.Translate.{AreLebs}
use ssdfs_tools.LebToPeb.Segment.{IsMapped, map_segment_lebs2pebs-IsMapped}

abbrev layout : Layout
layout = record {
  seg_size = 16;
  erase_size = 4;
  page_size = 4096;
  maptbl_pebs = 1;
  portions_per_fragment = 1;
  stripes_per_portion = 2;
  lebs_per_portion = 6;
  lebtbl_portion_bytes = 4096;
}

-- The pages that a new volume has.
abbrev leb_page : LebPage
leb_page = record {
  magic = 0x4C74;
  start_leb = 0;
  lebs_count = 6;
  mapped_lebs = 0;
  migrating_lebs = 0;
  bytes_count = 56;
  descs = λ i. record { physical_index = u16_max; relation_index = u16_max };
}

abbrev peb_page : (stripe : ℕ) → (used : ℕ → Bool) → PebPage
peb_page stripe used = record {
  magic = 0x5074;
  start_peb = 3 * stripe;
  pebs_count = 3;
  last_selected_peb = 0;
  bytes_count = 312;
  used = used;
  dirty = λ k. false;
  descs = λ k. record { peb_type = 0; state = 0 };
}

abbrev new_tables : Tables
new_tables f p = record { lebs = λ g. leb_page; pebs = λ s. peb_page s (λ k. false) }

abbrev answer_of : Outcome (ℕ × Tables) → ℕ
answer_of (ok r) = r.0
answer_of _ = 0

third_leb : answer_of (map_leb2peb layout new_tables 2 3) ≡ 3
unfolding map_leb2peb get_lebtbl_fragment get_stripe_index all_set skip_full_words skip_used_pebs
    find_unused_peb define_peb_as_used define_leb_as_mapped define_peb_index_in_portion
    meta2seg_type seg2peb_type
third_leb = refl

-- The PEB in the place of the first bit that is not set.
second_peb : find_unused_peb (peb_page 0 (λ k. ltb k 2)) ≡ 2
unfolding find_unused_peb all_set skip_full_words skip_used_pebs
second_peb = refl

no_peb : find_unused_peb (peb_page 0 (λ k. true)) ≡ u16_max
unfolding find_unused_peb all_set skip_full_words skip_used_pebs
no_peb = refl

-- A segment of four LEBs, the third of which is not set, and the cache of a new volume.
abbrev segment : List PebContent
segment =
    record { leb_id = 0; peb_id = 0 }
    ∷ record { leb_id = 1; peb_id = 0 }
    ∷ record { leb_id = u64_max; peb_id = 0 }
    ∷ record { leb_id = 3; peb_id = 0 }
    ∷ []

abbrev new_cache : Cache
new_cache = record { page_size = 100; fragments = (7 ∷ []) ∷ [] ∷ []; bytes = 0 }

abbrev peb_ids : List PebContent → List ℕ
peb_ids [] = []
peb_ids (x ∷ xs) = x.peb_id ∷ peb_ids xs

abbrev mapped_ids : Outcome Mapping → List ℕ
mapped_ids (ok m) = peb_ids m.pebs
mapped_ids _ = []

mapped_segment :
    mapped_ids (
      maptbl_cache_mkfs_prepare new_cache >>= λ cache.
      map_segment_lebs2pebs layout 3 new_tables cache segment)
    ≡ 0 ∷ 1 ∷ 0 ∷ 3 ∷ []
unfolding map_segment_lebs2pebs map_leb2peb get_lebtbl_fragment get_stripe_index all_set
    skip_full_words skip_used_pebs find_unused_peb define_peb_as_used define_leb_as_mapped
    define_peb_index_in_portion meta2seg_type seg2peb_type maptbl_cache_mkfs_prepare
    prepare_fragments maptbl_cache_prepare_fragment prepare_fragment store fetch memmove
    cache_leb2peb_pair find_fragment_index find_from insert_from add_leb2peb_pair first_peb_state
    peb_state_area area_size make_room peb_state_area_size item_index shift_items put_entry
mapped_segment = refl

layout-IsLayout : IsLayout layout
layout-IsLayout = record {
  lebs = omega arith;
  fragment = omega arith;
  stripes = omega arith;
  segment = omega arith;
}

new_tables-IsInjective : IsInjective new_tables
new_tables-IsInjective = record {
  fit = λ f p s. omega arith;
  backed = λ f p g i named. absurd (named refl);
  apart = λ f p g i h j named same. absurd (named refl);
}

find_unused_peb-IsSearched_example :
    IsSearched (peb_page 0 (λ k. ltb k 2)) (find_unused_peb (peb_page 0 (λ k. ltb k 2)))
find_unused_peb-IsSearched_example =
    find_unused_peb-IsSearched (peb_page 0 (λ k. ltb k 2)) (omega arith)

get_lebtbl_fragment-IsPlace_example : Ensures (IsPlace layout 5) (get_lebtbl_fragment layout 5)
get_lebtbl_fragment-IsPlace_example =
    get_lebtbl_fragment-IsPlace layout 5 (omega arith) (omega arith) (omega arith)

get_stripe_index-IsStripe_example :
    Ensures (IsStripe layout leb_page 3) (get_stripe_index layout leb_page 3)
get_stripe_index-IsStripe_example =
    get_stripe_index-IsStripe layout leb_page 3 (omega arith) (omega arith)

map_leb2peb-IsInjective_example : Ensures (λ r. IsInjective r.1) (map_leb2peb layout new_tables 2 3)
map_leb2peb-IsInjective_example =
    map_leb2peb-IsInjective layout new_tables 2 3 layout-IsLayout (omega arith)
      new_tables-IsInjective

segment-AreLebs : AreLebs segment
segment-AreLebs = (
  λ h. (omega arith, omega arith),
  (λ h. (omega arith, omega arith), (λ h. absurd (h refl), (λ h. (omega arith, tt), tt))),
)

map_segment_lebs2pebs-IsMapped_example :
    Ensures
      (IsMapped layout new_tables segment)
      (map_segment_lebs2pebs layout 3 new_tables new_cache segment)
map_segment_lebs2pebs-IsMapped_example =
    map_segment_lebs2pebs-IsMapped layout layout-IsLayout 3 segment new_tables new_cache
      new_tables-IsInjective segment-AreLebs

abbrev third_place : LebPlace
third_place = record {
  fragment_index = 0;
  portion_index = 0;
  mempage_index = 0;
  leb_desc_index = 2;
}

third_place_eq : get_lebtbl_fragment layout 2 ≡ ok third_place
unfolding get_lebtbl_fragment
third_place_eq = refl

third_stripe_eq : get_stripe_index layout leb_page 2 ≡ ok 1
unfolding get_stripe_index
third_stripe_eq = refl

new_tables-IsReady : IsReady layout new_tables 2 third_place 1
new_tables-IsReady = record {
  leb_page = record { magic = refl; some = omega arith; counts = omega arith; bytes = refl };
  from = omega arith;
  to = omega arith;
  fits = omega arith;
  peb_page = record {
    magic = refl;
    fit = omega arith;
    last = omega arith;
    bytes = refl;
    unused = λ k _. (refl, refl);
  };
  few = omega arith;
}

map_leb2peb-Outcomes_example :
    Outcomes layout new_tables 2 3 third_place 1 third_place_eq third_stripe_eq new_tables-IsReady
      (omega arith)
      (map_leb2peb layout new_tables 2 3)
map_leb2peb-Outcomes_example =
    map_leb2peb-Outcomes layout new_tables 2 3 third_place 1 third_place_eq third_stripe_eq
      new_tables-IsReady (omega arith)
