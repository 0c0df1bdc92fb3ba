-- ===== src/MaptblCache.antt =====
-- sbin/mkfs.ssdfs/mapping_table_cache.c: the cache of pairs of a logical and a physical erase block.
-- A fragment is a page: a header (struct ssdfs_maptbl_cache_header), the pairs, a magic number and
-- the states of the PEBs, one behind the other, so that each new pair moves the states.
pub mod Layout
pub mod Find
pub mod Room
pub mod Shift
pub mod Stamp
pub mod Put
pub mod Add
pub mod Insert
pub mod Fill
pub mod Pages
pub mod Prepare
pub mod Append
pub mod Order
mod Tests
use ssdfs_tools.Prelude.{
  ℕ, zero, suc, ◌+◌, ◌-◌, ◌*◌, ◌/◌, ◌<◌, ◌==◌, ltb, leb, ◌&&◌, not, Bool, true, false,
  if◌then◌else◌, Option, none, some, List, [], ◌∷◌, ◌++◌, length, replicate, u16, u32, u64_max,
  u16_max, Outcome, ok, err, bug, fault, Errno, einval, erange, enodata, bug_on, fail_if, ◌>>=◌,
  ◌>>◌,
}
use ssdfs_tools.LittleEndian.{le_bytes, get_le, store, memmove, fetch}
use ssdfs_tools.Peb.{super_magic}

-- SSDFS_MAPTBL_CACHE_HDR_SIZE, SSDFS_LEB2PEB_PAIR_SIZE and SSDFS_PEB_STATE_SIZE, which is the size of
-- the magic number too
abbrev pub hdr_size : ℕ
hdr_size = 32

abbrev pub pair_size : ℕ
pair_size = 16

abbrev pub peb_state_size : ℕ
peb_state_size = 4

-- SSDFS_LEB2PEB_PAIR_PER_FRAGMENT, for a page of at least 36 bytes, where the subtraction does not wrap
abbrev pub pairs_per_fragment : ℕ → ℕ
pairs_per_fragment page_size =
    (page_size - hdr_size - peb_state_size) / (pair_size + peb_state_size)

-- SSDFS_MAPTBL_CACHE_MAGIC and SSDFS_MAPTBL_CACHE_PEB_STATE_MAGIC
abbrev pub cache_magic : ℕ
cache_magic = 0x4D63

abbrev pub peb_state_magic : ℕ
peb_state_magic = 0x4D635053

-- The fields of struct ssdfs_maptbl_cache_header.
abbrev pub magic_key : List ℕ → ℕ
magic_key = get_le 2 4

abbrev pub items_count : List ℕ → ℕ
items_count = get_le 2 12

abbrev pub bytes_count : List ℕ → ℕ
bytes_count = get_le 2 14

abbrev pub start_leb : List ℕ → ℕ
start_leb = get_le 8 16

abbrev pub end_leb : List ℕ → ℕ
end_leb = get_le 8 24

-- maptbl_cache_prepare_fragment behind its check: what it writes into a page of zeros.
unfoldable pub prepare_fragment : (page_size sequence_id : ℕ) → Outcome (List ℕ)
prepare_fragment page_size sequence_id =
    store 0
      (le_bytes 4 super_magic
        ++ le_bytes 2 cache_magic
        ++ (1 ∷ 20 ∷ [])
        ++ le_bytes 2 sequence_id
        ++ le_bytes 2 0
        ++ le_bytes 2 0
        ++ le_bytes 2 (hdr_size + peb_state_size)
        ++ le_bytes 8 u64_max
        ++ le_bytes 8 u64_max
        ++ le_bytes 4 peb_state_magic)
      (replicate page_size 0)

-- The sizes of the two areas, with the code of __ssdfs_maptbl_cache_area_size.
pub record Areas : Type 0 where
  pub code : Option Errno
  pub pairs_bytes : ℕ
  pub states_bytes : ℕ

abbrev pub no_areas : Errno → Areas
no_areas e = record { code = some e; pairs_bytes = 0; states_bytes = peb_state_size }

unfoldable pub area_size : List ℕ → Areas
area_size fragment =
    let threshold = hdr_size + peb_state_size in
    let bytes = bytes_count fragment in
    let capacity = (bytes - threshold) / (pair_size + peb_state_size) in
    if ltb bytes threshold
    then no_areas erange
    else if bytes == threshold
    then no_areas enodata
    else if ltb capacity (items_count fragment)
    then no_areas erange
    else record {
      code = none;
      pairs_bytes = capacity * pair_size;
      states_bytes = peb_state_size + capacity * peb_state_size;
    }

-- The callers take -ENODATA for empty areas.
abbrev pub checked : Option Errno → Outcome (Unit {0})
checked none = ok tt
checked (some enodata) = ok tt
checked (some e) = err e

-- ssdfs_peb_state_area_size
unfoldable pub peb_state_area_size : List ℕ → Outcome ℕ
peb_state_area_size fragment = do
  checked (area_size fragment).code
  ok (area_size fragment).states_bytes

-- PEB_STATE_AREA, as an offset in the fragment
unfoldable pub peb_state_area : List ℕ → Outcome ℕ
peb_state_area fragment = do
  checked (area_size fragment).code
  let start = hdr_size + (area_size fragment).pairs_bytes
  magic ← fetch start 4 fragment
  fail_if (not (get_le 4 start fragment == peb_state_magic)) erange
  ok start

-- FIRST_PEB_STATE
unfoldable pub first_peb_state : List ℕ → Outcome ℕ
first_peb_state fragment = do start ← peb_state_area fragment; ok (start + peb_state_size)

-- The pair at an index, and the id of its LEB.
abbrev pub pair_offset : ℕ → ℕ
pair_offset i = hdr_size + pair_size * i

-- The loop of add_leb2peb_pair, downwards from `count`: the index behind the last pair whose LEB is
-- not above the new one.
unfoldable pub item_index : List ℕ → (leb_id count : ℕ) → Outcome ℕ
item_index fragment leb_id zero = ok 0
item_index fragment leb_id (suc i) = do
  pair ← fetch (pair_offset i) 8 fragment
  let cur = get_le 8 (pair_offset i) fragment
  bug_on (cur == u64_max)
  if leb cur leb_id then ok (suc i) else item_index fragment leb_id i

-- A pair and a state, as their bytes.
pub record Entry : Type 0 where
  pub pair : List ℕ
  pub state : List ℕ

-- What add_leb2peb_pair leaves: the fragment, the entry to be moved on if it returns -EAGAIN, and
-- what it adds to the bytes of the cache.
pub record Added : Type 0 where
  pub fragment : List ℕ
  pub moving : Option Entry
  pub added_bytes : ℕ

-- The part of add_leb2peb_pair that makes room: the fragment and the offset of the states.
unfoldable pub make_room : (full : Bool) → List ℕ → (states : ℕ) → Outcome (List ℕ × ℕ)
make_room true fragment states = ok (fragment, states)
make_room false fragment states = do
  area ← peb_state_area fragment
  size ← peb_state_area_size fragment
  fragment' ← memmove (area + pair_size) area size fragment
  ok (fragment', area + peb_state_size + pair_size)

-- The moves behind the loop, of the items from `item` on.
unfoldable pub shift_items : (full : Bool) → List ℕ → (states item count : ℕ) → Outcome (List ℕ)
shift_items full fragment states item count =
    let moving = if full then count - 1 - item else count - item in
    if ltb item count
    then (memmove (pair_offset (item + 1)) (pair_offset item) (pair_size * moving) fragment
        >>= memmove (states + peb_state_size * (item + 1)) (states + peb_state_size * item)
            (peb_state_size * moving))
    else ok fragment

-- The end of add_leb2peb_pair: the entry is stored, and the header counts it.
unfoldable pub put_entry : List ℕ → (states item count : ℕ) → Entry → Outcome (List ℕ)
put_entry fragment states item count entry = do
  f ← store (pair_offset item) entry.pair fragment
  g ← store (states + peb_state_size * item) entry.state f
  first ← fetch (pair_offset 0) 8 g
  h ← store 16 first g
  last ← fetch (pair_offset count) 8 h
  i ← store 24 last h
  j ← store 12 (le_bytes 2 (u16 (count + 1))) i
  store 14
      (le_bytes 2 (u16 (hdr_size + peb_state_size + (count + 1) * (pair_size + peb_state_size)))) j

-- add_leb2peb_pair
unfoldable pub add_leb2peb_pair : (page_size : ℕ) → List ℕ → Entry → Outcome Added
add_leb2peb_pair page_size fragment entry = do
  let capacity = pairs_per_fragment page_size
  let count = items_count fragment
  let full = count == capacity
  bug_on (ltb capacity count)
  states ← first_peb_state fragment
  pair ← (if full then fetch (pair_offset (count - 1)) pair_size fragment else ok [])
  state ←
      (if full
        then fetch (states + peb_state_size * (count - 1)) peb_state_size fragment
        else ok [])
  (fragment', states') ← make_room full fragment states
  item ← item_index fragment' (get_le 8 0 entry.pair) count
  shifted ← shift_items full fragment' states' item count
  out ← put_entry shifted states' item count entry
  ok (record {
    fragment = out;
    moving = if full then some (record { pair = pair; state = state }) else none;
    added_bytes =
        (if count == 0 then hdr_size + peb_state_size else 0) + (pair_size + peb_state_size);
  })

-- The mapping table cache of the layout: its pages, in the order of the index, and its bytes.
pub record Cache : Type 0 where
  pub page_size : ℕ
  pub fragments : List (List ℕ)
  pub bytes : ℕ

-- The loop of find_fragment_index over the fragments from index `i` on.
unfoldable pub find_from : (capacity leb_id i : ℕ) → List (List ℕ) → Outcome ℕ
find_from capacity leb_id i [] = ok i
find_from capacity leb_id i (f ∷ fs) = do
  header ← fetch 0 hdr_size f
  bug_on (not (magic_key f == cache_magic))
  if start_leb f == u64_max
      then ok i
      else if (leb (start_leb f) leb_id) && (leb leb_id (end_leb f))
      then ok i
      else if (ltb (end_leb f) leb_id) && (ltb (items_count f) capacity)
      then ok i
      else find_from capacity leb_id (i + 1) fs

unfoldable pub find_fragment_index : Cache → ℕ → Outcome ℕ
find_fragment_index cache leb_id = do
  bug_on (leb_id == u64_max)
  find_from (u16 (pairs_per_fragment cache.page_size)) leb_id 0 cache.fragments

-- The fragments behind an insertion, and what is added to the bytes of the cache.
pub record Inserted : Type 0 where
  pub fragments : List (List ℕ)
  pub added_bytes : ℕ

-- The loop of cache_leb2peb_pair: the entry is added to the fragment at an index, and the entry that
-- this moves out to the next one.
unfoldable pub insert_from : (page_size index : ℕ) → List (List ℕ) → Entry → Outcome Inserted
insert_from page_size index [] entry = bug
insert_from page_size (suc index) (f ∷ fs) entry = do
  rest ← insert_from page_size index fs entry
  ok (record rest { fragments = f ∷ rest.fragments })
insert_from page_size zero (f ∷ fs) entry = do
  added ← add_leb2peb_pair page_size f entry
  elim added.moving [
    | none ↦ ok (record { fragments = added.fragment ∷ fs; added_bytes = added.added_bytes })
    | some next ↦
        (insert_from page_size zero fs next >>= λ rest. ok (record {
          fragments = added.fragment ∷ rest.fragments;
          added_bytes = added.added_bytes + rest.added_bytes;
        }))
  ]

-- The state of a PEB that is in use: SSDFS_PEB_STATE_CONSISTENT, SSDFS_MAPTBL_USING_PEB_STATE, no flags
-- and no shared PEB.
abbrev pub using_state : List ℕ
using_state = 1 ∷ 3 ∷ 0 ∷ 255 ∷ []

-- cache_leb2peb_pair; `ok` carries the cache at the return of 0.
unfoldable pub cache_leb2peb_pair : Cache → (leb_id peb_id : ℕ) → Outcome Cache
cache_leb2peb_pair cache leb_id peb_id = do
  bug_on (leb_id == u64_max)
  bug_on (peb_id == u64_max)
  index ← find_fragment_index cache leb_id
  done ←
      insert_from cache.page_size index cache.fragments
        (record { pair = le_bytes 8 leb_id ++ le_bytes 8 peb_id; state = using_state })
  ok (record cache { fragments = done.fragments; bytes = u32 (cache.bytes + done.added_bytes) })

-- maptbl_cache_prepare_fragment
unfoldable pub maptbl_cache_prepare_fragment : Cache → (sequence_id : ℕ) → Outcome (List ℕ)
maptbl_cache_prepare_fragment cache sequence_id = do
  fail_if (leb (length cache.fragments) sequence_id) einval
  prepare_fragment cache.page_size sequence_id

-- The loop of maptbl_cache_mkfs_prepare from index `i` on; it replaces each fragment.
unfoldable pub prepare_fragments : Cache → (i : ℕ) → List (List ℕ) → Outcome (List (List ℕ))
prepare_fragments cache i [] = ok []
prepare_fragments cache i (f ∷ fs) = do
  page ← maptbl_cache_prepare_fragment cache i
  pages ← prepare_fragments cache (i + 1) fs
  ok (page ∷ pages)

-- maptbl_cache_mkfs_prepare behind the creation of the array.
unfoldable pub maptbl_cache_mkfs_prepare : Cache → Outcome Cache
maptbl_cache_mkfs_prepare cache = do
  bug_on (leb u16_max (length cache.fragments))
  pages ← prepare_fragments cache 0 cache.fragments
  ok (record cache { fragments = pages })
