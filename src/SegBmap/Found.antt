-- ===== src/SegBmap/Found.antt =====
-- What a search for the first clean segment of a fragment finds and stores.
use ssdfs_tools.Prelude.{
  ℕ, ◌+◌, ◌*◌, ◌/◌, ◌%◌, ◌<◌, ◌≤◌, ◌≡◌, ◌≢◌, leb, ◌==◌, if◌then◌else◌, none, some, List, length,
  get_or, u64_max, enodata, Outcome, ok,
}
use ssdfs_tools.Bitmap.Bytes.{byte_item}
use ssdfs_tools.SegBmap.{Search, seg_clean}

-- Item `i` of a fragment.
abbrev pub seg_state : List ℕ → ℕ → ℕ
seg_state fragment i = byte_item 4 15 (get_or fragment (i / 2) 0) (i % 2)

abbrev pub IsBytes : List ℕ → Type 0
IsBytes fragment = (i : ℕ) → get_or fragment i 0 < 256

-- `k` is the first clean item from `lo` to `hi`.
pub record FirstClean (fragment : List ℕ) (lo hi k : ℕ) : Type 0 where
  pub from : lo ≤ k
  pub below : k < hi
  pub clean : seg_state fragment k ≡ seg_clean
  pub before : (j : ℕ) → lo ≤ j → j < k → seg_state fragment j ≢ seg_clean

abbrev pub NoneClean : List ℕ → ℕ → ℕ → Type 0
NoneClean fragment lo hi = (j : ℕ) → lo ≤ j → j < hi → seg_state fragment j ≢ seg_clean

-- `out` is the fragment with item `k` in `state`.
pub record SetItem (fragment out : List ℕ) (k state : ℕ) : Type 0 where
  pub same_length : length out ≡ length fragment
  pub bytes : IsBytes out
  pub items :
      (i : ℕ)
      → i < 2 * length fragment
      → seg_state out i ≡ (if k == i then state else seg_state fragment i)

-- The first clean item is set; its segment is reported if its number is below `max`.
pub record Found (fragment : List ℕ) (first max state lo hi : ℕ) (result : Outcome Search)
    : Type 0 where
  pub item : ℕ
  pub out : List ℕ
  pub is_first : FirstClean fragment lo hi item
  pub set_item : SetItem fragment out item state
  pub returns :
      result
      ≡ ok (record {
        fragment = out;
        found_seg = if leb max (first + item) then u64_max else first + item;
        code = if leb max (first + item) then some enodata else none;
      })

-- Nothing is clean, and nothing is changed.
abbrev pub NotFound : List ℕ → ℕ → ℕ → Outcome Search → Type 0
NotFound fragment lo hi result =
    NoneClean fragment lo hi
    × (result ≡ ok (record { fragment = fragment; found_seg = u64_max; code = some enodata }))
