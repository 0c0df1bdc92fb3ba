-- ===== src/FragmentsArray.antt =====
-- The arrays of PEB buffers of mkfs: segbmap_create_fragments_array and
-- segbmap_destroy_fragments_array of sbin/mkfs.ssdfs/segment_bitmap.c, and their likes in
-- mapping_table.c and mapping_table_cache.c. They differ in the type of the index.
pub mod Freed
pub mod Leaks
pub mod Unsigned
pub mod Callers
mod Tests
use ssdfs_tools.Prelude.{
  ℕ, zero, suc, ◌-◌, ◌^◌, length, set, Bool, true, false, if◌then◌else◌, Option, none, some, List,
  [], ◌∷◌, map, reverse_aux, Errno, enomem, Outcome, ok, err, bug, fault, ◌>>=◌,
}
use ssdfs_tools.Heap.{Heap, calloc, free}

-- `fragments_array` and what its slots point to, in the order of the index.
pub record FragmentsArray : Type 0 where
  pub array : Option ℕ
  pub slots : List (Option ℕ)

abbrev pub no_array : FragmentsArray
no_array = record { array = none; slots = [] }

-- The return of a function: its code, the array and the heap.
pub record Created : Type 0 where
  pub code : Option Errno
  pub fragments : FragmentsArray
  pub heap : Heap

-- What a creation comes to: a return; an access to slot `index` of an array that has no such slot,
-- with the heap at that time; `wild`, the free of an address that is not live or a division by
-- zero; or a loop that the fuel does not end.
pub data Run (A : Type 0) : Type 0 where
  done : A → Run A
  beyond : (index : ℕ) → Heap → Run A
  wild endless : Run A

abbrev pub and_then : {A B : Type 0} → Run A → (A → Run B) → Run B
and_then (done a) f = f a
and_then (beyond index h) f = beyond index h
and_then wild f = wild
and_then endless f = endless

abbrev pub run_free : Outcome Heap → Run Heap
run_free (ok h) = done h
run_free (err e) = wild
run_free bug = wild
run_free fault = wild

-- `i--`: an `int` gets negative behind 0, an index of type u32 wraps.
abbrev pub previous : (wraps : Bool) → ℕ → Option ℕ
previous wraps zero = if wraps then some (2 ^ 32 - 1) else none
previous wraps (suc i) = some i

-- What slot `i` has, if the array has that slot.
abbrev pub slot : List (Option ℕ) → ℕ → Option (Option ℕ)
slot [] i = none
slot (p ∷ slots) zero = some p
slot (p ∷ slots) (suc i) = slot slots i

-- The loop behind `free_buffers`, `for (i--; i >= 0; i--)`, with the value of `i` before it. The
-- test fails for a negative `i` only.
unfoldable pub rollback : (wraps : Bool) (fuel : ℕ) → List (Option ℕ) → ℕ → Heap → Run Heap
rollback wraps zero slots i h = endless
rollback wraps (suc fuel) slots i h = elim (previous wraps i) [
  | none ↦ done h
  | some k ↦ elim (slot slots k) [
    | none ↦ beyond k h
    | some p ↦ and_then (run_free (free p h)) λ h'. rollback wraps fuel (set slots k none) k h'
  ]
]

-- The slots of an array whose first ones point to the buffers, of which the last one comes first,
-- and that has `tail` behind these.
abbrev pub slots_of : (buffers : List ℕ) (tail : List (Option ℕ)) → List (Option ℕ)
slots_of [] tail = tail
slots_of (p ∷ buffers) tail = slots_of buffers (some p ∷ tail)

abbrev pub nulls : ℕ → List (Option ℕ)
nulls zero = []
nulls (suc n) = none ∷ nulls n

-- `i` is of type `int` in segbmap_create_fragments_array, and of type u32, which wraps, in
-- maptbl_create_fragments_array and maptbl_cache_create_fragments_array.
module _ (grants : ℕ → Bool) (wraps : Bool) where
  -- What follows `free_buffers`: the buffers are freed, then the array. The slots behind those of
  -- the buffers are null, as calloc leaves them. A round for each buffer, and one more, are enough.
  unfoldable pub free_buffers : (array : ℕ) → List ℕ → (empty : ℕ) → Heap → Run Created
  free_buffers array buffers empty h =
      and_then
        (rollback wraps (suc (length buffers)) (slots_of buffers (nulls empty)) (length buffers) h)
        λ h'.
          and_then (run_free (free (some array) h'))
            λ h''. done (record { code = some enomem; fragments = no_array; heap = h'' })

  -- The loop that allocates the buffers; those it has are in `buffers`, the last one first.
  unfoldable pub fill_array : (rounds array : ℕ) → List ℕ → Heap → Run Created
  fill_array zero array buffers h = done (record {
    code = none;
    fragments = record { array = some array; slots = map some (reverse_aux buffers []) };
    heap = h;
  })
  fill_array (suc rounds) array buffers h =
      let answer = calloc grants h in
      elim answer.0 [
        | some p ↦ fill_array rounds array (p ∷ buffers) answer.1
        | none ↦ free_buffers array buffers (suc rounds) answer.1
      ]

  unfoldable pub create_fragments_array : (buffers_count : ℕ) → Heap → Run Created
  create_fragments_array buffers_count h =
      let answer = calloc grants h in
      elim answer.0 [
        | some array ↦ fill_array buffers_count array [] answer.1
        | none ↦ done (record { code = some enomem; fragments = no_array; heap = answer.1 })
      ]

-- The loop of the destroy functions; a slot behind the last one is an access out of range.
unfoldable pub free_slots : (rounds : ℕ) → List (Option ℕ) → Heap → Outcome Heap
free_slots zero slots h = ok h
free_slots (suc rounds) [] h = fault
free_slots (suc rounds) (p ∷ slots) h = free p h >>= free_slots rounds slots

-- segbmap_destroy_fragments_array, maptbl_destroy_fragments_array and
-- maptbl_cache_destroy_fragments_array; the array that they leave is empty.
unfoldable pub destroy_fragments_array : (buffers_count : ℕ) → FragmentsArray → Heap → Outcome Heap
destroy_fragments_array buffers_count f h = elim f.array [
  | none ↦ ok h
  | some array ↦ free_slots buffers_count f.slots h >>= free (some array)
]
