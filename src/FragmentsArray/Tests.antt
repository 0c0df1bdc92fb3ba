-- ===== src/FragmentsArray/Tests.antt =====
-- An array of three buffers, an allocation that fails, and instances of the theorems.
use ssdfs_tools.Prelude.{
  ℕ, ◌≡◌, refl, Bool, true, false, not, ◌==◌, none, some, ok, arith, [], ◌∷◌, if◌then◌else◌,
}
use ssdfs_tools.Heap.{Heap, calloc}
use ssdfs_tools.Heap.Owned.{IsHeap}
use ssdfs_tools.FragmentsArray.{
  Created, done, fill_array, create_fragments_array, destroy_fragments_array,
}
use ssdfs_tools.FragmentsArray.Leaks.{
  SameLive, Creation, create_fragments_array-Creation, create-destroy_fragments_array,
}
use ssdfs_tools.FragmentsArray.Callers.{segbmap_create_fragments_array}
use ssdfs_tools.FragmentsArray.Unsigned.{Escapes, create_fragments_array-Escapes}

abbrev heap : Heap
heap = record { live = λ a. false; calls = 5 }

heap-IsHeap : IsHeap heap
heap-IsHeap a h = absurd (cc h)

-- The third call fails: the array, and one of its buffers.
abbrev all_but_7 : ℕ → Bool
all_but_7 n = not (n == 7)

abbrev made : Created
made = record {
  code = none;
  fragments = record { array = some 5; slots = some 6 ∷ some 7 ∷ some 8 ∷ [] };
  heap = record {
    live = λ a.
        if a == 8
        then true
        else if a == 7
        then true
        else if a == 6
        then true
        else if a == 5
        then true
        else false;
    calls = 9;
  };
}

creates_three : create_fragments_array (λ n. true) false 3 heap ≡ done made
unfolding create_fragments_array fill_array calloc
creates_three = refl

create_fragments_array-Creation_example :
    (r : Created) × (create_fragments_array all_but_7 false 3 heap ≡ done r)
    × Creation heap heap-IsHeap 3 r
create_fragments_array-Creation_example =
    create_fragments_array-Creation all_but_7 heap heap-IsHeap 3

create-destroy_fragments_array_example :
    (h : Heap) × (destroy_fragments_array 3 made.fragments made.heap ≡ ok h) × SameLive heap h
create-destroy_fragments_array_example =
    create-destroy_fragments_array (λ n. true) heap heap-IsHeap 3 made creates_three

create_fragments_array-Escapes_example :
    Escapes all_but_7 heap heap-IsHeap 5 (create_fragments_array all_but_7 true 3 heap)
create_fragments_array-Escapes_example =
    create_fragments_array-Escapes all_but_7 heap heap-IsHeap 3 1 (omega arith) (omega arith) refl
      refl

segbmap_creates_three : segbmap_create_fragments_array (λ n. true) 3 1 heap ≡ done made
unfolding segbmap_create_fragments_array create_fragments_array fill_array calloc
segbmap_creates_three = refl
