-- ===== src/RawArea/Tests.antt =====
-- A buffer of 100 bytes that is to grow, and an iterator over three items.
use ssdfs_tools.Prelude.{ℕ, ◌≡◌, refl, Bool, false, none, some, [], ok, ◌==◌, not, arith}
use ssdfs_tools.Heap.{Heap, granted, refused}
use ssdfs_tools.Heap.Owned.{Owns, IsHeap, Owns-nothing, Owns-granted}
use ssdfs_tools.RawArea.{
  RawBuffer, ContentIterator, errno_nomem, init_content_iterator, processed,
  ssdfs_create_raw_buffer,
}
use ssdfs_tools.RawArea.Buffers.{IsReturn, owned_by, ssdfs_create_raw_buffer-IsReturn}
use ssdfs_tools.RawArea.Iterator.{advance, advance_ends}

abbrev base : Heap
base = record { live = λ a. false; calls = 0 }

base-IsHeap : IsHeap base
base-IsHeap a h = absurd (cc h)

-- All calls but the second one get memory.
abbrev grants : ℕ → Bool
grants n = not (n == 1)

abbrev buffer : RawBuffer
buffer = record { ptr = some 0; size = 100 }

buffer-Owns : Owns base (granted grants base) (owned_by buffer)
buffer-Owns = Owns-granted grants base base [] (Owns-nothing base)

ssdfs_create_raw_buffer-IsReturn_example :
    IsReturn base buffer 200 (ssdfs_create_raw_buffer grants buffer 200 (granted grants base))
ssdfs_create_raw_buffer-IsReturn_example =
    ssdfs_create_raw_buffer-IsReturn grants base base-IsHeap 200 (omega arith) buffer
      (granted grants base) buffer-Owns

-- The block that cannot grow is lost, and the size is kept.
loses_the_block :
    ssdfs_create_raw_buffer grants buffer 200 (granted grants base)
    ≡ ok (record {
      code = some errno_nomem;
      buffer = record { ptr = none; size = 100 };
      heap = refused grants (granted grants base);
    })
unfolding ssdfs_create_raw_buffer
loses_the_block = refl

abbrev three_items : ContentIterator
three_items = init_content_iterator 64 300 (some 0) 120 0 40

advance_ends_example :
    advance 3 three_items ≡ ok (2, record three_items { state = processed; item_offset = 120 })
advance_ends_example = advance_ends 2 three_items refl (omega arith) (omega arith) (omega arith)
