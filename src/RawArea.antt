-- ===== src/RawArea.antt =====
-- The raw buffers and areas of lib/ssdfs_common.c, and the iterator over the content of an area of
-- include/ssdfs_tools.h. What the bytes of a buffer are is left out, and so are the tests for a null
-- pointer to a buffer or an area.
pub mod Buffers
pub mod Iterator
mod Tests
use ssdfs_tools.Prelude.{
  ℕ, zero, suc, Bool, ◌+◌, ◌==◌, ltb, leb, if◌then◌else◌, Option, none, some, u32, u32_max, Errno,
  einval, erange, enodata, sys, Outcome, ok, ◌>>=◌,
}
use ssdfs_tools.Heap.{Heap, calloc, realloc, free}

-- struct ssdfs_raw_buffer
pub record RawBuffer : Type 0 where
  pub ptr : Option ℕ
  pub size : ℕ

abbrev pub no_buffer : RawBuffer
no_buffer = record { ptr = none; size = 0 }

-- The return of a function on a buffer: its code, the buffer and the heap.
pub record BufferReturn : Type 0 where
  pub code : Option Errno
  pub buffer : RawBuffer
  pub heap : Heap

-- ENOMEM, the errno of a failed allocation
abbrev pub errno_nomem : Errno
errno_nomem = sys 12

module _ (grants : ℕ → Bool) where
  -- The two allocations of ssdfs_create_raw_buffer.
  abbrev pub allocated : (buf_size : ℕ) → RawBuffer → Option ℕ × Heap → BufferReturn
  allocated buf_size buf answer = elim answer.0 [
    | some p ↦ record {
      code = none;
      buffer = record { ptr = some p; size = u32 buf_size };
      heap = answer.1;
    }
    | none ↦ record {
      code = some errno_nomem;
      buffer = record { ptr = none; size = buf.size };
      heap = answer.1;
    }
  ]

  unfoldable pub ssdfs_create_raw_buffer : RawBuffer → (buf_size : ℕ) → Heap → Outcome BufferReturn
  ssdfs_create_raw_buffer buf buf_size h = elim buf.ptr [
    | none ↦
        if buf_size == 0
        then ok (record { code = none; buffer = no_buffer; heap = h })
        else ok (allocated buf_size buf (calloc grants h))
    | some p ↦
        if buf_size == 0
        then (free (some p) h >>= λ h'. ok (record { code = none; buffer = no_buffer; heap = h' }))
        else if ltb buf.size buf_size
        then (realloc grants (some p) h >>= λ answer. ok (allocated buf_size buf answer))
        else ok (record { code = none; buffer = buf; heap = h })
  ]

unfoldable pub ssdfs_destroy_raw_buffer : RawBuffer → Heap → Outcome (RawBuffer × Heap)
ssdfs_destroy_raw_buffer buf h = elim buf.ptr [
  | none ↦ ok (buf, h)
  | some p ↦ (free (some p) h >>= λ h'. ok (no_buffer, h'))
]

-- The content states
pub data IteratorState : Type 0 where
  unknown initialized processed : IteratorState

-- struct ssdfs_raw_content_iterator; `fragment_index` is -1 where it is none.
pub record ContentIterator : Type 0 where
  pub state : IteratorState
  pub portion_offset : ℕ
  pub portion_size : ℕ
  pub fragment_index : Option ℕ
  pub fragment_size : ℕ
  pub item_offset : ℕ
  pub item_size : ℕ

-- SSDFS_CREATE_CONTENT_ITERATOR
abbrev pub create_content_iterator : ContentIterator
create_content_iterator = record {
  state = unknown;
  portion_offset = u32_max;
  portion_size = 0;
  fragment_index = none;
  fragment_size = 0;
  item_offset = u32_max;
  item_size = 0;
}

-- SSDFS_INIT_CONTENT_ITERATOR
abbrev pub init_content_iterator :
    (portion_offset portion_size : ℕ)
    → Option ℕ
    → (fragment_size item_offset item_size : ℕ) → ContentIterator
init_content_iterator portion_offset portion_size index fragment_size item_offset item_size =
    record {
      state = initialized;
      portion_offset = portion_offset;
      portion_size = portion_size;
      fragment_index = index;
      fragment_size = fragment_size;
      item_offset = item_offset;
      item_size = item_size;
    }

-- SSDFS_CONTENT_ITERATOR_INCREMENT: its code, and the iterator.
unfoldable pub content_iterator_increment : ContentIterator → Option Errno × ContentIterator
content_iterator_increment iter = elim iter.state [
  | processed ↦ (some enodata, iter)
  | unknown ↦ (some einval, iter)
  | initialized ↦
      let item_offset = u32 (iter.item_offset + iter.item_size) in
      if ltb iter.fragment_size item_offset
      then (some erange, iter)
      else if leb iter.fragment_size item_offset
      then (some enodata, record iter { state = processed; item_offset = item_offset })
      else (none, record iter { item_offset = item_offset })
]

-- struct ssdfs_raw_area, less the metadata that ssdfs_create_raw_area resets.
pub record RawArea : Type 0 where
  pub offset : ℕ
  pub size : ℕ
  pub iter : ContentIterator
  pub uncompressed : RawBuffer
  pub delta : RawBuffer

-- ssdfs_create_raw_area, which ignores what the creation of an empty buffer returns
unfoldable pub ssdfs_create_raw_area :
    (grants : ℕ → Bool) → RawArea → (offset size : ℕ) → Heap → Outcome (RawArea × Heap)
ssdfs_create_raw_area grants area offset size h = do
  first ← ssdfs_create_raw_buffer grants area.uncompressed 0 h
  second ← ssdfs_create_raw_buffer grants area.delta 0 first.heap
  ok (
    record {
      offset = offset;
      size = size;
      iter = create_content_iterator;
      uncompressed = first.buffer;
      delta = second.buffer;
    },
    second.heap,
  )

unfoldable pub ssdfs_destroy_raw_area : RawArea → Heap → Outcome (RawArea × Heap)
ssdfs_destroy_raw_area area h = do
  first ← ssdfs_destroy_raw_buffer area.uncompressed h
  second ← ssdfs_destroy_raw_buffer area.delta first.1
  ok (
    record area { iter = create_content_iterator; uncompressed = first.0; delta = second.0 },
    second.1,
  )
