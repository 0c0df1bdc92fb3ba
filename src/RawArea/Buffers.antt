-- ===== src/RawArea/Buffers.antt =====
-- ssdfs_create_raw_buffer and ssdfs_destroy_raw_buffer on a heap where the buffer is all there is.
use ssdfs_tools.Prelude.{
  ℕ, ◌^◌, ◌<◌, ◌≤◌, ◌≡◌, inl, inr, refl, ap, Bool, true, ltb, ◌==◌, Bool-cases, Option, none, some,
  List, [], ◌∷◌, u32, Outcome, ok, ◌>>=◌, arith,
}
use ssdfs_tools.Heap.{Heap, calloc-granted, calloc-refused, granted, refused}
use ssdfs_tools.Heap.Owned.{Owns, IsHeap, Owns-refused, Owns-granted, Owns-freed, free-owned, freed}
use ssdfs_tools.RawArea.{
  RawBuffer, no_buffer, BufferReturn, errno_nomem, allocated, ssdfs_create_raw_buffer,
  ssdfs_destroy_raw_buffer,
}

-- The address that a buffer has.
abbrev pub owned_by : RawBuffer → List ℕ
owned_by buf = elim buf.ptr [ none ↦ [] | some p ↦ p ∷ [] ]

-- A return of 0 leaves a buffer with room, which owns all that is allocated; any other one leaves no
-- pointer in the buffer, and what it pointed to before is still allocated.
pub data IsReturn (base : Heap) (old : RawBuffer) (buf_size : ℕ) (answer : Outcome BufferReturn)
    : Type 0 where
  succeeded :
      (r : BufferReturn)
      → answer ≡ ok r
      → r.code ≡ none
      → buf_size ≤ r.buffer.size
      → Owns base r.heap (owned_by r.buffer)
      → IsReturn base old buf_size answer
  failed :
      (r : BufferReturn)
      → answer ≡ ok r
      → r.code ≡ some errno_nomem
      → r.buffer.ptr ≡ none
      → r.buffer.size ≡ old.size
      → Owns base r.heap (owned_by old)
      → IsReturn base old buf_size answer

module _ (grants : ℕ → Bool) (base : Heap) (valid : IsHeap base) (buf_size : ℕ)
    (small : buf_size < 2 ^ 32) where
  fits : u32 buf_size ≡ buf_size
  fits = omega (arith, small)

  -- Without a pointer before.
  create_first :
      (size : ℕ) (h : Heap)
      → Owns base h []
      → IsReturn base
          (record { ptr = none; size = size })
          buf_size
          (ssdfs_create_raw_buffer grants (record { ptr = none; size = size }) buf_size h)
  unfolding ssdfs_create_raw_buffer
  create_first size h o = elim (Bool-cases (buf_size == 0)) [
    | inl z ↦
        succeeded (record { code = none; buffer = no_buffer; heap = h }) (rw z refl) refl
          (ground (arith, z)) o
    | inr z ↦ elim (Bool-cases (grants h.calls)) [
      | inl y ↦
          succeeded
            (allocated grants buf_size (record { ptr = none; size = size })
              (some h.calls, granted grants h))
            (rw (z, calloc-granted grants h y) refl) refl (omega (arith, fits))
            (Owns-granted grants base h [] o)
      | inr n ↦
          failed
            (allocated grants buf_size (record { ptr = none; size = size })
              (none, refused grants h))
            (rw (z, calloc-refused grants h n) refl) refl refl refl
            (Owns-refused grants base h [] o)
    ]
  ]

  -- With one.
  create_again :
      (p size : ℕ) (h : Heap)
      → Owns base h (p ∷ [])
      → IsReturn base
          (record { ptr = some p; size = size })
          buf_size
          (ssdfs_create_raw_buffer grants (record { ptr = some p; size = size }) buf_size h)
  unfolding ssdfs_create_raw_buffer
  create_again p size h o =
      let old : RawBuffer = record { ptr = some p; size = size } in
      let live : h.live p ≡ true = ground (arith, o.live_iff p) in
      elim (Bool-cases (buf_size == 0)) [
        | inl z ↦
            succeeded (record { code = none; buffer = no_buffer; heap = freed p h })
              (rw z (
                ap (λ m. m >>= λ h'. ok (record { code = none; buffer = no_buffer; heap = h' }))
                  (free-owned base h p [] o)))
              refl (ground (arith, z)) (Owns-freed base h p [] valid o)
        | inr z ↦ elim (Bool-cases (ltb size buf_size)) [
          | inr w ↦
              succeeded (record { code = none; buffer = old; heap = h }) (rw (z, w) refl) refl
                (ground (arith, w)) o
          | inl w ↦ elim (Bool-cases (grants h.calls)) [
            | inl y ↦
                succeeded (allocated grants buf_size old (some h.calls, granted grants (freed p h)))
                  (rw (z, w, live, y) refl) refl (omega (arith, fits))
                  (Owns-granted grants base (freed p h) [] (Owns-freed base h p [] valid o))
            | inr n ↦
                failed (allocated grants buf_size old (none, refused grants h))
                  (rw (z, w, live, n) refl) refl refl refl (Owns-refused grants base h (p ∷ []) o)
          ]
        ]
      ]

  -- Of a buffer that owns what is allocated since a heap `base`, the creation with a size below 2^32
  -- always returns: with 0, and then the buffer has at least that size and owns all that is allocated
  -- since, so that nothing is lost and nothing freed twice; or with the error of the allocation, and
  -- then the buffer has no pointer and its old size, while what it pointed to is still allocated.
  pub ssdfs_create_raw_buffer-IsReturn :
      (buf : RawBuffer) (h : Heap)
      → Owns base h (owned_by buf)
      → IsReturn base buf buf_size (ssdfs_create_raw_buffer grants buf buf_size h)
  ssdfs_create_raw_buffer-IsReturn buf h o = by_pointer buf.ptr buf.size o
    where
      by_pointer :
          (ptr : Option ℕ) (size : ℕ)
          → Owns base h (owned_by (record { ptr = ptr; size = size }))
          → IsReturn base
              (record { ptr = ptr; size = size })
              buf_size
              (ssdfs_create_raw_buffer grants (record { ptr = ptr; size = size }) buf_size h)
      by_pointer none size o = create_first size h o
      by_pointer (some p) size o = create_again p size h o

-- A destroyed buffer.
pub record IsDestroyed (base : Heap) (answer : Outcome (RawBuffer × Heap)) : Type 0 where
  pub left : RawBuffer × Heap
  pub made : answer ≡ ok left
  pub no_pointer : left.0.ptr ≡ none
  pub same_live : (a : ℕ) → left.1.live a ≡ base.live a

-- The destruction of a buffer that owns what is allocated since a heap `base` does not fault, leaves
-- no pointer in it, and leaves live just what was live in `base`.
pub ssdfs_destroy_raw_buffer-IsDestroyed :
    (base : Heap)
    → IsHeap base
    → (buf : RawBuffer) (h : Heap) → Owns base h (owned_by buf)
    → IsDestroyed base (ssdfs_destroy_raw_buffer buf h)
unfolding ssdfs_destroy_raw_buffer
ssdfs_destroy_raw_buffer-IsDestroyed base valid buf h o = by_pointer buf.ptr buf.size o
  where
    by_pointer :
        (ptr : Option ℕ) (size : ℕ)
        → Owns base h (owned_by (record { ptr = ptr; size = size }))
        → IsDestroyed base (ssdfs_destroy_raw_buffer (record { ptr = ptr; size = size }) h)
    by_pointer none size o = record {
      left = (record { ptr = none; size = size }, h);
      made = refl;
      no_pointer = refl;
      same_live = o.live_iff;
    }
    by_pointer (some p) size o = record {
      left = (no_buffer, freed p h);
      made = ap (λ m. m >>= λ h'. ok (no_buffer, h')) (free-owned base h p [] o);
      no_pointer = refl;
      same_live = (Owns-freed base h p [] valid o).live_iff;
    }
