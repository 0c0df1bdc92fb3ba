-- ===== src/Heap.antt =====
-- What calloc, realloc and free of the C library do: which addresses are live. Which allocations
-- succeed is a parameter, a test on the number of the call.
pub mod Owned
use ssdfs_tools.Prelude.{
  ℕ, ◌+◌, ◌==◌, ◌≡◌, Bool, true, false, not, ◌&&◌, if◌then◌else◌, Option, none, some, Outcome, ok,
  fault,
}

-- An address is the number of the call that returned it.
pub record Heap : Type 0 where
  pub live : ℕ → Bool
  pub calls : ℕ

abbrev pub is_free_after : (ℕ → Bool) → ℕ → ℕ → Bool
is_free_after live p a = live a && not (a == p)

-- `free(p)`: a null pointer is ignored, an address that is not live is a fault.
abbrev pub free : Option ℕ → Heap → Outcome Heap
free none h = ok h
free (some p) h = if h.live p then ok (record h { live = is_free_after h.live p }) else fault

module _ (grants : ℕ → Bool) where
  abbrev pub granted : Heap → Heap
  granted h = record { live = λ a. if a == h.calls then true else h.live a; calls = h.calls + 1 }

  abbrev pub refused : Heap → Heap
  refused h = record h { calls = h.calls + 1 }

  -- `calloc`
  unfoldable pub calloc : Heap → Option ℕ × Heap
  calloc h = if grants h.calls then (some h.calls, granted h) else (none, refused h)

  pub calloc-granted : (h : Heap) → grants h.calls ≡ true → calloc h ≡ (some h.calls, granted h)
  unfolding calloc
  calloc-granted h y = rw y

  pub calloc-refused : (h : Heap) → grants h.calls ≡ false → calloc h ≡ (none, refused h)
  unfolding calloc
  calloc-refused h n = rw n

  -- `realloc(p)` to at least one byte: the old block is freed where a new one is granted, and
  -- stays live where not.
  abbrev pub realloc : Option ℕ → Heap → Outcome (Option ℕ × Heap)
  realloc none h = ok (calloc h)
  realloc (some p) h =
      if h.live p
      then (if grants h.calls
          then ok (
            some h.calls,
            record (granted h) {
              live = λ a. if a == h.calls then true else is_free_after h.live p a;
            },
          )
          else ok (none, refused h))
      else fault
