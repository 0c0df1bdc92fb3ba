-- ===== src/FragmentsArray/Freed.antt =====
-- The loop that frees the buffers of a failed creation, down to the first one.
use ssdfs_tools.Prelude.{
  ℕ, suc, ◌+◌, ◌≡◌, refl, ◌∙◌, ap, Bool, Option, none, some, List, [], ◌∷◌, ◌++◌, length, set,
  arith,
}
use ssdfs_tools.Heap.{Heap, free}
use ssdfs_tools.Heap.Owned.{Owns, IsHeap, freed, free-owned, Owns-freed}
use ssdfs_tools.FragmentsArray.{Run, beyond, and_then, run_free, rollback, slot, slots_of}

slots_of-slot :
    (ps : List ℕ) (xs : List (Option ℕ)) (k j : ℕ)
    → k ≡ length ps + j
    → slot (slots_of ps xs) k ≡ slot xs j
slots_of-slot [] xs k j e = let same : k ≡ j = omega (arith, e) in ap (slot xs) same
slots_of-slot (p ∷ ps) xs k j e = slots_of-slot ps (some p ∷ xs) k (suc j) (omega (arith, e))

slots_of-set :
    (ps : List ℕ) (xs : List (Option ℕ)) (k j : ℕ)
    → k ≡ length ps + j
    → set (slots_of ps xs) k none ≡ slots_of ps (set xs j none)
slots_of-set [] xs k j e = let same : k ≡ j = omega (arith, e) in ap (λ i. set xs i none) same
slots_of-set (p ∷ ps) xs k j e = slots_of-set ps (some p ∷ xs) k (suc j) (omega (arith, e))

-- The slot of the last buffer.
slot-slots_of :
    (ps : List ℕ) (p : ℕ) (tail : List (Option ℕ))
    → slot (slots_of ps (some p ∷ tail)) (length ps) ≡ some (some p)
slot-slots_of ps p tail = slots_of-slot ps (some p ∷ tail) (length ps) 0 (omega arith)

set-slots_of :
    (ps : List ℕ) (p : ℕ) (tail : List (Option ℕ))
    → set (slots_of ps (some p ∷ tail)) (length ps) none ≡ slots_of ps (none ∷ tail)
set-slots_of ps p tail = slots_of-set ps (some p ∷ tail) (length ps) 0 (omega arith)

module _ (base : Heap) (valid : IsHeap base) where
  rollback-round :
      (wraps : Bool) (ps : List ℕ) (p : ℕ) (tail : List (Option ℕ)) (array : ℕ) (h : Heap)
      → Owns base h (p ∷ (ps ++ (array ∷ [])))
      → rollback wraps (suc (suc (length ps))) (slots_of ps (some p ∷ tail)) (suc (length ps)) h
        ≡ rollback wraps (suc (length ps)) (slots_of ps (none ∷ tail)) (length ps) (freed p h)
  unfolding rollback
  rollback-round wraps ps p tail array h o =
      ap
        (λ (found : Option (Option ℕ)). elim found [
          | none ↦ beyond (length ps) h
          | some q ↦
              and_then (run_free (free q h))
                (next (set (slots_of ps (some p ∷ tail)) (length ps) none))
        ])
        (slot-slots_of ps p tail)
      ∙ ap (λ m. and_then (run_free m) (next (set (slots_of ps (some p ∷ tail)) (length ps) none)))
          (free-owned base h p _ o)
      ∙ ap (λ slots. next slots (freed p h)) (set-slots_of ps p tail)
    where
      next : List (Option ℕ) → Heap → Run Heap
      next slots h' = rollback wraps (suc (length ps)) slots (length ps) h'

  -- The rounds of the loop over the buffers, whatever the type of the index.
  pub rollback-frees :
      (wraps : Bool) (ps : List ℕ) (tail : List (Option ℕ)) (array : ℕ) (h : Heap)
      → Owns base h (ps ++ (array ∷ []))
      → (h' : Heap) × (tail' : List (Option ℕ)) × (rollback wraps
            (suc (length ps))
            (slots_of ps tail)
            (length ps)
            h
          ≡ rollback wraps 1 tail' 0 h')
        × Owns base h' (array ∷ [])
        × (length tail' ≡ length ps + length tail)
  rollback-frees wraps [] tail array h o = (h, tail, refl, o, omega arith)
  rollback-frees wraps (p ∷ ps) tail array h o =
      let left = Owns-freed base h p _ valid o in
      let rest = rollback-frees wraps ps (none ∷ tail) array (freed p h) left in
      (
        rest.0,
        rest.1,
        rollback-round wraps ps p tail array h o ∙ rest.2,
        rest.3,
        omega (arith, rest.4),
      )
