-- ===== src/FragmentsArray/Unsigned.antt =====
-- An index of type u32 does not end the loop that frees the buffers of a failed creation.
use ssdfs_tools.Prelude.{
  ℕ, zero, suc, ◌+◌, ◌-◌, ◌^◌, ◌<◌, ◌≤◌, ◌≡◌, refl, sym, ◌∙◌, ap, Bool, true, false, Bool-cases,
  inl, inr, Option, none, some, List, [], ◌∷◌, ◌++◌, length, set, enomem, arith, subst,
}
use ssdfs_tools.Heap.{Heap, calloc-granted, calloc-refused, free, granted, refused}
use ssdfs_tools.Heap.Owned.{Owns, IsHeap, Owns-nothing, Owns-refused, Owns-granted}
use ssdfs_tools.FragmentsArray.Freed.{rollback-frees}
use ssdfs_tools.FragmentsArray.{
  no_array, Created, Run, done, beyond, and_then, run_free, slot, nulls, rollback, free_buffers,
  fill_array, create_fragments_array,
}

slot-behind : (xs : List (Option ℕ)) (i : ℕ) → length xs ≤ i → slot xs i ≡ none
slot-behind [] i h = refl
slot-behind (x ∷ xs) zero h = absurd (omega arith)
slot-behind (x ∷ xs) (suc i) h = slot-behind xs i (omega arith)

length-nulls : (n : ℕ) → length (nulls n) ≡ n
length-nulls zero = refl
length-nulls (suc n) = ap suc (length-nulls n)

rollback-wraps :
    (slots : List (Option ℕ)) (h : Heap)
    → length slots < 2 ^ 32
    → rollback true 1 slots 0 h ≡ beyond (2 ^ 32 - 1) h
unfolding rollback
rollback-wraps slots h small =
    ap
      (λ (found : Option (Option ℕ)). elim found [
        | none ↦ beyond (2 ^ 32 - 1) h
        | some p ↦
            and_then (run_free (free p h))
              λ h'. rollback true 0 (set slots (2 ^ 32 - 1) none) (2 ^ 32 - 1) h'
      ])
      (slot-behind slots (2 ^ 32 - 1) (omega arith))

module _ (grants : ℕ → Bool) (base : Heap) (valid : IsHeap base) where
  -- The run has come to slot 4294967295, which the array does not have, with all buffers freed, and
  -- only the array left of what it has allocated.
  abbrev pub Escapes : (array : ℕ) → Run Created → Type 0
  Escapes array r = (h : Heap) × (r ≡ beyond (2 ^ 32 - 1) h) × Owns base h (array ∷ [])

  free_buffers-Escapes :
      (array : ℕ) (buffers : List ℕ) (empty : ℕ) (h : Heap)
      → length buffers + empty < 2 ^ 32
      → Owns base h (buffers ++ (array ∷ []))
      → Escapes array (free_buffers grants true array buffers empty h)
  unfolding free_buffers
  free_buffers-Escapes array buffers empty h small o =
      let back = rollback-frees base valid true buffers (nulls empty) array h o in
      let count = length-nulls empty in
      let fits : length back.1 < 2 ^ 32 = omega (arith, back.4, count, small) in
      (
        back.0,
        ap
            (λ m. and_then m λ h'.
              and_then (run_free (free (some array) h'))
                λ h''. done (record { code = some enomem; fragments = no_array; heap = h'' }))
            (back.2 ∙ rollback-wraps back.1 back.0 fits),
        back.3,
      )

  -- A round of the loop behind its allocation.
  next : (rounds array : ℕ) → List ℕ → Option ℕ × Heap → Run Created
  next rounds array buffers answer = elim answer.0 [
    | some p ↦ fill_array grants true rounds array (p ∷ buffers) answer.1
    | none ↦ free_buffers grants true array buffers (suc rounds) answer.1
  ]

  refused-Escapes :
      (rounds array : ℕ) (buffers : List ℕ) (h : Heap)
      → grants h.calls ≡ false
      → length buffers + suc rounds < 2 ^ 32
      → Owns base h (buffers ++ (array ∷ []))
      → Escapes array (fill_array grants true (suc rounds) array buffers h)
  unfolding fill_array next
  refused-Escapes rounds array buffers h n small o =
      subst (Escapes array) (sym (ap (next rounds array buffers) (calloc-refused grants h n))) (
        free_buffers-Escapes array buffers (suc rounds) (refused grants h) small
          (Owns-refused grants base h _ o))

  fill_array-Escapes :
      (rounds index array : ℕ) (buffers : List ℕ) (h : Heap)
      → index < rounds
      → grants (h.calls + index) ≡ false
      → length buffers + rounds < 2 ^ 32
      → Owns base h (buffers ++ (array ∷ []))
      → Escapes array (fill_array grants true rounds array buffers h)
  unfolding fill_array next
  fill_array-Escapes zero index array buffers h inside n small o = absurd (omega arith)
  fill_array-Escapes (suc rounds) zero array buffers h inside n small o =
      let e : h.calls ≡ h.calls + 0 = omega arith in
      refused-Escapes rounds array buffers h (ap grants e ∙ n) small o
  fill_array-Escapes (suc rounds) (suc index) array buffers h inside n small o =
      elim (Bool-cases (grants h.calls)) [
        | inl y ↦
            let e : h.calls + 1 + index ≡ h.calls + suc index = omega arith in
            subst (Escapes array) (sym (ap (next rounds array buffers) (calloc-granted grants h y)))
              (fill_array-Escapes rounds index array (h.calls ∷ buffers) (granted grants h)
                (omega arith) (ap grants e ∙ n) (omega (arith, small))
                (Owns-granted grants base h _ o))
        | inr m ↦ refused-Escapes rounds array buffers h m small o
      ]

  -- With an index of type u32, a creation of fewer than 2^32 buffers, in which the array is granted
  -- and one of the buffers is not, does not return -ENOMEM: the loop that frees the buffers frees
  -- all of them, and then goes on at slot 4294967295, behind the end of the array.
  pub create_fragments_array-Escapes :
      (count index : ℕ)
      → count < 2 ^ 32
      → index < count
      → grants base.calls ≡ true
      → grants (base.calls + 1 + index) ≡ false
      → Escapes base.calls (create_fragments_array grants true count base)
  unfolding create_fragments_array
  create_fragments_array-Escapes count index small inside y n =
      subst (Escapes base.calls) (sym (ap first (calloc-granted grants base y))) (
        fill_array-Escapes count index base.calls [] (granted grants base) inside n
          (omega (arith, small)) (Owns-granted grants base base [] (Owns-nothing base)))
    where
      first : Option ℕ × Heap → Run Created
      first answer = elim answer.0 [
        | some array ↦ fill_array grants true count array [] answer.1
        | none ↦ done (record { code = some enomem; fragments = no_array; heap = answer.1 })
      ]
