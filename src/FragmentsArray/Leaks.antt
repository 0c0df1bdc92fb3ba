-- ===== src/FragmentsArray/Leaks.antt =====
-- No buffer is lost: a failed creation leaves the heap as it was, and so does a creation with the
-- destruction of what it has created.
use ssdfs_tools.Prelude.{
  ℕ, zero, suc, ◌+◌, ◌≡◌, refl, ◌∙◌, ap, sym, subst, Bool, true, false, Bool-cases, inl, inr, ◌⊎◌,
  Option, none, some, List, [], ◌∷◌, ◌++◌, map, length, reverse_aux, enomem, ok, ◌>>=◌, arith,
}
use ssdfs_tools.Heap.{Heap, calloc-granted, calloc-refused, free, granted, refused}
use ssdfs_tools.Heap.Owned.{
  Owns, IsHeap, Owns-nothing, Owns-refused, Owns-granted, freed, free-owned, Owns-freed, Owns-swap,
  Owns-reverse,
}
use ssdfs_tools.FragmentsArray.Freed.{rollback-frees}
use ssdfs_tools.FragmentsArray.{
  no_array, Created, Run, done, nulls, rollback, free_buffers, fill_array, create_fragments_array,
  free_slots, destroy_fragments_array,
}

or_else : Created → Run Created → Created
or_else r (done r') = r'
or_else r _ = r

done-injective : {r r' : Created} → done r ≡ done r' → r ≡ r'
unfolding or_else
done-injective {r} p = ap (or_else r) p

-- Two heaps have the same live addresses.
abbrev pub SameLive : Heap → Heap → Type 0
SameLive h h' = (a : ℕ) → h'.live a ≡ h.live a

module _ (base : Heap) (valid : IsHeap base) where
  -- Freeing the buffers in their order, which leaves the array.
  free_slots-Owns :
      (ps : List ℕ) (array : ℕ) (h : Heap)
      → Owns base h (array ∷ ps)
      → (h' : Heap) × (free_slots (length ps) (map some ps) h ≡ ok h') × Owns base h' (array ∷ [])
  unfolding free_slots
  free_slots-Owns [] array h o = (h, refl, o)
  free_slots-Owns (p ∷ ps) array h o =
      let swapped = Owns-swap base h array p ps o in
      let rest = free_slots-Owns ps array (freed p h) (Owns-freed base h p _ valid swapped) in
      (
        rest.0,
        ap (λ m. m >>= free_slots (length ps) (map some ps)) (free-owned base h p _ swapped)
            ∙ rest.1,
        rest.2,
      )

  Owns-SameLive : (h : Heap) → Owns base h [] → SameLive base h
  Owns-SameLive h o a = o.live_iff a

  -- What a creation comes to: an array of `count` buffers that it owns, or -ENOMEM and nothing.
  abbrev pub Creation : (count : ℕ) → Created → Type 0
  Creation count r =
      ((r.code ≡ none)
        × ((array : ℕ) × (buffers : List ℕ) × (r.fragments
              ≡ record { array = some array; slots = map some buffers })
            × (length buffers ≡ count)
            × Owns base r.heap (array ∷ buffers)))
      ⊎ ((r.code ≡ some enomem) × (r.fragments ≡ no_array) × SameLive base r.heap)

reverse_aux-append :
    (xs ys : List ℕ) (a : ℕ) → reverse_aux (xs ++ (a ∷ [])) ys ≡ a ∷ reverse_aux xs ys
reverse_aux-append [] ys a = refl
reverse_aux-append (x ∷ xs) ys a = reverse_aux-append xs (x ∷ ys) a

length-reverse_aux : (xs ys : List ℕ) → length (reverse_aux xs ys) ≡ length xs + length ys
length-reverse_aux [] ys = omega arith
length-reverse_aux (x ∷ xs) ys = omega (arith, length-reverse_aux xs (x ∷ ys))

module _ (grants : ℕ → Bool) (base : Heap) (valid : IsHeap base) where
  free_buffers-Creation :
      (count array : ℕ) (buffers : List ℕ) (empty : ℕ) (h : Heap)
      → Owns base h (buffers ++ (array ∷ []))
      → (r : Created) × (free_buffers grants false array buffers empty h ≡ done r)
        × Creation base valid count r
  unfolding free_buffers rollback
  free_buffers-Creation count array buffers empty h o =
      let back = rollback-frees base valid false buffers (nulls empty) array h o in
      let left = Owns-freed base back.0 array [] valid back.3 in
      (
        record { code = some enomem; fragments = no_array; heap = freed array back.0 },
        rw (back.2, rollback, free-owned base back.0 array [] back.3) refl,
        inr (refl, refl, Owns-SameLive base valid (freed array back.0) left),
      )

  module _ (rounds array : ℕ) (buffers : List ℕ) (h : Heap) where
    fill-granted :
        grants h.calls ≡ true
        → fill_array grants false (suc rounds) array buffers h
          ≡ fill_array grants false rounds array (h.calls ∷ buffers) (granted grants h)
    unfolding fill_array
    fill-granted y =
        ap
          (λ (answer : Option ℕ × Heap). elim answer.0 [
            | some p ↦ fill_array grants false rounds array (p ∷ buffers) answer.1
            | none ↦ free_buffers grants false array buffers (suc rounds) answer.1
          ])
          (calloc-granted grants h y)

    fill-refused :
        grants h.calls ≡ false
        → fill_array grants false (suc rounds) array buffers h
          ≡ free_buffers grants false array buffers (suc rounds) (refused grants h)
    unfolding fill_array
    fill-refused n =
        ap
          (λ (answer : Option ℕ × Heap). elim answer.0 [
            | some p ↦ fill_array grants false rounds array (p ∷ buffers) answer.1
            | none ↦ free_buffers grants false array buffers (suc rounds) answer.1
          ])
          (calloc-refused grants h n)

  fill_array-Creation :
      (rounds count array : ℕ) (buffers : List ℕ) (h : Heap)
      → length buffers + rounds ≡ count
      → Owns base h (buffers ++ (array ∷ []))
      → (r : Created) × (fill_array grants false rounds array buffers h ≡ done r)
        × Creation base valid count r
  unfolding fill_array
  fill_array-Creation zero count array buffers h total o =
      (_, refl, inl (refl, (array, reverse_aux buffers [], refl, all, owned)))
    where
      all : length (reverse_aux buffers []) ≡ count
      all = omega (arith, length-reverse_aux buffers [], total)

      owned : Owns base h (array ∷ reverse_aux buffers [])
      owned = subst (Owns base h) (reverse_aux-append buffers [] array) (Owns-reverse base h _ o)
  fill_array-Creation (suc rounds) count array buffers h total o =
      elim (Bool-cases (grants h.calls)) [
        | inl y ↦ rw (fill-granted rounds array buffers h y) (
            fill_array-Creation rounds count array (h.calls ∷ buffers) (granted grants h)
              (omega (arith, total)) (Owns-granted grants base h _ o))
        | inr n ↦ rw (fill-refused rounds array buffers h n) (
            free_buffers-Creation count array buffers (suc rounds) (refused grants h)
              (Owns-refused grants base h _ o))
      ]

  -- With an `int` as its index, the creation of an array of buffers returns, and returns 0 with an
  -- array of that many buffers, all of them distinct and not live before, or -ENOMEM without an
  -- array and with the heap as live as before, wherever an allocation fails.
  pub create_fragments_array-Creation :
      (count : ℕ)
      → (r : Created) × (create_fragments_array grants false count base ≡ done r)
        × Creation base valid count r
  unfolding create_fragments_array
  create_fragments_array-Creation count = elim (Bool-cases (grants base.calls)) [
    | inl y ↦
        let made =
          fill_array-Creation count count base.calls [] (granted grants base) (omega arith)
            (Owns-granted grants base base [] (Owns-nothing base)) in
        (made.0, ap next (calloc-granted grants base y) ∙ made.1, made.2)
    | inr n ↦ (_, ap next (calloc-refused grants base n), inr (refl, refl, λ a. refl))
  ]
    where
      next : Option ℕ × Heap → Run Created
      next answer = elim answer.0 [
        | some array ↦ fill_array grants false count array [] answer.1
        | none ↦ done (record { code = some enomem; fragments = no_array; heap = answer.1 })
      ]

  -- The destruction of an array that a creation has returned ends without a fault, and leaves the
  -- heap as live as before the creation.
  pub create-destroy_fragments_array :
      (count : ℕ) (r : Created)
      → create_fragments_array grants false count base ≡ done r
      → (h : Heap) × (destroy_fragments_array count r.fragments r.heap ≡ ok h) × SameLive base h
  unfolding destroy_fragments_array
  create-destroy_fragments_array count r e = elim (subst (Creation base valid count) same made.2) [
    | inl (code, (array, buffers, f, all, owned)) ↦
        let rest = free_slots-Owns base valid buffers array r.heap owned in
        let left = Owns-freed base rest.0 array [] valid rest.2 in
        (
          freed array rest.0,
          ap (λ fs. destroy_fragments_array count fs r.heap) f
              ∙ ap (λ n. free_slots n (map some buffers) r.heap >>= free (some array)) (sym all)
              ∙ ap (λ m. m >>= free (some array)) rest.1
              ∙ free-owned base rest.0 array [] rest.2,
          Owns-SameLive base valid (freed array rest.0) left,
        )
    | inr (code, f, live) ↦ (r.heap, ap (λ fs. destroy_fragments_array count fs r.heap) f, live)
  ]
    where
      made :
          (r : Created) × (create_fragments_array grants false count base ≡ done r)
          × Creation base valid count r
      made = create_fragments_array-Creation count

      same : made.0 ≡ r
      same = done-injective (sym made.1 ∙ e)
