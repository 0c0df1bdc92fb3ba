-- ===== src/RawArea/Iterator.antt =====
-- The content iterator as a loop uses it: increments until -ENODATA.
use ssdfs_tools.Prelude.{
  ℕ, zero, suc, ◌+◌, ◌*◌, ◌^◌, ◌<◌, ◌≤◌, ◌≡◌, refl, ap, ◌∙◌, true, false, ltb, leb, Option, none,
  some, u32, Errno, enodata, Outcome, ok, err, fault, ◌>>=◌, arith,
}
use ssdfs_tools.RawArea.{ContentIterator, initialized, processed, content_iterator_increment}

-- The number of increments that return 0 before one returns -ENODATA, and the iterator then.
unfoldable pub advance : (fuel : ℕ) → ContentIterator → Outcome (ℕ × ContentIterator)
advance zero iter = fault
advance (suc fuel) iter =
    let answer = content_iterator_increment iter in
    elim answer.0 [
      | none ↦ (advance fuel answer.1 >>= λ rest. ok (rest.0 + 1, rest.1))
      | some enodata ↦ ok (0, answer.1)
      | some e ↦ err e
    ]

module _ (iter : ContentIterator) (start : iter.state ≡ initialized)
    (small : iter.fragment_size < 2 ^ 32) where
  increment_inside :
      iter.item_offset + iter.item_size < iter.fragment_size
      → content_iterator_increment iter
        ≡ (none, record iter { item_offset = iter.item_offset + iter.item_size })
  unfolding content_iterator_increment
  increment_inside inside =
      let next : u32 (iter.item_offset + iter.item_size) ≡ iter.item_offset + iter.item_size =
        omega (arith, inside, small) in
      let a : ltb iter.fragment_size (iter.item_offset + iter.item_size) ≡ false =
        ground (arith, inside) in
      let b : leb iter.fragment_size (iter.item_offset + iter.item_size) ≡ false =
        ground (arith, inside) in
      rw (start, next, a, b) refl

  increment_end :
      iter.item_offset + iter.item_size ≡ iter.fragment_size
      → content_iterator_increment iter ≡ (
        some enodata,
        record iter { state = processed; item_offset = iter.item_offset + iter.item_size },
      )
  unfolding content_iterator_increment
  increment_end ends =
      let next : u32 (iter.item_offset + iter.item_size) ≡ iter.item_offset + iter.item_size =
        omega (arith, ends, small) in
      let a : ltb iter.fragment_size (iter.item_offset + iter.item_size) ≡ false =
        ground (arith, ends) in
      let b : leb iter.fragment_size (iter.item_offset + iter.item_size) ≡ true =
        ground (arith, ends) in
      rw (start, next, a, b) refl

at_least : (n m : ℕ) → m ≤ suc n * m
at_least n m = let e : suc n * m ≡ n * m + m = omega arith in omega (arith, e)

-- The answer of an increment, and what follows.
abbrev after : ℕ → Option Errno × ContentIterator → Outcome (ℕ × ContentIterator)
after fuel answer = elim answer.0 [
  | none ↦ (advance fuel answer.1 >>= λ rest. ok (rest.0 + 1, rest.1))
  | some enodata ↦ ok (0, answer.1)
  | some e ↦ err e
]

counted :
    (n : ℕ) (it : ContentIterator)
    → ◌≡◌ {A = Outcome (ℕ × ContentIterator)} (ok (n + 1, it)) (ok (suc n, it))
counted n it =
    let e : n + 1 ≡ suc n = omega arith in
    ap {B = Outcome (ℕ × ContentIterator)} (λ k. ok (k, it)) e

-- An iterator that is initialized in front of at least one item, whose items end where the fragment
-- does, of less than 2^32 bytes, comes to its end: each increment but the last returns 0, the last
-- one -ENODATA, and the iterator is then processed and stands at the end of the fragment.
pub advance_ends :
    (others : ℕ) (iter : ContentIterator)
    → iter.state ≡ initialized
    → iter.fragment_size < 2 ^ 32
    → 0 < iter.item_size
    → iter.item_offset + suc others * iter.item_size ≡ iter.fragment_size
    → advance (suc others) iter
      ≡ ok (others, record iter { state = processed; item_offset = iter.fragment_size })
unfolding advance
advance_ends zero iter start small item ends =
    let last : iter.item_offset + iter.item_size ≡ iter.fragment_size = omega (arith, ends) in
    ap (after 0) (increment_end iter start small last)
    ∙ ap {B = Outcome (ℕ × ContentIterator)}
        (λ k. ok (0, record iter { state = processed; item_offset = k })) last
advance_ends (suc others) iter start small item ends =
    let next = iter.item_offset + iter.item_size in
    let split : suc (suc others) * iter.item_size ≡ iter.item_size + suc others * iter.item_size =
      omega arith in
    let more : iter.item_size ≤ suc others * iter.item_size = at_least others iter.item_size in
    let inside : next < iter.fragment_size = omega (arith, ends, split, more, item) in
    ap (after (suc others)) (increment_inside iter start small inside)
    ∙ ap (λ m. m >>= λ rest. ok (rest.0 + 1, rest.1))
        (advance_ends others (record iter { item_offset = next }) start small item
          (omega (arith, ends, split)))
    ∙ counted others (record iter { state = processed; item_offset = iter.fragment_size })
