-- ===== src/Heap/Owned.antt =====
-- The addresses that a component owns, beside those that were live before.
use ssdfs_tools.Prelude.{
  ℕ, ◌+◌, ◌<◌, ◌≤◌, ◌≡◌, refl, Bool, true, false, ◌||◌, ◌==◌, some, List, [], ◌∷◌, reverse_aux, ok,
  arith, Bool-cases, inl, inr,
}
use ssdfs_tools.Heap.{Heap, free, granted, refused, is_free_after}

abbrev pub elem : ℕ → List ℕ → Bool
elem a [] = false
elem a (x ∷ xs) = (a == x) || elem a xs

-- No address twice, none of them below `start`, all below `end`.
abbrev pub IsFresh : (start end : ℕ) → List ℕ → Type 0
IsFresh start end [] = Unit
IsFresh start end (x ∷ xs) = (start ≤ x) × (x < end) × (elem x xs ≡ false) × IsFresh start end xs

-- The live addresses are those in `xs`, all granted since the heap `base`, and those of `base`.
pub record Owns (base : Heap) (h : Heap) (xs : List ℕ) : Type 0 where
  pub live_iff : (a : ℕ) → h.live a ≡ (elem a xs || base.live a)
  pub fresh : IsFresh base.calls h.calls xs
  pub later : base.calls ≤ h.calls

-- All live addresses come from calls made so far.
abbrev pub IsHeap : Heap → Type 0
IsHeap h = (a : ℕ) → h.live a ≡ true → a < h.calls

pub Owns-nothing : (h : Heap) → Owns h h []
Owns-nothing h = record { live_iff = λ a. refl; fresh = tt; later = omega arith }

IsFresh-widen :
    (start end end' : ℕ) (xs : List ℕ) → end ≤ end' → IsFresh start end xs → IsFresh start end' xs
IsFresh-widen start end end' [] le f = tt
IsFresh-widen start end end' (x ∷ xs) le f =
    (f.0, omega (arith, f.1), f.2, IsFresh-widen start end end' xs le f.3)

elem_below :
    (start end : ℕ) (xs : List ℕ) (a : ℕ) → IsFresh start end xs → end ≤ a → elem a xs ≡ false
elem_below start end [] a f h = refl
elem_below start end (x ∷ xs) a f h =
    let rest = elem_below start end xs a f.3 h in ground (arith, f.1)

pub Owns-refused :
    (grants : ℕ → Bool) (base h : Heap) (xs : List ℕ)
    → Owns base h xs
    → Owns base (refused grants h) xs
Owns-refused grants base h xs o = record {
  live_iff = o.live_iff;
  fresh = IsFresh-widen base.calls h.calls (h.calls + 1) xs (omega arith) o.fresh;
  later = omega (arith, o.later);
}

pub Owns-granted :
    (grants : ℕ → Bool) (base h : Heap) (xs : List ℕ)
    → Owns base h xs
    → Owns base (granted grants h) (h.calls ∷ xs)
Owns-granted grants base h xs o = record {
  live_iff = λ a. ground (arith, o.live_iff a);
  fresh = (
    o.later,
    omega arith,
    elem_below base.calls h.calls xs h.calls o.fresh (omega arith),
    IsFresh-widen base.calls h.calls (h.calls + 1) xs (omega arith) o.fresh,
  );
  later = omega (arith, o.later);
}

-- The heap behind `free` of an owned address.
abbrev pub freed : ℕ → Heap → Heap
freed p h = record h { live = is_free_after h.live p }

pub free-owned :
    (base h : Heap) (p : ℕ) (xs : List ℕ) → Owns base h (p ∷ xs) → free (some p) h ≡ ok (freed p h)
free-owned base h p xs o = ground (arith, o.live_iff p)

pub Owns-freed :
    (base h : Heap) (p : ℕ) (xs : List ℕ)
    → IsHeap base
    → Owns base h (p ∷ xs)
    → Owns base (freed p h) xs
Owns-freed base h p xs valid o = record {
  live_iff = λ a. elim (Bool-cases (a == p)) [
    | inl y ↦
        let same : a ≡ p = ground arith in
        let gone : base.live a ≡ false = ground (arith, valid a, o.fresh.0) in
        let out : elem a xs ≡ false = ground (arith, o.fresh.2, same) in
        ground (arith, y, gone, out)
    | inr n ↦ ground (arith, o.live_iff a)
  ];
  fresh = o.fresh.3;
  later = o.later;
}

pub Owns-swap :
    (base h : Heap) (x y : ℕ) (zs : List ℕ) → Owns base h (x ∷ y ∷ zs) → Owns base h (y ∷ x ∷ zs)
Owns-swap base h x y zs o = record {
  live_iff = λ a. ground (arith, o.live_iff a);
  fresh = (
    o.fresh.3.0,
    o.fresh.3.1,
    ground (arith, o.fresh.2, o.fresh.3.2),
    (o.fresh.0, o.fresh.1, ground (arith, o.fresh.2), o.fresh.3.3),
  );
  later = o.later;
}

elem-reverse_aux : (a : ℕ) (xs ys : List ℕ) → elem a (reverse_aux xs ys) ≡ (elem a xs || elem a ys)
elem-reverse_aux a [] ys = refl
elem-reverse_aux a (x ∷ xs) ys = let rest = elem-reverse_aux a xs (x ∷ ys) in ground (arith, rest)

IsFresh-reverse_aux :
    (start end : ℕ) (xs ys : List ℕ)
    → IsFresh start end xs
    → IsFresh start end ys
    → ((a : ℕ) → elem a xs ≡ true → elem a ys ≡ false)
    → IsFresh start end (reverse_aux xs ys)
IsFresh-reverse_aux start end [] ys f g d = g
IsFresh-reverse_aux start end (x ∷ xs) ys f g d =
    IsFresh-reverse_aux start end xs (x ∷ ys) f.3 (f.0, f.1, d x (ground arith), g)
      (λ a m. ground (arith, f.2, d a, m))

pub Owns-reverse : (base h : Heap) (xs : List ℕ) → Owns base h xs → Owns base h (reverse_aux xs [])
Owns-reverse base h xs o = record {
  live_iff = λ a. ground (arith, o.live_iff a, elem-reverse_aux a xs []);
  fresh = IsFresh-reverse_aux base.calls h.calls xs [] o.fresh tt (λ a m. refl);
  later = o.later;
}
