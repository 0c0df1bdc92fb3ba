-- ===== src/LogLayout/Align.antt =====
-- The rounding of the offsets up to whole pages.
use native.Mathlib.Nat.{
  div-eq_of_lt, div-mul-le_self, lt-div-mul-add, mul-le-mul_right, div-eq_of_lt-le,
}
use ssdfs_tools.Prelude.{
  ℕ, ◌+◌, ◌-◌, ◌*◌, ◌/◌, ◌^◌, ◌<◌, ◌≤◌, ◌≡◌, sym, ap, ◌∙◌, leb, Bool-cases, inl, inr, u32, arith,
}
use ssdfs_tools.LogLayout.{align}

module _ (p : ℕ) (some : 0 < p) where
  abbrev pages : ℕ → ℕ
  pages n = (n + (p - 1)) / p

  pub align_eq : (n : ℕ) → n + p < 2 ^ 32 → align p n ≡ (n + (p - 1)) / p * p
  unfolding align
  align_eq n small =
      let whole : u32 (n + (p - 1)) ≡ n + (p - 1) = omega (arith, small) in
      let less : (n + (p - 1)) / p * p ≤ n + (p - 1) = div-mul-le_self (n + (p - 1)) p in
      let same : u32 (n + (p - 1)) / p * p ≡ (n + (p - 1)) / p * p = ap (λ a. a / p * p) whole in
      omega (arith, less, same, small)

  pub align_bounds : (n : ℕ) → n + p < 2 ^ 32 → (n ≤ align p n) × (align p n < n + p)
  align_bounds n small =
      let e = align_eq n small in
      let above : n + (p - 1) < (n + (p - 1)) / p * p + p = lt-div-mul-add some in
      let less : (n + (p - 1)) / p * p ≤ n + (p - 1) = div-mul-le_self (n + (p - 1)) p in
      (omega (arith, e, above), omega (arith, e, less, some))

  -- Whole pages before what is rounded stay as they are.
  pub align_add : (q n : ℕ) → q * p + n + p < 2 ^ 32 → align p (q * p + n) ≡ q * p + align p n
  align_add q n small =
      let e = align_eq (q * p + n) small in
      let f = align_eq n (omega (arith, small)) in
      let up : (q + pages n + 1) * p ≡ q * p + pages n * p + p = grind arith in
      let down : (q + pages n) * p ≡ q * p + pages n * p = grind arith in
      let above : n + (p - 1) < (n + (p - 1)) / p * p + p = lt-div-mul-add some in
      let less : (n + (p - 1)) / p * p ≤ n + (p - 1) = div-mul-le_self (n + (p - 1)) p in
      let quotient : (q * p + n + (p - 1)) / p ≡ q + pages n =
        div-eq_of_lt-le p (omega (arith, down, less)) (omega (arith, up, above)) in
      let scaled : (q * p + n + (p - 1)) / p * p ≡ (q + pages n) * p = ap (λ a. a * p) quotient in
      omega (arith, e, f, scaled, down)

  pub align_mono : (n m : ℕ) → n ≤ m → m + p < 2 ^ 32 → align p n ≤ align p m
  align_mono n m less small = elim (Bool-cases (leb (pages n) (pages m))) [
    | inl y ↦
        let scaled : pages n * p ≤ pages m * p = mul-le-mul_right p (ground (arith, y)) in
        omega (arith, align_eq n (omega (arith, less, small)), align_eq m small, scaled)
    | inr y ↦
        let next : pages m + 1 ≤ pages n = ground (arith, y) in
        let scaled : (pages m + 1) * p ≤ pages n * p = mul-le-mul_right p next in
        let one : (pages m + 1) * p ≡ pages m * p + p = omega arith in
        let top : (n + (p - 1)) / p * p ≤ n + (p - 1) = div-mul-le_self (n + (p - 1)) p in
        let bottom : m + (p - 1) < (m + (p - 1)) / p * p + p = lt-div-mul-add some in
        absurd (omega (arith, scaled, one, top, bottom, less))
  ]

  pub align_zero : p < 2 ^ 31 → align p 0 ≡ 0
  align_zero small =
      let none : (0 + (p - 1)) / p ≡ 0 = div-eq_of_lt (omega (arith, some)) in
      align_eq 0 (omega (arith, small)) ∙ ap (λ a. a * p) none ∙ omega arith

  -- Whole pages behind what is rounded.
  pub align-align :
      (n m : ℕ) → n + m + 3 * p < 2 ^ 32 → align p (align p n + m) ≡ align p n + align p m
  align-align n m small =
      let e = align_eq n (omega (arith, small)) in
      let bounds = align_bounds n (omega (arith, small)) in
      ap (λ a. align p (a + m)) e
      ∙ align_add (pages n) m (omega (arith, e, bounds, small))
      ∙ ap (λ a. a + align p m) (sym e)

  pub align_one : (n : ℕ) → 0 < n → n ≤ p → p < 2 ^ 31 → align p n ≡ p
  align_one n more less small =
      let one : (n + (p - 1)) / p ≡ 1 =
        div-eq_of_lt-le p (omega (arith, more, some)) (omega (arith, less, some)) in
      align_eq n (omega (arith, less, small)) ∙ ap (λ a. a * p) one ∙ omega arith
