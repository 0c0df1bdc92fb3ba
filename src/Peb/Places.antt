-- ===== src/Peb/Places.antt =====
-- The offsets in the order of the search of ssdfs_find_any_valid_peb.
use ssdfs_tools.Prelude.{
  ℕ, zero, suc, ◌+◌, ◌-◌, ◌*◌, ◌/◌, ◌^◌, ◌<◌, ◌≤◌, ◌≡◌, refl, sym, ap, ◌∙◌, inl, inr, false,
  Bool-cases, leb, if◌then◌else◌, subst, ◌==◌, u64, arith,
}
use native.Mathlib.Nat.{mul-div_cancel, div-eq_of_lt}
use ssdfs_tools.Peb.{reserved_vbr_size, header_offset}

-- The offsets in the order of the search: behind the boot record of PEB 0, and then the first bytes
-- of the PEBs 1, 3, 7, 15 and so on.
abbrev pub place : ℕ → ℕ → ℕ
place erase_size zero = reserved_vbr_size
place erase_size (suc k) = (2 ^ suc k - 1) * erase_size

pow-pos : (k : ℕ) → 0 < 2 ^ k
pow-pos zero = omega arith
pow-pos (suc k) = omega (arith, pow-pos k)

step-place : (p e : ℕ) → 0 < p → (2 * p - 1) * e ≡ (p - 1) * e + p * e
step-place zero e h = absurd (omega arith)
step-place (suc q) e h =
    let a : 2 * suc q - 1 ≡ q + suc q = omega arith in
    let b : suc q - 1 ≡ q = omega arith in rw (a, b) (omega arith)

twice : (k e : ℕ) → 2 ^ suc k * e ≡ 2 ^ k * e + 2 ^ k * e
twice k e =
    let d : 2 ^ suc k ≡ 2 ^ k + 2 ^ k = omega arith in
    let s : (2 ^ k + 2 ^ k) * e ≡ 2 ^ k * e + 2 ^ k * e = omega arith in ap (λ p. p * e) d ∙ s

abbrev pub factor : ℕ → ℕ
factor zero = 1
factor (suc k) = 2 ^ k

module _ (e : ℕ) (large : 1024 < e) where
  place-suc : (k : ℕ) → place e (suc (suc k)) ≡ place e (suc k) + 2 ^ suc k * e
  place-suc k =
      let d : 2 ^ suc (suc k) - 1 ≡ 2 * 2 ^ suc k - 1 = omega arith in
      ap (λ p. p * e) d ∙ step-place (2 ^ suc k) e (pow-pos (suc k))

  place-pos : (k : ℕ) → e ≤ place e (suc k)
  place-pos zero = omega arith
  place-pos (suc k) = omega (arith, place-pos k, place-suc k)

  pub place-grows : (k : ℕ) → place e k < place e (suc k)
  place-grows zero = omega (arith, place-pos zero)
  place-grows (suc k) =
      let p = pow-pos (suc k) in
      let m : 1 * e ≤ 2 ^ suc k * e = grind arith in omega (arith, place-suc k, m)

  pub place_mono : (n k : ℕ) → k ≤ n → place e k ≤ place e n
  place_mono zero zero h = omega arith
  place_mono zero (suc k) h = absurd (omega arith)
  place_mono (suc n) k h = elim (Bool-cases (leb k n)) [
    | inl y ↦ omega (arith, place_mono n k (ground arith), place-grows n)
    | inr z ↦
        let same : k ≡ suc n = ground arith in
        subst (λ j. place e j ≤ place e (suc n)) (sym same) (omega arith)
  ]

  pub header_offset-place :
      (k : ℕ) → place e k < 2 ^ 62 → header_offset (place e k / e) e 0 ≡ place e k
  header_offset-place zero h = let q : 1024 / e ≡ 0 = div-eq_of_lt large in rw q
  header_offset-place (suc k) h =
      let q : (2 ^ suc k - 1) * e / e ≡ 2 ^ suc k - 1 =
        mul-div_cancel (2 ^ suc k - 1) (omega arith) in
      let small : (2 ^ suc k - 1) * e < 2 ^ 62 = h in
      let p = pow-pos k in
      let n : (2 ^ suc k - 1 == 0) ≡ false = ground arith in rw (q, n) (omega (arith, small))

  -- The factor and the offset of the round behind the one at place `k`.
  pub next_factor :
      (k : ℕ)
      → place e k < 2 ^ 62
      → (if place e k == 1024 then factor k else u64 (factor k * 2)) ≡ factor (suc k)
  next_factor zero h = refl
  next_factor (suc k) h =
      let b = place-pos k in
      let small : (2 ^ suc k - 1) * e < 2 ^ 62 = h in
      let other : ((2 ^ suc k - 1) * e == 1024) ≡ false = ground arith in
      let m : 2 ^ k * 1 ≤ 2 ^ k * e = grind arith in
      let d : (2 ^ suc k - 1) * e ≡ (2 ^ k - 1) * e + 2 ^ k * e =
        ap (λ p. (p - 1) * e) (omega arith) ∙ step-place (2 ^ k) e (pow-pos k) in
      let g : u64 (2 ^ k * 2) ≡ 2 ^ suc k = omega (arith, small, m, d) in rw other g

  pub next_offset :
      (k : ℕ)
      → place e k < 2 ^ 62
      → (if place e k == 1024 then e else u64 (place e k + u64 (factor (suc k) * e)))
        ≡ place e (suc k)
  next_offset zero h = omega arith
  next_offset (suc k) h =
      let b = place-pos k in
      let small : (2 ^ suc k - 1) * e < 2 ^ 62 = h in
      let other : ((2 ^ suc k - 1) * e == 1024) ≡ false = ground arith in
      let d : (2 ^ suc k - 1) * e ≡ (2 ^ k - 1) * e + 2 ^ k * e =
        ap (λ p. (p - 1) * e) (omega arith) ∙ step-place (2 ^ k) e (pow-pos k) in
      let t = twice k e in rw other (omega (arith, small, d, t, place-suc k))
