-- ===== src/Maptbl/Correct.antt =====
-- correct_maptbl_stripes_per_portion: the stripes that it leaves.
use native.Mathlib.Nat.{div-add-mod', mod-lt, mul-mod_left}
use ssdfs_tools.Prelude.{
  ℕ, ◌+◌, ◌-◌, ◌*◌, ◌/◌, ◌%◌, ◌^◌, ◌<◌, ◌≤◌, ◌≡◌, refl, ap, ◌∙◌, true, false, ltb, ◌==◌, Bool-cases,
  inl, inr, u16, Outcome, ok, arith,
}
use ssdfs_tools.Maptbl.{correct_maptbl_stripes_per_portion}

pub record IsCorrected (stripes nand_dies : ℕ) (answer : Outcome ℕ) : Type 0 where
  pub value : ℕ
  pub made : answer ≡ ok value
  pub some : 0 < value
  pub at_most : value ≤ stripes
  pub even : nand_dies < stripes → value % nand_dies ≡ 0
  pub odd : stripes < nand_dies → value + nand_dies % stripes ≡ stripes

even_part : (n d : ℕ) → (n - n % d) % d ≡ 0
even_part n d =
    let whole = div-add-mod' n d in
    let part : n - n % d ≡ n / d * d = omega (arith, whole) in
    ap (λ k. k % d) part ∙ mul-mod_left (n / d) d

module _ (s d : ℕ) (some : 0 < s) (word : s < 2 ^ 16) (dies : 0 < d) where
  with_more : d < s → IsCorrected s d (correct_maptbl_stripes_per_portion s d)
  unfolding correct_maptbl_stripes_per_portion
  with_more above =
      let more : ltb d s ≡ true = ground (arith, above) in
      let none : (d == 0) ≡ false = ground (arith, dies) in
      let left = mod-lt s dies in
      elim (Bool-cases (s % d == 0)) [
        | inl even ↦ record {
          value = s;
          made = rw (more, none, even) refl;
          some = some;
          at_most = omega arith;
          even = λ _. ground (arith, even);
          odd = λ below. absurd (omega (arith, below, above));
        }
        | inr odd ↦
            let fits : u16 (s - s % d) ≡ s - s % d = omega (arith, word) in
            record {
              value = s - s % d;
              made = rw (more, none, odd, fits) refl;
              some = omega (arith, left, above);
              at_most = omega arith;
              even = λ _. even_part s d;
              odd = λ below. absurd (omega (arith, below, above));
            }
      ]

  with_fewer : s < d → IsCorrected s d (correct_maptbl_stripes_per_portion s d)
  unfolding correct_maptbl_stripes_per_portion
  with_fewer below =
      let upto : ltb d s ≡ false = ground (arith, below) in
      let fewer : ltb s d ≡ true = ground (arith, below) in
      let none : (s == 0) ≡ false = ground (arith, some) in
      let left = mod-lt d some in
      elim (Bool-cases (d % s == 0)) [
        | inl even ↦ record {
          value = s;
          made = rw (upto, fewer, none, even) refl;
          some = some;
          at_most = omega arith;
          even = λ above. absurd (omega (arith, above, below));
          odd = λ _. let z : d % s ≡ 0 = ground (arith, even) in omega (arith, z);
        }
        | inr odd ↦
            let fits : u16 (s + 2 ^ 16 - u16 (d % s)) ≡ s - d % s = omega (arith, word, left) in
            record {
              value = s - d % s;
              made = rw (upto, fewer, none, odd, fits) refl;
              some = omega (arith, left);
              at_most = omega arith;
              even = λ above. absurd (omega (arith, above, below));
              odd = λ _. omega (arith, left);
            }
      ]

  with_as_many : s ≡ d → IsCorrected s d (correct_maptbl_stripes_per_portion s d)
  unfolding correct_maptbl_stripes_per_portion
  with_as_many same =
      let upto : ltb d s ≡ false = ground (arith, same) in
      let downto : ltb s d ≡ false = ground (arith, same) in
      record {
        value = s;
        made = rw (upto, downto) refl;
        some = some;
        at_most = omega arith;
        even = λ above. absurd (omega (arith, above, same));
        odd = λ below. absurd (omega (arith, below, same));
      }

-- For stripes of 16 bits and at least one die, the correction leaves at least one stripe and no more
-- than there were; more stripes than dies become a multiple of the dies, and fewer are lessened by the
-- dies that they leave over.
pub correct_maptbl_stripes_per_portion_lem :
    (stripes nand_dies : ℕ)
    → 0 < stripes
    → stripes < 2 ^ 16
    → 0 < nand_dies
    → IsCorrected stripes nand_dies (correct_maptbl_stripes_per_portion stripes nand_dies)
correct_maptbl_stripes_per_portion_lem s d some word dies = elim (Bool-cases (ltb d s)) [
  | inl t ↦ with_more s d some word dies (ground (arith, t))
  | inr t ↦ elim (Bool-cases (ltb s d)) [
    | inl u ↦ with_fewer s d some word dies (ground (arith, u))
    | inr u ↦ with_as_many s d some word dies (ground (arith, t, u))
  ]
]
