-- ===== src/Granularity/Names.antt =====
-- No name of detect_granularity hides another.
use ssdfs_tools.Prelude.{
  ℕ, zero, suc, ◌<◌, ◌≡◌, ◌≢◌, refl, sym, ◌∙◌, Bool, true, false, Bool-cases, inl, inr, ◌↔◌, ◌⊎◌,
  ◌==◌, if◌then◌else◌, List, [], ◌∷◌, length, get_or, u64_max, arith,
}
use ssdfs_tools.Granularity.{
  codes, lower, check_string, granularities, first_match, detect_granularity,
}

-- Two names that no string begins with both of.
abbrev apart : List ℕ → List ℕ → Bool
apart [] b = false
apart (x ∷ a) [] = false
apart (x ∷ a) (y ∷ b) = if lower x == lower y then apart a b else true

apart-check_string :
    (a b str : List ℕ) → apart a b ≡ true → check_string str a ≡ true → check_string str b ≡ false
unfolding check_string
apart-check_string [] b str h p = cc
apart-check_string (x ∷ a) [] str h p = cc
apart-check_string (x ∷ a) (y ∷ b) [] h p = cc
apart-check_string (x ∷ a) (y ∷ b) (d ∷ str) h p = ground (arith, apart-check_string a b str)

apart_from : List ℕ → List (List ℕ × ℕ) → Bool
apart_from name [] = true
apart_from name ((other, size) ∷ rest) = if apart name other then apart_from name rest else false

pairwise_apart : List (List ℕ × ℕ) → Bool
unfolding apart_from
pairwise_apart [] = true
pairwise_apart ((name, size) ∷ rest) = if apart_from name rest then pairwise_apart rest else false

granularities-apart : pairwise_apart granularities ≡ true
unfolding pairwise_apart
granularities-apart = refl

-- A string that begins with a name apart from all others matches none of them.
apart_from-first_match :
    (name : List ℕ) (table : List (List ℕ × ℕ)) (str : List ℕ)
    → apart_from name table ≡ true
    → check_string str name ≡ true
    → first_match table str ≡ u64_max
unfolding apart_from first_match
apart_from-first_match name [] str h p = refl
apart_from-first_match name ((other, size) ∷ rest) str h p =
    ground (arith, apart-check_string name other str, apart_from-first_match name rest str)

-- `str` begins with the name of an entry of the table for `size`.
pub record Names (table : List (List ℕ × ℕ)) (str : List ℕ) (size : ℕ) : Type 0 where
  pub index : ℕ
  pub below : index < length table
  pub begins : check_string str (get_or table index ([], 0)).0 ≡ true
  pub returns : (get_or table index ([], 0)).1 ≡ size

Names-suc :
    (entry : List ℕ × ℕ) (table : List (List ℕ × ℕ)) (str : List ℕ) (size : ℕ)
    → Names table str size
    → Names (entry ∷ table) str size
Names-suc entry table str size n = record {
  index = suc n.index;
  below = omega (arith, n.below);
  begins = n.begins;
  returns = n.returns;
}

first_match-Names :
    (table : List (List ℕ × ℕ)) (str : List ℕ) (size : ℕ)
    → size ≢ u64_max
    → first_match table str ≡ size
    → Names table str size
unfolding first_match
first_match-Names [] str size known e = absurd (known (sym e))
first_match-Names ((name, s) ∷ rest) str size known e = elim (Bool-cases (check_string str name)) [
  | inl y ↦ record { index = 0; below = omega arith; begins = y; returns = ground arith }
  | inr n ↦ Names-suc (name, s) rest str size (first_match-Names rest str size known (rw n at e))
]

apart_from-get :
    (name : List ℕ) (table : List (List ℕ × ℕ)) (i : ℕ)
    → apart_from name table ≡ true
    → i < length table
    → apart name (get_or table i ([], 0)).0 ≡ true
unfolding apart_from
apart_from-get name [] i h p = absurd (omega arith)
apart_from-get name ((other, s) ∷ rest) zero h p = ground arith
apart_from-get name ((other, s) ∷ rest) (suc i) h p = ground (arith, apart_from-get name rest i)

Names-first_match :
    (table : List (List ℕ × ℕ)) (str : List ℕ) (size i : ℕ)
    → pairwise_apart table ≡ true
    → i < length table
    → check_string str (get_or table i ([], 0)).0 ≡ true
    → (get_or table i ([], 0)).1 ≡ size
    → first_match table str ≡ size
unfolding first_match pairwise_apart
Names-first_match [] str size i h p b r = absurd (omega arith)
Names-first_match ((name, s) ∷ rest) str size zero h p b r = rw b r
Names-first_match ((name, s) ∷ rest) str size (suc i) h p b r =
    elim (Bool-cases (check_string str name)) [
      | inl y ↦ cc (
          sym b
          ∙ apart-check_string name _ str (apart_from-get name rest i (ground arith) (omega arith))
              y)
      | inr n ↦ rw n (Names-first_match rest str size i (ground arith) (omega arith) b r)
    ]

-- detect_granularity returns a size other than U64_MAX exactly for the strings that begin, in
-- either case of the letters, with a name that its tests have for that size: no test hides a
-- later one.
pub detect_granularity_iff :
    (str : List ℕ) (size : ℕ)
    → size ≢ u64_max
    → (detect_granularity str ≡ size) ↔ Names granularities str size
unfolding detect_granularity
detect_granularity_iff str size known = (
  first_match-Names granularities str size known,
  λ n.
      Names-first_match granularities str size n.index granularities-apart n.below n.begins
        n.returns,
)

-- The tests have no name "4GB", and "265B" for the size of 256 bytes: a string that begins with
-- "4GB" or with "256B" gives U64_MAX.
pub detect_granularity-misses :
    (str : List ℕ)
    → (check_string str (codes "4GB") ≡ true) ⊎ (check_string str (codes "256B") ≡ true)
    → detect_granularity str ≡ u64_max
unfolding detect_granularity apart_from
detect_granularity-misses str (inl h) =
    apart_from-first_match (codes "4GB") granularities str refl h
detect_granularity-misses str (inr h) =
    apart_from-first_match (codes "256B") granularities str refl h
