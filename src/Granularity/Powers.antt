-- ===== src/Granularity/Powers.antt =====
-- The sizes that the checks accept, in closed form.
use ssdfs_tools.Prelude.{
  ℕ, zero, suc, ◌+◌, ◌^◌, ◌<◌, ◌≤◌, ◌≡◌, ◌≢◌, refl, sym, ◌∙◌, ap, ◌↔◌, Bool, true, false,
  Bool-cases, inl, inr, ◌==◌, ==_iff, if◌then◌else◌, List, [], ◌∷◌, Outcome, ok, err, eopnotsupp,
  arith,
}
use ssdfs_tools.Granularity.{
  one_of, page_sizes, segment_sizes, erase_sizes, check_pagesize, check_segsize, check_erasesize,
}

-- `n` powers of two, from the `a`-th on.
powers : ℕ → ℕ → List ℕ
powers a zero = []
powers a (suc n) = 2 ^ a ∷ powers (a + 1) n

abbrev pub IsPower : ℕ → ℕ → ℕ → Type 0
IsPower lo hi size = (k : ℕ) × (lo ≤ k) × (k < hi) × (size ≡ 2 ^ k)

one_of-IsPower : (a n size : ℕ) → one_of (powers a n) size ≡ true → IsPower a (a + n) size
unfolding powers one_of
one_of-IsPower a zero size h = cc
one_of-IsPower a (suc n) size h = elim (Bool-cases (size == 2 ^ a)) [
  | inl y ↦ (a, omega arith, omega arith, (==_iff _ _).0 y)
  | inr n' ↦
      let r = one_of-IsPower (a + 1) n size (rw n' at h) in
      (r.0, omega (arith, r.1), omega (arith, r.2), r.3)
]

IsPower-one_of : (a n k : ℕ) → a ≤ k → k < a + n → one_of (powers a n) (2 ^ k) ≡ true
unfolding powers one_of
IsPower-one_of a zero k p q = absurd (omega arith)
IsPower-one_of a (suc n) k p q = elim (Bool-cases (2 ^ k == 2 ^ a)) [
  | inl y ↦ rw y
  | inr n' ↦
      let differ : k ≢ a = λ e. cc (sym n' ∙ (==_iff (2 ^ k) (2 ^ a)).1 (ap (λ i. 2 ^ i) e)) in
      rw n' (IsPower-one_of (a + 1) n k (omega arith) (omega arith))
]

switch_iff : (a n size : ℕ) → (one_of (powers a n) size ≡ true) ↔ IsPower a (a + n) size
switch_iff a n size = (one_of-IsPower a n size, λ w. rw w.3 (IsPower-one_of a n w.0 w.1 w.2))

switch_ok :
    (b : Bool)
    → (◌≡◌ {A = Outcome (Unit {0})} (if b then ok tt else err eopnotsupp) (ok tt)) ↔ (b ≡ true)
switch_ok true = (λ h. refl, λ h. refl)
switch_ok false = (λ h. cc, λ h. cc)

-- __check_pagesize accepts the powers of two from 4 KB to 32 KB, __check_segsize those from 128 KB
-- to 64 GB, __check_erasesize those from 128 KB to 2 GB, and no other value.
pub size_checks_iff :
    (size : ℕ)
    → ((check_pagesize size ≡ ok tt) ↔ IsPower 12 16 size)
      × ((check_segsize size ≡ ok tt) ↔ IsPower 17 37 size)
      × ((check_erasesize size ≡ ok tt) ↔ IsPower 17 32 size)
unfolding check_pagesize check_segsize check_erasesize powers
size_checks_iff size = (
  (
    λ h. (switch_iff 12 4 size).0 ((switch_ok (one_of page_sizes size)).0 h),
    λ w. (switch_ok (one_of page_sizes size)).1 ((switch_iff 12 4 size).1 w),
  ),
  (
    λ h. (switch_iff 17 20 size).0 ((switch_ok (one_of segment_sizes size)).0 h),
    λ w. (switch_ok (one_of segment_sizes size)).1 ((switch_iff 17 20 size).1 w),
  ),
  (
    λ h. (switch_iff 17 15 size).0 ((switch_ok (one_of erase_sizes size)).0 h),
    λ w. (switch_ok (one_of erase_sizes size)).1 ((switch_iff 17 15 size).1 w),
  ),
)
