-- ===== src/Prelude/Patch.antt =====
-- Parts of a buffer: the bytes at an offset, and bytes written over those at an offset.
use Prim.Native.Nat.{ℕ, zero, suc, ◌+◌, ◌<◌, ◌≤◌}
use mathlib.Core.Path.{◌≡◌, refl, ap}
use mathlib.Core.List.{List, [], ◌∷◌}
use native.Mathlib.Omega.{arith}
use ssdfs_tools.Prelude.Lists.{length, get_or}

module _ {ℓ} {A : Type ℓ} where
  -- The `n` elements from index `k` on, less where the list ends before.
  abbrev pub window : ℕ → ℕ → List A → List A
  window zero zero xs = []
  window zero (suc n) [] = []
  window zero (suc n) (x ∷ xs) = x ∷ window zero n xs
  window (suc k) n [] = []
  window (suc k) n (x ∷ xs) = window k n xs

  -- The list with `vs` in place of what it has from index `k` on, as far as it goes.
  abbrev pub patch : ℕ → List A → List A → List A
  patch zero [] xs = xs
  patch zero (v ∷ vs) [] = []
  patch zero (v ∷ vs) (x ∷ xs) = v ∷ patch zero vs xs
  patch (suc k) vs [] = []
  patch (suc k) vs (x ∷ xs) = x ∷ patch k vs xs

module _ {ℓ} {A : Type ℓ} where
  pub length-patch : (k : ℕ) (vs xs : List A) → length (patch k vs xs) ≡ length xs
  length-patch zero [] xs = refl
  length-patch zero (v ∷ vs) [] = refl
  length-patch zero (v ∷ vs) (x ∷ xs) = ap suc (length-patch zero vs xs)
  length-patch (suc k) vs [] = refl
  length-patch (suc k) vs (x ∷ xs) = ap suc (length-patch k vs xs)

  pub get_or-patch_before :
      (k : ℕ) (vs xs : List A) (i : ℕ) (d : A) → i < k → get_or (patch k vs xs) i d ≡ get_or xs i d
  get_or-patch_before zero vs xs i d h = absurd (omega arith)
  get_or-patch_before (suc k) vs [] i d h = refl
  get_or-patch_before (suc k) vs (x ∷ xs) zero d h = refl
  get_or-patch_before (suc k) vs (x ∷ xs) (suc i) d h =
      get_or-patch_before k vs xs i d (omega arith)

  pub patch-patch :
      (k : ℕ) (vs ws xs : List A)
      → length vs ≡ length ws
      → patch k ws (patch k vs xs) ≡ patch k ws xs
  patch-patch zero [] [] xs h = refl
  patch-patch zero [] (w ∷ ws) xs h = absurd (omega arith)
  patch-patch zero (v ∷ vs) [] xs h = absurd (omega arith)
  patch-patch zero (v ∷ vs) (w ∷ ws) [] h = refl
  patch-patch zero (v ∷ vs) (w ∷ ws) (x ∷ xs) h =
      ap (λ r. w ∷ r) (patch-patch zero vs ws xs (omega arith))
  patch-patch (suc k) vs ws [] h = refl
  patch-patch (suc k) vs ws (x ∷ xs) h = ap (λ r. x ∷ r) (patch-patch k vs ws xs h)

  pub patch-window : (k n : ℕ) (xs : List A) → patch k (window k n xs) xs ≡ xs
  patch-window zero zero xs = refl
  patch-window zero (suc n) [] = refl
  patch-window zero (suc n) (x ∷ xs) = ap (λ r. x ∷ r) (patch-window zero n xs)
  patch-window (suc k) n [] = refl
  patch-window (suc k) n (x ∷ xs) = ap (λ r. x ∷ r) (patch-window k n xs)

  pub length-window : (k n : ℕ) (xs : List A) → k + n ≤ length xs → length (window k n xs) ≡ n
  length-window zero zero xs h = refl
  length-window zero (suc n) [] h = absurd (omega arith)
  length-window zero (suc n) (x ∷ xs) h = ap suc (length-window zero n xs (omega arith))
  length-window (suc k) n [] h = absurd (omega arith)
  length-window (suc k) n (x ∷ xs) h = length-window k n xs (omega arith)

  pub window-patch :
      (k : ℕ) (vs xs : List A)
      → k + length vs ≤ length xs
      → window k (length vs) (patch k vs xs) ≡ vs
  window-patch zero [] xs h = refl
  window-patch zero (v ∷ vs) [] h = absurd (omega arith)
  window-patch zero (v ∷ vs) (x ∷ xs) h = ap (λ r. v ∷ r) (window-patch zero vs xs (omega arith))
  window-patch (suc k) vs [] h = absurd (omega arith)
  window-patch (suc k) vs (x ∷ xs) h = window-patch k vs xs (omega arith)
