-- ===== src/LittleEndian/Windows.antt =====
-- Writes into a buffer that is known as parts one behind the other.
use ssdfs_tools.Prelude.{
  ℕ, zero, suc, ◌+◌, ◌-◌, ◌≤◌, ◌⊎◌, length-window, ◌≡◌, refl, sym, ap, ◌∙◌, List, [], ◌∷◌, ◌++◌,
  length, length-append, window, patch, drop, arith,
}

module _ {ℓ} {A : Type ℓ} where
  -- A write behind the first part, and a read there.
  pub patch-append :
      (xs ys vs : List A) (k : ℕ) → patch (length xs + k) vs (xs ++ ys) ≡ xs ++ patch k vs ys
  patch-append [] ys vs k = let e : 0 + k ≡ k = omega arith in ap (λ n. patch n vs ys) e
  patch-append (x ∷ xs) ys vs k =
      let e : suc (length xs) + k ≡ suc (length xs + k) = omega arith in
      ap (λ n. patch n vs (x ∷ (xs ++ ys))) e ∙ ap (λ l. x ∷ l) (patch-append xs ys vs k)

  pub window-append :
      (xs ys : List A) (k n : ℕ) → window (length xs + k) n (xs ++ ys) ≡ window k n ys
  window-append [] ys k n = let e : 0 + k ≡ k = omega arith in ap (λ m. window m n ys) e
  window-append (x ∷ xs) ys k n =
      let e : suc (length xs) + k ≡ suc (length xs + k) = omega arith in
      ap (λ m. window m n (x ∷ (xs ++ ys))) e ∙ window-append xs ys k n

  -- The first part itself.
  pub window_first : (xs ys : List A) → window 0 (length xs) (xs ++ ys) ≡ xs
  window_first [] ys = refl
  window_first (x ∷ xs) ys = ap (λ l. x ∷ l) (window_first xs ys)

  pub patch_first : (vs xs ys : List A) → length vs ≡ length xs → patch 0 vs (xs ++ ys) ≡ vs ++ ys
  patch_first [] [] ys h = refl
  patch_first [] (x ∷ xs) ys h = absurd (omega arith)
  patch_first (v ∷ vs) [] ys h = absurd (omega arith)
  patch_first (v ∷ vs) (x ∷ xs) ys h = ap (λ l. v ∷ l) (patch_first vs xs ys (omega arith))

  -- A write that runs to the end of what is there, and further.
  pub patch_over :
      (vs xs : List A) → length vs ≤ length xs → patch 0 vs xs ≡ vs ++ drop (length vs) xs
  patch_over [] xs h = refl
  patch_over (v ∷ vs) [] h = absurd (omega arith)
  patch_over (v ∷ vs) (x ∷ xs) h = ap (λ l. v ∷ l) (patch_over vs xs (omega arith))

  drop_nil : (m : ℕ) → ◌≡◌ {A = List A} (drop m []) []
  drop_nil zero = refl
  drop_nil (suc m) = refl

  pub drop-append : (xs ys : List A) (g : ℕ) → drop (length xs + g) (xs ++ ys) ≡ drop g ys
  drop-append [] ys g = let e : 0 + g ≡ g = omega arith in ap (λ n. drop n ys) e
  drop-append (x ∷ xs) ys g =
      let e : suc (length xs) + g ≡ suc (length xs + g) = omega arith in
      ap (λ n. drop n (x ∷ (xs ++ ys))) e ∙ drop-append xs ys g

  pub drop-drop : (m n : ℕ) (xs : List A) → drop m (drop n xs) ≡ drop (n + m) xs
  drop-drop m zero xs = let e : m ≡ 0 + m = omega arith in ap (λ k. drop k xs) e
  drop-drop m (suc n) [] =
      let e : suc (n + m) ≡ suc n + m = omega arith in drop_nil m ∙ ap (λ k. drop {A = A} k []) e
  drop-drop m (suc n) (x ∷ xs) =
      let e : suc (n + m) ≡ suc n + m = omega arith in
      drop-drop m n xs ∙ ap (λ k. drop k (x ∷ xs)) e

  pub split_at : (g : ℕ) (xs : List A) → window 0 g xs ++ drop g xs ≡ xs
  split_at zero xs = refl
  split_at (suc g) [] = refl
  split_at (suc g) (x ∷ xs) = ap (λ l. x ∷ l) (split_at g xs)

  pub length-drop : (g : ℕ) (xs : List A) → length (drop g xs) ≡ length xs - g
  length-drop zero xs = omega arith
  length-drop (suc g) [] = omega arith
  length-drop (suc g) (x ∷ xs) = omega (arith, length-drop g xs)

  -- A part copied `g` places to the right leaves a gap of `g` elements before it.
  pub patch_right :
      (g : ℕ) (bs cs : List A)
      → g ≤ length cs
      → patch g bs (bs ++ cs) ≡ window 0 g (bs ++ cs) ++ (bs ++ drop g cs)
  patch_right g bs cs h =
      ap (patch g bs) (sym (split_at g (bs ++ cs)))
      ∙ ap (λ n. patch n bs (window 0 g (bs ++ cs) ++ drop g (bs ++ cs))) here
      ∙ patch-append (window 0 g (bs ++ cs)) (drop g (bs ++ cs)) bs 0
      ∙ ap (λ l. window 0 g (bs ++ cs) ++ l)
          (patch_over bs (drop g (bs ++ cs)) (omega (arith, length-drop g (bs ++ cs), all))
            ∙ ap (λ l. bs ++ l)
                (drop-drop (length bs) g (bs ++ cs)
                  ∙ ap (λ n. drop n (bs ++ cs)) flip
                  ∙ drop-append bs cs g))
    where
      all : length (bs ++ cs) ≡ length bs + length cs
      all = length-append bs cs

      here : g ≡ length (window 0 g (bs ++ cs)) + 0
      here = omega (arith, length-window 0 g (bs ++ cs) (omega (arith, all, h)))

      flip : g + length bs ≡ length bs + g
      flip = omega arith

  pub window_apart :
      (k n j : ℕ) (vs xs : List A)
      → ((k + n ≤ j) ⊎ (j + length vs ≤ k))
      → window k n (patch j vs xs) ≡ window k n xs
  window_apart zero zero j vs xs h = refl
  window_apart zero (suc n) zero [] xs h = refl
  window_apart zero (suc n) zero (v ∷ vs) xs h = ground arith
  window_apart zero (suc n) (suc j) vs [] h = refl
  window_apart zero (suc n) (suc j) vs (x ∷ xs) h =
      ap (λ l. x ∷ l) (window_apart zero n j vs xs (ground arith))
  window_apart (suc k) n zero [] xs h = refl
  window_apart (suc k) n zero (v ∷ vs) [] h = refl
  window_apart (suc k) n zero (v ∷ vs) (x ∷ xs) h = window_apart k n zero vs xs (ground arith)
  window_apart (suc k) n (suc j) vs [] h = refl
  window_apart (suc k) n (suc j) vs (x ∷ xs) h = window_apart k n j vs xs (ground arith)

  pub window_prefix :
      (xs ys : List A) (k n : ℕ) → k + n ≤ length xs → window k n (xs ++ ys) ≡ window k n xs
  window_prefix xs ys zero zero h = refl
  window_prefix [] ys zero (suc n) h = absurd (omega arith)
  window_prefix (x ∷ xs) ys zero (suc n) h =
      ap (λ l. x ∷ l) (window_prefix xs ys zero n (omega arith))
  window_prefix [] ys (suc k) n h = absurd (omega arith)
  window_prefix (x ∷ xs) ys (suc k) n h = window_prefix xs ys k n (omega arith)

  pub patch_prefix :
      (xs ys vs : List A) (k : ℕ)
      → k + length vs ≤ length xs
      → patch k vs (xs ++ ys) ≡ patch k vs xs ++ ys
  patch_prefix xs ys [] zero h = refl
  patch_prefix [] ys (v ∷ vs) zero h = absurd (omega arith)
  patch_prefix (x ∷ xs) ys (v ∷ vs) zero h =
      ap (λ l. v ∷ l) (patch_prefix xs ys vs zero (omega arith))
  patch_prefix [] ys vs (suc k) h = absurd (omega arith)
  patch_prefix (x ∷ xs) ys vs (suc k) h = ap (λ l. x ∷ l) (patch_prefix xs ys vs k (omega arith))
