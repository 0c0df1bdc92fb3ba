-- ===== src/Csum/Valid.antt =====
-- When a checksum is valid, and what the functions leave of the buffer.
use ssdfs_tools.Prelude.{
  ℕ, ◌+◌, ◌≤◌, ◌<◌, ◌≡◌, ◌≢◌, refl, sym, ap, ◌∙◌, subst, ◌↔◌, ◌⊎◌, inl, inr, Bool, true, false,
  Bool-cases, ltb, ◌==◌, List, [], ◌∷◌, length, window, length-patch, get_or-patch_before,
  patch-patch, patch-window, length-window, window-patch, bit_and, ok, err, einval, arith,
  ok-injective,
}
use ssdfs_tools.Csum.{
  le16, check_bytes, check_flags, check_csum, set_check_csum, check_size, csum_crc32, compare_csum,
  same_bytes, ssdfs_crc32_le, ssdfs_calculate_csum, is_csum_valid,
}

same_bytes_refl : (xs : List ℕ) → same_bytes xs xs ≡ true
same_bytes_refl [] = refl
same_bytes_refl (x ∷ xs) = let rest = same_bytes_refl xs in ground arith

same_bytes-eq : (xs ys : List ℕ) → same_bytes xs ys ≡ true → xs ≡ ys
same_bytes-eq [] [] h = refl
same_bytes-eq [] (y ∷ ys) h = absurd (ground arith)
same_bytes-eq (x ∷ xs) [] h = absurd (ground arith)
same_bytes-eq (x ∷ xs) (y ∷ ys) h = elim (Bool-cases (x == y)) [
  | inl e ↦
      let head : x ≡ y = ground arith in
      let tail : same_bytes xs ys ≡ true = ground arith in
      ap (λ a. a ∷ xs) head ∙ ap (λ l. y ∷ l) (same_bytes-eq xs ys tail)
  | inr n ↦ absurd (ground arith)
]

-- The buffer with zeros in place of the sum.
abbrev pub zeroed : ℕ → List ℕ → List ℕ
zeroed at buf = set_check_csum at (0 ∷ 0 ∷ 0 ∷ 0 ∷ []) buf

-- What both functions need of the buffer: the check lies in it, the covered bytes do, as the check
-- asks for them, and the sum is a CRC.
pub record Checkable (at : ℕ) (buf : List ℕ) (buf_size : ℕ) : Type 0 where
  pub in_buffer : at + check_size ≤ length buf
  pub covered : check_bytes at buf ≤ buf_size
  pub readable : check_bytes at buf ≤ length buf
  pub is_crc : bit_and (check_flags at buf) csum_crc32 ≢ 0

module _ (crc32 : ℕ → List ℕ → ℕ) (at : ℕ) where
  -- The sum that the functions compute of a buffer.
  abbrev pub sum_of : List ℕ → List ℕ
  sum_of buf = ssdfs_crc32_le crc32 (window 0 (check_bytes at buf) (zeroed at buf))

  calculate-ok :
      (buf : List ℕ) (buf_size : ℕ)
      → Checkable at buf buf_size
      → ssdfs_calculate_csum crc32 at buf buf_size
        ≡ ok (set_check_csum at (sum_of buf) (zeroed at buf))
  unfolding ssdfs_calculate_csum
  calculate-ok buf buf_size c =
      let a : ltb (length buf) (at + 8) ≡ false = ground (arith, c.in_buffer) in
      let b : ltb buf_size (check_bytes at buf) ≡ false = ground (arith, c.covered) in
      let d : (bit_and (check_flags at buf) csum_crc32 == 0) ≡ false = ground (arith, c.is_crc) in
      let e : ltb (length buf) (check_bytes at buf) ≡ false = ground (arith, c.readable) in
      rw (a, b, d, e)

  calculate-Checkable :
      (buf : List ℕ) (buf_size : ℕ) (out : List ℕ)
      → ssdfs_calculate_csum crc32 at buf buf_size ≡ ok out
      → Checkable at buf buf_size
  unfolding ssdfs_calculate_csum
  calculate-Checkable buf buf_size out h = record {
    in_buffer = ground arith;
    covered = ground arith;
    readable = ground arith;
    is_crc = ground arith;
  }

  restored :
      (buf sum : List ℕ)
      → at + check_size ≤ length buf
      → length sum ≡ 4
      → set_check_csum at (check_csum at buf) (set_check_csum at sum (zeroed at buf)) ≡ buf
  restored buf sum h four =
      let w : length (check_csum at buf) ≡ 4 = length-window (at + 4) 4 buf (omega (arith, h)) in
      patch-patch (at + 4) sum (check_csum at buf) (zeroed at buf) (four ∙ sym w)
      ∙ patch-patch (at + 4) (0 ∷ 0 ∷ 0 ∷ 0 ∷ []) (check_csum at buf) buf (sym w)
      ∙ patch-window (at + 4) 4 buf

  csum-set :
      (buf : List ℕ) (buf_size : ℕ)
      → Checkable at buf buf_size
      → check_csum at (set_check_csum at (sum_of buf) (zeroed at buf)) ≡ sum_of buf
  csum-set buf buf_size c =
      window-patch (at + 4) (sum_of buf) (zeroed at buf)
        (omega (arith, c.in_buffer, length-patch (at + 4) (0 ∷ 0 ∷ 0 ∷ 0 ∷ []) buf))

  is_csum_valid-eq :
      (buf : List ℕ) (buf_size : ℕ)
      → Checkable at buf buf_size
      → is_csum_valid crc32 at buf buf_size ≡ ok (same_bytes (check_csum at buf) (sum_of buf), buf)
  unfolding is_csum_valid
  is_csum_valid-eq buf buf_size c =
      ap (compare_csum at buf) (calculate-ok buf buf_size c)
      ∙ ap (λ sum. ok (same_bytes (check_csum at buf) sum, kept)) (csum-set buf buf_size c)
      ∙ ap (λ b. ok (same_bytes (check_csum at buf) (sum_of buf), b))
          (restored buf (sum_of buf) c.in_buffer refl)
    where
      kept : List ℕ
      kept = set_check_csum at (check_csum at buf) (set_check_csum at (sum_of buf) (zeroed at buf))

  -- The fields before the sum are those of the buffer, whatever the sum is.
  le16-set :
      (k : ℕ) (buf sum : List ℕ) → k < at + 3 → le16 k (set_check_csum at sum buf) ≡ le16 k buf
  le16-set k buf sum h = rw (
    get_or-patch_before (at + 4) sum buf k 0 (omega (arith, h)),
    get_or-patch_before (at + 4) sum buf (k + 1) 0 (omega (arith, h)),
  )

  module _ (buf : List ℕ) (buf_size : ℕ) (c : Checkable at buf buf_size) where
    -- The buffer that ssdfs_calculate_csum leaves.
    abbrev summed : List ℕ
    summed = set_check_csum at (sum_of buf) (zeroed at buf)

    le16-summed : (k : ℕ) → k < at + 3 → le16 k summed ≡ le16 k buf
    le16-summed k h = le16-set k (zeroed at buf) (sum_of buf) h ∙ le16-set k buf _ h

    length-summed : length summed ≡ length buf
    length-summed = length-patch (at + 4) (sum_of buf) (zeroed at buf) ∙ length-patch (at + 4) _ buf

    summed-Checkable : Checkable at summed buf_size
    summed-Checkable = record {
      in_buffer = omega (arith, length-summed, c.in_buffer);
      covered = omega (arith, le16-summed at (omega arith), c.covered);
      readable = omega (arith, le16-summed at (omega arith), length-summed, c.readable);
      is_crc = λ z.
          c.is_crc (ap (λ f. bit_and f csum_crc32) (sym (le16-summed (at + 2) (omega arith))) ∙ z);
    }

    sum_of-summed : sum_of summed ≡ sum_of buf
    sum_of-summed =
        ap (λ n. ssdfs_crc32_le crc32 (window 0 n (zeroed at summed)))
          (le16-summed at (omega arith))
        ∙ ap (λ b. ssdfs_crc32_le crc32 (window 0 (check_bytes at buf) b))
            (patch-patch (at + 4) (sum_of buf) _ (zeroed at buf) refl
              ∙ patch-patch (at + 4) _ _ buf refl)

    summed-valid : is_csum_valid crc32 at summed buf_size ≡ ok (true, summed)
    summed-valid =
        is_csum_valid-eq summed buf_size summed-Checkable
        ∙ ap (λ b. ok (b, summed))
            (ap (λ l. same_bytes l (sum_of summed)) (csum-set buf buf_size c ∙ sym sum_of-summed)
              ∙ same_bytes_refl (sum_of summed))

  -- A buffer in which ssdfs_calculate_csum has stored a sum is one that is_csum_valid finds valid,
  -- and leaves as it is.
  pub calculate_csum-is_csum_valid :
      (buf : List ℕ) (buf_size : ℕ) (out : List ℕ)
      → ssdfs_calculate_csum crc32 at buf buf_size ≡ ok out
      → is_csum_valid crc32 at out buf_size ≡ ok (true, out)
  calculate_csum-is_csum_valid buf buf_size out h =
      subst (λ b. is_csum_valid crc32 at b buf_size ≡ ok (true, b)) same
        (summed-valid buf buf_size c)
    where
      c : Checkable at buf buf_size
      c = calculate-Checkable buf buf_size out h

      same : summed buf buf_size c ≡ out
      same = ok-injective (sym (calculate-ok buf buf_size c) ∙ h)

  refuses :
      (buf : List ℕ) (buf_size : ℕ)
      → at + check_size ≤ length buf
      → buf_size ≤ length buf
      → ¬ Checkable at buf buf_size
      → ssdfs_calculate_csum crc32 at buf buf_size ≡ err einval
  unfolding ssdfs_calculate_csum
  refuses buf buf_size in_buffer fits n = elim (Bool-cases (ltb buf_size (check_bytes at buf))) [
    | inl y ↦ let a : ltb (length buf) (at + 8) ≡ false = ground arith in rw (a, y)
    | inr z ↦ elim (Bool-cases (bit_and (check_flags at buf) csum_crc32 == 0)) [
      | inl y ↦ let a : ltb (length buf) (at + 8) ≡ false = ground arith in rw (a, z, y)
      | inr w ↦ absurd (
          n (record {
            in_buffer = in_buffer;
            covered = ground arith;
            readable = ground arith;
            is_crc = ground arith;
          }))
    ]
  ]

  -- For a check and a size inside the buffer, is_csum_valid leaves the buffer as it was on every
  -- branch, and answers true exactly if the size and the flags of the check are ones that
  -- ssdfs_calculate_csum takes and the stored sum is the one of the buffer with zeros in its place.
  pub is_csum_valid_iff :
      (buf : List ℕ) (buf_size : ℕ)
      → at + check_size ≤ length buf
      → buf_size ≤ length buf
      → (answer : Bool) × (is_csum_valid crc32 at buf buf_size ≡ ok (answer, buf))
        × ((answer ≡ true) ↔ (Checkable at buf buf_size × (check_csum at buf ≡ sum_of buf)))
  unfolding is_csum_valid
  is_csum_valid_iff buf buf_size in_buffer fits = elim (Checkable-cases) [
    | inl c ↦ (
      same_bytes (check_csum at buf) (sum_of buf),
      is_csum_valid-eq buf buf_size c,
      (
        λ h. (c, same_bytes-eq _ _ h),
        λ v. ap (λ l. same_bytes l (sum_of buf)) v.1 ∙ same_bytes_refl (sum_of buf),
      ),
    )
    | inr n ↦ (
      false,
      ap (compare_csum at buf) (refuses buf buf_size in_buffer fits n),
      (λ h. cc, λ v. absurd (n v.0)),
    )
  ]
    where
      Checkable-cases : Checkable at buf buf_size ⊎ (¬ Checkable at buf buf_size)
      Checkable-cases = elim (Bool-cases (ltb buf_size (check_bytes at buf))) [
        | inl y ↦ inr (λ c. absurd (ground (arith, c.covered)))
        | inr z ↦ elim (Bool-cases (bit_and (check_flags at buf) csum_crc32 == 0)) [
          | inl y ↦ inr (λ c. absurd (ground (arith, c.is_crc)))
          | inr w ↦ inl (record {
            in_buffer = in_buffer;
            covered = ground arith;
            readable = ground arith;
            is_crc = ground arith;
          })
        ]
      ]
