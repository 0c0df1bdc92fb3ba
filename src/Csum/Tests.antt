-- ===== src/Csum/Tests.antt =====
-- A run with the sum of the bytes in place of the CRC, and instances of the theorems on checksums.
use ssdfs_tools.Prelude.{ℕ, ◌+◌, ◌≡◌, refl, ◌↔◌, Bool, true, List, [], ◌∷◌, ok, arith}
use ssdfs_tools.Csum.{check_csum, ssdfs_calculate_csum, is_csum_valid}
use ssdfs_tools.Csum.Valid.{Checkable, sum_of, calculate_csum-is_csum_valid, is_csum_valid_iff}

abbrev byte_sum : ℕ → List ℕ → ℕ
byte_sum start [] = start
byte_sum start (b ∷ bs) = byte_sum (start + b) bs

-- Two bytes, a check of all 12 bytes with the flag SSDFS_CRC32, and two more bytes.
abbrev buffer : List ℕ
buffer = 7 ∷ 8 ∷ 12 ∷ 0 ∷ 1 ∷ 0 ∷ 5 ∷ 5 ∷ 5 ∷ 5 ∷ 9 ∷ 10 ∷ []

-- The bytes sum to 47, and the complement of that is stored.
abbrev summed_buffer : List ℕ
summed_buffer = 7 ∷ 8 ∷ 12 ∷ 0 ∷ 1 ∷ 0 ∷ 208 ∷ 255 ∷ 255 ∷ 255 ∷ 9 ∷ 10 ∷ []

stores_sum : ssdfs_calculate_csum byte_sum 2 buffer 12 ≡ ok summed_buffer
unfolding ssdfs_calculate_csum
stores_sum = refl

calculate_csum-is_csum_valid_example :
    is_csum_valid byte_sum 2 summed_buffer 12 ≡ ok (true, summed_buffer)
calculate_csum-is_csum_valid_example =
    calculate_csum-is_csum_valid byte_sum 2 buffer 12 summed_buffer stores_sum

is_csum_valid_iff_example :
    (answer : Bool) × (is_csum_valid byte_sum 2 buffer 12 ≡ ok (answer, buffer))
    × ((answer ≡ true) ↔ (Checkable 2 buffer 12 × (check_csum 2 buffer ≡ sum_of byte_sum 2 buffer)))
is_csum_valid_iff_example = is_csum_valid_iff byte_sum 2 buffer 12 (omega arith) (omega arith)
