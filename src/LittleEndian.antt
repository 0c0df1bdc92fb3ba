-- ===== src/LittleEndian.antt =====
-- Numbers as little-endian bytes: cpu_to_le16, le64_to_cpu and their likes on a buffer of bytes.
pub mod Windows
pub mod Parts
use ssdfs_tools.Prelude.{
  ℕ, zero, suc, ◌+◌, ◌*◌, ◌/◌, ◌%◌, ◌^◌, ◌<◌, ◌≡◌, refl, List, [], ◌∷◌, length, window, patch, ltb,
  ◌||◌, if◌then◌else◌, Outcome, ok, fault, arith,
}

-- The `width` low bytes of a number.
abbrev pub le_bytes : (width : ℕ) → ℕ → List ℕ
le_bytes zero v = []
le_bytes (suc width) v = v % 256 ∷ le_bytes width (v / 256)

abbrev pub le_value : List ℕ → ℕ
le_value [] = 0
le_value (b ∷ bs) = b + 256 * le_value bs

pub le_value-le_bytes : (width v : ℕ) → v < 256 ^ width → le_value (le_bytes width v) ≡ v
le_value-le_bytes zero v h = omega arith
le_value-le_bytes (suc width) v h =
    let p : 256 ^ suc width ≡ 256 * 256 ^ width = omega arith in
    omega (arith, le_value-le_bytes width (v / 256) (omega arith))

pub length-le_bytes : (width v : ℕ) → length (le_bytes width v) ≡ width
length-le_bytes zero v = refl
length-le_bytes (suc width) v = omega (arith, length-le_bytes width (v / 256))

-- The number at an offset.
abbrev pub get_le : (width k : ℕ) → List ℕ → ℕ
get_le width k buf = le_value (window k width buf)

-- `memcpy` of bytes into a buffer, and `memmove` inside it; a fault where an end is out of range.
unfoldable pub store : (k : ℕ) → List ℕ → List ℕ → Outcome (List ℕ)
store k bytes buf = if ltb (length buf) (k + length bytes) then fault else ok (patch k bytes buf)

unfoldable pub memmove : (dst src n : ℕ) → List ℕ → Outcome (List ℕ)
memmove dst src n buf =
    if ltb (length buf) (src + n) || ltb (length buf) (dst + n)
    then fault
    else ok (patch dst (window src n buf) buf)

-- `memcpy` out of a buffer.
unfoldable pub fetch : (k n : ℕ) → List ℕ → Outcome (List ℕ)
fetch k n buf = if ltb (length buf) (k + n) then fault else ok (window k n buf)
