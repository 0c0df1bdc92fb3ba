-- ===== src/BlkBmap/Tests.antt =====
-- Concrete runs and instances of the theorems on the block bitmap.
use ssdfs_tools.Prelude.{ℕ, zero, suc, ◌≡◌, refl, List, [], ◌∷◌, ok, err, einval, bug, arith}
use ssdfs_tools.Bitmap.{set_state_in_byte}
use ssdfs_tools.BlkBmap.{blk_bmap_bytes, fill_bytes, fill_byte, set_area}
use ssdfs_tools.BlkBmap.Area.{IsBytes, Filled, set_area-Filled}

abbrev two_bytes : List ℕ
two_bytes = 0 ∷ 255 ∷ []

two_bytes-IsBytes : IsBytes two_bytes
two_bytes-IsBytes zero = omega arith
two_bytes-IsBytes (suc zero) = omega arith
two_bytes-IsBytes (suc (suc i)) = omega arith

-- Items 3 to 6 to state 1.
set_area_run : set_area two_bytes 3 4 1 ≡ ok (64 ∷ 213 ∷ [])
unfolding set_area fill_bytes fill_byte set_state_in_byte
set_area_run = refl

set_area_refuses : set_area two_bytes 3 4 4 ≡ err einval
unfolding set_area
set_area_refuses = refl

set_state_out_of_byte : set_state_in_byte 0 4 2 3 1 ≡ bug
unfolding set_state_in_byte
set_state_out_of_byte = refl

blk_bmap_bytes_run : blk_bmap_bytes 5 ≡ ok 2
unfolding blk_bmap_bytes
blk_bmap_bytes_run = refl

set_area-Filled_example :
    (out : List ℕ) × (set_area two_bytes 3 4 1 ≡ ok out) × Filled two_bytes out 3 4 1
set_area-Filled_example =
    set_area-Filled two_bytes 3 4 1 two_bytes-IsBytes (omega arith) (omega arith) (omega arith)
