-- ===== src/Device/Tests.antt =====
-- Instances of the theorems on the operations of devices, on a kernel that moves one byte a call.
use ssdfs_tools.Prelude.{
  ℕ, zero, suc, ◌<◌, ◌≡◌, refl, ◌⊎◌, true, false, none, some, [], ◌∷◌, get_or, enoent, arith, Bool,
}
use ssdfs_tools.DeviceIo.Machine.{Machine, byte_pwrite, byte_pwrite-Honest, byte_pwrite-Progresses}
use ssdfs_tools.Device.{NandGeometry, done, zns_write, bdev_erase, zns_check_nand_geometry}
use ssdfs_tools.Device.Zone.{InZone, zns_write-InZone}
use ssdfs_tools.Device.Erase.{Erases, bdev_erase-Erases}
use ssdfs_tools.Device.Geometry.{zns_check_nand_geometry_settles}

abbrev machine : Machine
machine = record { disk = λ a. a; signals = 1 }

abbrev geometry : NandGeometry
geometry = record { erasesize = 4096; writesize = 512 }

abbrev open_zone : (sector nr_sectors : ℕ) → Machine → Bool × Machine
open_zone sector nr_sectors m = (true, m)

zns_write-InZone_example :
    InZone
      (λ (m : Machine). m.disk)
      8192
      4096
      2
      (7 ∷ 8 ∷ [])
      machine
      (zns_write byte_pwrite open_zone 4 geometry 4096 2 (7 ∷ 8 ∷ []) 0 machine)
zns_write-InZone_example =
    zns_write-InZone (λ m. m.disk) byte_pwrite byte_pwrite-Honest (λ m. m.signals)
      byte_pwrite-Progresses open_zone (λ s n m. refl) (λ s n m. omega arith) 4 geometry 4096 2
      (7 ∷ 8 ∷ []) 0 machine (omega arith) (omega arith) (omega arith) (omega arith)

abbrev unsupported : (offset size : ℕ) → Machine → Bool × Machine
unsupported offset size m = (false, m)

two_blanks : (i : ℕ) → i < 2 → ◌≡◌ {A = ℕ} (get_or (255 ∷ 255 ∷ []) i 0) 255
two_blanks zero h = refl
two_blanks (suc zero) h = refl
two_blanks (suc (suc i)) h = absurd (omega arith)

bdev_erase-Erases_example :
    Erases
      (λ (m : Machine). m.disk)
      10
      5
      2
      255
      machine
      (bdev_erase byte_pwrite unsupported unsupported 4 10 5 (255 ∷ 255 ∷ []) 2 5 machine)
bdev_erase-Erases_example =
    bdev_erase-Erases byte_pwrite (λ m. m.disk) byte_pwrite-Honest (λ m. m.signals)
      byte_pwrite-Progresses unsupported unsupported 4 10 5 (255 ∷ 255 ∷ []) 2 255 (omega arith)
      (omega arith) two_blanks 5 machine machine machine (omega arith) (omega arith) refl refl refl
      (omega arith)

zns_check_nand_geometry_settles_example :
    (info' : NandGeometry) × ((zns_check_nand_geometry (some 65536) geometry ≡ done none info')
      ⊎ (zns_check_nand_geometry (some 65536) geometry ≡ done (some enoent) info'))
    × (info'.erasesize ≡ 33554432)
    × (zns_check_nand_geometry (some 65536) info' ≡ done none info')
zns_check_nand_geometry_settles_example =
    zns_check_nand_geometry_settles 65536 geometry (omega arith) (omega arith) (omega arith)

-- A zone of 4 GB is taken for one of no bytes.
large_zone :
    zns_check_nand_geometry (some 8388608) geometry
    ≡ done (some enoent) (record { erasesize = 0; writesize = 512 })
unfolding zns_check_nand_geometry
large_zone = refl
