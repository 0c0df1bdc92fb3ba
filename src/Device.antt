-- ===== src/Device.antt =====
-- lib/zns_readwrite.c, lib/bdev_readwrite.c and lib/mtd_readwrite.c: the operations on zoned devices,
-- block devices and flash memory. The system calls are parameters on a state of the world; an ioctl
-- answers whether it succeeded.
pub mod Zone
pub mod Erase
pub mod Geometry
mod Tests
use ssdfs_tools.Prelude.{
  ℕ, zero, suc, ◌+◌, ◌-◌, ◌*◌, ◌/◌, ◌%◌, ◌==◌, ltb, leb, ◌||◌, Bool, true, false, if◌then◌else◌,
  Option, none, some, List, u32, u64, u32_max, Errno, einval, eio, erange, enoent, eopnotsupp, sys,
  ◌^◌,
}
use ssdfs_tools.DeviceIo.{IoResult, returns, runs, Written, ssdfs_pwrite}
use ssdfs_tools.Granularity.{size_4kb, size_8kb, size_16kb, size_32kb}
use ssdfs_tools.Peb.{reserved_vbr_size}

-- SSDFS_512B
abbrev pub sector_size : ℕ
sector_size = 512

-- struct ssdfs_nand_geometry
pub record NandGeometry : Type 0 where
  pub erasesize : ℕ
  pub writesize : ℕ

-- What an operation comes to: a return with its code (`sys` for a positive `errno`), a loop that the
-- fuel does not end, or a division by zero.
pub data OpResult (S : Type 0) : Type 0 where
  done : Option Errno → S → OpResult S
  unfinished fault : OpResult S

-- `*open_zones` and the rest of the world.
pub record Zoned (W : Type 0) : Type 0 where
  pub open_zones : ℕ
  pub world : W

module _ {W : Type 0} (pwrite : (offset rest : ℕ) → List ℕ → W → Written × W) where
  -- The return of `ssdfs_pwrite`'s code.
  abbrev pub zoned_return : ℕ → IoResult W → OpResult (Zoned W)
  zoned_return open_zones (returns none w) =
      done none (record { open_zones = open_zones; world = w })
  zoned_return open_zones (returns (some e) w) =
      done (some (sys e)) (record { open_zones = open_zones; world = w })
  zoned_return open_zones runs = unfinished

  module _ (fuel zone_start erasesize offset size : ℕ) (buf : List ℕ) where
    -- zns_write behind the opening of the zone.
    unfoldable pub write_in_zone : ℕ → W → OpResult (Zoned W)
    write_in_zone open_zones w =
        if ltb (u64 (zone_start + erasesize)) (u64 (offset + size))
        then done (some erange) (record { open_zones = open_zones; world = w })
        else zoned_return open_zones (ssdfs_pwrite pwrite fuel offset size buf w)

    -- What follows the ioctl BLKOPENZONE.
    abbrev pub opened_zone : ℕ → Bool × W → OpResult (Zoned W)
    opened_zone open_zones (true, w) = write_in_zone (u32 (open_zones + 1)) w
    opened_zone open_zones (false, w) =
        done (some eio) (record { open_zones = open_zones; world = w })

  -- zns_write
  unfoldable pub zns_write :
      (open_zone : (sector nr_sectors : ℕ) → W → Bool × W) (fuel : ℕ)
      → NandGeometry
      → (offset size : ℕ) → List ℕ
      → ℕ
      → W
      → OpResult (Zoned W)
  zns_write open_zone fuel info offset size buf open_zones w =
      let zone_start = offset / info.erasesize * info.erasesize in
      if info.erasesize == 0
      then fault
      else if (zone_start == offset) || (offset == reserved_vbr_size)
      then opened_zone fuel zone_start info.erasesize offset size buf open_zones
          (open_zone (zone_start / sector_size) (info.erasesize / sector_size) w)
      else write_in_zone fuel zone_start info.erasesize offset size buf open_zones w

  module _ (discard zeroout : (offset size : ℕ) → W → Bool × W) (io_fuel offset size : ℕ)
      (buf : List ℕ) (buf_size : ℕ) where
    -- The loop of bdev_erase over the range.
    unfoldable pub erase_loop : (fuel erased_bytes : ℕ) → W → OpResult W
    erase_loop zero erased_bytes w = unfinished
    erase_loop (suc fuel) erased_bytes w =
        elim (ssdfs_pwrite pwrite io_fuel (u64 (offset + erased_bytes)) buf_size buf w) [
          | returns none w' ↦
              let rest = erase_loop fuel (u64 (erased_bytes + buf_size)) w' in
              if ltb (u64 (erased_bytes + buf_size)) size then rest else done none w'
          | returns (some e) w' ↦ done (some (sys e)) w'
          | runs ↦ unfinished
        ]

    -- The ioctl BLKZEROOUT, and what follows it.
    abbrev pub zeroed_out : ℕ → Bool × W → OpResult W
    zeroed_out fuel (true, w) = done none w
    zeroed_out fuel (false, w) = erase_loop fuel 0 w

    -- The ioctl BLKSECDISCARD, and what follows it.
    abbrev pub discarded : ℕ → Bool × W → OpResult W
    discarded fuel (true, w) = done none w
    discarded fuel (false, w) = zeroed_out fuel (zeroout offset size w)

    -- bdev_erase
    unfoldable pub bdev_erase : ℕ → W → OpResult W
    bdev_erase fuel w = discarded fuel (discard offset size w)

module _ {W : Type 0} (reset_zone : (sector nr_sectors : ℕ) → W → Bool × W) where
  -- zns_erase
  unfoldable pub zns_erase : (offset size : ℕ) → W → OpResult W
  zns_erase offset size w =
      let answer =
        reset_zone (offset / sector_size) (u64 (size + sector_size - 1) / sector_size) w in
      if answer.0 then done none answer.1 else done (some eio) answer.1

-- The code of a geometry check and the geometry that it leaves.
pub record Checked : Type 0 where
  pub code : Option Errno
  pub info : NandGeometry

-- The write size that zns_check_nand_geometry chooses where the given one does not fit.
abbrev pub next_writesize : ℕ → ℕ
next_writesize w =
    if leb w size_4kb
    then size_4kb
    else if leb w size_8kb
    then size_8kb
    else if leb w size_16kb
    then size_16kb
    else size_32kb

-- zns_check_nand_geometry; `sectors` is what BLKGETZONESZ answers, `none` where it fails. The
-- product with SSDFS_512B, an `int`, is of 32 bits before it is stored in the 64 of `zone_size`.
unfoldable pub zns_check_nand_geometry : Option ℕ → NandGeometry → OpResult NandGeometry
zns_check_nand_geometry none info = done (some erange) info
zns_check_nand_geometry (some sectors) info =
    let zone_size = u32 (sectors * sector_size) in
    let fits = zone_size == info.erasesize in
    let divides = zone_size % info.writesize == 0 in
    if sectors == 0
    then done (some erange) info
    else if leb u32_max zone_size
    then done (some eopnotsupp) info
    else if info.writesize == 0
    then fault
    else done (if fits then (if divides then none else some enoent) else some enoent) (record {
      erasesize = zone_size;
      writesize = if divides then info.writesize else next_writesize info.writesize;
    })

-- mtd_check_nand_geometry; `mtd` is what MEMGETINFO answers, or the code of its failure.
unfoldable pub mtd_check_nand_geometry :
    Errno → Option NandGeometry → NandGeometry → OpResult NandGeometry
mtd_check_nand_geometry failure none info = done (some failure) info
mtd_check_nand_geometry failure (some mtd) info =
    if mtd.erasesize == info.erasesize
    then (if mtd.writesize == info.writesize then done none info else done (some einval) info)
    else done (some einval) info

-- What a request to erase flash memory asks for: the fields of `struct erase_info_user64` with the
-- ioctl MEMERASE64, or those of `struct erase_info_user` of 32 bits with MEMERASE.
pub record EraseRequest : Type 0 where
  pub wide : Bool
  pub start : ℕ
  pub bytes : ℕ

unfoldable pub erase_request : (offset size : ℕ) → EraseRequest
erase_request offset size =
    if leb (2 ^ 32) offset
    then record { wide = true; start = offset; bytes = size }
    else record { wide = false; start = u32 offset; bytes = u32 size }

-- SSDFS_PEB_ERASURE_OK, SSDFS_PEB_IS_BAD and SSDFS_RECOVERING_PEB, or the failure of a system call.
pub data PebState : Type 0 where
  peb_erasure_ok peb_is_bad recovering_peb : PebState
  peb_error : PebState

module _ {W : Type 0} (erase : EraseRequest → W → Bool × W) where
  -- mtd_erase; whether the ioctl succeeded.
  unfoldable pub mtd_erase : (offset size : ℕ) → W → Bool × W
  mtd_erase offset size w = erase (erase_request offset size) w

  -- mtd_check_peb; `bad` is what MEMGETBADBLOCK answers, `none` where it fails.
  unfoldable pub mtd_check_peb : Option Bool → (offset erasesize : ℕ) → W → PebState × W
  mtd_check_peb none offset erasesize w = (peb_error, w)
  mtd_check_peb (some true) offset erasesize w = (peb_is_bad, w)
  mtd_check_peb (some false) offset erasesize w =
      let answer = mtd_erase offset erasesize w in
      if answer.0 then (peb_erasure_ok, answer.1) else (recovering_peb, answer.1)
