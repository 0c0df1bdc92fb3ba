-- ===== src/Device/Geometry.antt =====
-- The geometry that zns_check_nand_geometry settles on.
use ssdfs_tools.Prelude.{
  ℕ, ◌*◌, ◌%◌, ◌<◌, ◌≡◌, refl, ◌∙◌, ◌⊎◌, inl, inr, true, false, Bool-cases, leb, ◌==◌,
  if◌then◌else◌, none, some, u32, u32_max, enoent, arith,
}
use ssdfs_tools.Device.{NandGeometry, done, sector_size, next_writesize, zns_check_nand_geometry}

next_writesize-divides : (zone w : ℕ) → zone % 32768 ≡ 0 → zone % next_writesize w ≡ 0
next_writesize-divides zone w h = ground arith

next_writesize-pos : (w : ℕ) → 0 < next_writesize w
next_writesize-pos w = ground arith

-- The code for the zone size and the write size that it compares, and the geometry that it leaves.
module _ (sectors : ℕ) (info : NandGeometry) where
  abbrev settled : NandGeometry
  settled = record {
    erasesize = u32 (sectors * sector_size);
    writesize =
        if u32 (sectors * sector_size) % info.writesize == 0
        then info.writesize
        else next_writesize info.writesize;
  }

  -- A number of 32 bits that is a multiple of 512 is not U32_MAX.
  size_small : leb u32_max (u32 (sectors * sector_size)) ≡ false
  size_small =
      let below : u32 (sectors * sector_size) < u32_max = omega arith in ground (arith, below)

  aligned_size : sectors * sector_size % 32768 ≡ 0 → u32 (sectors * sector_size) % 32768 ≡ 0
  aligned_size aligned = omega (arith, aligned)

  settles :
      0 < sectors
      → 0 < info.writesize
      → zns_check_nand_geometry (some sectors) info
        ≡ done
            (if u32 (sectors * sector_size) == info.erasesize
              then (if u32 (sectors * sector_size) % info.writesize == 0 then none else some enoent)
              else some enoent)
            settled
  unfolding zns_check_nand_geometry
  settles some_sectors pos =
      let a : (sectors == 0) ≡ false = ground arith in
      let b : leb u32_max (u32 (sectors * sector_size)) ≡ false = size_small in
      let c : (info.writesize == 0) ≡ false = ground arith in rw (a, b, c)

  settled-divides :
      sectors * sector_size % 32768 ≡ 0 → u32 (sectors * sector_size) % settled.writesize ≡ 0
  settled-divides aligned = elim (Bool-cases (u32 (sectors * sector_size) % info.writesize == 0)) [
    | inl y ↦ rw y (ground arith)
    | inr n ↦
        rw n (
          next_writesize-divides (u32 (sectors * sector_size)) info.writesize
            (aligned_size aligned))
  ]

  settled-pos : 0 < info.writesize → 0 < settled.writesize
  settled-pos pos = elim (Bool-cases (u32 (sectors * sector_size) % info.writesize == 0)) [
    | inl y ↦ rw y pos
    | inr n ↦ rw n (next_writesize-pos info.writesize)
  ]

settled-again :
    (sectors : ℕ) (info : NandGeometry)
    → 0 < sectors
    → 0 < info.writesize
    → sectors * sector_size % 32768 ≡ 0
    → zns_check_nand_geometry (some sectors) (settled sectors info)
      ≡ done none (settled sectors info)
settled-again sectors info some_sectors pos aligned =
    settles sectors (settled sectors info) some_sectors (settled-pos sectors info pos)
    ∙ rw (same, divides) refl
  where
    same : (u32 (sectors * sector_size) == u32 (sectors * sector_size)) ≡ true
    same = ground arith

    divides : (u32 (sectors * sector_size) % (settled sectors info).writesize == 0) ≡ true
    divides = ground (arith, settled-divides sectors info aligned)

-- For a zone of at least one sector whose bytes are a multiple of 32 KB, and a write size that
-- is not 0, zns_check_nand_geometry returns 0 or -ENOENT, and so never -EOPNOTSUPP, however
-- large the zone is. It leaves a geometry whose erase size is the size of the zone modulo 2^32.
-- A second check returns 0 for that geometry, and leaves it as it is.
pub zns_check_nand_geometry_settles :
    (sectors : ℕ) (info : NandGeometry)
    → 0 < sectors
    → 0 < info.writesize
    → sectors * sector_size % 32768 ≡ 0
    → (info' : NandGeometry) × ((zns_check_nand_geometry (some sectors) info ≡ done none info')
        ⊎ (zns_check_nand_geometry (some sectors) info ≡ done (some enoent) info'))
      × (info'.erasesize ≡ u32 (sectors * sector_size))
      × (zns_check_nand_geometry (some sectors) info' ≡ done none info')
zns_check_nand_geometry_settles sectors info some_sectors pos aligned =
    (settled sectors info, first, refl, settled-again sectors info some_sectors pos aligned)
  where
    first :
        (zns_check_nand_geometry (some sectors) info ≡ done none (settled sectors info))
        ⊎ (zns_check_nand_geometry (some sectors) info ≡ done (some enoent) (settled sectors info))
    first = elim (Bool-cases (u32 (sectors * sector_size) == info.erasesize)) [
      | inl y ↦ elim (Bool-cases (u32 (sectors * sector_size) % info.writesize == 0)) [
        | inl z ↦ inl (settles sectors info some_sectors pos ∙ rw (y, z))
        | inr z ↦ inr (settles sectors info some_sectors pos ∙ rw (y, z))
      ]
      | inr n ↦ inr (settles sectors info some_sectors pos ∙ rw n)
    ]
