-- ===== src/Device/Zone.antt =====
-- zns_write does not leave the zone it begins in, unless the end of the request wraps: the guard
-- compares the ends in 64 bits, and does not stop a request whose `offset` + `size` is 2^64 or more.
use ssdfs_tools.Prelude.{
  ℕ, ◌+◌, ◌*◌, ◌/◌, ◌^◌, ◌<◌, ◌≤◌, ◌≡◌, refl, subst, ◌⊎◌, inl, inr, Bool, true, false, Bool-cases,
  ltb, ◌==◌, ◌||◌, none, some, List, u64, eio, arith,
}
use native.Mathlib.Nat.{div-mul-le_self}
use ssdfs_tools.DeviceIo.{IoResult, returns, runs, Written}
use ssdfs_tools.DeviceIo.Writing.{Stored, Honest, Progresses, Wrote, ssdfs_pwrite-Wrote}
use ssdfs_tools.Peb.{reserved_vbr_size}
use ssdfs_tools.Device.{
  NandGeometry, OpResult, done, fault, unfinished, Zoned, zoned_return, write_in_zone, opened_zone,
  zns_write,
}

module _ {W : Type 0} (content : W → ℕ → ℕ) where
  -- A return of 0 with the request inside the zone and all of it stored, or a failure with its first
  -- `n` bytes stored, none unless the request is inside the zone. `limit` is the end of the zone.
  abbrev pub InZone : (limit offset size : ℕ) → List ℕ → W → OpResult (Zoned W) → Type 0
  InZone limit offset size buf w (done none z) =
      (offset + size ≤ limit) × Stored (content w) (content z.world) offset size buf
  InZone limit offset size buf w (done (some e) z) =
      (n : ℕ) × (n ≤ size)
      × ((n ≡ 0) ⊎ (offset + size ≤ limit))
      × Stored (content w) (content z.world) offset n buf
  InZone limit offset size buf w unfinished = ⊥
  InZone limit offset size buf w fault = ⊥

  InZone-from :
      (limit offset size : ℕ) (buf : List ℕ) (w w' : W) (r : OpResult (Zoned W))
      → content w' ≡ content w
      → InZone limit offset size buf w' r
      → InZone limit offset size buf w r
  InZone-from limit offset size buf w w' (done none z) same (inside, stored) =
      (inside, subst (λ c. Stored c (content z.world) offset size buf) same stored)
  InZone-from limit offset size buf w w' (done (some e) z) same (n, le, inside, stored) =
      (n, le, inside, subst (λ c. Stored c (content z.world) offset n buf) same stored)
  InZone-from limit offset size buf w w' unfinished same h = elim h [ ]
  InZone-from limit offset size buf w w' fault same h = elim h [ ]

  nothing-Stored : (w : W) (offset : ℕ) (buf : List ℕ) → Stored (content w) (content w) offset 0 buf
  nothing-Stored w offset buf a = ground arith

  module _ (pwrite : (offset rest : ℕ) → List ℕ → W → Written × W) where
    Wrote-InZone :
        (limit offset size zones : ℕ) (buf : List ℕ) (w : W) (r : IoResult W)
        → offset + size ≤ limit
        → Wrote content offset size buf w r
        → InZone limit offset size buf w (zoned_return pwrite zones r)
    Wrote-InZone limit offset size zones buf w (returns none w') inside h = (inside, h)
    Wrote-InZone limit offset size zones buf w (returns (some e) w') inside (n, le, h) =
        (n, le, inr inside, h)
    Wrote-InZone limit offset size zones buf w runs inside h = elim h [ ]

    module _
        (honest : (offset rest : ℕ) (buf : List ℕ) (w : W)
          → let (answer, w') = pwrite offset rest buf w in
            Honest (content w) (content w') offset rest buf answer)
        (stall : W → ℕ)
        (progresses : (offset rest : ℕ) (buf : List ℕ) (w : W)
          → 0 < rest
          → let (answer, w') = pwrite offset rest buf w in
            Progresses (stall w) (stall w') answer) where
      write_in_zone-InZone :
          (fuel zone_start erasesize offset size : ℕ) (buf : List ℕ) (zones : ℕ) (w : W)
          → size + stall w < fuel
          → offset + size < 2 ^ 64
          → zone_start + erasesize < 2 ^ 64
          → InZone
              (zone_start + erasesize)
              offset
              size
              buf
              w
              (write_in_zone pwrite fuel zone_start erasesize offset size buf zones w)
      unfolding write_in_zone
      write_in_zone-InZone fuel zone_start erasesize offset size buf zones w enough fits zone =
          elim (Bool-cases (ltb (u64 (zone_start + erasesize)) (u64 (offset + size)))) [
            | inl y ↦ rw y (0, omega arith, inl refl, nothing-Stored w offset buf)
            | inr n ↦ rw n (
                Wrote-InZone (zone_start + erasesize) offset size zones buf w _ (ground arith) (
                  ssdfs_pwrite-Wrote pwrite content honest stall progresses fuel offset size buf w
                    enough fits))
          ]

      module _ (open_zone : (sector nr_sectors : ℕ) → W → Bool × W)
          (opens : (sector nr_sectors : ℕ) (w : W)
            → content (open_zone sector nr_sectors w).1 ≡ content w)
          (opens_once : (sector nr_sectors : ℕ) (w : W)
            → stall (open_zone sector nr_sectors w).1 ≤ stall w) where
        opened_zone-InZone :
            (fuel zone_start erasesize offset size : ℕ) (buf : List ℕ) (zones : ℕ) (w : W)
            (answer : Bool × W)
            → content answer.1 ≡ content w
            → stall answer.1 ≤ stall w
            → size + stall w < fuel
            → offset + size < 2 ^ 64
            → zone_start + erasesize < 2 ^ 64
            → InZone
                (zone_start + erasesize)
                offset
                size
                buf
                w
                (opened_zone pwrite fuel zone_start erasesize offset size buf zones answer)
        opened_zone-InZone fuel zone_start erasesize offset size buf zones w (true, w') same le
              enough fits zone =
            InZone-from _ offset size buf w w' _ same (
              write_in_zone-InZone fuel zone_start erasesize offset size buf _ w' (omega arith) fits
                zone)
        opened_zone-InZone fuel zone_start erasesize offset size buf zones w (false, w') same le
              enough fits zone =
            InZone-from _ offset size buf w w'
              (done (some eio) (record { open_zones = zones; world = w' })) same
              (0, omega arith, inl refl, nothing-Stored w' offset buf)

        -- With the kernel of ssdfs_pwrite-Wrote, and a BLKOPENZONE that leaves the content of
        -- the device as it is and adds no interruptions, zns_write returns, for an erase size
        -- that is not 0 and a request whose end, `offset` + `size`, is below 2^64, as is
        -- `offset` with the erase size added. It returns 0 only if the request ends in the zone
        -- in which `offset` lies and is on the device, and a request that leaves the zone
        -- changes no byte of the device. Where it fails, the first bytes of the request may be
        -- stored. The fuel is more than `size` and the interruptions to come.
        pub zns_write-InZone :
            (fuel : ℕ) (info : NandGeometry) (offset size : ℕ) (buf : List ℕ) (zones : ℕ) (w : W)
            → 0 < info.erasesize
            → size + stall w < fuel
            → offset + size < 2 ^ 64
            → offset + info.erasesize < 2 ^ 64
            → InZone
                (offset / info.erasesize * info.erasesize + info.erasesize)
                offset
                size
                buf
                w
                (zns_write pwrite open_zone fuel info offset size buf zones w)
        unfolding zns_write
        zns_write-InZone fuel info offset size buf zones w pos enough fits zone =
            elim (Bool-cases (starts || (offset == reserved_vbr_size))) [
              | inl y ↦ rw some_size (
                  rw y (
                    opened_zone-InZone fuel _ info.erasesize offset size buf zones w
                      (open_zone _ _ w) (opens _ _ w) (opens_once _ _ w) enough fits below))
              | inr n ↦ rw some_size (
                  rw n (
                    write_in_zone-InZone fuel _ info.erasesize offset size buf zones w enough fits
                      below))
            ]
          where
            starts : Bool
            starts = offset / info.erasesize * info.erasesize == offset

            some_size : (info.erasesize == 0) ≡ false
            some_size = ground arith

            below : offset / info.erasesize * info.erasesize + info.erasesize < 2 ^ 64
            below = omega (arith, div-mul-le_self offset info.erasesize)
