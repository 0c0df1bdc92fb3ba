-- ===== src/Device/Erase.antt =====
-- What bdev_erase writes where the ioctls are not supported, and that it ends.
use ssdfs_tools.Prelude.{
  ℕ, zero, suc, ◌+◌, ◌-◌, ◌^◌, ◌<◌, ◌≤◌, ◌≡◌, refl, ap, ◌⊎◌, inl, inr, Bool, false, Bool-cases, ltb,
  if◌then◌else◌, none, some, List, get_or, u64, sys, arith,
}
use ssdfs_tools.DeviceIo.{IoResult, returns, runs, Written, ssdfs_pwrite}
use ssdfs_tools.DeviceIo.Writing.{
  Stored, Honest, Progresses, Wrote, Calmer, ssdfs_pwrite-Wrote, ssdfs_pwrite-Calmer,
}
use ssdfs_tools.Device.{OpResult, done, fault, unfinished, erase_loop, bdev_erase}

-- `after` is `before` with `n` bytes of the value `v` at `offset`.
abbrev pub Blank : (before after : ℕ → ℕ) → (offset n v : ℕ) → Type 0
Blank before after offset n v =
    (a : ℕ)
    → after a ≡ (if ltb a offset then before a else if ltb a (offset + n) then v else before a)

Stored-Blank :
    (f g : ℕ → ℕ) (offset n size v : ℕ) (buf : List ℕ)
    → ((i : ℕ) → i < size → get_or buf i 0 ≡ v)
    → n ≤ size
    → Stored f g offset n buf
    → Blank f g offset n v
Stored-Blank f g offset n size v buf same le s a = ground (arith, s a, same (a - offset))

Blank-append :
    (f g h : ℕ → ℕ) (offset n m v : ℕ)
    → Blank f g offset n v
    → Blank g h (offset + n) m v
    → Blank f h offset (n + m) v
Blank-append f g h offset n m v p q a = ground (arith, p a, q a)

module _ {W : Type 0} (content : W → ℕ → ℕ) (offset size buf_size v : ℕ) where
  -- A return of 0 with at least `size` blank bytes at `offset`, and less than `buf_size` more; or a
  -- failure with some of them.
  abbrev pub Erases : W → OpResult W → Type 0
  Erases w (done none w') =
      (n : ℕ) × (size ≤ n) × (n < size + buf_size) × Blank (content w) (content w') offset n v
  Erases w (done (some e) w') =
      (n : ℕ) × (n < size + buf_size) × Blank (content w) (content w') offset n v
  Erases w unfinished = ⊥
  Erases w fault = ⊥

IoResult-cases :
    {W : Type 0} (r : IoResult W)
    → ((w : W) × (r ≡ returns none w))
      ⊎ (((c : ℕ) × (w : W) × (r ≡ returns (some c) w)) ⊎ (r ≡ runs))
IoResult-cases (returns none w) = inl (w, refl)
IoResult-cases (returns (some c) w) = inr (inl (c, w, refl))
IoResult-cases runs = inr (inr refl)

module _ {W : Type 0} (pwrite : (offset rest : ℕ) → List ℕ → W → Written × W) (content : W → ℕ → ℕ)
    (honest : (offset rest : ℕ) (buf : List ℕ) (w : W)
      → let (answer, w') = pwrite offset rest buf w in
        Honest (content w) (content w') offset rest buf answer)
    (stall : W → ℕ)
    (progresses : (offset rest : ℕ) (buf : List ℕ) (w : W)
      → 0 < rest
      → let (answer, w') = pwrite offset rest buf w in Progresses (stall w) (stall w') answer)
    (discard zeroout : (offset size : ℕ) → W → Bool × W) (io_fuel offset size : ℕ) (buf : List ℕ)
    (buf_size v : ℕ) (some_bytes : 0 < buf_size) (fits : offset + size + buf_size < 2 ^ 64)
    (blank : (i : ℕ) → i < buf_size → get_or buf i 0 ≡ v) where
  module _ (fuel erased : ℕ) (w : W) where
    abbrev chunk : IoResult W
    chunk = ssdfs_pwrite pwrite io_fuel (u64 (offset + erased)) buf_size buf w

    abbrev loop : ℕ → ℕ → W → OpResult W
    loop = erase_loop pwrite discard zeroout io_fuel offset size buf buf_size

    loop-stored :
        (w' : W)
        → chunk ≡ returns none w'
        → loop (suc fuel) erased w ≡ (
            if ltb (u64 (erased + buf_size)) size
            then loop fuel (u64 (erased + buf_size)) w'
            else done none w')
    unfolding erase_loop
    loop-stored w' h = rw (h, erase_loop) refl

    loop-failed :
        (c : ℕ) (w' : W)
        → chunk ≡ returns (some c) w'
        → loop (suc fuel) erased w ≡ done (some (sys c)) w'
    unfolding erase_loop
    loop-failed c w' h = rw (h, erase_loop) refl

  chunk-Wrote :
      (erased : ℕ) (w : W)
      → erased < size
      → buf_size + stall w < io_fuel
      → Wrote content (offset + erased) buf_size buf w (chunk 0 erased w)
  chunk-Wrote erased w more enough_io =
      let o : u64 (offset + erased) ≡ offset + erased = omega arith in
      rw o (
        ssdfs_pwrite-Wrote pwrite content honest stall progresses io_fuel (offset + erased) buf_size
          buf w enough_io (omega arith))

  chunk-Calmer : (erased : ℕ) (w : W) → erased < size → Calmer stall w (chunk 0 erased w)
  chunk-Calmer erased w more =
      let o : u64 (offset + erased) ≡ offset + erased = omega arith in
      rw o (
        ssdfs_pwrite-Calmer pwrite content honest stall progresses io_fuel (offset + erased)
          buf_size buf w (omega arith))

  loop-Erases :
      (fuel erased : ℕ) (start w : W)
      → size ≤ fuel + erased
      → erased < size
      → buf_size + stall w < io_fuel
      → Blank (content start) (content w) offset erased v
      → Erases content offset size buf_size v start (loop 0 erased w fuel erased w)
  loop-Erases zero erased start w enough more enough_io b = absurd (omega arith)
  loop-Erases (suc fuel) erased start w enough more enough_io b =
      elim (IoResult-cases (chunk 0 erased w)) [
        | inl (w', h) ↦
            let wrote = rw h at (chunk-Wrote erased w more enough_io) in
            let calmer = rw h at (chunk-Calmer erased w more) in
            let next : u64 (erased + buf_size) ≡ erased + buf_size = omega arith in
            let b' = grown w' buf_size (omega arith) wrote in
            rw (loop-stored fuel erased w w' h) (
              rw next (elim (Bool-cases (ltb (erased + buf_size) size)) [
                | inl y ↦ rw y (
                    loop-Erases fuel (erased + buf_size) start w' (omega arith) (ground arith)
                      (omega (arith, calmer, enough_io)) b')
                | inr n ↦ rw n (erased + buf_size, ground arith, omega arith, b')
              ]))
        | inr (inl (c, w', h)) ↦
            let wrote = rw h at (chunk-Wrote erased w more enough_io) in
            rw (loop-failed fuel erased w c w' h)
              (erased + wrote.0, omega (arith, wrote.1), grown w' wrote.0 wrote.1 wrote.2)
        | inr (inr h) ↦ absurd (rw h at (chunk-Wrote erased w more enough_io))
      ]
    where
      grown :
          (w' : W) (n : ℕ)
          → n ≤ buf_size
          → Stored (content w) (content w') (offset + erased) n buf
          → Blank (content start) (content w') offset (erased + n) v
      grown w' n le s =
          Blank-append (content start) (content w) (content w') offset erased n v b
            (Stored-Blank (content w) (content w') (offset + erased) n buf_size v buf blank le s)

  -- Where neither BLKSECDISCARD nor BLKZEROOUT is supported and neither changes the device, with
  -- the kernel of ssdfs_pwrite-Wrote and a buffer of `buf_size` bytes of one value, at least one
  -- byte, bdev_erase of at least one byte returns, if the range and a buffer behind it end below
  -- 2^64. If it returns 0, at least `size` bytes at `offset` have that value, the bytes behind
  -- these up to the end of the last buffer too, less than `buf_size`, and no other byte is
  -- changed. If it fails, it has written that value to a number of bytes at `offset`, less than
  -- `size` and `buf_size` together, and changed no other byte. The fuel of ssdfs_pwrite is more
  -- than the bytes of the buffer and the interruptions to come, that of the loop at least
  -- `size`.
  pub bdev_erase-Erases :
      (fuel : ℕ) (w w' w'' : W)
      → 0 < size
      → size ≤ fuel
      → discard offset size w ≡ (false, w')
      → zeroout offset size w' ≡ (false, w'')
      → content w'' ≡ content w
      → buf_size + stall w'' < io_fuel
      → Erases content offset size buf_size v w
          (bdev_erase pwrite discard zeroout io_fuel offset size buf buf_size fuel w)
  unfolding bdev_erase
  bdev_erase-Erases fuel w w' w'' more enough d z same enough_io = rw d (
      rw z (
        loop-Erases fuel 0 w w'' (omega arith) more enough_io
          (λ a. ground (arith, ap (λ c. c a) same))))
