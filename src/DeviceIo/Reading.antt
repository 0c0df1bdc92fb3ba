-- ===== src/DeviceIo/Reading.antt =====
-- ssdfs_pread fills the buffer with the bytes of the device, and does not return past its end.
use ssdfs_tools.Prelude.{
  ℕ, zero, suc, ◌+◌, ◌-◌, ◌^◌, ◌<◌, ◌≤◌, ◌≡◌, refl, ◌∙◌, ap, ◌⊎◌, inl, inr, true, false, Bool-cases,
  ltb, ◌==◌, u64, sub_u64, none, some, List, [], ◌++◌, get_or, length, length-append, get_or-append,
  arith,
}
use ssdfs_tools.DeviceIo.{IoResult, returns, runs, Read, got, Filled, pread_loop, ssdfs_pread}

-- `bytes` are those of the device from `offset` on.
abbrev pub Copied : (ℕ → ℕ) → ℕ → List ℕ → Type 0
Copied device offset bytes = (i : ℕ) → i < length bytes → get_or bytes i 0 ≡ device (offset + i)

-- What pread(2) says of an answer: the bytes stored are those of the device.
abbrev pub Honest : (ℕ → ℕ) → (offset rest : ℕ) → Read → Type 0
Honest device offset rest (got bytes) = (length bytes ≤ rest) × Copied device offset bytes
Honest device offset rest Read.interrupted = Unit
Honest device offset rest (Read.failed e) = Unit

-- `stall` bounds the interrupted calls to come; before the end at least a byte is stored.
abbrev pub Progresses : (before after : ℕ) → Read → Type 0
Progresses before after (got bytes) = (0 < length bytes) × (after ≤ before)
Progresses before after Read.interrupted = after < before
Progresses before after (Read.failed e) = after ≤ before

-- A return of 0 with `size` bytes copied, or a failure with some of them; never no return.
abbrev pub ReadBack : {W : Type 0} → (ℕ → ℕ) → (offset size : ℕ) → IoResult (Filled W) → Type 0
ReadBack device offset size (returns none f) =
    (length f.bytes ≡ size) × Copied device offset f.bytes
ReadBack device offset size (returns (some e) f) =
    (length f.bytes ≤ size) × Copied device offset f.bytes
ReadBack device offset size runs = ⊥

Read-cases :
    (x : Read)
    → ((bytes : List ℕ) × (x ≡ got bytes))
      ⊎ ((x ≡ Read.interrupted) ⊎ ((e : ℕ) × (x ≡ Read.failed e)))
Read-cases (got bytes) = inl (bytes, refl)
Read-cases Read.interrupted = inr (inl refl)
Read-cases (Read.failed e) = inr (inr (e, refl))

Copied-append :
    (device : ℕ → ℕ) (offset : ℕ) (xs ys : List ℕ)
    → Copied device offset xs
    → Copied device (offset + length xs) ys
    → Copied device offset (xs ++ ys)
Copied-append device offset xs ys p q i below = elim (Bool-cases (ltb i (length xs))) [
  | inl y ↦ let le : i < length xs = ground arith in (get_or-append xs ys i 0).0 le ∙ p i le
  | inr n ↦
      let le : length xs ≤ i = ground arith in
      let e : offset + length xs + (i - length xs) ≡ offset + i = omega arith in
      (get_or-append xs ys i 0).1 le
      ∙ q (i - length xs) (omega (arith, length-append xs ys))
      ∙ ap device e
]

module _ {W : Type 0} (pread : (offset rest : ℕ) → W → Read × W) where
  abbrev pub answer : (offset rest : ℕ) → W → Read
  answer offset rest w = (pread offset rest w).0

  abbrev pub world : (offset rest : ℕ) → W → W
  world offset rest w = (pread offset rest w).1

  module _ (fuel offset rest : ℕ) (bytes : List ℕ) (w : W) where
    loop-done :
        (rest == 0) ≡ true
        → pread_loop pread (suc fuel) offset rest bytes w
          ≡ returns none (record { bytes = bytes; world = w })
    unfolding pread_loop
    loop-done e = rw (e, pread_loop)

    loop-got :
        (more : List ℕ)
        → (rest == 0) ≡ false
        → answer offset rest w ≡ got more
        → length more ≤ rest
        → offset + rest < 2 ^ 64
        → pread_loop pread (suc fuel) offset rest bytes w
          ≡ pread_loop pread fuel
              (offset + length more)
              (rest - length more)
              (bytes ++ more)
              (world offset rest w)
    unfolding pread_loop
    loop-got more e h le fits =
        let o : u64 (offset + length more) ≡ offset + length more = omega arith in
        let r : sub_u64 rest (length more) ≡ rest - length more = omega arith in
        rw (e, pread_loop) (rw (h, pread_loop) (rw (o, r)))

    loop-interrupted :
        (rest == 0) ≡ false
        → answer offset rest w ≡ Read.interrupted
        → pread_loop pread (suc fuel) offset rest bytes w
          ≡ pread_loop pread fuel offset rest bytes (world offset rest w)
    unfolding pread_loop
    loop-interrupted e h = rw (e, pread_loop) (rw (h, pread_loop))

    loop-failed :
        (c : ℕ)
        → (rest == 0) ≡ false
        → answer offset rest w ≡ Read.failed c
        → pread_loop pread (suc fuel) offset rest bytes w
          ≡ returns (some c) (record { bytes = bytes; world = world offset rest w })
    unfolding pread_loop
    loop-failed c e h = rw (e, pread_loop) (rw (h, pread_loop))

-- A device of `end` bytes.
module _ {W : Type 0} (pread : (offset rest : ℕ) → W → Read × W) (device : ℕ → ℕ) (end : ℕ)
    (honest : (offset rest : ℕ) (w : W) → Honest device offset rest (answer pread offset rest w))
    (stall : W → ℕ)
    (progresses : (offset rest : ℕ) (w : W)
      → 0 < rest
      → offset < end
      → Progresses (stall w) (stall (world pread offset rest w)) (answer pread offset rest w)) where
  loop-ReadBack :
      (fuel base size offset rest : ℕ) (bytes : List ℕ) (w : W)
      → rest + stall w < fuel
      → offset + rest ≤ end
      → end < 2 ^ 64
      → offset ≡ base + length bytes
      → size ≡ length bytes + rest
      → Copied device base bytes
      → ReadBack device base size (pread_loop pread fuel offset rest bytes w)
  loop-ReadBack zero base size offset rest bytes w enough fits small at total c =
      absurd (omega arith)
  loop-ReadBack (suc fuel) base size offset rest bytes w enough fits small at total c =
      elim (Bool-cases (rest == 0)) [
        | inl e ↦ rw (loop-done pread fuel offset rest bytes w e) (ground arith, c)
        | inr e ↦ elim (Read-cases (answer pread offset rest w)) [
          | inl (more, h) ↦
              let ok = rw h at (honest offset rest w) in
              let go = rw h at (progresses offset rest w (ground arith) (ground arith)) in
              let grown = length-append bytes more in
              rw (loop-got pread fuel offset rest bytes w more e h ok.0 (omega arith)) (
                loop-ReadBack fuel base size (offset + length more) (rest - length more)
                  (bytes ++ more) (world pread offset rest w) (omega (arith, go.0, go.1, ok.0))
                  (omega (arith, ok.0)) small (omega (arith, grown)) (omega (arith, grown, ok.0))
                  (Copied-append device base bytes more c (rw (← at) ok.1)))
          | inr (inl h) ↦
              let go = rw h at (progresses offset rest w (ground arith) (ground arith)) in
              rw (loop-interrupted pread fuel offset rest bytes w e h) (
                loop-ReadBack fuel base size offset rest bytes (world pread offset rest w)
                  (omega (arith, go)) fits small at total c)
          | inr (inr (k, h)) ↦
              rw (loop-failed pread fuel offset rest bytes w k e h) (omega arith, c)
        ]
      ]

  -- With a kernel that stores bytes of the device, is interrupted finitely often and otherwise
  -- stores at least a byte before the end of the device, ssdfs_pread of a range inside the device
  -- returns. If it returns 0, the buffer holds the `size` bytes of the device at `offset`; if it
  -- returns an error, the bytes stored so far are those of the device.
  pub ssdfs_pread-ReadBack :
      (fuel offset size : ℕ) (w : W)
      → size + stall w < fuel
      → offset + size ≤ end
      → end < 2 ^ 64
      → ReadBack device offset size (ssdfs_pread pread fuel offset size w)
  unfolding ssdfs_pread
  ssdfs_pread-ReadBack fuel offset size w enough fits small =
      loop-ReadBack fuel offset size offset size [] w enough fits small (omega arith) (omega arith)
        (λ i h. absurd (omega arith))

-- pread(2) stores nothing at or behind the end of the device.
module _ {W : Type 0} (pread : (offset rest : ℕ) → W → Read × W) (end : ℕ)
    (at_end : (offset rest : ℕ) (w : W) → end ≤ offset → answer pread offset rest w ≡ got []) where
  loop-runs :
      (fuel offset rest : ℕ) (bytes : List ℕ) (w : W)
      → end ≤ offset
      → 0 < rest
      → offset + rest < 2 ^ 64
      → pread_loop pread fuel offset rest bytes w ≡ runs
  loop-runs zero offset rest bytes w far more fits = unfold pread_loop in refl
  loop-runs (suc fuel) offset rest bytes w far more fits =
      loop-got pread fuel offset rest bytes w [] (ground arith) (at_end offset rest w far)
        (omega arith) fits
      ∙ loop-runs fuel (offset + 0) (rest - 0) (bytes ++ []) (world pread offset rest w)
          (omega arith) (omega arith) (omega arith)

  -- At or behind the end of the device pread(2) stores nothing and returns 0, and ssdfs_pread of a
  -- nonempty range there never returns: no fuel is enough.
  pub ssdfs_pread-runs :
      (fuel offset size : ℕ) (w : W)
      → end ≤ offset
      → 0 < size
      → offset + size < 2 ^ 64
      → ssdfs_pread pread fuel offset size w ≡ runs
  unfolding ssdfs_pread
  ssdfs_pread-runs fuel offset size w far more fits = loop-runs fuel offset size [] w far more fits
