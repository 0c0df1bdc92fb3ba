-- ===== src/DeviceIo/Machine.antt =====
-- A kernel that moves one byte a call, for runs of the transfer loops and instances of theorems.
use ssdfs_tools.Prelude.{
  ℕ, ◌-◌, ◌<◌, ◌≡◌, refl, false, Bool-cases, inl, inr, ltb, ◌==◌, if◌then◌else◌, List, get_or,
  arith,
}
use ssdfs_tools.DeviceIo.{Written, moved, interrupted}
use ssdfs_tools.DeviceIo.Writing.{Honest, Progresses}

-- A device, and the number of signals that come before the next byte is moved.
pub record Machine : Type 0 where
  pub disk : ℕ → ℕ
  pub signals : ℕ

-- A kernel that moves one byte a call.
unfoldable pub byte_pwrite : (offset rest : ℕ) → List ℕ → Machine → Written × Machine
byte_pwrite offset rest buf m =
    if ltb 0 m.signals
    then (interrupted, record m { signals = m.signals - 1 })
    else if rest == 0
    then (moved 0, m)
    else (moved 1, record m { disk = λ a. if a == offset then get_or buf 0 0 else m.disk a })

pub byte_pwrite-Honest :
    (offset rest : ℕ) (buf : List ℕ) (m : Machine)
    → let (answer, m') = byte_pwrite offset rest buf m in
      Honest m.disk m'.disk offset rest buf answer
unfolding byte_pwrite
byte_pwrite-Honest offset rest buf m = elim (Bool-cases (ltb 0 m.signals)) [
  | inl y ↦ rw y (λ a. refl)
  | inr n ↦ elim (Bool-cases (rest == 0)) [
    | inl z ↦ rw n (rw z (omega arith, λ a. ground arith))
    | inr z ↦ rw n (
        rw z (
          ground arith,
          λ a. elim (Bool-cases (a == offset)) [
            | inl e ↦ let d : a - offset ≡ 0 = ground arith in rw d (ground arith)
            | inr e ↦ ground arith
          ],
        ))
  ]
]

pub byte_pwrite-Progresses :
    (offset rest : ℕ) (buf : List ℕ) (m : Machine)
    → 0 < rest
    → let (answer, m') = byte_pwrite offset rest buf m in Progresses m.signals m'.signals answer
unfolding byte_pwrite
byte_pwrite-Progresses offset rest buf m h = elim (Bool-cases (ltb 0 m.signals)) [
  | inl y ↦ rw y (ground arith)
  | inr n ↦ let z : (rest == 0) ≡ false = ground arith in rw n (rw z (omega arith))
]
