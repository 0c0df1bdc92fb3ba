-- ===== src/DeviceIo/Tests.antt =====
-- Concrete kernels, runs on them, and instances of the theorems on the transfer loops.
use ssdfs_tools.Prelude.{
  ℕ, zero, suc, ◌+◌, ◌<◌, ◌≤◌, ◌≡◌, refl, ap, sym, subst, Bool-cases, inl, inr, ltb, ◌==◌,
  if◌then◌else◌, none, [], ◌∷◌, get_or, arith,
}
use ssdfs_tools.DeviceIo.Machine.{Machine, byte_pwrite, byte_pwrite-Honest, byte_pwrite-Progresses}
use ssdfs_tools.DeviceIo.{returns, Read, got, ssdfs_pwrite, pread_loop, ssdfs_pread}
use ssdfs_tools.DeviceIo.Writing.{Wrote, ssdfs_pwrite-Wrote}
use ssdfs_tools.DeviceIo.Reading
use ssdfs_tools.DeviceIo.Reading.{ReadBack, answer, ssdfs_pread-ReadBack, ssdfs_pread-runs}

abbrev machine : Machine
machine = record { disk = λ a. a; signals = 2 }

ssdfs_pwrite-Wrote_example :
    Wrote
      (λ (m : Machine). m.disk)
      5
      3
      (70 ∷ 80 ∷ 90 ∷ [])
      machine
      (ssdfs_pwrite byte_pwrite 6 5 3 (70 ∷ 80 ∷ 90 ∷ []) machine)
ssdfs_pwrite-Wrote_example =
    ssdfs_pwrite-Wrote byte_pwrite (λ m. m.disk) byte_pwrite-Honest (λ m. m.signals)
      byte_pwrite-Progresses 6 5 3 (70 ∷ 80 ∷ 90 ∷ []) machine (omega arith) (omega arith)

-- A kernel that reads one byte a call from a device of ten, where byte `a` is `a`.
byte_pread : (offset rest : ℕ) → Unit {0} → Read × Unit {0}
byte_pread offset rest w =
    if ltb offset 10
    then (if rest == 0 then (got [], w) else (got (offset ∷ []), w))
    else (got [], w)

byte_pread-inside :
    (offset rest : ℕ) → 0 < rest → offset < 10 → byte_pread offset rest tt ≡ (got (offset ∷ []), tt)
unfolding byte_pread
byte_pread-inside offset rest h b = ground arith

byte_pread-nothing : (offset : ℕ) → byte_pread offset 0 tt ≡ (got [], tt)
unfolding byte_pread
byte_pread-nothing offset = ground arith

byte_pread-end :
    (offset rest : ℕ) (w : Unit {0}) → 10 ≤ offset → answer byte_pread offset rest w ≡ got []
unfolding byte_pread
byte_pread-end offset rest w h =
    let e : byte_pread offset rest w ≡ (got [], w) = ground arith in ap (λ x. x.0) e

one_byte : (offset i : ℕ) → i < 1 → get_or (offset ∷ []) i 0 ≡ offset + i
one_byte offset zero h = omega arith
one_byte offset (suc i) h = absurd (omega arith)

byte_pread-Honest :
    (offset rest : ℕ) (w : Unit {0})
    → Reading.Honest (λ a. a) offset rest (answer byte_pread offset rest w)
byte_pread-Honest offset zero w =
    subst (Reading.Honest (λ a. a) offset 0) (sym (ap (λ x. x.0) (byte_pread-nothing offset)))
      (omega arith, λ i h. absurd (omega arith))
byte_pread-Honest offset (suc rest) w = elim (Bool-cases (ltb offset 10)) [
  | inl y ↦
      subst (Reading.Honest (λ a. a) offset (suc rest))
        (sym (ap (λ x. x.0) (byte_pread-inside offset (suc rest) (omega arith) (ground arith))))
        (omega arith, one_byte offset)
  | inr n ↦
      subst (Reading.Honest (λ a. a) offset (suc rest))
        (sym (byte_pread-end offset (suc rest) w (ground arith)))
        (omega arith, λ i h. absurd (omega arith))
]

byte_pread-Progresses :
    (offset rest : ℕ) (w : Unit {0})
    → 0 < rest
    → offset < 10
    → Reading.Progresses 0 0 (answer byte_pread offset rest w)
byte_pread-Progresses offset rest w h b =
    subst (Reading.Progresses 0 0) (sym (ap (λ x. x.0) (byte_pread-inside offset rest h b)))
      (omega arith, omega arith)

reads_three :
    ssdfs_pread byte_pread 4 5 3 tt ≡ returns none (record { bytes = 5 ∷ 6 ∷ 7 ∷ []; world = tt })
unfolding ssdfs_pread pread_loop byte_pread
reads_three = refl

ssdfs_pread-ReadBack_example :
    ReadBack {W = Unit {0}} (λ a. a) 5 3 (ssdfs_pread byte_pread 4 5 3 tt)
ssdfs_pread-ReadBack_example =
    ssdfs_pread-ReadBack byte_pread (λ a. a) 10 byte_pread-Honest (λ w. 0) byte_pread-Progresses 4 5
      3 tt (omega arith) (omega arith) (omega arith)
