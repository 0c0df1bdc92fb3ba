-- ===== src/DeviceIo.antt =====
-- ssdfs_pwrite and ssdfs_pread of lib/ssdfs_common.c: the loops that repeat a system call until all
-- bytes are moved. The kernel's pwrite and pread on the open file are parameters.
pub mod Writing
pub mod Reading
pub mod Machine
mod Tests
use ssdfs_tools.Prelude.{
  ℕ, zero, suc, Bool, true, false, ◌==◌, u64, sub_u64, ◌+◌, Option, none, some, List, [], ◌∷◌, ◌++◌,
  drop, length,
}

-- What the loop comes to: a return, with the `errno` of a failure, or another round that the
-- fuel does not reach.
pub data IoResult (S : Type 0) : Type 0 where
  returns : Option ℕ → S → IoResult S
  runs : IoResult S

-- What pwrite answers: a count of bytes, -1 with EINTR, or -1 with another `errno`.
pub data Written : Type 0 where
  moved : ℕ → Written
  interrupted : Written
  failed : ℕ → Written

module _ {W : Type 0} (pwrite : (offset rest : ℕ) → List ℕ → W → Written × W) where
  -- The loop of ssdfs_pwrite with `rest` bytes of `buf` left.
  unfoldable pub pwrite_loop : (fuel offset rest : ℕ) → List ℕ → W → IoResult W
  pwrite_loop zero offset rest buf w = runs
  pwrite_loop (suc fuel) offset rest buf w =
      let answer = pwrite offset rest buf w in
      elim (rest == 0) [
        | true ↦ returns none w
        | false ↦ elim answer.0 [
          | moved n ↦ pwrite_loop fuel (u64 (offset + n)) (sub_u64 rest n) (drop n buf) answer.1
          | interrupted ↦ pwrite_loop fuel offset rest buf answer.1
          | failed e ↦ returns (some e) answer.1
        ]
      ]

  -- ssdfs_pwrite
  unfoldable pub ssdfs_pwrite : (fuel offset size : ℕ) → List ℕ → W → IoResult W
  ssdfs_pwrite fuel offset size buf w = pwrite_loop fuel offset size buf w

-- What pread answers: the bytes it has stored, none at the end of the file, or a failure.
pub data Read : Type 0 where
  got : List ℕ → Read
  interrupted : Read
  failed : ℕ → Read

-- The bytes that have been stored behind `buf`, and the rest of the world.
pub record Filled (W : Type 0) : Type 0 where
  pub bytes : List ℕ
  pub world : W

module _ {W : Type 0} (pread : (offset rest : ℕ) → W → Read × W) where
  -- The loop of ssdfs_pread with `rest` bytes to come behind those in `bytes`.
  unfoldable pub pread_loop : (fuel offset rest : ℕ) → List ℕ → W → IoResult (Filled W)
  pread_loop zero offset rest bytes w = runs
  pread_loop (suc fuel) offset rest bytes w =
      let answer = pread offset rest w in
      elim (rest == 0) [
        | true ↦ returns none (record { bytes = bytes; world = w })
        | false ↦ elim answer.0 [
          | got more ↦
              pread_loop fuel (u64 (offset + length more)) (sub_u64 rest (length more))
                (bytes ++ more) answer.1
          | interrupted ↦ pread_loop fuel offset rest bytes answer.1
          | failed e ↦ returns (some e) (record { bytes = bytes; world = answer.1 })
        ]
      ]

  -- ssdfs_pread
  unfoldable pub ssdfs_pread : (fuel offset size : ℕ) → W → IoResult (Filled W)
  ssdfs_pread fuel offset size w = pread_loop fuel offset size [] w
