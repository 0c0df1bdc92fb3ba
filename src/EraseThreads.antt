-- ===== src/EraseThreads.antt =====
-- The threads of erase_device in sbin/mkfs.ssdfs/mkfs.c, with the initialization of their states
-- in sbin/mkfs.ssdfs/mkfs.h: each erases a range of the PEBs of the volume. A schedule lists the
-- turns of the threads, in the order in which they are taken, and whether the erasure of the turn
-- succeeds.
pub mod Ranges
pub mod Schedules
mod Tests
use ssdfs_tools.Prelude.{
  ℕ, zero, suc, ◌+◌, ◌-◌, ◌*◌, ◌/◌, ◌==◌, ltb, leb, Bool, true, false, if◌then◌else◌, min, List, [],
  ◌∷◌, u64, sub_u64,
}

-- Where a thread is: in its loop, behind it, or behind an erasure that has failed.
pub data Status : Type 0 where
  running ended failed : Status

-- struct ssdfs_thread_state, with the local variables of erase_device_peb_range.
pub record ThreadState : Type 0 where
  pub start_peb_id : ℕ
  pub pebs_count : ℕ
  pub i : ℕ
  pub status : Status

-- ssdfs_init_peb_environment
abbrev pub init_peb_environment : (thread_id pebs_per_thread pebs_count : ℕ) → ThreadState
init_peb_environment thread_id pebs_per_thread pebs_count =
    let id = u64 (thread_id * pebs_per_thread) in
    record {
      start_peb_id = id;
      pebs_count = min (sub_u64 pebs_count id) pebs_per_thread;
      i = 0;
      status = running;
    }

-- `pebs_per_thread` of erase_device
abbrev pub pebs_per_thread : (pebs_count capacity : ℕ) → ℕ
pebs_per_thread pebs_count capacity = u64 (pebs_count + capacity - 1) / capacity

-- The threads by their number, and the PEBs erased so far, the last one first.
pub record Volume : Type 0 where
  pub threads : ℕ → ThreadState
  pub erased : List ℕ

-- What a turn of a thread in its loop comes to: the thread, and the PEB that it has erased.
abbrev pub erase_turn :
    (pebs_per_volume : ℕ) → (succeeds : Bool) → ThreadState → List ℕ → ThreadState × List ℕ
erase_turn pebs_per_volume succeeds t erased =
    let peb_id = u64 (t.start_peb_id + t.i) in
    if ltb t.i t.pebs_count
    then (if leb pebs_per_volume peb_id
        then (record t { status = ended }, erased)
        else if succeeds
        then (record t { i = t.i + 1 }, peb_id ∷ erased)
        else (record t { status = failed }, erased))
    else (record t { status = ended }, erased)

-- A thread that is not in its loop takes no turn.
unfoldable pub turn_from :
    Status → (pebs_per_volume : ℕ) → Bool → ThreadState → List ℕ → ThreadState × List ℕ
turn_from running pebs_per_volume succeeds t erased = erase_turn pebs_per_volume succeeds t erased
turn_from ended pebs_per_volume succeeds t erased = (t, erased)
turn_from failed pebs_per_volume succeeds t erased = (t, erased)

-- One round of the loop of erase_device_peb_range.
abbrev pub erase_device_peb_range :
    (pebs_per_volume : ℕ) → (succeeds : Bool) → ThreadState → List ℕ → ThreadState × List ℕ
erase_device_peb_range pebs_per_volume succeeds t erased =
    turn_from t.status pebs_per_volume succeeds t erased

abbrev pub put_thread : (ℕ → ThreadState) → ℕ → ThreadState → ℕ → ThreadState
put_thread threads id t k = if k == id then t else threads k

-- A turn of the thread with a number; there are `capacity` threads.
pub record Turn : Type 0 where
  pub id : ℕ
  pub succeeds : Bool

unfoldable pub take_turn : (pebs_per_volume capacity : ℕ) → Turn → Volume → Volume
take_turn pebs_per_volume capacity turn v =
    let next = erase_device_peb_range pebs_per_volume turn.succeeds (v.threads turn.id) v.erased in
    if ltb turn.id capacity
    then record { threads = put_thread v.threads turn.id next.0; erased = next.1 }
    else v

-- The turns of a schedule, the last one first.
unfoldable pub erase_device : (pebs_per_volume capacity : ℕ) → List Turn → Volume
erase_device pebs_per_volume capacity [] = record {
  threads =
      λ id. init_peb_environment id (pebs_per_thread pebs_per_volume capacity) pebs_per_volume;
  erased = [];
}
erase_device pebs_per_volume capacity (turn ∷ before) =
    take_turn pebs_per_volume capacity turn (erase_device pebs_per_volume capacity before)
