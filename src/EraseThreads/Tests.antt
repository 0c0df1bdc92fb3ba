-- ===== src/EraseThreads/Tests.antt =====
-- Two threads that erase a volume of five PEBs: runs of the code, and instances of the theorems.
use ssdfs_tools.Prelude.{ℕ, ◌≤◌, ◌≡◌, refl, true, false, List, [], ◌∷◌, arith}
use ssdfs_tools.EraseThreads.{failed, Turn, turn_from, take_turn, erase_device}
use ssdfs_tools.EraseThreads.Schedules.{times, erase_device-times}

abbrev turn : ℕ → Turn
turn id = record { id = id; succeeds = true }

-- The second thread ends its range before the first one has begun with its last PEB.
abbrev seven_turns : List Turn
seven_turns = turn 0 ∷ turn 0 ∷ turn 1 ∷ turn 1 ∷ turn 0 ∷ turn 1 ∷ turn 0 ∷ []

all_erased : (erase_device 5 2 seven_turns).erased ≡ 2 ∷ 4 ∷ 1 ∷ 3 ∷ 0 ∷ []
unfolding erase_device take_turn turn_from
all_erased = refl

-- A failed erasure ends its thread, and leaves the rest of its range as it was.
failed_turn :
    (erase_device 5 2 (turn 0 ∷ record { id = 0; succeeds = false } ∷ turn 0 ∷ [])).erased ≡ 0 ∷ []
unfolding erase_device take_turn turn_from
failed_turn = refl

failed_status :
    ((erase_device 5 2 (record { id = 1; succeeds = false } ∷ [])).threads 1).status ≡ failed
unfolding erase_device take_turn turn_from
failed_status = refl

erase_device-times_example :
    (times 3 (erase_device 5 2 seven_turns).erased ≤ 1)
    × (5 ≤ 3 → times 3 (erase_device 5 2 seven_turns).erased ≡ 0)
erase_device-times_example =
    erase_device-times 5 2 (omega arith) (omega arith) (omega arith) seven_turns 3
