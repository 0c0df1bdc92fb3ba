-- ===== src/EraseThreads/Schedules.antt =====
-- Every schedule of the threads: no PEB is erased twice, none behind the volume, and all of them
-- when the threads have ended.
use ssdfs_tools.Prelude.{
  ℕ, ◌+◌, ◌*◌, ◌/◌, ◌%◌, ◌^◌, ◌<◌, ◌≤◌, ◌≡◌, inl, inr, refl, sym, ap, ◌∙◌, subst, Bool, true, false,
  ltb, ◌==◌, Bool-cases, if◌then◌else◌, List, [], ◌∷◌, arith,
}
use ssdfs_tools.EraseThreads.{
  Status, running, ended, failed, ThreadState, Volume, Turn, pebs_per_thread, put_thread, take_turn,
  erase_device, turn_from,
}
use ssdfs_tools.EraseThreads.Ranges.{
  IsAt, IsTurn, Taken, stays, moves, init_peb_environment-IsAt, erase_turn-IsTurn, range_div,
  peb_range,
}

-- How often a PEB has been erased.
abbrev pub times : ℕ → List ℕ → ℕ
times p [] = 0
times p (q ∷ qs) = (if p == q then 1 else 0) + times p qs

differs : (per id p q : ℕ) → (p / per == id) ≡ false → q / per ≡ id → (p == q) ≡ false
differs per id p q n own = elim (Bool-cases (p == q)) [
  | inl y ↦
      let same : p / per ≡ q / per = ap (λ r. r / per) (ground (arith, y)) in
      absurd (ground (arith, n, own, same))
  | inr m ↦ m
]

module _ (volume capacity : ℕ) (some : 0 < capacity) (pebs : 0 < volume)
    (small : volume + capacity < 2 ^ 63) where
  abbrev per : ℕ
  per = pebs_per_thread volume capacity

  -- A PEB has been erased once if the thread of its range is beyond it, and else not.
  record Inv (v : Volume) : Type 0 where
    at : (id : ℕ) → id < capacity → IsAt volume capacity some pebs small id (v.threads id)
    idle : (id : ℕ) → capacity ≤ id → (v.threads id).i ≡ 0
    counts : (p : ℕ) → times p v.erased ≡ (if ltb (p % per) (v.threads (p / per)).i then 1 else 0)

  start_Inv : Inv (erase_device volume capacity [])
  unfolding erase_device
  start_Inv = record {
    at = init_peb_environment-IsAt volume capacity some pebs small;
    idle = λ id h. refl;
    counts = λ p. ground arith;
  }

  module _ (v : Volume) (inv : Inv v) (id : ℕ) (there : id < capacity) (next : ThreadState × List ℕ)
      (turn : IsTurn volume capacity some pebs small id (v.threads id) v.erased next) where
    abbrev after : Volume
    after = record { threads = put_thread v.threads id next.0; erased = next.1 }

    after-IsAt : (k : ℕ) → k < capacity → IsAt volume capacity some pebs small k (after.threads k)
    after-IsAt k inside = elim (Bool-cases (k == id)) [
      | inl y ↦
          let same : k ≡ id = ground (arith, y) in
          rw y (subst (λ n. IsAt volume capacity some pebs small n next.0) (sym same) turn.at)
      | inr n ↦ rw n (inv.at k inside)
    ]

    after_idle : (k : ℕ) → capacity ≤ k → (after.threads k).i ≡ 0
    after_idle k outside =
        let n : (k == id) ≡ false = ground (arith, outside, there) in rw n (inv.idle k outside)

    abbrev once : ℕ → ℕ → ℕ
    once p i = if ltb (p % per) i then 1 else 0

    -- The thread of a PEB's range, behind the turn.
    put_here : (k : ℕ) → (k == id) ≡ true → (after.threads k).i ≡ next.0.i
    put_here k y = rw y refl

    put_elsewhere : (k : ℕ) → (k == id) ≡ false → (after.threads k).i ≡ (v.threads k).i
    put_elsewhere k n = rw n refl

    here_counts : (p : ℕ) → (p / per == id) ≡ true → times p v.erased ≡ once p (v.threads id).i
    here_counts p y =
        let same : p / per ≡ id = ground (arith, y) in
        inv.counts p ∙ ap (λ k. once p (v.threads k).i) same

    moved_counts :
        (p : ℕ)
        → (v.threads id).i < per
        → times p ((id * per + (v.threads id).i) ∷ v.erased)
          ≡ once p (if p / per == id then (v.threads id).i + 1 else (v.threads (p / per)).i)
    moved_counts p inner = elim (Bool-cases (p / per == id)) [
      | inl y ↦
          let same : p / per * per ≡ id * per = ap (λ k. k * per) (ground (arith, y)) in
          let whole = peb_range volume capacity some pebs small p in
          let before = here_counts p y in rw y (ground (arith, same, whole, before))
      | inr n ↦
          let own = range_div volume capacity some pebs small id (v.threads id).i inner in
          let other : (p == id * per + (v.threads id).i) ≡ false = differs per id p _ n own in
          rw (n, other) (omega (arith, inv.counts p))
    ]

    after_counts :
        Taken volume capacity some pebs small id (v.threads id) v.erased next
        → (p : ℕ) → times p next.1 ≡ once p (after.threads (p / per)).i
    after_counts (stays same log) p = ap (times p) log ∙ elim (Bool-cases (p / per == id)) [
      | inl y ↦ here_counts p y ∙ ap (once p) (sym (put_here (p / per) y ∙ same))
      | inr n ↦ inv.counts p ∙ ap (once p) (sym (put_elsewhere (p / per) n))
    ]
    after_counts (moves on log inner inside) p =
        ap (times p) log ∙ moved_counts p inner ∙ elim (Bool-cases (p / per == id)) [
          | inl y ↦ rw y (ap (once p) (sym on))
          | inr n ↦ rw n refl
        ]

    after-Inv : Inv after
    after-Inv = record { at = after-IsAt; idle = after_idle; counts = after_counts turn.taken }

  untouched :
      (v : Volume) (inv : Inv v) (id : ℕ)
      → id < capacity
      → IsTurn volume capacity some pebs small id (v.threads id) v.erased (v.threads id, v.erased)
  untouched v inv id there = record { at = inv.at id there; taken = stays refl refl }

  module _ (v : Volume) (inv : Inv v) (id : ℕ) (there : id < capacity) (succeeds : Bool) where
    turn_from-IsTurn :
        (status : Status)
        → (v.threads id).status ≡ status
        → IsTurn volume capacity some pebs small id
            (v.threads id)
            v.erased
            (turn_from status volume succeeds (v.threads id) v.erased)
    unfolding turn_from
    turn_from-IsTurn running e =
        erase_turn-IsTurn volume capacity some pebs small id there (v.threads id) v.erased
          (inv.at id there) succeeds e
    turn_from-IsTurn ended e = untouched v inv id there
    turn_from-IsTurn failed e = untouched v inv id there

  take_turn-Inv : (v : Volume) → Inv v → (turn : Turn) → Inv (take_turn volume capacity turn v)
  unfolding take_turn
  take_turn-Inv v inv turn = elim (Bool-cases (ltb turn.id capacity)) [
    | inl y ↦
        let there : turn.id < capacity = ground (arith, y) in
        rw y (
          after-Inv v inv turn.id there _
            (turn_from-IsTurn v inv turn.id there turn.succeeds _ refl))
    | inr n ↦ rw n inv
  ]

  erase_device-Inv : (turns : List Turn) → Inv (erase_device volume capacity turns)
  unfolding erase_device
  erase_device-Inv [] = start_Inv
  erase_device-Inv (turn ∷ before) = take_turn-Inv _ (erase_device-Inv before) turn

  -- The PEB at a place is inside the volume if its thread has been there.
  reached :
      (v : Volume) → Inv v → (p : ℕ) → volume ≤ p → ltb (p % per) (v.threads (p / per)).i ≡ false
  reached v inv p behind = elim (Bool-cases (ltb (p / per) capacity)) [
    | inl y ↦
        let at = inv.at (p / per) (ground (arith, y)) in
        let whole = peb_range volume capacity some pebs small p in
        elim (Bool-cases (ltb (p % per) (v.threads (p / per)).i)) [
          | inl over ↦
              let past : p % per < (v.threads (p / per)).i = ground (arith, over) in
              let last = at.inside (omega (arith, past)) in
              absurd (omega (arith, past, last, whole, behind))
          | inr m ↦ m
        ]
    | inr n ↦ let still = inv.idle (p / per) (ground (arith, n)) in rw still (ground arith)
  ]

  -- Whatever the order in which the threads of erase_device take their turns, and whichever
  -- erasures succeed: no PEB has been erased twice, and none that is not one of the volume's. The
  -- volume has a PEB and there is a thread; both counts are small against 2^64.
  pub erase_device-times :
      (turns : List Turn) (p : ℕ)
      → (times p (erase_device volume capacity turns).erased ≤ 1)
        × (volume ≤ p → times p (erase_device volume capacity turns).erased ≡ 0)
  erase_device-times turns p =
      let inv = erase_device-Inv turns in
      let counts = inv.counts p in
      (rw counts (ground arith), λ behind. counts ∙ rw (reached _ inv p behind) refl)
