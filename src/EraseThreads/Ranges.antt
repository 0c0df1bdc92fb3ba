-- ===== src/EraseThreads/Ranges.antt =====
-- The ranges of the threads: which PEB is which thread's, and what a thread knows of its own range.
use native.Mathlib.Nat.{
  div-add-mod', div-eq_of_lt-le, lt-div-mul-add, div-mul-le_self, mul-le-mul_right,
}
use ssdfs_tools.Prelude.{
  ℕ, ◌+◌, ◌-◌, ◌*◌, ◌/◌, ◌%◌, ◌^◌, ◌<◌, ◌≤◌, ◌≡◌, ◌⊎◌, inl, inr, refl, ap, ◌∙◌, min, Bool, ltb, leb,
  ◌==◌, Bool-cases, List, ◌∷◌, u64, sub_u64, arith,
}
use ssdfs_tools.EraseThreads.{
  running, ended, failed, ThreadState, init_peb_environment, pebs_per_thread, erase_turn,
}

module _ (volume capacity : ℕ) (some : 0 < capacity) (pebs : 0 < volume)
    (small : volume + capacity < 2 ^ 63) where
  abbrev per : ℕ
  per = pebs_per_thread volume capacity

  sum_fits : u64 (volume + capacity - 1) ≡ volume + capacity - 1
  sum_fits = omega (arith, small)

  per_eq : per ≡ (volume + capacity - 1) / capacity
  per_eq = ap (λ n. n / capacity) sum_fits

  -- The ranges reach to the end of the volume, and not a thread further.
  pub ranges_reach : volume ≤ per * capacity
  ranges_reach =
      let above : volume + capacity - 1 < (volume + capacity - 1) / capacity * capacity + capacity =
        lt-div-mul-add some in
      rw per_eq (omega (arith, above))

  pub ranges_end : per * capacity < volume + capacity
  ranges_end =
      let below : (volume + capacity - 1) / capacity * capacity ≤ volume + capacity - 1 =
        div-mul-le_self (volume + capacity - 1) capacity in
      rw per_eq (omega (arith, below, some))

  pub per_some : 0 < per
  per_some = elim (Bool-cases (per == 0)) [
    | inl none ↦
        let no_range : per ≡ 0 = ground (arith, none) in
        let nothing : per * capacity ≡ 0 = ap (λ k. k * capacity) no_range ∙ omega arith in
        absurd (omega (arith, nothing, ranges_reach, pebs))
    | inr n ↦ ground (arith, n)
  ]

  pub start_fits : (id : ℕ) → id < capacity → id * per < volume + capacity
  start_fits id there =
      let up : id * per ≤ capacity * per = mul-le-mul_right per (omega (arith, there)) in
      let turn : capacity * per ≡ per * capacity = omega arith in
      omega (arith, up, turn, ranges_end)

  -- The PEB at a place of a thread's range.
  pub range_div : (id k : ℕ) → k < per → (id * per + k) / per ≡ id
  range_div id k inside =
      let next : (id + 1) * per ≡ id * per + per = omega arith in
      div-eq_of_lt-le per (omega arith) (omega (arith, next, inside))

  pub range_mod : (id k : ℕ) → k < per → (id * per + k) % per ≡ k
  range_mod id k inside =
      let whole = div-add-mod' (id * per + k) per in
      let same : (id * per + k) / per * per ≡ id * per =
        ap (λ q. q * per) (range_div id k inside) in
      omega (arith, whole, same)

  pub peb_range : (p : ℕ) → p / per * per + p % per ≡ p
  peb_range p = div-add-mod' p per

  -- What holds of a thread: it is within its range, has erased no PEB behind the volume, and when
  -- it has ended, it is at the end of its range or of the volume.
  pub record IsAt (id : ℕ) (t : ThreadState) : Type 0 where
    pub start : t.start_peb_id ≡ id * per
    pub at_most : t.pebs_count ≤ per
    pub share : id * per ≤ volume → t.pebs_count ≡ min (volume - id * per) per
    pub within : t.i ≤ per
    pub inside : 0 < t.i → id * per + t.i ≤ volume
    pub done : t.status ≡ ended → (volume ≤ id * per + t.i) ⊎ (t.i ≡ per)

  pub init_peb_environment-IsAt :
      (id : ℕ) → id < capacity → IsAt id (init_peb_environment id per volume)
  init_peb_environment-IsAt id there =
      let fits : u64 (id * per) ≡ id * per = omega (arith, start_fits id there, small) in
      record {
        start = fits;
        at_most = omega arith;
        share = λ before.
            let left : sub_u64 volume (id * per) ≡ volume - id * per =
              omega (arith, before, small) in
            rw (fits, left) refl;
        within = omega arith;
        inside = λ h. absurd (omega (arith, h));
        done = λ e. absurd (cc e);
      }

  -- A turn leaves the thread where it was, or erases the PEB that it stands at, which is inside its
  -- range and the volume.
  pub data Taken (id : ℕ) (t : ThreadState) (erased : List ℕ) (next : ThreadState × List ℕ)
      : Type 0 where
    stays : next.0.i ≡ t.i → next.1 ≡ erased → Taken id t erased next
    moves :
        next.0.i ≡ t.i + 1
        → next.1 ≡ (id * per + t.i) ∷ erased
        → t.i < per
        → id * per + t.i < volume
        → Taken id t erased next

  pub record IsTurn (id : ℕ) (t : ThreadState) (erased : List ℕ) (next : ThreadState × List ℕ)
      : Type 0 where
    pub at : IsAt id next.0
    pub taken : Taken id t erased next

  module _ (id : ℕ) (there : id < capacity) (t : ThreadState) (erased : List ℕ)
      (at : IsAt id t) where
    peb_fits : t.i ≤ per → u64 (t.start_peb_id + t.i) ≡ id * per + t.i
    peb_fits h =
        let from = at.start in
        let next : (id + 1) * per ≡ id * per + per = omega arith in
        let up : (id + 1) * per ≤ capacity * per = mul-le-mul_right per (omega (arith, there)) in
        let turn : capacity * per ≡ per * capacity = omega arith in
        omega (arith, from, h, next, up, turn, ranges_end, small)

    ends :
        (volume ≤ id * per + t.i) ⊎ (t.i ≡ per)
        → IsTurn id t erased (record t { status = ended }, erased)
    ends h = record {
      at = record {
        start = at.start;
        at_most = at.at_most;
        share = at.share;
        within = at.within;
        inside = at.inside;
        done = λ _. h;
      };
      taken = stays refl refl;
    }

    fails : IsTurn id t erased (record t { status = failed }, erased)
    fails = record {
      at = record {
        start = at.start;
        at_most = at.at_most;
        share = at.share;
        within = at.within;
        inside = at.inside;
        done = λ e. absurd (cc e);
      };
      taken = stays refl refl;
    }

    erases :
        t.status ≡ running
        → t.i < per
        → id * per + t.i < volume
        → IsTurn id t erased (record t { i = t.i + 1 }, (id * per + t.i) ∷ erased)
    erases going inner inside = record {
      at = record {
        start = at.start;
        at_most = at.at_most;
        share = at.share;
        within = omega (arith, inner);
        inside = λ _. omega (arith, inside);
        done = λ e. absurd (cc (e, going));
      };
      taken = moves refl refl inner inside;
    }

    -- A thread whose range is at its end is at the end of the volume, or has had all its PEBs.
    at_end : t.pebs_count ≤ t.i → (volume ≤ id * per + t.i) ⊎ (t.i ≡ per)
    at_end h = elim (Bool-cases (leb (id * per) volume)) [
      | inl before ↦
          let count = at.share (ground (arith, before)) in
          let most = at.within in
          elim (Bool-cases (leb volume (id * per + t.i))) [
            | inl over ↦ inl (ground (arith, over))
            | inr under ↦
                let below : id * per + t.i < volume = ground (arith, under) in
                inr (omega (arith, h, count, most, below))
          ]
      | inr behind ↦ inl (ground (arith, behind))
    ]

    pub erase_turn-IsTurn :
        (succeeds : Bool)
        → t.status ≡ running
        → IsTurn id t erased (erase_turn volume succeeds t erased)
    erase_turn-IsTurn succeeds going = elim (Bool-cases (ltb t.i t.pebs_count)) [
      | inl more ↦
          let count = at.at_most in
          let inner : t.i < per = ground (arith, more, count) in
          let fits = peb_fits (omega (arith, inner)) in
          elim (Bool-cases (leb volume (id * per + t.i))) [
            | inl over ↦ rw (more, fits, over) (ends (inl (ground (arith, over))))
            | inr under ↦ elim (Bool-cases succeeds) [
              | inl y ↦ rw (more, fits, under, y) (erases going inner (ground (arith, under)))
              | inr n ↦ rw (more, fits, under, n) fails
            ]
          ]
      | inr less ↦ rw less (ends (at_end (ground (arith, less))))
    ]
