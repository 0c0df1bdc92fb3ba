-- ===== src/BlkBmap/Area.antt =====
-- ssdfs_blkbmap_set_area sets exactly the items of its area.
use ssdfs_tools.Prelude.{
  ℕ, zero, suc, ◌+◌, ◌-◌, ◌*◌, ◌/◌, ◌%◌, ◌^◌, ◌<◌, ◌≤◌, ◌≡◌, refl, ◌∙◌, subst, true, false, inl,
  inr, Bool-cases, ltb, leb, ◌==◌, ==_iff, if◌then◌else◌, List, length, get_or, set, length-set,
  get_or-set_self, get_or-set_ne, Outcome, ok, err, einval, load-eq-get_or, arith,
}
use native.Mathlib.Numerals.{add-one}
use ssdfs_tools.Bitmap.{put_state, set_state_in_byte}
use ssdfs_tools.Bitmap.Bytes.{byte_item, put_state-lt_blk, item-put_state_blk}
use ssdfs_tools.BlkBmap.{Progress, fill_byte, fill_bytes, set_area}

-- Item `i` of the bitmap.
abbrev pub blk_state : List ℕ → ℕ → ℕ
blk_state bmap i = byte_item 2 3 (get_or bmap (i / 4) 0) (i % 4)

abbrev pub IsBytes : List ℕ → Type 0
IsBytes bmap = (i : ℕ) → get_or bmap i 0 < 256

-- `new` is `old` with the items `start` to `start + n - 1` in `state`.
pub record Filled (old new : List ℕ) (start n state : ℕ) : Type 0 where
  pub same_length : length new ≡ length old
  pub bytes : IsBytes new
  pub items :
      (i : ℕ)
      → i < 4 * length old
      → blk_state new i ≡ (
          if ltb i start
          then blk_state old i
          else if ltb i (start + n)
          then state
          else blk_state old i)

Filled-zero : (old : List ℕ) (start state : ℕ) → IsBytes old → Filled old old start 0 state
Filled-zero old start state b = record {
  same_length = refl;
  bytes = b;
  items = λ i h. ground arith;
}

abbrev stored : List ℕ → ℕ → ℕ → ℕ → List ℕ
stored bmap cur j state = set bmap cur (put_state (get_or bmap cur 0) (j * 2) 3 state)

module _ (old new : List ℕ) (start n state cur j : ℕ) (fits : state ≤ 3) (inside : j < 4)
    (in_range : cur < length new) (at : start + n ≡ cur * 4 + j)
    (filled : Filled old new start n state) where
  stored-IsBytes : IsBytes (stored new cur j state)
  stored-IsBytes i = elim (Bool-cases (cur == i)) [
    | inl same ↦ ground (
      arith,
      put_state-lt_blk (get_or new cur 0) state j (filled.bytes cur) fits inside,
      get_or-set_self new cur (put_state (get_or new cur 0) (j * 2) 3 state) 0 in_range,
    )
    | inr other ↦ ground (
      arith,
      filled.bytes i,
      get_or-set_ne new cur i (put_state (get_or new cur 0) (j * 2) 3 state) 0,
    )
  ]

  stored-item :
      (i : ℕ)
      → i < 4 * length old
      → blk_state (stored new cur j state) i ≡ (if cur * 4 + j == i then state else blk_state new i)
  stored-item i h = elim (Bool-cases (cur == i / 4)) [
    | inl same ↦
        let e : i / 4 ≡ cur = omega (arith, (==_iff _ _).0 same) in
        rw
          (
            e,
            get_or-set_self new cur _ 0 in_range,
            item-put_state_blk (get_or new cur 0) state j (filled.bytes cur) fits inside (i % 4)
                (omega arith),
          )
          (ground arith)
    | inr other ↦
        ground
          (arith, get_or-set_ne new cur (i / 4) (put_state (get_or new cur 0) (j * 2) 3 state) 0)
  ]

  -- One more store extends the area by one item.
  stored-Filled : Filled old (stored new cur j state) start (suc n) state
  stored-Filled = record {
    same_length = length-set new cur _ ∙ filled.same_length;
    bytes = stored-IsBytes;
    items = λ i h. ground (arith, stored-item i h, filled.items i h);
  }

-- What the loop over one byte comes back with, started at an item of byte `cur`.
record ByteFilled (old : List ℕ) (start count state cur : ℕ) (result : Outcome Progress)
    : Type 0 where
  progress : Progress
  returns : result ≡ ok progress
  filled : Filled old progress.bmap start progress.processed state
  bounded : progress.processed ≤ count
  stopped : progress.finished ≡ true → progress.processed ≡ count
  passed : progress.finished ≡ false → start + progress.processed ≡ (cur + 1) * 4

module _ (old : List ℕ) (start count state : ℕ) (fits : state ≤ 3) where
  fill_byte-suc :
      (rounds j cur : ℕ) (new : List ℕ) (p : ℕ)
      → p < count
      → j < 4
      → cur < length new
      → fill_byte count state (suc rounds) j cur new p
        ≡ fill_byte count state rounds (j + 1) cur (stored new cur j state) (p + 1)
  unfolding fill_byte set_state_in_byte
  fill_byte-suc rounds j cur new p more inside in_range =
      ground (arith, load-eq-get_or new cur 0 in_range)

  fill_byte-ByteFilled :
      (rounds j cur : ℕ) (new : List ℕ) (p : ℕ)
      → j + rounds ≡ 4
      → cur < length old
      → p ≤ count
      → start + p ≡ cur * 4 + j
      → Filled old new start p state
      → ByteFilled old start count state cur (fill_byte count state rounds j cur new p)
  fill_byte-ByteFilled zero j cur new p e in_range le at f = record {
    progress = record { bmap = new; processed = p; finished = false };
    returns = unfold fill_byte in refl;
    filled = f;
    bounded = le;
    stopped = λ h. ground arith;
    passed = λ h. omega arith;
  }
  fill_byte-ByteFilled (suc rounds) j cur new p e in_range le at f =
      elim (Bool-cases (leb count p)) [
        | inl done ↦ record {
          progress = record { bmap = new; processed = p; finished = true };
          returns = unfold fill_byte in rw done;
          filled = f;
          bounded = le;
          stopped = λ h. ground arith;
          passed = λ h. ground arith;
        }
        | inr more ↦
            let here : cur < length new = omega (arith, f.same_length) in
            rw (fill_byte-suc rounds j cur new p (ground arith) (omega arith) here) (
              fill_byte-ByteFilled rounds (j + 1) cur (stored new cur j state) (p + 1) (omega arith)
                in_range (ground arith) (omega arith)
                (rw add-one
                  (stored-Filled old new start p state cur j fits (omega arith) here at f)))
      ]

  fill_bytes-stop :
      (bytes j cur : ℕ) (new : List ℕ) (p : ℕ) (q : Progress)
      → fill_byte count state (4 - j) j cur new p ≡ ok q
      → q.finished ≡ true
      → fill_bytes count state (suc bytes) j cur new p ≡ ok q.bmap
  unfolding fill_bytes
  fill_bytes-stop bytes j cur new p q e done = rw (e, done)

  fill_bytes-next :
      (bytes j cur : ℕ) (new : List ℕ) (p : ℕ) (q : Progress)
      → fill_byte count state (4 - j) j cur new p ≡ ok q
      → q.finished ≡ false
      → fill_bytes count state (suc bytes) j cur new p
        ≡ fill_bytes count state bytes 0 (cur + 1) q.bmap q.processed
  unfolding fill_bytes
  fill_bytes-next bytes j cur new p q e more = rw (e, more)

  -- With enough bytes left the loops end by the count, with the whole area set.
  fill_bytes-Filled :
      (bytes j cur : ℕ) (new : List ℕ) (p : ℕ)
      → j ≤ 4
      → p ≤ count
      → start + p ≡ cur * 4 + j
      → start + count ≤ (cur + bytes) * 4
      → cur + bytes ≤ length old
      → Filled old new start p state
      → (out : List ℕ) × (fill_bytes count state bytes j cur new p ≡ ok out)
        × Filled old out start count state
  fill_bytes-Filled zero j cur new p inside le at covers in_range f =
      (new, unfold fill_bytes in refl, subst (λ k. Filled old new start k state) (omega arith) f)
  fill_bytes-Filled (suc bytes) j cur new p inside le at covers in_range f =
      elim (Bool-cases b.progress.finished) [
        | inl done ↦ (
          b.progress.bmap,
          fill_bytes-stop bytes j cur new p b.progress b.returns done,
          subst (λ k. Filled old b.progress.bmap start k state) (b.stopped done) b.filled,
        )
        | inr more ↦
            let rest =
              fill_bytes-Filled bytes 0 (cur + 1) b.progress.bmap b.progress.processed (omega arith)
                b.bounded (omega (arith, b.passed more)) (omega arith) (omega arith) b.filled in
            (rest.0, fill_bytes-next bytes j cur new p b.progress b.returns more ∙ rest.1, rest.2)
      ]
    where
      b : ByteFilled old start count state cur (fill_byte count state (4 - j) j cur new p)
      b = fill_byte-ByteFilled (4 - j) j cur new p (omega arith) (omega arith) le at f

-- With a state of the enumeration, an area that ends before 2 ^ 32 - 3 and lies in the bitmap,
-- ssdfs_blkbmap_set_area returns 0, accesses nothing out of range, sets exactly the items of the
-- area to the state, leaves every other item as it was, and keeps the bitmap's length.
pub set_area-Filled :
    (bmap : List ℕ) (start count state : ℕ)
    → IsBytes bmap
    → state < 4
    → start + count + 3 < 2 ^ 32
    → start + count ≤ 4 * length bmap
    → (out : List ℕ) × (set_area bmap start count state ≡ ok out)
      × Filled bmap out start count state
set_area-Filled bmap start count state b fits no_wrap in_range = (run.0, enters ∙ run.1, run.2)
  where
    bytes : ℕ
    bytes = (start + count + 3) / 4 - start / 4

    run :
        (out : List ℕ) × (fill_bytes count state bytes (start % 4) (start / 4) bmap 0 ≡ ok out)
        × Filled bmap out start count state
    run =
        fill_bytes-Filled bmap start count state (omega arith) bytes (start % 4) (start / 4) bmap 0
          (omega arith) (omega arith) (omega arith) (omega arith) (omega arith)
          (Filled-zero bmap start state b)

    enters :
        set_area bmap start count state
        ≡ fill_bytes count state bytes (start % 4) (start / 4) bmap 0
    enters = unfold set_area in ground arith

-- Any other state is refused, whatever the area.
pub set_area-einval :
    (bmap : List ℕ) (start count state : ℕ)
    → 4 ≤ state
    → set_area bmap start count state ≡ err einval
unfolding set_area
set_area-einval bmap start count state h = ground arith
