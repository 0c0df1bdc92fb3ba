-- ===== src/Segments/Reserved.antt =====
-- Which segments a call of reserve_segments takes.
use ssdfs_tools.Prelude.{
  ℕ, zero, suc, ◌+◌, ◌<◌, ◌≤◌, ◌≡◌, ◌≢◌, refl, sym, ap, ◌∙◌, true, false, leb, ◌==◌, Bool-cases,
  if◌then◌else◌, ◌⊎◌, inl, inr, List, [], ◌∷◌, length, get_or, set, length-set, get_or-set_self,
  get_or-set_ne, ok, err, fault, erange, arith,
}
use ssdfs_tools.Segments.{SegmentDesc, VolumeLayout, store_seg, reserve_from, reserve_segments}

store_seg-set :
    (segs : List SegmentDesc) (index : ℕ) (seg : SegmentDesc)
    → index < length segs
    → store_seg segs index seg ≡ ok (set segs index seg)
unfolding store_seg
store_seg-set [] index seg h = elim h [ ]
store_seg-set (s ∷ segs) zero seg h = refl
store_seg-set (s ∷ segs) (suc index) seg h =
    rw (store_seg-set segs index seg (omega (arith, h))) refl

store_seg_fault :
    (segs : List SegmentDesc) (index : ℕ) (seg : SegmentDesc)
    → length segs ≤ index
    → store_seg segs index seg ≡ fault
unfolding store_seg
store_seg_fault [] index seg h = refl
store_seg_fault (s ∷ segs) zero seg h = absurd (omega (arith, h))
store_seg_fault (s ∷ segs) (suc index) seg h =
    rw (store_seg_fault segs index seg (omega (arith, h))) refl

-- The segments from a place on, as many as are counted, are the one; the others are as before.
pub record IsFilled (count index : ℕ) (seg : SegmentDesc) (before behind : List SegmentDesc)
    : Type 0 where
  pub same_length : length behind ≡ length before
  pub inside : (i : ℕ) (d : SegmentDesc) → index ≤ i → i < index + count → get_or behind i d ≡ seg
  pub outside :
      (i : ℕ) (d : SegmentDesc)
      → (i < index) ⊎ (index + count ≤ i)
      → get_or behind i d ≡ get_or before i d

reserve_from_fills :
    (left index : ℕ) (seg : SegmentDesc) (segs : List SegmentDesc)
    → index + left ≤ length segs
    → (behind : List SegmentDesc) × (reserve_from left index seg segs ≡ ok behind)
      × IsFilled left index seg segs behind
unfolding reserve_from
reserve_from_fills zero index seg segs h = (
  segs,
  refl,
  record {
    same_length = refl;
    inside = λ i d from to. absurd (omega (arith, from, to));
    outside = λ i d _. refl;
  },
)
reserve_from_fills (suc left) index seg segs h =
    let next : List SegmentDesc = set segs index seg in
    let size : length next ≡ length segs = length-set segs index seg in
    let rest = reserve_from_fills left (index + 1) seg next (omega (arith, size, h)) in
    let filled = rest.2 in
    (
      rest.0,
      rw (store_seg-set segs index seg (omega (arith, h))) rest.1,
      record {
        same_length = filled.same_length ∙ size;
        inside = λ i d from to. elim (Bool-cases (i == index)) [
          | inl y ↦
              let same : i ≡ index = ground (arith, y) in
              filled.outside i d (inl (omega (arith, same)))
              ∙ ap (λ k. get_or next k d) same
              ∙ get_or-set_self segs index seg d (omega (arith, h))
          | inr n ↦ filled.inside i d (ground (arith, n, from)) (omega (arith, to))
        ];
        outside = λ i d away.
            let apart : (i < index + 1) ⊎ (index + 1 + left ≤ i) = elim away [
              | inl low ↦ inl (omega (arith, low))
              | inr high ↦ inr (omega (arith, high))
            ] in
            let other : i ≢ index = elim away [
              | inl low ↦ λ e. absurd (omega (arith, low, e))
              | inr high ↦ λ e. absurd (omega (arith, high, e))
            ] in
            filled.outside i d apart ∙ get_or-set_ne segs index i seg d (λ e. other (sym e));
      },
    )

reserve_from_overruns :
    (left index : ℕ) (seg : SegmentDesc) (segs : List SegmentDesc)
    → index ≤ length segs
    → length segs < index + left
    → reserve_from left index seg segs ≡ fault
unfolding reserve_from
reserve_from_overruns zero index seg segs h over = absurd (omega (arith, h, over))
reserve_from_overruns (suc left) index seg segs h over =
    elim (Bool-cases (leb (length segs) index)) [
      | inl y ↦ rw (store_seg_fault segs index seg (ground (arith, y))) refl
      | inr n ↦
          let size : length (set segs index seg) ≡ length segs = length-set segs index seg in
          let inside : index < length segs = ground (arith, n) in
          rw (store_seg-set segs index seg inside) (
            reserve_from_overruns left (index + 1) seg (set segs index seg)
              (omega (arith, size, inside)) (omega (arith, size, over)))
    ]

-- The result of a call that has something to reserve.
pub record IsReserved (layout : VolumeLayout) (meta_index : ℕ) : Type 0 where
  pub reserves :
      layout.next_seg_index + (layout.meta_array meta_index).segs_count ≤ length layout.segs
      → (after : VolumeLayout) × (reserve_segments layout meta_index ≡ ok after)
        × (after.next_seg_index ≡ layout.next_seg_index + (layout.meta_array meta_index).segs_count)
        × ((after.meta_array meta_index).start_seg_index ≡ layout.next_seg_index)
        × IsFilled
            (layout.meta_array meta_index).segs_count
            layout.next_seg_index
            (record { seg_type = meta_index; seg_state = (layout.meta_array meta_index).seg_state })
            layout.segs
            after.segs
  pub refuses :
      length layout.segs ≤ layout.next_seg_index → reserve_segments layout meta_index ≡ err erange
  pub overruns :
      layout.next_seg_index < length layout.segs
      → length layout.segs < layout.next_seg_index + (layout.meta_array meta_index).segs_count
      → reserve_segments layout meta_index ≡ fault

-- reserve_segments for a kind of metadata that has segments to reserve. When they fit behind those
-- that are reserved already, it gives them the type and the state of the metadata, notes the first
-- one, goes behind the last one, and changes no other segment. When no segment is left, it returns
-- -ERANGE. When some are left but not enough, it stores behind the end of the array.
pub reserve_segments-IsReserved :
    (layout : VolumeLayout) (meta_index : ℕ)
    → meta_index < 5
    → 0 < (layout.meta_array meta_index).segs_count
    → IsReserved layout meta_index
unfolding reserve_segments
reserve_segments-IsReserved layout meta_index known some =
    let count : ℕ = (layout.meta_array meta_index).segs_count in
    let index : ℕ = layout.next_seg_index in
    let seg : SegmentDesc = record {
      seg_type = meta_index;
      seg_state = (layout.meta_array meta_index).seg_state;
    } in
    let a : leb 5 meta_index ≡ false = ground (arith, known) in
    let b : (count == 0) ≡ false = ground (arith, some) in
    record {
      reserves = λ fits.
          let filled = reserve_from_fills count index seg layout.segs fits in
          let c : leb (length layout.segs) index ≡ false = ground (arith, some, fits) in
          let same : (meta_index == meta_index) ≡ true = ground arith in
          (
            record {
              segs = filled.0;
              next_seg_index = index + count;
              meta_array = λ k.
                  if k == meta_index
                  then record (layout.meta_array meta_index) { start_seg_index = index }
                  else layout.meta_array k;
            },
            rw (a, b, c, filled.1) refl,
            refl,
            rw same refl,
            filled.2,
          );
      refuses = λ full.
          let c : leb (length layout.segs) index ≡ true = ground (arith, full) in rw (a, b, c) refl;
      overruns = λ left over.
          let c : leb (length layout.segs) index ≡ false = ground (arith, left) in
          rw (a, b, c, reserve_from_overruns count index seg layout.segs (omega (arith, left)) over)
            refl;
    }
