-- ===== src/MaptblCache/Room.antt =====
-- The moves of add_leb2peb_pair that make room for a pair and a state.
use ssdfs_tools.Prelude.{
  ℕ, ◌+◌, ◌-◌, ◌*◌, ◌≤◌, ◌≡◌, refl, sym, ap, ◌∙◌, false, List, ◌++◌, length, length-append,
  length-window, append_assoc, window, drop, Outcome, ok, ◌>>=◌, arith,
}
use ssdfs_tools.LittleEndian.{memmove}
use ssdfs_tools.LittleEndian.Windows.{drop-append, length-drop}
use ssdfs_tools.LittleEndian.Parts.{memmove_at}
use ssdfs_tools.MaptblCache.{make_room, pair_offset, Entry}
use ssdfs_tools.MaptblCache.Layout.{
  pairs, states, magic, length-pairs, length-states, IsFragment, peb_state_area-eq,
  peb_state_area_size-eq,
}

-- The parts with a gap before the magic number.
abbrev pub gapped : (head : List ℕ) (ps gap ss rest : List ℕ) → List ℕ
gapped head ps gap ss rest = head ++ (ps ++ (gap ++ (magic ++ (ss ++ rest))))

-- The parts with a gap in the pairs and one in the states.
abbrev pub two_gaps : (head ps gap qs ss gap' ts rest : List ℕ) → List ℕ
two_gaps head ps gap qs ss gap' ts rest =
    head ++ (ps ++ (gap ++ (qs ++ (magic ++ (ss ++ (gap' ++ (ts ++ rest)))))))

-- The parts one behind the other, the first six taken together.
pub nest :
    (head ps gap qs ss cs : List ℕ)
    → (head ++ (ps ++ (gap ++ (qs ++ (magic ++ ss))))) ++ cs
      ≡ head ++ (ps ++ (gap ++ (qs ++ (magic ++ (ss ++ cs)))))
nest head ps gap qs ss cs =
    append_assoc head (ps ++ (gap ++ (qs ++ (magic ++ ss)))) cs
    ∙ ap (λ r. head ++ r)
        (append_assoc ps (gap ++ (qs ++ (magic ++ ss))) cs
          ∙ ap (λ r. ps ++ r)
              (append_assoc gap (qs ++ (magic ++ ss)) cs
                ∙ ap (λ r. gap ++ r)
                    (append_assoc qs (magic ++ ss) cs
                      ∙ ap (λ r. qs ++ r) (append_assoc magic ss cs))))

pub length-nest :
    (head ps gap qs ss : List ℕ)
    → length (head ++ (ps ++ (gap ++ (qs ++ (magic ++ ss)))))
      ≡ length head + length ps + length gap + length qs + 4 + length ss
length-nest head ps gap qs ss = omega (
  arith,
  length-append head (ps ++ (gap ++ (qs ++ (magic ++ ss)))),
  length-append ps (gap ++ (qs ++ (magic ++ ss))),
  length-append gap (qs ++ (magic ++ ss)),
  length-append qs (magic ++ ss),
  length-append magic ss,
)

module _ (page_size : ℕ) (es : List Entry) (fragment : List ℕ)
    (f : IsFragment page_size es fragment) (room : 16 ≤ length f.rest) where
  pub gap : List ℕ
  gap = window 0 16 ((magic ++ states es) ++ f.rest)

  pub length-gap : length gap ≡ 16
  unfolding gap
  length-gap =
      length-window 0 16 ((magic ++ states es) ++ f.rest)
        (omega (arith, length-append (magic ++ states es) f.rest, room))

  moved :
      memmove (32 + length es * 16 + 16) (32 + length es * 16) (4 + length es * 4) fragment
      ≡ ok (gapped f.head (pairs es) gap (states es) (drop 16 f.rest))
  unfolding gap
  moved =
      ap (memmove (32 + length es * 16 + 16) (32 + length es * 16) (4 + length es * 4)) (
        f.form
        ∙ sym (append_assoc f.head (pairs es) (magic ++ (states es ++ f.rest)))
        ∙ ap (λ r. (f.head ++ pairs es) ++ r) (sym (append_assoc magic (states es) f.rest)))
      ∙ memmove_at (32 + length es * 16) (f.head ++ pairs es)
          (omega (arith, length-append f.head (pairs es), length-pairs es f.entries, f.head_size))
          (32 + length es * 16 + 16) (4 + length es * 4) 16 (magic ++ states es) f.rest refl
          (omega (arith, length-append magic (states es), length-states es f.entries)) room
      ∙ ap ok (
          append_assoc f.head (pairs es) (gap ++ ((magic ++ states es) ++ drop 16 f.rest))
          ∙ ap (λ r. f.head ++ (pairs es ++ (gap ++ r)))
              (append_assoc magic (states es) (drop 16 f.rest)))

  pub make_room-eq :
      (s : ℕ)
      → make_room false fragment s
        ≡ ok (
          gapped f.head (pairs es) gap (states es) (drop 16 f.rest),
          32 + length es * 16 + 4 + 16,
        )
  unfolding make_room
  make_room-eq s =
      rw
        (
          peb_state_area-eq page_size es fragment f,
          peb_state_area_size-eq page_size es fragment f,
          moved,
        )
        refl

-- What shift_items leaves of a buffer with one gap: `left` bytes stand behind the states.
pub record Shifted (head ps qs ss ts : List ℕ) (left : ℕ) (answer : Outcome (List ℕ)) : Type 0 where
  pub gap : List ℕ
  pub gap' : List ℕ
  pub rest : List ℕ
  pub gap_size : length gap ≡ 16
  pub gap'_size : length gap' ≡ 4
  pub rest_size : length rest ≡ left
  pub form : answer ≡ ok (two_gaps head ps gap qs ss gap' ts rest)

-- The parts before and behind the place, in bytes.
module _ (head ps qs ss ts gap rest : List ℕ) (item moving : ℕ) (head_size : length head ≡ 32)
    (ps_size : length ps ≡ 16 * item) (qs_size : length qs ≡ 16 * moving)
    (ss_size : length ss ≡ 4 * item) (ts_size : length ts ≡ 4 * moving) (gap_size : length gap ≡ 16)
    (room : 4 ≤ length rest) where
  abbrev tail : List ℕ
  tail = magic ++ ((ss ++ ts) ++ rest)

  abbrev gap2 : List ℕ
  gap2 = window 0 16 (qs ++ (gap ++ tail))

  abbrev gap3 : List ℕ
  gap3 = window 0 4 (ts ++ rest)

  gap2_size : length gap2 ≡ 16
  gap2_size =
      length-window 0 16 (qs ++ (gap ++ tail))
        (omega (arith, length-append qs (gap ++ tail), length-append gap tail, gap_size))

  gap3_size : length gap3 ≡ 4
  gap3_size = length-window 0 4 (ts ++ rest) (omega (arith, length-append ts rest, room))

  pairs_moved :
      memmove
        (pair_offset (item + 1))
        (pair_offset item)
        (16 * moving)
        (gapped head (ps ++ qs) gap (ss ++ ts) rest)
      ≡ ok (head ++ (ps ++ (gap2 ++ (qs ++ tail))))
  pairs_moved =
      ap (memmove (pair_offset (item + 1)) (pair_offset item) (16 * moving)) (
        ap (λ r. head ++ r) (append_assoc ps qs (gap ++ tail))
        ∙ sym (append_assoc head ps (qs ++ (gap ++ tail))))
      ∙ memmove_at (pair_offset item) (head ++ ps)
          (omega (arith, length-append head ps, head_size, ps_size)) (pair_offset (item + 1))
          (16 * moving) 16 qs (gap ++ tail) (omega arith) (sym qs_size)
          (omega (arith, length-append gap tail, gap_size))
      ∙ ap (λ r. ok ((head ++ ps) ++ (gap2 ++ (qs ++ r))))
          (ap (λ n. drop n (gap ++ tail)) all ∙ drop-append gap tail 0)
      ∙ ap ok (append_assoc head ps (gap2 ++ (qs ++ tail)))
    where
      all : 16 ≡ length gap + 0
      all = omega (arith, gap_size)

  -- The bytes before the states to be moved.
  abbrev front : List ℕ
  front = head ++ (ps ++ (gap2 ++ (qs ++ (magic ++ ss))))

  length-front : length front ≡ 32 + 16 * item + 16 + 16 * moving + 4 + 4 * item
  length-front =
      omega (arith, length-nest head ps gap2 qs ss, gap2_size, head_size, ps_size, qs_size, ss_size)

  states_moved :
      (at next : ℕ)
      → at ≡ 32 + 16 * item + 16 + 16 * moving + 4 + 4 * item
      → next ≡ at + 4
      → memmove next at (4 * moving) (head ++ (ps ++ (gap2 ++ (qs ++ tail))))
        ≡ ok (two_gaps head ps gap2 qs ss gap3 ts (drop 4 rest))
  states_moved at next h k =
      ap (memmove next at (4 * moving)) (
        ap (λ r. head ++ (ps ++ (gap2 ++ (qs ++ (magic ++ r))))) (append_assoc ss ts rest)
        ∙ sym (nest head ps gap2 qs ss (ts ++ rest)))
      ∙ memmove_at at front (omega (arith, h, length-front)) next (4 * moving) 4 ts rest k
          (sym ts_size) room
      ∙ ap ok (nest head ps gap2 qs ss (gap3 ++ (ts ++ drop 4 rest)))

  pub both_moved :
      (answer : Outcome (List ℕ)) (at next : ℕ)
      → at ≡ 32 + 16 * item + 16 + 16 * moving + 4 + 4 * item
      → next ≡ at + 4
      → answer ≡ (
          memmove
            (pair_offset (item + 1))
            (pair_offset item)
            (16 * moving)
            (gapped head (ps ++ qs) gap (ss ++ ts) rest)
          >>= memmove next at (4 * moving))
      → Shifted head ps qs ss ts (length rest - 4) answer
  both_moved answer at next h k e = record {
    gap = gap2;
    gap' = gap3;
    rest = drop 4 rest;
    gap_size = gap2_size;
    gap'_size = gap3_size;
    rest_size = length-drop 4 rest;
    form = e ∙ ap (λ m. m >>= memmove next at (4 * moving)) pairs_moved ∙ states_moved at next h k;
  }
