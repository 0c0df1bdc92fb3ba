-- ===== src/MaptblCache/Add.antt =====
-- The calls of add_leb2peb_pair in a fragment with room, one behind the other.
use ssdfs_tools.Prelude.{
  ℕ, ◌+◌, ◌-◌, ◌*◌, ◌<◌, ◌≤◌, ◌≡◌, refl, sym, ap, ◌∙◌, subst, false, ltb, ◌==◌, none, if◌then◌else◌,
  List, ◌∷◌, ◌++◌, length, length-append, drop, ok, arith,
}
use ssdfs_tools.LittleEndian.Windows.{length-drop}
use ssdfs_tools.MaptblCache.{
  make_room, item_index, shift_items, put_entry, pairs_per_fragment, Entry, Added, add_leb2peb_pair,
}
use ssdfs_tools.MaptblCache.Layout.{
  key, pairs, states, magic, compose, IsEntry, AllEntries, IsFragment, length-pairs, length-states,
  first_peb_state-eq,
}
use ssdfs_tools.MaptblCache.Find.{
  NoneAbove, AllAbove, item_index-eq, pairs-append, states-append, AllEntries-left,
  AllEntries-right,
}
use ssdfs_tools.MaptblCache.Room.{gapped, two_gaps, make_room-eq, gap, length-gap, Shifted}
use ssdfs_tools.MaptblCache.Shift.{shift_items-eq}
use ssdfs_tools.MaptblCache.Put.{put_entry-eq, first_leb, last_leb}
use ssdfs_tools.MaptblCache.Stamp.{stamp}

module _ (page_size : ℕ) (fragment : List ℕ) (new : Entry) (fine : IsEntry new) (xs ys : List Entry)
    (f : IsFragment page_size (xs ++ ys) fragment)
    (free : length (xs ++ ys) < pairs_per_fragment page_size) where
  abbrev pub es : List Entry
  es = xs ++ ys

  abbrev pub n : ℕ
  n = length xs + length ys

  abbrev pub all : List Entry
  all = xs ++ (new ∷ ys)

  pub sum : length es ≡ n
  sum = length-append xs ys

  pub sum_all : length all ≡ n + 1
  sum_all = omega (arith, length-append xs (new ∷ ys))

  pub bound : 36 + (n + 1) * 20 ≤ page_size
  bound = omega (arith, sum, free)

  pub room : 20 ≤ length f.rest
  room =
      let total : length (compose f.head f.rest es) ≡ page_size = ap length (sym f.form) ∙ f.size in
      omega (
        arith,
        total,
        bound,
        sum,
        f.head_size,
        length-append f.head (pairs es ++ (magic ++ (states es ++ f.rest))),
        length-append (pairs es) (magic ++ (states es ++ f.rest)),
        length-append magic (states es ++ f.rest),
        length-append (states es) f.rest,
        length-pairs es f.entries,
        length-states es f.entries,
      )

  room16 : 16 ≤ length f.rest
  room16 = omega (arith, room)

  pub hole : List ℕ
  hole = gap page_size es fragment f room16

  pub before : AllEntries xs
  before = AllEntries-left xs ys f.entries

  pub after : AllEntries ys
  after = AllEntries-right xs ys f.entries

  pub shifted :
      Shifted f.head (pairs xs) (pairs ys) (states xs) (states ys) (length (drop 16 f.rest) - 4) (
        shift_items false
          (gapped f.head (pairs es) hole (states es) (drop 16 f.rest))
          (32 + n * 16 + 4 + 16)
          (length xs)
          n)
  unfolding hole
  shifted =
      subst
        (λ (parts : List ℕ × List ℕ).
          Shifted f.head (pairs xs) (pairs ys) (states xs) (states ys) (length (drop 16 f.rest) - 4)
            (shift_items false (gapped f.head parts.0 hole parts.1 (drop 16 f.rest))
              (32 + n * 16 + 4 + 16) (length xs) n))
        (both (sym (pairs-append xs ys)) (sym (states-append xs ys)))
        (shift_items-eq f.head hole (drop 16 f.rest) f.head_size
          (length-gap page_size es fragment f room16) (omega (arith, length-drop 16 f.rest, room))
          xs ys before after)
    where
      both : {a b c d : List ℕ} → a ≡ b → c ≡ d → ◌≡◌ {A = List ℕ × List ℕ} (a, c) (b, d)
      both {a} {b} {c} {d} p q =
          ap {B = List ℕ × List ℕ} (λ k. (k, c)) p ∙ ap {B = List ℕ × List ℕ} (λ k. (b, k)) q

  abbrev pub remaining : List ℕ
  remaining = shifted.rest

  pub remaining_size : length remaining ≡ length (drop 16 f.rest) - 4
  remaining_size = shifted.rest_size

  abbrev pub out : List ℕ
  out = compose (stamp f.head (first_leb all) (last_leb all) (n + 1)) shifted.rest all

  abbrev pub added : Added
  added = record { fragment = out; moving = none; added_bytes = (if n == 0 then 36 else 0) + 20 }

  found :
      NoneAbove (key new) xs
      → AllAbove (key new) ys
      → item_index (gapped f.head (pairs es) hole (states es) (drop 16 f.rest)) (key new) n
        ≡ ok (length xs)
  found below above =
      item_index-eq f.head (hole ++ (magic ++ (states es ++ drop 16 f.rest))) f.head_size (key new)
        xs ys f.entries below above

  put :
      put_entry
        (two_gaps f.head
          (pairs xs)
          shifted.gap
          (pairs ys)
          (states xs)
          shifted.gap'
          (states ys)
          shifted.rest)
        (32 + n * 16 + 4 + 16)
        (length xs)
        n
        new
      ≡ ok out
  put =
      put_entry-eq f.head shifted.rest shifted.gap shifted.gap' xs ys new f.head_size
        shifted.gap_size shifted.gap'_size before after fine

  pub succeeds_there :
      NoneAbove (key new) xs
      → AllAbove (key new) ys
      → add_leb2peb_pair page_size fragment new ≡ ok added
  unfolding add_leb2peb_pair hole
  succeeds_there below above =
      let full : (n == pairs_per_fragment page_size) ≡ false = ground (arith, sum, free) in
      let over : ltb (pairs_per_fragment page_size) n ≡ false = ground (arith, sum, free) in
      let made =
        subst
          (λ k.
            make_room false fragment (32 + k * 16 + 4)
            ≡ ok (gapped f.head (pairs es) hole (states es) (drop 16 f.rest), 32 + k * 16 + 4 + 16))
          sum (make_room-eq page_size es fragment f room16 (32 + length es * 16 + 4)) in
      rw
        (
          f.counts,
          sum,
          full,
          over,
          first_peb_state-eq page_size es fragment f,
          sum,
          made,
          found below above,
          shifted.form,
          put,
        )
        refl
