-- ===== src/MaptblCache/Shift.antt =====
-- shift_items of add_leb2peb_pair: a gap at the place of the new pair, and one at that of its state.
use ssdfs_tools.Prelude.{
  ℕ, suc, ◌+◌, ◌-◌, ◌*◌, ◌≤◌, ◌≡◌, refl, sym, ap, ◌∙◌, true, false, ltb, List, [], ◌∷◌, ◌++◌,
  length, length-window, append_assoc, window, drop, Outcome, ok, arith,
}
use ssdfs_tools.LittleEndian.Windows.{split_at, length-drop}
use ssdfs_tools.MaptblCache.{shift_items, Entry}
use ssdfs_tools.MaptblCache.Layout.{pairs, states, magic, AllEntries, length-pairs, length-states}
use ssdfs_tools.MaptblCache.Room.{gapped, Shifted, both_moved}

module _ (head gap rest : List ℕ) (head_size : length head ≡ 32) (gap_size : length gap ≡ 16)
    (room : 4 ≤ length rest) where
  abbrev shifted : List Entry → List Entry → Outcome (List ℕ)
  shifted xs ys =
      shift_items false (gapped head (pairs xs ++ pairs ys) gap (states xs ++ states ys) rest)
        (32 + (length xs + length ys) * 16 + 4 + 16) (length xs) (length xs + length ys)

  pub shift_items-eq :
      (xs ys : List Entry)
      → AllEntries xs
      → AllEntries ys
      → Shifted head (pairs xs) (pairs ys) (states xs) (states ys) (length rest - 4) (shifted xs ys)
  unfolding shift_items
  shift_items-eq xs [] a b = record {
    gap = gap;
    gap' = window 0 4 rest;
    rest = drop 4 rest;
    gap_size = gap_size;
    gap'_size = length-window 0 4 rest (omega arith);
    rest_size = length-drop 4 rest;
    form =
        let none_moved : ltb (length xs) (length xs + 0) ≡ false = ground arith in
        rw none_moved (
          ap (λ r. ok (head ++ r))
            (append_assoc (pairs xs) [] (gap ++ (magic ++ ((states xs ++ []) ++ rest))))
          ∙ ap (λ r. ok (head ++ (pairs xs ++ (gap ++ (magic ++ r)))))
              (append_assoc (states xs) [] rest
                ∙ ap (λ r. states xs ++ r) (sym (split_at 4 rest))));
  }
  shift_items-eq xs (y ∷ ys) a b =
      let n = length xs + suc (length ys) in
      let some_moved : ltb (length xs) n ≡ true = ground arith in
      let count : n - length xs ≡ suc (length ys) = omega arith in
      both_moved head (pairs xs) (pairs (y ∷ ys)) (states xs) (states (y ∷ ys)) gap rest (length xs)
        (suc (length ys)) head_size (length-pairs xs a) (length-pairs (y ∷ ys) b)
        (length-states xs a) (length-states (y ∷ ys) b) gap_size room (shifted xs (y ∷ ys))
        (32 + n * 16 + 4 + 16 + 4 * length xs) (32 + n * 16 + 4 + 16 + 4 * (length xs + 1))
        (omega arith) (omega arith) (rw (some_moved, count) refl)
