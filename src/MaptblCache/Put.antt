-- ===== src/MaptblCache/Put.antt =====
-- put_entry of add_leb2peb_pair: the entry in its gaps, and the header that counts it.
use ssdfs_tools.Prelude.{
  ℕ, suc, ◌+◌, ◌*◌, ◌≡◌, refl, sym, ap, ◌∙◌, subst, List, [], ◌∷◌, ◌++◌, length, length-append,
  length-window, append_assoc, window, patch, length-patch, ok, arith,
}
use ssdfs_tools.LittleEndian.{store, fetch}
use ssdfs_tools.LittleEndian.Parts.{store_part}
use ssdfs_tools.MaptblCache.{put_entry, pair_offset, Entry}
use ssdfs_tools.MaptblCache.Layout.{
  pairs, states, magic, compose, IsEntry, AllEntries, length-pairs, length-states,
}
use ssdfs_tools.MaptblCache.Find.{
  fetch-pair, empty, behind, by_end, pairs-append, states-append, AllEntries-append,
}
use ssdfs_tools.MaptblCache.Room.{two_gaps, nest, length-nest}
use ssdfs_tools.MaptblCache.Stamp.{stamp, first_stored, last_stored, items_stored, bytes_stored}

-- The bytes of the first and of the last LEB.
abbrev pub first_leb : List Entry → List ℕ
first_leb [] = []
first_leb (e ∷ es) = window 0 8 e.pair

abbrev pub last_leb : List Entry → List ℕ
last_leb [] = []
last_leb (e ∷ []) = window 0 8 e.pair
last_leb (e ∷ (d ∷ es)) = last_leb (d ∷ es)

last_leb-end : (ws : List Entry) (x : Entry) → last_leb (ws ++ (x ∷ [])) ≡ window 0 8 x.pair
last_leb-end [] x = refl
last_leb-end (w ∷ []) x = refl
last_leb-end (w ∷ (v ∷ ws)) x = last_leb-end (v ∷ ws) x

pub length-first_leb :
    (n : ℕ) (es : List Entry) → length es ≡ suc n → AllEntries es → length (first_leb es) ≡ 8
length-first_leb n [] count a = absurd (omega arith)
length-first_leb n (e ∷ es) count a = let h = a.0 in length-window 0 8 e.pair (omega (arith, h.0))

pub length-last_leb :
    (n : ℕ) (es : List Entry) → length es ≡ suc n → AllEntries es → length (last_leb es) ≡ 8
length-last_leb n [] count a = absurd (omega arith)
length-last_leb n (e ∷ []) count a = let h = a.0 in length-window 0 8 e.pair (omega (arith, h.0))
length-last_leb n (e ∷ (d ∷ es)) count a = length-last_leb (length es) (d ∷ es) refl a.1

-- Where they are read.
fetch_first :
    (head tail : List ℕ)
    → length head ≡ 32
    → (n : ℕ) (es : List Entry) → length es ≡ suc n
    → AllEntries es
    → fetch (pair_offset 0) 8 (head ++ (pairs es ++ tail)) ≡ ok (first_leb es)
fetch_first head tail size n [] count good = absurd (omega arith)
fetch_first head tail size n (e ∷ es) count good =
    fetch-pair head size tail [] e es good (head ++ (pairs (e ∷ es) ++ tail)) refl 8 (omega arith)

fetch_last :
    (head tail : List ℕ)
    → length head ≡ 32
    → (n : ℕ) (es : List Entry) → length es ≡ suc n
    → AllEntries es
    → fetch (pair_offset n) 8 (head ++ (pairs es ++ tail)) ≡ ok (last_leb es)
fetch_last head tail size n es count good = elim (by_end es) [
  | empty e ↦ absurd (let z = ap length e in omega (arith, z, count))
  | behind ws x e ↦
      let at : n ≡ length ws =
        (let z = ap length e in omega (arith, z, count, length-append ws (x ∷ []))) in
      ap (λ k. fetch (pair_offset k) 8 (head ++ (pairs es ++ tail))) at
      ∙ fetch-pair head size tail ws x [] (subst AllEntries e good) (head ++ (pairs es ++ tail))
          (ap (λ l. head ++ (pairs l ++ tail)) e) 8 (omega arith)
      ∙ ap ok (sym (last_leb-end ws x) ∙ ap last_leb (sym e))
]

module _ (head rest gap gap' : List ℕ) (xs ys : List Entry) (new : Entry)
    (head_size : length head ≡ 32) (gap_size : length gap ≡ 16) (gap'_size : length gap' ≡ 4)
    (before : AllEntries xs) (after : AllEntries ys) (fine : IsEntry new) where
  abbrev all : List Entry
  all = xs ++ (new ∷ ys)

  abbrev n : ℕ
  n = length xs + length ys

  all_fine : AllEntries all
  all_fine = AllEntries-append xs (new ∷ ys) before (fine, after)

  pair_stored :
      store
        (pair_offset (length xs))
        new.pair
        (two_gaps head (pairs xs) gap (pairs ys) (states xs) gap' (states ys) rest)
      ≡ ok (two_gaps head (pairs xs) new.pair (pairs ys) (states xs) gap' (states ys) rest)
  pair_stored =
      let tail = pairs ys ++ (magic ++ (states xs ++ (gap' ++ (states ys ++ rest)))) in
      ap (store (pair_offset (length xs)) new.pair)
        (sym (append_assoc head (pairs xs) (gap ++ tail)))
      ∙ store_part (pair_offset (length xs)) (head ++ pairs xs)
          (omega (arith, length-append head (pairs xs), length-pairs xs before, head_size)) new.pair
          gap tail (omega (arith, fine.0, gap_size))
      ∙ ap ok (append_assoc head (pairs xs) (new.pair ++ tail))

  state_stored :
      (at : ℕ)
      → at ≡ 32 + n * 16 + 4 + 16 + 4 * length xs
      → store at new.state
          (two_gaps head (pairs xs) new.pair (pairs ys) (states xs) gap' (states ys) rest)
        ≡ ok (two_gaps head (pairs xs) new.pair (pairs ys) (states xs) new.state (states ys) rest)
  state_stored at h =
      let (pair_fits, state_fits, _) = fine in
      ap (store at new.state)
        (sym (nest head (pairs xs) new.pair (pairs ys) (states xs) (gap' ++ (states ys ++ rest))))
      ∙ store_part at (head ++ (pairs xs ++ (new.pair ++ (pairs ys ++ (magic ++ states xs)))))
          (omega (
            arith,
            h,
            length-nest head (pairs xs) new.pair (pairs ys) (states xs),
            head_size,
            length-pairs xs before,
            length-pairs ys after,
            length-states xs before,
            pair_fits,
          ))
          new.state gap' (states ys ++ rest) (omega (arith, state_fits, gap'_size))
      ∙ ap ok
          (nest head (pairs xs) new.pair (pairs ys) (states xs) (new.state ++ (states ys ++ rest)))

  -- The parts are those of the entries with the new one.
  composed :
      two_gaps head (pairs xs) new.pair (pairs ys) (states xs) new.state (states ys) rest
      ≡ compose head rest all
  composed =
      ap (λ r. head ++ r)
        (sym (
            append_assoc_three (pairs xs) new.pair (pairs ys)
              (magic ++ (states xs ++ (new.state ++ (states ys ++ rest)))))
          ∙ ap (λ p. p ++ (magic ++ (states xs ++ (new.state ++ (states ys ++ rest)))))
              (sym (pairs-append xs (new ∷ ys)))
          ∙ ap (λ r. pairs all ++ (magic ++ r))
              (sym (append_assoc_three (states xs) new.state (states ys) rest)
                ∙ ap (λ p. p ++ rest) (sym (states-append xs (new ∷ ys)))))
    where
      append_assoc_three :
          (bs cs ds es : List ℕ) → (bs ++ (cs ++ ds)) ++ es ≡ bs ++ (cs ++ (ds ++ es))
      append_assoc_three bs cs ds es =
          append_assoc bs (cs ++ ds) es ∙ ap (λ r. bs ++ r) (append_assoc cs ds es)

  abbrev stamped : List ℕ
  stamped = stamp head (first_leb all) (last_leb all) (n + 1)

  count : length all ≡ suc n
  count = omega (arith, length-append xs (new ∷ ys))

  tail : List ℕ
  tail = pairs all ++ (magic ++ (states all ++ rest))

  first_size : length (first_leb all) ≡ 8
  first_size = length-first_leb n all count all_fine

  last_size : length (last_leb all) ≡ 8
  last_size = length-last_leb n all count all_fine

  first_fetched : fetch (pair_offset 0) 8 (compose head rest all) ≡ ok (first_leb all)
  first_fetched = fetch_first head (magic ++ (states all ++ rest)) head_size n all count all_fine

  last_fetched :
      fetch (pair_offset n) 8 (compose (patch 16 (first_leb all) head) rest all) ≡ ok (last_leb all)
  last_fetched =
      fetch_last (patch 16 (first_leb all) head) (magic ++ (states all ++ rest))
        (length-patch 16 (first_leb all) head ∙ head_size) n all count all_fine

  pub put_entry-eq :
      put_entry
        (two_gaps head (pairs xs) gap (pairs ys) (states xs) gap' (states ys) rest)
        (32 + n * 16 + 4 + 16)
        (length xs)
        n
        new
      ≡ ok (compose stamped rest all)
  unfolding put_entry tail
  put_entry-eq =
      rw
        (
          pair_stored,
          state_stored (32 + n * 16 + 4 + 16 + 4 * length xs) refl,
          composed,
          first_fetched,
          first_stored head (first_leb all) (last_leb all) tail (n + 1) head_size first_size
              last_size,
          last_fetched,
          last_stored head (first_leb all) (last_leb all) tail (n + 1) head_size first_size
              last_size,
          items_stored head (first_leb all) (last_leb all) tail (n + 1) head_size first_size
              last_size,
        )
        (bytes_stored head (first_leb all) (last_leb all) tail (n + 1) head_size first_size
          last_size)
