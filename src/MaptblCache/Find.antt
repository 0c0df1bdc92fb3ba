-- ===== src/MaptblCache/Find.antt =====
-- The search of add_leb2peb_pair for the place of a new entry among the pairs.
use ssdfs_tools.Prelude.{
  ℕ, suc, ◌+◌, ◌<◌, ◌≤◌, ◌≡◌, refl, sym, ap, ◌∙◌, true, false, leb, ◌==◌, List, [], ◌∷◌, ◌++◌,
  length, length-append, append_assoc, window, u64_max, ok, subst, arith,
}
use ssdfs_tools.LittleEndian.{get_le, le_value, fetch}
use ssdfs_tools.LittleEndian.Parts.{window_part, fetch_part}
use ssdfs_tools.MaptblCache.{pair_offset, item_index, Entry}
use ssdfs_tools.MaptblCache.Layout.{key, pairs, states, IsEntry, AllEntries, length-pairs}

pub pairs-append : (xs ys : List Entry) → pairs (xs ++ ys) ≡ pairs xs ++ pairs ys
pairs-append [] ys = refl
pairs-append (x ∷ xs) ys =
    ap (λ r. x.pair ++ r) (pairs-append xs ys) ∙ sym (append_assoc x.pair (pairs xs) (pairs ys))

pub states-append : (xs ys : List Entry) → states (xs ++ ys) ≡ states xs ++ states ys
states-append [] ys = refl
states-append (x ∷ xs) ys =
    ap (λ r. x.state ++ r) (states-append xs ys)
    ∙ sym (append_assoc x.state (states xs) (states ys))

pub AllEntries-append : (xs ys : List Entry) → AllEntries xs → AllEntries ys → AllEntries (xs ++ ys)
AllEntries-append [] ys a b = b
AllEntries-append (x ∷ xs) ys a b = (a.0, AllEntries-append xs ys a.1 b)

pub AllEntries-left : (xs ys : List Entry) → AllEntries (xs ++ ys) → AllEntries xs
AllEntries-left [] ys a = tt
AllEntries-left (x ∷ xs) ys a = (a.0, AllEntries-left xs ys a.1)

pub AllEntries-right : (xs ys : List Entry) → AllEntries (xs ++ ys) → AllEntries ys
AllEntries-right [] ys a = a
AllEntries-right (x ∷ xs) ys a = AllEntries-right xs ys a.1

-- All keys are above a LEB, or none is.
abbrev pub AllAbove : ℕ → List Entry → Type 0
AllAbove leb_id [] = Unit
AllAbove leb_id (e ∷ es) = (leb_id < key e) × AllAbove leb_id es

abbrev pub NoneAbove : ℕ → List Entry → Type 0
NoneAbove leb_id [] = Unit
NoneAbove leb_id (e ∷ es) = (key e ≤ leb_id) × NoneAbove leb_id es

-- The pair at an index, in a buffer that holds the pairs behind 32 bytes.
module _ (head : List ℕ) (head_size : length head ≡ 32) (tail : List ℕ) where
  module _ (xs : List Entry) (y : Entry) (ys : List Entry) (good : AllEntries (xs ++ (y ∷ ys)))
      (buf : List ℕ) (form : buf ≡ head ++ (pairs (xs ++ (y ∷ ys)) ++ tail)) where
    regroup : buf ≡ (head ++ pairs xs) ++ (y.pair ++ (pairs ys ++ tail))
    regroup =
        form
        ∙ ap (λ p. head ++ (p ++ tail)) (pairs-append xs (y ∷ ys))
        ∙ ap (λ p. head ++ p)
            (append_assoc (pairs xs) (y.pair ++ pairs ys) tail
              ∙ ap (λ p. pairs xs ++ p) (append_assoc y.pair (pairs ys) tail))
        ∙ sym (append_assoc head (pairs xs) (y.pair ++ (pairs ys ++ tail)))

    offset : pair_offset (length xs) ≡ length (head ++ pairs xs)
    offset = omega (
      arith,
      length-append head (pairs xs),
      length-pairs xs (AllEntries-left xs (y ∷ ys) good),
      head_size,
    )

    y_good : IsEntry y
    y_good = (AllEntries-right xs (y ∷ ys) good).0

    pub fetch-pair :
        (n : ℕ) → n ≤ 16 → fetch (pair_offset (length xs)) n buf ≡ ok (window 0 n y.pair)
    fetch-pair n h =
        let size = y_good.0 in
        ap (fetch (pair_offset (length xs)) n) regroup
        ∙ fetch_part (pair_offset (length xs)) (head ++ pairs xs) offset n y.pair (pairs ys ++ tail)
            (omega arith)

    key_there : get_le 8 (pair_offset (length xs)) buf ≡ key y
    key_there =
        let size = y_good.0 in
        ap (get_le 8 (pair_offset (length xs))) regroup
        ∙ ap le_value (
            window_part (pair_offset (length xs)) (head ++ pairs xs) offset 8 y.pair
              (pairs ys ++ tail) (omega arith))

    -- One round of the loop.
    passes :
        (leb_id : ℕ)
        → leb_id < key y
        → item_index buf leb_id (suc (length xs)) ≡ item_index buf leb_id (length xs)
    unfolding item_index
    passes leb_id h =
        let (_, _, set) = y_good in
        let a : (get_le 8 (pair_offset (length xs)) buf == u64_max) ≡ false =
          ground (arith, key_there, set) in
        let b : leb (get_le 8 (pair_offset (length xs)) buf) leb_id ≡ false =
          ground (arith, key_there, h) in
        rw (fetch-pair 8 (omega arith), a, b) refl

    stops :
        (leb_id : ℕ)
        → key y ≤ leb_id
        → item_index buf leb_id (suc (length xs)) ≡ ok (suc (length xs))
    unfolding item_index
    stops leb_id h =
        let (_, _, set) = y_good in
        let a : (get_le 8 (pair_offset (length xs)) buf == u64_max) ≡ false =
          ground (arith, key_there, set) in
        let b : leb (get_le 8 (pair_offset (length xs)) buf) leb_id ≡ true =
          ground (arith, key_there, h) in
        rw (fetch-pair 8 (omega arith), a, b) refl

  -- Downwards over the entries that are above, and to the first that is not.
  passes_all :
      (leb_id : ℕ) (xs ys : List Entry)
      → AllEntries (xs ++ ys)
      → (buf : List ℕ) → buf ≡ head ++ (pairs (xs ++ ys) ++ tail)
      → AllAbove leb_id ys
      → item_index buf leb_id (length xs + length ys) ≡ item_index buf leb_id (length xs)
  passes_all leb_id xs [] good buf form above =
      let e : length xs + 0 ≡ length xs = omega arith in ap (item_index buf leb_id) e
  passes_all leb_id xs (y ∷ ys) good buf form above =
      let assoc : (xs ++ (y ∷ [])) ++ ys ≡ xs ++ (y ∷ ys) = append_assoc xs (y ∷ []) ys in
      let size : length (xs ++ (y ∷ [])) ≡ suc (length xs) =
        omega (arith, length-append xs (y ∷ [])) in
      let e : length xs + suc (length ys) ≡ length (xs ++ (y ∷ [])) + length ys =
        omega (arith, size) in
      ap (item_index buf leb_id) e
      ∙ passes_all leb_id (xs ++ (y ∷ [])) ys (subst AllEntries (sym assoc) good) buf
          (form ∙ ap (λ l. head ++ (pairs l ++ tail)) (sym assoc)) above.1
      ∙ ap (item_index buf leb_id) size
      ∙ passes xs y ys good buf form leb_id above.0

  stops_at :
      (leb_id : ℕ) (ws : List Entry) (x : Entry) (ys : List Entry)
      → AllEntries (ws ++ (x ∷ ys))
      → (buf : List ℕ) → buf ≡ head ++ (pairs (ws ++ (x ∷ ys)) ++ tail)
      → NoneAbove leb_id (x ∷ [])
      → item_index buf leb_id (suc (length ws)) ≡ ok (suc (length ws))
  stops_at leb_id ws x ys good buf form none = stops ws x ys good buf form leb_id none.0

-- The last of some entries.
pub data Last (xs : List Entry) : Type 0 where
  empty : xs ≡ [] → Last xs
  behind : (ws : List Entry) (x : Entry) → xs ≡ ws ++ (x ∷ []) → Last xs

pub by_end : (xs : List Entry) → Last xs
by_end [] = empty refl
by_end (x ∷ xs) = elim (by_end xs) [
  | empty e ↦ behind [] x (ap (λ l. x ∷ l) e)
  | behind ws y e ↦ behind (x ∷ ws) y (ap (λ l. x ∷ l) e)
]

NoneAbove-last :
    (leb_id : ℕ) (ws : List Entry) (x : Entry) → NoneAbove leb_id (ws ++ (x ∷ [])) → key x ≤ leb_id
NoneAbove-last leb_id [] x h = h.0
NoneAbove-last leb_id (w ∷ ws) x h = NoneAbove-last leb_id ws x h.1

module _ (head tail : List ℕ) (size : length head ≡ 32) (leb_id : ℕ) (xs ys : List Entry) where
  abbrev buf : List ℕ
  buf = head ++ (pairs (xs ++ ys) ++ tail)

  at_zero : item_index buf leb_id 0 ≡ ok 0
  unfolding item_index
  at_zero = refl

  pub item_index-eq :
      AllEntries (xs ++ ys)
      → NoneAbove leb_id xs
      → AllAbove leb_id ys
      → item_index buf leb_id (length xs + length ys) ≡ ok (length xs)
  item_index-eq good below above =
      passes_all head size tail leb_id xs ys good buf refl above ∙ elim (by_end xs) [
        | empty e ↦ ap (item_index buf leb_id) (ap length e) ∙ at_zero ∙ ap ok (ap length (sym e))
        | behind ws x e ↦
            let assoc : xs ++ ys ≡ ws ++ (x ∷ ys) =
              ap (λ l. l ++ ys) e ∙ append_assoc ws (x ∷ []) ys in
            let n : length xs ≡ suc (length ws) =
              ap length e ∙ omega (arith, length-append ws (x ∷ [])) in
            ap (item_index buf leb_id) n
            ∙ stops_at head size tail leb_id ws x ys (subst AllEntries assoc good) buf
                (ap (λ l. head ++ (pairs l ++ tail)) assoc)
                (NoneAbove-last leb_id ws x (subst (NoneAbove leb_id) e below), tt)
            ∙ ap ok (sym n)
      ]
