-- ===== src/MaptblCache/Stamp.antt =====
-- What add_leb2peb_pair writes into the header of a fragment.
use ssdfs_tools.Prelude.{
  ℕ, ◌+◌, ◌*◌, ◌^◌, ◌<◌, ◌≤◌, ◌≡◌, sym, ap, ◌∙◌, inl, inr, List, ◌++◌, length, length-patch, window,
  window-patch, patch, u16, ok, arith,
}
use ssdfs_tools.LittleEndian.{le_bytes, le_value, le_value-le_bytes, store}
use ssdfs_tools.LittleEndian.Windows.{window_apart, window_prefix}
use ssdfs_tools.LittleEndian.Parts.{store_head}
use ssdfs_tools.MaptblCache.{items_count, bytes_count, start_leb, end_leb, magic_key}

-- The header with the first and the last LEB, and with the number of the items.
abbrev pub stamp : (head first last : List ℕ) → ℕ → List ℕ
stamp head first last n =
    patch 14 (le_bytes 2 (u16 (36 + n * 20)))
      (patch 12 (le_bytes 2 (u16 n)) (patch 24 last (patch 16 first head)))

word-le_bytes : (v : ℕ) → v < 2 ^ 16 → le_value (le_bytes 2 (u16 v)) ≡ v
word-le_bytes v h = le_value-le_bytes 2 (u16 v) (omega arith) ∙ omega arith

module _ (head first last tail : List ℕ) (n : ℕ) (head_size : length head ≡ 32)
    (first_size : length first ≡ 8) (last_size : length last ≡ 8) where
  abbrev a : List ℕ
  a = patch 16 first head

  abbrev b : List ℕ
  b = patch 24 last a

  abbrev c : List ℕ
  c = patch 12 (le_bytes 2 (u16 n)) b

  a_size : length a ≡ 32
  a_size = length-patch 16 first head ∙ head_size

  b_size : length b ≡ 32
  b_size = length-patch 24 last a ∙ a_size

  c_size : length c ≡ 32
  c_size = length-patch 12 (le_bytes 2 (u16 n)) b ∙ b_size

  pub length-stamp : length (stamp head first last n) ≡ 32
  length-stamp = length-patch 14 (le_bytes 2 (u16 (36 + n * 20))) c ∙ c_size

  -- A window of the stamped header, in the buffer.
  in_head :
      (k w : ℕ)
      → k + w ≤ 32
      → window k w (stamp head first last n ++ tail) ≡ window k w (stamp head first last n)
  in_head k w h = window_prefix (stamp head first last n) tail k w (omega (arith, length-stamp))

  pub items_count-stamp : n < 2 ^ 16 → items_count (stamp head first last n ++ tail) ≡ n
  items_count-stamp h =
      ap le_value (
        in_head 12 2 (omega arith)
        ∙ window_apart 12 2 14 (le_bytes 2 (u16 (36 + n * 20))) c (inl (omega arith))
        ∙ window-patch 12 (le_bytes 2 (u16 n)) b (omega (arith, b_size)))
      ∙ word-le_bytes n h

  pub bytes_count-stamp :
      36 + n * 20 < 2 ^ 16 → bytes_count (stamp head first last n ++ tail) ≡ 36 + n * 20
  bytes_count-stamp h =
      ap le_value (
        in_head 14 2 (omega arith)
        ∙ window-patch 14 (le_bytes 2 (u16 (36 + n * 20))) c (omega (arith, c_size)))
      ∙ word-le_bytes (36 + n * 20) h

  -- What lies behind the numbers is left by their writes.
  behind_numbers :
      (k w : ℕ) → 16 ≤ k → k + w ≤ 32 → window k w (stamp head first last n ++ tail) ≡ window k w b
  behind_numbers k w l h =
      in_head k w h
      ∙ window_apart k w 14 (le_bytes 2 (u16 (36 + n * 20))) c (inr (omega arith))
      ∙ window_apart k w 12 (le_bytes 2 (u16 n)) b (inr (omega arith))

  pub start_leb-stamp : start_leb (stamp head first last n ++ tail) ≡ le_value first
  start_leb-stamp = ap le_value (
      behind_numbers 16 8 (omega arith) (omega arith)
      ∙ window_apart 16 8 24 last a (inl (omega arith))
      ∙ ap (λ w. window 16 w a) (sym first_size)
      ∙ window-patch 16 first head (omega (arith, head_size, first_size)))

  pub end_leb-stamp : end_leb (stamp head first last n ++ tail) ≡ le_value last
  end_leb-stamp = ap le_value (
      behind_numbers 24 8 (omega arith) (omega arith)
      ∙ ap (λ w. window 24 w b) (sym last_size)
      ∙ window-patch 24 last a (omega (arith, a_size, last_size)))

  pub magic_key-stamp : magic_key (stamp head first last n ++ tail) ≡ le_value (window 4 2 head)
  magic_key-stamp = ap le_value (
      in_head 4 2 (omega arith)
      ∙ window_apart 4 2 14 (le_bytes 2 (u16 (36 + n * 20))) c (inl (omega arith))
      ∙ window_apart 4 2 12 (le_bytes 2 (u16 n)) b (inl (omega arith))
      ∙ window_apart 4 2 24 last a (inl (omega arith))
      ∙ window_apart 4 2 16 first head (inl (omega arith)))

  -- The stores, in the order of the code.
  pub first_stored : store 16 first (head ++ tail) ≡ ok (a ++ tail)
  first_stored = store_head 16 first head tail (omega (arith, head_size, first_size))

  pub last_stored : store 24 last (a ++ tail) ≡ ok (b ++ tail)
  last_stored = store_head 24 last a tail (omega (arith, a_size, last_size))

  pub items_stored : store 12 (le_bytes 2 (u16 n)) (b ++ tail) ≡ ok (c ++ tail)
  items_stored = store_head 12 (le_bytes 2 (u16 n)) b tail (omega (arith, b_size))

  pub bytes_stored :
      store 14 (le_bytes 2 (u16 (36 + n * 20))) (c ++ tail) ≡ ok (stamp head first last n ++ tail)
  bytes_stored = store_head 14 (le_bytes 2 (u16 (36 + n * 20))) c tail (omega (arith, c_size))
