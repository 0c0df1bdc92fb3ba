-- ===== src/SegBmap/Table.antt =====
-- `detect_clean_seg` against the items of the byte, and the search of one byte.
use ssdfs_tools.Prelude.{
  ℕ, zero, suc, ◌*◌, ◌<◌, ◌≤◌, ◌≡◌, refl, sym, ◌∙◌, ◌↔◌, inl, inr, Bool, true, false, Bool-cases,
  ltb, ◌==◌, ==_iff, if◌then◌else◌, agree, agree-eq, Outcome, ok, err, enodata, arith,
}
use ssdfs_tools.Prelude.Below.{every_below, every_below-at}
use ssdfs_tools.Bitmap.{scan_byte, first_state_in_byte, find_first_item_in_byte}
use ssdfs_tools.Bitmap.Bytes.{byte_item, IsFirst, scan_byte-IsFirst}
use ssdfs_tools.SegBmap.{seg_clean, byte_contains_clean_state}

abbrev clean_at : ℕ → ℕ → Bool
clean_at v k = byte_item 4 15 v k == seg_clean

any_clean : ℕ → Bool
any_clean v = if clean_at v 0 then true else clean_at v 1

table_row : ℕ → Bool
unfolding any_clean byte_contains_clean_state
table_row v = agree (any_clean v) (byte_contains_clean_state v)

table_rows : every_below 256 table_row ≡ true
unfolding every_below table_row
table_rows = refl

contains-eq-any : (v : ℕ) → v < 256 → byte_contains_clean_state v ≡ any_clean v
unfolding table_row
contains-eq-any v hv = agree-eq _ _ (every_below-at 256 table_row v table_rows hv)

any_clean-witness :
    (v : ℕ) → any_clean v ≡ true → (k : ℕ) × (k < 2) × (byte_item 4 15 v k ≡ seg_clean)
unfolding any_clean
any_clean-witness v h = elim (Bool-cases (clean_at v 0)) [
  | inl a ↦ (0, omega arith, (==_iff _ _).0 a)
  | inr na ↦ (1, omega arith, ground arith)
]

any_clean-of_item : (v k : ℕ) → k < 2 → byte_item 4 15 v k ≡ seg_clean → any_clean v ≡ true
unfolding any_clean
any_clean-of_item v zero p e = ground arith
any_clean-of_item v (suc zero) p e = ground arith
any_clean-of_item v (suc (suc k)) p e = absurd (omega arith)

-- For a byte, the table says that it holds a clean segment exactly when one of its two items is in
-- the state SSDFS_SEG_CLEAN.
pub byte_contains_clean_state_iff :
    (v : ℕ)
    → v < 256
    → (byte_contains_clean_state v ≡ true) ↔ ((k : ℕ) × (k < 2) × (byte_item 4 15 v k ≡ seg_clean))
byte_contains_clean_state_iff v hv = (
  λ h. any_clean-witness v (sym (contains-eq-any v hv) ∙ h),
  λ w. contains-eq-any v hv ∙ any_clean-of_item v w.0 w.1 w.2,
)

abbrev first_clean : ℕ → ℕ → ℕ
first_clean v off = scan_byte v seg_clean 4 15 8 (off * 4)

abbrev pub find_clean : ℕ → ℕ → Outcome ℕ
find_clean v off =
    find_first_item_in_byte v seg_clean 4 15 off byte_contains_clean_state first_state_in_byte

-- Outcome of the search of one byte from item `off` on.
pub record ByteSearch (v off : ℕ) (result : Outcome ℕ) : Type 0 where
  pub r : ℕ
  pub is_first : IsFirst v seg_clean off r
  pub returns : result ≡ (if ltb r 2 then ok r else err enodata)

module _ (v off : ℕ) (byte : v < 256) (inside : off ≤ 2) where
  find_clean-present :
      byte_contains_clean_state v ≡ true
      → find_clean v off
        ≡ (if ltb (first_clean v off) 2 then ok (first_clean v off) else err enodata)
  unfolding find_first_item_in_byte first_state_in_byte
  find_clean-present h = ground arith

  find_clean-absent : byte_contains_clean_state v ≡ false → find_clean v off ≡ err enodata
  unfolding find_first_item_in_byte
  find_clean-absent h = ground arith

  absent-none : byte_contains_clean_state v ≡ false → first_clean v off ≡ 2
  absent-none h = elim (Bool-cases (first_clean v off == 2)) [
    | inl e ↦ (==_iff _ _).0 e
    | inr n ↦
        let s = scan_byte-IsFirst v seg_clean off byte (omega arith) inside in
        let lt : first_clean v off < 2 = ground arith in
        cc ((byte_contains_clean_state_iff v byte).1 (first_clean v off, lt, s.found lt))
  ]

  -- The search of a byte returns its first clean item from `off` on, or -ENODATA.
  pub find_clean-ByteSearch : ByteSearch v off (find_clean v off)
  find_clean-ByteSearch = record {
    r = first_clean v off;
    is_first = scan_byte-IsFirst v seg_clean off byte (omega arith) inside;
    returns = elim (Bool-cases (byte_contains_clean_state v)) [
      | inl h ↦ find_clean-present h
      | inr h ↦ rw (absent-none h) (find_clean-absent h)
    ];
  }
