-- ===== src/BlkBmap/Table.antt =====
-- `detect_free_blk` against the items of the byte.
use ssdfs_tools.Prelude.{
  ℕ, zero, suc, ◌<◌, ◌≡◌, refl, sym, ◌∙◌, ◌↔◌, inl, inr, Bool, true, Bool-cases, ◌==◌, ==_iff,
  if◌then◌else◌, agree, agree-eq, arith,
}
use ssdfs_tools.Prelude.Below.{every_below, every_below-at}
use ssdfs_tools.Bitmap.Bytes.{byte_item}
use ssdfs_tools.BlkBmap.{blk_free, byte_contains_free_blk}

abbrev free_at : ℕ → ℕ → Bool
free_at v k = byte_item 2 3 v k == blk_free

-- The answer for a byte that the table is compared with.
any_free : ℕ → Bool
any_free v =
    if free_at v 0
    then true
    else if free_at v 1
    then true
    else if free_at v 2
    then true
    else free_at v 3

table_row : ℕ → Bool
unfolding any_free byte_contains_free_blk
table_row v = agree (any_free v) (byte_contains_free_blk v)

table_rows : every_below 256 table_row ≡ true
unfolding every_below table_row
table_rows = refl

any_free-witness : (v : ℕ) → any_free v ≡ true → (k : ℕ) × (k < 4) × (byte_item 2 3 v k ≡ blk_free)
unfolding any_free
any_free-witness v h = elim (Bool-cases (free_at v 0)) [
  | inl a ↦ (0, omega arith, (==_iff _ _).0 a)
  | inr na ↦ elim (Bool-cases (free_at v 1)) [
    | inl b ↦ (1, omega arith, (==_iff _ _).0 b)
    | inr nb ↦ elim (Bool-cases (free_at v 2)) [
      | inl c ↦ (2, omega arith, (==_iff _ _).0 c)
      | inr nc ↦ (3, omega arith, ground arith)
    ]
  ]
]

any_free-of_item : (v k : ℕ) → k < 4 → byte_item 2 3 v k ≡ blk_free → any_free v ≡ true
unfolding any_free
any_free-of_item v zero p e = ground arith
any_free-of_item v (suc zero) p e = ground arith
any_free-of_item v (suc (suc zero)) p e = ground arith
any_free-of_item v (suc (suc (suc zero))) p e = ground arith
any_free-of_item v (suc (suc (suc (suc k)))) p e = absurd (omega arith)

-- For a byte, the table says that it holds a free block exactly when one of its four items is in
-- the state SSDFS_BLK_FREE.
pub byte_contains_free_blk_iff :
    (v : ℕ)
    → v < 256
    → (byte_contains_free_blk v ≡ true) ↔ ((k : ℕ) × (k < 4) × (byte_item 2 3 v k ≡ blk_free))
unfolding table_row
byte_contains_free_blk_iff v hv =
    (λ h. any_free-witness v (sym row ∙ h), λ w. row ∙ any_free-of_item v w.0 w.1 w.2)
  where
    row : byte_contains_free_blk v ≡ any_free v
    row = agree-eq _ _ (every_below-at 256 table_row v table_rows hv)
