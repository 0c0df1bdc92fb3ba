-- ===== src/MaptblCache/Order.antt =====
-- The specification of an insertion: entries in the order of their LEBs, equal LEBs in that of their
-- arrival.
use ssdfs_tools.Prelude.{
  ℕ, ◌<◌, ◌≤◌, ◌≡◌, refl, ap, Bool-cases, inl, inr, leb, if◌then◌else◌, List, [], ◌∷◌, ◌++◌, arith,
}
use ssdfs_tools.MaptblCache.{Entry}
use ssdfs_tools.MaptblCache.Layout.{key}
use ssdfs_tools.MaptblCache.Find.{AllAbove, NoneAbove}

unfoldable pub insert_sorted : Entry → List Entry → List Entry
insert_sorted new [] = new ∷ []
insert_sorted new (e ∷ es) =
    let rest = insert_sorted new es in if leb (key e) (key new) then e ∷ rest else new ∷ (e ∷ es)

abbrev pub NoneBelow : ℕ → List Entry → Type 0
NoneBelow leb_id [] = Unit
NoneBelow leb_id (e ∷ es) = (leb_id ≤ key e) × NoneBelow leb_id es

abbrev pub IsSorted : List Entry → Type 0
IsSorted [] = Unit
IsSorted (e ∷ es) = NoneBelow (key e) es × IsSorted es

NoneBelow-insert_sorted :
    (leb_id : ℕ) (new : Entry) (es : List Entry)
    → leb_id ≤ key new
    → NoneBelow leb_id es
    → NoneBelow leb_id (insert_sorted new es)
unfolding insert_sorted
NoneBelow-insert_sorted leb_id new [] h b = (h, tt)
NoneBelow-insert_sorted leb_id new (e ∷ es) h b = elim (Bool-cases (leb (key e) (key new))) [
  | inl t ↦ rw t (b.0, NoneBelow-insert_sorted leb_id new es h b.1)
  | inr t ↦ rw t (h, b)
]

NoneBelow-trans : (m n : ℕ) (es : List Entry) → m ≤ n → NoneBelow n es → NoneBelow m es
NoneBelow-trans m n [] h b = tt
NoneBelow-trans m n (e ∷ es) h b =
    (let c = b.0 in omega (arith, c, h), NoneBelow-trans m n es h b.1)

pub insert_sorted-IsSorted :
    (new : Entry) (es : List Entry) → IsSorted es → IsSorted (insert_sorted new es)
unfolding insert_sorted
insert_sorted-IsSorted new [] s = (tt, tt)
insert_sorted-IsSorted new (e ∷ es) s = elim (Bool-cases (leb (key e) (key new))) [
  | inl t ↦ rw t (
    NoneBelow-insert_sorted (key e) new es (ground (arith, t)) s.0,
    insert_sorted-IsSorted new es s.1,
  )
  | inr t ↦
      let above : key new ≤ key e = ground (arith, t) in
      rw t ((above, NoneBelow-trans (key new) (key e) es above s.0), s)
]

-- The place of a new entry.
pub record Place (new : Entry) (es : List Entry) : Type 0 where
  pub left : List Entry
  pub right : List Entry
  pub form : es ≡ left ++ right
  pub below : NoneAbove (key new) left
  pub above : AllAbove (key new) right
  pub inserted : insert_sorted new es ≡ left ++ (new ∷ right)

AllAbove-NoneBelow : (m n : ℕ) (es : List Entry) → m < n → NoneBelow n es → AllAbove m es
AllAbove-NoneBelow m n [] h b = tt
AllAbove-NoneBelow m n (e ∷ es) h b =
    (let c = b.0 in omega (arith, c, h), AllAbove-NoneBelow m n es h b.1)

pub where_to_insert : (new : Entry) (es : List Entry) → IsSorted es → Place new es
unfolding insert_sorted
where_to_insert new [] s = record {
  left = [];
  right = [];
  form = refl;
  below = tt;
  above = tt;
  inserted = refl;
}
where_to_insert new (e ∷ es) s = elim (Bool-cases (leb (key e) (key new))) [
  | inl t ↦
      let rest = where_to_insert new es s.1 in
      record {
        left = e ∷ rest.left;
        right = rest.right;
        form = ap (λ l. e ∷ l) rest.form;
        below = (ground (arith, t), rest.below);
        above = rest.above;
        inserted = rw t (ap (λ l. e ∷ l) rest.inserted);
      }
  | inr t ↦
      let above : key new < key e = ground (arith, t) in
      record {
        left = [];
        right = e ∷ es;
        form = refl;
        below = tt;
        above = (above, AllAbove-NoneBelow (key new) (key e) es above s.0);
        inserted = rw t refl;
      }
]
