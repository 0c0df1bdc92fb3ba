-- ===== src/CreationPoints/Update.antt =====
-- The point of a volume with one item more.
use ssdfs_tools.Prelude.{
  ℕ, suc, ◌^◌, ◌<◌, ◌≡◌, refl, sym, ap, ◌∙◌, subst, ◌==◌, Bool, true, false, ◌&&◌, Bool-cases, inl,
  inr, if◌then◌else◌, Option, none, some, List, [], ◌∷◌, ◌++◌, length, Outcome, ok, ◌>>=◌, arith,
}
use ssdfs_tools.CreationPoints.{
  CreationPoint, MetadataPebItem, later, find_creation_point, update_at, record_item, map_index,
}
use ssdfs_tools.CreationPoints.Find.{map_of, AreAbove, AreAscending}
use ssdfs_tools.CreationPoints.Maps.{AllMaps, add_item-IsGrown}

-- The points behind an update: the map of one volume and one segment type has the item behind its
-- others.
pub record IsUpdated (t index : ℕ) (item : MetadataPebItem) (before : List CreationPoint)
    (answer : Outcome (List CreationPoint)) : Type 0 where
  pub behind : List CreationPoint
  pub succeeds : answer ≡ ok behind
  pub maps :
      (u k : ℕ)
      → (map_of behind u k).items ≡ (
          if (t == u) && (k == index)
          then (map_of before u k).items ++ (item ∷ [])
          else (map_of before u k).items)
  pub same_length : length behind ≡ length before
  pub all_maps : AllMaps behind
  pub above : (s : ℕ) → AreAbove s before → AreAbove s behind
  pub ascending : AreAscending before → AreAscending behind

found_later : (o : Option ℕ) (i : ℕ) → later o ≡ some i → (j : ℕ) × (o ≡ some j) × (i ≡ suc j)
found_later none i h = absurd (cc h)
found_later (some j) i h = (j, refl, cc h)

module _ (grants : ℕ → Bool) (all : (bytes : ℕ) → grants bytes ≡ true) (item : MetadataPebItem)
    (index : ℕ) (known : map_index item.peb_type ≡ some index) where
  abbrev t : ℕ
  t = item.volume_creation_timestamp

  module _ (p : CreationPoint) (ps : List CreationPoint) (maps : AllMaps (p ∷ ps)) where
    -- The item belongs to the first point.
    first-IsUpdated :
        p.volume_creation_timestamp ≡ t
        → length (p.metadata_map index).items < 2 ^ 29
        → IsUpdated t index item (p ∷ ps) (record_item grants item p >>= λ q. ok (q ∷ ps))
    first-IsUpdated same few =
        let grown = add_item-IsGrown grants all (p.metadata_map index) item (maps.0 index) few in
        let q : CreationPoint = record p {
          prepared = true;
          metadata_map = λ k. if k == index then grown.next else p.metadata_map k;
        } in
        record {
          behind = q ∷ ps;
          succeeds = rw (known, grown.succeeds) refl;
          maps = λ u k. elim (Bool-cases (p.volume_creation_timestamp == u)) [
            | inl y ↦
                let w : (t == u) ≡ true = ground (arith, same, y) in
                elim (Bool-cases (k == index)) [
                  | inl z ↦
                      let there : k ≡ index = ground (arith, z) in
                      let old : (p.metadata_map index).items ≡ (p.metadata_map k).items =
                        ap (λ a. (p.metadata_map a).items) (sym there) in
                      rw (y, w, z)
                        (grown.items ∙ ap (λ (a : List MetadataPebItem). a ++ (item ∷ [])) old)
                  | inr z ↦ rw (y, w, z) refl
                ]
            | inr n ↦ let w : (t == u) ≡ false = ground (arith, same, n) in rw (n, w) refl
          ];
          same_length = refl;
          all_maps = (
            λ k. elim (Bool-cases (k == index)) [
              | inl z ↦ rw z grown.is_map
              | inr z ↦ rw z (maps.0 k)
            ],
            maps.1,
          );
          above = λ s a. a;
          ascending = λ a. a;
        }

  pub updated :
      (ps : List CreationPoint) (i : ℕ)
      → find_creation_point t ps ≡ some i
      → AllMaps ps
      → length (map_of ps t index).items < 2 ^ 29
      → IsUpdated t index item ps (update_at ps i (record_item grants item))
  unfolding find_creation_point update_at
  updated [] i h maps few = absurd (cc h)
  updated (p ∷ ps) i h maps few = elim (Bool-cases (p.volume_creation_timestamp == t)) [
    | inl y ↦
        let at_first : some 0 ≡ some i = rw y at h in
        let index_eq : i ≡ 0 = cc at_first in
        let own : length (p.metadata_map index).items < 2 ^ 29 = rw y at few in
        subst
          (λ n. IsUpdated t index item (p ∷ ps) (update_at (p ∷ ps) n (record_item grants item)))
          (sym index_eq) (first-IsUpdated p ps maps (ground (arith, y)) own)
    | inr n ↦
        let next : later (find_creation_point t ps) ≡ some i = rw n at h in
        let (j, found, index_eq) = found_later _ i next in
        let own : length (map_of ps t index).items < 2 ^ 29 = rw n at few in
        let rest = updated ps j found maps.1 own in
        subst
          (λ n. IsUpdated t index item (p ∷ ps) (update_at (p ∷ ps) n (record_item grants item)))
          (sym index_eq)
          (record {
            behind = p ∷ rest.behind;
            succeeds = rw (rest.succeeds) refl;
            maps = λ u k. elim (Bool-cases (p.volume_creation_timestamp == u)) [
              | inl y ↦ let other : (t == u) ≡ false = ground (arith, y, n) in rw (y, other) refl
              | inr m ↦ rw m (rest.maps u k)
            ];
            same_length = ap suc rest.same_length;
            all_maps = (maps.0, rest.all_maps);
            above = λ s a. (a.0, rest.above p.volume_creation_timestamp a.1);
            ascending = λ a. rest.above p.volume_creation_timestamp a;
          })
  ]
