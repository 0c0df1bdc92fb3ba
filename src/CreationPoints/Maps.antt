-- ===== src/CreationPoints/Maps.antt =====
-- An item in the map of its volume.
use ssdfs_tools.Prelude.{
  ℕ, zero, suc, ◌+◌, ◌-◌, ◌*◌, ◌^◌, ◌<◌, ◌≤◌, ◌≡◌, refl, ◌==◌, ltb, leb, Bool, true, false,
  Bool-cases, inl, inr, List, [], ◌∷◌, ◌++◌, length, length-append, Outcome, ok, arith,
}
use ssdfs_tools.CreationPoints.{
  CreationPoint, MetadataPebItem, MetadataMap, insert_at, resize_metadata_map,
  metadata_map_capacity_min, item_size, add_item,
}
use ssdfs_tools.CreationPoints.Find.{map_of}

-- A map has room for its items, and not much more than twice as much.
pub record IsMap (m : MetadataMap) : Type 0 where
  pub holds : length m.items ≤ m.capacity
  pub modest : m.capacity ≤ 2 * length m.items + metadata_map_capacity_min

-- Every map of every point.
abbrev pub AllMaps : List CreationPoint → Type 0
AllMaps [] = Unit {0}
AllMaps (p ∷ ps) = ((k : ℕ) → IsMap (p.metadata_map k)) × AllMaps ps

pub map_of-IsMap : (ps : List CreationPoint) (t k : ℕ) → AllMaps ps → IsMap (map_of ps t k)
map_of-IsMap [] t k a = record { holds = omega arith; modest = omega arith }
map_of-IsMap (p ∷ ps) t k a = elim (Bool-cases (p.volume_creation_timestamp == t)) [
  | inl y ↦ rw y (a.0 k)
  | inr n ↦ rw n (map_of-IsMap ps t k a.1)
]

pub AllMaps-inserted :
    (ps : List CreationPoint) (i : ℕ) (new : CreationPoint)
    → ((k : ℕ) → IsMap (new.metadata_map k))
    → AllMaps ps
    → AllMaps (insert_at ps i new)
unfolding insert_at
AllMaps-inserted ps zero new h a = (h, a)
AllMaps-inserted [] (suc i) new h a = (h, tt)
AllMaps-inserted (p ∷ ps) (suc i) new h a = (a.0, AllMaps-inserted ps i new h a.1)

module _ (grants : ℕ → Bool) (all : (bytes : ℕ) → grants bytes ≡ true) where
  -- The map behind an item.
  pub record IsGrown (m : MetadataMap) (item : MetadataPebItem) (answer : Outcome MetadataMap)
      : Type 0 where
    pub next : MetadataMap
    pub succeeds : answer ≡ ok next
    pub items : next.items ≡ m.items ++ (item ∷ [])
    pub is_map : IsMap next

  pub add_item-IsGrown :
      (m : MetadataMap) (item : MetadataPebItem)
      → IsMap m
      → length m.items < 2 ^ 29
      → IsGrown m item (add_item grants m item)
  unfolding add_item resize_metadata_map
  add_item-IsGrown m item is_map few =
      let one : length (m.items ++ (item ∷ [])) ≡ length m.items + 1 =
        length-append m.items (item ∷ []) in
      let holds = is_map.holds in
      let modest = is_map.modest in
      elim (Bool-cases (m.capacity == 0)) [
        | inl y ↦
            let grant = all (metadata_map_capacity_min * item_size) in
            let zero_size : m.capacity ≡ 0 = ground (arith, y) in
            let room : ltb (length m.items) 8 ≡ true = ground (arith, y, holds) in
            record {
              next = record m { capacity = 8; items = m.items ++ (item ∷ []) };
              succeeds = rw (y, grant, room) refl;
              items = refl;
              is_map = record {
                holds = omega (arith, one, holds, zero_size);
                modest = omega (arith, one);
              };
            }
        | inr n ↦ elim (Bool-cases (leb m.capacity (length m.items))) [
          | inl y ↦
              let grant = all (m.capacity * 2 * item_size) in
              let small : ltb (2 ^ 31 - 1) (m.capacity * 2) ≡ false = ground (arith, few, modest) in
              let room : ltb (length m.items) (m.capacity * 2) ≡ true =
                ground (arith, n, y, holds) in
              let full : m.capacity ≤ length m.items = ground (arith, y) in
              let some : 0 < m.capacity = ground (arith, n) in
              record {
                next = record m { capacity = m.capacity * 2; items = m.items ++ (item ∷ []) };
                succeeds = rw (n, y, small, grant, room) refl;
                items = refl;
                is_map = record {
                  holds = omega (arith, one, full, some, holds);
                  modest = omega (arith, one, full, holds);
                };
              }
          | inr z ↦
              let room : ltb (length m.items) m.capacity ≡ true = ground (arith, z) in
              let more : length m.items < m.capacity = ground (arith, z) in
              record {
                next = record m { items = m.items ++ (item ∷ []) };
                succeeds = rw (n, z, room) refl;
                items = refl;
                is_map = record {
                  holds = omega (arith, one, more);
                  modest = omega (arith, one, modest);
                };
              }
        ]
      ]
