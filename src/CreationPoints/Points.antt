-- ===== src/CreationPoints/Points.antt =====
-- The points with one for each volume, and what they hold.
use ssdfs_tools.Prelude.{
  ℕ, zero, suc, ◌<◌, ◌≡◌, refl, sym, ap, ◌∙◌, ◌==◌, leb, Bool, true, false, ◌&&◌, Bool-cases, inl,
  inr, if◌then◌else◌, none, some, List, [], ◌∷◌, ◌++◌, u64_max, Outcome, ok, arith,
}
use ssdfs_tools.CreationPoints.{
  CreationPoint, CreationArray, ArrayState, use_buffer, allocated, not_initialized, MetadataPebItem,
  MetadataMap, find_creation_point, place_of, insert_at, last_timestamp, replace_last, new_point,
  inserted, add_in_state, map_index,
}
use ssdfs_tools.CreationPoints.Find.{
  missed, map_of, AreAscending, find_inserted, map_of-inserted, inserted-AreAscending,
}
use ssdfs_tools.CreationPoints.Maps.{IsMap, AllMaps, AllMaps-inserted}

-- The items of a volume whose PEBs are of one segment type, in their order.
abbrev pub is_of : (create_time index : ℕ) → MetadataPebItem → Bool
is_of t k item =
    (item.volume_creation_timestamp == t)
    && (elim (map_index item.peb_type) [ none ↦ false | some i ↦ k == i ])

abbrev pub items_of : (create_time index : ℕ) → List MetadataPebItem → List MetadataPebItem
items_of t k [] = []
items_of t k (x ∷ xs) = (if is_of t k x then x ∷ [] else []) ++ items_of t k xs

-- Items of known types, of volumes with a creation time.
abbrev pub AreKnown : List MetadataPebItem → Type 0
AreKnown [] = Unit {0}
AreKnown (x ∷ xs) =
    (x.volume_creation_timestamp < u64_max)
    × ((k : ℕ) × (map_index x.peb_type ≡ some k))
    × AreKnown xs

-- What holds of the points between two items.
pub record Points (items : List MetadataPebItem) (points : List CreationPoint) : Type 0 where
  pub groups : (t k : ℕ) → t < u64_max → (map_of points t k).items ≡ items_of t k items
  pub ascending : AreAscending points
  pub maps : AllMaps points

-- The array has points, and one only while the buffer is used.
pub data IsLive : ArrayState → List CreationPoint → Type 0 where
  many : (p : CreationPoint) (ps : List CreationPoint) → IsLive allocated (p ∷ ps)
  one : (p : CreationPoint) → IsLive use_buffer (p ∷ [])

empty_map :
    (t k : ℕ) (ps : List CreationPoint)
    → find_creation_point t ps ≡ none
    → (map_of ps t k).items ≡ []
unfolding find_creation_point
empty_map t k [] h = refl
empty_map t k (p ∷ ps) h = let m = missed t p ps h in rw m.0 (empty_map t k ps m.1)

new_maps : (t k : ℕ) → IsMap ((new_point t).metadata_map k)
new_maps t k = record { holds = omega arith; modest = omega arith }

module _ (items : List MetadataPebItem) (t : ℕ) (real : t < u64_max) where
  inserted-Points :
      (ps : List CreationPoint)
      → find_creation_point t ps ≡ none
      → Points items ps
      → Points items (inserted t ps)
  inserted-Points ps h inv = record {
    groups = λ u k small.
        let m = map_of-inserted (new_point t) ps u k h in
        ap (λ (r : MetadataMap). r.items) m ∙ elim (Bool-cases (t == u)) [
          | inl y ↦
              let same : t ≡ u = ground (arith, y) in
              rw y (
                sym (empty_map t k ps h)
                ∙ ap (λ a. (map_of ps a k).items) same
                ∙ inv.groups u k small)
          | inr n ↦ rw n (inv.groups u k small)
        ];
    ascending = inserted-AreAscending (new_point t) ps h inv.ascending;
    maps = AllMaps-inserted ps (place_of t ps) (new_point t) (new_maps t) inv.maps;
  }

  -- The buffer, when it has no volume yet.
  replaced-Points :
      (p : CreationPoint)
      → leb u64_max p.volume_creation_timestamp ≡ true
      → Points items (p ∷ [])
      → Points items (new_point t ∷ [])
  replaced-Points p late inv = record {
    groups = λ u k small.
        let other : (p.volume_creation_timestamp == u) ≡ false = ground (arith, late, small) in
        let old : (map_of (p ∷ []) u k).items ≡ [] = rw other refl in
        elim (Bool-cases (t == u)) [
          | inl y ↦ rw y (sym old ∙ inv.groups u k small)
          | inr n ↦ rw n (sym old ∙ inv.groups u k small)
        ];
    ascending = tt;
    maps = (new_maps t, tt);
  }

  IsLive-inserted :
      (ps : List CreationPoint) (i : ℕ) (new : CreationPoint)
      → IsLive allocated (insert_at ps i new)
  unfolding insert_at
  IsLive-inserted ps zero new = many new ps
  IsLive-inserted [] (suc i) new = many new []
  IsLive-inserted (p ∷ ps) (suc i) new = many p (insert_at ps i new)

  -- An array in which the volume has a point.
  pub record Ready (answer : Outcome CreationArray) : Type 0 where
    pub array : CreationArray
    pub succeeds : answer ≡ ok array
    pub points : Points items array.points
    pub live : IsLive array.state array.points
    pub place : ℕ
    pub found : find_creation_point t array.points ≡ some place

  module _ (grants : ℕ → Bool) (all : (bytes : ℕ) → grants bytes ≡ true) (size : ℕ) where
    pub add-Ready :
        (state : ArrayState) (ps : List CreationPoint)
        → IsLive state ps
        → find_creation_point t ps ≡ none
        → Points items ps
        → Ready (add_in_state grants state size ps t)
    unfolding add_in_state last_timestamp replace_last find_creation_point
    add-Ready allocated ps live h inv = record {
      array = record { state = allocated; points = inserted t ps };
      succeeds = rw (all size) refl;
      points = inserted-Points ps h inv;
      live = IsLive-inserted ps (place_of t ps) (new_point t);
      place = place_of t ps;
      found = find_inserted (new_point t) ps h;
    }
    add-Ready not_initialized ps live h inv = elim live [ ]
    add-Ready use_buffer _ (one p) h inv =
        elim (Bool-cases (leb u64_max p.volume_creation_timestamp)) [
          | inl late ↦ record {
            array = record { state = use_buffer; points = new_point t ∷ [] };
            succeeds = rw late refl;
            points = replaced-Points p late inv;
            live = one (new_point t);
            place = 0;
            found = let y : (t == t) ≡ true = ground arith in rw y refl;
          }
          | inr early ↦ record {
            array = record { state = allocated; points = inserted t (p ∷ []) };
            succeeds = rw (early, all size) refl;
            points = inserted-Points (p ∷ []) h inv;
            live = IsLive-inserted (p ∷ []) (place_of t (p ∷ [])) (new_point t);
            place = place_of t (p ∷ []);
            found = find_inserted (new_point t) (p ∷ []) h;
          }
        ]
