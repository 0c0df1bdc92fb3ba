-- ===== src/CreationPoints/Find.antt =====
-- Where the point of a volume is, and how the points are ordered.
use ssdfs_tools.Prelude.{
  ℕ, suc, ◌<◌, ◌≡◌, refl, ◌==◌, ltb, true, false, Bool-cases, inl, inr, if◌then◌else◌, none, some,
  Option-cases, List, [], ◌∷◌, arith,
}
use ssdfs_tools.CreationPoints.{
  CreationPoint, MetadataMap, later, find_creation_point, place_of, insert_at,
}

-- The map of a volume and a segment type, if the volume has a point.
abbrev pub map_of : List CreationPoint → (create_time index : ℕ) → MetadataMap
map_of [] t k = record { items = []; capacity = 0 }
map_of (p ∷ ps) t k = if p.volume_creation_timestamp == t then p.metadata_map k else map_of ps t k

-- The points are later than a time, each than the one before.
abbrev pub AreAbove : ℕ → List CreationPoint → Type 0
AreAbove t [] = Unit {0}
AreAbove t (p ∷ ps) = (t < p.volume_creation_timestamp) × AreAbove p.volume_creation_timestamp ps

-- In ascending order, and different.
abbrev pub AreAscending : List CreationPoint → Type 0
AreAscending [] = Unit {0}
AreAscending (p ∷ ps) = AreAbove p.volume_creation_timestamp ps

pub missed :
    (t : ℕ) (p : CreationPoint) (ps : List CreationPoint)
    → find_creation_point t (p ∷ ps) ≡ none
    → ((p.volume_creation_timestamp == t) ≡ false) × (find_creation_point t ps ≡ none)
unfolding find_creation_point
missed t p ps h = elim (Bool-cases (p.volume_creation_timestamp == t)) [
  | inl y ↦ absurd (let e : some 0 ≡ none = rw y at h in cc e)
  | inr n ↦ (
    n,
    let e : later (find_creation_point t ps) ≡ none = rw n at h in
        elim (Option-cases (find_creation_point t ps)) [
          | inl q ↦ q
          | inr (i, q) ↦ absurd (let d : some (suc i) ≡ none = rw q at e in cc d)
        ],
  )
]

module _ (new : CreationPoint) where
  abbrev t : ℕ
  t = new.volume_creation_timestamp

  -- A new point is found where it has been put.
  pub find_inserted :
      (ps : List CreationPoint)
      → find_creation_point t ps ≡ none
      → find_creation_point t (insert_at ps (place_of t ps) new) ≡ some (place_of t ps)
  unfolding find_creation_point insert_at place_of
  find_inserted [] h = let y : (t == t) ≡ true = ground arith in rw y refl
  find_inserted (p ∷ ps) h =
      let y : (t == t) ≡ true = ground arith in
      let m = missed t p ps h in
      elim (Bool-cases (ltb t p.volume_creation_timestamp)) [
        | inl b ↦ rw (b, y) refl
        | inr b ↦ rw (b, m.0, find_inserted ps m.1) refl
      ]

  pub map_of-inserted :
      (ps : List CreationPoint) (u k : ℕ)
      → find_creation_point t ps ≡ none
      → map_of (insert_at ps (place_of t ps) new) u k
        ≡ (if t == u then new.metadata_map k else map_of ps u k)
  unfolding insert_at place_of
  map_of-inserted [] u k h = refl
  map_of-inserted (p ∷ ps) u k h =
      let m = missed t p ps h in
      elim (Bool-cases (ltb t p.volume_creation_timestamp)) [
        | inl b ↦ rw b refl
        | inr b ↦ elim (Bool-cases (p.volume_creation_timestamp == u)) [
          | inl y ↦ let other : (t == u) ≡ false = ground (arith, y, m.0) in rw (b, y, other) refl
          | inr n ↦ rw (b, n) (map_of-inserted ps u k m.1)
        ]
      ]

  pub inserted-AreAbove :
      (s : ℕ) (ps : List CreationPoint)
      → find_creation_point t ps ≡ none
      → s < t
      → AreAbove s ps
      → AreAbove s (insert_at ps (place_of t ps) new)
  unfolding insert_at place_of
  inserted-AreAbove s [] h above a = (above, tt)
  inserted-AreAbove s (p ∷ ps) h above a =
      let m = missed t p ps h in
      elim (Bool-cases (ltb t p.volume_creation_timestamp)) [
        | inl b ↦ rw b (above, (ground (arith, b), a.1))
        | inr b ↦
            rw b (
              a.0,
              inserted-AreAbove p.volume_creation_timestamp ps m.1 (ground (arith, b, m.0)) a.1,
            )
      ]

  pub inserted-AreAscending :
      (ps : List CreationPoint)
      → find_creation_point t ps ≡ none
      → AreAscending ps
      → AreAscending (insert_at ps (place_of t ps) new)
  unfolding insert_at place_of
  inserted-AreAscending [] h a = tt
  inserted-AreAscending (p ∷ ps) h a =
      let m = missed t p ps h in
      elim (Bool-cases (ltb t p.volume_creation_timestamp)) [
        | inl b ↦ rw b (ground (arith, b), a)
        | inr b ↦
            rw b (inserted-AreAbove p.volume_creation_timestamp ps m.1 (ground (arith, b, m.0)) a)
      ]
