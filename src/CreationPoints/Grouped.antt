-- ===== src/CreationPoints/Grouped.antt =====
-- The items of a thread, grouped by the creation time of their volume.
use mathlib.Core.List.{append-nil}
use ssdfs_tools.Prelude.{
  ℕ, ◌+◌, ◌*◌, ◌^◌, ◌<◌, ◌≤◌, ◌≡◌, refl, sym, ap, ◌∙◌, subst, ◌==◌, Bool, true, false, ◌&&◌,
  Bool-cases, inl, inr, if◌then◌else◌, some, Option-cases, List, [], ◌∷◌, ◌++◌, length,
  length-append, append_assoc, u64_max, Outcome, ok, arith,
}
use ssdfs_tools.CreationPoints.{
  CreationPoint, CreationArray, ArrayState, MetadataPebItem, find_creation_point,
  init_creation_point, init_detection_result, into_point, process_metadata_map_item,
  process_thread_metadata_map, map_index,
}
use ssdfs_tools.CreationPoints.Find.{map_of, AreAscending}
use ssdfs_tools.CreationPoints.Update.{updated}
use ssdfs_tools.CreationPoints.Points.{
  is_of, items_of, AreKnown, Points, IsLive, many, one, add-Ready,
}

-- The array of the points holds the items, each in the map of its volume and its segment type.
pub record IsGrouped (items : List MetadataPebItem) (array : CreationArray) : Type 0 where
  pub groups : (t k : ℕ) → t < u64_max → (map_of array.points t k).items ≡ items_of t k items
  pub ascending : AreAscending array.points

items_of-append :
    (t k : ℕ) (xs ys : List MetadataPebItem)
    → items_of t k (xs ++ ys) ≡ items_of t k xs ++ items_of t k ys
items_of-append t k [] ys = refl
items_of-append t k (x ∷ xs) ys =
    ap (λ l. (if is_of t k x then x ∷ [] else []) ++ l) (items_of-append t k xs ys)
    ∙ sym (append_assoc (if is_of t k x then x ∷ [] else []) (items_of t k xs) (items_of t k ys))

length-items_of : (t k : ℕ) (xs : List MetadataPebItem) → length (items_of t k xs) ≤ length xs
length-items_of t k [] = omega arith
length-items_of t k (x ∷ xs) = elim (Bool-cases (is_of t k x)) [
  | inl y ↦ rw y (omega (arith, length-items_of t k xs))
  | inr n ↦ rw n (omega (arith, length-items_of t k xs))
]

IsLive-like :
    (state : ArrayState) (ps qs : List CreationPoint)
    → IsLive state ps
    → length qs ≡ length ps
    → IsLive state qs
IsLive-like _ _ [] (many p ps) h = absurd (omega (arith, h))
IsLive-like _ _ (q ∷ qs) (many p ps) h = many q qs
IsLive-like _ _ [] (one p) h = absurd (omega (arith, h))
IsLive-like _ _ (q ∷ []) (one p) h = one q
IsLive-like _ _ (q ∷ r ∷ qs) (one p) h = absurd (omega (arith, h))

live_some :
    (state : ArrayState) (ps : List CreationPoint) → IsLive state ps → (length ps == 0) ≡ false
live_some _ _ (many p ps) = ground arith
live_some _ _ (one p) = refl

module _ (grants : ℕ → Bool) (all : (bytes : ℕ) → grants bytes ≡ true) (point_size : ℕ) where
  -- The array behind an item.
  record Step (items : List MetadataPebItem) (answer : Outcome CreationArray) : Type 0 where
    array : CreationArray
    succeeds : answer ≡ ok array
    points : Points items array.points
    live : IsLive array.state array.points

  module _ (items : List MetadataPebItem) (few : length items < 2 ^ 29) (x : MetadataPebItem)
      (real : x.volume_creation_timestamp < u64_max) (index : ℕ)
      (known : map_index x.peb_type ≡ some index) where
    abbrev t : ℕ
    t = x.volume_creation_timestamp

    with_item :
        (v k : ℕ) (old : List MetadataPebItem)
        → (if (t == v) && (k == index) then old ++ (x ∷ []) else old) ≡ old ++ items_of v k (x ∷ [])
    with_item v k old = elim (Bool-cases ((t == v) && (k == index))) [
      | inl y ↦ rw (known, y) refl
      | inr n ↦ rw (known, n) (sym (append-nil old))
    ]

    put_item :
        (array : CreationArray) (i : ℕ)
        → Points items array.points
        → IsLive array.state array.points
        → find_creation_point t array.points ≡ some i
        → Step (items ++ (x ∷ [])) (into_point grants x array (some i))
    put_item array i inv live found =
        let size : length (map_of array.points t index).items ≡ length (items_of t index items) =
          ap (λ (l : List MetadataPebItem). length l) (inv.groups t index real) in
        let less = length-items_of t index items in
        let u =
          updated grants all x index known array.points i found inv.maps
            (omega (arith, size, less, few)) in
        record {
          array = record { state = array.state; points = u.behind };
          succeeds = rw (u.succeeds) refl;
          points = record {
            groups = λ v k small.
                u.maps v k
                ∙ with_item v k (map_of array.points v k).items
                ∙ ap (λ l. l ++ items_of v k (x ∷ [])) (inv.groups v k small)
                ∙ sym (items_of-append v k items (x ∷ []));
            ascending = u.ascending inv.ascending;
            maps = u.all_maps;
          };
          live = IsLive-like array.state array.points u.behind live u.same_length;
        }

    process-Step :
        (array : CreationArray)
        → Points items array.points
        → IsLive array.state array.points
        → Step (items ++ (x ∷ [])) (process_metadata_map_item grants point_size array x)
    unfolding process_metadata_map_item
    process-Step array inv live = elim (Option-cases (find_creation_point t array.points)) [
      | inr (i, found) ↦
          let s = put_item array i inv live found in
          record {
            array = s.array;
            succeeds = rw (found, found) s.succeeds;
            points = s.points;
            live = s.live;
          }
      | inl missing ↦
          let some = live_some array.state array.points live in
          let r =
            add-Ready items t real grants all ((length array.points + 1) * point_size) array.state
              array.points live missing inv in
          let s = put_item r.array r.place r.points r.live r.found in
          record {
            array = s.array;
            succeeds = rw (missing, some, r.succeeds, r.found) s.succeeds;
            points = s.points;
            live = s.live;
          }
    ]

  thread-Step :
      (items : List MetadataPebItem) (array : CreationArray) (xs : List MetadataPebItem)
      → AreKnown xs
      → length items + length xs < 2 ^ 29
      → Points items array.points
      → IsLive array.state array.points
      → Step (items ++ xs) (process_thread_metadata_map grants point_size array xs)
  unfolding process_thread_metadata_map
  thread-Step items array [] known few inv live = record {
    array = array;
    succeeds = refl;
    points = subst (λ l. Points l array.points) (sym (append-nil items)) inv;
    live = live;
  }
  thread-Step items array (x ∷ xs) known few inv live =
      let first =
        process-Step items (omega (arith, few)) x known.0 known.1.0 known.1.1 array inv live in
      let size : length (items ++ (x ∷ [])) ≡ length items + 1 = length-append items (x ∷ []) in
      let rest =
        thread-Step (items ++ (x ∷ [])) first.array xs known.2 (omega (arith, size, few))
          first.points first.live in
      record {
        array = rest.array;
        succeeds = rw first.succeeds rest.succeeds;
        points =
            subst (λ l. Points l rest.array.points) (append_assoc items (x ∷ []) xs) rest.points;
        live = rest.live;
      }

start-Points : Points [] (init_creation_point ∷ [])
start-Points = record {
  groups = λ t k small. let n : (u64_max == t) ≡ false = ground (arith, small) in rw n refl;
  ascending = tt;
  maps = (λ k. record { holds = omega arith; modest = omega arith }, tt);
}

-- Where ssdfs_fsck_process_thread_metadata_map gets the array as ssdfs_fsck_init_detection_result
-- leaves it, every allocation succeeds, the items are fewer than 2^29, their PEB types are those
-- of metadata, and their creation times are below U64_MAX, the call succeeds: the creation points
-- are in ascending order with one for each time, and the map of each time and segment type holds
-- the items of that time and type, all of them, in the order in which they were found.
pub process_thread_metadata_map-IsGrouped :
    (grants : ℕ → Bool) (point_size : ℕ) (items : List MetadataPebItem)
    → ((bytes : ℕ) → grants bytes ≡ true)
    → AreKnown items
    → length items < 2 ^ 29
    → (array : CreationArray) × (process_thread_metadata_map grants point_size init_detection_result
          items
        ≡ ok array)
      × IsGrouped items array
process_thread_metadata_map-IsGrouped grants point_size items all known few =
    let s =
      thread-Step grants all point_size [] init_detection_result items known (omega (arith, few))
        start-Points (one init_creation_point) in
    (s.array, s.succeeds, record { groups = s.points.groups; ascending = s.points.ascending })
