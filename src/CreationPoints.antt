-- ===== src/CreationPoints.antt =====
-- sbin/fsck.ssdfs/detect_file_system.c: the search of a whole volume groups the metadata PEBs that
-- its threads have found by the creation time of their volume, in an array of creation points.
-- What an allocation answers is a parameter, by its number of bytes.
pub mod Find
pub mod Maps
pub mod Update
pub mod Points
pub mod Grouped
mod Tests
use ssdfs_tools.Prelude.{
  ℕ, zero, suc, ◌+◌, ◌-◌, ◌*◌, ◌^◌, ◌==◌, ltb, leb, Bool, true, false, ◌||◌, if◌then◌else◌, Option,
  none, some, List, [], ◌∷◌, ◌++◌, length, u64_max, Outcome, ok, err, einval, erange, enoent, fault,
  fail_if, ◌>>=◌, ◌>>◌, sys,
}

-- struct ssdfs_metadata_peb_item
pub record MetadataPebItem : Type 0 where
  pub seg_id : ℕ
  pub leb_id : ℕ
  pub peb_id : ℕ
  pub peb_type : ℕ
  pub peb_creation_timestamp : ℕ
  pub volume_creation_timestamp : ℕ

-- struct ssdfs_metadata_map, with the items that its array holds.
pub record MetadataMap : Type 0 where
  pub items : List MetadataPebItem
  pub capacity : ℕ

-- struct ssdfs_fsck_volume_creation_point, as far as it is used here. `prepared` is the flag
-- SSDFS_FSCK_METADATA_PEB_MAP_PREPARED of `found_metadata`.
pub record CreationPoint : Type 0 where
  pub prepared : Bool
  pub volume_creation_timestamp : ℕ
  pub metadata_map : ℕ → MetadataMap

pub data ArrayState : Type 0 where
  not_initialized use_buffer allocated : ArrayState

-- struct ssdfs_fsck_volume_creation_array; `count` is the number of the points.
pub record CreationArray : Type 0 where
  pub state : ArrayState
  pub points : List CreationPoint

abbrev pub metadata_map_capacity_min : ℕ
metadata_map_capacity_min = 8

-- sizeof(struct ssdfs_metadata_peb_item), with its padding. That of a creation point is an
-- argument of the functions that use it.
abbrev pub item_size : ℕ
item_size = 48

abbrev pub enomem : ℕ
enomem = 12

-- ssdfs_fsck_init_creation_point
abbrev pub init_creation_point : CreationPoint
init_creation_point = record {
  prepared = false;
  volume_creation_timestamp = u64_max;
  metadata_map = λ index. record { items = []; capacity = 0 };
}

-- ssdfs_fsck_init_detection_result
abbrev pub init_detection_result : CreationArray
init_detection_result = record { state = use_buffer; points = init_creation_point ∷ [] }

-- is_ssdfs_metadata_map_exhausted
abbrev pub is_metadata_map_exhausted : MetadataMap → Bool
is_metadata_map_exhausted metadata_map =
    if metadata_map.capacity == 0
    then true
    else leb metadata_map.capacity (length metadata_map.items)

abbrev pub later : Option ℕ → Option ℕ
later none = none
later (some i) = some (suc i)

-- The loop of ssdfs_fsck_find_creation_point: the place of the point.
unfoldable pub find_creation_point : (create_time : ℕ) → List CreationPoint → Option ℕ
find_creation_point create_time [] = none
find_creation_point create_time (p ∷ ps) =
    if p.volume_creation_timestamp == create_time
    then some 0
    else later (find_creation_point create_time ps)

-- The loop of ssdfs_fsck_add_creation_point: the place of the first later point.
unfoldable pub place_of : (create_time : ℕ) → List CreationPoint → ℕ
place_of create_time [] = 0
place_of create_time (p ∷ ps) =
    if ltb create_time p.volume_creation_timestamp then 0 else suc (place_of create_time ps)

-- memmove of the points from a place on, and the point in that place.
unfoldable pub insert_at : List CreationPoint → ℕ → CreationPoint → List CreationPoint
insert_at ps zero new = new ∷ ps
insert_at [] (suc i) new = new ∷ []
insert_at (p ∷ ps) (suc i) new = p ∷ insert_at ps i new

unfoldable pub update_at :
    List CreationPoint → ℕ → (CreationPoint → Outcome CreationPoint) → Outcome (List CreationPoint)
update_at [] i f = fault
update_at (p ∷ ps) zero f = f p >>= λ q. ok (q ∷ ps)
update_at (p ∷ ps) (suc i) f = update_at ps i f >>= λ qs. ok (p ∷ qs)

-- The last point of the array, which is the only one while the buffer is used.
unfoldable pub last_timestamp : List CreationPoint → ℕ
last_timestamp [] = 0
last_timestamp (p ∷ []) = p.volume_creation_timestamp
last_timestamp (p ∷ q ∷ ps) = last_timestamp (q ∷ ps)

unfoldable pub replace_last : List CreationPoint → CreationPoint → List CreationPoint
replace_last [] new = []
replace_last (p ∷ []) new = new ∷ []
replace_last (p ∷ q ∷ ps) new = p ∷ replace_last (q ∷ ps) new

-- The point of a volume that is new.
abbrev pub new_point : ℕ → CreationPoint
new_point create_time = record init_creation_point { volume_creation_timestamp = create_time }

abbrev pub inserted : (create_time : ℕ) → List CreationPoint → List CreationPoint
inserted create_time points = insert_at points (place_of create_time points) (new_point create_time)

-- The segment type of a PEB type, which is the index of its map; `none` is the default of the
-- switch.
abbrev pub map_index : (peb_type : ℕ) → Option ℕ
map_index peb_type =
    if peb_type == 5
    then some 2
    else if peb_type == 6
    then some 1
    else if peb_type == 7
    then some 3
    else if peb_type == 8
    then some 4
    else if peb_type == 2
    then some 5
    else if peb_type == 3
    then some 6
    else if peb_type == 4
    then some 7
    else none

module _ (grants : ℕ → Bool) where
  -- ssdfs_fsck_resize_metadata_map. An int that would overflow is a fault.
  unfoldable pub resize_metadata_map : MetadataMap → Outcome MetadataMap
  resize_metadata_map metadata_map =
      let capacity =
        if metadata_map.capacity == 0
        then metadata_map_capacity_min
        else metadata_map.capacity * 2 in
      if is_metadata_map_exhausted metadata_map
      then (if ltb (2 ^ 31 - 1) capacity
          then fault
          else if grants (capacity * item_size)
          then ok (record metadata_map { capacity = capacity })
          else err (sys enomem))
      else ok metadata_map

  -- The item behind those of the map; a store behind the array is a fault.
  unfoldable pub add_item : MetadataMap → MetadataPebItem → Outcome MetadataMap
  add_item metadata_map item = do
    m ←
        if is_metadata_map_exhausted metadata_map
        then resize_metadata_map metadata_map
        else ok metadata_map
    (if ltb (length m.items) m.capacity then ok tt else fault)
    ok (record m { items = m.items ++ (item ∷ []) })

  -- The part of ssdfs_fsck_add_creation_point behind its first test.
  unfoldable pub add_in_state :
      ArrayState
      → (bytes_count : ℕ) → List CreationPoint
      → (create_time : ℕ) → Outcome CreationArray
  add_in_state not_initialized bytes_count points create_time = err erange
  add_in_state use_buffer bytes_count points create_time =
      if leb u64_max (last_timestamp points)
      then ok (record { state = use_buffer; points = replace_last points (new_point create_time) })
      else if grants bytes_count
      then ok (record { state = allocated; points = inserted create_time points })
      else err (sys enomem)
  add_in_state allocated bytes_count points create_time =
      if grants bytes_count
      then ok (record { state = allocated; points = inserted create_time points })
      else err (sys enomem)

  -- ssdfs_fsck_add_creation_point
  abbrev pub add_creation_point :
      (point_size : ℕ) → CreationArray → (create_time : ℕ) → Outcome CreationArray
  add_creation_point point_size array create_time = do
    fail_if (length array.points == 0) einval
    add_in_state array.state ((length array.points + 1) * point_size) array.points create_time

  -- The item in its map of a point.
  abbrev pub into_map : MetadataPebItem → CreationPoint → Option ℕ → Outcome CreationPoint
  into_map item point none = err einval
  into_map item point (some index) = add_item (point.metadata_map index) item >>= λ m.
      ok (record point {
        prepared = true;
        metadata_map = λ k. if k == index then m else point.metadata_map k;
      })

  abbrev pub record_item : MetadataPebItem → CreationPoint → Outcome CreationPoint
  record_item item point = into_map item point (map_index item.peb_type)

  -- The part of ssdfs_fsck_process_metadata_map_item behind the search of the point.
  abbrev pub into_point : MetadataPebItem → CreationArray → Option ℕ → Outcome CreationArray
  into_point item array none = err enoent
  into_point item array (some i) = update_at array.points i (record_item item) >>= λ points.
      ok (record { state = array.state; points = points })

  -- The array in which the search is done: with a new point, where there was none.
  abbrev pub with_point :
      (point_size : ℕ) → CreationArray → (create_time : ℕ) → Option ℕ → Outcome CreationArray
  with_point point_size array create_time none = add_creation_point point_size array create_time
  with_point point_size array create_time (some i) = ok array

  -- ssdfs_fsck_process_metadata_map_item. An array that is not initialized has no points to find.
  unfoldable pub process_metadata_map_item :
      (point_size : ℕ) → CreationArray → MetadataPebItem → Outcome CreationArray
  process_metadata_map_item point_size array item = do
    let create_time = item.volume_creation_timestamp
    array' ← with_point point_size array create_time (find_creation_point create_time array.points)
    into_point item array' (find_creation_point create_time array'.points)

  -- ssdfs_fsck_process_thread_metadata_map
  unfoldable pub process_thread_metadata_map :
      (point_size : ℕ) → CreationArray → List MetadataPebItem → Outcome CreationArray
  process_thread_metadata_map point_size array [] = ok array
  process_thread_metadata_map point_size array (item ∷ items) =
      process_metadata_map_item point_size array item >>= λ array'.
      process_thread_metadata_map point_size array' items
