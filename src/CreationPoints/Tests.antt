-- ===== src/CreationPoints/Tests.antt =====
-- Four PEBs of two volumes: runs of the code, and an instance of the theorem.
use ssdfs_tools.Prelude.{ℕ, ◌≡◌, refl, true, List, [], ◌∷◌, Outcome, ok, err, einval, arith}
use ssdfs_tools.CreationPoints.{
  CreationPoint, CreationArray, MetadataPebItem, init_detection_result, process_thread_metadata_map,
  process_metadata_map_item, find_creation_point, place_of, insert_at, update_at, last_timestamp,
  replace_last, add_in_state, add_item, resize_metadata_map,
}
use ssdfs_tools.CreationPoints.Points.{AreKnown}
use ssdfs_tools.CreationPoints.Grouped.{IsGrouped, process_thread_metadata_map-IsGrouped}

-- A PEB of a superblock segment (type 6) or of the segment bitmap (type 7).
abbrev peb : (peb_id peb_type create_time : ℕ) → MetadataPebItem
peb peb_id peb_type create_time = record {
  seg_id = 0;
  leb_id = peb_id;
  peb_id = peb_id;
  peb_type = peb_type;
  peb_creation_timestamp = 0;
  volume_creation_timestamp = create_time;
}

abbrev four_pebs : List MetadataPebItem
four_pebs = peb 1 6 20 ∷ peb 2 7 10 ∷ peb 3 6 20 ∷ peb 4 6 10 ∷ []

abbrev peb_ids : List MetadataPebItem → List ℕ
peb_ids [] = []
peb_ids (x ∷ xs) = x.peb_id ∷ peb_ids xs

-- The time of each point, and the PEBs of its superblock segments.
abbrev superblocks : List CreationPoint → List (List ℕ)
superblocks [] = []
superblocks (p ∷ ps) =
    (p.volume_creation_timestamp ∷ peb_ids (p.metadata_map 1).items) ∷ superblocks ps

abbrev superblocks_of : Outcome CreationArray → List (List ℕ)
superblocks_of (ok array) = superblocks array.points
superblocks_of _ = []

two_volumes :
    superblocks_of
      (process_thread_metadata_map (λ bytes. true) 1000 init_detection_result four_pebs)
    ≡ (10 ∷ 4 ∷ []) ∷ (20 ∷ 1 ∷ 3 ∷ []) ∷ []
unfolding process_thread_metadata_map process_metadata_map_item find_creation_point place_of
    insert_at update_at last_timestamp replace_last add_in_state add_item resize_metadata_map
two_volumes = refl

-- A PEB of user data has no map.
user_data :
    process_metadata_map_item (λ bytes. true) 1000 init_detection_result (peb 1 1 20) ≡ err einval
unfolding process_metadata_map_item find_creation_point place_of insert_at update_at last_timestamp
    replace_last add_in_state add_item resize_metadata_map
user_data = refl

four_pebs-AreKnown : AreKnown four_pebs
four_pebs-AreKnown = (
  omega arith,
  (1, refl),
  (omega arith, (3, refl), (omega arith, (1, refl), (omega arith, (1, refl), tt))),
)

process_thread_metadata_map-IsGrouped_example :
    (array : CreationArray) × (process_thread_metadata_map
        (λ bytes. true)
        1000
        init_detection_result
        four_pebs
      ≡ ok array)
    × IsGrouped four_pebs array
process_thread_metadata_map-IsGrouped_example =
    process_thread_metadata_map-IsGrouped (λ bytes. true) 1000 four_pebs (λ bytes. refl)
      four_pebs-AreKnown (omega arith)
