-- ===== src/Segments/Tests.antt =====
-- A volume of four segments: runs of the code, and an instance of the theorem.
use ssdfs_tools.Prelude.{ℕ, ◌≡◌, refl, List, [], ◌∷◌, Outcome, ok, fault, arith}
use ssdfs_tools.Segments.{SegmentDesc, VolumeLayout, store_seg, reserve_from, reserve_segments}
use ssdfs_tools.Segments.Reserved.{IsReserved, reserve_segments-IsReserved}

abbrev unused : SegmentDesc
unused = record { seg_type = 5; seg_state = 2 }

abbrev volume : VolumeLayout
volume = record {
  segs = unused ∷ unused ∷ unused ∷ unused ∷ [];
  next_seg_index = 1;
  meta_array = λ k. record { start_seg_index = 0; segs_count = k; seg_state = 0 };
}

abbrev types : List SegmentDesc → List ℕ
types [] = []
types (s ∷ segs) = s.seg_type ∷ types segs

abbrev types_of : Outcome VolumeLayout → List ℕ
types_of (ok layout) = types layout.segs
types_of _ = []

two_reserved : types_of (reserve_segments volume 2) ≡ 5 ∷ 2 ∷ 2 ∷ 5 ∷ []
unfolding reserve_segments reserve_from store_seg
two_reserved = refl

too_many : reserve_segments volume 4 ≡ fault
unfolding reserve_segments reserve_from store_seg
too_many = refl

reserve_segments-IsReserved_example : IsReserved volume 2
reserve_segments-IsReserved_example =
    reserve_segments-IsReserved volume 2 (omega arith) (omega arith)
