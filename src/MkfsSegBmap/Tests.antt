-- ===== src/MkfsSegBmap/Tests.antt =====
-- A run of the allocation policy, and an instance of the theorem on the spread of fragments.
use ssdfs_tools.Prelude.{◌*◌, ◌≤◌, ◌≡◌, refl, false, ok, arith}
use ssdfs_tools.SegBmap.{FragmentHeader, seg_bmap_bytes, seg_bmap_fragments}
use ssdfs_tools.MkfsSegBmap.{
  Layout, Shares, share, spread_fragments, chain_segs, fitting_fragments,
  segbmap_mkfs_allocation_policy,
}
use ssdfs_tools.MkfsSegBmap.Spread.{spread_fragments_covers}

-- 1 TB in segments of 4 MB with one erase block each.
abbrev volume : Layout
volume = record {
  fs_size = 1099511627776;
  seg_size = 4194304;
  erase_size = 4194304;
  page_size = 4096;
  has_backup_copy = false;
  segs_per_chain = 1;
  fragments_per_peb = 8;
  pebs_per_seg = 1;
  fragments_count = 0;
  fragment_size = 4096;
  bmap_bytes = 0;
  segs = 0;
}

-- 33 fragments in five segments with seven in each.
policy_run :
    segbmap_mkfs_allocation_policy volume
    ≡ ok (record volume {
      segs_per_chain = 5;
      fragments_per_peb = 7;
      fragments_count = 33;
      bmap_bytes = 131072;
      segs = 5;
    })
unfolding segbmap_mkfs_allocation_policy seg_bmap_bytes seg_bmap_fragments chain_segs
    fitting_fragments spread_fragments share
policy_run = refl

spread_fragments_covers_example :
    (s : Shares) × (spread_fragments 33 5 1 ≡ ok s)
    × (33 ≤ s.fragments_per_peb * s.pebs_per_seg * 5)
    × (s.pebs_per_seg ≤ 1)
spread_fragments_covers_example =
    spread_fragments_covers 33 5 1 (omega arith) (omega arith) (omega arith)

abbrev empty_header : FragmentHeader
empty_header = record {
  magic = 0;
  seg_index = 0;
  peb_index = 0;
  flags = 0;
  seg_type = 0;
  start_item = 0;
  sequence_id = 0;
  fragment_bytes = 0;
  checksum = 0;
  total_segs = 0;
  clean_or_using_segs = 0;
  used_or_dirty_segs = 0;
  bad_segs = 0;
}

-- The volume with the layout that the policy gives it.
abbrev planned : Layout
planned = record volume {
  segs_per_chain = 5;
  fragments_per_peb = 7;
  fragments_count = 33;
  bmap_bytes = 131072;
  segs = 5;
}
