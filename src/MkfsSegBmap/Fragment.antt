-- ===== src/MkfsSegBmap/Fragment.antt =====
-- The header that segbmap_prepare_fragment fills.
use ssdfs_tools.Prelude.{
  ℕ, ◌+◌, ◌-◌, ◌*◌, ◌/◌, ◌%◌, ◌^◌, ◌<◌, ◌≤◌, ◌≡◌, refl, false, min, leb, ◌==◌, u16, u64, sub_u64,
  u16_max, ok, arith,
}
use ssdfs_tools.SegBmap.{FragmentHeader, divide, payload_bytes_per_fragment, hdr_size}
use ssdfs_tools.SegBmap.Size.{items_per_page, define_first_fragment_item_lem}
use ssdfs_tools.MkfsSegBmap.{
  Layout, Prepared, segbmap_hdr_magic, bytes_of_fragment, segs_of_fragment,
  segbmap_prepare_fragment,
}

abbrev rest_of : (bmap_bytes fragments index : ℕ) → ℕ
rest_of bmap_bytes fragments index = bmap_bytes + fragments * 32 - index * 4096

bytes_of_fragment-eq :
    (bmap_bytes fragments index : ℕ)
    → bmap_bytes < 2 ^ 32
    → fragments < 2 ^ 16
    → index * 4096 ≤ bmap_bytes + fragments * 32
    → bytes_of_fragment bmap_bytes fragments index
      ≡ ok (min (rest_of bmap_bytes fragments index) 4096)
unfolding bytes_of_fragment payload_bytes_per_fragment
bytes_of_fragment-eq bmap_bytes fragments index small few within =
    let r : sub_u64 (u64 (bmap_bytes + fragments * hdr_size)) (u64 (index * (4064 + hdr_size)))
        ≡ rest_of bmap_bytes fragments index =
      omega arith in
    let b : leb u16_max (min (rest_of bmap_bytes fragments index) 4096) ≡ false = ground arith in
    rw (r, b)

segs_of_fragment-eq :
    (seg_nums start : ℕ) → segs_of_fragment seg_nums start ≡ ok (min 8128 (seg_nums - start))
unfolding segs_of_fragment
segs_of_fragment-eq seg_nums start =
    let b : leb u16_max (min 8128 (seg_nums - start)) ≡ false = ground arith in
    rw items_per_page (rw b)

-- The result for those arguments.
abbrev filled : Layout → (seg_nums index : ℕ) → FragmentHeader → Prepared
filled layout seg_nums index before =
    let per_peb = layout.fragments_per_peb in
    let per_seg = u16 (layout.pebs_per_seg * per_peb) in
    let seg = u16 (index / per_seg) in
    let segs = min 8128 (seg_nums - index * 8128) in
    record {
      buffer = index / per_peb;
      offset = index % per_peb * layout.fragment_size;
      hdr = record before {
        magic = segbmap_hdr_magic;
        seg_index = seg;
        peb_index = u16 (2 ^ 16 - u16 ((index - seg * per_seg) / per_peb));
        flags = 0;
        start_item = index * 8128;
        sequence_id = u16 index;
        fragment_bytes = min (rest_of layout.bmap_bytes layout.fragments_count index) 4096;
        total_segs = segs;
        clean_or_using_segs = segs;
        used_or_dirty_segs = 0;
        bad_segs = 0;
      };
    }

-- What the header of fragment `index` says of a volume of `seg_nums` segments.
pub record Describes (layout : Layout) (seg_nums index : ℕ) (p : Prepared) : Type 0 where
  pub starts : p.hdr.start_item ≡ index * 8128
  pub counts : p.hdr.total_segs ≡ min 8128 (seg_nums - index * 8128)
  pub all_clean : p.hdr.clean_or_using_segs ≡ p.hdr.total_segs
  pub in_page : p.hdr.fragment_bytes ≤ 4096
  pub has_items : p.hdr.total_segs + hdr_size * 2 ≤ p.hdr.fragment_bytes * 2
  pub in_array : p.buffer ≡ index / layout.fragments_per_peb

-- For a volume of less than 2 ^ 28 segments whose bitmap has an item for each, and a fragment of the
-- layout that begins at a segment of the volume, segbmap_prepare_fragment returns 0. The header
-- then counts the segments from the fragment's first item on, at most 8128, all of them clean, and
-- the fragment takes at most a page and has the bytes for its header and an item for each of them.
pub prepare_fragment_lem :
    (layout : Layout) (seg_nums index : ℕ) (before : FragmentHeader)
    → divide layout.fs_size layout.seg_size ≡ ok seg_nums
    → seg_nums < 2 ^ 28
    → layout.bmap_bytes ≡ (seg_nums + 1) / 2
    → layout.fragments_count < 2 ^ 16
    → index < layout.fragments_count
    → index * 8128 < seg_nums
    → 0 < layout.fragments_per_peb
    → 0 < layout.pebs_per_seg * layout.fragments_per_peb
    → layout.pebs_per_seg * layout.fragments_per_peb < 2 ^ 16
    → (p : Prepared) × (segbmap_prepare_fragment layout index before ≡ ok p)
      × Describes layout seg_nums index p
unfolding segbmap_prepare_fragment
prepare_fragment_lem layout seg_nums index before nums small bytes few listed inside some_fragments
      some_pebs fits =
    (
      filled layout seg_nums index before,
      rw
          (
            count,
            beyond,
            nums,
            seg_division,
            peb_division,
            define_first_fragment_item_lem index (omega arith),
            past,
            bytes_of_fragment-eq layout.bmap_bytes layout.fragments_count index (omega arith) few
                (omega arith),
            segs_of_fragment-eq seg_nums (index * 8128),
          )
          refl,
      record {
        starts = refl;
        counts = refl;
        all_clean = refl;
        in_page = ground arith;
        has_items = ground (arith, bytes);
        in_array = refl;
      },
    )
  where
    per_seg : ℕ
    per_seg = u16 (layout.pebs_per_seg * layout.fragments_per_peb)

    count : u16 layout.fragments_count ≡ layout.fragments_count
    count = omega arith

    beyond : leb layout.fragments_count index ≡ false
    beyond = ground arith

    seg_division : divide index per_seg ≡ ok (index / per_seg)
    seg_division = let z : (per_seg == 0) ≡ false = ground arith in rw z

    peb_division :
        divide (index - u16 (index / per_seg) * per_seg) layout.fragments_per_peb
        ≡ ok ((index - u16 (index / per_seg) * per_seg) / layout.fragments_per_peb)
    peb_division = let z : (layout.fragments_per_peb == 0) ≡ false = ground arith in rw z

    past : leb seg_nums (index * 8128) ≡ false
    past = ground arith
