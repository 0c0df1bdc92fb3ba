-- ===== src/LebToPeb/Total.antt =====
-- Tables as the volume is created with them: a mapping comes to a result.
use ssdfs_tools.Prelude.{
  ℕ, zero, suc, ◌+◌, ◌*◌, ◌^◌, ◌<◌, ◌≤◌, ◌≡◌, refl, true, false, not, ◌||◌, ltb, leb, ◌==◌, u32,
  u64, u16_max, u64_max, Outcome, ok, arith,
}
use ssdfs_tools.Maptbl.{
  lebtbl_fragment_hdr_size, leb_descriptor_size, pebtbl_fragment_hdr_size, peb_descriptor_size,
}
use ssdfs_tools.LebToPeb.{
  Layout, LebPage, PebPage, Tables, LebPlace, put_portion, put_pages, peb_desc_per_stripe,
  get_lebtbl_fragment, get_stripe_index, find_unused_peb, define_peb_as_used, meta2seg_type,
  seg2peb_type, peb_type_max, define_peb_index_in_portion, define_leb_as_mapped, map_leb2peb,
}
use ssdfs_tools.LebToPeb.Unused.{AllUsed, full, room, find_unused_peb-IsSearched}
use ssdfs_tools.LebToPeb.Step.{used_page, mapped_page}

-- A page of LEBs that a mapping may write.
pub record IsLebPage (hdr : LebPage) : Type 0 where
  pub magic : hdr.magic ≡ 0x4C74
  pub some : 0 < hdr.lebs_count
  pub counts : hdr.mapped_lebs + hdr.migrating_lebs ≤ hdr.lebs_count
  pub bytes : hdr.bytes_count ≡ lebtbl_fragment_hdr_size + hdr.lebs_count * leb_descriptor_size

-- A page of PEBs: the PEBs that are not marked have neither a type nor a state.
pub record IsPebPage (hdr : PebPage) : Type 0 where
  pub magic : hdr.magic ≡ 0x5074
  pub fit : hdr.pebs_count ≤ peb_desc_per_stripe
  pub last : hdr.last_selected_peb < hdr.pebs_count
  pub bytes : hdr.bytes_count ≡ pebtbl_fragment_hdr_size + hdr.pebs_count * peb_descriptor_size
  pub unused :
      (k : ℕ) → hdr.used k ≡ false → ((hdr.descs k).state ≡ 0) × ((hdr.descs k).peb_type ≡ 0)

known_kind :
    (meta_index : ℕ)
    → meta_index < 4
    → (ltb 5 meta_index ≡ false)
      × ((seg2peb_type (meta2seg_type meta_index) == 0
            || leb peb_type_max (seg2peb_type (meta2seg_type meta_index)))
          ≡ false)
unfolding seg2peb_type meta2seg_type
known_kind zero h = (refl, refl)
known_kind (suc zero) h = (refl, refl)
known_kind (suc (suc zero)) h = (refl, refl)
known_kind (suc (suc (suc zero))) h = (refl, refl)
known_kind (suc (suc (suc (suc k)))) h = absurd (omega (arith, h))

define_peb_as_used_total :
    (hdr : PebPage) (k meta_index : ℕ)
    → IsPebPage hdr
    → meta_index < 4
    → k < hdr.pebs_count
    → hdr.used k ≡ false
    → define_peb_as_used hdr k meta_index ≡ ok (used_page hdr k meta_index)
unfolding define_peb_as_used
define_peb_as_used_total hdr k meta_index page known inside unused =
    let kind = known_kind meta_index known in
    let free = page.unused k unused in
    let a : not (hdr.magic == 0x5074) ≡ false = ground (arith, page.magic) in
    let b : leb hdr.pebs_count hdr.last_selected_peb ≡ false = ground (arith, page.last) in
    let c : leb hdr.pebs_count k ≡ false = ground (arith, inside) in
    let d : not (hdr.bytes_count == pebtbl_fragment_hdr_size + hdr.pebs_count * peb_descriptor_size)
        ≡ false =
      ground (arith, page.bytes) in
    let e : not ((hdr.descs k).state == 0) ≡ false = ground (arith, free.0) in
    let f : not ((hdr.descs k).peb_type == 0) ≡ false = ground (arith, free.1) in
    rw (kind.0, kind.1, a, b, c, d, e, f) refl

define_leb_as_mapped_total :
    (hdr : LebPage) (desc physical : ℕ)
    → IsLebPage hdr
    → define_leb_as_mapped hdr desc physical ≡ ok (mapped_page hdr desc physical)
unfolding define_leb_as_mapped
define_leb_as_mapped_total hdr desc physical page =
    let a : not (hdr.magic == 0x4C74) ≡ false = ground (arith, page.magic) in
    let b : (hdr.lebs_count == 0) ≡ false = ground (arith, page.some) in
    let c : ltb hdr.lebs_count hdr.mapped_lebs ≡ false = ground (arith, page.counts) in
    let d : ltb hdr.lebs_count hdr.migrating_lebs ≡ false = ground (arith, page.counts) in
    let e : ltb hdr.lebs_count (hdr.mapped_lebs + hdr.migrating_lebs) ≡ false =
      ground (arith, page.counts) in
    let f : not (hdr.bytes_count == lebtbl_fragment_hdr_size + hdr.lebs_count * leb_descriptor_size)
        ≡ false =
      ground (arith, page.bytes) in
    rw (a, b, c, d, e, f) refl

index_total :
    (stripe item : ℕ)
    → stripe < 137
    → item < peb_desc_per_stripe
    → define_peb_index_in_portion stripe item ≡ ok (peb_desc_per_stripe * stripe + item)
unfolding define_peb_index_in_portion
index_total stripe item a b =
    let value : u32 (u32 (peb_desc_per_stripe * stripe) + item)
        ≡ peb_desc_per_stripe * stripe + item =
      omega (arith, a, b) in
    let small : leb u16_max (peb_desc_per_stripe * stripe + item) ≡ false = ground (arith, a, b) in
    rw (value, small) refl

-- What a mapping asks of the tables at a place.
pub record IsReady (layout : Layout) (tables : Tables) (leb_id : ℕ) (place : LebPlace) (stripe : ℕ)
    : Type 0 where
  pub leb_page :
      IsLebPage ((tables place.fragment_index place.portion_index).lebs place.mempage_index)
  pub from :
      ((tables place.fragment_index place.portion_index).lebs place.mempage_index).start_leb
      ≤ leb_id
  pub to :
      leb_id
      < ((tables place.fragment_index place.portion_index).lebs place.mempage_index).start_leb
        + ((tables place.fragment_index place.portion_index).lebs place.mempage_index).lebs_count
  pub fits :
      ((tables place.fragment_index place.portion_index).lebs place.mempage_index).start_leb
        + ((tables place.fragment_index place.portion_index).lebs place.mempage_index).lebs_count
      < 2 ^ 64
  pub peb_page : IsPebPage ((tables place.fragment_index place.portion_index).pebs stripe)
  pub few : stripe < 137

module _ (layout : Layout) (tables : Tables) (leb_id meta_index : ℕ) (place : LebPlace) (stripe : ℕ)
    (place_eq : get_lebtbl_fragment layout leb_id ≡ ok place)
    (stripe_eq : get_stripe_index layout
        ((tables place.fragment_index place.portion_index).lebs place.mempage_index)
        leb_id
      ≡ ok stripe)
    (ready : IsReady layout tables leb_id place stripe) (known : meta_index < 4) where
  abbrev pub lebtbl : LebPage
  lebtbl = (tables place.fragment_index place.portion_index).lebs place.mempage_index

  abbrev pub pebtbl : PebPage
  pebtbl = (tables place.fragment_index place.portion_index).pebs stripe

  -- What map_leb2peb comes to when the search has ended at a PEB.
  abbrev pub taken : ℕ → ℕ × Tables
  taken k = (
    u64 (pebtbl.start_peb + k),
    put_portion tables place.fragment_index place.portion_index (
        put_pages (tables place.fragment_index place.portion_index) place.mempage_index stripe
          (mapped_page lebtbl place.leb_desc_index (peb_desc_per_stripe * stripe + k))
          (used_page pebtbl k meta_index)),
  )

  -- The PEBs of the stripe are all marked, or there is a first one that is not, which is taken.
  pub data Outcomes (answer : Outcome (ℕ × Tables)) : Type 0 where
    full_stripe :
        AllUsed pebtbl.used pebtbl.pebs_count → answer ≡ ok (u64_max, tables) → Outcomes answer
    takes :
        (k : ℕ)
        → k < pebtbl.pebs_count
        → pebtbl.used k ≡ false
        → AllUsed pebtbl.used k
        → answer ≡ ok (taken k)
        → Outcomes answer

  -- map_leb2peb comes to a result, without an abort or a fault, where get_lebtbl_fragment and
  -- get_stripe_index find a place and a stripe below 137, the headers of the two pages are those
  -- of tables and their counts agree, with at most 476 PEBs, the LEB is one of its page, no PEB
  -- without a mark has a type or a state, and the segment is one of the metadata. The result is
  -- U64_MAX with the tables unchanged if every PEB of the stripe is marked, and else the first PEB
  -- that is not, which the tables then have as used and as the LEB's.
  pub map_leb2peb-Outcomes : Outcomes (map_leb2peb layout tables leb_id meta_index)
  unfolding map_leb2peb
  map_leb2peb-Outcomes =
      let leb_page = ready.leb_page in
      let peb_page = ready.peb_page in
      let few = peb_page.fit in
      let a : not (lebtbl.magic == 0x4C74) ≡ false = ground (arith, leb_page.magic) in
      let b : ltb leb_id lebtbl.start_leb ≡ false = ground (arith, ready.from) in
      let word : u64 (lebtbl.start_leb + lebtbl.lebs_count) ≡ lebtbl.start_leb + lebtbl.lebs_count =
        omega (arith, ready.fits) in
      let c : leb (lebtbl.start_leb + lebtbl.lebs_count) leb_id ≡ false =
        ground (arith, ready.to) in
      let d : not (pebtbl.magic == 0x5074) ≡ false = ground (arith, peb_page.magic) in
      elim (find_unused_peb-IsSearched pebtbl (omega (arith, few))) [
        | full is_max all ↦
            let e : (find_unused_peb pebtbl == u16_max) ≡ true = ground (arith, is_max) in
            full_stripe all (rw (place_eq, a, b, word, c, stripe_eq, d, e) refl)
        | room inside unused below ↦
            let k : ℕ = find_unused_peb pebtbl in
            let e : (k == u16_max) ≡ false = ground (arith, few, inside) in
            let used = define_peb_as_used_total pebtbl k meta_index peb_page known inside unused in
            let index = index_total stripe k ready.few (omega (arith, few, inside)) in
            let mapped =
              define_leb_as_mapped_total lebtbl place.leb_desc_index
                (peb_desc_per_stripe * stripe + k) leb_page in
            takes k inside unused below
              (rw (place_eq, a, b, word, c, stripe_eq, d, e, used, index, mapped) refl)
      ]
