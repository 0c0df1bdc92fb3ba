-- ===== src/LebToPeb/Step.antt =====
-- One call of map_leb2peb: which PEB it takes, and what it changes.
use ssdfs_tools.Prelude.{
  ℕ, ◌+◌, ◌*◌, ◌^◌, ◌<◌, ◌≤◌, ◌≡◌, refl, true, false, not, ◌||◌, ltb, leb, ◌==◌, Bool-cases, inl,
  inr, u16, u32, u64, u16_max, u64_max, Ensures, Ensures-ok, arith,
}
use ssdfs_tools.Maptbl.{
  lebtbl_fragment_hdr_size, leb_descriptor_size, pebtbl_fragment_hdr_size, peb_descriptor_size,
}
use ssdfs_tools.LebToPeb.{
  Layout, LebPage, PebPage, Portion, Tables, LebPlace, put, put_portion, put_pages,
  peb_desc_per_stripe, define_peb_as_used, meta2seg_type, seg2peb_type, peb_type_max,
  define_peb_index_in_portion, define_leb_as_mapped,
}
use ssdfs_tools.LebToPeb.Unused.{AllUsed}
use ssdfs_tools.LebToPeb.Place.{IsPlace}
use ssdfs_tools.LebToPeb.Stripe.{IsStripe, segment_pebs}

-- The pages behind a mapping.
abbrev pub used_page : PebPage → (peb_index meta_index : ℕ) → PebPage
used_page hdr peb_index meta_index = record hdr {
  descs =
      put hdr.descs peb_index
        (record { peb_type = seg2peb_type (meta2seg_type meta_index); state = 3 });
  used = put hdr.used peb_index true;
}

abbrev pub mapped_page : LebPage → (leb_desc_index physical_index : ℕ) → LebPage
mapped_page hdr leb_desc_index physical_index = record hdr {
  descs =
      put hdr.descs leb_desc_index
        (record { physical_index = physical_index; relation_index = u16_max });
  mapped_lebs = u16 (hdr.mapped_lebs + 1);
}

module _ (hdr : PebPage) (k meta_index : ℕ) where
  abbrev kind : ℕ
  kind = seg2peb_type (meta2seg_type meta_index)

  pub used_eq :
      Ensures (λ page. page ≡ used_page hdr k meta_index) (define_peb_as_used hdr k meta_index)
  unfolding define_peb_as_used
  used_eq = elim (Bool-cases (ltb 5 meta_index)) [
    | inl aborts ↦ rw aborts λ a e. absurd (cc e)
    | inr a ↦ rw a (elim (Bool-cases (kind == 0 || leb peb_type_max kind)) [
      | inl aborts ↦ rw aborts λ a e. absurd (cc e)
      | inr b ↦ rw b (elim (Bool-cases (not (hdr.magic == 0x5074))) [
        | inl aborts ↦ rw aborts λ a e. absurd (cc e)
        | inr c ↦ rw c (elim (Bool-cases (leb hdr.pebs_count hdr.last_selected_peb)) [
          | inl aborts ↦ rw aborts λ a e. absurd (cc e)
          | inr d ↦ rw d (elim (Bool-cases (leb hdr.pebs_count k)) [
            | inl aborts ↦ rw aborts λ a e. absurd (cc e)
            | inr e ↦
                rw e
                  (elim (Bool-cases (
                    not (
                      hdr.bytes_count
                      == pebtbl_fragment_hdr_size + hdr.pebs_count * peb_descriptor_size))) [
                        | inl aborts ↦ rw aborts λ a e. absurd (cc e)
                        | inr f ↦ rw f (elim (Bool-cases (not ((hdr.descs k).state == 0))) [
                          | inl aborts ↦ rw aborts λ a e. absurd (cc e)
                          | inr g ↦ rw g (elim (Bool-cases (not ((hdr.descs k).peb_type == 0))) [
                            | inl aborts ↦ rw aborts λ a e. absurd (cc e)
                            | inr h ↦ rw h (Ensures-ok _ _ refl)
                          ])
                        ])
                      ])
          ])
        ])
      ])
    ])
  ]

module _ (hdr : LebPage) (desc physical_index : ℕ) where
  pub mapped_eq :
      Ensures
        (λ page. page ≡ mapped_page hdr desc physical_index)
        (define_leb_as_mapped hdr desc physical_index)
  unfolding define_leb_as_mapped
  mapped_eq = elim (Bool-cases (not (hdr.magic == 0x4C74))) [
    | inl aborts ↦ rw aborts λ a e. absurd (cc e)
    | inr a ↦ rw a (elim (Bool-cases (hdr.lebs_count == 0)) [
      | inl aborts ↦ rw aborts λ a e. absurd (cc e)
      | inr b ↦ rw b (elim (Bool-cases (ltb hdr.lebs_count hdr.mapped_lebs)) [
        | inl aborts ↦ rw aborts λ a e. absurd (cc e)
        | inr c ↦ rw c (elim (Bool-cases (ltb hdr.lebs_count hdr.migrating_lebs)) [
          | inl aborts ↦ rw aborts λ a e. absurd (cc e)
          | inr d ↦
              rw d (elim (Bool-cases (ltb hdr.lebs_count (hdr.mapped_lebs + hdr.migrating_lebs))) [
                | inl aborts ↦ rw aborts λ a e. absurd (cc e)
                | inr e ↦
                    rw e
                      (elim (Bool-cases (
                        not (
                          hdr.bytes_count
                          == lebtbl_fragment_hdr_size + hdr.lebs_count * leb_descriptor_size))) [
                            | inl aborts ↦ rw aborts λ a e. absurd (cc e)
                            | inr f ↦ rw f (Ensures-ok _ _ refl)
                          ])
              ])
        ])
      ])
    ])
  ]

pub index_eq :
    (stripe item : ℕ)
    → stripe < 2 ^ 16
    → item < 2 ^ 16
    → Ensures
        (λ n. (n ≡ peb_desc_per_stripe * stripe + item) × (n < u16_max))
        (define_peb_index_in_portion stripe item)
unfolding define_peb_index_in_portion
index_eq stripe item a b =
    elim (Bool-cases (leb u16_max (u32 (u32 (peb_desc_per_stripe * stripe) + item)))) [
      | inl aborts ↦ rw aborts λ a e. absurd (cc e)
      | inr small ↦ rw small (Ensures-ok _ _ (omega (arith, a, b), ground (arith, small)))
    ]

-- What is asked of the numbers of a layout.
pub record IsLayout (layout : Layout) : Type 0 where
  pub lebs : layout.lebs_per_portion < 2 ^ 16
  pub fragment : layout.lebs_per_portion * layout.portions_per_fragment < 2 ^ 32
  pub stripes : layout.stripes_per_portion < 2 ^ 16
  pub segment : segment_pebs layout < 2 ^ 31

-- The pages of PEBs have no more descriptors than fit.
abbrev pub PebsFit : Tables → Type 0
PebsFit tables = (f p s : ℕ) → ((tables f p).pebs s).pebs_count ≤ peb_desc_per_stripe

-- Where a LEB's descriptor and the PEBs for it are.
pub record Target (layout : Layout) (tables : Tables) (leb_id : ℕ) : Type 0 where
  pub place : LebPlace
  pub stripe : ℕ
  pub is_place : IsPlace layout leb_id place
  pub is_stripe :
      IsStripe layout
        ((tables place.fragment_index place.portion_index).lebs place.mempage_index)
        leb_id
        stripe

abbrev pub portion_of :
    {layout : Layout} {tables : Tables} {leb_id : ℕ} → Target layout tables leb_id → Portion
portion_of {tables = tables} t = tables t.place.fragment_index t.place.portion_index

abbrev pub pebs_of :
    {layout : Layout} {tables : Tables} {leb_id : ℕ} → Target layout tables leb_id → PebPage
pebs_of t = (portion_of t).pebs t.stripe

abbrev pub lebs_of :
    {layout : Layout} {tables : Tables} {leb_id : ℕ} → Target layout tables leb_id → LebPage
lebs_of t = (portion_of t).lebs t.place.mempage_index

-- The result of a call.
pub data Answer (layout : Layout) (tables : Tables) (leb_id meta_index : ℕ) (r : ℕ × Tables)
    : Type 0 where
  none_left :
      (t : Target layout tables leb_id)
      → AllUsed (pebs_of t).used (pebs_of t).pebs_count
      → r.0 ≡ u64_max
      → r.1 ≡ tables
      → Answer layout tables leb_id meta_index r
  mapped :
      (t : Target layout tables leb_id) (k : ℕ)
      → k < (pebs_of t).pebs_count
      → (pebs_of t).used k ≡ false
      → AllUsed (pebs_of t).used k
      → r.0 ≡ u64 ((pebs_of t).start_peb + k)
      → peb_desc_per_stripe * t.stripe + k < u16_max
      → r.1
        ≡ put_portion tables t.place.fragment_index t.place.portion_index (
            put_pages
              (portion_of t)
              t.place.mempage_index
              t.stripe
              (mapped_page (lebs_of t) t.place.leb_desc_index (peb_desc_per_stripe * t.stripe + k))
              (used_page (pebs_of t) k meta_index))
      → Answer layout tables leb_id meta_index r
