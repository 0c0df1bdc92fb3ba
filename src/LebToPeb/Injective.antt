-- ===== src/LebToPeb/Injective.antt =====
-- The invariant of the mapping: a PEB is that of at most one LEB, and it is marked as used.
use ssdfs_tools.Prelude.{
  ℕ, ◌+◌, ◌*◌, ◌/◌, ◌%◌, ◌^◌, ◌<◌, ◌≤◌, ◌≡◌, ◌≢◌, sym, ap, ◌∙◌, subst, Bool, true, false, u16_max,
  Ensures, arith,
}
use ssdfs_tools.LebToPeb.{Layout, Tables, peb_desc_per_stripe, map_leb2peb}
use ssdfs_tools.LebToPeb.Step.{IsLayout, PebsFit, Target, pebs_of, none_left, mapped}
use ssdfs_tools.LebToPeb.Call.{map_leb2peb-Answer}
use ssdfs_tools.LebToPeb.Written.{
  physical, used_at, after, here, kept, physical_after, used_after, count_after, used_here,
}

-- In every portion: the LEBs that have a physical index have different ones, and the PEBs that they
-- name are marked as used.
pub record IsInjective (tables : Tables) : Type 0 where
  pub fit : PebsFit tables
  pub backed :
      (f p g i : ℕ)
      → physical tables f p g i ≢ u16_max
      → used_at tables f p
          (physical tables f p g i / peb_desc_per_stripe)
          (physical tables f p g i % peb_desc_per_stripe)
        ≡ true
  pub apart :
      (f p g i h j : ℕ)
      → physical tables f p g i ≢ u16_max
      → physical tables f p g i ≡ physical tables f p h j
      → (g ≡ h) × (i ≡ j)

-- The mark of the PEB that a physical index names.
abbrev named_used : Tables → (fragment portion index : ℕ) → Bool
named_used tables f p n = used_at tables f p (n / peb_desc_per_stripe) (n % peb_desc_per_stripe)

module _ {layout : Layout} {tables : Tables} {leb_id : ℕ} (inv : IsInjective tables)
    (t : Target layout tables leb_id) (k meta_index : ℕ) (inside : k < (pebs_of t).pebs_count)
    (unused : (pebs_of t).used k ≡ false) where
  abbrev index : ℕ
  index = peb_desc_per_stripe * t.stripe + k

  few : k < peb_desc_per_stripe
  few =
      let bound = inv.fit t.place.fragment_index t.place.portion_index t.stripe in
      omega (arith, bound, inside)

  -- The PEB that is taken was no LEB's.
  fresh :
      (f p g i : ℕ)
      → f ≡ t.place.fragment_index
      → p ≡ t.place.portion_index
      → physical tables f p g i ≢ u16_max
      → physical tables f p g i ≢ index
  fresh f p g i y z named same =
      let stripe : index / peb_desc_per_stripe ≡ t.stripe = omega (arith, few) in
      let item : index % peb_desc_per_stripe ≡ k = omega (arith, few) in
      let mark : named_used tables f p index ≡ true =
        ap (named_used tables f p) (sym same) ∙ inv.backed f p g i named in
      let taken : used_at tables f p t.stripe k ≡ true =
        ap (λ s. used_at tables f p s k) (sym stripe)
        ∙ ap (used_at tables f p (index / peb_desc_per_stripe)) (sym item)
        ∙ mark in
      let taken_here : (pebs_of t).used k ≡ true =
        ap (λ a. used_at tables a t.place.portion_index t.stripe k) (sym y)
        ∙ ap (λ a. used_at tables f a t.stripe k) (sym z)
        ∙ taken in
      cc (unused, taken_here)

  backed_after :
      (f p g i : ℕ)
      → physical (after t k meta_index) f p g i ≢ u16_max
      → named_used (after t k meta_index) f p (physical (after t k meta_index) f p g i) ≡ true
  backed_after f p g i named = elim (physical_after t k meta_index f p g i) [
    | here y z w x e ↦
        let stripe : index / peb_desc_per_stripe ≡ t.stripe = omega (arith, few) in
        let item : index % peb_desc_per_stripe ≡ k = omega (arith, few) in
        ap (named_used (after t k meta_index) f p) e
        ∙ ap (λ s. used_at (after t k meta_index) f p s (index % peb_desc_per_stripe)) stripe
        ∙ ap (used_at (after t k meta_index) f p t.stripe) item
        ∙ used_here t k meta_index f p y z
    | kept e ↦
        ap (named_used (after t k meta_index) f p) e
        ∙ used_after t k meta_index f p _ _ (inv.backed f p g i (subst (λ n. n ≢ u16_max) e named))
  ]

  apart_after :
      (f p g i h j : ℕ)
      → physical (after t k meta_index) f p g i ≢ u16_max
      → physical (after t k meta_index) f p g i ≡ physical (after t k meta_index) f p h j
      → (g ≡ h) × (i ≡ j)
  apart_after f p g i h j named same = elim (physical_after t k meta_index f p g i) [
    | here y z w x e ↦ elim (physical_after t k meta_index f p h j) [
      | here y' z' w' x' e' ↦ (w ∙ sym w', x ∙ sym x')
      | kept e' ↦
          absurd
            (fresh f p h j y z (subst (λ n. n ≢ u16_max) (same ∙ e') named) (sym e' ∙ sym same ∙ e))
    ]
    | kept e ↦ elim (physical_after t k meta_index f p h j) [
      | here y z w x e' ↦
          absurd (fresh f p g i y z (subst (λ n. n ≢ u16_max) e named) (sym e ∙ same ∙ e'))
      | kept e' ↦ inv.apart f p g i h j (subst (λ n. n ≢ u16_max) e named) (sym e ∙ same ∙ e')
    ]
  ]

  pub after-IsInjective : IsInjective (after t k meta_index)
  after-IsInjective = record {
    fit = λ f p s.
        subst (λ n. n ≤ peb_desc_per_stripe) (sym (count_after t k meta_index f p s))
          (inv.fit f p s);
    backed = backed_after;
    apart = apart_after;
  }

module _ (layout : Layout) (tables : Tables) (leb_id meta_index : ℕ) (layout_ok : IsLayout layout)
    (leb_small : leb_id < 2 ^ 32) where
  -- map_leb2peb gives no PEB to two LEBs: if, in every portion, the physical indexes of the LEBs
  -- that have one are different, the PEBs that they name are marked as used, and every page has at
  -- most 476 PEBs, then so it is behind a call that returns. The LEB is below 2^32 and the numbers
  -- of the layout fit their types.
  pub map_leb2peb-IsInjective :
      IsInjective tables
      → Ensures (λ r. IsInjective r.1) (map_leb2peb layout tables leb_id meta_index)
  map_leb2peb-IsInjective inv r e =
      elim (map_leb2peb-Answer layout tables leb_id meta_index layout_ok leb_small inv.fit r e) [
        | none_left t all p q ↦ subst IsInjective (sym q) inv
        | mapped t k inside unused below p small q ↦
            subst IsInjective (sym q) (after-IsInjective inv t k meta_index inside unused)
      ]
