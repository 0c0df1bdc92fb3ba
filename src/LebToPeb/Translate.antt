-- ===== src/LebToPeb/Translate.antt =====
-- The PEB that the tables translate a LEB to, and what a mapping does to it.
use ssdfs_tools.Prelude.{
  ℕ, ◌+◌, ◌*◌, ◌/◌, ◌%◌, ◌^◌, ◌<◌, ◌≡◌, ◌≢◌, refl, sym, ap, ◌∙◌, subst, List, [], ◌∷◌, u64, u16_max,
  u64_max, arith,
}
use ssdfs_tools.LebToPeb.{Layout, Tables, LebPlace, PebContent, peb_desc_per_stripe}
use ssdfs_tools.LebToPeb.Place.{IsPlace, place_unique}
use ssdfs_tools.LebToPeb.Step.{Target, pebs_of}
use ssdfs_tools.LebToPeb.Written.{
  physical, start_at, after, here, kept, physical_after, physical_here, start_after,
}

-- The PEB that a physical index of a portion names.
abbrev pub named_peb : Tables → (fragment portion index : ℕ) → ℕ
named_peb tables f p n =
    u64 (start_at tables f p (n / peb_desc_per_stripe) + n % peb_desc_per_stripe)

-- The tables translate a LEB to a PEB.
pub record Translates (layout : Layout) (tables : Tables) (leb_id peb_id : ℕ) : Type 0 where
  pub place : LebPlace
  pub is_place : IsPlace layout leb_id place
  pub named :
      physical tables place.fragment_index place.portion_index place.mempage_index
        place.leb_desc_index
      ≢ u16_max
  pub peb :
      peb_id
      ≡ named_peb tables place.fragment_index place.portion_index (
          physical tables place.fragment_index place.portion_index place.mempage_index
            place.leb_desc_index)

-- A LEB is translated to one PEB at most.
pub Translates-unique :
    {layout : Layout} {tables : Tables} {leb_id : ℕ} (p q : ℕ)
    → Translates layout tables leb_id p
    → Translates layout tables leb_id q
    → p ≡ q
Translates-unique {layout} {tables} {leb_id} p q one other =
    let same = place_unique layout leb_id one.place other.place one.is_place other.is_place in
    let peb_of : ℕ → ℕ → ℕ → ℕ → ℕ = λ f p g i. named_peb tables f p (physical tables f p g i) in
    let equal : peb_of one.place.fragment_index one.place.portion_index one.place.mempage_index
          one.place.leb_desc_index
        ≡ peb_of other.place.fragment_index other.place.portion_index other.place.mempage_index
            other.place.leb_desc_index =
      rw (same.0, same.1, same.2, same.3) refl in
    one.peb ∙ equal ∙ sym other.peb

abbrev pub NotAmong : ℕ → List PebContent → Type 0
NotAmong leb_id [] = Unit {0}
NotAmong leb_id (x ∷ xs) = (leb_id ≢ x.leb_id) × NotAmong leb_id xs

-- The LEBs of a segment that are set: below 2^32, and different.
abbrev pub AreLebs : List PebContent → Type 0
AreLebs [] = Unit {0}
AreLebs (x ∷ xs) = (x.leb_id ≢ u64_max → (x.leb_id < 2 ^ 32) × NotAmong x.leb_id xs) × AreLebs xs

abbrev pub AllTranslate : Layout → Tables → List PebContent → Type 0
AllTranslate layout tables [] = Unit {0}
AllTranslate layout tables (x ∷ xs) =
    (x.leb_id ≢ u64_max → Translates layout tables x.leb_id x.peb_id)
    × AllTranslate layout tables xs

named_peb-after :
    {layout : Layout} {tables : Tables} {leb_id : ℕ} (t : Target layout tables leb_id)
    (k meta_index f p n : ℕ)
    → named_peb (after t k meta_index) f p n ≡ named_peb tables f p n
named_peb-after t k meta_index f p n =
    ap (λ a. u64 (a + n % peb_desc_per_stripe))
      (start_after t k meta_index f p (n / peb_desc_per_stripe))

module _ (layout : Layout) (tables : Tables) (leb_id meta_index : ℕ)
    (t : Target layout tables leb_id) (k : ℕ) where
  abbrev index : ℕ
  index = peb_desc_per_stripe * t.stripe + k

  pub after-Translates :
      k < peb_desc_per_stripe
      → index < u16_max
      → Translates layout (after t k meta_index) leb_id (u64 ((pebs_of t).start_peb + k))
  after-Translates few small =
      let stripe : index / peb_desc_per_stripe ≡ t.stripe = omega (arith, few) in
      let item : index % peb_desc_per_stripe ≡ k = omega (arith, few) in
      let written = physical_here t k meta_index in
      record {
        place = t.place;
        is_place = t.is_place;
        named = λ max. absurd (omega (arith, max, written, small));
        peb = sym (
            ap (named_peb (after t k meta_index) t.place.fragment_index t.place.portion_index)
              written
            ∙ named_peb-after t k meta_index t.place.fragment_index t.place.portion_index index
            ∙ ap
                (λ a. u64 (
                  start_at tables t.place.fragment_index t.place.portion_index a
                  + index % peb_desc_per_stripe))
                stripe
            ∙ ap (λ a. u64 ((pebs_of t).start_peb + a)) item);
      }

  pub other-Translates :
      (l peb_id : ℕ)
      → l ≢ leb_id
      → Translates layout tables l peb_id
      → Translates layout (after t k meta_index) l peb_id
  other-Translates l peb_id differs old =
      elim (physical_after t k meta_index old.place.fragment_index old.place.portion_index
        old.place.mempage_index old.place.leb_desc_index) [
          | here y z w x e ↦
              absurd (differs (cc (y, z, w, x, old.is_place.names_leb, t.is_place.names_leb)))
          | kept e ↦ record {
            place = old.place;
            is_place = old.is_place;
            named = subst (λ n. n ≢ u16_max) (sym e) old.named;
            peb =
                old.peb
                ∙ sym (
                    ap
                      (named_peb (after t k meta_index) old.place.fragment_index
                        old.place.portion_index)
                      e
                    ∙ named_peb-after t k meta_index old.place.fragment_index
                        old.place.portion_index _);
          }
        ]
