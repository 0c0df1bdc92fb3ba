-- ===== src/LebToPeb/Segment.antt =====
-- map_segment_lebs2pebs: behind the call the tables translate the LEBs of the segment.
use ssdfs_tools.Prelude.{
  ℕ, ◌^◌, ◌<◌, ◌≡◌, ◌≢◌, refl, sym, ap, subst, List, [], ◌∷◌, map, ◌==◌, Bool-cases, inl, inr,
  u64_max, ok, Ensures, Ensures-ok, Ensures-bind, arith,
}
use ssdfs_tools.MaptblCache.{Cache, cache_leb2peb_pair}
use ssdfs_tools.LebToPeb.{Layout, Tables, PebContent, Mapping, map_leb2peb, map_segment_lebs2pebs}
use ssdfs_tools.LebToPeb.Step.{IsLayout, none_left, mapped}
use ssdfs_tools.LebToPeb.Call.{map_leb2peb-Answer}
use ssdfs_tools.LebToPeb.Injective.{IsInjective, map_leb2peb-IsInjective}
use ssdfs_tools.LebToPeb.Translate.{
  Translates, NotAmong, AreLebs, AllTranslate, Translates-unique, after-Translates,
  other-Translates,
}

abbrev pub leb_ids : List PebContent → List ℕ
leb_ids pebs = map (λ (x : PebContent). x.leb_id) pebs

-- What holds behind a call for the PEBs of a list.
pub record IsMapped (layout : Layout) (tables : Tables) (pebs : List PebContent) (m : Mapping)
    : Type 0 where
  pub injective : IsInjective m.tables
  pub keeps :
      (l p : ℕ) → NotAmong l pebs → Translates layout tables l p → Translates layout m.tables l p
  pub translates : AllTranslate layout m.tables m.pebs
  pub unique : (l p q : ℕ) → Translates layout m.tables l p → Translates layout m.tables l q → p ≡ q
  pub same_lebs : leb_ids m.pebs ≡ leb_ids pebs

module _ (layout : Layout) (layout_ok : IsLayout layout) where
  -- One mapping that has found a PEB.
  record IsOne (tables : Tables) (leb_id peb_id : ℕ) (tables' : Tables) : Type 0 where
    injective : IsInjective tables'
    keeps : (l p : ℕ) → l ≢ leb_id → Translates layout tables l p → Translates layout tables' l p
    translates : Translates layout tables' leb_id peb_id

  module _ (tables : Tables) (leb_id meta_index : ℕ) (leb_small : leb_id < 2 ^ 32)
      (inv : IsInjective tables) where
    map_leb2peb-IsOne :
        (r : ℕ × Tables)
        → map_leb2peb layout tables leb_id meta_index ≡ ok r
        → r.0 ≢ u64_max
        → IsOne tables leb_id r.0 r.1
    map_leb2peb-IsOne r e got =
        let next =
          map_leb2peb-IsInjective layout tables leb_id meta_index layout_ok leb_small inv r e in
        elim (map_leb2peb-Answer layout tables leb_id meta_index layout_ok leb_small inv.fit r e) [
          | none_left t all p q ↦ absurd (got p)
          | mapped t k inside unused below p small q ↦
              let bound = inv.fit t.place.fragment_index t.place.portion_index t.stripe in
              record {
                injective = next;
                keeps = λ l x differs old.
                    subst (λ a. Translates layout a l x) (sym q)
                      (other-Translates layout tables leb_id meta_index t k l x differs old);
                translates =
                    subst (λ a. Translates layout a leb_id r.0) (sym q)
                      (subst (Translates layout _ leb_id) (sym p) (
                        after-Translates layout tables leb_id meta_index t k
                          (omega (arith, bound, inside)) small));
              }
        ]

  -- map_segment_lebs2pebs, when it returns, has mapped the segment: it has set `peb_id` of each
  -- LEB that is not U64_MAX to the PEB that the tables then translate that LEB to, which is one
  -- PEB, by the descriptor at the only place of the LEB, and the LEBs are those of before. LEBs
  -- that are not of the segment are translated as before, and no physical index is in two
  -- descriptors of a portion. Before the call the latter holds too, with every PEB that a
  -- descriptor names marked as used and at most 476 PEBs in a page; the LEBs are different, and
  -- below 2^32; the numbers of the layout fit their types.
  pub map_segment_lebs2pebs-IsMapped :
      (seg_type : ℕ) (pebs : List PebContent) (tables : Tables) (cache : Cache)
      → IsInjective tables
      → AreLebs pebs
      → Ensures
          (IsMapped layout tables pebs)
          (map_segment_lebs2pebs layout seg_type tables cache pebs)
  unfolding map_segment_lebs2pebs
  map_segment_lebs2pebs-IsMapped seg_type [] tables cache inv lebs = Ensures-ok _ _ (record {
    injective = inv;
    keeps = λ l p _ h. h;
    translates = tt;
    unique = λ l p q. Translates-unique p q;
    same_lebs = refl;
  })
  map_segment_lebs2pebs-IsMapped seg_type (x ∷ xs) tables cache inv lebs =
      elim (Bool-cases (x.leb_id == u64_max)) [
        | inl y ↦
            rw (y, map_segment_lebs2pebs)
              (Ensures-bind _ (map_segment_lebs2pebs layout seg_type tables cache xs) _ λ rest e.
                let m = map_segment_lebs2pebs-IsMapped seg_type xs tables cache inv lebs.1 rest e in
                Ensures-ok _ _ (record {
                  injective = m.injective;
                  keeps = λ l p h. m.keeps l p h.1;
                  translates = (λ set. absurd (set (ground (arith, y))), m.translates);
                  unique = m.unique;
                  same_lebs = ap (λ l. x.leb_id ∷ l) m.same_lebs;
                }))
        | inr n ↦
            let set : x.leb_id ≢ u64_max = ground (arith, n) in
            rw (n, map_segment_lebs2pebs)
              (Ensures-bind _ (map_leb2peb layout tables x.leb_id seg_type) _ λ r e.
                elim (Bool-cases (r.0 == u64_max)) [
                  | inl z ↦ rw z λ a p. absurd (cc p)
                  | inr got ↦ rw got (
                      Ensures-bind _ (cache_leb2peb_pair cache x.leb_id r.0) _ λ cache' c.
                        Ensures-bind _ (map_segment_lebs2pebs layout seg_type r.1 cache' xs) _
                          λ rest f.
                            let one =
                              map_leb2peb-IsOne tables x.leb_id seg_type (lebs.0 set).0 inv r e
                                (ground (arith, got)) in
                            let m =
                              map_segment_lebs2pebs-IsMapped seg_type xs r.1 cache' one.injective
                                lebs.1 rest f in
                            Ensures-ok _ _ (record {
                              injective = m.injective;
                              keeps = λ l p h old. m.keeps l p h.1 (one.keeps l p h.0 old);
                              translates = (
                                λ _. m.keeps x.leb_id r.0 (lebs.0 set).1 one.translates,
                                m.translates,
                              );
                              unique = m.unique;
                              same_lebs = ap (λ l. x.leb_id ∷ l) m.same_lebs;
                            }))
                ])
      ]
