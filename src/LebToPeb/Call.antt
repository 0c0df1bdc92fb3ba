-- ===== src/LebToPeb/Call.antt =====
-- map_leb2peb comes to the result that Step describes.
use ssdfs_tools.Prelude.{
  ℕ, ◌+◌, ◌^◌, ◌<◌, ◌≡◌, refl, subst, false, not, ltb, leb, ◌==◌, Bool-cases, if◌then◌else◌, inl,
  inr, u64, u16_max, u64_max, Outcome, ok, ◌>>=◌, Ensures, Ensures-ok, Ensures-bind, arith,
}
use ssdfs_tools.LebToPeb.{
  Layout, LebPage, Tables, put_portion, put_pages, get_lebtbl_fragment, get_stripe_index,
  find_unused_peb, define_peb_as_used, define_peb_index_in_portion, define_leb_as_mapped,
  map_leb2peb,
}
use ssdfs_tools.LebToPeb.Unused.{AllUsed, full, room, find_unused_peb-IsSearched}
use ssdfs_tools.LebToPeb.Place.{get_lebtbl_fragment-IsPlace}
use ssdfs_tools.LebToPeb.Stripe.{get_stripe_index-IsStripe}
use ssdfs_tools.LebToPeb.Step.{
  used_eq, mapped_eq, index_eq, IsLayout, PebsFit, Target, portion_of, pebs_of, lebs_of, Answer,
  none_left, mapped,
}

module _ (layout : Layout) (tables : Tables) (leb_id meta_index : ℕ) (layout_ok : IsLayout layout)
    (leb_small : leb_id < 2 ^ 32) (fit : PebsFit tables) where
  module _ (t : Target layout tables leb_id) where
    -- The part of the call behind the search.
    abbrev take : ℕ → Outcome (ℕ × Tables)
    take k = do
      pebtbl' ← define_peb_as_used (pebs_of t) k meta_index
      physical_index ← define_peb_index_in_portion t.stripe k
      lebtbl' ← define_leb_as_mapped (lebs_of t) t.place.leb_desc_index physical_index
      ok (
        u64 ((pebs_of t).start_peb + k),
        put_portion tables t.place.fragment_index t.place.portion_index
            (put_pages (portion_of t) t.place.mempage_index t.stripe lebtbl' pebtbl'),
      )

    take_answer :
        (k : ℕ)
        → k < (pebs_of t).pebs_count
        → (pebs_of t).used k ≡ false
        → AllUsed (pebs_of t).used k
        → Ensures (Answer layout tables leb_id meta_index) (take k)
    take_answer k inside unused below =
        let few = fit t.place.fragment_index t.place.portion_index t.stripe in
        let stripe = t.is_stripe.fits in
        Ensures-bind _ (define_peb_as_used (pebs_of t) k meta_index) _ λ pebtbl' u.
          Ensures-bind _ (define_peb_index_in_portion t.stripe k) _ λ physical i.
            Ensures-bind _ (define_leb_as_mapped (lebs_of t) t.place.leb_desc_index physical) _
              λ lebtbl' m.
                let used = used_eq (pebs_of t) k meta_index pebtbl' u in
                let index = index_eq t.stripe k stripe (omega (arith, few, inside)) physical i in
                let page = mapped_eq (lebs_of t) t.place.leb_desc_index physical lebtbl' m in
                Ensures-ok _ _ (
                  mapped t k inside unused below refl (subst (λ n. n < u16_max) index.0 index.1)
                    (rw (used, page, index.0) refl))

    found : Ensures (Answer layout tables leb_id meta_index) (
        if find_unused_peb (pebs_of t) == u16_max
        then ok (u64_max, tables)
        else take (find_unused_peb (pebs_of t)))
    found =
        let few = fit t.place.fragment_index t.place.portion_index t.stripe in
        elim (find_unused_peb-IsSearched (pebs_of t) (omega (arith, few))) [
          | full is_max all ↦ rw is_max (Ensures-ok _ _ (none_left t all refl refl))
          | room inside unused below ↦
              let n : (find_unused_peb (pebs_of t) == u16_max) ≡ false =
                ground (arith, few, inside) in
              rw n (take_answer (find_unused_peb (pebs_of t)) inside unused below)
        ]

  -- A call of map_leb2peb that returns, where the LEB is below 2^32, the numbers of the layout fit
  -- their types, and the pages of PEBs have at most 476 each. Either every PEB of the LEB's stripe
  -- is marked as used, the call returns U64_MAX and changes nothing; or it returns the first PEB
  -- of the stripe that is not, marks it, has the descriptor of the LEB point at it, counts one
  -- more mapped LEB, and changes nothing else.
  pub map_leb2peb-Answer :
      Ensures (Answer layout tables leb_id meta_index) (map_leb2peb layout tables leb_id meta_index)
  unfolding map_leb2peb
  map_leb2peb-Answer = Ensures-bind _ (get_lebtbl_fragment layout leb_id) _ λ place p.
      let is_place =
        get_lebtbl_fragment-IsPlace layout leb_id layout_ok.lebs leb_small layout_ok.fragment place
          p in
      let lebtbl : LebPage =
        (tables place.fragment_index place.portion_index).lebs place.mempage_index in
      elim (Bool-cases (not (lebtbl.magic == 0x4C74))) [
        | inl aborts ↦ rw aborts λ a e. absurd (cc e)
        | inr a ↦ rw a (elim (Bool-cases (ltb leb_id lebtbl.start_leb)) [
          | inl aborts ↦ rw aborts λ a e. absurd (cc e)
          | inr b ↦
              rw b (elim (Bool-cases (leb (u64 (lebtbl.start_leb + lebtbl.lebs_count)) leb_id)) [
                | inl aborts ↦ rw aborts λ a e. absurd (cc e)
                | inr c ↦ rw c (
                    Ensures-bind _ (get_stripe_index layout lebtbl leb_id) _ λ stripe q.
                      let is_stripe =
                        get_stripe_index-IsStripe layout lebtbl leb_id layout_ok.stripes
                          layout_ok.segment stripe q in
                      let t : Target layout tables leb_id = record {
                        place = place;
                        stripe = stripe;
                        is_place = is_place;
                        is_stripe = is_stripe;
                      } in
                      elim (Bool-cases (not ((pebs_of t).magic == 0x5074))) [
                        | inl aborts ↦ rw aborts λ a e. absurd (cc e)
                        | inr d ↦ rw d (found t)
                      ])
              ])
        ])
      ]
