-- ===== src/LebToPeb/Stripe.antt =====
-- The stripe that the PEB of a LEB is taken from.
use native.Mathlib.Nat.{div-eq_of_lt, mod-lt, div-lt_iff_lt-mul, lt-div-mul-add}
use ssdfs_tools.Prelude.{
  ℕ, ◌+◌, ◌-◌, ◌*◌, ◌/◌, ◌%◌, ◌^◌, ◌<◌, ◌≤◌, ◌≡◌, ◌≢◌, refl, ltb, leb, ◌==◌, Bool-cases, inl, inr,
  u16, u32, u16_max, sub_u64, Ensures, Ensures-ok, arith,
}
use ssdfs_tools.LebToPeb.{Layout, LebPage, peb_desc_per_stripe, get_stripe_index}

-- pebs_per_seg of get_stripe_index
abbrev pub segment_pebs : Layout → ℕ
segment_pebs layout = u32 (layout.seg_size / layout.erase_size)

pub record IsStripe (layout : Layout) (hdr : LebPage) (leb_id stripe : ℕ) : Type 0 where
  pub fits : stripe < 2 ^ 16
  pub inside : 1 < layout.stripes_per_portion → stripe < layout.stripes_per_portion
  pub first :
      layout.stripes_per_portion ≢ 1 → segment_pebs layout ≤ layout.stripes_per_portion → stripe ≡ 0
  pub only :
      layout.stripes_per_portion ≡ 1
      → stripe ≡ u16 (sub_u64 leb_id hdr.start_leb / peb_desc_per_stripe)

module _ (layout : Layout) (hdr : LebPage) (leb_id : ℕ)
    (stripes_small : layout.stripes_per_portion < 2 ^ 16)
    (seg_small : segment_pebs layout < 2 ^ 31) where
  abbrev stripes : ℕ
  stripes = layout.stripes_per_portion

  abbrev stripe_share : ℕ
  stripe_share = u32 (segment_pebs layout + stripes - 1) / stripes

  stripe_share_reaches : 0 < stripes → segment_pebs layout ≤ stripes * stripe_share
  stripe_share_reaches some =
      let sum : u32 (segment_pebs layout + stripes - 1) ≡ segment_pebs layout + stripes - 1 =
        omega (arith, stripes_small, seg_small) in
      let above : u32 (segment_pebs layout + stripes - 1) < stripe_share * stripes + stripes =
        lt-div-mul-add some in
      let turn : stripe_share * stripes ≡ stripes * stripe_share = omega arith in
      omega (arith, sum, above, turn)

  shared :
      0 < segment_pebs layout
      → 0 < stripes
      → 0 < stripe_share
      → leb_id % segment_pebs layout / stripe_share < stripes
  shared pebs some parts =
      let below : leb_id % segment_pebs layout < segment_pebs layout = mod-lt leb_id pebs in
      (div-lt_iff_lt-mul parts).1 (omega (arith, below, stripe_share_reaches some))

  -- The stripe that get_stripe_index comes to: it is below the count of the stripes if that is not
  -- one. Where there is one, the LEBs of the page are counted in portions of 476. Where a segment
  -- has no more PEBs than a portion has stripes, and those are not one, it is always the first
  -- stripe. Stripes are fewer than 2^16, and the PEBs of a segment than 2^31.
  pub get_stripe_index-IsStripe :
      Ensures (IsStripe layout hdr leb_id) (get_stripe_index layout hdr leb_id)
  unfolding get_stripe_index
  get_stripe_index-IsStripe = elim (Bool-cases (layout.erase_size == 0)) [
    | inl aborts ↦ rw aborts λ a e. absurd (cc e)
    | inr erases ↦ rw erases (elim (Bool-cases (segment_pebs layout == 0)) [
      | inl aborts ↦ rw aborts λ a e. absurd (cc e)
      | inr pebs ↦ rw pebs (elim (Bool-cases (stripes == 1)) [
        | inl one ↦ rw one (
            Ensures-ok _ _ (record {
              fits = omega arith;
              inside = λ h. absurd (ground (arith, one, h));
              first = λ n _. absurd (n (ground (arith, one)));
              only = λ _. refl;
            }))
        | inr several ↦ rw several (elim (Bool-cases (ltb stripes (segment_pebs layout))) [
          | inl more ↦ rw more (elim (Bool-cases (stripes == 0)) [
            | inl aborts ↦ rw aborts λ a e. absurd (cc e)
            | inr some ↦ rw some (elim (Bool-cases (stripe_share == 0)) [
              | inl aborts ↦ rw aborts λ a e. absurd (cc e)
              | inr parts ↦
                  rw parts
                    (elim (Bool-cases (leb u16_max (leb_id % segment_pebs layout / stripe_share))) [
                      | inl aborts ↦ rw aborts λ a e. absurd (cc e)
                      | inr small ↦ rw small (
                          let m =
                            shared (ground (arith, pebs)) (ground (arith, some))
                              (ground (arith, parts)) in
                          Ensures-ok _ _ (record {
                            fits = omega (arith, m, stripes_small);
                            inside = λ h. m;
                            first = λ n h. absurd (ground (arith, more, h));
                            only = λ h. absurd (ground (arith, several, h));
                          }))
                    ])
            ])
          ])
          | inr fewer ↦ rw fewer (elim (Bool-cases (leb u16_max (segment_pebs layout))) [
            | inl aborts ↦ rw aborts λ a e. absurd (cc e)
            | inr small ↦ rw small (
                let m : leb_id % segment_pebs layout < segment_pebs layout =
                  mod-lt leb_id (ground (arith, pebs)) in
                let z : leb_id % segment_pebs layout / segment_pebs layout ≡ 0 = div-eq_of_lt m in
                Ensures-ok _ _ (record {
                  fits = omega (arith, z);
                  inside = λ h. omega (arith, z, h);
                  first = λ n h. z;
                  only = λ h. absurd (ground (arith, several, h));
                }))
          ])
        ])
      ])
    ])
  ]
