-- ===== src/LebToPeb/Place.antt =====
-- Where the descriptor of a LEB stands, and the stripe that its PEB is taken from.
use native.Mathlib.Nat.{div-le_self, div-add-mod', div-eq_of_lt-le, mod-lt}
use ssdfs_tools.Prelude.{
  ℕ, ◌+◌, ◌*◌, ◌/◌, ◌%◌, ◌^◌, ◌<◌, ◌≤◌, ◌≡◌, refl, sym, ap, ◌∙◌, false, leb, ◌==◌, Bool-cases, inl,
  inr, u32, sub_u64, Ensures, Ensures-ok, arith,
}
use ssdfs_tools.LebToPeb.{Layout, LebPlace, leb_desc_per_mempage, get_lebtbl_fragment}

-- The place of a LEB: inside the fragments, the portions and the pages of the table, at a
-- descriptor that is one of its portion, behind as many descriptors as there are LEBs before it.
pub record IsPlace (layout : Layout) (leb_id : ℕ) (place : LebPlace) : Type 0 where
  pub fragment : place.fragment_index < layout.maptbl_pebs
  pub portion : place.portion_index < layout.portions_per_fragment
  pub desc : place.leb_desc_index < leb_desc_per_mempage
  pub page : place.mempage_index < layout.lebtbl_portion_bytes / layout.page_size
  pub within :
      place.mempage_index * leb_desc_per_mempage + place.leb_desc_index < layout.lebs_per_portion
  pub names_leb :
      (place.fragment_index * layout.portions_per_fragment + place.portion_index)
          * layout.lebs_per_portion
        + place.mempage_index * leb_desc_per_mempage
        + place.leb_desc_index
      ≡ leb_id

-- A sum of multiples and of what is less than one of them has only these parts.
digits : (n a b x y : ℕ) → x < n → y < n → a * n + x ≡ b * n + y → (a ≡ b) × (x ≡ y)
digits n a b x y few less same =
    let next_a : (a + 1) * n ≡ a * n + n = omega arith in
    let next_b : (b + 1) * n ≡ b * n + n = omega arith in
    let one : (a * n + x) / n ≡ a = div-eq_of_lt-le n (omega arith) (omega (arith, next_a, few)) in
    let other : (a * n + x) / n ≡ b =
      div-eq_of_lt-le n (omega (arith, same)) (omega (arith, next_b, less, same)) in
    let e : a ≡ b = sym one ∙ other in
    let product : a * n ≡ b * n = ap (λ c. c * n) e in (e, omega (arith, product, same))

-- A LEB has one place.
pub place_unique :
    (layout : Layout) (leb_id : ℕ) (p q : LebPlace)
    → IsPlace layout leb_id p
    → IsPlace layout leb_id q
    → (p.fragment_index ≡ q.fragment_index)
      × (p.portion_index ≡ q.portion_index)
      × (p.mempage_index ≡ q.mempage_index)
      × (p.leb_desc_index ≡ q.leb_desc_index)
place_unique layout leb_id p q h k =
    let h_within = h.within in
    let k_within = k.within in
    let h_desc = h.desc in
    let k_desc = k.desc in
    let h_names = h.names_leb in
    let k_names = k.names_leb in
    let outer =
      digits layout.lebs_per_portion
        (p.fragment_index * layout.portions_per_fragment + p.portion_index)
        (q.fragment_index * layout.portions_per_fragment + q.portion_index)
        (p.mempage_index * leb_desc_per_mempage + p.leb_desc_index)
        (q.mempage_index * leb_desc_per_mempage + q.leb_desc_index) h_within k_within
        (omega (arith, h_names, k_names)) in
    let portions =
      digits layout.portions_per_fragment p.fragment_index q.fragment_index p.portion_index
        q.portion_index h.portion k.portion outer.0 in
    let pages =
      digits leb_desc_per_mempage p.mempage_index q.mempage_index p.leb_desc_index q.leb_desc_index
        h_desc k_desc outer.1 in
    (portions.0, portions.1, pages.0, pages.1)

module _ (layout : Layout) (leb_id : ℕ) (lebs_small : layout.lebs_per_portion < 2 ^ 16)
    (leb_small : leb_id < 2 ^ 32)
    (small : layout.lebs_per_portion * layout.portions_per_fragment < 2 ^ 32) where
  abbrev per_fragment : ℕ
  per_fragment = layout.lebs_per_portion * layout.portions_per_fragment

  abbrev lebs : ℕ
  lebs = layout.lebs_per_portion

  -- The numbers of get_lebtbl_fragment, as it computes them.
  abbrev fragment_of : ℕ
  fragment_of = u32 (leb_id / u32 per_fragment)

  abbrev in_fragment : ℕ
  in_fragment = sub_u64 leb_id (u32 (fragment_of * u32 per_fragment))

  abbrev portion_of : ℕ
  portion_of = u32 (in_fragment / lebs)

  abbrev in_portion : ℕ
  in_portion = sub_u64 in_fragment (u32 (portion_of * lebs))

  same_size : u32 per_fragment ≡ per_fragment
  same_size = omega (arith, small)

  fragment_eq : fragment_of ≡ leb_id / per_fragment
  fragment_eq =
      let less : leb_id / per_fragment ≤ leb_id = div-le_self leb_id per_fragment in
      ap (λ n. u32 (leb_id / n)) same_size ∙ omega (arith, less, leb_small)

  in_fragment_eq : in_fragment ≡ leb_id % per_fragment
  in_fragment_eq =
      let whole = div-add-mod' leb_id per_fragment in
      let same : fragment_of * u32 per_fragment ≡ leb_id / per_fragment * per_fragment =
        rw (fragment_eq, same_size) refl in
      omega (arith, whole, same, leb_small)

  portion_eq : portion_of ≡ in_fragment / lebs
  portion_eq =
      let less : in_fragment / lebs ≤ in_fragment = div-le_self in_fragment lebs in
      let whole = div-add-mod' leb_id per_fragment in
      omega (arith, less, in_fragment_eq, whole, leb_small)

  in_portion_eq : in_portion ≡ in_fragment % lebs
  in_portion_eq =
      let whole = div-add-mod' in_fragment lebs in
      let same : portion_of * lebs ≡ in_fragment / lebs * lebs = ap (λ n. n * lebs) portion_eq in
      let outer = div-add-mod' leb_id per_fragment in
      omega (arith, whole, same, in_fragment_eq, outer, leb_small)

  page_eq : u32 (in_portion / leb_desc_per_mempage) ≡ in_portion / leb_desc_per_mempage
  page_eq =
      let whole = div-add-mod' in_fragment lebs in
      let outer = div-add-mod' leb_id per_fragment in
      omega (arith, whole, in_portion_eq, in_fragment_eq, outer, leb_small)

  leb_of_place :
      (fragment_of * layout.portions_per_fragment + portion_of) * lebs
        + u32 (in_portion / leb_desc_per_mempage) * leb_desc_per_mempage
        + in_portion % leb_desc_per_mempage
      ≡ leb_id
  leb_of_place =
      let whole = div-add-mod' leb_id per_fragment in
      let inner = div-add-mod' in_fragment lebs in
      let page = div-add-mod' in_portion leb_desc_per_mempage in
      let first : fragment_of * per_fragment ≡ leb_id / per_fragment * per_fragment =
        ap (λ n. n * per_fragment) fragment_eq in
      let second : portion_of * lebs ≡ in_fragment / lebs * lebs = ap (λ n. n * lebs) portion_eq in
      let parts : (fragment_of * layout.portions_per_fragment + portion_of) * lebs
          ≡ fragment_of * per_fragment + portion_of * lebs =
        grind arith in
      omega
        (arith, whole, inner, page, first, second, parts, page_eq, in_portion_eq, in_fragment_eq)

  in_portion_small : (u32 per_fragment == 0) ≡ false → in_portion < lebs
  in_portion_small some = elim (Bool-cases (lebs == 0)) [
    | inl z ↦
        let none : lebs ≡ 0 = ground (arith, z) in
        let nothing : per_fragment ≡ 0 =
          ap (λ n. n * layout.portions_per_fragment) none ∙ omega arith in
        absurd (ground (arith, some, nothing, same_size))
    | inr n ↦
        let pos : 0 < lebs = ground (arith, n) in
        let below : in_fragment % lebs < lebs = mod-lt in_fragment pos in
        omega (arith, below, in_portion_eq)
  ]

  within_of :
      (u32 per_fragment == 0) ≡ false
      → u32 (in_portion / leb_desc_per_mempage) * leb_desc_per_mempage
          + in_portion % leb_desc_per_mempage
        < lebs
  within_of some =
      let below = in_portion_small some in
      let page = div-add-mod' in_portion leb_desc_per_mempage in omega (arith, below, page, page_eq)

  -- The place that get_lebtbl_fragment comes to, when it returns, is that of the LEB: it is
  -- inside the fragments, the portions and the pages of the table, its descriptor is one of the
  -- LEBs of its portion, and the number of the LEB is that of the LEBs before it. LEBs are below
  -- 2^32, and so are those of a fragment; a portion has fewer than 2^16.
  pub get_lebtbl_fragment-IsPlace :
      Ensures (IsPlace layout leb_id) (get_lebtbl_fragment layout leb_id)
  unfolding get_lebtbl_fragment
  get_lebtbl_fragment-IsPlace = elim (Bool-cases (u32 per_fragment == 0)) [
    | inl aborts ↦ rw aborts λ a e. absurd (cc e)
    | inr some ↦ rw some (elim (Bool-cases (leb layout.maptbl_pebs fragment_of)) [
      | inl aborts ↦ rw aborts λ a e. absurd (cc e)
      | inr fragment ↦
          rw fragment (elim (Bool-cases (leb layout.portions_per_fragment portion_of)) [
            | inl aborts ↦ rw aborts λ a e. absurd (cc e)
            | inr portion ↦ rw portion (elim (Bool-cases (layout.page_size == 0)) [
              | inl aborts ↦ rw aborts λ a e. absurd (cc e)
              | inr pages ↦
                  rw pages
                    (elim (Bool-cases (
                      leb (layout.lebtbl_portion_bytes / layout.page_size)
                        (u32 (in_portion / leb_desc_per_mempage)))) [
                          | inl aborts ↦ rw aborts λ a e. absurd (cc e)
                          | inr page ↦ rw page (
                              Ensures-ok _ _ (record {
                                fragment = ground (arith, fragment);
                                portion = ground (arith, portion);
                                desc = omega arith;
                                page = ground (arith, page);
                                within = within_of some;
                                names_leb = leb_of_place;
                              }))
                        ])
            ])
          ])
    ])
  ]
