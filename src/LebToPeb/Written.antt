-- ===== src/LebToPeb/Written.antt =====
-- What the tables hold behind a mapping: the PEBs that are marked, and the index of each LEB.
use ssdfs_tools.Prelude.{
  ℕ, ◌+◌, ◌*◌, ◌≡◌, ◌≢◌, refl, sym, ap, ◌∙◌, Bool, true, ◌==◌, Bool-cases, ◌⊎◌, inl, inr, u16_max,
  arith,
}
use ssdfs_tools.LebToPeb.{
  Layout, LebDesc, LebPage, PebPage, Portion, Tables, LebPlace, put, put_portion, put_pages,
  peb_desc_per_stripe,
}
use ssdfs_tools.LebToPeb.Step.{used_page, mapped_page, Target, portion_of, pebs_of, lebs_of}

-- The physical index of the LEB at a place of a portion.
abbrev pub physical : Tables → (fragment portion page desc : ℕ) → ℕ
physical tables f p g i = (((tables f p).lebs g).descs i).physical_index

-- Whether a PEB of a stripe is marked as used.
abbrev pub used_at : Tables → (fragment portion stripe item : ℕ) → Bool
used_at tables f p s k = ((tables f p).pebs s).used k

abbrev pub start_at : Tables → (fragment portion stripe : ℕ) → ℕ
start_at tables f p s = ((tables f p).pebs s).start_peb

abbrev pub count_at : Tables → (fragment portion stripe : ℕ) → ℕ
count_at tables f p s = ((tables f p).pebs s).pebs_count

module _ {ℓ} {A : Type ℓ} (f : ℕ → A) (i : ℕ) (a : A) where
  put_here : put f i a i ≡ a
  put_here = let y : (i == i) ≡ true = ground arith in rw y refl

  put_cases : (k : ℕ) → ((k ≡ i) × (put f i a k ≡ a)) ⊎ ((k ≢ i) × (put f i a k ≡ f k))
  put_cases k = elim (Bool-cases (k == i)) [
    | inl y ↦ inl (ground (arith, y), rw y refl)
    | inr n ↦ inr (ground (arith, n), rw n refl)
  ]

-- What a mapping changes.
module _ {layout : Layout} {tables : Tables} {leb_id : ℕ} (t : Target layout tables leb_id)
    (k meta_index : ℕ) where
  abbrev index : ℕ
  index = peb_desc_per_stripe * t.stripe + k

  abbrev pub after : Tables
  after = put_portion tables t.place.fragment_index t.place.portion_index (
      put_pages (portion_of t) t.place.mempage_index t.stripe
        (mapped_page (lebs_of t) t.place.leb_desc_index index) (used_page (pebs_of t) k meta_index))

  pub data IsKept (f p g i : ℕ) : Type 0 where
    here :
        f ≡ t.place.fragment_index
        → p ≡ t.place.portion_index
        → g ≡ t.place.mempage_index
        → i ≡ t.place.leb_desc_index
        → physical after f p g i ≡ index
        → IsKept f p g i
    kept : physical after f p g i ≡ physical tables f p g i → IsKept f p g i

  abbrev changed : Portion
  changed =
      put_pages (portion_of t) t.place.mempage_index t.stripe
        (mapped_page (lebs_of t) t.place.leb_desc_index index) (used_page (pebs_of t) k meta_index)

  data IsWritten (f p : ℕ) : Type 0 where
    it :
        f ≡ t.place.fragment_index → p ≡ t.place.portion_index → after f p ≡ changed → IsWritten f p
    other : after f p ≡ tables f p → IsWritten f p

  portion_after : (f p : ℕ) → IsWritten f p
  portion_after f p =
      let row : ℕ → Portion = put (tables t.place.fragment_index) t.place.portion_index changed in
      elim (put_cases tables t.place.fragment_index row f) [
        | inr (n, e) ↦ other (ap (λ (r : ℕ → Portion). r p) e)
        | inl (y, e) ↦
            elim (put_cases (tables t.place.fragment_index) t.place.portion_index changed p) [
              | inl (z, d) ↦ it y z (ap (λ (r : ℕ → Portion). r p) e ∙ d)
              | inr (n, d) ↦
                  other (ap (λ (r : ℕ → Portion). r p) e ∙ d ∙ ap (λ a. tables a p) (sym y))
            ]
      ]

  -- The pages of the portion that is written.
  changed_leb :
      (g i : ℕ)
      → (((g ≡ t.place.mempage_index)
            × (i ≡ t.place.leb_desc_index)
            × (((changed.lebs g).descs i).physical_index ≡ index))
          ⊎ (((changed.lebs g).descs i).physical_index
              ≡ (((portion_of t).lebs g).descs i).physical_index))
  changed_leb g i =
      elim (put_cases (portion_of t).lebs t.place.mempage_index
        (mapped_page (lebs_of t) t.place.leb_desc_index index) g) [
          | inr (n, e) ↦ inr (ap (λ (r : LebPage). (r.descs i).physical_index) e)
          | inl (y, e) ↦
              elim (put_cases (lebs_of t).descs t.place.leb_desc_index
                (record { physical_index = index; relation_index = u16_max }) i) [
                  | inl (z, d) ↦ inl (
                    y,
                    z,
                    ap (λ (r : LebPage). (r.descs i).physical_index) e
                        ∙ ap (λ (r : LebDesc). r.physical_index) d,
                  )
                  | inr (n, d) ↦ inr (
                      ap (λ (r : LebPage). (r.descs i).physical_index) e
                      ∙ ap (λ (r : LebDesc). r.physical_index) d
                      ∙ ap (λ a. (((portion_of t).lebs a).descs i).physical_index) (sym y))
                ]
        ]

  changed_peb :
      (s : ℕ)
      → (((s ≡ t.stripe) × (changed.pebs s ≡ used_page (pebs_of t) k meta_index))
          ⊎ (changed.pebs s ≡ (portion_of t).pebs s))
  changed_peb s =
      elim (put_cases (portion_of t).pebs t.stripe (used_page (pebs_of t) k meta_index) s) [
        | inl (y, e) ↦ inl (y, e)
        | inr (n, e) ↦ inr e
      ]

  changed_field :
      (get : PebPage → ℕ)
      → get (used_page (pebs_of t) k meta_index) ≡ get (pebs_of t)
      → (f p s : ℕ) → get ((after f p).pebs s) ≡ get ((tables f p).pebs s)
  changed_field get same f p s = elim (portion_after f p) [
    | other e ↦ ap (λ (r : Portion). get (r.pebs s)) e
    | it y z e ↦
        let there : get ((portion_of t).pebs s) ≡ get ((tables f p).pebs s) =
          ap (λ a. get ((tables a t.place.portion_index).pebs s)) (sym y)
          ∙ ap (λ a. get ((tables f a).pebs s)) (sym z) in
        ap (λ (r : Portion). get (r.pebs s)) e ∙ elim (changed_peb s) [
          | inl (w, d) ↦ ap get d ∙ same ∙ ap (λ a. get ((portion_of t).pebs a)) (sym w) ∙ there
          | inr d ↦ ap get d ∙ there
        ]
  ]

  pub start_after : (f p s : ℕ) → start_at after f p s ≡ start_at tables f p s
  start_after = changed_field (λ r. r.start_peb) refl

  pub count_after : (f p s : ℕ) → count_at after f p s ≡ count_at tables f p s
  count_after = changed_field (λ r. r.pebs_count) refl

  pub physical_after : (f p g i : ℕ) → IsKept f p g i
  physical_after f p g i = elim (portion_after f p) [
    | other e ↦ kept (ap (λ (r : Portion). ((r.lebs g).descs i).physical_index) e)
    | it y z e ↦
        let first : physical after f p g i ≡ ((changed.lebs g).descs i).physical_index =
          ap (λ (r : Portion). ((r.lebs g).descs i).physical_index) e in
        elim (changed_leb g i) [
          | inl (w, x, d) ↦ here y z w x (first ∙ d)
          | inr d ↦ kept (
              first
              ∙ d
              ∙ ap (λ a. physical tables a t.place.portion_index g i) (sym y)
              ∙ ap (λ a. physical tables f a g i) (sym z))
        ]
  ]

  used_there : (s j : ℕ) → ((portion_of t).pebs s).used j ≡ true → (changed.pebs s).used j ≡ true
  used_there s j h = elim (changed_peb s) [
    | inr d ↦ ap (λ (r : PebPage). r.used j) d ∙ h
    | inl (w, d) ↦ ap (λ (r : PebPage). r.used j) d ∙ elim (put_cases (pebs_of t).used k true j) [
      | inl (x, e) ↦ e
      | inr (x, e) ↦ e ∙ ap (λ a. ((portion_of t).pebs a).used j) (sym w) ∙ h
    ]
  ]

  pub used_after : (f p s j : ℕ) → used_at tables f p s j ≡ true → used_at after f p s j ≡ true
  used_after f p s j h = elim (portion_after f p) [
    | other e ↦ ap (λ (r : Portion). (r.pebs s).used j) e ∙ h
    | it y z e ↦
        ap (λ (r : Portion). (r.pebs s).used j) e
        ∙ used_there s j (
            ap (λ a. used_at tables a t.place.portion_index s j) (sym y)
            ∙ ap (λ a. used_at tables f a s j) (sym z)
            ∙ h)
  ]

  pub used_here :
      (f p : ℕ)
      → f ≡ t.place.fragment_index
      → p ≡ t.place.portion_index
      → used_at after f p t.stripe k ≡ true
  used_here f p y z =
      let row : ℕ → Portion = put (tables t.place.fragment_index) t.place.portion_index changed in
      ap (λ a. used_at after a p t.stripe k) y
      ∙ ap (λ (r : ℕ → Portion). ((r p).pebs t.stripe).used k)
          (put_here tables t.place.fragment_index row)
      ∙ ap (λ a. ((row a).pebs t.stripe).used k) z
      ∙ ap (λ (r : Portion). (r.pebs t.stripe).used k)
          (put_here (tables t.place.fragment_index) t.place.portion_index changed)
      ∙ ap (λ (r : PebPage). r.used k)
          (put_here (portion_of t).pebs t.stripe (used_page (pebs_of t) k meta_index))
      ∙ put_here (pebs_of t).used k true

  pub physical_here :
      physical after t.place.fragment_index t.place.portion_index t.place.mempage_index
        t.place.leb_desc_index
      ≡ index
  physical_here =
      let place : LebPlace = t.place in
      let row : ℕ → Portion = put (tables place.fragment_index) place.portion_index changed in
      let read : Portion → ℕ =
        λ r. ((r.lebs place.mempage_index).descs place.leb_desc_index).physical_index in
      ap (λ (r : ℕ → Portion). read (r place.portion_index))
        (put_here tables place.fragment_index row)
      ∙ ap read (put_here (tables place.fragment_index) place.portion_index changed)
      ∙ ap (λ (r : LebPage). (r.descs place.leb_desc_index).physical_index)
          (put_here (portion_of t).lebs place.mempage_index
            (mapped_page (lebs_of t) place.leb_desc_index index))
      ∙ ap (λ (r : LebDesc). r.physical_index)
          (put_here (lebs_of t).descs place.leb_desc_index
            (record { physical_index = index; relation_index = u16_max }))
