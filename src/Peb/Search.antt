-- ===== src/Peb/Search.antt =====
-- The PEBs that ssdfs_find_any_valid_peb looks at, and that it ends.
use ssdfs_tools.Prelude.{
  ℕ, zero, suc, ◌+◌, ◌^◌, ◌<◌, ◌≤◌, ◌≡◌, refl, sym, ap, ◌∙◌, ◌⊎◌, inl, inr, Bool, true, false,
  Bool-cases, ltb, if◌then◌else◌, subst, ◌==◌, Option, some, List, length, Outcome, ok, err,
  enodata, Errno, ◌>>=◌, arith,
}
use ssdfs_tools.Csum.{check_csum}
use ssdfs_tools.Csum.Valid.{Checkable, sum_of, is_csum_valid_iff}
use ssdfs_tools.Peb.{
  segment_header_size, has_magic, judge_header, check_header, search_pebs, ssdfs_find_any_valid_peb,
}
use ssdfs_tools.Peb.Places.{
  place, factor, place-grows, place_mono, header_offset-place, next_factor, next_offset,
}

-- A read of the device stores the bytes asked for, or fails.
abbrev pub Answers : ((offset size : ℕ) → Outcome (List ℕ)) → Type 0
Answers read =
    (offset size : ℕ)
    → ((bytes : List ℕ) × (read offset size ≡ ok bytes) × (length bytes ≡ size))
      ⊎ ((c : Errno) × (read offset size ≡ err c))

module _ (read : (offset size : ℕ) → Outcome (List ℕ)) (crc32 : ℕ → List ℕ → ℕ)
    (fs_size e : ℕ) where
  -- A segment header: its signature is that of the file system, and its checksum is right.
  abbrev pub IsHeader : List ℕ → Type 0
  IsHeader hdr =
      (has_magic hdr ≡ true)
      × Checkable 8 hdr segment_header_size
      × (check_csum 8 hdr ≡ sum_of crc32 8 hdr)

  abbrev pub HeaderAt : ℕ → List ℕ → Type 0
  HeaderAt k hdr = (read (place e k) segment_header_size ≡ ok hdr) × IsHeader hdr

  abbrev pub NoHeaderAt : ℕ → Type 0
  NoHeaderAt k =
      (bytes : List ℕ) × (read (place e k) segment_header_size ≡ ok bytes) × (¬ IsHeader bytes)

  -- The places that the search may look at: the first, and those on the volume.
  abbrev pub IsPlace : ℕ → Type 0
  IsPlace k = (k ≡ 0) ⊎ (place e k < fs_size)

  -- The first place with a header, and no failed read before it.
  pub record FirstHeader (result : Option (Outcome (List ℕ))) : Type 0 where
    pub index : ℕ
    pub hdr : List ℕ
    pub returns : result ≡ some (ok hdr)
    pub on_volume : IsPlace index
    pub is_header : HeaderAt index hdr
    pub none_before : (j : ℕ) → j < index → NoHeaderAt j

  -- A failed read, and no header before it.
  pub record FailedRead (result : Option (Outcome (List ℕ))) : Type 0 where
    pub index : ℕ
    pub code : Errno
    pub returns : result ≡ some (err code)
    pub on_volume : IsPlace index
    pub fails : read (place e index) segment_header_size ≡ err code
    pub none_before : (j : ℕ) → j < index → NoHeaderAt j

  -- No header at any place.
  abbrev pub Nowhere : Option (Outcome (List ℕ)) → Type 0
  Nowhere result = (result ≡ some (err enodata)) × ((k : ℕ) → IsPlace k → NoHeaderAt k)

  abbrev pub SearchEnd : Option (Outcome (List ℕ)) → Type 0
  SearchEnd result = FirstHeader result ⊎ (FailedRead result ⊎ Nowhere result)

  abbrev judge : List ℕ → Outcome (Bool × List ℕ)
  judge = judge_header read crc32 fs_size e

  abbrev check : ℕ → Outcome (Bool × List ℕ)
  check k = check_header read crc32 fs_size e (place e k)

  judge-cases :
      (hdr : List ℕ)
      → length hdr ≡ segment_header_size
      → (IsHeader hdr × (judge hdr ≡ ok (true, hdr)))
        ⊎ ((¬ IsHeader hdr) × (judge hdr ≡ ok (false, hdr)))
  unfolding judge_header
  judge-cases hdr size = elim (Bool-cases (has_magic hdr)) [
    | inl y ↦
        let v =
          is_csum_valid_iff crc32 8 hdr segment_header_size (omega (arith, size))
            (omega (arith, size)) in
        elim (Bool-cases v.0) [
          | inl t ↦ inl ((y, ((v.2).0 t).0, ((v.2).0 t).1), rw y (v.1 ∙ ap (λ b. ok (b, hdr)) t))
          | inr f ↦
              inr (
                λ h. absurd (cc (sym f ∙ (v.2).1 (h.1, h.2))),
                rw y (v.1 ∙ ap (λ b. ok (b, hdr)) f),
              )
        ]
    | inr n ↦ inr (λ h. absurd (cc (sym n ∙ h.0)), rw n refl)
  ]

  module _ (large : 1024 < e) where
    round-found :
        (fuel k : ℕ) (hdr : List ℕ)
        → check k ≡ ok (true, hdr)
        → search_pebs read crc32 fs_size e (suc fuel) (place e k) (factor k) ≡ some (ok hdr)
    unfolding search_pebs
    round-found fuel k hdr h = rw (h, search_pebs)

    round-failed :
        (fuel k : ℕ) (c : Errno)
        → check k ≡ err c
        → search_pebs read crc32 fs_size e (suc fuel) (place e k) (factor k) ≡ some (err c)
    unfolding search_pebs
    round-failed fuel k c h = rw (h, search_pebs)

    round-refuted :
        (fuel k : ℕ) (hdr : List ℕ)
        → place e k < 2 ^ 62
        → check k ≡ ok (false, hdr)
        → search_pebs read crc32 fs_size e (suc fuel) (place e k) (factor k) ≡ (
            if ltb (place e (suc k)) fs_size
            then search_pebs read crc32 fs_size e fuel (place e (suc k)) (factor (suc k))
            else some (err enodata))
    unfolding search_pebs
    round-refuted fuel k hdr small h =
        rw (h, search_pebs) (rw (next_factor e large k small, next_offset e large k small))

    module _ (answers : Answers read) where
      check-cases :
          (k : ℕ)
          → place e k < 2 ^ 62
          → ((hdr : List ℕ) × (HeaderAt k hdr) × (check k ≡ ok (true, hdr)))
            ⊎ (((hdr : List ℕ) × (NoHeaderAt k) × (check k ≡ ok (false, hdr)))
                ⊎ ((c : Errno) × (read (place e k) segment_header_size ≡ err c)
                    × (check k ≡ err c)))
      unfolding check_header
      check-cases k small = elim (answers (place e k) segment_header_size) [
        | inl (bytes, got, size) ↦ elim (judge-cases bytes size) [
          | inl (is, j) ↦ inl (bytes, (got, is), enters ∙ ap (λ r. r >>= judge) got ∙ j)
          | inr (not, j) ↦
              inr (inl (bytes, (bytes, got, not), enters ∙ ap (λ r. r >>= judge) got ∙ j))
        ]
        | inr (c, failed) ↦ inr (inr (c, failed, enters ∙ ap (λ r. r >>= judge) failed))
      ]
        where
          enters : check k ≡ (read (place e k) segment_header_size >>= judge)
          enters =
              ap (λ o. read o segment_header_size >>= judge) (header_offset-place e large k small)

      module _ (small : fs_size < 2 ^ 62) where
        place-small : (k : ℕ) → IsPlace k → place e k < 2 ^ 62
        place-small k (inl z) = subst (λ j. place e j < 2 ^ 62) (sym z) (omega arith)
        place-small k (inr h) = omega arith

        extend :
            (k : ℕ)
            → ((j : ℕ) → j < k → NoHeaderAt j)
            → NoHeaderAt k
            → (j : ℕ) → j < suc k
            → NoHeaderAt j
        extend k before here j h = elim (Bool-cases (ltb j k)) [
          | inl y ↦ before j (ground arith)
          | inr n ↦ let same : j ≡ k = ground arith in subst NoHeaderAt (sym same) here
        ]

        nowhere :
            (k : ℕ)
            → ((j : ℕ) → j < suc k → NoHeaderAt j)
            → fs_size ≤ place e (suc k)
            → (j : ℕ) → IsPlace j
            → NoHeaderAt j
        nowhere k before past j (inl z) = before j (omega arith)
        nowhere k before past j (inr h) = elim (Bool-cases (ltb j (suc k))) [
          | inl y ↦ before j (ground arith)
          | inr n ↦ absurd (omega (arith, place_mono e large j (suc k) (ground arith)))
        ]

        -- A round at place `k`, with what the rounds behind it come to.
        round :
            (fuel k : ℕ)
            → IsPlace k
            → ((j : ℕ) → j < k → NoHeaderAt j)
            → (NoHeaderAt k
                → place e (suc k) < fs_size
                → SearchEnd
                    (search_pebs read crc32 fs_size e fuel (place e (suc k)) (factor (suc k))))
            → SearchEnd (search_pebs read crc32 fs_size e (suc fuel) (place e k) (factor k))
        round fuel k at before rest = elim (check-cases k (place-small k at)) [
          | inl (hdr, is, c) ↦ inl (record {
            index = k;
            hdr = hdr;
            returns = round-found fuel k hdr c;
            on_volume = at;
            is_header = is;
            none_before = before;
          })
          | inr (inl (hdr, no_header, c)) ↦ elim (Bool-cases (ltb (place e (suc k)) fs_size)) [
            | inl y ↦
                rw (round-refuted fuel k hdr (place-small k at) c)
                  (rw y (rest no_header (ground arith)))
            | inr n ↦
                rw (round-refuted fuel k hdr (place-small k at) c)
                  (rw n (inr (inr (refl, nowhere k (extend k before no_header) (ground arith)))))
          ]
          | inr (inr (x, fails, c)) ↦ inr (
              inl (record {
                index = k;
                code = x;
                returns = round-failed fuel k x c;
                on_volume = at;
                fails = fails;
                none_before = before;
              }))
        ]

        rounds :
            (fuel k : ℕ)
            → fs_size ≤ fuel + place e k
            → IsPlace k
            → ((j : ℕ) → j < k → NoHeaderAt j)
            → SearchEnd (search_pebs read crc32 fs_size e (suc fuel) (place e k) (factor k))
        rounds zero k enough at before =
            round 0 k at before (λ none_here more. absurd (omega (arith, place-grows e large k)))
        rounds (suc fuel) k enough at before = round (suc fuel) k at before (λ none_here more.
            rounds fuel (suc k) (omega (arith, place-grows e large k)) (inr more)
              (extend k before none_here))

        -- On a volume below 2 ^ 62 bytes with erase blocks of more than 1024 bytes, and with a device
        -- that stores the bytes asked for or fails, ssdfs_find_any_valid_peb ends. It looks behind the
        -- boot record and then at the PEBs 1, 3, 7, 15 and so on that begin on the volume. Either it
        -- returns the first header among these with the right signature and checksum, or the error of
        -- a read that failed before, or -ENODATA if there is no such header at any of them.
        pub find_any_valid_peb_lem :
            (fuel : ℕ)
            → fs_size < fuel
            → SearchEnd (ssdfs_find_any_valid_peb read crc32 fs_size e fuel)
        unfolding ssdfs_find_any_valid_peb
        find_any_valid_peb_lem zero enough = absurd (omega arith)
        find_any_valid_peb_lem (suc fuel) enough =
            let some_size : (e == 0) ≡ false = ground arith in
            rw some_size (rounds fuel 0 (omega arith) (inl refl) (λ j h. absurd (omega arith)))
