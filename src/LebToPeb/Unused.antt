-- ===== src/LebToPeb/Unused.antt =====
-- find_unused_peb: its two loops, and the PEB that it comes to.
use ssdfs_tools.Prelude.{
  ℕ, zero, suc, ◌+◌, ◌-◌, ◌*◌, ◌/◌, ◌^◌, ◌<◌, ◌≤◌, ◌≡◌, refl, ap, ◌∙◌, Bool, true, false, ltb, leb,
  ◌==◌, Bool-cases, inl, inr, u16, u16_max, arith,
}
use ssdfs_tools.LebToPeb.{
  PebPage, bits_per_long, all_set, skip_full_words, skip_used_pebs, find_unused_peb,
}

-- Every bit below a place is set.
abbrev pub AllUsed : (ℕ → Bool) → ℕ → Type 0
AllUsed used bound = (i : ℕ) → i < bound → used i ≡ true

module _ (used : ℕ → Bool) where
  all_set_at :
      (start count i : ℕ)
      → all_set used start count ≡ true
      → start ≤ i
      → i < start + count
      → used i ≡ true
  unfolding all_set
  all_set_at start zero i h from to = absurd (omega (arith, from, to))
  all_set_at start (suc count) i h from to = elim (Bool-cases (used start)) [
    | inl y ↦
        let rest : all_set used (start + 1) count ≡ true = rw y at h in
        elim (Bool-cases (i == start)) [
          | inl here ↦ let same : i ≡ start = ground (arith, here) in ap used same ∙ y
          | inr later ↦
              all_set_at (start + 1) count i rest (ground (arith, from, later)) (omega (arith, to))
        ]
    | inr n ↦ absurd (let no_bit : false ≡ true = rw n at h in cc no_bit)
  ]

  -- The words that the first loop has left behind are full.
  words_behind :
      (left index : ℕ)
      → index + left < 2 ^ 10
      → AllUsed used (index * bits_per_long)
      → (skip_full_words used left index ≤ index + left)
        × AllUsed used (skip_full_words used left index * bits_per_long)
  unfolding skip_full_words
  words_behind zero index h behind = (omega arith, behind)
  words_behind (suc left) index h behind =
      let next : u16 (index + 1) ≡ index + 1 = omega (arith, h) in
      elim (Bool-cases (all_set used (index * bits_per_long) bits_per_long)) [
        | inl y ↦
            let rest = words_behind left (index + 1) (omega (arith, h)) λ i below.
              elim (Bool-cases (ltb i (index * bits_per_long))) [
                | inl before ↦ behind i (ground (arith, before))
                | inr inside ↦
                    all_set_at (index * bits_per_long) bits_per_long i y (ground (arith, inside))
                      (omega (arith, below))
              ] in
            rw (y, next) (omega (arith, rest.0), rest.1)
        | inr n ↦ rw n (omega arith, behind)
      ]

  -- What the second loop comes to: the first PEB that is not used, or the end.
  pebs_behind :
      (left peb_index : ℕ)
      → peb_index + left < 2 ^ 16
      → AllUsed used peb_index
      → (skip_used_pebs used left peb_index ≤ peb_index + left)
        × AllUsed used (skip_used_pebs used left peb_index)
        × (skip_used_pebs used left peb_index < peb_index + left
            → used (skip_used_pebs used left peb_index) ≡ false)
  unfolding skip_used_pebs
  pebs_behind zero peb_index h behind = (omega arith, behind, λ more. absurd (omega (arith, more)))
  pebs_behind (suc left) peb_index h behind =
      let next : u16 (peb_index + 1) ≡ peb_index + 1 = omega (arith, h) in
      elim (Bool-cases (used peb_index)) [
        | inl y ↦
            let rest = pebs_behind left (peb_index + 1) (omega (arith, h)) λ i below.
              elim (Bool-cases (i == peb_index)) [
                | inl here ↦ let same : i ≡ peb_index = ground (arith, here) in ap used same ∙ y
                | inr other ↦ behind i (ground (arith, below, other))
              ] in
            rw (y, next) (omega (arith, rest.0), rest.1, λ more. rest.2 (omega (arith, more)))
        | inr n ↦ rw n (omega arith, behind, λ _. n)
      ]

-- The answer of a search.
pub data IsSearched (hdr : PebPage) (answer : ℕ) : Type 0 where
  full : answer ≡ u16_max → AllUsed hdr.used hdr.pebs_count → IsSearched hdr answer
  room :
      answer < hdr.pebs_count
      → hdr.used answer ≡ false
      → AllUsed hdr.used answer
      → IsSearched hdr answer

module _ (hdr : PebPage) (small : hdr.pebs_count < 2 ^ 15) where
  abbrev words : ℕ
  words = (hdr.pebs_count + bits_per_long - 1) / bits_per_long

  abbrev start : ℕ
  start = skip_full_words hdr.used words 0 * bits_per_long

  abbrev found : ℕ
  found = skip_used_pebs hdr.used (hdr.pebs_count - start) start

  -- find_unused_peb, where the PEBs of the page are fewer than 2^15: it returns the first PEB that
  -- is not marked as used, or U16_MAX when every PEB of the page is.
  pub find_unused_peb-IsSearched : IsSearched hdr (find_unused_peb hdr)
  unfolding find_unused_peb
  find_unused_peb-IsSearched =
      let few : words < 2 ^ 10 = omega (arith, small) in
      let count : u16 words ≡ words = omega (arith, few) in
      let first =
        words_behind hdr.used words 0 (omega (arith, few))
          λ i none_below. absurd (omega (arith, none_below)) in
      let last = first.0 in
      let fits : u16 start ≡ start = omega (arith, last, few) in
      let second =
        pebs_behind hdr.used (hdr.pebs_count - start) start (omega (arith, last, small)) first.1 in
      rw (count, fits)
        (elim (Bool-cases (leb hdr.pebs_count found)) [
          | inl y ↦ rw y (full refl λ i below. second.1 i (ground (arith, y, below)))
          | inr n ↦
              let inside : found < hdr.pebs_count = ground (arith, n) in
              rw n (room inside (second.2 (omega (arith, inside))) second.1)
        ])
