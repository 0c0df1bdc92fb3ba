-- ===== src/MkfsSegBmap/Spread.antt =====
-- Every fragment of the segment bitmap has a place in the PEBs that mkfs reserves.
use ssdfs_tools.Prelude.{
  ℕ, suc, ◌+◌, ◌-◌, ◌*◌, ◌/◌, ◌%◌, ◌^◌, ◌<◌, ◌≤◌, ◌≡◌, sym, subst, ap, ◌∙◌, inl, inr, false,
  Bool-cases, ◌==◌, leb, u16, if◌then◌else◌, ok, arith,
}
use native.Mathlib.Nat.{
  lt-div-mul-add, div-mul-le_self, div-le_self, div-add-mod', mod-eq-sub-div-mul, mul-le-mul_right,
  div-lt_iff_lt-mul,
}
use ssdfs_tools.MkfsSegBmap.{Shares, share, spread_fragments}

-- The value of a share.
abbrev share_of : ℕ → ℕ → ℕ
share_of a b =
    let x = if a % b == 0 then u16 (a / b) else u16 (u16 (a / b) + 1) in if x == 0 then 1 else x

share-eq : (a b : ℕ) → 0 < b → share a b ≡ ok (share_of a b)
unfolding share
share-eq a b pos = let n : (b == 0) ≡ false = ground arith in rw n

-- A share is at least one, and covers the whole with `b` of its kind.
share_of-covers :
    (a b : ℕ)
    → 0 < b
    → a < 2 ^ 16
    → (0 < share_of a b) × (a ≤ share_of a b * b) × (share_of a b < 2 ^ 16)
share_of-covers a b pos small = elim (Bool-cases (a % b == 0)) [
  | inl y ↦ elim (Bool-cases (a / b == 0)) [
    | inl z ↦
        let x : share_of a b ≡ 1 = ground (arith, y, z, q_small) in
        let none : a ≡ 0 = ground (arith, y, z, rest, nothing (ground arith)) in
        subst Covers (sym x) (omega arith, omega arith, omega arith)
    | inr n ↦
        let x : share_of a b ≡ a / b = ground (arith, y, n, q_small) in
        subst Covers (sym x) (ground arith, ground (arith, rest, within), omega (arith, q_small))
  ]
  | inr n ↦
      let more : a / b * b < a = ground (arith, rest, within) in
      let x : share_of a b ≡ suc (a / b) = ground (arith, n, q_small, single, more) in
      let e : suc (a / b) * b ≡ a / b * b + b = omega arith in
      subst Covers (sym x) (omega arith, omega (arith, e, below), omega (arith, single, more))
]
  where
    Covers : ℕ → Type 0
    Covers x = (0 < x) × (a ≤ x * b) × (x < 2 ^ 16)

    below : a < a / b * b + b
    below = lt-div-mul-add pos

    within : a / b * b ≤ a
    within = div-mul-le_self a b

    rest : a % b ≡ a - a / b * b
    rest = mod-eq-sub-div-mul a b

    single : a / b * 1 ≤ a / b * b
    single = grind arith

    q_small : a / b < 2 ^ 16
    q_small = omega (arith, within, single)

    nothing : a / b ≡ 0 → a / b * b ≡ 0
    nothing z = ap (λ q. q * b) z ∙ omega arith

-- A share is no more than any number that covers the whole, if that is positive.
share_of-least : (a b n : ℕ) → 0 < b → a < 2 ^ 16 → 0 < n → a ≤ n * b → share_of a b ≤ n
share_of-least a b n pos small some cover = elim (Bool-cases (a % b == 0)) [
  | inl y ↦ elim (Bool-cases (a / b == 0)) [
    | inl z ↦ ground (arith, y, z, quotient_small)
    | inr z ↦
        let below : a / b < n + 1 = (div-lt_iff_lt-mul pos).1 (omega (arith, cover, next)) in
        ground (arith, y, z, below, quotient_small)
  ]
  | inr y ↦
      let left : 0 < a % b = ground (arith, y) in
      let more : a / b * b < n * b = omega (arith, parts, left, cover) in
      let below : a / b < n = elim (Bool-cases (leb n (a / b))) [
        | inl le ↦
            let up : n * b ≤ a / b * b = mul-le-mul_right b (ground (arith, le)) in
            absurd (omega (arith, up, more))
        | inr gt ↦ ground (arith, gt)
      ] in
      ground (arith, y, below, quotient_small)
]
  where
    next : (n + 1) * b ≡ n * b + b
    next = omega arith

    parts : a / b * b + a % b ≡ a
    parts = div-add-mod' a b

    quotient_small : a / b ≤ a
    quotient_small = div-le_self a b

chain : (f s p q m : ℕ) → f ≤ m * s → m ≤ q * p → f ≤ p * q * s
chain f s p q m h g =
    let a : m * s ≤ q * p * s = mul-le-mul_right s g in
    let b : q * p * s ≡ p * q * s = omega arith in omega arith

-- For less than 2^16 fragments of a bitmap, and at least one segment and one PEB in each, the
-- policy ends without a division by zero: it takes at most the PEBs that a segment has, and
-- those that it takes have, in the segments together, a place for every fragment.
pub spread_fragments_covers :
    (fragments segs pebs : ℕ)
    → fragments < 2 ^ 16
    → 0 < segs
    → 0 < pebs
    → (s : Shares) × (spread_fragments fragments segs pebs ≡ ok s)
      × (fragments ≤ s.fragments_per_peb * s.pebs_per_seg * segs)
      × (s.pebs_per_seg ≤ pebs)
unfolding spread_fragments
spread_fragments_covers fragments segs pebs small some_segs some_pebs =
    (record { fragments_per_peb = per_peb; pebs_per_seg = pebs' }, run, covers, within)
  where
    per_seg : ℕ
    per_seg = share_of fragments segs

    per_peb : ℕ
    per_peb = share_of per_seg pebs

    pebs' : ℕ
    pebs' = share_of per_seg per_peb

    first :
        (0 < share_of fragments segs)
        × (fragments ≤ share_of fragments segs * segs)
        × (share_of fragments segs < 2 ^ 16)
    first = share_of-covers fragments segs some_segs small

    second :
        (0 < share_of per_seg pebs)
        × (per_seg ≤ share_of per_seg pebs * pebs)
        × (share_of per_seg pebs < 2 ^ 16)
    second = share_of-covers per_seg pebs some_pebs (first.2)

    third :
        (0 < share_of per_seg per_peb)
        × (per_seg ≤ share_of per_seg per_peb * per_peb)
        × (share_of per_seg per_peb < 2 ^ 16)
    third = share_of-covers per_seg per_peb second.0 first.2

    run :
        spread_fragments fragments segs pebs
        ≡ ok (record { fragments_per_peb = per_peb; pebs_per_seg = pebs' })
    run = rw (
      share-eq fragments segs some_segs,
      share-eq per_seg pebs some_pebs,
      share-eq per_seg per_peb second.0,
    )

    covers : fragments ≤ per_peb * pebs' * segs
    covers = chain fragments segs per_peb pebs' per_seg first.1 third.1

    within : pebs' ≤ pebs
    within =
        let flip : per_peb * pebs ≡ pebs * per_peb = omega arith in
        share_of-least per_seg per_peb pebs second.0 first.2 some_pebs
          (omega (arith, second.1, flip))
