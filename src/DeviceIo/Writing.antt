-- ===== src/DeviceIo/Writing.antt =====
-- ssdfs_pwrite puts exactly the bytes of the buffer on the device.
use ssdfs_tools.Prelude.{
  ℕ, zero, suc, ◌+◌, ◌-◌, ◌^◌, ◌<◌, ◌≤◌, ◌≡◌, refl, ap, ◌⊎◌, inl, inr, true, false, Bool-cases, ltb,
  ◌==◌, if◌then◌else◌, u64, sub_u64, none, some, List, get_or, drop, get_or-drop, arith,
}
use ssdfs_tools.DeviceIo.{
  IoResult, returns, runs, Written, moved, interrupted, failed, pwrite_loop, ssdfs_pwrite,
}

-- `after` is `before` with the first `n` bytes of `buf` at `offset`.
abbrev pub Stored : (before after : ℕ → ℕ) → (offset n : ℕ) → List ℕ → Type 0
Stored before after offset n buf =
    (a : ℕ)
    → after a ≡ (
        if ltb a offset
        then before a
        else if ltb a (offset + n)
        then get_or buf (a - offset) 0
        else before a)

-- What pwrite(2) says of an answer: a count is at most the request and that many bytes of the
-- buffer are on the device; otherwise the device is as it was.
abbrev pub Honest : (before after : ℕ → ℕ) → (offset rest : ℕ) → List ℕ → Written → Type 0
Honest before after offset rest buf (moved n) = (n ≤ rest) × Stored before after offset n buf
Honest before after offset rest buf interrupted = (a : ℕ) → after a ≡ before a
Honest before after offset rest buf (failed e) = (a : ℕ) → after a ≡ before a

-- `stall` bounds the interrupted calls to come; a count is of at least one byte.
abbrev pub Progresses : (before after : ℕ) → Written → Type 0
Progresses before after (moved n) = (0 < n) × (after ≤ before)
Progresses before after interrupted = after < before
Progresses before after (failed e) = after ≤ before

-- A return of 0 with all bytes stored, or a failure with the first `n` of them; never no return.
abbrev pub Wrote :
    {W : Type 0} → (content : W → ℕ → ℕ) → (offset size : ℕ) → List ℕ → W → IoResult W → Type 0
Wrote content offset size buf w (returns none w') = Stored (content w) (content w') offset size buf
Wrote content offset size buf w (returns (some e) w') =
    (n : ℕ) × (n ≤ size) × Stored (content w) (content w') offset n buf
Wrote content offset size buf w runs = ⊥

-- Behind a return there are no more interruptions to come than before.
abbrev pub Calmer : {W : Type 0} → (W → ℕ) → W → IoResult W → Type 0
Calmer stall w (returns code w') = stall w' ≤ stall w
Calmer stall w runs = Unit {0}

Calmer-from :
    {W : Type 0} (stall : W → ℕ) (w w' : W) (r : IoResult W)
    → stall w' ≤ stall w
    → Calmer stall w' r
    → Calmer stall w r
Calmer-from stall w w' (returns code v) le h = omega (arith, le, h)
Calmer-from stall w w' runs le h = tt

Written-cases :
    (x : Written) → ((n : ℕ) × (x ≡ moved n)) ⊎ ((x ≡ interrupted) ⊎ ((e : ℕ) × (x ≡ failed e)))
Written-cases (moved n) = inl (n, refl)
Written-cases interrupted = inr (inl refl)
Written-cases (failed e) = inr (inr (e, refl))

Stored-append :
    (f g h : ℕ → ℕ) (offset n m : ℕ) (buf : List ℕ)
    → Stored f g offset n buf
    → Stored g h (offset + n) m (drop n buf)
    → Stored f h offset (n + m) buf
Stored-append f g h offset n m buf p q a =
    ground (arith, p a, q a, get_or-drop n (a - (offset + n)) buf 0, shift)
  where
    shift : offset + n ≤ a → get_or buf (n + (a - (offset + n))) 0 ≡ get_or buf (a - offset) 0
    shift le =
        let e : n + (a - (offset + n)) ≡ a - offset = omega arith in ap (λ k. get_or buf k 0) e

Stored-idle :
    (f g h : ℕ → ℕ) (offset n : ℕ) (buf : List ℕ)
    → ((a : ℕ) → g a ≡ f a)
    → Stored g h offset n buf
    → Stored f h offset n buf
Stored-idle f g h offset n buf same q a = ground (arith, same a, q a)

module _ {W : Type 0} (content : W → ℕ → ℕ) (offset rest : ℕ) (buf : List ℕ) (w w' : W) where
  Wrote-moved :
      (n : ℕ) (r : IoResult W)
      → n ≤ rest
      → Stored (content w) (content w') offset n buf
      → Wrote content (offset + n) (rest - n) (drop n buf) w' r
      → Wrote content offset rest buf w r
  Wrote-moved n (returns none v) le s q =
      let e : n + (rest - n) ≡ rest = omega arith in
      rw e at (Stored-append (content w) (content w') (content v) offset n (rest - n) buf s q)
  Wrote-moved n (returns (some e) v) le s q = (
    n + q.0,
    omega (arith, q.1),
    Stored-append (content w) (content w') (content v) offset n q.0 buf s q.2,
  )
  Wrote-moved n runs le s q = q

  Wrote-idle :
      (r : IoResult W)
      → ((a : ℕ) → content w' a ≡ content w a)
      → Wrote content offset rest buf w' r
      → Wrote content offset rest buf w r
  Wrote-idle (returns none v) same q =
      Stored-idle (content w) (content w') (content v) offset rest buf same q
  Wrote-idle (returns (some e) v) same q =
      (q.0, q.1, Stored-idle (content w) (content w') (content v) offset q.0 buf same q.2)
  Wrote-idle runs same q = q

module _ {W : Type 0} (pwrite : (offset rest : ℕ) → List ℕ → W → Written × W) (content : W → ℕ → ℕ)
    (honest : (offset rest : ℕ) (buf : List ℕ) (w : W)
      → let (answer, w') = pwrite offset rest buf w in
        Honest (content w) (content w') offset rest buf answer)
    (stall : W → ℕ)
    (progresses : (offset rest : ℕ) (buf : List ℕ) (w : W)
      → 0 < rest
      → let (answer, w') = pwrite offset rest buf w in Progresses (stall w) (stall w') answer) where
  abbrev answer : (offset rest : ℕ) → List ℕ → W → Written
  answer offset rest buf w = (pwrite offset rest buf w).0

  abbrev world : (offset rest : ℕ) → List ℕ → W → W
  world offset rest buf w = (pwrite offset rest buf w).1

  loop-done :
      (fuel offset rest : ℕ) (buf : List ℕ) (w : W)
      → (rest == 0) ≡ true
      → pwrite_loop pwrite (suc fuel) offset rest buf w ≡ returns none w
  unfolding pwrite_loop
  loop-done fuel offset rest buf w e = rw (e, pwrite_loop)

  loop-moved :
      (fuel offset rest n : ℕ) (buf : List ℕ) (w : W)
      → (rest == 0) ≡ false
      → answer offset rest buf w ≡ moved n
      → n ≤ rest
      → offset + rest < 2 ^ 64
      → pwrite_loop pwrite (suc fuel) offset rest buf w
        ≡ pwrite_loop pwrite fuel (offset + n) (rest - n) (drop n buf) (world offset rest buf w)
  unfolding pwrite_loop
  loop-moved fuel offset rest n buf w e h le fits =
      let o : u64 (offset + n) ≡ offset + n = omega arith in
      let r : sub_u64 rest n ≡ rest - n = omega arith in
      rw (e, pwrite_loop) (rw (h, pwrite_loop) (rw (o, r)))

  loop-interrupted :
      (fuel offset rest : ℕ) (buf : List ℕ) (w : W)
      → (rest == 0) ≡ false
      → answer offset rest buf w ≡ interrupted
      → pwrite_loop pwrite (suc fuel) offset rest buf w
        ≡ pwrite_loop pwrite fuel offset rest buf (world offset rest buf w)
  unfolding pwrite_loop
  loop-interrupted fuel offset rest buf w e h = rw (e, pwrite_loop) (rw (h, pwrite_loop))

  loop-failed :
      (fuel offset rest c : ℕ) (buf : List ℕ) (w : W)
      → (rest == 0) ≡ false
      → answer offset rest buf w ≡ failed c
      → pwrite_loop pwrite (suc fuel) offset rest buf w ≡ returns (some c) (world offset rest buf w)
  unfolding pwrite_loop
  loop-failed fuel offset rest c buf w e h = rw (e, pwrite_loop) (rw (h, pwrite_loop))

  loop-Wrote :
      (fuel offset rest : ℕ) (buf : List ℕ) (w : W)
      → rest + stall w < fuel
      → offset + rest < 2 ^ 64
      → Wrote content offset rest buf w (pwrite_loop pwrite fuel offset rest buf w)
  loop-Wrote zero offset rest buf w enough fits = absurd (omega arith)
  loop-Wrote (suc fuel) offset rest buf w enough fits = elim (Bool-cases (rest == 0)) [
    | inl e ↦ rw (loop-done fuel offset rest buf w e) (λ a. ground arith)
    | inr e ↦ elim (Written-cases (answer offset rest buf w)) [
      | inl (n, h) ↦
          let ok = rw h at (honest offset rest buf w) in
          let go = rw h at (progresses offset rest buf w (ground arith)) in
          rw (loop-moved fuel offset rest n buf w e h ok.0 fits) (
            Wrote-moved content offset rest buf w (world offset rest buf w) n _ ok.0 ok.1 (
              loop-Wrote fuel (offset + n) (rest - n) (drop n buf) (world offset rest buf w)
                (omega (arith, go.0, go.1, ok.0)) (omega (arith, ok.0))))
      | inr (inl h) ↦
          let go = rw h at (progresses offset rest buf w (ground arith)) in
          rw (loop-interrupted fuel offset rest buf w e h) (
            Wrote-idle content offset rest buf w (world offset rest buf w) _
              (rw h at (honest offset rest buf w))
              (loop-Wrote fuel offset rest buf (world offset rest buf w) (omega (arith, go)) fits))
      | inr (inr (c, h)) ↦
          let same = rw h at (honest offset rest buf w) in
          rw (loop-failed fuel offset rest c buf w e h)
            (0, omega arith, λ a. ground (arith, same a))
    ]
  ]

  loop-Calmer :
      (fuel offset rest : ℕ) (buf : List ℕ) (w : W)
      → offset + rest < 2 ^ 64
      → Calmer stall w (pwrite_loop pwrite fuel offset rest buf w)
  unfolding pwrite_loop
  loop-Calmer zero offset rest buf w fits = tt
  loop-Calmer (suc fuel) offset rest buf w fits = elim (Bool-cases (rest == 0)) [
    | inl e ↦ rw (loop-done fuel offset rest buf w e) (omega arith)
    | inr e ↦ elim (Written-cases (answer offset rest buf w)) [
      | inl (n, h) ↦
          let ok = rw h at (honest offset rest buf w) in
          let go = rw h at (progresses offset rest buf w (ground arith)) in
          rw (loop-moved fuel offset rest n buf w e h ok.0 fits) (
            Calmer-from stall w (world offset rest buf w) _ go.1 (
              loop-Calmer fuel (offset + n) (rest - n) (drop n buf) (world offset rest buf w)
                (omega (arith, ok.0, fits))))
      | inr (inl h) ↦
          let go = rw h at (progresses offset rest buf w (ground arith)) in
          rw (loop-interrupted fuel offset rest buf w e h) (
            Calmer-from stall w (world offset rest buf w) _ (omega (arith, go))
              (loop-Calmer fuel offset rest buf (world offset rest buf w) fits))
      | inr (inr (c, h)) ↦
          let go = rw h at (progresses offset rest buf w (ground arith)) in
          rw (loop-failed fuel offset rest c buf w e h) go
    ]
  ]

  -- ssdfs_pwrite does not add to the interruptions to come.
  pub ssdfs_pwrite-Calmer :
      (fuel offset size : ℕ) (buf : List ℕ) (w : W)
      → offset + size < 2 ^ 64
      → Calmer stall w (ssdfs_pwrite pwrite fuel offset size buf w)
  unfolding ssdfs_pwrite
  ssdfs_pwrite-Calmer fuel offset size buf w fits = loop-Calmer fuel offset size buf w fits

  -- With a kernel whose counts tell what is stored, that is interrupted finitely often and moves at
  -- least a byte otherwise, ssdfs_pwrite returns. If it returns 0, the device has the `size` bytes of
  -- the buffer at `offset` and is otherwise as it was. If it returns an error, the device has the
  -- first `n` of them, for some `n`, and is otherwise as it was.
  pub ssdfs_pwrite-Wrote :
      (fuel offset size : ℕ) (buf : List ℕ) (w : W)
      → size + stall w < fuel
      → offset + size < 2 ^ 64
      → Wrote content offset size buf w (ssdfs_pwrite pwrite fuel offset size buf w)
  unfolding ssdfs_pwrite
  ssdfs_pwrite-Wrote fuel offset size buf w enough fits =
      loop-Wrote fuel offset size buf w enough fits
