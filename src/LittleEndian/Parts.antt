-- ===== src/LittleEndian/Parts.antt =====
-- The accesses to a buffer that is known as parts one behind the other, at the offset of a part.
use ssdfs_tools.Prelude.{
  ℕ, ◌+◌, ◌≤◌, ◌≡◌, ap, ◌∙◌, false, ltb, List, ◌++◌, length, length-append, window, patch, drop, ok,
  arith,
}
use ssdfs_tools.LittleEndian.{store, memmove, fetch}
use ssdfs_tools.LittleEndian.Windows.{
  patch-append, window-append, window_first, window_prefix, patch_first, patch_right, patch_prefix,
}

module _ (o : ℕ) (front : List ℕ) (at : o ≡ length front) where
  pub store_part :
      (vs gs cs : List ℕ)
      → length vs ≡ length gs
      → store o vs (front ++ (gs ++ cs)) ≡ ok (front ++ (vs ++ cs))
  unfolding store
  store_part vs gs cs h =
      let l = length-append front (gs ++ cs) in
      let m = length-append gs cs in
      let fits : ltb (length (front ++ (gs ++ cs))) (o + length vs) ≡ false =
        ground (arith, l, m) in
      let e : o ≡ length front + 0 = omega arith in
      rw fits (
        ap ok (
          ap (λ k. patch k vs (front ++ (gs ++ cs))) e
          ∙ patch-append front (gs ++ cs) vs 0
          ∙ ap (λ r. front ++ r) (patch_first vs gs cs h)))

  pub memmove_part :
      (g : ℕ) (bs cs : List ℕ)
      → g ≤ length cs
      → memmove (o + g) o (length bs) (front ++ (bs ++ cs))
        ≡ ok (front ++ (window 0 g (bs ++ cs) ++ (bs ++ drop g cs)))
  unfolding memmove
  memmove_part g bs cs h =
      let l = length-append front (bs ++ cs) in
      let m = length-append bs cs in
      let fits : ltb (length (front ++ (bs ++ cs))) (o + length bs) ≡ false =
        ground (arith, l, m) in
      let fits' : ltb (length (front ++ (bs ++ cs))) (o + g + length bs) ≡ false =
        ground (arith, l, m) in
      let e : o ≡ length front + 0 = omega arith in
      let e' : o + g ≡ length front + g = omega arith in
      rw (fits, fits')
        (ap ok (
          ap (λ k. patch (o + g) (window k (length bs) (front ++ (bs ++ cs))) (front ++ (bs ++ cs)))
            e
          ∙ ap (λ w. patch (o + g) w (front ++ (bs ++ cs)))
              (window-append front (bs ++ cs) 0 (length bs) ∙ window_first bs cs)
          ∙ ap (λ k. patch k bs (front ++ (bs ++ cs))) e'
          ∙ patch-append front (bs ++ cs) bs g
          ∙ ap (λ r. front ++ r) (patch_right g bs cs h)))

  pub memmove_at :
      (dst n g : ℕ) (bs cs : List ℕ)
      → dst ≡ o + g
      → n ≡ length bs
      → g ≤ length cs
      → memmove dst o n (front ++ (bs ++ cs))
        ≡ ok (front ++ (window 0 g (bs ++ cs) ++ (bs ++ drop g cs)))
  memmove_at dst n g bs cs d e h =
      ap (λ k. memmove k o n (front ++ (bs ++ cs))) d
      ∙ ap (λ k. memmove (o + g) o k (front ++ (bs ++ cs))) e
      ∙ memmove_part g bs cs h

  pub window_part :
      (n : ℕ) (bs cs : List ℕ) → n ≤ length bs → window o n (front ++ (bs ++ cs)) ≡ window 0 n bs
  window_part n bs cs h =
      let e : o ≡ length front + 0 = omega arith in
      ap (λ k. window k n (front ++ (bs ++ cs))) e
      ∙ window-append front (bs ++ cs) 0 n
      ∙ window_prefix bs cs 0 n (omega arith)

  pub fetch_part :
      (n : ℕ) (bs cs : List ℕ)
      → n ≤ length bs
      → fetch o n (front ++ (bs ++ cs)) ≡ ok (window 0 n bs)
  unfolding fetch
  fetch_part n bs cs h =
      let l = length-append front (bs ++ cs) in
      let m = length-append bs cs in
      let fits : ltb (length (front ++ (bs ++ cs))) (o + n) ≡ false = ground (arith, l, m) in
      rw fits (ap ok (window_part n bs cs h))

pub store_head :
    (k : ℕ) (vs hs cs : List ℕ)
    → k + length vs ≤ length hs
    → store k vs (hs ++ cs) ≡ ok (patch k vs hs ++ cs)
unfolding store
store_head k vs hs cs h =
    let l = length-append hs cs in
    let fits : ltb (length (hs ++ cs)) (k + length vs) ≡ false = ground (arith, l) in
    rw fits (ap ok (patch_prefix hs cs vs k h))
