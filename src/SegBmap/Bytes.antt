-- ===== src/SegBmap/Bytes.antt =====
-- The loop of SET_FIRST_CLEAN_ITEM_IN_FRAGMENT over the bytes of a fragment.
use ssdfs_tools.Prelude.{
  ℕ, zero, suc, ◌+◌, ◌*◌, ◌/◌, ◌%◌, ◌^◌, ◌<◌, ◌≤◌, ◌≡◌, ◌≢◌, refl, ◌⊎◌, inl, inr, true, false,
  Bool-cases, ltb, ltb→lt, leb, ◌==◌, ==_iff, if◌then◌else◌, none, some, List, length, get_or, set,
  length-set, get_or-set_self, get_or-set_ne, u64_max, enodata, Outcome, ok, err, ◌>>=◌,
  load-eq-get_or, arith,
}
use ssdfs_tools.Bitmap.{put_state, set_state_in_byte}
use ssdfs_tools.Bitmap.Bytes.{byte_item, put_state-lt_seg, item-put_state_seg}
use ssdfs_tools.SegBmap.{Search, seg_clean, search_bytes}
use ssdfs_tools.SegBmap.Table.{ByteSearch, find_clean, find_clean-ByteSearch}
use ssdfs_tools.SegBmap.Found.{seg_state, IsBytes, NoneClean, SetItem, Found, NotFound}

abbrev stored : List ℕ → ℕ → ℕ → ℕ → List ℕ
stored fragment index off state =
    set fragment index (put_state (get_or fragment index 0) (off * 4) 15 state)

module _ (fragment : List ℕ) (bytes : IsBytes fragment) (state : ℕ) (fits : state ≤ 15) where
  module _ (index off : ℕ) (in_range : index < length fragment) (inside : off < 2) where
    stored-item :
        (i : ℕ)
        → i < 2 * length fragment
        → seg_state (stored fragment index off state) i
          ≡ (if index * 2 + off == i then state else seg_state fragment i)
    stored-item i h = elim (Bool-cases (index == i / 2)) [
      | inl same ↦
          let e : i / 2 ≡ index = omega (arith, (==_iff _ _).0 same) in
          rw
            (
              e,
              get_or-set_self fragment index _ 0 in_range,
              item-put_state_seg (get_or fragment index 0) state off (bytes index) fits inside
                  (i % 2) (omega arith),
            )
            (ground arith)
      | inr other ↦ ground (
        arith,
        get_or-set_ne fragment index (i / 2)
            (put_state (get_or fragment index 0) (off * 4) 15 state) 0,
      )
    ]

    stored-IsBytes : IsBytes (stored fragment index off state)
    stored-IsBytes i = elim (Bool-cases (index == i)) [
      | inl same ↦ ground (
        arith,
        put_state-lt_seg (get_or fragment index 0) state off (bytes index) fits inside,
        get_or-set_self fragment index (put_state (get_or fragment index 0) (off * 4) 15 state) 0
            in_range,
      )
      | inr other ↦ ground (
        arith,
        bytes i,
        get_or-set_ne fragment index i (put_state (get_or fragment index 0) (off * 4) 15 state) 0,
      )
    ]

    stored-SetItem : SetItem fragment (stored fragment index off state) (index * 2 + off) state
    stored-SetItem = record {
      same_length = length-set fragment index _;
      bytes = stored-IsBytes;
      items = stored-item;
    }

  module _ (first max : ℕ) (max_fits : max < 2 ^ 64) where
    search_bytes-hit :
        (rounds index off r : ℕ)
        → index < length fragment
        → r < 2
        → first + index * 2 + 2 < 2 ^ 64
        → index * 2 < 2 ^ 32
        → find_clean (get_or fragment index 0) off ≡ ok r
        → search_bytes first max state (suc rounds) index off fragment
          ≡ ok (record {
            fragment = stored fragment index r state;
            found_seg =
                if leb max (first + (index * 2 + r)) then u64_max else first + (index * 2 + r);
            code = if leb max (first + (index * 2 + r)) then some enodata else none;
          })
    unfolding search_bytes set_state_in_byte
    search_bytes-hit rounds index off r in_range inside no_wrap small e =
        ground (arith, load-eq-get_or fragment index 0 in_range)

    search_bytes-miss :
        (rounds index off : ℕ)
        → index < length fragment
        → find_clean (get_or fragment index 0) off ≡ err enodata
        → search_bytes first max state (suc rounds) index off fragment
          ≡ search_bytes first max state rounds (index + 1) 0 fragment
    unfolding search_bytes
    search_bytes-miss rounds index off in_range e =
        rw (load-eq-get_or fragment index 0 in_range) (rw (e, ◌>>=◌))

    -- No clean item in the rest of a byte.
    rest-NoneClean :
        (index off : ℕ)
        → ((j : ℕ) → off ≤ j → j < 2 → byte_item 4 15 (get_or fragment index 0) j ≢ seg_clean)
        → NoneClean fragment (index * 2 + off) ((index + 1) * 2)
    rest-NoneClean index off none_in j p q =
        let e : j / 2 ≡ index = omega arith in rw e (none_in (j % 2) (omega arith) (omega arith))

    NoneClean-append :
        (lo mid hi : ℕ)
        → NoneClean fragment lo mid
        → NoneClean fragment mid hi
        → NoneClean fragment lo hi
    NoneClean-append lo mid hi l r j p q = elim (Bool-cases (ltb j mid)) [
      | inl y ↦ l j p (ltb→lt _ _ y)
      | inr n ↦ r j (ground arith) q
    ]

    Found-widen :
        (lo mid hi : ℕ) (result : Outcome Search)
        → lo ≤ mid
        → NoneClean fragment lo mid
        → Found fragment first max state mid hi result
        → Found fragment first max state lo hi result
    Found-widen lo mid hi result le l f = record {
      item = f.item;
      out = f.out;
      is_first = record {
        from = omega (arith, f.is_first.from);
        below = f.is_first.below;
        clean = f.is_first.clean;
        before = NoneClean-append lo mid f.item l f.is_first.before;
      };
      set_item = f.set_item;
      returns = f.returns;
    }

    widen :
        (lo mid hi : ℕ) (result : Outcome Search)
        → lo ≤ mid
        → NoneClean fragment lo mid
        → Found fragment first max state mid hi result ⊎ NotFound fragment mid hi result
        → Found fragment first max state lo hi result ⊎ NotFound fragment lo hi result
    widen lo mid hi result le l (inl f) = inl (Found-widen lo mid hi result le l f)
    widen lo mid hi result le l (inr n) = inr (NoneClean-append lo mid hi l n.0, n.1)

    module _ (rounds index off lo hi : ℕ) (here : index < length fragment)
        (no_wrap : first + hi < 2 ^ 64) (small : hi < 2 ^ 32) (at : lo ≡ index * 2 + off)
        (ends : hi ≡ (index + suc rounds) * 2)
        (b : ByteSearch
          (get_or fragment index 0)
          off
          (find_clean (get_or fragment index 0) off)) where
      hit :
          ltb b.r 2 ≡ true
          → Found fragment first max state lo hi
              (search_bytes first max state (suc rounds) index off fragment)
      hit y =
          let inside : b.r < 2 = ltb→lt _ _ y in
          record {
            item = index * 2 + b.r;
            out = stored fragment index b.r state;
            is_first = record {
              from = omega (arith, b.is_first.from);
              below = omega arith;
              clean =
                  let e : (index * 2 + b.r) / 2 ≡ index = omega arith in
                  let m : (index * 2 + b.r) % 2 ≡ b.r = omega arith in
                  rw (e, m) (b.is_first.found inside);
              before = λ j p q.
                  let e : j / 2 ≡ index = omega arith in
                  rw e (b.is_first.passed (j % 2) (omega arith) (omega arith));
            };
            set_item = stored-SetItem index b.r here inside;
            returns =
                search_bytes-hit rounds index off b.r here inside (omega arith) (omega arith)
                  (rw y at b.returns);
          }

      miss :
          ltb b.r 2 ≡ false
          → let result = search_bytes first max state rounds (index + 1) 0 fragment in
            Found fragment first max state ((index + 1) * 2) hi result
              ⊎ NotFound fragment ((index + 1) * 2) hi result
            → let result = search_bytes first max state (suc rounds) index off fragment in
              Found fragment first max state lo hi result ⊎ NotFound fragment lo hi result
      miss n rest = rw (search_bytes-miss rounds index off here (rw n at b.returns)) (
          widen lo ((index + 1) * 2) hi _ (omega (arith, b.is_first.from, b.is_first.within))
            (rw at (rest-NoneClean index off λ j p q. b.is_first.passed j p (ground arith))) rest)

    -- The bytes from `index` on are searched, the first from its item `off` on.
    pub search_bytes_lem :
        (rounds index off lo hi : ℕ)
        → off ≤ 2
        → index + rounds ≤ length fragment
        → first + hi < 2 ^ 64
        → hi < 2 ^ 32
        → lo ≡ index * 2 + off
        → hi ≡ (index + rounds) * 2
        → let result = search_bytes first max state rounds index off fragment in
          Found fragment first max state lo hi result ⊎ NotFound fragment lo hi result
    search_bytes_lem zero index off lo hi inside in_range no_wrap small at ends =
        inr (λ j p q. absurd (omega arith), unfold search_bytes in refl)
    search_bytes_lem (suc rounds) index off lo hi inside in_range no_wrap small at ends =
        let here : index < length fragment = omega arith in
        let b = find_clean-ByteSearch (get_or fragment index 0) off (bytes index) inside in
        elim (Bool-cases (ltb b.r 2)) [
          | inl y ↦ inl (hit rounds index off lo hi here no_wrap small at ends b y)
          | inr n ↦ miss rounds index off lo hi here no_wrap small at ends b n (
              search_bytes_lem rounds (index + 1) 0 ((index + 1) * 2) hi (omega arith) (omega arith)
                no_wrap small (omega arith) (omega arith))
        ]
