-- ===== src/MaptblCache/Append.antt =====
-- cache_leb2peb_pair for LEBs in ascending order, as the segments of a new volume are registered.
use ssdfs_tools.Prelude.{
  ℕ, ◌+◌, ◌-◌, ◌^◌, ◌<◌, ◌≤◌, ◌≡◌, refl, sym, ap, ◌∙◌, true, false, leb, ◌==◌, List, [], ◌∷◌, ◌++◌,
  length, length-append, u16, u32, u64_max, Outcome, ok, ◌⊎◌, inl, inr, subst, arith,
}
use ssdfs_tools.LittleEndian.{le_bytes, le_value, le_value-le_bytes}
use ssdfs_tools.MaptblCache.{
  pairs_per_fragment, Entry, Cache, find_from, find_fragment_index, insert_from, using_state,
  cache_leb2peb_pair, add_leb2peb_pair,
}
use ssdfs_tools.MaptblCache.Layout.{key, IsEntry}
use ssdfs_tools.MaptblCache.Find.{NoneAbove}
use ssdfs_tools.MaptblCache.Put.{first_leb, last_leb}
use ssdfs_tools.MaptblCache.Order.{NoneBelow, insert_sorted, insert_sorted-IsSorted, IsSorted}
use ssdfs_tools.MaptblCache.Insert.{used, IsAdded, add_leb2peb_pair-insert_sorted}
use ssdfs_tools.MaptblCache.Pages.{
  first_key, last_key, last_leb-last_key, IsPage, AllFull, find_room, find_from-append,
  insert_from-append,
}

-- A new last entry.
NoneBelow-last_key :
    (m : ℕ) (e : Entry) (es : List Entry) → NoneBelow m (e ∷ es) → m ≤ last_key (e ∷ es)
NoneBelow-last_key m e [] b = b.0
NoneBelow-last_key m e (d ∷ es) b = NoneBelow-last_key m d es b.1

NoneAbove-last_key :
    (m : ℕ) (e : Entry) (es : List Entry)
    → IsSorted (e ∷ es)
    → last_key (e ∷ es) < m
    → NoneAbove m (e ∷ es)
NoneAbove-last_key m e [] s h = (omega (arith, h), tt)
NoneAbove-last_key m e (d ∷ es) s h =
    let least = NoneBelow-last_key (key e) d es s.0 in
    (omega (arith, h, least), NoneAbove-last_key m d es s.1 h)

none_above :
    (m : ℕ) (es : List Entry) → IsSorted es → ((es ≡ []) ⊎ (last_key es < m)) → NoneAbove m es
none_above m [] s h = tt
none_above m (e ∷ es) s (inl none_yet) =
    absurd (let size = ap length none_yet in omega (arith, size))
none_above m (e ∷ es) s (inr above) = NoneAbove-last_key m e es s above

insert_sorted-append :
    (new : Entry) (es : List Entry)
    → NoneAbove (key new) es
    → insert_sorted new es ≡ es ++ (new ∷ [])
unfolding insert_sorted
insert_sorted-append new [] h = refl
insert_sorted-append new (e ∷ es) h =
    let below = h.0 in
    let t : leb (key e) (key new) ≡ true = ground (arith, below) in
    rw t (ap (λ l. e ∷ l) (insert_sorted-append new es h.1))

first_key-append :
    (es : List Entry) (new : Entry)
    → le_value (first_leb (es ++ (new ∷ []))) ≡ first_key (es ++ (new ∷ []))
first_key-append [] new = refl
first_key-append (e ∷ es) new = refl

last_key-append :
    (es : List Entry) (new : Entry)
    → le_value (last_leb (es ++ (new ∷ []))) ≡ last_key (es ++ (new ∷ []))
last_key-append [] new = refl
last_key-append (e ∷ es) new = last_leb-last_key e (es ++ (new ∷ []))

-- The entry that cache_leb2peb_pair makes.
abbrev pub entry_of : (leb_id peb_id : ℕ) → Entry
entry_of leb_id peb_id = record {
  pair = le_bytes 8 leb_id ++ le_bytes 8 peb_id;
  state = using_state;
}

key-entry_of : (leb_id peb_id : ℕ) → leb_id < u64_max → key (entry_of leb_id peb_id) ≡ leb_id
key-entry_of leb_id peb_id h = le_value-le_bytes 8 leb_id (omega arith)

entry_of-IsEntry : (leb_id peb_id : ℕ) → leb_id < u64_max → IsEntry (entry_of leb_id peb_id)
entry_of-IsEntry leb_id peb_id h =
    (refl, refl, let k = key-entry_of leb_id peb_id h in ground (arith, k, h))

-- What is left behind the call.
pub record IsAppended (cache : Cache) (fs gs : List (List ℕ)) (es : List Entry)
    (answer : Outcome Cache) : Type 0 where
  pub page : List ℕ
  pub succeeds :
      answer
      ≡ ok (record {
        page_size = cache.page_size;
        fragments = fs ++ (page ∷ gs);
        bytes = u32 (cache.bytes + (used (length es) - used (length es - 1)));
      })
  pub holds : IsPage cache.page_size es page

module _ (cache : Cache) (fs gs : List (List ℕ)) (f : List ℕ) (es : List Entry) (leb_id peb_id : ℕ)
    (form : cache.fragments ≡ fs ++ (f ∷ gs)) (small : cache.page_size < 2 ^ 16)
    (leb_fits : leb_id < u64_max) (peb_fits : peb_id < u64_max)
    (full : AllFull cache.page_size leb_id fs) (page : IsPage cache.page_size es f)
    (free : length es < pairs_per_fragment cache.page_size)
    (above : (es ≡ []) ⊎ (last_key es < leb_id)) where
  abbrev new : Entry
  new = entry_of leb_id peb_id

  abbrev after : List Entry
  after = es ++ (new ∷ [])

  same_key : key new ≡ leb_id
  same_key = key-entry_of leb_id peb_id leb_fits

  appended : insert_sorted new es ≡ after
  appended =
      insert_sorted-append new es
        (subst (λ m. NoneAbove m es) (sym same_key) (none_above leb_id es page.sorted above))

  step : IsAdded cache.page_size es after f (add_leb2peb_pair cache.page_size f new)
  step =
      subst (λ l. IsAdded cache.page_size es l f (add_leb2peb_pair cache.page_size f new)) appended
        (add_leb2peb_pair-insert_sorted cache.page_size f es new small page.layout page.sorted
          (entry_of-IsEntry leb_id peb_id leb_fits) free)

  held : IsPage cache.page_size after step.added.fragment
  held = record {
    layout = step.fragment;
    sorted = subst IsSorted appended (insert_sorted-IsSorted new es page.sorted);
    magic = step.same_magic ∙ page.magic;
    starts = step.starts ∙ first_key-append es new;
    ends = step.ends ∙ last_key-append es new;
  }

  found :
      find_from (u16 (pairs_per_fragment cache.page_size)) leb_id 0 cache.fragments ≡ ok (length fs)
  found =
      let word : u16 (pairs_per_fragment cache.page_size) ≡ pairs_per_fragment cache.page_size =
        omega arith in
      let start : 0 + length fs ≡ length fs = omega arith in
      ap (λ k. find_from k leb_id 0 cache.fragments) word
      ∙ ap (find_from (pairs_per_fragment cache.page_size) leb_id 0) form
      ∙ find_from-append cache.page_size leb_id 0 fs (f ∷ gs) full
      ∙ find_room cache.page_size leb_id (0 + length fs) f gs es page free above
      ∙ ap ok start

  inserted :
      insert_from cache.page_size (length fs) cache.fragments new
      ≡ ok (record {
        fragments = fs ++ (step.added.fragment ∷ gs);
        added_bytes = step.added.added_bytes;
      })
  inserted =
      ap (λ l. insert_from cache.page_size (length fs) l new) form
      ∙ insert_from-append cache.page_size fs gs f new step.added step.succeeds step.moves_none

  grown : step.added.added_bytes ≡ used (length after) - used (length after - 1)
  grown =
      let one_more : length after ≡ length es + 1 = length-append es (new ∷ []) in
      let before : used (length after - 1) ≡ used (length es) = ap used (omega (arith, one_more)) in
      let counted = step.bytes in omega (arith, before, counted)

  -- LEBs that arrive in ascending order fill one fragment after the other: where the first fragments are
  -- full of entries below the new LEB, and the next one, sorted and with room, has no entry yet or only
  -- such below the LEB, the call succeeds, adds the pair and its state behind the last entry of that
  -- fragment, whose header it brings up to date, and changes no other one. The bytes of the cache grow
  -- by those of the entry, and by those of the header and the magic number when the fragment was empty.
  pub cache_leb2peb_pair-append :
      IsAppended cache fs gs
        (es ++ (entry_of leb_id peb_id ∷ []))
        (cache_leb2peb_pair cache leb_id peb_id)
  unfolding cache_leb2peb_pair find_fragment_index
  cache_leb2peb_pair-append =
      let a : (leb_id == u64_max) ≡ false = ground arith in
      let b : (peb_id == u64_max) ≡ false = ground arith in
      record {
        page = step.added.fragment;
        succeeds = rw (a, b, found, inserted, grown) refl;
        holds = held;
      }
