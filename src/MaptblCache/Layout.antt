-- ===== src/MaptblCache/Layout.antt =====
-- A fragment as the list of its entries, and where the functions find the parts of it.
use ssdfs_tools.Prelude.{
  ℕ, zero, suc, ◌+◌, ◌-◌, ◌*◌, ◌/◌, ◌≡◌, ◌≢◌, refl, sym, ap, ◌∙◌, true, false, ltb, ◌==◌, not, none,
  List, [], ◌∷◌, ◌++◌, length, length-append, append_assoc, u64_max, Outcome, ok, ◌>>=◌, ◌>>◌,
  erange, enodata, fail_if, arith,
}
use ssdfs_tools.LittleEndian.{le_bytes, le_value, get_le, fetch}
use ssdfs_tools.LittleEndian.Parts.{window_part, fetch_part}
use ssdfs_tools.MaptblCache.{
  peb_state_magic, items_count, bytes_count, no_areas, area_size, checked, peb_state_area_size,
  peb_state_area, first_peb_state, Entry, Areas,
}

-- The id of an entry's LEB.
abbrev pub key : Entry → ℕ
key e = get_le 8 0 e.pair

abbrev pub pairs : List Entry → List ℕ
pairs [] = []
pairs (e ∷ es) = e.pair ++ pairs es

abbrev pub states : List Entry → List ℕ
states [] = []
states (e ∷ es) = e.state ++ states es

abbrev pub IsEntry : Entry → Type 0
IsEntry e = (length e.pair ≡ 16) × (length e.state ≡ 4) × (key e ≢ u64_max)

abbrev pub AllEntries : List Entry → Type 0
AllEntries [] = Unit
AllEntries (e ∷ es) = IsEntry e × AllEntries es

pub length-pairs : (es : List Entry) → AllEntries es → length (pairs es) ≡ 16 * length es
length-pairs [] a = omega arith
length-pairs (e ∷ es) a =
    let (x, y, z) = a.0 in omega (arith, length-append e.pair (pairs es), length-pairs es a.1, x)

pub length-states : (es : List Entry) → AllEntries es → length (states es) ≡ 4 * length es
length-states [] a = omega arith
length-states (e ∷ es) a =
    let (x, y, z) = a.0 in omega (arith, length-append e.state (states es), length-states es a.1, y)

abbrev pub magic : List ℕ
magic = le_bytes 4 peb_state_magic

-- The bytes of a fragment.
abbrev pub compose : (head rest : List ℕ) → List Entry → List ℕ
compose head rest es = head ++ (pairs es ++ (magic ++ (states es ++ rest)))

pub length-compose :
    (head rest : List ℕ) (es : List Entry)
    → AllEntries es
    → length (compose head rest es) ≡ length head + 16 * length es + 4 + 4 * length es + length rest
length-compose head rest es a = omega (
  arith,
  length-append head (pairs es ++ (magic ++ (states es ++ rest))),
  length-append (pairs es) (magic ++ (states es ++ rest)),
  length-append magic (states es ++ rest),
  length-append (states es) rest,
  length-pairs es a,
  length-states es a,
)

-- A page that holds the entries, and counts them in its header.
pub record IsFragment (page_size : ℕ) (es : List Entry) (fragment : List ℕ) : Type 0 where
  pub head : List ℕ
  pub rest : List ℕ
  pub form : fragment ≡ compose head rest es
  pub head_size : length head ≡ 32
  pub size : length fragment ≡ page_size
  pub counts : items_count fragment ≡ length es
  pub counts_bytes : bytes_count fragment ≡ 36 + length es * 20
  pub entries : AllEntries es

areas_of : ℕ → Areas
areas_of zero = no_areas enodata
areas_of (suc n) = record { code = none; pairs_bytes = suc n * 16; states_bytes = 4 + suc n * 4 }

area_size-eq :
    (fragment : List ℕ) (n : ℕ)
    → items_count fragment ≡ n
    → bytes_count fragment ≡ 36 + n * 20
    → area_size fragment ≡ areas_of n
unfolding area_size areas_of
area_size-eq fragment zero items bytes =
    let a : ltb (bytes_count fragment) 36 ≡ false = ground arith in
    let b : (bytes_count fragment == 36) ≡ true = ground arith in rw (a, b) refl
area_size-eq fragment (suc n) items bytes =
    let a : ltb (bytes_count fragment) 36 ≡ false = ground arith in
    let b : (bytes_count fragment == 36) ≡ false = ground arith in
    let c : (bytes_count fragment - 36) / 20 ≡ suc n = omega arith in
    let d : ltb ((bytes_count fragment - 36) / 20) (items_count fragment) ≡ false = ground arith in
    rw (a, b, d, c) refl

areas_of-checked : (n : ℕ) → checked (areas_of n).code ≡ ok tt
unfolding areas_of
areas_of-checked zero = refl
areas_of-checked (suc n) = refl

areas_of-pairs : (n : ℕ) → (areas_of n).pairs_bytes ≡ n * 16
unfolding areas_of
areas_of-pairs zero = omega arith
areas_of-pairs (suc n) = refl

areas_of-states : (n : ℕ) → (areas_of n).states_bytes ≡ 4 + n * 4
unfolding areas_of
areas_of-states zero = omega arith
areas_of-states (suc n) = refl

module _ (page_size : ℕ) (es : List Entry) (fragment : List ℕ)
    (f : IsFragment page_size es fragment) where
  areas : area_size fragment ≡ areas_of (length es)
  areas = area_size-eq fragment (length es) f.counts f.counts_bytes

  pub peb_state_area_size-eq : peb_state_area_size fragment ≡ ok (4 + length es * 4)
  unfolding peb_state_area_size
  peb_state_area_size-eq =
      ap (λ a. checked a.code >> ok a.states_bytes) areas
      ∙ ap (λ c. c >> ok (areas_of (length es)).states_bytes) (areas_of-checked (length es))
      ∙ ap ok (areas_of-states (length es))

  -- The parts, the pairs taken with the header.
  regroup : fragment ≡ (f.head ++ pairs es) ++ (magic ++ (states es ++ f.rest))
  regroup = f.form ∙ sym (append_assoc f.head (pairs es) (magic ++ (states es ++ f.rest)))

  size_of_pairs : 32 + length es * 16 ≡ length (f.head ++ pairs es)
  size_of_pairs =
      omega (arith, length-append f.head (pairs es), length-pairs es f.entries, f.head_size)

  at_magic : fetch (32 + length es * 16) 4 fragment ≡ ok magic
  at_magic =
      ap (fetch (32 + length es * 16) 4) regroup
      ∙ fetch_part (32 + length es * 16) (f.head ++ pairs es) size_of_pairs 4 magic
          (states es ++ f.rest) (omega arith)

  magic_there : get_le 4 (32 + length es * 16) fragment ≡ peb_state_magic
  magic_there =
      ap (get_le 4 (32 + length es * 16)) regroup
      ∙ ap le_value (
          window_part (32 + length es * 16) (f.head ++ pairs es) size_of_pairs 4 magic
            (states es ++ f.rest) (omega arith))

  tested : ℕ → Outcome ℕ
  tested start = fetch start 4 fragment >>= λ m.
      fail_if (not (get_le 4 start fragment == peb_state_magic)) erange >> ok start

  tested-eq : tested (32 + length es * 16) ≡ ok (32 + length es * 16)
  unfolding tested
  tested-eq =
      let there : (get_le 4 (32 + length es * 16) fragment == peb_state_magic) ≡ true =
        ground (arith, magic_there) in
      rw (at_magic, there) refl

  pub peb_state_area-eq : peb_state_area fragment ≡ ok (32 + length es * 16)
  unfolding peb_state_area tested
  peb_state_area-eq =
      ap (λ a. checked a.code >> tested (32 + a.pairs_bytes)) areas
      ∙ ap (λ c. c >> tested (32 + (areas_of (length es)).pairs_bytes))
          (areas_of-checked (length es))
      ∙ ap (λ p. tested (32 + p)) (areas_of-pairs (length es))
      ∙ tested-eq

  pub first_peb_state-eq : first_peb_state fragment ≡ ok (32 + length es * 16 + 4)
  unfolding first_peb_state
  first_peb_state-eq = rw peb_state_area-eq refl
