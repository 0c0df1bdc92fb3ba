-- ===== src/Prelude/Result.antt =====
-- What a C function of the tools comes back with.
use Prim.Native.Nat.{ℕ, zero, suc, ◌<◌}
use mathlib.Core.Path.{◌≡◌, refl, ap}
use mathlib.Core.Bool.{Bool, true, false}
use mathlib.Core.List.{List, [], ◌∷◌}
use native.Mathlib.Omega.{arith}
use ssdfs_tools.Prelude.Lists.{length, get_or}

-- The codes that the source returns negated; `sys` is the positive `errno` of a failed system call,
-- which some functions return as it is.
pub data Errno : Type 0 where
  einval erange enodata eopnotsupp enomem e2big eio enoent : Errno
  sys : ℕ → Errno

-- `bug` is `BUG()` or a `BUG_ON` whose condition holds: the program aborts.
-- `fault` is an access out of range or a division by zero.
pub data Outcome {ℓ} (A : Type ℓ) : Type ℓ where
  ok : A → Outcome A
  err : Errno → Outcome A
  bug fault : Outcome A

infixl 5 ◌>>=◌ ◌>>◌
abbrev pub ◌>>=◌ {ℓ κ} : {A : Type ℓ} {B : Type κ} → Outcome A → (A → Outcome B) → Outcome B
ok a >>= f = f a
err e >>= f = err e
bug >>= f = bug
fault >>= f = fault

abbrev pub ◌>>◌ {ℓ} : {B : Type ℓ} → Outcome (Unit {0}) → Outcome B → Outcome B
m >> k = m >>= λ _. k

abbrev pub bug_on : Bool → Outcome (Unit {0})
bug_on true = bug
bug_on false = ok tt

-- `if (c) return e;`
abbrev pub fail_if : Bool → Errno → Outcome (Unit {0})
fail_if true e = err e
fail_if false e = ok tt

-- `p[i]` of an array with the elements of the list.
abbrev pub load {ℓ} : {A : Type ℓ} → List A → ℕ → Outcome A
load [] i = fault
load (x ∷ xs) zero = ok x
load (x ∷ xs) (suc i) = load xs i

pub load-eq-get_or {ℓ} :
    {A : Type ℓ} (xs : List A) (i : ℕ) (d : A) → i < length xs → load xs i ≡ ok (get_or xs i d)
load-eq-get_or [] i d h = elim h [ ]
load-eq-get_or (x ∷ xs) zero d h = refl
load-eq-get_or (x ∷ xs) (suc i) d h = load-eq-get_or xs i d (omega arith)

abbrev or_else {ℓ} : {A : Type ℓ} → A → Outcome A → A
or_else d (ok a) = a
or_else d _ = d

pub ok-injective {ℓ} : {A : Type ℓ} {a b : A} → ok a ≡ ok b → a ≡ b
ok-injective {a} p = ap (or_else a) p
