-- ===== src/Prelude/Post.antt =====
-- What holds of the result of a computation, whenever it has one.
use mathlib.Core.Path.{◌≡◌, refl, subst}
use ssdfs_tools.Prelude.Result.{Outcome, ok, err, bug, fault, ◌>>=◌, ok-injective}

abbrev pub Ensures {ℓ κ} : {A : Type ℓ} → (A → Type κ) → Outcome A → Type (ℓ ⊔ κ)
Ensures {A} P m = (a : A) → m ≡ ok a → P a

module _ {ℓ κ} {A : Type ℓ} (P : A → Type κ) where
  pub Ensures-ok : (a : A) → P a → Ensures P (ok a)
  Ensures-ok a h b e = subst P (ok-injective e) h

  pub Ensures-bind {μ} :
      {B : Type μ} (m : Outcome B) (f : B → Outcome A)
      → ((b : B) → m ≡ ok b → Ensures P (f b))
      → Ensures P (m >>= f)
  Ensures-bind (ok b) f h = h b refl
  Ensures-bind (err e) f h = λ a p. absurd (cc p)
  Ensures-bind bug f h = λ a p. absurd (cc p)
  Ensures-bind fault f h = λ a p. absurd (cc p)
