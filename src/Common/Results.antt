-- ===== src/Common/Results.antt =====
-- Go's `(value, error)` results: a value or an error, and what holds of a value that is returned.
use mathlib.Core.Path.{◌≡◌, refl, subst}
use mathlib.Core.Bool.{Bool, true, false}
use native.Mathlib.Omega.{arith}

pub data Result {ℓ} (E A : Type ℓ) : Type ℓ where
  ok : A → Result E A
  err : E → Result E A

infixl 5 ◌>>=◌ ◌>>◌
-- `if err != nil { return err }` after a call.
abbrev pub ◌>>=◌ : {E A B : Type 0} → Result E A → (A → Result E B) → Result E B
ok a >>= f = f a
err e >>= f = err e

abbrev pub ◌>>◌ : {E B : Type 0} → Result E (Unit {0}) → Result E B → Result E B
m >> k = m >>= λ _. k

-- `fmt.Errorf("…: %w", err)`
abbrev pub wrap : {E F A : Type 0} → (F → E) → Result F A → Result E A
wrap f (ok a) = ok a
wrap f (err e) = err (f e)

-- `if !condition { return err }`
abbrev pub require : {E : Type 0} → Bool → E → Result E (Unit {0})
require true e = ok tt
require false e = err e

-- What is returned without an error satisfies `P`.
pub record Ensures {E A : Type 0} (m : Result E A) (P : A → Type 0) : Type 0 where
  pub at : (a : A) → m ≡ ok a → P a

module _ {E : Type 0} where
  ok-injective : {A : Type 0} (a b : A) → ◌≡◌ {A = Result E A} (ok a) (ok b) → a ≡ b
  ok-injective a b e = cc

  bind_at :
      {A B : Type 0} {P : B → Type 0} (m : Result E A) (f : A → Result E B)
      → ((a : A) → m ≡ ok a → Ensures (f a) P)
      → (b : B) → (m >>= f) ≡ ok b
      → P b
  bind_at (ok a) f h b e = (h a refl).at b e
  bind_at (err x) f h b e = absurd (cc)

  pub Ensures-bind :
      {A B : Type 0} {P : B → Type 0} (m : Result E A) (f : A → Result E B)
      → ((a : A) → m ≡ ok a → Ensures (f a) P)
      → Ensures (m >>= f) P
  Ensures-bind m f h = record { at = bind_at m f h }

  pub wrap-eq-ok : {F A : Type 0} (f : F → E) (r : Result F A) (a : A) → wrap f r ≡ ok a → r ≡ ok a
  wrap-eq-ok f (ok x) a h = ground arith
  wrap-eq-ok f (err e) a h = absurd (cc)

  require-eq-ok : (b : Bool) (e : E) (u : Unit {0}) → require b e ≡ ok u → b ≡ true
  require-eq-ok true e u h = refl
  require-eq-ok false e u h = absurd (cc)

  pub Ensures-wrap :
      {F A B : Type 0} {P : B → Type 0} (w : F → E) (r : Result F A) (f : A → Result E B)
      → ((a : A) → r ≡ ok a → Ensures (f a) P)
      → Ensures (wrap w r >>= f) P
  Ensures-wrap w r f h = Ensures-bind (wrap w r) f (λ a e. h a (wrap-eq-ok w r a e))

  pub Ensures-require :
      {B : Type 0} {P : B → Type 0} (b : Bool) (e : E) (k : Result E B)
      → (b ≡ true → Ensures k P)
      → Ensures (require b e >> k) P
  Ensures-require b e k h = Ensures-bind (require b e) _ (λ u p. h (require-eq-ok b e u p))

  pub Ensures-ok : {B : Type 0} {P : B → Type 0} (b : B) → P b → Ensures {E = E} (ok b) P
  Ensures-ok {P} b p = record { at = λ b' e. subst P (ok-injective b b' e) p }
