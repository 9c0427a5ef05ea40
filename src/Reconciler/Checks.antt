-- ===== src/Reconciler/Checks.antt =====
-- The guards of the reconcilers of internal/reconciler, as checks that pass on a value or end the
-- reconciliation, and what follows when a sequence of them passes.
use mathlib.Core.Path.{subst}
use gardener_discovery_serve.Common.{
  ◌≡◌, refl, ◌≢◌, Bool, true, false, Option, none, some, [], ◌∷◌, Bytes, ◌==◌, eq→≡, arith,
}
use gardener_discovery_serve.Common.Results.{Result, ok, err}
use gardener_discovery_serve.Reconciler.{
  GetError, is_not_found, other, Check, pass, drop, abort, panic, ◌>>=◌, ◌>>◌,
}

abbrev pub is_unset : {A : Type 0} → Option A → Bool
is_unset none = true
is_unset (some a) = false

-- the value of a label or annotation is there and is the one expected
abbrev pub is_value : Option Bytes → Bytes → Bool
is_value none v = false
is_value (some w) v = w == v

pub is_unset-eq-true : {A : Type 0} (o : Option A) → is_unset o ≡ true → o ≡ none
is_unset-eq-true none h = refl
is_unset-eq-true (some a) h = absurd (cc)

pub is_value-eq-true : (o : Option Bytes) (v : Bytes) → is_value o v ≡ true → o ≡ some v
is_value-eq-true none v h = absurd (cc)
is_value-eq-true (some w) v h = rw (eq→≡ w v h)

module _ {E : Type 0} where
  -- `if !condition { remove; return }`
  abbrev pub require : Bool → Check E (Unit {0})
  require true = pass tt
  require false = drop

  -- `if v, ok := m[k]; !ok { remove; return }`
  abbrev pub found : {A : Type 0} → Option A → Check E A
  found none = drop
  found (some a) = pass a

  -- `if v, ok := m[k]; !ok || len(v) == 0 { remove; return }`
  abbrev pub found_text : Option Bytes → Check E Bytes
  found_text none = drop
  found_text (some []) = drop
  found_text (some (c ∷ s)) = pass (c ∷ s)

  -- `if err := client.Get(…); err != nil { if IsNotFound(err) { remove; return }; return err }`
  abbrev pub got : {A : Type 0} → Result (GetError E) A → Check E A
  got (ok a) = pass a
  got (err is_not_found) = drop
  got (err (other e)) = abort e

  -- `if err != nil { remove; return }`
  abbrev pub loaded : {F A : Type 0} → Result F A → Check E A
  loaded (ok a) = pass a
  loaded (err e) = drop

  pub require-eq-pass : (b : Bool) (u : Unit {0}) → require b ≡ pass u → b ≡ true
  require-eq-pass true u h = refl
  require-eq-pass false u h = absurd (cc)

  pub found-eq-pass : {A : Type 0} (o : Option A) {a : A} → found o ≡ pass a → o ≡ some a
  found-eq-pass none h = absurd (cc)
  found-eq-pass (some x) h = ground arith

  pub found_text-eq-pass :
      (o : Option Bytes) {a : Bytes} → found_text o ≡ pass a → (o ≡ some a) × (a ≢ [])
  found_text-eq-pass none h = absurd (cc)
  found_text-eq-pass (some []) h = absurd (cc)
  found_text-eq-pass (some (c ∷ s)) h = (ground arith, λ e. ground arith)

  pub got-eq-pass : {A : Type 0} (r : Result (GetError E) A) {a : A} → got r ≡ pass a → r ≡ ok a
  got-eq-pass (ok x) h = ground arith
  got-eq-pass (err is_not_found) h = absurd (cc)
  got-eq-pass (err (other e)) h = absurd (cc)

  pub loaded-eq-pass : {F A : Type 0} (r : Result F A) {a : A} → loaded r ≡ pass a → r ≡ ok a
  loaded-eq-pass (ok x) h = ground arith
  loaded-eq-pass (err e) h = absurd (cc)

  pass-injective : {B : Type 0} (a b : B) → ◌≡◌ {A = Check E B} (pass a) (pass b) → a ≡ b
  pass-injective a b e = cc

  -- Whatever the checks pass on satisfies `P`.
  pub record Ensures {B : Type 0} (m : Check E B) (P : B → Type 0) : Type 0 where
    pub at : (b : B) → m ≡ pass b → P b

  bind_at :
      {A B : Type 0} {P : B → Type 0} (m : Check E A) (f : A → Check E B)
      → ((a : A) → m ≡ pass a → Ensures (f a) P)
      → (b : B) → (m >>= f) ≡ pass b
      → P b
  bind_at (pass a) f h b e = (h a refl).at b e
  bind_at drop f h b e = absurd (cc)
  bind_at (abort x) f h b e = absurd (cc)
  bind_at panic f h b e = absurd (cc)

  pub Ensures-bind :
      {A B : Type 0} {P : B → Type 0} (m : Check E A) (f : A → Check E B)
      → ((a : A) → m ≡ pass a → Ensures (f a) P)
      → Ensures (m >>= f) P
  Ensures-bind m f h = record { at = bind_at m f h }

  -- the rule for each kind of check
  pub Ensures-require :
      {B : Type 0} {P : B → Type 0} (b : Bool) (k : Check E B)
      → (b ≡ true → Ensures k P)
      → Ensures (require b >> k) P
  Ensures-require b k h = Ensures-bind (require b) _ (λ u e. h (require-eq-pass b u e))

  pub Ensures-found :
      {A B : Type 0} {P : B → Type 0} (o : Option A) (f : A → Check E B)
      → ((a : A) → o ≡ some a → Ensures (f a) P)
      → Ensures (found o >>= f) P
  Ensures-found o f h = Ensures-bind (found o) f (λ a e. h a (found-eq-pass o e))

  pub Ensures-found_text :
      {B : Type 0} {P : B → Type 0} (o : Option Bytes) (f : Bytes → Check E B)
      → ((a : Bytes) → o ≡ some a → a ≢ [] → Ensures (f a) P)
      → Ensures (found_text o >>= f) P
  Ensures-found_text o f h =
      Ensures-bind (found_text o) f
        (λ a e. h a (found_text-eq-pass o e).0 (found_text-eq-pass o e).1)

  pub Ensures-got :
      {A B : Type 0} {P : B → Type 0} (r : Result (GetError E) A) (f : A → Check E B)
      → ((a : A) → r ≡ ok a → Ensures (f a) P)
      → Ensures (got r >>= f) P
  Ensures-got r f h = Ensures-bind (got r) f (λ a e. h a (got-eq-pass r e))

  pub Ensures-loaded :
      {F A B : Type 0} {P : B → Type 0} (r : Result F A) (f : A → Check E B)
      → ((a : A) → r ≡ ok a → Ensures (f a) P)
      → Ensures (loaded r >>= f) P
  Ensures-loaded r f h = Ensures-bind (loaded r) f (λ a e. h a (loaded-eq-pass r e))

  pub Ensures-pass : {B : Type 0} {P : B → Type 0} (b : B) → P b → Ensures (pass b) P
  Ensures-pass {P} b p = record { at = λ b' e. subst P (pass-injective b b' e) p }

  -- a text that is there and not empty passes
  pub found_text_present :
      (o : Option Bytes) (a : Bytes) → o ≡ some a → a ≢ [] → found_text o ≡ pass a
  found_text_present o [] e n = absurd (n refl)
  found_text_present o (c ∷ s) e n = rw e
