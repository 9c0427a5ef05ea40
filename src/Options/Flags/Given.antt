-- ===== src/Options/Flags/Given.antt =====
-- Which value a variable of cmd/discovery-server/app/options/options.go gets from a command line.
use gardener_discovery_serve.Common.{
  ◌≡◌, refl, sym, ap, ◌∙◌, inl, inr, Bool-cases, Option, none, some, List, [], ◌∷◌, Bytes, ◌==◌,
  eq→≡, All, if◌then◌else◌, arith,
}
use gardener_discovery_serve.Common.Results.{Result, ok, err, ◌>>=◌}
use gardener_discovery_serve.Options.{Options}
use gardener_discovery_serve.Options.Flags.{Assign, find_flag, assign_flag, assign_each}

abbrev later_or : Option Bytes → Option Bytes → Option Bytes
later_or none earlier = earlier
later_or (some v) earlier = some v

-- The last value of a flag on the command line.
unfoldable pub last_given : Bytes → List (Bytes × Bytes) → Option Bytes
last_given name [] = none
last_given name ((n, v) ∷ args) =
    later_or (last_given name args) (if n == name then some v else none)

module _ {E A : Type 0} (get : Options → A) (name : Bytes) (read : Bytes → Result E A) where
  -- The variable has the value that was given, or else the default.
  abbrev pub IsValue : Option Bytes → A → Options → Type 0
  IsValue none default o = get o ≡ default
  IsValue (some v) default o = read v ≡ ok (get o)

  -- A flag of the name sets the variable, and the others leave it alone.
  abbrev pub IsSetter : Bytes × Assign E → Type 0
  IsSetter (n, assign) =
      (v : Bytes) (o o' : Options)
      → assign v o ≡ ok o'
      → IsValue (if n == name then some v else none) (get o) o'

  find_flag_lem :
      (n v : Bytes) (flags : List (Bytes × Assign E)) (o o' : Options)
      → All IsSetter flags
      → (assign : Assign E) → find_flag n flags ≡ some assign
      → assign v o ≡ ok o'
      → IsValue (if n == name then some v else none) (get o) o'
  unfolding find_flag
  find_flag_lem n v [] o o' all assign h k = absurd (cc)
  find_flag_lem n v ((m, assign') ∷ flags) o o' all assign h k = elim (Bool-cases (m == n)) [
    | inl same ↦
        let is_assign : assign' ≡ assign = cc (h, same) in
        let is_n : m ≡ n = eq→≡ m n same in rw (← is_n) (all.0 v o o' (cc (is_assign, k)))
    | inr differs ↦ find_flag_lem n v flags o o' all.1 assign (rw differs at h) k
  ]

  combine :
      (later earlier : Option Bytes) (default : A) (o o' : Options)
      → IsValue later (get o) o'
      → IsValue earlier default o
      → IsValue (later_or later earlier) default o'
  combine (some v) earlier default o o' h k = h
  combine none none default o o' h k = h ∙ k
  combine none (some v) default o o' h k = k ∙ ap ok (sym h)

  module _ (unknown_flag : Bytes → E) where
    assign_flag_ok :
        (found : Option (Assign E)) (n v : Bytes) (o o' : Options)
        → assign_flag unknown_flag found n v o ≡ ok o'
        → (assign : Assign E) × (found ≡ some assign) × (assign v o ≡ ok o')
    assign_flag_ok none n v o o' h = absurd (cc)
    assign_flag_ok (some assign) n v o o' h = (assign, refl, h)

    bind_ok :
        (m : Result E Options) (f : Options → Result E Options) (o' : Options)
        → (m >>= f) ≡ ok o'
        → (o : Options) × (m ≡ ok o) × (f o ≡ ok o')
    bind_ok (ok o) f o' h = (o, refl, h)
    bind_ok (err e) f o' h = absurd (cc)

    pub assign_each-IsValue :
        (flags : List (Bytes × Assign E)) (args : List (Bytes × Bytes)) (o o' : Options)
        → All IsSetter flags
        → assign_each unknown_flag flags args o ≡ ok o'
        → IsValue (last_given name args) (get o) o'
    unfolding assign_each last_given
    assign_each-IsValue flags [] o o' all h = ap get (ground arith)
    assign_each-IsValue flags ((n, v) ∷ args) o o' all h =
        let (o1, first, rest) =
          bind_ok (assign_flag unknown_flag (find_flag n flags) n v o) _ o' h in
        let (assign, found, assigned) = assign_flag_ok (find_flag n flags) n v o o1 first in
        combine (last_given name args) _ (get o) o1 o'
          (assign_each-IsValue flags args o1 o' all rest)
          (find_flag_lem n v flags o o1 all assign found assigned)
