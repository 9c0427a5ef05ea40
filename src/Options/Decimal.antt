-- ===== src/Options/Decimal.antt =====
-- `strconv.FormatUint` to the base 10, which cmd/discovery-server/app/options/options.go writes the
-- port with.
use gardener_discovery_serve.Common.{
  ℕ, zero, suc, ◌≡◌, refl, ◌<◌, ◌≤◌, All, ◌+◌, ◌*◌, ◌-◌, ◌/◌, ◌%◌, inl, inr, Bool-cases, [], ◌∷◌,
  ◌++◌, Bytes, ltb, if◌then◌else◌, arith,
}

-- the fuel is one more than the number
unfoldable pub digits : ℕ → ℕ → Bytes
digits zero n = []
digits (suc fuel) n =
    let rest = digits fuel (n / 10) in
    if ltb n 10 then (48 + n) ∷ [] else rest ++ ((48 + n % 10) ∷ [])

unfoldable pub format_uint : ℕ → Bytes
unfolding digits
format_uint n = digits (suc n) n

-- what a string of digits stands for
abbrev value_from : ℕ → Bytes → ℕ
value_from acc [] = acc
value_from acc (c ∷ s) = value_from (10 * acc + (c - 48)) s

abbrev pub value : Bytes → ℕ
value s = value_from 0 s

value_from-append :
    (acc d : ℕ) (s : Bytes) → value_from acc (s ++ (d ∷ [])) ≡ 10 * value_from acc s + (d - 48)
value_from-append acc d [] = refl
value_from-append acc d (c ∷ s) = value_from-append (10 * acc + (c - 48)) d s

value-digits : (fuel n : ℕ) → n < fuel → value (digits fuel n) ≡ n
unfolding digits
value-digits zero n h = absurd (omega arith)
value-digits (suc fuel) n h = elim (Bool-cases (ltb n 10)) [
  | inl small ↦ rw small (omega arith)
  | inr large ↦
      rw
        (
          large,
          value_from-append 0 (48 + n % 10) (digits fuel (n / 10)),
          value-digits fuel (n / 10) (ground arith),
        )
        (omega arith)
]

abbrev pub IsDigit : ℕ → Type 0
IsDigit c = (48 ≤ c) × (c < 58)

append-IsDigit : (s : Bytes) (d : ℕ) → All IsDigit s → IsDigit d → All IsDigit (s ++ (d ∷ []))
append-IsDigit [] d all h = (h, tt)
append-IsDigit (c ∷ s) d all h = (all.0, append-IsDigit s d all.1 h)

digits-All : (fuel n : ℕ) → All IsDigit (digits fuel n)
unfolding digits
digits-All zero n = tt
digits-All (suc fuel) n = elim (Bool-cases (ltb n 10)) [
  | inl small ↦ rw small (((omega arith), (ground arith)), tt)
  | inr large ↦ rw large (
      append-IsDigit (digits fuel (n / 10)) (48 + n % 10) (digits-All fuel (n / 10))
        ((omega arith), (omega arith)))
]

-- `strconv.FormatUint` writes a number in digits that stand for it.
pub format_uint-value : (n : ℕ) → (value (format_uint n) ≡ n) × All IsDigit (format_uint n)
unfolding format_uint
format_uint-value n = (value-digits (suc n) n (omega arith), digits-All (suc n) n)
