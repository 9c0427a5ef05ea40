-- ===== src/Utils/Split.antt =====
-- Laws of `SplitProjectNameAndShootUID` of internal/utils/utils.go.
use mathlib.Core.Path.{subst}
use gardener_discovery_serve.Common.{
  ℕ, ◌≡◌, refl, sym, ◌∙◌, ◌≢◌, ◌↔◌, inl, inr, Bool, true, false, ◌&&◌, List, [], ◌∷◌, ◌++◌, arith,
  Bytes, eqb, Bool-cases,
}
use gardener_discovery_serve.Common.Results.{ok}
use gardener_discovery_serve.Utils.{
  push_front, split, is_blank, check_parts, split_project_name_and_shoot_uid,
}

-- No two dashes stand side by side.
abbrev pub NoDashes : Bytes → Type 0
NoDashes [] = Unit
NoDashes (a ∷ []) = Unit
NoDashes (a ∷ b ∷ s) = (a ≡ b'-' → b ≢ b'-') × NoDashes (b ∷ s)

split-NoDashes : (s : Bytes) → NoDashes s → split s ≡ s ∷ []
unfolding split
split-NoDashes [] h = refl
split-NoDashes (a ∷ []) h = refl
split-NoDashes (a ∷ b ∷ s) h = ground (arith, split-NoDashes (b ∷ s) h.1)

split-append :
    (p u : Bytes) → NoDashes (p ++ (b'-' ∷ [])) → split (p ++ (b'-' ∷ b'-' ∷ u)) ≡ p ∷ split u
unfolding split
split-append [] u h = refl
split-append (a ∷ []) u h = ground arith
split-append (a ∷ b ∷ p) u h = ground (arith, split-append (b ∷ p) u h.1)

split-ne-nil : (s : Bytes) → split s ≢ []
unfolding split
split-ne-nil [] e = cc
split-ne-nil (a ∷ []) e = cc
split-ne-nil (a ∷ b ∷ s) e = ground (arith, split-ne-nil (b ∷ s))

abbrev both_dashes : ℕ → ℕ → Bool
both_dashes a b = eqb a b'-' && eqb b b'-'

split_at_dashes : (a b : ℕ) (s : Bytes) → both_dashes a b ≡ true → split (a ∷ b ∷ s) ≡ [] ∷ split s
unfolding split
split_at_dashes a b s h = rw h

split_push :
    (a b : ℕ) (s : Bytes)
    → both_dashes a b ≡ false
    → split (a ∷ b ∷ s) ≡ push_front a (split (b ∷ s))
unfolding split
split_push a b s h = rw h

both_dashes-false : (a b : ℕ) → both_dashes a b ≡ false → a ≡ b'-' → b ≢ b'-'
both_dashes-false a b h = ground arith

both_dashes-true : (a b : ℕ) → both_dashes a b ≡ true → (a ≡ b'-') × (b ≡ b'-')
both_dashes-true a b h = ground arith

-- A first part that is not empty begins with the first byte.
push_front_inv :
    {parts rest : List Bytes} {a c : ℕ} {q : Bytes}
    → parts ≢ []
    → push_front a parts ≡ (c ∷ q) ∷ rest
    → (a ≡ c) × (parts ≡ q ∷ rest)
push_front_inv {parts = []} n e = absurd (n refl)
push_front_inv {parts = p ∷ ps} n e = (ground arith, ground arith)

push_front-ne-empty :
    (a : ℕ) (parts : List Bytes) {rest : List Bytes} → push_front a parts ≡ [] ∷ rest → ⊥
push_front-ne-empty a [] e = cc
push_front-ne-empty a (p ∷ ps) e = cc

-- One part: the whole text, and no separator in it.
split_one : (s p : Bytes) → split s ≡ p ∷ [] → (s ≡ p) × NoDashes s
unfolding split
split_one [] p h = (ground arith, tt)
split_one (a ∷ []) p h = (ground arith, tt)
split_one (a ∷ b ∷ s) [] h = ground (arith, split-ne-nil s)
split_one (a ∷ b ∷ s) (c ∷ q) h = elim (Bool-cases (both_dashes a b)) [
  | inl yes_dashes ↦ cc (split_at_dashes a b s yes_dashes)
  | inr plain ↦
      let (e, r) = push_front_inv (split-ne-nil (b ∷ s)) (sym (split_push a b s plain) ∙ h) in
      let (same, nd) = split_one (b ∷ s) q r in (cc, (both_dashes-false a b plain, nd))
]

abbrev Cut : Bytes → Bytes → Bytes → Type 0
Cut s p u = (s ≡ p ++ (b'-' ∷ b'-' ∷ u)) × NoDashes (p ++ (b'-' ∷ [])) × NoDashes u

-- the byte before a first part that is cut off
Cut-cons :
    (a b : ℕ) (s q u : Bytes) → (a ≡ b'-' → b ≢ b'-') → Cut (b ∷ s) q u → Cut (a ∷ b ∷ s) (a ∷ q) u
Cut-cons a b s [] u h c = ground arith
Cut-cons a b s (d ∷ q) u h c = ground arith

-- Two parts: the text is the parts with the separator between, and holds no other.
split_two : (s p u : Bytes) → split s ≡ p ∷ u ∷ [] → Cut s p u
unfolding split
split_two [] p u h = absurd (cc)
split_two (a ∷ []) p u h = absurd (cc)
split_two (a ∷ b ∷ s) [] u h = elim (Bool-cases (both_dashes a b)) [
  | inl dashes ↦
      let (same, nd) = split_one s u (cc (split_at_dashes a b s dashes)) in
      let (ea, eb) = both_dashes-true a b dashes in (cc, tt, rw same at nd)
  | inr plain ↦ absurd (push_front-ne-empty a (split (b ∷ s)) (sym (split_push a b s plain) ∙ h))
]
split_two (a ∷ b ∷ s) (c ∷ q) u h = elim (Bool-cases (both_dashes a b)) [
  | inl dashes ↦ absurd (cc (split_at_dashes a b s dashes))
  | inr plain ↦
      let (e, r) = push_front_inv (split-ne-nil (b ∷ s)) (sym (split_push a b s plain) ∙ h) in
      let whole = Cut-cons a b s q u (both_dashes-false a b plain) (split_two (b ∷ s) q u r) in
      subst (λ x. Cut (a ∷ b ∷ s) (x ∷ q) u) e whole
]

-- `key` is `p--u`, the separator stands there once, read from the left, and both sides are more
-- than white space.
pub record IsKeyOf (p u key : Bytes) : Type 0 where
  pub joined : key ≡ p ++ (b'-' ∷ b'-' ∷ u)
  pub project_plain : NoDashes (p ++ (b'-' ∷ []))
  pub uid_plain : NoDashes u
  pub project_present : is_blank p ≡ false
  pub uid_present : is_blank u ≡ false

check_parts_ok :
    (parts : List Bytes) (p u : Bytes)
    → check_parts parts ≡ ok (p, u)
    → (parts ≡ p ∷ u ∷ []) × ((is_blank p ≡ false) × (is_blank u ≡ false))
unfolding check_parts
check_parts_ok [] p u h = cc
check_parts_ok (a ∷ []) p u h = cc
check_parts_ok (a ∷ b ∷ []) p u h = ground arith
check_parts_ok (a ∷ b ∷ c ∷ r) p u h = cc

pub split_project_sound :
    (key p u : Bytes) → split_project_name_and_shoot_uid key ≡ ok (p, u) → IsKeyOf p u key
unfolding split_project_name_and_shoot_uid
split_project_sound key p u h =
    let (whole, good) = check_parts_ok (split key) p u h in
    let (same, first, second) = split_two key p u whole in
    record {
      joined = same;
      project_plain = first;
      uid_plain = second;
      project_present = good.0;
      uid_present = good.1;
    }

pub split_project_complete :
    {key p u : Bytes} → IsKeyOf p u key → split_project_name_and_shoot_uid key ≡ ok (p, u)
unfolding split_project_name_and_shoot_uid
split_project_complete {key} {p} {u} h =
    rw h.joined
      (rw (split-append p u h.project_plain) (rw (split-NoDashes u h.uid_plain) (ground arith)))

-- `SplitProjectNameAndShootUID` returns `(p, u)` for exactly the keys that are `p--u` with one
-- separator and two sides that are not blank.
pub split_project_iff :
    (key p u : Bytes) → (split_project_name_and_shoot_uid key ≡ ok (p, u)) ↔ IsKeyOf p u key
split_project_iff key p u = (split_project_sound key p u, split_project_complete)
