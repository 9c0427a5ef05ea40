-- ===== src/Reconciler/Workers/Only.antt =====
-- The jobs of one name among others.
use mathlib.Core.Path.{subst}
use gardener_discovery_serve.Common.{
  ◌≡◌, ◌≢◌, inl, inr, refl, sym, ◌∙◌, true, false, Bool-cases, List, [], ◌∷◌, ◌++◌, Bytes, ◌==◌,
  eq→≡, different, All, if◌then◌else◌,
}
use gardener_discovery_serve.Reconciler.Workers.{in_order, IsLocal}

module _ {A : Type 0} where
  pub append_single : (a b : List A) (x y : A) → a ++ x ∷ b ≡ y ∷ [] → (a ≡ []) × (b ≡ []) × (x ≡ y)
  append_single [] b x y h = (refl, cc, cc)
  append_single (z ∷ []) b x y h = absurd (cc)
  append_single (z ∷ w ∷ a) b x y h = absurd (cc)

  pub append_some : (a b : List A) (x : A) → a ++ x ∷ b ≢ []
  append_some [] b x h = absurd (cc)
  append_some (z ∷ a) b x h = absurd (cc)

module _ {A : Type 0} (P : A → Type 0) where
  pub All-append : (a b : List A) → All P (a ++ b) → All P a × All P b
  All-append [] b h = (tt, h)
  All-append (x ∷ a) b (px, h) = let (ha, hb) = All-append a b h in ((px, ha), hb)

  pub append-All : (a b : List A) → All P a → All P b → All P (a ++ b)
  append-All [] b ha hb = hb
  append-All (x ∷ a) b (px, ha) hb = (px, append-All a b ha hb)

module _ {J : Type 0} (name_of : J → Bytes) where
  abbrev pub only : Bytes → List J → List J
  only name [] = []
  only name (job ∷ jobs) =
      let rest = only name jobs in if name_of job == name then job ∷ rest else rest

  pub only-append : (name : Bytes) (a b : List J) → only name (a ++ b) ≡ only name a ++ only name b
  only-append name [] b = refl
  only-append name (job ∷ a) b = elim (Bool-cases (name_of job == name)) [
    | inl same ↦ rw (same, only-append name a b)
    | inr other ↦ rw (other, only-append name a b)
  ]

  module _ (name : Bytes) (job : J) (a b : List J) where
    pub only_same :
        (name_of job == name) ≡ true → only name (a ++ job ∷ b) ≡ only name a ++ job ∷ only name b
    only_same same = only-append name a (job ∷ b) ∙ (rw same)

    pub only_other : (name_of job == name) ≡ false → only name (a ++ job ∷ b) ≡ only name (a ++ b)
    only_other other = only-append name a (job ∷ b) ∙ (rw (other, only-append name a b))

  pub only_none :
      (name : Bytes) (jobs : List J) → All (λ job. name_of job ≢ name) jobs → only name jobs ≡ []
  only_none name [] h = refl
  only_none name (job ∷ jobs) (other, h) = elim (Bool-cases (name_of job == name)) [
    | inl same ↦ absurd (other (eq→≡ (name_of job) name same))
    | inr differs ↦ rw (differs, only_none name jobs h)
  ]

  pub only-All :
      (P : J → Type 0) (name : Bytes) (jobs : List J) → All P jobs → All P (only name jobs)
  only-All P name [] h = tt
  only-All P name (job ∷ jobs) (p, h) = elim (Bool-cases (name_of job == name)) [
    | inl same ↦ rw same (p, only-All P name jobs h)
    | inr differs ↦ rw differs (only-All P name jobs h)
  ]

pub in_order-append :
    {J S : Type 0} (step : J → S → S) (a b : List J) (s : S)
    → in_order step (a ++ b) s ≡ in_order step b (in_order step a s)
in_order-append step [] b s = refl
in_order-append step (job ∷ a) b s = in_order-append step a b (step job s)

module _ {J S V : Type 0} (name_of : J → Bytes) (step : J → S → S) (view : Bytes → S → V)
    (IsSound : S → Type 0) (IsFit : J → Type 0)
    (local : IsLocal name_of step view IsSound IsFit) where
  pub in_order-IsSound :
      (jobs : List J) (s : S) → All IsFit jobs → IsSound s → IsSound (in_order step jobs s)
  in_order-IsSound [] s fit sound = sound
  in_order-IsSound (job ∷ jobs) s (fit_job, fit) sound =
      in_order-IsSound jobs (step job s) fit (local.keeps job s fit_job sound)

  pub step_own :
      (job : J) (name : Bytes) (s t : S)
      → (name_of job == name) ≡ true
      → IsFit job
      → IsSound s
      → IsSound t
      → view name s ≡ view name t
      → view name (step job s) ≡ view name (step job t)
  step_own job name s t same fit sound sound' h =
      let is_name = eq→≡ (name_of job) name same in
      subst (λ m. view m (step job s) ≡ view m (step job t)) is_name
        (local.own job s t fit sound sound' (subst (λ m. view m s ≡ view m t) (sym is_name) h))

  pub in_order-only :
      (name : Bytes) (jobs : List J) (s t : S)
      → All IsFit jobs
      → IsSound s
      → IsSound t
      → view name s ≡ view name t
      → view name (in_order step jobs s) ≡ view name (in_order step (only name_of name jobs) t)
  in_order-only name [] s t fit sound sound' h = h
  in_order-only name (job ∷ jobs) s t (fit_job, fit) sound sound' h =
      elim (Bool-cases (name_of job == name)) [
        | inl same ↦ rw same (
            in_order-only name jobs (step job s) (step job t) fit (local.keeps job s fit_job sound)
              (local.keeps job t fit_job sound')
              (step_own job name s t same fit_job sound sound' h))
        | inr other ↦ rw other (
            in_order-only name jobs (step job s) t fit (local.keeps job s fit_job sound) sound'
              (local.frame job name s fit_job sound (different _ _ other) ∙ h))
      ]
