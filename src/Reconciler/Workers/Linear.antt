-- ===== src/Reconciler/Workers/Linear.antt =====
-- Jobs that overlap, and the same one after the other.
use mathlib.Core.Path.{subst}
use gardener_discovery_serve.Common.{
  ℕ, ◌≡◌, ◌≢◌, ◌⊎◌, inl, inr, refl, sym, ap, ◌∙◌, true, Bool-cases, List, [], ◌∷◌, ◌++◌, append-nil,
  Bytes, ◌==◌, eq→≡, different, All,
}
use gardener_discovery_serve.Reconciler.Workers.{Overlapped, idle, begins, ends, in_order, IsLocal}
use gardener_discovery_serve.Reconciler.Workers.Only.{
  append_single, append_some, All-append, append-All, only, only-append, only_same, only_other,
  only_none, only-All, in_order-append, in_order-IsSound, step_own, in_order-only,
}

module _ {J S V : Type 0} (name_of : J → Bytes) (step : J → S → S) (view : Bytes → S → V)
    (IsSound : S → Type 0) (IsFit : J → Type 0) (local : IsLocal name_of step view IsSound IsFit)
    (workers : ℕ) (s0 : S) (sound_s0 : IsSound s0) where
  -- what some jobs, one after the other, leave under a name
  abbrev left : Bytes → List J → V
  left name jobs = view name (in_order step jobs s0)

  -- Of one name: under it is seen what the jobs that are done have left, where at most the one that
  -- was begun last is not done.
  abbrev IsUpTo : Bytes → List J → List J → S → Type 0
  IsUpTo name begun pending s =
      ((pending ≡ []) × (view name s ≡ left name begun))
      ⊎ ((job : J) × (done : List J) × (pending ≡ job ∷ [])
          × (begun ≡ done ++ job ∷ [])
          × (view name s ≡ left name done))

  starts_one :
      (name : Bytes) (begun pending : List J) (s : S) (job : J)
      → pending ≡ []
      → IsUpTo name begun pending s
      → IsUpTo name (begun ++ job ∷ []) (job ∷ pending) s
  starts_one name begun pending s job free (inl (none_left, up)) =
      inr (job, begun, ap (λ p. job ∷ p) free, refl, up)
  starts_one name begun pending s job free (inr (other, done, one_left, last, up)) =
      absurd (cc (free, one_left))

  begins-IsUpTo :
      (name : Bytes) (begun pending : List J) (s : S) (job : J)
      → All (λ other. name_of other ≢ name_of job) pending
      → IsUpTo name (only name_of name begun) (only name_of name pending) s
      → IsUpTo name (only name_of name (begun ++ job ∷ [])) (only name_of name (job ∷ pending)) s
  begins-IsUpTo name begun pending s job free i = elim (Bool-cases (name_of job == name)) [
    | inl same ↦
        let free_name =
          subst (λ m. All (λ other. name_of other ≢ m) pending) (eq→≡ (name_of job) name same)
            free in
        rw (only_same name_of name job begun [] same, same)
          (starts_one name (only name_of name begun) (only name_of name pending) s job
            (only_none name_of name pending free_name) i)
    | inr other ↦ rw (only_other name_of name job begun [] other, other, append-nil begun) i
  ]

  ends_one :
      (name : Bytes) (begun before after : List J) (s : S) (job : J)
      → (name_of job == name) ≡ true
      → All IsFit begun
      → IsFit job
      → IsSound s
      → IsUpTo name begun (before ++ job ∷ after) s
      → IsUpTo name begun (before ++ after) (step job s)
  ends_one name begun before after s job same fit fit_job sound (inl (none_left, up)) =
      absurd (append_some before after job none_left)
  ends_one name begun before after s job same fit fit_job sound
        (inr (other, done, one_left, last, up)) =
      let (no_before, no_after, is_job) = append_single before after job other one_left in
      let is_last : begun ≡ done ++ job ∷ [] = last ∙ ap (λ j. done ++ j ∷ []) (sym is_job) in
      let fit_done = (All-append IsFit done (job ∷ []) (subst (All IsFit) is_last fit)).0 in
      inl (
        rw (no_before, no_after),
        step_own name_of step view IsSound IsFit local job name s _ same fit_job sound
              (in_order-IsSound name_of step view IsSound IsFit local done s0 fit_done sound_s0) up
            ∙ sym (ap (view name) (in_order-append step done (job ∷ []) s0))
            ∙ ap (left name) (sym is_last),
      )

  keeps_up :
      (name : Bytes) (begun pending : List J) (s t : S)
      → view name t ≡ view name s
      → IsUpTo name begun pending s
      → IsUpTo name begun pending t
  keeps_up name begun pending s t same (inl (none_left, up)) = inl (none_left, same ∙ up)
  keeps_up name begun pending s t same (inr (job, done, one_left, last, up)) =
      inr (job, done, one_left, last, same ∙ up)

  ends-IsUpTo :
      (name : Bytes) (begun before after : List J) (s : S) (job : J)
      → All IsFit begun
      → IsFit job
      → IsSound s
      → IsUpTo name (only name_of name begun) (only name_of name (before ++ job ∷ after)) s
      → IsUpTo name (only name_of name begun) (only name_of name (before ++ after)) (step job s)
  ends-IsUpTo name begun before after s job fit fit_job sound i =
      elim (Bool-cases (name_of job == name)) [
        | inl same ↦ rw (only-append name_of name before after) (
            ends_one name (only name_of name begun) (only name_of name before)
              (only name_of name after) s job same (only-All name_of IsFit name begun fit) fit_job
              sound (rw (only_same name_of name job before after same) at i))
        | inr other ↦
            keeps_up name (only name_of name begun) (only name_of name (before ++ after)) s _
              (local.frame job name s fit_job sound (different _ _ other))
              (rw (only_other name_of name job before after other) at i)
      ]

  -- The jobs under way are fit, and the state is sound.
  Overlapped-IsSound :
      {begun pending : List J} {s : S}
      → Overlapped name_of step workers s0 begun pending s
      → All IsFit begun
      → All IsFit pending × IsSound s
  Overlapped-IsSound idle fit = (tt, sound_s0)
  Overlapped-IsSound (begins {begun} {pending} {s} job o room free) fit =
      let (fit_begun, (fit_job, _)) = All-append IsFit begun (job ∷ []) fit in
      let (fit_pending, sound) = Overlapped-IsSound o fit_begun in ((fit_job, fit_pending), sound)
  Overlapped-IsSound (ends {begun} {s} before after job o) fit =
      let (fit_pending, sound) = Overlapped-IsSound o fit in
      let (fit_before, (fit_job, fit_after)) = All-append IsFit before (job ∷ after) fit_pending in
      (append-All IsFit before after fit_before fit_after, local.keeps job s fit_job sound)

  Overlapped-IsUpTo :
      {begun pending : List J} {s : S} (name : Bytes)
      → Overlapped name_of step workers s0 begun pending s
      → All IsFit begun
      → IsUpTo name (only name_of name begun) (only name_of name pending) s
  Overlapped-IsUpTo name idle fit = inl (refl, refl)
  Overlapped-IsUpTo name (begins {begun} {pending} {s} job o room free) fit =
      begins-IsUpTo name begun pending s job free
        (Overlapped-IsUpTo name o (All-append IsFit begun (job ∷ []) fit).0)
  Overlapped-IsUpTo name (ends {begun} {s} before after job o) fit =
      let (fit_pending, sound) = Overlapped-IsSound o fit in
      let fit_job = ((All-append IsFit before (job ∷ after) fit_pending).1).0 in
      ends-IsUpTo name begun before after s job fit fit_job sound (Overlapped-IsUpTo name o fit)

  up_to_all :
      (name : Bytes) (begun pending : List J) (s : S)
      → All IsFit begun
      → only name_of name pending ≡ []
      → IsUpTo name (only name_of name begun) (only name_of name pending) s
      → view name s ≡ left name begun
  up_to_all name begun pending s fit free (inl (none_left, up)) =
      up
      ∙ sym (
          in_order-only name_of step view IsSound IsFit local name begun s0 s0 fit sound_s0 sound_s0
            refl)
  up_to_all name begun pending s fit free (inr (job, done, one_left, last, up)) =
      absurd (cc (free, one_left))

  -- However jobs overlap, under a name of which none is under way is seen what those that were begun
  -- leave one after the other, in the order in which they were begun.
  pub Overlapped-in_order :
      {begun pending : List J} {s : S} (name : Bytes)
      → Overlapped name_of step workers s0 begun pending s
      → All IsFit begun
      → All (λ job. name_of job ≢ name) pending
      → view name s ≡ view name (in_order step begun s0)
  Overlapped-in_order {begun} {pending} {s} name o fit free =
      up_to_all name begun pending s fit (only_none name_of name pending free)
        (Overlapped-IsUpTo name o fit)
