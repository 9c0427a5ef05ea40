-- ===== src/Store/Writers/Linear.antt =====
-- Calls of `Write` that overlap with others: each takes place when it inserts, with the value that its
-- datum had when it began.
use mathlib.Core.Path.{subst}
use gardener_discovery_serve.Common.{
  ◌≡◌, refl, sym, ap, ◌∙◌, some, inl, inr, Bool-cases, List, [], ◌∷◌, ◌++◌, Bytes, insert, ◌==◌,
  All, All-map, lookup-insert, if◌then◌else◌,
}
use gardener_discovery_serve.Store.Memory.{Heap, M}
use gardener_discovery_serve.Store.DeepCopy.{DeepCopy}
use gardener_discovery_serve.Store.World.{
  World, Action, alloc, poke_byte, write_key, read_key, delete_key, apply, act, Allowed, view, seen,
  change, IsSeparate,
}
use gardener_discovery_serve.Store.Isolation.{view_kept, act-IsSeparate, view-act, seen-view}
use gardener_discovery_serve.Store.Writers.Kept.{
  IsOwnData, IsKept, act-IsKept, grown, grown-IsKept, grown-IsSeparate, copied_own,
}
use gardener_discovery_serve.Store.Writers.{
  Writers, IsAtomic, begin_write, commit_write, Step, other_call, begins, commits, Steps, stay,
  move, Abstract, Label, starts, writes, AbstractStep, AbstractSteps, stays, moves, valued,
  label_of_call, label_of, labels_of,
}

module _ {T V : Type 0} (c : T → M T) (deep : DeepCopy T V c) where
  -- What holds between the steps.
  pub record Inv (w : Writers T) : Type 0 where
    pub separate : IsSeparate c deep w.world
    pub pending_own : All (λ p. IsOwnData c deep w.world p.1) w.pending

  -- What the writers stand for.
  abbrev pub abstract_of : Writers T → Abstract V
  abstract_of w = record {
    values = view c deep w.world;
    writing = valued c deep w.world.heap w.pending;
  }

  kept_all :
      (w w' : World T) (pending : List (Bytes × T))
      → ((d : T) → IsOwnData c deep w d → IsKept c deep w w' d)
      → All (λ p. IsOwnData c deep w p.1) pending
      → All (λ p. IsOwnData c deep w' p.1) pending
        × (valued c deep w'.heap pending ≡ valued c deep w.heap pending)
  kept_all w w' [] kept own = (tt, refl)
  kept_all w w' ((k, d) ∷ pending) kept own =
      let (own_d, same_d) = kept d own.0 in
      let (own_all, same_all) = kept_all w w' pending kept own.1 in ((own_d, own_all), cc)

  valued-append :
      (h : Heap) (xs ys : List (Bytes × T))
      → valued c deep h (xs ++ ys) ≡ valued c deep h xs ++ valued c deep h ys
  valued-append h [] ys = refl
  valued-append h ((k, d) ∷ xs) ys = cc (valued-append h xs ys)

  All-take_out :
      (P : Bytes × T → Type 0) (x : Bytes × T) (front back : List (Bytes × T))
      → All P (front ++ (x ∷ back))
      → P x × All P (front ++ back)
  All-take_out P x [] back h = h
  All-take_out P x (y ∷ front) back h =
      let (px, rest) = All-take_out P x front back h.1 in (px, (h.0, rest))

  insert-IsSeparate :
      (w : World T) (k : Bytes) (d : T)
      → IsSeparate c deep w
      → IsOwnData c deep w d
      → IsSeparate c deep (record w { entries = insert k d w.entries })
  insert-IsSeparate w k d sep own = record {
    known_made = sep.known_made;
    entries_own = λ j x e. elim (Bool-cases (k == j)) [
      | inl same ↦ let is_x : d ≡ x = cc (lookup-insert k j d w.entries, same, e) in rw (← is_x) own
      | inr differs ↦ sep.entries_own j x (cc (lookup-insert k j d w.entries, differs, e))
    ];
  }

  view-insert :
      (w : World T) (k j : Bytes) (d : T)
      → view c deep (record w { entries = insert k d w.entries }) j
        ≡ (if k == j then some (deep.value d w.heap) else view c deep w j)
  view-insert w k j d = elim (Bool-cases (k == j)) [
    | inl same ↦ rw (lookup-insert k j d w.entries, same)
    | inr differs ↦ rw (lookup-insert k j d w.entries, differs)
  ]

  -- A step of a call keeps the invariant, and does to the map of values what the call has to do.
  abbrev IsLinear : Label V → Writers T → Writers T → Type 0
  IsLinear label w w' = Inv w' × AbstractStep label (abstract_of w) (abstract_of w')

  call-IsLinear :
      (w : Writers T) (a : Action T)
      → Inv w
      → IsAtomic a
      → Allowed c deep a w.world
      → IsLinear (label_of_call c deep a) w (record w { world = act c deep a w.world })
  unfolding change apply
  call-IsLinear w a i at al =
      let (own, same) =
        kept_all w.world (act c deep a w.world) w.pending
          (λ d own. act-IsKept c deep a w.world d at i.separate al own) i.pending_own in
      (
        record { separate = act-IsSeparate c deep a w.world i.separate al; pending_own = own },
        by_action a at (λ j. view-act c deep a w.world j i.separate al) same,
      )
    where
      by_action :
          (a : Action T)
          → IsAtomic a
          → ((j : Bytes)
              → view c deep (act c deep a w.world) j
                ≡ apply (change c deep a w.world) (view c deep w.world) j)
          → valued c deep (act c deep a w.world).heap w.pending
            ≡ valued c deep w.world.heap w.pending
          → AbstractStep
              (label_of_call c deep a)
              (abstract_of w)
              (abstract_of (record w { world = act c deep a w.world }))
      by_action (alloc b) at h same = (h, same)
      by_action (poke_byte s n v) at h same = (h, same)
      by_action (write_key k x) at h same = elim at [ ]
      by_action (read_key k) at h same = (h, same)
      by_action (delete_key k) at h same = (h, same)

  begin-IsLinear :
      (w : Writers T) (k : Bytes) (x : T)
      → Inv w
      → Allowed c deep (write_key k x) w.world
      → IsLinear (starts k (deep.value x w.world.heap)) w (begin_write c deep k x w)
  unfolding begin_write
  begin-IsLinear w k x i al =
      let (own, same) =
        kept_all w.world (grown c deep w.world x) w.pending
          (λ d own. grown-IsKept c deep w.world x d own) i.pending_own in
      let made = All-map _ _ (deep.footprint x) (λ a known. i.separate.known_made a known) al in
      (
        record {
          separate = grown-IsSeparate c deep w.world x i.separate;
          pending_own = (copied_own c deep w.world x i.separate, own);
        },
        (
          (λ j.
              view_kept c deep w.world (c x w.world.heap).1 j i.separate
                (λ a u l. (deep.extends x w.world.heap).keeps a l)),
          (cc (deep.same x w.world.heap made, same)),
        ),
      )

  commit-IsLinear :
      (w : Writers T) (k : Bytes) (d : T) (front back : List (Bytes × T))
      → Inv w
      → w.pending ≡ front ++ ((k, d) ∷ back)
      → IsLinear
          (writes k
            (deep.value d w.world.heap)
            (valued c deep w.world.heap front)
            (valued c deep w.world.heap back))
          w
          (commit_write c deep k d front back w)
  unfolding commit_write
  commit-IsLinear w k d front back i is =
      let (own_d, own_rest) =
        All-take_out (λ p. IsOwnData c deep w.world p.1) (k, d) front back
          (subst (All (λ p. IsOwnData c deep w.world p.1)) is i.pending_own) in
      (
        record {
          separate = insert-IsSeparate w.world k d i.separate own_d;
          pending_own = own_rest;
        },
        (
          (ap (valued c deep w.world.heap) is ∙ valued-append w.world.heap front ((k, d) ∷ back)),
          (λ j. view-insert w.world k j d),
          (valued-append w.world.heap front back),
        ),
      )

  Step-IsLinear :
      {w w' : Writers T} (step : Step c deep w w') → Inv w → IsLinear (label_of c deep step) w w'
  Step-IsLinear {w} (other_call a at al e) i =
      subst (IsLinear (label_of_call c deep a) w) (sym e) (call-IsLinear w a i at al)
  Step-IsLinear {w} (begins k x al e) i =
      subst (IsLinear (starts k (deep.value x w.world.heap)) w) (sym e) (begin-IsLinear w k x i al)
  Step-IsLinear {w} (commits k d front back is e) i =
      subst
        (IsLinear
          (writes k (deep.value d w.world.heap) (valued c deep w.world.heap front)
            (valued c deep w.world.heap back))
          w)
        (sym e) (commit-IsLinear w k d front back i is)

  Steps-linear :
      {w w' : Writers T} (path : Steps c deep w w')
      → Inv w
      → Inv w' × AbstractSteps (labels_of c deep path) (abstract_of w) (abstract_of w')
  Steps-linear stay i = (i, stays)
  Steps-linear (move st path) i =
      let (next, abstract_step) = Step-IsLinear st i in
      let (last, abstract_steps) = Steps-linear path next in
      (last, moves abstract_step abstract_steps)

  -- However calls of `Write` overlap with other calls and with each other, the calls, in the order of
  -- their steps, do to the store what they have to do to a map of values: `Delete` removes its key,
  -- `Write` does nothing when it copies its datum, and when it inserts, it puts under its key the value
  -- that its datum had when the call began, and all else leaves the map as it is. A `Read` returns the
  -- value of that map. Callers change and hand over only arrays that they have a reference to, and at
  -- the start nobody has one to an array of the store or of a pending copy.
  pub writers_linear :
      {w w' : Writers T} (path : Steps c deep w w')
      → Inv w
      → AbstractSteps (labels_of c deep path) (abstract_of w) (abstract_of w')
        × ((j : Bytes) → seen c deep j w'.world ≡ (abstract_of w').values j)
  writers_linear {w'} path i =
      let (last, abstract_steps) = Steps-linear path i in
      (abstract_steps, λ j. seen-view c deep j w'.world last.separate)
