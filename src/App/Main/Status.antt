-- ===== src/App/Main/Status.antt =====
-- The exit status of the program of cmd/discovery-server/main.go.
use gardener_discovery_serve.Common.{
  Bool, false, ◌≡◌, ◌↔◌, refl, sym, ap, ◌∙◌, ◌⊎◌, inl, inr, Option, none, some, List, Bytes,
}
use gardener_discovery_serve.Common.Results.{Result, ok, err, ◌>>=◌}
use gardener_discovery_serve.Utils.Load.{Jose}
use gardener_discovery_serve.Options.{Config, apply_to}
use gardener_discovery_serve.Handler.Openidmeta.{OpenidmetaHandler}
use gardener_discovery_serve.Handler.Certificate.{CertificateHandler}
use gardener_discovery_serve.Handler.Workloadidentity.{Url, NewError}
use gardener_discovery_serve.Reconciler.{Constants}
use gardener_discovery_serve.Metrics.{Promhttp}
use gardener_discovery_serve.Dynamiccert.{Loader}
use gardener_discovery_serve.App.{CipherSuite}
use gardener_discovery_serve.App.Setup.{Runtime, RunError}
use gardener_discovery_serve.Options.Flags.{Pflag}
use gardener_discovery_serve.App.Command.{CommandError, Cobra, zero_config, execute_run, execute}
use gardener_discovery_serve.App.Command.Prepared.{IsPrepared, execute_run_iff}
use gardener_discovery_serve.App.Run.Ends.{manager_gave, server_gave, run_returns_both}
use gardener_discovery_serve.App.Main.{join, RunEnd, end_of, Ended, not_set_up, joined, main}

module _ {S A : Type 0} where
  main_zero : (r : Result S A) → main r ≡ 0 → (a : A) × (r ≡ ok a)
  unfolding main
  main_zero (ok a) h = (a, refl)
  main_zero (err e) h = absurd (cc)

  main_ok : (r : Result S A) (a : A) → r ≡ ok a → main r ≡ 0
  unfolding main
  main_ok r a h = rw h

module _ {X : Type 0} where
  -- The results are none exactly when both goroutines sent none.
  both_none :
      (m v : Option (Option X)) (a b : Option X)
      → ((m ≡ some a) × (v ≡ some b)) ⊎ ((v ≡ some a) × (m ≡ some b))
      → ((a ≡ none) × (b ≡ none)) ↔ ((m ≡ some none) × (v ≡ some none))
  both_none m v a b (inl (is_a, is_b)) =
      (λ (p, q). (cc (is_a, p), cc (is_b, q)), λ (p, q). (cc (is_a, p), cc (is_b, q)))
  both_none m v a b (inr (is_a, is_b)) =
      (λ (p, q). (cc (is_b, q), cc (is_a, p)), λ (p, q). (cc (is_a, q), cc (is_b, p)))

module _ {S X : Type 0} where
  end_of_iff : (a b : Option X) → (end_of {S = S} (join a b) ≡ ok tt) ↔ ((a ≡ none) × (b ≡ none))
  unfolding join
  end_of_iff none none = ((λ h. (refl, refl)), (λ h. refl))
  end_of_iff none (some y) = ((λ h. absurd (cc)), (λ (p, q). absurd (cc q)))
  end_of_iff (some x) none = ((λ h. absurd (cc)), (λ (p, q). absurd (cc p)))
  end_of_iff (some x) (some y) = ((λ h. absurd (cc)), (λ (p, q). absurd (cc p)))

module _ {P F : Type 0} (p : Pflag P) (read_file : Bytes → Bytes × Option F)
    (args : List (Bytes × Bytes)) (c c' : Config) where
  -- A command line gives one configuration.
  IsPrepared-unique : IsPrepared p read_file args c → IsPrepared p read_file args c' → c ≡ c'
  IsPrepared-unique one other =
      let same_ok = sym one.parsed ∙ other.parsed in
      let same_opt : one.opt ≡ other.opt = cc same_ok in
      let same_conf =
        sym one.applies ∙ ap (λ o. apply_to read_file o zero_config) same_opt ∙ other.applies in
      cc same_conf

ran_ok :
    {X : Type 0} (r : Result X (Unit {0})) (a : Option (Unit {0}))
    → ◌≡◌ {A = Result X (Option (Unit {0}))} (r >>= λ b. ok (some b)) (ok a)
    → r ≡ ok tt
ran_ok (ok b) a h = refl
ran_ok (err e) a h = absurd (cc)

module _ {P F R : Type 0} (cobra : Cobra (CommandError P F R) (Unit {0})) (p : Pflag P)
    (read_file : Bytes → Bytes × Option F) (run : Config → Result R (Unit {0}))
    (asks : List (Bytes × Bytes) → Bool) (args : List (Bytes × Bytes)) (c : Config) where
  main_execute_iff :
      asks args ≡ false
      → IsPrepared p read_file args c
      → (main (execute cobra p read_file run asks args) ≡ 0) ↔ (run c ≡ ok tt)
  unfolding execute
  main_execute_iff not_asked prepared =
      let ran = execute_run_iff cobra p read_file run args in
      (
        (λ h.
            let (a, executes) =
              main_zero (execute_run cobra p read_file run args >>= λ a. ok (some a))
                (rw not_asked at h) in
            let (c', other, runs) =
              (ran tt).0 (ran_ok (execute_run cobra p read_file run args) a executes) in
            rw (IsPrepared-unique p read_file args c c' prepared other) runs),
        (λ h. rw (not_asked, (ran tt).1 (c, prepared, h)) (main_ok _ _ refl)),
      )

module _ {E Rest Manager Client JsonError UrlError Key L Cert Sink : Type 0}
    (runtime : Runtime E Rest Manager Client) (constants : Constants) (promhttp : Promhttp)
    (jose : Jose JsonError Key) (parse : Bytes → Result UrlError Url) (valid_uuid : Bytes → Bool)
    (load : Loader L Cert) (log : Sink) (suites : List CipherSuite) (oid : OpenidmetaHandler)
    (ca : CertificateHandler) where
  -- The setup has succeeded, and the manager and the server have sent that they ended without an error.
  abbrev pub IsCleanEnd :
      {X : Type 0} {conf : Config}
      {r : Result (RunEnd (RunError E (NewError JsonError UrlError) L) X) (Unit {0})}
      → Ended {Cert = Cert} runtime constants promhttp jose parse valid_uuid load log suites oid ca
          conf r
      → Type 0
  IsCleanEnd (not_set_up e fails) = ⊥
  IsCleanEnd (joined started n s first second made reached ends) =
      (manager_gave s.manager ≡ some none) × (server_gave s.server ≡ some none)

  clean_iff :
      {X : Type 0} {conf : Config}
      {r : Result (RunEnd (RunError E (NewError JsonError UrlError) L) X) (Unit {0})}
      (ended : Ended {Cert = Cert} runtime constants promhttp jose parse valid_uuid load log suites
        oid ca conf r)
      → (r ≡ ok tt) ↔ IsCleanEnd ended
  clean_iff (not_set_up e fails) = ((λ h. cc), (λ h. elim h [ ]))
  clean_iff (joined started n s first second made reached ends) =
      let both =
        both_none (manager_gave s.manager) (server_gave s.server) first second
          (run_returns_both n s first second reached ends) in
      let (both_ended, ended_both) = end_of_iff first second in
      ((λ h. both.0 (both_ended h)), (λ sent. ended_both (both.1 sent)))

  -- For a command line that asks for neither help nor the version, whose flags are those of options.go
  -- and parse to valid options that give a configuration, and in whatever order the goroutines of
  -- `run` take their steps: when `run` returns for this configuration, the process ends with the
  -- status 0 exactly when the manager and the server could be made and have both ended without an
  -- error.
  pub main_zero_iff :
      {P F X : Type 0}
      (cobra : Cobra
        (CommandError P F (RunEnd (RunError E (NewError JsonError UrlError) L) X))
        (Unit {0}))
      (p : Pflag P) (read_file : Bytes → Bytes × Option F)
      (run : Config → Result (RunEnd (RunError E (NewError JsonError UrlError) L) X) (Unit {0}))
      (asks : List (Bytes × Bytes) → Bool) (args : List (Bytes × Bytes)) (c : Config)
      → asks args ≡ false
      → IsPrepared p read_file args c
      → (ended : Ended {Cert = Cert} runtime constants promhttp jose parse valid_uuid load log
          suites oid ca c
          (run c))
      → (main (execute cobra p read_file run asks args) ≡ 0) ↔ IsCleanEnd ended
  main_zero_iff cobra p read_file run asks args c not_asked prepared ended =
      let clean = clean_iff ended in
      let status = main_execute_iff cobra p read_file run asks args c not_asked prepared in
      ((λ h. clean.0 (status.0 h)), (λ h. status.1 (clean.1 h)))
