-- ===== src/App/Command/Prepared.antt =====
-- When `NewCommand` of cmd/discovery-server/app/app.go does what `run` does.
use gardener_discovery_serve.Common.{
  ◌≡◌, ◌↔◌, refl, sym, ap, inl, inr, Bool, Bool-cases, ◌∙◌, Option, none, some, List, [], ◌∷◌,
  Bytes,
}
use gardener_discovery_serve.Common.Results.{
  Result, ok, err, ◌>>=◌, wrap-eq-ok, Ensures, Ensures-bind, Ensures-wrap,
}
use gardener_discovery_serve.Options.{Options, Config, OptionError, validate, apply_to}
use gardener_discovery_serve.Options.Flags.{Pflag, flag_set}
use gardener_discovery_serve.Options.Valid.{IsValid, validate_iff}
use gardener_discovery_serve.App.Command.{
  CommandError, Cobra, invalid_flags, run_failed, zero_config, pre_run, applied, execute_run,
  execute,
}

-- The command line parses to valid options, from which the configuration is made without an error.
pub record IsPrepared {E F : Type 0} (p : Pflag E) (read_file : Bytes → Bytes × Option F)
    (args : List (Bytes × Bytes)) (c : Config) : Type 0 where
  pub opt : Options
  pub parsed : p.parse (flag_set p) args ≡ ok opt
  pub valid : IsValid opt
  pub applies : apply_to read_file opt zero_config ≡ (c, none)

module _ {E F R : Type 0} where
  passes :
      (errs : List OptionError) (o valid : Options)
      → ◌≡◌ {A = Result (CommandError E F R) Options} (pre_run errs o) (ok valid)
      → (errs ≡ []) × (o ≡ valid)
  passes [] o valid h = (refl, cc)
  passes (e ∷ errs) o valid h = absurd (cc)

  applied_at :
      (x : Config × Option F) (c : Config)
      → ◌≡◌ {A = Result (CommandError E F R) Config} (applied x) (ok c)
      → x ≡ (c, none)
  applied_at (c', none) c h = cc
  applied_at (c', some e) c h = absurd (cc)

  module _ {A : Type 0} (cobra : Cobra (CommandError E F R) A) (p : Pflag E)
      (read_file : Bytes → Bytes × Option F) (run : Config → Result R A)
      (args : List (Bytes × Bytes)) where
    abbrev IsPreparedRun : A → Type 0
    IsPreparedRun a = (c : Config) × IsPrepared p read_file args c × (run c ≡ ok a)

    execute_run-Ensures : Ensures (execute_run cobra p read_file run args) IsPreparedRun
    unfolding execute_run
    execute_run-Ensures = rw cobra.execute_command_lem (
        Ensures-wrap invalid_flags (p.parse (flag_set p) args) _ λ opt parsed.
          Ensures-bind (pre_run (validate opt) opt) _ λ valid passed.
            Ensures-bind (applied (apply_to read_file valid zero_config)) _ λ c is_applied.
              let (no_errors, same) = passes (validate opt) opt valid passed in
              record {
                at = λ a runs. (
                  c,
                  record {
                    opt = valid;
                    parsed = parsed ∙ ap ok same;
                    valid = (validate_iff valid).0 (ap validate (sym same) ∙ no_errors);
                    applies = applied_at (apply_to read_file valid zero_config) c is_applied;
                  },
                  wrap-eq-ok run_failed (run c) a runs,
                );
              })

    execute_run_prepared : (a : A) → IsPreparedRun a → execute_run cobra p read_file run args ≡ ok a
    unfolding execute_run
    execute_run_prepared a (c, prepared, runs) = rw (
      cobra.execute_command_lem,
      prepared.parsed,
      (validate_iff prepared.opt).1 prepared.valid,
      prepared.applies,
      runs,
    )

    -- The command does without an error what `run` does with a configuration, exactly when the command
    -- line parses to valid options that give this configuration.
    pub execute_run_iff :
        (a : A)
        → (execute_run cobra p read_file run args ≡ ok a)
          ↔ ((c : Config) × IsPrepared p read_file args c × (run c ≡ ok a))
    execute_run_iff a = (execute_run-Ensures.at a, execute_run_prepared a)

    some_result :
        (r : Result (CommandError E F R) A) (a : A)
        → ◌≡◌ {A = Result (CommandError E F R) (Option A)} (r >>= λ b. ok (some b)) (ok (some a))
        → r ≡ ok a
    some_result (ok b) a h = cc
    some_result (err e) a h = absurd (cc)

    -- A command with a result of `run` has run.
    pub execute-some :
        (asks : List (Bytes × Bytes) → Bool) (a : A)
        → execute cobra p read_file run asks args ≡ ok (some a)
        → execute_run cobra p read_file run args ≡ ok a
    unfolding execute
    execute-some asks a h = elim (Bool-cases (asks args)) [
      | inl asked ↦ absurd (cc (h, asked))
      | inr other ↦ some_result (execute_run cobra p read_file run args) a (rw other at h)
    ]
