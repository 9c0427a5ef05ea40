-- ===== src/App/Command/Configured.antt =====
-- With which configuration `NewCommand` of cmd/discovery-server/app/app.go runs.
use mathlib.Core.Path.{subst}
use gardener_discovery_serve.Common.{◌≡◌, Bool, some, ap, Option, List, Bytes}
use gardener_discovery_serve.Common.Results.{Result, ok}
use gardener_discovery_serve.Options.{Options, Config}
use gardener_discovery_serve.Options.Flags.{Pflag, flag_set}
use gardener_discovery_serve.Options.Valid.{
  IsConfigured, IsValid, validate_iff, apply_to-IsConfigured,
}
use gardener_discovery_serve.App.Command.Prepared.{execute_run_iff, execute-some}
use gardener_discovery_serve.App.Command.{CommandError, Cobra, zero_config, execute}

-- The command line gives valid options, and the configuration is made of them.
pub record IsRun {E F : Type 0} (p : Pflag E) (read_file : Bytes → Bytes × Option F)
    (args : List (Bytes × Bytes)) (c : Config) : Type 0 where
  pub opt : Options
  pub parsed : p.parse (flag_set p) args ≡ ok opt
  pub valid : IsValid opt
  pub configured : IsConfigured read_file opt c

module _ {E F R A : Type 0} (cobra : Cobra (CommandError E F R) A) (p : Pflag E)
    (read_file : Bytes → Bytes × Option F) (run : Config → Result R A)
    (args : List (Bytes × Bytes)) where
  -- The command does without an error only what `run` does, for a command line that parses, whose
  -- options are valid, and whose files can be read, with the configuration of those options.
  pub execute-IsRun :
      (asks : List (Bytes × Bytes) → Bool) (a : A)
      → execute cobra p read_file run asks args ≡ ok (some a)
      → (c : Config) × IsRun p read_file args c × (run c ≡ ok a)
  execute-IsRun asks a h =
      let (c, prepared, runs) =
        (execute_run_iff cobra p read_file run args a).0
          (execute-some cobra p read_file run args asks a h) in
      (
        c,
        record {
          opt = prepared.opt;
          parsed = prepared.parsed;
          valid = prepared.valid;
          configured =
              subst (IsConfigured read_file prepared.opt) (ap (λ y. y.0) prepared.applies) (
                apply_to-IsConfigured read_file prepared.opt zero_config
                  ((validate_iff prepared.opt).1 prepared.valid) (ap (λ y. y.1) prepared.applies));
        },
        runs,
      )
