-- ===== src/App/Command.antt =====
-- cmd/discovery-server/app/app.go: `NewCommand`, from the command line to the call of `run`. Logging
-- is left out, and so are the flags of other packages that `AddGoFlagSet` adds: the flags are those of
-- options.go, and those of help and of the version.
pub mod Configured
pub mod Prepared
use gardener_discovery_serve.Common.{
  ◌≡◌, ℕ, Bool, true, false, Option, none, some, List, [], ◌∷◌, Bytes, bytes, ◌==◌, if◌then◌else◌,
}
use gardener_discovery_serve.Common.Results.{Result, ok, err, ◌>>=◌, wrap}
use gardener_discovery_serve.Options.{ℤ, pos, Options, Config, OptionError, validate, apply_to}
use gardener_discovery_serve.Options.Flags.{Pflag, flag_set}

pub data CommandError (E F R : Type 0) : Type 0 where
  invalid_flags : E → CommandError E F R
  invalid_options : List OptionError → CommandError E F R
  cannot_apply_options : F → CommandError E F R
  run_failed : R → CommandError E F R

-- The package cobra: `Execute` parses the flags, and calls `PreRunE` and then `RunE`, unless one of
-- the three has failed. The functions have the options as an argument, which they share in the code.
pub record Cobra (X A : Type 0) : Type 0 where
  pub execute_command :
      Result X Options → (Options → Result X Options) → (Options → Result X A) → Result X A
  pub execute_command_lem :
      (parsed : Result X Options) (pre_run : Options → Result X Options)
      (run : Options → Result X A)
      → execute_command parsed pre_run run ≡ (parsed >>= λ o. pre_run o >>= run)

-- the zero value of `options.Config`
abbrev pub zero_config : Config
zero_config = record {
  resync = record { resync_duration = pos 0 };
  serving = record { listen_address = []; cert_file = []; key_file = [] };
  workload_identity = record { open_id_config = []; jwks = []; enabled = false };
}

module _ {E F R : Type 0} where
  -- `PreRunE`: `NewAggregate` of no errors is nil.
  abbrev pub pre_run : List OptionError → Options → Result (CommandError E F R) Options
  pre_run [] o = ok o
  pre_run (e ∷ errs) o = err (invalid_options (e ∷ errs))

  -- `RunE` up to the call of `run`, with the configuration of that call
  abbrev pub applied : Config × Option F → Result (CommandError E F R) Config
  applied (c, none) = ok c
  applied (c, some e) = err (cannot_apply_options e)

  module _ {A : Type 0} (cobra : Cobra (CommandError E F R) A) (p : Pflag E)
      (read_file : Bytes → Bytes × Option F) (run : Config → Result R A) where
    -- The command where neither help nor the version is asked for: what `run` comes to with the
    -- configuration that it gets, or the error that was there before.
    unfoldable pub execute_run : List (Bytes × Bytes) → Result (CommandError E F R) A
    execute_run args =
        cobra.execute_command (wrap invalid_flags (p.parse (flag_set p) args))
          (λ opt. pre_run (validate opt) opt)
          (λ opt.
            applied (apply_to read_file opt zero_config) >>= λ conf. wrap run_failed (run conf))

    -- The command with the flags of a command line. `asks` are the packages cobra and verflag: whether
    -- the command line parses and has `--help`, for which cobra prints the usage and returns no error,
    -- or a `--version`, for which `PrintAndExitIfRequested` ends the process with the status 0. Then
    -- there is no result of `run`.
    unfoldable pub execute :
        (List (Bytes × Bytes) → Bool)
        → List (Bytes × Bytes)
        → Result (CommandError E F R) (Option A)
    unfolding execute_run
    execute asks args = if asks args then ok none else (execute_run args >>= λ a. ok (some a))
