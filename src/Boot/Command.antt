-- ===== src/Boot/Command.antt =====
-- What the command `run` runs.
use rbac_manager.Prelude.{String, List, ◌≡◌, ◌↔◌, arith}
use rbac_manager.Outcome.{Outcome, ok, >>=-then}
use rbac_manager.Config.{Config, validate_config}
use rbac_manager.Config.Valid.{IsValid, IsPositive-iff, validate_config_iff}
use rbac_manager.Cache.{Store}
use rbac_manager.Cache.Sync.{Round, Event, sync, sync_every}
use rbac_manager.Boot.{run_command}

-- The flag, the file and the validation gave the configuration `c`, and running it succeeds.
pub record Runs (get_config : Outcome String String) (parse : String → Outcome String Config)
    (run : Config → Outcome String (Unit {0})) (path : String) (c : Config) : Type 0 where
  pub flag : get_config ≡ ok path
  pub file : parse path ≡ ok c
  pub valid : IsValid c
  pub runs : run c ≡ ok tt

module _ (get_config : Outcome String String) (parse : String → Outcome String Config)
    (run : Config → Outcome String (Unit {0})) where
  -- The command succeeds exactly when the flag names a file that parses to a configuration in the
  -- ranges of `IsValid`, and `run` succeeds with that configuration.
  pub run_command_iff :
      (run_command get_config parse run ≡ ok tt)
      ↔ ((path : String) × (c : Config) × Runs get_config parse run path c)
  unfolding run_command
  run_command_iff = (to, from)
    where
      to :
          run_command get_config parse run ≡ ok tt
          → (path : String) × (c : Config) × Runs get_config parse run path c
      to e = >>=-then get_config _ e λ path flag e₁. >>=-then (parse path) _ e₁ λ c file e₂.
          >>=-then (validate_config c) (λ _. run c) e₂
            λ u valid runs. (
              path,
              c,
              record {
                flag = flag;
                file = file;
                valid = (validate_config_iff c).0 valid;
                runs = runs;
              },
            )

      from :
          (path : String) × (c : Config) × Runs get_config parse run path c
          → run_command get_config parse run ≡ ok tt
      from (path, c, r) =
          let v = (validate_config_iff c).1 r.valid in ground (arith, r.flag, r.file, v, r.runs)

-- With a configuration that passes the validation, `Sync` makes its ticker without a panic: it is
-- `Sync` as it runs with a positive interval, from any store.
pub sync_every-eq-sync :
    (c : Config) (first : Round) (events : List Event) (s : Store)
    → validate_config c ≡ ok tt
    → sync_every c.cache_config.sync_interval first events s ≡ sync first events s
unfolding sync_every sync
sync_every-eq-sync c first events s valid =
    let interval =
      (IsPositive-iff c.cache_config.sync_interval).1
        ((validate_config_iff c).0 valid).sync_interval in
    ground arith
