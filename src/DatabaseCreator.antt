-- ===== src/DatabaseCreator.antt =====
-- database-creator/cmd: the command that has the database created. `Db` is the configuration type of
-- the library that opens databases, `valid` its method `Validate` and `open_db` its `OpenDB`.
pub mod Creates
use Prim.Native.String.{String, ◌++◌}
use rbac_manager.Outcome.{Outcome, ◌>>=◌, map_err}

pub record StorageConfig (Db : Type 0) : Type 0 where
  pub config : Db

pub record Config (Db : Type 0) : Type 0 where
  pub storage : StorageConfig Db

module _ {Db : Type 0} where
  unfoldable pub parse :
      {Bytes : Type 0}
      → (read_file : String → Outcome String Bytes)
      → (unmarshal : Bytes → Outcome String (Config Db)) → String
      → Outcome String (Config Db)
  parse read_file unmarshal path = do
    b ← map_err (λ e. "config: read: " ++ e) (read_file path)
    map_err (λ e. "config: unmarshal: " ++ e) (unmarshal b)

  module _ (valid open_db : Db → Outcome String (Unit {0})) where
    unfoldable pub validate : Config Db → Outcome String (Unit {0})
    validate c = valid c.storage.config

    unfoldable pub run : Config Db → Outcome String (Unit {0})
    run c = open_db c.storage.config

    -- `RunE` of the command.
    unfoldable pub run_command :
        (get_config : Outcome String String)
        → (parse : String → Outcome String (Config Db)) → Outcome String (Unit {0})
    run_command get_config parse = do path ← get_config; c ← parse path; _ ← validate c; run c
