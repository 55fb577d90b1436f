-- ===== src/DatabaseCreator/Creates.antt =====
-- When the command has the database created.
use Prim.Native.String.{◌++◌}
use rbac_manager.Prelude.{String, ◌≡◌, ◌↔◌, arith}
use rbac_manager.Outcome.{Outcome, ok, >>=-then, map_err, map_err-eq-ok}
use rbac_manager.DatabaseCreator.{Config, parse, validate, run, run_command}

module _ {Bytes Db : Type 0} (get_config : Outcome String String)
    (read_file : String → Outcome String Bytes) (unmarshal : Bytes → Outcome String (Config Db))
    (valid open_db : Db → Outcome String (Unit {0})) where
  -- The file that the flag names holds a valid database configuration, with which the database opens.
  pub record Creates (c : Config Db) : Type 0 where
    pub path : String
    pub bytes : Bytes
    pub flag : get_config ≡ ok path
    pub has_read : read_file path ≡ ok bytes
    pub decoded : unmarshal bytes ≡ ok c
    pub is_valid : valid c.storage.config ≡ ok tt
    pub opens : open_db c.storage.config ≡ ok tt

  -- The command succeeds exactly when the file that the flag names can be read and decoded, and the
  -- database configuration in it is valid and opens the database.
  pub create_iff :
      (run_command valid open_db get_config (parse read_file unmarshal) ≡ ok tt)
      ↔ ((c : Config Db) × Creates c)
  unfolding run_command parse validate run
  create_iff = (to, from)
    where
      to :
          run_command valid open_db get_config (parse read_file unmarshal) ≡ ok tt
          → (c : Config Db) × Creates c
      to e = >>=-then get_config _ e λ path flag e₁.
          >>=-then (parse read_file unmarshal path) _ e₁ λ c file e₂.
            >>=-then (valid c.storage.config) (λ _. open_db c.storage.config) e₂
              λ u is_valid opens.
                >>=-then (map_err (λ e. "config: read: " ++ e) (read_file path)) _ file
                  λ bytes has_read decoded. (
                    c,
                    record {
                      path = path;
                      bytes = bytes;
                      flag = flag;
                      has_read = map_err-eq-ok _ _ has_read;
                      decoded = map_err-eq-ok _ _ decoded;
                      is_valid = is_valid;
                      opens = opens;
                    },
                  )

      from :
          (c : Config Db) × Creates c
          → run_command valid open_db get_config (parse read_file unmarshal) ≡ ok tt
      from (c, r) = ground (arith, r.flag, r.has_read, r.decoded, r.is_valid, r.opens)
