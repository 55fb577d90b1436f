-- ===== src/Tests/Configs.antt =====
-- Configurations, and the commands that read them.
use rbac_manager.Prelude.{String, [], ◌≡◌, ◌↔◌, refl}
use rbac_manager.Prelude.Int.{pos, negsuc}
use rbac_manager.Outcome.{Outcome, ok, err}
use rbac_manager.Config.{Config, validate_config, validate_cache_config}
use rbac_manager.Config.Valid.{IsValid, validate_config_iff}
use rbac_manager.DatabaseCreator
use rbac_manager.DatabaseCreator.Creates.{Creates, create_iff}

abbrev pub config : Config
config = record {
  internal_grpc_port = pos 8082;
  monitoring_port = pos 8084;
  graceful_shutdown_delay = pos 0;
  dex_server_addr = "dex";
  jwks_url = "http://dex/keys";
  cache_config = record {
    sync_interval = pos 1_000_000_000;
    user_manager_server_internal_addr = "user-manager";
    cluster_manager_server_internal_addr = "cluster-manager";
  };
  role_scopes_map = [];
}

pub config_is_valid : validate_config config ≡ ok tt
unfolding validate_config validate_cache_config
config_is_valid = refl

negative_delay :
    validate_config (record config { graceful_shutdown_delay = negsuc 0 })
    ≡ err "gracefulShutdownDelay must be greater than or equal to 0"
unfolding validate_config
negative_delay = refl

abbrev read_file : String → Outcome String String
read_file path = ok path

validate_config_iff_example : (validate_config config ≡ ok tt) ↔ IsValid config
validate_config_iff_example = validate_config_iff config

abbrev storage : DatabaseCreator.Config String
storage = record { storage = record { config = "postgres" } }

abbrev open_db : String → Outcome String (Unit {0})
open_db db = ok tt

create_iff_example :
    (DatabaseCreator.run_command open_db open_db
        (ok "config.yaml")
        (DatabaseCreator.parse read_file (λ b. ok storage))
      ≡ ok tt)
    ↔ ((c : DatabaseCreator.Config String) × Creates
          (ok "config.yaml")
          read_file
          (λ b. ok storage)
          open_db
          open_db
          c)
create_iff_example = create_iff (ok "config.yaml") read_file (λ b. ok storage) open_db open_db
