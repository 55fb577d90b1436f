-- ===== src/Config.antt =====
-- server/internal/config/config.go. A duration is its number of nanoseconds. The YAML library's
-- decoder and the reading of the file are parameters.
pub mod Valid
use Prim.Native.String.{◌++◌}
use rbac_manager.Prelude.{ℕ, String, List, not, if◌then◌else◌, is_empty}
use rbac_manager.Prelude.Int.{ℤ, is_positive, is_negative}
use rbac_manager.Outcome.{Outcome, ok, err, ◌>>=◌, map_err}
use rbac_manager.GoMap.{GoMap}

pub record CacheConfig : Type 0 where
  pub sync_interval : ℤ
  pub user_manager_server_internal_addr : String
  pub cluster_manager_server_internal_addr : String

pub record Config : Type 0 where
  pub internal_grpc_port : ℤ
  pub monitoring_port : ℤ
  pub graceful_shutdown_delay : ℤ
  pub dex_server_addr : String
  pub jwks_url : String
  pub cache_config : CacheConfig
  pub role_scopes_map : GoMap (List String)

-- The method `validate` of `CacheConfig`.
unfoldable pub validate_cache_config : CacheConfig → Outcome String (Unit {0})
validate_cache_config c =
    if not (is_positive c.sync_interval)
    then err "syncInterval must be greater than 0"
    else if is_empty c.user_manager_server_internal_addr
    then err "userManagerServerInternalAddr must be set"
    else if is_empty c.cluster_manager_server_internal_addr
    then err "clusterManagerServerInternalAddr must be set"
    else ok tt

-- The method `Validate` of `Config`.
unfoldable pub validate_config : Config → Outcome String (Unit {0})
validate_config c =
    if not (is_positive c.internal_grpc_port)
    then err "internalGrpcPort must be greater than 0"
    else if not (is_positive c.monitoring_port)
    then err "monitoringPort must be greater than 0"
    else if is_negative c.graceful_shutdown_delay
    then err "gracefulShutdownDelay must be greater than or equal to 0"
    else if is_empty c.jwks_url
    then err "jwksUrl must be set"
    else map_err (λ e. "cache: " ++ e) (validate_cache_config c.cache_config)

-- `Parse`: `read_file` is `os.ReadFile`, whose result is `Bytes`, and `unmarshal` is
-- `yaml.Unmarshal` into an empty configuration. What `Parse` returns beside an error is dropped by
-- its caller.
unfoldable pub parse :
    {Bytes : Type 0}
    → (read_file : String → Outcome String Bytes) → (unmarshal : Bytes → Outcome String Config)
    → String
    → Outcome String Config
parse read_file unmarshal path = do
  b ← map_err (λ e. "config: read: " ++ e) (read_file path)
  map_err (λ e. "config: unmarshal: " ++ e) (unmarshal b)
