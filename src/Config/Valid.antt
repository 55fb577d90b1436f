-- ===== src/Config/Valid.antt =====
-- What a configuration that passes the validation guarantees.
use rbac_manager.Prelude.{ℕ, suc, String, true, false, ◌≡◌, ◌≢◌, ◌↔◌, refl, arith, eq_iff, is_empty}
use rbac_manager.Prelude.Int.{ℤ, pos, negsuc, is_positive, is_negative}
use rbac_manager.Outcome.{ok}
use rbac_manager.Config.{Config, validate_cache_config, validate_config}

abbrev pub IsPositive : ℤ → Type 0
IsPositive a = (n : ℕ) × (a ≡ pos (suc n))

abbrev pub IsNonNegative : ℤ → Type 0
IsNonNegative a = (n : ℕ) × (a ≡ pos n)

-- The ranges that the program relies on.
pub record IsValid (c : Config) : Type 0 where
  pub grpc_port : IsPositive c.internal_grpc_port
  pub monitoring_port : IsPositive c.monitoring_port
  pub shutdown_delay : IsNonNegative c.graceful_shutdown_delay
  pub jwks_url : c.jwks_url ≢ ""
  pub sync_interval : IsPositive c.cache_config.sync_interval
  pub user_manager : c.cache_config.user_manager_server_internal_addr ≢ ""
  pub cluster_manager : c.cache_config.cluster_manager_server_internal_addr ≢ ""

pub IsPositive-iff : (a : ℤ) → (is_positive a ≡ true) ↔ IsPositive a
IsPositive-iff (pos ℕ.zero) = (λ e. cc, λ (n, e). cc)
IsPositive-iff (pos (suc n)) = (λ e. (n, refl), λ h. ground arith)
IsPositive-iff (negsuc n) = (λ e. cc, λ (k, e). cc)

IsNonNegative-iff : (a : ℤ) → (is_negative a ≡ false) ↔ IsNonNegative a
IsNonNegative-iff (pos n) = (λ e. (n, refl), λ h. refl)
IsNonNegative-iff (negsuc n) = (λ e. cc, λ (k, e). cc)

-- The tests as the code makes them.
record IsChecked (c : Config) : Type 0 where
  grpc_port : is_positive c.internal_grpc_port ≡ true
  monitoring_port : is_positive c.monitoring_port ≡ true
  shutdown_delay : is_negative c.graceful_shutdown_delay ≡ false
  jwks_url : is_empty c.jwks_url ≡ false
  sync_interval : is_positive c.cache_config.sync_interval ≡ true
  user_manager : is_empty c.cache_config.user_manager_server_internal_addr ≡ false
  cluster_manager : is_empty c.cache_config.cluster_manager_server_internal_addr ≡ false

validate_config-IsChecked : (c : Config) → validate_config c ≡ ok tt → IsChecked c
unfolding validate_config validate_cache_config
validate_config-IsChecked c e = record {
  grpc_port = ground arith;
  monitoring_port = ground arith;
  shutdown_delay = ground arith;
  jwks_url = ground arith;
  sync_interval = ground arith;
  user_manager = ground arith;
  cluster_manager = ground arith;
}

IsChecked-validate_config : (c : Config) → IsChecked c → validate_config c ≡ ok tt
unfolding validate_config validate_cache_config
IsChecked-validate_config c h = ground arith

non_empty_iff : (s : String) → (is_empty s ≡ false) ↔ (s ≢ "")
non_empty_iff s = ground (arith, eq_iff s "")

IsChecked-iff : (c : Config) → IsChecked c ↔ IsValid c
IsChecked-iff c = (
  λ h. record {
    grpc_port = (IsPositive-iff c.internal_grpc_port).0 h.grpc_port;
    monitoring_port = (IsPositive-iff c.monitoring_port).0 h.monitoring_port;
    shutdown_delay = (IsNonNegative-iff c.graceful_shutdown_delay).0 h.shutdown_delay;
    jwks_url = (non_empty_iff c.jwks_url).0 h.jwks_url;
    sync_interval = (IsPositive-iff c.cache_config.sync_interval).0 h.sync_interval;
    user_manager =
        (non_empty_iff c.cache_config.user_manager_server_internal_addr).0 h.user_manager;
    cluster_manager =
        (non_empty_iff c.cache_config.cluster_manager_server_internal_addr).0 h.cluster_manager;
  },
  λ v. record {
    grpc_port = (IsPositive-iff c.internal_grpc_port).1 v.grpc_port;
    monitoring_port = (IsPositive-iff c.monitoring_port).1 v.monitoring_port;
    shutdown_delay = (IsNonNegative-iff c.graceful_shutdown_delay).1 v.shutdown_delay;
    jwks_url = (non_empty_iff c.jwks_url).1 v.jwks_url;
    sync_interval = (IsPositive-iff c.cache_config.sync_interval).1 v.sync_interval;
    user_manager =
        (non_empty_iff c.cache_config.user_manager_server_internal_addr).1 v.user_manager;
    cluster_manager =
        (non_empty_iff c.cache_config.cluster_manager_server_internal_addr).1 v.cluster_manager;
  },
)

-- The validation accepts exactly the configurations in which both ports and the interval of the
-- synchronization are positive, the delay is not negative, and the URL and both addresses are set.
pub validate_config_iff : (c : Config) → (validate_config c ≡ ok tt) ↔ IsValid c
validate_config_iff c = (
  λ e. (IsChecked-iff c).0 (validate_config-IsChecked c e),
  λ v. IsChecked-validate_config c ((IsChecked-iff c).1 v),
)
