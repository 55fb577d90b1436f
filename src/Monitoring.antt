-- ===== src/Monitoring.antt =====
-- server/internal/monitoring/monitoring.go: the gauge that shows how old the cache is.
pub mod Gauge
use rbac_manager.Prelude.{
  ℕ, suc, ◌-◌, ◌≡◌, ◌≢◌, ◌↔◌, String, Bool, true, false, Option, none, some, List, [], ◌∷◌,
  if◌then◌else◌,
}
use rbac_manager.Prelude.Numbers.{leb, min}
use rbac_manager.Prelude.Int.{ℤ, pos, negsuc, is_positive}
use rbac_manager.Outcome.{Outcome, ok, panic}
use rbac_manager.Cache.{Store, get_last_successful_sync_time}
use rbac_manager.Cache.Sync.{Progress, running, returned, panicked}

-- The greatest `time.Duration`, 2^63 - 1 nanoseconds.
abbrev pub max_duration : ℕ
max_duration = 9_223_372_036_854_775_807

-- `time.Since(t)` at the time `now`: the difference, or the end of the range that it passes.
unfoldable pub since : (now t : ℕ) → ℤ
since now t =
    if leb t now then pos (min (now - t) max_duration) else negsuc (min (t - now - 1) max_duration)

-- A registry of collectors, by the names of their metrics: `prometheus.Register` and `Unregister`.
pub record Registry : Type 1 where
  pub Reg : Type 0
  pub has : Reg → String → Bool
  pub register : String → Reg → Option Reg
  pub unregister : String → Reg → Reg
  pub register_taken : (n : String) (r : Reg) → (register n r ≡ none) ↔ (has r n ≡ true)
  pub has-register : (n : String) (r r' : Reg) → register n r ≡ some r' → has r' n ≡ true
  pub has-unregister : (n : String) (r : Reg) → has (unregister n r) n ≡ false

-- `llmariner_rbac_server_since_last_cache_sync_sec`, the namespace put before the name.
abbrev pub metric_name : String
metric_name = "llmariner_rbac_server_since_last_cache_sync_sec"

-- `MetricsMonitor`: what its gauge was set to last. `F` is the type of the floating-point numbers.
pub record MetricsMonitor (F : Type 0) : Type 0 where
  pub since_last_cache_sync_sec_gauge : Option F

module _ (p : Registry) {F : Type 0} where
  -- `prometheus.MustRegister` panics where the name is taken.
  unfoldable pub new_metrics_monitor : {E : Type 0} → p.Reg → Outcome E (MetricsMonitor F × p.Reg)
  new_metrics_monitor r = elim (p.register metric_name r) [
    | none ↦ panic
    | some r' ↦ ok (record { since_last_cache_sync_sec_gauge = none }, r')
  ]

unfoldable pub unregister_all_collectors : (p : Registry) → p.Reg → p.Reg
unregister_all_collectors p r = p.unregister metric_name r

-- What the loop of `Run` meets: a tick, with the time and the cache then, or the end of the context.
pub data Event : Type 0 where
  tick : (now : ℕ) → Store → Event
  done : (reason : String) → Event

-- `seconds` is `Duration.Seconds`.
module _ {F : Type 0} (seconds : ℤ → F) where
  unfoldable pub set_gauge : ℕ → Store → MetricsMonitor F → MetricsMonitor F
  set_gauge now c m = record m {
    since_last_cache_sync_sec_gauge = some (seconds (since now (get_last_successful_sync_time c)));
  }

  unfoldable pub monitor_loop : List Event → MetricsMonitor F → Progress × MetricsMonitor F
  monitor_loop [] m = (running, m)
  monitor_loop (done reason ∷ _) m = (returned reason, m)
  monitor_loop (tick now c ∷ events) m = monitor_loop events (set_gauge now c m)

  -- `time.NewTicker` panics where the interval is not positive.
  unfoldable pub run_monitor : ℤ → List Event → MetricsMonitor F → Progress × MetricsMonitor F
  run_monitor interval events m =
      if is_positive interval then monitor_loop events m else (panicked, m)
