-- ===== src/Boot/Crash.antt =====
-- What can crash the process, and what becomes of the registry.
use mathlib.Core.Path.{subst}
use rbac_manager.Prelude.{
  String, Bool, true, false, Option, none, ◌≡◌, ◌≢◌, ◌⊎◌, sym, ap, ◌∙◌, arith, inl, inr,
  Option-cases,
}
use rbac_manager.Prelude.Int.{is_positive}
use rbac_manager.Outcome.{ok, panic}
use rbac_manager.Config.{Config, validate_config}
use rbac_manager.Config.Valid.{IsPositive-iff, validate_config_iff}
use rbac_manager.Cache.Sync.{Round, run_round}
use rbac_manager.Cache.Sync.Latest.{built}
use rbac_manager.Boot.Invariant.{Inv, Reach-Inv, run_round-panic}
use rbac_manager.Monitoring.{Registry, metric_name, new_metrics_monitor, unregister_all_collectors}
use rbac_manager.Server.Serving.{graceful_stop}
use rbac_manager.Boot.{
  Stage, serving, sleeping, stopping, crashed, Process, boot, after_update, start_servers, leave,
  stop_server, Step, updates, sync_ends, context_ends, signal_comes, sync_seen, wait_fails,
  validator_fails, validator_made, srv_stored, grpc_ends, monitor_ends, metrics_ends, sync_received,
  grpc_received, monitor_received, metrics_received, signal_taken, woken, stopped, Reach, here,
  next,
}

-- The stages in which the collector is registered.
abbrev pub is_collecting : Stage → Bool
is_collecting serving = true
is_collecting sleeping = true
is_collecting stopping = true
is_collecting _ = false

module _ {p : Registry} where
  -- The collector is registered exactly from the start of the servers until `run` returns, or the
  -- process has crashed.
  abbrev pub IsRegistered : Process p → Type 0
  IsRegistered s = (s.stage ≡ crashed) ⊎ (p.has s.registry metric_name ≡ is_collecting s.stage)

  after_update-IsRegistered :
      (c : Config) (r : Round) (s : Process p)
      → IsRegistered s
      → IsRegistered (after_update p c r s)
  unfolding after_update
  after_update-IsRegistered c r s h = ground arith

  start_servers-IsRegistered : (s : Process p) → IsRegistered (start_servers p s)
  unfolding start_servers new_metrics_monitor
  start_servers-IsRegistered s = elim (Option-cases (p.register metric_name s.registry)) [
    | inl taken ↦ inl (ground arith)
    | inr (r, made) ↦ inr (ground (arith, p.has-register metric_name s.registry r made))
  ]

  leave-IsRegistered : (e : Option String) (s : Process p) → IsRegistered (leave p e s)
  unfolding leave unregister_all_collectors
  leave-IsRegistered e s = inr (p.has-unregister metric_name s.registry)

  stop_server-IsRegistered : (s : Process p) → IsRegistered (stop_server p s)
  unfolding stop_server graceful_stop
  stop_server-IsRegistered s = ground (arith, leave-IsRegistered none s)

  Step-IsRegistered :
      {c : Config} {s t : Process p} → Step p c s t → IsRegistered s → IsRegistered t
  Step-IsRegistered {c} {s} (updates r _ _ e) v =
      subst IsRegistered (sym e) (after_update-IsRegistered c r s v)
  Step-IsRegistered (sync_ends _ _ _ _ _ e) v = subst IsRegistered (sym e) v
  Step-IsRegistered (context_ends _ _ _ e) v = subst IsRegistered (sym e) v
  Step-IsRegistered (signal_comes _ e) v = subst IsRegistered (sym e) v
  Step-IsRegistered (sync_seen at _ e) v = subst IsRegistered (sym e) (ground arith)
  Step-IsRegistered (wait_fails _ at _ e) v = subst IsRegistered (sym e) (ground arith)
  Step-IsRegistered (validator_fails _ at e) v = subst IsRegistered (sym e) (ground arith)
  Step-IsRegistered {s = s} (validator_made at e) v =
      subst IsRegistered (sym e) (start_servers-IsRegistered s)
  Step-IsRegistered (srv_stored _ _ e) v = subst IsRegistered (sym e) v
  Step-IsRegistered (grpc_ends _ _ _ _ e) v = subst IsRegistered (sym e) v
  Step-IsRegistered (monitor_ends _ _ _ _ e) v = subst IsRegistered (sym e) v
  Step-IsRegistered (metrics_ends _ _ _ e) v = subst IsRegistered (sym e) v
  Step-IsRegistered (sync_received x _ _ e) v = subst IsRegistered (sym e) (leave-IsRegistered x _)
  Step-IsRegistered (grpc_received x _ _ e) v = subst IsRegistered (sym e) (leave-IsRegistered x _)
  Step-IsRegistered (monitor_received x _ _ e) v =
      subst IsRegistered (sym e) (leave-IsRegistered x _)
  Step-IsRegistered (metrics_received x _ _ e) v =
      subst IsRegistered (sym e) (leave-IsRegistered x _)
  Step-IsRegistered (signal_taken at _ e) v = subst IsRegistered (sym e) (ground arith)
  Step-IsRegistered (woken at e) v = subst IsRegistered (sym e) (ground arith)
  Step-IsRegistered {s = s} (stopped at e) v =
      subst IsRegistered (sym e) (stop_server-IsRegistered s)

  Reach-IsRegistered :
      {c : Config} (r : p.Reg) {s : Process p}
      → p.has r metric_name ≡ false
      → Reach p c (boot p r) s
      → IsRegistered s
  unfolding boot
  Reach-IsRegistered r fresh here = inr fresh
  Reach-IsRegistered r fresh (next h st) = Step-IsRegistered st (Reach-IsRegistered r fresh h)

  -- What a crash comes from: a listing with a nil message, or a stop before the gRPC goroutine has
  -- stored its server.
  pub data Causes (s : Process p) : Type 0 where
    nil_message : (r : Round) → built r ≡ panic → Causes s
    no_server : s.stage ≡ stopping → s.srv ≡ none → Causes s

  update_causes :
      (c : Config) (r : Round) (s : Process p)
      → is_positive c.cache_config.sync_interval ≡ true
      → s.stage ≢ crashed
      → (after_update p c r s).stage ≡ crashed
      → (run_round r s.store).0 ≡ panic
  unfolding after_update
  update_causes c r s interval alive e = ground arith

  start_causes :
      (s : Process p) → p.has s.registry metric_name ≡ false → (start_servers p s).stage ≢ crashed
  unfolding start_servers new_metrics_monitor
  start_causes s fresh e = elim (Option-cases (p.register metric_name s.registry)) [
    | inl taken ↦ absurd (cc (fresh, (p.register_taken metric_name s.registry).0 taken))
    | inr (r, made) ↦ ground arith
  ]

  stop_causes : (s : Process p) → (stop_server p s).stage ≡ crashed → s.srv ≡ none
  unfolding stop_server graceful_stop leave
  stop_causes s e = ground arith

  abbrev stage_of : Process p → Stage
  stage_of s = s.stage

  Step-Causes :
      {c : Config} {s t : Process p}
      → is_positive c.cache_config.sync_interval ≡ true
      → Inv s
      → IsRegistered s
      → Step p c s t
      → t.stage ≡ crashed
      → Causes s
  unfolding leave
  Step-Causes {c} {s} {t} interval v h (updates r alive _ is) e = nil_message r (
      run_round-panic r s.store v.shows
        (update_causes c r s interval (λ k. cc (alive, k)) (ap stage_of (sym is) ∙ e)))
  Step-Causes {s = s} interval v h (validator_made at is) e =
      absurd (start_causes s (ground arith) (ap stage_of (sym is) ∙ e))
  Step-Causes {s = s} interval v h (stopped at is) e =
      no_server at (stop_causes s (ap stage_of (sym is) ∙ e))
  Step-Causes interval v h (sync_ends reason alive running ticking ended is) e = absurd (cc)
  Step-Causes interval v h (context_ends reason alive fresh is) e = absurd (cc)
  Step-Causes interval v h (signal_comes alive is) e = absurd (cc)
  Step-Causes interval v h (sync_seen at may is) e = absurd (cc)
  Step-Causes interval v h (wait_fails reason at may is) e = absurd (cc)
  Step-Causes interval v h (validator_fails x at is) e = absurd (cc)
  Step-Causes interval v h (srv_stored alive started is) e = absurd (cc)
  Step-Causes interval v h (grpc_ends x alive started stored is) e = absurd (cc)
  Step-Causes interval v h (monitor_ends reason alive started ended is) e = absurd (cc)
  Step-Causes interval v h (metrics_ends x alive started is) e = absurd (cc)
  Step-Causes interval v h (sync_received x at sent is) e = absurd (cc)
  Step-Causes interval v h (grpc_received x at sent is) e = absurd (cc)
  Step-Causes interval v h (monitor_received x at sent is) e = absurd (cc)
  Step-Causes interval v h (metrics_received x at sent is) e = absurd (cc)
  Step-Causes interval v h (signal_taken at held is) e = absurd (cc)
  Step-Causes interval v h (woken at is) e = absurd (cc)

  -- With a configuration that passes the validation and a registry without the metric, the process
  -- crashes only where a listing makes `updateCache` panic, or where `run` stops the gRPC server
  -- before the goroutine of `Run` has stored it.
  pub crash-Causes :
      (c : Config) (r : p.Reg) (s t : Process p)
      → validate_config c ≡ ok tt
      → p.has r metric_name ≡ false
      → Reach p c (boot p r) s
      → Step p c s t
      → t.stage ≡ crashed
      → Causes s
  crash-Causes c r s t valid fresh reached =
      let ok_interval =
        (IsPositive-iff c.cache_config.sync_interval).1
          ((validate_config_iff c).0 valid).sync_interval in
      Step-Causes ok_interval (Reach-Inv r reached) (Reach-IsRegistered r fresh reached)

  -- From a registry without the metric on: as long as the process has not crashed, the metric is
  -- registered exactly from the start of the servers until `run` returns.
  pub collector_iff :
      (c : Config) (r : p.Reg) (s : Process p)
      → p.has r metric_name ≡ false
      → Reach p c (boot p r) s
      → s.stage ≢ crashed
      → p.has s.registry metric_name ≡ is_collecting s.stage
  collector_iff c r s fresh reached alive = elim (Reach-IsRegistered r fresh reached) [
    | inl e ↦ absurd (alive e)
    | inr e ↦ e
  ]
