-- ===== src/Boot/Signals.antt =====
-- What a signal does to the process.
use mathlib.Core.Path.{subst}
use rbac_manager.Prelude.{
  String, true, false, none, some, ◌≡◌, ◌⊎◌, refl, sym, ap, ◌∙◌, arith, inl, inr,
}
use rbac_manager.Config.{Config}
use rbac_manager.Cache.{Store}
use rbac_manager.Cache.Sync.{Round, synced, cancelled}
use rbac_manager.Monitoring.{Registry, metric_name, unregister_all_collectors}
use rbac_manager.Server.Serving.{graceful_stop}
use rbac_manager.Boot.Invariant.{
  Inv, Reach-Inv, is_past_wait, after_update-closed, start_servers-store, stop_server-store,
}
use rbac_manager.Boot.{
  waiting, serving, stopping, crashed, returned, Process, boot, after_update, leave, stop_server,
  Step, updates, sync_ends, context_ends, signal_comes, sync_seen, wait_fails, validator_fails,
  validator_made, srv_stored, grpc_ends, monitor_ends, metrics_ends, sync_received, grpc_received,
  monitor_received, metrics_received, signal_taken, woken, stopped, Reach, here, next,
}

module _ {p : Registry} where
  -- Why the process need not be waiting any more.
  pub data Progresses (s : Process p) : Type 0 where
    waits : s.stage ≡ waiting → Progresses s
    has_crashed : s.stage ≡ crashed → Progresses s
    has_synced : s.store.closed ≡ true → Progresses s
    has_ended : (reason : String) → s.ended ≡ some reason → Progresses s

  moved : {s t : Process p} → t ≡ s → Progresses s → Progresses t
  moved e h = subst Progresses (sym e) h

  -- Steps that leave the stage, the channel of the synchronization and the context alone.
  same :
      {s : Process p} (t : Process p)
      → t.stage ≡ s.stage
      → t.store ≡ s.store
      → t.ended ≡ s.ended
      → Progresses s
      → Progresses t
  same t stage store ended (waits e) = waits (stage ∙ e)
  same t stage store ended (has_crashed e) = has_crashed (stage ∙ e)
  same t stage store ended (has_synced e) = has_synced (ap (λ (c : Store). c.closed) store ∙ e)
  same t stage store ended (has_ended reason e) = has_ended reason (ended ∙ e)

  after_update-keeps :
      (c : Config) (r : Round) (s : Process p)
      → ((after_update p c r s).stage ≡ s.stage ⊎ (after_update p c r s).stage ≡ crashed)
        × ((after_update p c r s).ended ≡ s.ended)
  unfolding after_update
  after_update-keeps c r s = (ground arith, ground arith)

  after_update-Progresses :
      (c : Config) (r : Round) (s : Process p)
      → Inv s
      → Progresses s
      → Progresses (after_update p c r s)
  after_update-Progresses c r s v h = elim (after_update-keeps c r s).0 [
    | inr down ↦ has_crashed down
    | inl stage ↦ elim h [
      | waits e ↦ waits (stage ∙ e)
      | has_crashed e ↦ has_crashed (stage ∙ e)
      | has_synced e ↦ has_synced (after_update-closed c r s v e)
      | has_ended reason e ↦ has_ended reason ((after_update-keeps c r s).1 ∙ e)
    ]
  ]

  -- A process past the wait has synced, and so has one after a step that leaves the cache alone.
  past :
      {s : Process p} (t : Process p)
      → Inv s
      → is_past_wait s.stage ≡ true
      → t.store ≡ s.store
      → Progresses t
  past t v e store = has_synced (ap (λ (c : Store). c.closed) store ∙ v.past e)

  Step-Progresses :
      {c : Config} {s t : Process p} → Step p c s t → Inv s → Progresses s → Progresses t
  unfolding leave
  Step-Progresses {c} {s} (updates r _ _ e) v h = moved e (after_update-Progresses c r s v h)
  Step-Progresses (sync_ends _ _ _ _ _ e) v h = moved e (same _ refl refl refl h)
  Step-Progresses (context_ends reason _ _ e) v h = moved e (has_ended reason refl)
  Step-Progresses (signal_comes _ e) v h = moved e (same _ refl refl refl h)
  Step-Progresses (sync_seen _ (synced closed) e) v h = moved e (has_synced closed)
  Step-Progresses (wait_fails _ _ (cancelled reason ended) e) v h = moved e (has_ended reason ended)
  Step-Progresses (validator_fails _ at e) v h = moved e (past _ v (ap is_past_wait at) refl)
  Step-Progresses {s = s} (validator_made at e) v h =
      moved e (past _ v (ap is_past_wait at) (start_servers-store s))
  Step-Progresses (srv_stored _ _ e) v h = moved e (same _ refl refl refl h)
  Step-Progresses (grpc_ends _ _ _ _ e) v h = moved e (same _ refl refl refl h)
  Step-Progresses (monitor_ends _ _ _ _ e) v h = moved e (same _ refl refl refl h)
  Step-Progresses (metrics_ends _ _ _ e) v h = moved e (same _ refl refl refl h)
  Step-Progresses (sync_received _ at _ e) v h = moved e (past _ v (ap is_past_wait at) refl)
  Step-Progresses (grpc_received _ at _ e) v h = moved e (past _ v (ap is_past_wait at) refl)
  Step-Progresses (monitor_received _ at _ e) v h = moved e (past _ v (ap is_past_wait at) refl)
  Step-Progresses (metrics_received _ at _ e) v h = moved e (past _ v (ap is_past_wait at) refl)
  Step-Progresses (signal_taken at _ e) v h = moved e (past _ v (ap is_past_wait at) refl)
  Step-Progresses (woken at e) v h = moved e (past _ v (ap is_past_wait at) refl)
  Step-Progresses {s = s} (stopped at e) v h =
      moved e (past _ v (ap is_past_wait at) (stop_server-store s).0)

  Reach-Progresses :
      {c : Config} (r : p.Reg) {s : Process p} → Reach p c (boot p r) s → Progresses s
  unfolding boot
  Reach-Progresses r here = waits refl
  Reach-Progresses r (next h st) = Step-Progresses st (Reach-Inv r h) (Reach-Progresses r h)

  -- As long as no update has succeeded and the context has not ended, `run` waits, or the process has
  -- crashed: no signal makes it return.
  pub unsynced_waits :
      (c : Config) (r : p.Reg) (s : Process p)
      → Reach p c (boot p r) s
      → s.store.closed ≡ false
      → s.ended ≡ none
      → (s.stage ≡ waiting) ⊎ (s.stage ≡ crashed)
  unsynced_waits c r s reached unsynced lasting = elim (Reach-Progresses r reached) [
    | waits e ↦ inl e
    | has_crashed e ↦ inr e
    | has_synced e ↦ absurd (cc)
    | has_ended reason e ↦ absurd (cc)
  ]

  -- The steps from the signal to `GracefulStop`.
  abbrev woken_up : Process p → Process p
  woken_up s = record s { stage = stopping; signalled = false }

  to_stop :
      (c : Config) (s : Process p)
      → s.stage ≡ serving
      → s.signalled ≡ true
      → Reach p c s (stop_server p (woken_up s))
  to_stop c s at held =
      next (next (next here (signal_taken at held refl)) (woken refl refl)) (stopped refl refl)

  stop_server-returns :
      (s : Process p)
      → s.srv ≡ some tt
      → ((stop_server p s).stage ≡ returned none)
        × (p.has (stop_server p s).registry metric_name ≡ false)
  unfolding stop_server graceful_stop leave unregister_all_collectors
  stop_server-returns s e = (ground arith, ground (arith, p.has-unregister metric_name s.registry))

  stop_server-crashes : (s : Process p) → s.srv ≡ none → (stop_server p s).stage ≡ crashed
  unfolding stop_server graceful_stop
  stop_server-crashes s e = ground arith

  -- A serving process that holds a signal, and whose gRPC goroutine has stored its server, can go on
  -- to the end of `run`, which then returns without an error and with the metric unregistered.
  pub signal_stops :
      (c : Config) (s : Process p)
      → s.stage ≡ serving
      → s.signalled ≡ true
      → s.srv ≡ some tt
      → (t : Process p) × Reach p c s t
        × (t.stage ≡ returned none)
        × (p.has t.registry metric_name ≡ false)
  signal_stops c s at held stored =
      let (ends, gone) = stop_server-returns (woken_up s) stored in
      (_, to_stop c s at held, ends, gone)

  -- A serving process that holds a signal before its gRPC goroutine has stored the server can crash.
  pub early_signal-crashes :
      (c : Config) (s : Process p)
      → s.stage ≡ serving
      → s.signalled ≡ true
      → s.srv ≡ none
      → (t : Process p) × Reach p c s t × (t.stage ≡ crashed)
  early_signal-crashes c s at held early =
      (_, to_stop c s at held, stop_server-crashes (woken_up s) early)
