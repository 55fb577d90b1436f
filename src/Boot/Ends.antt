-- ===== src/Boot/Ends.antt =====
-- The moves of `run`: there are at most five of them, and it is never stuck.
use rbac_manager.Prelude.{
  ℕ, suc, ◌+◌, ◌≤◌, ◌<◌, String, Bool, Option, true, false, none, ◌≡◌, ◌≢◌, ◌⊎◌, refl, ap, arith,
  inl, inr, if◌then◌else◌, Bool-cases, Option-cases,
}
use rbac_manager.Cache.Sync.{Round, synced, cancelled}
use rbac_manager.Config.{Config}
use rbac_manager.Monitoring.{Registry, new_metrics_monitor}
use rbac_manager.Server.Serving.{graceful_stop}
use rbac_manager.Boot.{
  Goroutine, unstarted, running, finished, sending, Stage, waiting, making_validator, serving,
  sleeping, stopping, crashed, returned, is_alive, Process, boot, after_update, start_servers,
  leave, stop_server, Step, updates, sync_ends, context_ends, signal_comes, sync_seen, wait_fails,
  validator_fails, validator_made, srv_stored, grpc_ends, monitor_ends, metrics_ends, sync_received,
  grpc_received, monitor_received, metrics_received, signal_taken, woken, stopped, Reach, here,
  next,
}

-- How many moves `run` may have left.
abbrev rank : Stage → ℕ
rank waiting = 5
rank making_validator = 4
rank serving = 3
rank sleeping = 2
rank stopping = 1
rank crashed = 0
rank (returned _) = 0

sending-cases :
    (g : Goroutine)
    → ((e : Option String) × (g ≡ sending e)) ⊎ ((e : Option String) → g ≢ sending e)
sending-cases unstarted = inr (λ e is. cc)
sending-cases running = inr (λ e is. cc)
sending-cases finished = inr (λ e is. cc)
sending-cases (sending e) = inl (e, refl)

module _ {p : Registry} where
  -- The moves of `run` itself; all other steps are the other goroutines' and the world's.
  abbrev pub is_own : {c : Config} {s t : Process p} → Step p c s t → Bool
  is_own (sync_seen _ _ _) = true
  is_own (wait_fails _ _ _ _) = true
  is_own (validator_fails _ _ _) = true
  is_own (validator_made _ _) = true
  is_own (sync_received _ _ _ _) = true
  is_own (grpc_received _ _ _ _) = true
  is_own (monitor_received _ _ _ _) = true
  is_own (metrics_received _ _ _ _) = true
  is_own (signal_taken _ _ _) = true
  is_own (woken _ _) = true
  is_own (stopped _ _) = true
  is_own _ = false

  -- The number of the moves of `run` in an execution.
  abbrev pub own_moves : {c : Config} {s t : Process p} → Reach p c s t → ℕ
  own_moves here = 0
  own_moves (next h st) = let moves = own_moves h in if is_own st then suc moves else moves

  -- What `run` waits for has not come: neither the first update nor the end of the context, or neither
  -- a signal nor the end of a goroutine.
  pub data IsIdle (s : Process p) : Type 0 where
    awaits_update : s.stage ≡ waiting → s.store.closed ≡ false → s.ended ≡ none → IsIdle s
    awaits_event :
        s.stage ≡ serving
        → s.signalled ≡ false
        → ((e : Option String) → s.sync ≢ sending e)
        → ((e : Option String) → s.grpc ≢ sending e)
        → ((e : Option String) → s.monitor ≢ sending e)
        → ((e : Option String) → s.metrics ≢ sending e)
        → IsIdle s

  abbrev pub CanMove : Config → Process p → Type 0
  CanMove c s = (t : Process p) × (st : Step p c s t) × (is_own st ≡ true)

  -- What a step of another goroutine or of the world leaves of the stage.
  stays :
      (s : Process p) {t u : Process p}
      → t ≡ u
      → (u.stage ≡ s.stage) ⊎ (u.stage ≡ crashed)
      → rank t.stage ≤ rank s.stage
  stays s {t} {u} e is =
      let at = ap (λ (q : Process p). rank q.stage) e in
      elim is [
        | inl same ↦ omega (arith, at, ap rank same)
        | inr down ↦ omega (arith, at, ap rank down)
      ]

  -- A move of `run` goes on to a stage of a lower rank.
  moves :
      (s : Process p) {t u : Process p} {x y : Stage}
      → t ≡ u
      → s.stage ≡ x
      → (u.stage ≡ y) ⊎ (u.stage ≡ crashed)
      → rank y < rank x
      → suc (rank t.stage) ≤ rank s.stage
  moves s {t} {u} e is becomes less =
      let at = ap (λ (q : Process p). rank q.stage) e in
      elim becomes [
        | inl up ↦ omega (arith, at, ap rank is, ap rank up, less)
        | inr down ↦ omega (arith, at, ap rank is, ap rank down, less)
      ]

  after_update-stage :
      (c : Config) (r : Round) (s : Process p)
      → ((after_update p c r s).stage ≡ s.stage) ⊎ ((after_update p c r s).stage ≡ crashed)
  unfolding after_update
  after_update-stage c r s = ground arith

  start_servers-stage :
      (s : Process p)
      → ((start_servers p s).stage ≡ serving) ⊎ ((start_servers p s).stage ≡ crashed)
  unfolding start_servers new_metrics_monitor
  start_servers-stage s = ground arith

  stop_server-stage :
      (s : Process p)
      → ((stop_server p s).stage ≡ returned none) ⊎ ((stop_server p s).stage ≡ crashed)
  unfolding stop_server graceful_stop leave
  stop_server-stage s = ground arith

  -- No step raises the rank, and a move of `run` lowers it.
  Step-rank :
      {c : Config} {s t : Process p} (st : Step p c s t)
      → (if is_own st then suc (rank t.stage) else rank t.stage) ≤ rank s.stage
  unfolding leave
  Step-rank {c} {s} (updates r _ _ e) = stays s e (after_update-stage c r s)
  Step-rank {s = s} (sync_ends _ _ _ _ _ e) = stays s e (inl refl)
  Step-rank {s = s} (context_ends _ _ _ e) = stays s e (inl refl)
  Step-rank {s = s} (signal_comes _ e) = stays s e (inl refl)
  Step-rank {s = s} (srv_stored _ _ e) = stays s e (inl refl)
  Step-rank {s = s} (grpc_ends _ _ _ _ e) = stays s e (inl refl)
  Step-rank {s = s} (monitor_ends _ _ _ _ e) = stays s e (inl refl)
  Step-rank {s = s} (metrics_ends _ _ _ e) = stays s e (inl refl)
  Step-rank {s = s} (sync_seen is _ e) = moves s e is (inl refl) (omega arith)
  Step-rank {s = s} (wait_fails _ is _ e) = moves s e is (inl refl) (omega arith)
  Step-rank {s = s} (validator_fails _ is e) = moves s e is (inl refl) (omega arith)
  Step-rank {s = s} (validator_made is e) = moves s e is (start_servers-stage s) (omega arith)
  Step-rank {s = s} (sync_received _ is _ e) = moves s e is (inl refl) (omega arith)
  Step-rank {s = s} (grpc_received _ is _ e) = moves s e is (inl refl) (omega arith)
  Step-rank {s = s} (monitor_received _ is _ e) = moves s e is (inl refl) (omega arith)
  Step-rank {s = s} (metrics_received _ is _ e) = moves s e is (inl refl) (omega arith)
  Step-rank {s = s} (signal_taken is _ e) = moves s e is (inl refl) (omega arith)
  Step-rank {s = s} (woken is e) = moves s e is (inl refl) (omega arith)
  Step-rank {s = s} (stopped is e) = moves s e is (stop_server-stage s) (omega arith)

  own_moves-rank :
      {c : Config} {s t : Process p} (h : Reach p c s t) → own_moves h + rank t.stage ≤ rank s.stage
  own_moves-rank here = omega arith
  own_moves-rank (next h st) = ground (arith, own_moves-rank h, Step-rank st)

  module _ (c : Config) (s : Process p) where
    serving_moves : s.stage ≡ serving → IsIdle s ⊎ CanMove c s
    serving_moves is = elim (Bool-cases s.signalled) [
      | inl signalled ↦ inr (_, signal_taken is signalled refl, refl)
      | inr quiet ↦ elim (sending-cases s.sync) [
        | inl (e, sends) ↦ inr (_, sync_received e is sends refl, refl)
        | inr sync ↦ elim (sending-cases s.grpc) [
          | inl (e, sends) ↦ inr (_, grpc_received e is sends refl, refl)
          | inr grpc ↦ elim (sending-cases s.monitor) [
            | inl (e, sends) ↦ inr (_, monitor_received e is sends refl, refl)
            | inr monitor ↦ elim (sending-cases s.metrics) [
              | inl (e, sends) ↦ inr (_, metrics_received e is sends refl, refl)
              | inr metrics ↦ inl (awaits_event is quiet sync grpc monitor metrics)
            ]
          ]
        ]
      ]
    ]

    waiting_moves : s.stage ≡ waiting → IsIdle s ⊎ CanMove c s
    waiting_moves is = elim (Bool-cases s.store.closed) [
      | inl closed ↦ inr (_, sync_seen is (synced closed) refl, refl)
      | inr open_yet ↦ elim (Option-cases s.ended) [
        | inr (reason, ended) ↦ inr (_, wait_fails reason is (cancelled reason ended) refl, refl)
        | inl lasting ↦ inl (awaits_update is open_yet lasting)
      ]
    ]

    goes_on : (x : Stage) → s.stage ≡ x → is_alive x ≡ true → IsIdle s ⊎ CanMove c s
    goes_on waiting is _ = waiting_moves is
    goes_on making_validator is _ = inr (_, validator_made is refl, refl)
    goes_on serving is _ = serving_moves is
    goes_on sleeping is _ = inr (_, woken is refl, refl)
    goes_on stopping is _ = inr (_, stopped is refl, refl)
    goes_on crashed is alive = cc
    goes_on (returned _) is alive = cc

  -- Whatever the other goroutines and the world do: in no execution from the start of `Sync` on does
  -- `run` make more than five moves of its own; and as long as it has not returned and the process has
  -- not crashed, it has a move to make, or it waits for the first update while that has not succeeded
  -- and the context has not ended, or it serves while no signal is there and no goroutine has ended.
  pub run_ends :
      (c : Config) (r : p.Reg) (s : Process p) (h : Reach p c (boot p r) s)
      → (own_moves h ≤ 5) × ((is_alive s.stage ≡ false) ⊎ (IsIdle s ⊎ CanMove c s))
  unfolding boot
  run_ends c r s h = (
    omega (arith, own_moves-rank h),
    elim (Bool-cases (is_alive s.stage)) [
      | inl alive ↦ inr (goes_on c s s.stage refl alive)
      | inr over ↦ inl over
    ],
  )
