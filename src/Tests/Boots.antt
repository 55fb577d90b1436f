-- ===== src/Tests/Boots.antt =====
-- Runs of the process over the small installation.
use rbac_manager.Prelude.{ℕ, true, false, none, some, [], ◌≡◌, ◌≤◌, ◌⊎◌, refl}
use rbac_manager.Cache.{Tables}
use rbac_manager.Cache.Consistency.{IsConsistent}
use rbac_manager.Cache.Sync.{synced}
use rbac_manager.Cache.Sync.Latest.{showing}
use rbac_manager.Monitoring.{metric_name, new_metrics_monitor}
use rbac_manager.Server.Serving.{store_srv, graceful_stop}
use rbac_manager.Boot.{
  Process, waiting, crashed, serving, sleeping, stopping, making_validator, returned, boot,
  after_update, start_servers, stop_server, is_alive, Reach, here, next, updates, sync_seen,
  validator_made, signal_comes, signal_taken, woken, stopped,
}
use rbac_manager.Boot.Ends.{own_moves, IsIdle, CanMove, run_ends}
use rbac_manager.Boot.Invariant.{FromRound, serving-synced}
use rbac_manager.Boot.Crash.{Causes, crash-Causes, is_collecting, collector_iff}
use rbac_manager.Boot.Signals.{unsynced_waits, signal_stops, early_signal-crashes}
use rbac_manager.Tests.World.{round, clusters, down}
use rbac_manager.Tests.Sync.{updating}
use rbac_manager.Tests.Configs.{config, config_is_valid}
use rbac_manager.Tests.Monitors.{registry, registry_is_fresh, has, add_name}

abbrev pub start : Process registry
start = boot registry []

abbrev updated : Process registry
updated = after_update registry config (round 7 clusters) start

abbrev let_through : Process registry
let_through = record updated { stage = making_validator }

abbrev pub served : Process registry
served = start_servers registry let_through

-- A signal arrives before the gRPC goroutine has run.
abbrev signalled : Process registry
signalled = record served { signalled = true }

abbrev stored : Process registry
stored = record signalled { srv = store_srv tt signalled.srv }

abbrev slept : Process registry
slept = record signalled { stage = sleeping; signalled = false }

abbrev stopping_now : Process registry
stopping_now = record slept { stage = stopping }

-- The first update fails, and a signal arrives.
abbrev failed : Process registry
failed = after_update registry config (round 7 down) start

abbrev interrupted : Process registry
interrupted = record failed { signalled = true }

unfoldable pub booting : Unit {0}
unfolding updating boot after_update start_servers stop_server store_srv graceful_stop
    new_metrics_monitor has add_name
booting = tt

pub reach_served : Reach registry config start served
unfolding booting
reach_served =
    next
      (next (next here (updates (round 7 clusters) refl refl refl))
        (sync_seen refl (synced refl) refl))
      (validator_made refl refl)

reach_signalled : Reach registry config start signalled
unfolding booting
reach_signalled = next reach_served (signal_comes refl refl)

reach_stopping : Reach registry config start stopping_now
unfolding booting
reach_stopping = next (next reach_signalled (signal_taken refl refl refl)) (woken refl refl)

reach_interrupted : Reach registry config start interrupted
unfolding booting
reach_interrupted =
    next (next here (updates (round 7 down) refl refl refl)) (signal_comes refl refl)

at_serving : served.stage ≡ serving
unfolding booting
at_serving = refl

no_server_yet : signalled.srv ≡ none
unfolding booting
no_server_yet = refl

server_stored : stored.srv ≡ some tt
unfolding booting
server_stored = refl

crashes : (stop_server registry stopping_now).stage ≡ crashed
unfolding booting
crashes = refl

unsynced : interrupted.store.closed ≡ false
unfolding booting
unsynced = refl

lasting : interrupted.ended ≡ none
unfolding booting
lasting = refl

serving-synced_example :
    (t : Tables) × (now : ℕ) × FromRound t now
    × (served.store ≡ showing (some (t, now)))
    × IsConsistent t
unfolding booting
serving-synced_example = serving-synced config [] served reach_served refl

crash-Causes_example : Causes stopping_now
crash-Causes_example =
    crash-Causes config [] stopping_now (stop_server registry stopping_now) config_is_valid
      registry_is_fresh reach_stopping (stopped refl refl) crashes

collector_iff_example : has served.registry metric_name ≡ is_collecting served.stage
unfolding booting
collector_iff_example = collector_iff config [] served registry_is_fresh reach_served (λ e. cc)

unsynced_waits_example : (interrupted.stage ≡ waiting) ⊎ (interrupted.stage ≡ crashed)
unsynced_waits_example = unsynced_waits config [] interrupted reach_interrupted unsynced lasting

signal_stops_example :
    (t : Process registry) × Reach registry config stored t
    × (t.stage ≡ returned none)
    × (has t.registry metric_name ≡ false)
signal_stops_example = signal_stops config stored at_serving refl server_stored

early_signal-crashes_example :
    (t : Process registry) × Reach registry config signalled t × (t.stage ≡ crashed)
early_signal-crashes_example = early_signal-crashes config signalled at_serving refl no_server_yet

run_ends_example :
    (own_moves reach_stopping ≤ 5)
    × ((is_alive stopping_now.stage ≡ false) ⊎ (IsIdle stopping_now ⊎ CanMove config stopping_now))
run_ends_example = run_ends config [] stopping_now reach_stopping
