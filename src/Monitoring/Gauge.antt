-- ===== src/Monitoring/Gauge.antt =====
-- What the gauge shows: the age of the cache at the latest tick.
use rbac_manager.Prelude.{
  ℕ, suc, ◌-◌, ◌≤◌, ◌≡◌, ◌≢◌, Option, none, some, List, [], ◌∷◌, refl, ap, ◌∙◌, arith, All,
}
use rbac_manager.Prelude.Numbers.{min}
use rbac_manager.Prelude.Int.{ℤ, pos}
use rbac_manager.Outcome.{panic}
use rbac_manager.Cache.{Tables, Store, new_store, get_last_successful_sync_time}
use rbac_manager.Cache.Sync
use rbac_manager.Cache.Sync.{Round, Progress, running, returned, sync}
use rbac_manager.Cache.Sync.Latest.{built, rounds, latest_or, showing, sync-latest}
use rbac_manager.Monitoring.{
  MetricsMonitor, Event, tick, done, since, max_duration, set_gauge, monitor_loop, run_monitor,
}

-- The tick that counts: the latest one before the context ends, or `x` if there is none.
abbrev pub latest_tick : Option (ℕ × Store) → List Event → Option (ℕ × Store)
latest_tick x [] = x
latest_tick x (done _ ∷ _) = x
latest_tick x (tick now c ∷ events) = latest_tick (some (now, c)) events

abbrev pub monitor_ending : List Event → Progress
monitor_ending [] = running
monitor_ending (done reason ∷ _) = returned reason
monitor_ending (tick _ _ ∷ events) = monitor_ending events

-- The age of a cache at a time: the difference, up to the longest duration.
abbrev pub age : ℕ × Store → ℤ
age (now, c) = since now c.last_successful_sync_time

module _ {F : Type 0} (seconds : ℤ → F) where
  abbrev pub showing_age : Option (ℕ × Store) → Option F → MetricsMonitor F
  showing_age none g = record { since_last_cache_sync_sec_gauge = g }
  showing_age (some x) g = record { since_last_cache_sync_sec_gauge = some (seconds (age x)) }

  loop-latest :
      (x : Option (ℕ × Store)) (g : Option F) (events : List Event)
      → monitor_loop seconds events (showing_age x g)
        ≡ (monitor_ending events, showing_age (latest_tick x events) g)
  unfolding monitor_loop set_gauge get_last_successful_sync_time
  loop-latest x g [] = refl
  loop-latest x g (done _ ∷ _) = refl
  loop-latest none g (tick now c ∷ events) = loop-latest (some (now, c)) g events
  loop-latest (some y) g (tick now c ∷ events) = loop-latest (some (now, c)) g events

  -- With a positive interval the loop of `Run` returns only when the context ends, with its error, and
  -- the gauge is set to the age of the cache at the latest tick, or stays as it was without a tick.
  pub run_monitor-latest :
      (k : ℕ) (events : List Event) (g : Option F)
      → run_monitor seconds (pos (suc k)) events (showing_age none g)
        ≡ (monitor_ending events, showing_age (latest_tick none events) g)
  unfolding run_monitor
  run_monitor-latest k events g = ground (arith, loop-latest none g events)

-- The age in nanoseconds at the time `now` of what the synchronization published last.
abbrev pub age_of : ℕ → Option (Tables × ℕ) → ℕ
age_of now none = max_duration
age_of now (some (_, at)) = min (now - at) max_duration

since-zero : (now : ℕ) → max_duration ≤ now → since now 0 ≡ pos max_duration
unfolding since
since-zero now h = ground arith

since-range : (now at : ℕ) → at ≤ now → since now at ≡ pos (min (now - at) max_duration)
unfolding since
since-range now at h = ground arith

age-showing :
    (now : ℕ) (x : Option (Tables × ℕ))
    → max_duration ≤ now
    → ((t : Tables) (at : ℕ) → x ≡ some (t, at) → at ≤ now)
    → age (now, showing x) ≡ pos (age_of now x)
age-showing now none late past = since-zero now late
age-showing now (some (t, at)) late past = since-range now at (past t at refl)

-- Where no listing makes `updateCache` panic, the clock is past the longest duration after Go's zero
-- time, and the latest update that succeeded, if any, ended by the clock no later than the tick, a
-- tick sets the gauge to a number of seconds that is not negative: the time since that update, or the
-- longest duration where that is less or no update has succeeded.
pub set_gauge-sync :
    {F : Type 0} (seconds : ℤ → F) (m : MetricsMonitor F) (first : Round) (events : List Sync.Event)
    (now : ℕ)
    → built first ≢ panic
    → All (λ r. built r ≢ panic) (rounds events)
    → max_duration ≤ now
    → ((t : Tables) (at : ℕ) → latest_or none (first ∷ rounds events) ≡ some (t, at) → at ≤ now)
    → (set_gauge seconds now (sync first events new_store).1 m).since_last_cache_sync_sec_gauge
      ≡ some (seconds (pos (age_of now (latest_or none (first ∷ rounds events)))))
unfolding set_gauge get_last_successful_sync_time
set_gauge-sync seconds m first events now no_panic no_panics late past =
    ap (λ (p : Progress × Store). some (seconds (age (now, p.1))))
      (sync-latest first events no_panic no_panics)
    ∙ ap (λ a. some (seconds a))
        (age-showing now (latest_or none (first ∷ rounds events)) late past)
