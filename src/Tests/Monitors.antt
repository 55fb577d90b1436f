-- ===== src/Tests/Monitors.antt =====
-- The gauge over the small installation, and a registry of collectors.
use rbac_manager.Prelude.{
  ℕ, ◌+◌, ◌≤◌, String, Bool, true, false, Option, none, some, List, [], ◌∷◌, ◌≡◌, ◌≢◌, ◌↔◌, refl,
  arith, ◌==◌, eq_iff, if◌then◌else◌,
}
use rbac_manager.Prelude.Int.{ℤ, pos}
use rbac_manager.Outcome.{panic}
use rbac_manager.Cache.{Tables, new_store}
use rbac_manager.Cache.Sync.{sync}
use rbac_manager.Cache.Sync.Latest.{built, latest_or}
use rbac_manager.Monitoring.{
  Registry, MetricsMonitor, Event, tick, done, max_duration, since, set_gauge, run_monitor,
}
use rbac_manager.Monitoring.Gauge.{
  latest_tick, monitor_ending, showing_age, age_of, run_monitor-latest, set_gauge-sync,
}
use rbac_manager.Tests.World.{round, clusters, store}
use rbac_manager.Tests.Sync.{updating}

unfoldable pub has : List String → String → Bool
has [] n = false
has (m ∷ r) n = if m == n then true else has r n

unfoldable pub drop_name : String → List String → List String
drop_name n [] = []
drop_name n (m ∷ r) = let rest = drop_name n r in if m == n then rest else m ∷ rest

unfoldable pub add_name : String → List String → Option (List String)
unfolding has
add_name n r = if has r n then none else some (n ∷ r)

pub has-drop : (n : String) (r : List String) → has (drop_name n r) n ≡ false
unfolding has drop_name
has-drop n [] = refl
has-drop n (m ∷ r) = ground (arith, has-drop n r)

pub taken_iff : (n : String) (r : List String) → (add_name n r ≡ none) ↔ (has r n ≡ true)
unfolding add_name
taken_iff n r = ground arith

pub has-add : (n : String) (r r' : List String) → add_name n r ≡ some r' → has r' n ≡ true
unfolding add_name has
has-add n r r' e = ground (arith, eq_iff n n)

abbrev pub registry : Registry
registry = record {
  Reg = List String;
  has = has;
  register = add_name;
  unregister = drop_name;
  register_taken = taken_iff;
  has-register = has-add;
  has-unregister = has-drop;
}

pub registry_is_fresh : has [] "llmariner_rbac_server_since_last_cache_sync_sec" ≡ false
unfolding has
registry_is_fresh = refl

abbrev seconds : ℤ → ℤ
seconds d = d

abbrev ticks : List Event
ticks = tick 9 new_store ∷ tick 10 store ∷ done "cancelled" ∷ tick 99 new_store ∷ []

age_run :
    showing_age seconds (latest_tick none ticks) none
    ≡ record { since_last_cache_sync_sec_gauge = some (pos 3) }
unfolding updating since
age_run = refl

run_monitor-latest_example :
    run_monitor seconds (pos 10) ticks (showing_age seconds none none)
    ≡ (monitor_ending ticks, showing_age seconds (latest_tick none ticks) none)
run_monitor-latest_example = run_monitor-latest seconds 9 ticks none

no_panic : built (round 7 clusters) ≢ panic
unfolding updating
no_panic e = cc

past :
    (t : Tables) (at : ℕ)
    → latest_or none (round 7 clusters ∷ []) ≡ some (t, at)
    → at ≤ max_duration + 1
unfolding updating
past t at e = ground arith

abbrev unset : MetricsMonitor ℤ
unset = record { since_last_cache_sync_sec_gauge = none }

set_gauge-sync_example :
    (set_gauge seconds
      (max_duration + 1)
      (sync (round 7 clusters) [] new_store).1
      unset).since_last_cache_sync_sec_gauge
    ≡ some (seconds (pos (age_of (max_duration + 1) (latest_or none (round 7 clusters ∷ [])))))
set_gauge-sync_example =
    set_gauge-sync seconds unset (round 7 clusters) [] (max_duration + 1) no_panic tt (omega arith)
      past
