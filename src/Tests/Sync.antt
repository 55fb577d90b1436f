-- ===== src/Tests/Sync.antt =====
-- `Sync` over the small installation.
use rbac_manager.Prelude.{ℕ, none, some, List, [], ◌∷◌, ◌≡◌, ◌≢◌, ◌↔◌, refl}
use rbac_manager.Outcome.{ok, panic}
use rbac_manager.Outcome.Loops.{for_each}
use rbac_manager.GoMap.Loops.{group_by}
use rbac_manager.Cache.{Tables, new_store}
use rbac_manager.Cache.Consistency.{IsConsistent}
use rbac_manager.Cache.Update.{
  add_api_key, add_cluster, add_organization, add_projects, add_project_user, add_user,
  build_tables, publish,
}
use rbac_manager.Cache.Sync.{Event, tick, done, returned, MayReturn, sync, sync_loop, run_round}
use rbac_manager.Cache.Sync.Latest.{
  latest_or, showing, rounds, ending, built, sync-latest, wait_for_sync_iff,
}
use rbac_manager.Cache.Sync.Consistent.{sync-IsConsistent}
use rbac_manager.Cache.Sync.Ready.{HasAcceptable, wait_for_sync-HasAcceptable}
use rbac_manager.Tests.World.{round, clusters, down, store}

abbrev events : List Event
events = tick (round 9 down) ∷ done "cancelled" ∷ tick (round 11 clusters) ∷ []

unfoldable pub updating : Unit {0}
unfolding build_tables for_each group_by add_api_key add_cluster add_organization add_projects
    add_project_user add_user publish sync sync_loop run_round new_store
updating = tt

-- The failed round changes nothing, and nothing happens after the end of the context.
failed_round_ignored : (sync (round 7 clusters) events new_store).0 ≡ returned "cancelled"
unfolding updating
failed_round_ignored = refl

time_of_success : (sync (round 7 clusters) events new_store).1.last_successful_sync_time ≡ 7
unfolding updating
time_of_success = refl

pub no_panic : (now : ℕ) → built (round now clusters) ≢ panic
unfolding updating
no_panic now = λ e. cc

no_panic_down : (now : ℕ) → built (round now down) ≢ panic
unfolding updating
no_panic_down now = λ e. cc

sync-latest_example :
    sync (round 7 clusters) events new_store
    ≡ (ending events, showing (latest_or none (round 7 clusters ∷ rounds events)))
sync-latest_example = sync-latest (round 7 clusters) events (no_panic 7) (no_panic_down 9, tt)

wait_for_sync_iff_example : MayReturn (sync (round 7 clusters) events new_store).1 none (ok tt) ↔ (
    (t : Tables) × (now : ℕ) × (latest_or none (round 7 clusters ∷ rounds events) ≡ some (t, now))
    × ((sync (round 7 clusters) events new_store).1 ≡ showing (some (t, now))))
wait_for_sync_iff_example =
    wait_for_sync_iff (round 7 clusters) events (no_panic 7) (no_panic_down 9, tt) none

wait_for_sync-HasAcceptable_example :
    MayReturn (sync (round 7 clusters) events new_store).1 none (ok tt)
    ↔ HasAcceptable (round 7 clusters ∷ rounds events)
wait_for_sync-HasAcceptable_example =
    wait_for_sync-HasAcceptable (round 7 clusters) events (no_panic 7) (no_panic_down 9, tt) none

sync-IsConsistent_example : IsConsistent store.tables
sync-IsConsistent_example = sync-IsConsistent (round 7 clusters) []
