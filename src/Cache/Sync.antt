-- ===== src/Cache/Sync.antt =====
-- cache.go, `Sync` and `WaitForSync`. The goroutine of `Sync` is the only writer of a store. What it
-- meets is a list of events: a tick of the ticker, with what the listings then answer, or the end
-- of the context. Where both are ready Go picks one at random, and the list says which.
pub mod Consistent
pub mod Latest
pub mod Ready
pub mod Revoked
use rbac_manager.Prelude.{ℕ, String, true, Option, some, List, [], ◌∷◌, ◌≡◌, if◌then◌else◌}
use rbac_manager.Prelude.Int.{ℤ, is_positive}
use rbac_manager.Outcome.{Outcome, ok, err, panic}
use rbac_manager.Cache.{Store}
use rbac_manager.Cache.Update.{UserInfoLister, ClusterInfoLister, UpdateError, update_cache}

-- One call of `updateCache`: the answers that it gets, and the time when it ends.
pub record Round : Type 0 where
  pub user_infos : UserInfoLister
  pub cluster_infos : ClusterInfoLister
  pub now : ℕ

pub data Event : Type 0 where
  tick : Round → Event
  done : (reason : String) → Event

-- How far the goroutine is after the events.
pub data Progress : Type 0 where
  running : Progress
  returned : (reason : String) → Progress
  panicked : Progress

unfoldable pub run_round : Round → Store → Outcome UpdateError (Unit {0}) × Store
unfolding update_cache
run_round r c = update_cache r.user_infos r.cluster_infos r.now c

-- An error of `updateCache` is logged and ignored.
unfoldable pub sync_loop : List Event → Store → Progress × Store
sync_loop [] c = (running, c)
sync_loop (done reason ∷ _) c = (returned reason, c)
sync_loop (tick r ∷ events) c =
    let (o, c') = run_round r c in
    let rest = sync_loop events c' in elim o [ ok _ ↦ rest | err _ ↦ rest | panic ↦ (panicked, c') ]

-- The first update does not wait for a tick. The interval of the ticker is taken to be positive.
unfoldable pub sync : Round → List Event → Store → Progress × Store
sync first events c =
    let (o, c') = run_round first c in
    let rest = sync_loop events c' in elim o [ ok _ ↦ rest | err _ ↦ rest | panic ↦ (panicked, c') ]

-- `Sync` with the interval of its ticker: `time.NewTicker` panics where that is not positive.
unfoldable pub sync_every : ℤ → Round → List Event → Store → Progress × Store
sync_every interval first events c =
    let (o, c') = run_round first c in
    let rest = if is_positive interval then sync_loop events c' else (panicked, c') in
    elim o [ ok _ ↦ rest | err _ ↦ rest | panic ↦ (panicked, c') ]

-- What `WaitForSync` may return while the store is `c` and the context has ended for the reason
-- `ended`, if it has; where it may return nothing it blocks.
pub data MayReturn (c : Store) (ended : Option String) : Outcome String (Unit {0}) → Type 0 where
  synced : c.closed ≡ true → MayReturn c ended (ok tt)
  cancelled : (reason : String) → ended ≡ some reason → MayReturn c ended (err reason)
