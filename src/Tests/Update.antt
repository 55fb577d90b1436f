-- ===== src/Tests/Update.antt =====
-- One update of the cache from the listings of the small installation.
use rbac_manager.Prelude.{true, ◌≡◌, ◌≢◌, ◌↔◌, refl}
use rbac_manager.Outcome.{Outcome, ok}
use rbac_manager.Cache.{Store, new_store}
use rbac_manager.Cache.Update.{UpdateError, update_cache}
use rbac_manager.Cache.Update.Built.{Built}
use rbac_manager.Cache.Update.Contents.{Contains, update_cache-Contains}
use rbac_manager.Cache.Update.Members.{HasMembers, update_cache-HasMembers}
use rbac_manager.Cache.Update.Succeeds.{IsAcceptable, update_cache_iff}
use rbac_manager.Tests.World.{users, clusters, store}
use rbac_manager.Tests.Sync.{updating}

pub updates : update_cache users clusters 7 new_store ≡ (ok tt, store)
unfolding updating update_cache
updates = refl

update_cache-Contains_example :
    (b : Built users clusters store.tables) × Contains store b.api_keys b.orgs b.org_users
      b.projects
update_cache-Contains_example = update_cache-Contains users clusters store 7 new_store updates

update_cache-HasMembers_example :
    (b : Built users clusters store.tables) × HasMembers store b.clusters b.org_users
      b.project_users
update_cache-HasMembers_example = update_cache-HasMembers users clusters store 7 new_store updates

unopened : new_store.closed ≡ true → new_store.synced ≡ true
unfolding new_store
unopened e = cc

update_cache_iff_example :
    (((c : Store) × (update_cache users clusters 7 new_store ≡ (ok tt, c)))
      ↔ IsAcceptable users clusters)
    × ((o : Outcome UpdateError (Unit {0})) (c : Store)
        → update_cache users clusters 7 new_store ≡ (o, c)
        → o ≢ ok tt
        → c ≡ new_store)
update_cache_iff_example = update_cache_iff users clusters 7 new_store unopened
