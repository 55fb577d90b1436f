-- ===== src/Tests/Revoked.antt =====
-- The API key of the small installation is revoked, and after that the clusters cannot be listed.
use rbac_manager.Prelude.{List, [], ◌∷◌, ◌≡◌, ◌≢◌, refl, All, arith}
use rbac_manager.Outcome.{ok, panic}
use rbac_manager.Cache.{Tables, new_store}
use rbac_manager.Cache.Update.{UserInfoLister}
use rbac_manager.Cache.Sync.{Round, Event, tick, sync}
use rbac_manager.Cache.Sync.Latest.{built}
use rbac_manager.Cache.Sync.Revoked.{IsUnlisted}
use rbac_manager.Server.{CacheGetter, store_getter}
use rbac_manager.Server.Reads.{steady}
use rbac_manager.Server.Authorize.{authorize}
use rbac_manager.Server.Authorize.Grounds.{Grants}
use rbac_manager.Server.Authorize.Revoked.{authorize-IsUnlisted}
use rbac_manager.Tests.World.{users, clusters, down, round, server, same, ask}
use rbac_manager.Tests.Sync.{updating, no_panic}
use rbac_manager.Tests.Decisions.{key_answer}

abbrev no_keys : UserInfoLister
no_keys = record users { list_internal_api_keys = ok [] }

abbrev revoking : Round
revoking = record { user_infos = no_keys; cluster_infos = clusters; now = 9 }

abbrev failing : Round
failing = record { user_infos = no_keys; cluster_infos = down; now = 11 }

abbrev events : List Event
events = tick revoking ∷ tick failing ∷ []

abbrev g : CacheGetter
g = store_getter (sync (round 7 clusters) events new_store).1

abbrev tables : Tables
tables = (sync revoking [] new_store).1.tables

no_panics : All (λ r. built r ≢ panic) (revoking ∷ failing ∷ [])
unfolding updating
no_panics = ((λ e. cc), ((λ e. cc), tt))

made : built revoking ≡ ok tables
unfolding updating
made = refl

unlisted : (r : Round) → r.user_infos.list_internal_api_keys ≡ ok [] → IsUnlisted "s0" r
unlisted r none_listed keys listed = ground arith

authorize-IsUnlisted_example :
    ¬ Grants (authorize same server (ask "s0" "api.models" "") (steady g) 0).0 key_answer
authorize-IsUnlisted_example =
    authorize-IsUnlisted same server (steady g) (ask "s0" "api.models" "") (λ is e. ground arith)
      (round 7 clusters) events (round 7 clusters ∷ []) revoking (failing ∷ []) tables 0
      (no_panic 7) no_panics refl made (unlisted revoking refl, (unlisted failing refl, tt)) refl
      key_answer
