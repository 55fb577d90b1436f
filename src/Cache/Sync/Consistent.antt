-- ===== src/Cache/Sync/Consistent.antt =====
-- Whatever the listings answer and whenever `Sync` stops, the store's tables are consistent.
use rbac_manager.Prelude.{List, [], ◌∷◌, arith, inl, inr}
use mathlib.Core.Path.{subst}
use rbac_manager.Outcome.{Outcome-cases}
use rbac_manager.Cache.{Store, new_store}
use rbac_manager.Cache.Consistency.{IsConsistent}
use rbac_manager.Cache.Consistency.Preservation.{no_tables-IsConsistent, build_tables-IsConsistent}
use rbac_manager.Cache.Update.{build_tables, publish}
use rbac_manager.Cache.Sync.{Round, Event, tick, done, run_round, sync_loop, sync}

round-IsConsistent :
    (r : Round) (c : Store) → IsConsistent c.tables → IsConsistent (run_round r c).1.tables
unfolding run_round publish
round-IsConsistent r c h = elim (Outcome-cases (build_tables r.user_infos r.cluster_infos)) [
  | inl (t, is) ↦
      subst IsConsistent (ground arith)
        (build_tables-IsConsistent r.user_infos r.cluster_infos t is)
  | inr (inl (e, is)) ↦ subst IsConsistent (ground arith) h
  | inr (inr is) ↦ subst IsConsistent (ground arith) h
]

loop-IsConsistent :
    (events : List Event) (c : Store)
    → IsConsistent c.tables
    → IsConsistent (sync_loop events c).1.tables
unfolding sync_loop
loop-IsConsistent [] c h = h
loop-IsConsistent (done reason ∷ _) c h = h
loop-IsConsistent (tick r ∷ events) c h =
    let h' = round-IsConsistent r c h in
    let h'' = loop-IsConsistent events (run_round r c).1 h' in
    elim (Outcome-cases (run_round r c).0) [
      | inl (_, is) ↦ subst IsConsistent (ground arith) h''
      | inr (inl (_, is)) ↦ subst IsConsistent (ground arith) h''
      | inr (inr is) ↦ subst IsConsistent (ground arith) h'
    ]

-- After any events, whatever the listings answered and also where the goroutine has panicked, the
-- tables of a store that `Sync` has worked on are consistent with one another.
pub sync-IsConsistent :
    (first : Round) (events : List Event) → IsConsistent (sync first events new_store).1.tables
unfolding sync new_store sync_loop
sync-IsConsistent first events =
    loop-IsConsistent (tick first ∷ events) new_store no_tables-IsConsistent
