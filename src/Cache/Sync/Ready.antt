-- ===== src/Cache/Sync/Ready.antt =====
-- When the first synchronization is over, by the listings.
use rbac_manager.Prelude.{
  ℕ, String, Option, none, some, List, [], ◌∷◌, ◌≡◌, ◌≢◌, ◌↔◌, refl, sym, ap, ◌∙◌, All, In, arith,
  inl, inr, Option-cases,
}
use rbac_manager.Outcome.{ok, panic, Outcome-cases}
use rbac_manager.Cache.{Tables, new_store}
use rbac_manager.Cache.Update.Built.{build_tables-Built}
use rbac_manager.Cache.Update.Succeeds.{IsAcceptable, Built-IsAcceptable, IsAcceptable-build_tables}
use rbac_manager.Cache.Sync.{Round, Event, sync, MayReturn}
use rbac_manager.Cache.Sync.Latest.{
  built, latest_or, showing, rounds, sync-latest, wait_for_sync_iff,
}

-- One of the rounds gets listings that the cache accepts.
abbrev pub HasAcceptable : List Round → Type 0
HasAcceptable rs = (r : Round) × In r rs × IsAcceptable r.user_infos r.cluster_infos

latest_or-HasAcceptable :
    (rs : List Round) (y : Tables × ℕ) → latest_or none rs ≡ some y → HasAcceptable rs
latest_or-HasAcceptable [] y e = absurd (ground arith)
latest_or-HasAcceptable (r ∷ rs) y e = elim (Option-cases (latest_or none rs)) [
  | inr (z, later) ↦ let (q, i, a) = latest_or-HasAcceptable rs z later in (q, inr i, a)
  | inl no_later ↦ elim (Outcome-cases (built r)) [
    | inl (t, made) ↦ (
      r,
      inl refl,
      Built-IsAcceptable r.user_infos r.cluster_infos t
          (build_tables-Built r.user_infos r.cluster_infos t made),
    )
    | inr (inl (x, failed)) ↦ absurd (ground arith)
    | inr (inr panics) ↦ absurd (ground arith)
  ]
]

HasAcceptable-latest_or :
    (rs : List Round) → HasAcceptable rs → (y : Tables × ℕ) × (latest_or none rs ≡ some y)
HasAcceptable-latest_or [] (r, i, a) = absurd i
HasAcceptable-latest_or (q ∷ rs) (r, i, a) = elim (Option-cases (latest_or none rs)) [
  | inr (z, later) ↦ (z, ground arith)
  | inl no_later ↦ elim i [
    | inr i' ↦ let (z, later) = HasAcceptable-latest_or rs (r, i', a) in absurd (ground arith)
    | inl is ↦
        let (t, made) = IsAcceptable-build_tables r.user_infos r.cluster_infos a in
        let made' : built q ≡ ok t = rw (sym is) made in ((t, q.now), ground arith)
  ]
]

module _ (first : Round) (events : List Event) (no_panic : built first ≢ panic)
    (no_panics : All (λ r. built r ≢ panic) (rounds events)) (ended : Option String) where
  -- Where no listing makes `updateCache` panic: `WaitForSync` may return without an error exactly if
  -- one of the updates so far got listings that are all answered, lack no part that the cache reads,
  -- and fit together; it does not matter what the updates before it and after it got.
  pub wait_for_sync-HasAcceptable :
      MayReturn (sync first events new_store).1 ended (ok tt)
      ↔ HasAcceptable (first ∷ rounds events)
  wait_for_sync-HasAcceptable =
      let same = wait_for_sync_iff first events no_panic no_panics ended in
      (
        λ may.
            let (t, now, is, shown) = same.0 may in
            latest_or-HasAcceptable (first ∷ rounds events) (t, now) is,
        λ has.
            let ((t, now), is) = HasAcceptable-latest_or (first ∷ rounds events) has in
            same.1 (
              t,
              now,
              is,
              ap (λ p. p.1) (sync-latest first events no_panic no_panics) ∙ ap showing is,
            ),
      )
