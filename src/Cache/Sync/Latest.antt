-- ===== src/Cache/Sync/Latest.antt =====
-- What the loop of `Sync` makes of a new store: the tables of the latest round that succeeded.
use rbac_manager.Prelude.{
  ℕ, String, true, false, Option, none, some, List, [], ◌∷◌, ◌≡◌, ◌≢◌, ◌↔◌, refl, sym, ◌∙◌, ap, All,
  arith, inl, inr, Option-cases,
}
use rbac_manager.Outcome.{Outcome, ok, err, panic, Outcome-cases}
use rbac_manager.Cache.{Tables, Store, no_tables, new_store}
use rbac_manager.Cache.Update.{UpdateError, build_tables, publish}
use rbac_manager.Cache.Sync.{
  Round, Event, tick, done, Progress, running, returned, run_round, sync_loop, sync, MayReturn,
  synced,
}

abbrev pub built : Round → Outcome UpdateError Tables
built r = build_tables r.user_infos r.cluster_infos

-- The tables of a round that succeeds, with its time.
abbrev pub published : Round → Option (Tables × ℕ)
published r = elim (built r) [ ok t ↦ some (t, r.now) | err _ ↦ none | panic ↦ none ]

-- The latest success of the rounds, or `x` if there is none.
abbrev pub latest_or : Option (Tables × ℕ) → List Round → Option (Tables × ℕ)
latest_or x [] = x
latest_or x (r ∷ rs) = elim (latest_or none rs) [
  | some y ↦ some y
  | none ↦ elim (published r) [ some y ↦ some y | none ↦ x ]
]

-- The store of a server that has published that much.
abbrev pub showing : Option (Tables × ℕ) → Store
showing none = record {
  tables = no_tables;
  last_successful_sync_time = 0;
  closed = false;
  synced = false;
}
showing (some (t, now)) = record {
  tables = t;
  last_successful_sync_time = now;
  closed = true;
  synced = true;
}

-- The rounds that are run, and how the loop ends after them.
abbrev pub rounds : List Event → List Round
rounds [] = []
rounds (done _ ∷ _) = []
rounds (tick r ∷ events) = r ∷ rounds events

abbrev pub ending : List Event → Progress
ending [] = running
ending (done reason ∷ _) = returned reason
ending (tick _ ∷ events) = ending events

abbrev pub next : Option (Tables × ℕ) → Round → Option (Tables × ℕ)
next x r = elim (published r) [ some y ↦ some y | none ↦ x ]

pub latest_or-cons :
    (x : Option (Tables × ℕ)) (r : Round) (rs : List Round)
    → latest_or x (r ∷ rs) ≡ latest_or (next x r) rs
latest_or-cons x r [] = ground arith
latest_or-cons x r (q ∷ rs) = ground (arith)

pub round-ok :
    (x : Option (Tables × ℕ)) (r : Round) (t : Tables)
    → built r ≡ ok t
    → run_round r (showing x) ≡ (ok tt, showing (some (t, r.now)))
unfolding run_round publish
round-ok none r t e = ground arith
round-ok (some (u, n)) r t e = ground arith

pub round-err :
    (x : Option (Tables × ℕ)) (r : Round) (e : UpdateError)
    → built r ≡ err e
    → run_round r (showing x) ≡ (err e, showing x)
unfolding run_round
round-err x r e is = ground arith

latest-ok :
    (x : Option (Tables × ℕ)) (r : Round) (rs : List Round) (t : Tables)
    → built r ≡ ok t
    → latest_or (some (t, r.now)) rs ≡ latest_or x (r ∷ rs)
latest-ok x r rs t e =
    let to : next x r ≡ some (t, r.now) = ground arith in
    sym (latest_or-cons x r rs ∙ ap (λ y. latest_or y rs) to)

latest-err :
    (x : Option (Tables × ℕ)) (r : Round) (rs : List Round) (e : UpdateError)
    → built r ≡ err e
    → latest_or x rs ≡ latest_or x (r ∷ rs)
latest-err x r rs e is =
    let to : next x r ≡ x = ground arith in
    sym (latest_or-cons x r rs ∙ ap (λ y. latest_or y rs) to)

MayReturn-closed :
    {c : Store} {ended : Option String} → MayReturn c ended (ok tt) → c.closed ≡ false → ⊥
MayReturn-closed (synced e) f = cc

abbrev result : List Event → Option (Tables × ℕ) → Progress × Store
result events x = (ending events, showing x)

loop-step-ok :
    (r : Round) (events : List Event) (c c' : Store)
    → run_round r c ≡ (ok tt, c')
    → sync_loop (tick r ∷ events) c ≡ sync_loop events c'
unfolding sync_loop
loop-step-ok r events c c' e = ground arith

loop-step-err :
    (r : Round) (events : List Event) (c c' : Store) (x : UpdateError)
    → run_round r c ≡ (err x, c')
    → sync_loop (tick r ∷ events) c ≡ sync_loop events c'
unfolding sync_loop
loop-step-err r events c c' x e = ground arith

loop-latest :
    (x : Option (Tables × ℕ)) (events : List Event)
    → All (λ r. built r ≢ panic) (rounds events)
    → sync_loop events (showing x) ≡ result events (latest_or x (rounds events))
unfolding sync_loop
loop-latest x [] h = refl
loop-latest x (done reason ∷ _) h = refl
loop-latest x (tick r ∷ events) (no_panic, h) = elim (Outcome-cases (built r)) [
  | inl (t, is) ↦
      loop-step-ok r events (showing x) _ (round-ok x r t is)
      ∙ loop-latest (some (t, r.now)) events h
      ∙ ap (result events) (latest-ok x r (rounds events) t is)
  | inr (inl (e, is)) ↦
      loop-step-err r events (showing x) _ e (round-err x r e is)
      ∙ loop-latest x events h
      ∙ ap (result events) (latest-err x r (rounds events) e is)
  | inr (inr panics) ↦ absurd (no_panic panics)
]

sync-eq-loop :
    (first : Round) (events : List Event) (c : Store)
    → sync first events c ≡ sync_loop (tick first ∷ events) c
unfolding sync sync_loop
sync-eq-loop first events c = refl

module _ (first : Round) (events : List Event) (no_panic : built first ≢ panic)
    (no_panics : All (λ r. built r ≢ panic) (rounds events)) where
  -- Where no listing makes `updateCache` panic, `Sync` turns a new store into the one that shows the
  -- tables and the time of the latest successful update, and is synced exactly if there is one; no
  -- failed update changes anything, and no `close` panics. The loop returns only when the context
  -- ends, with its error.
  pub sync-latest :
      sync first events new_store
      ≡ (ending events, showing (latest_or none (first ∷ rounds events)))
  unfolding new_store
  sync-latest =
      sync-eq-loop first events new_store
      ∙ loop-latest none (tick first ∷ events) (no_panic, no_panics)

  -- What a caller of `WaitForSync` may rely on, where no listing makes `updateCache` panic: the call
  -- may return without an error exactly if some update has succeeded, and then the store shows the
  -- tables and the time of the latest such update.
  pub wait_for_sync_iff :
      (ended : Option String)
      → MayReturn (sync first events new_store).1 ended (ok tt) ↔ (
          (t : Tables) × (now : ℕ) × (latest_or none (first ∷ rounds events) ≡ some (t, now))
          × ((sync first events new_store).1 ≡ showing (some (t, now))))
  wait_for_sync_iff ended = (to, from)
    where
      shown : (sync first events new_store).1 ≡ showing (latest_or none (first ∷ rounds events))
      shown = ap (λ p. p.1) sync-latest

      to :
          MayReturn (sync first events new_store).1 ended (ok tt)
          → (t : Tables) × (now : ℕ) × (latest_or none (first ∷ rounds events) ≡ some (t, now))
            × ((sync first events new_store).1 ≡ showing (some (t, now)))
      to m = elim (Option-cases (latest_or none (first ∷ rounds events))) [
        | inr ((t, now), is) ↦ (t, now, is, shown ∙ ap showing is)
        | inl missing ↦
            let e : (sync first events new_store).1 ≡ showing none = shown ∙ ap showing missing in
            absurd (MayReturn-closed m (ap (λ (c : Store). c.closed) e))
      ]

      from :
          (t : Tables) × (now : ℕ) × (latest_or none (first ∷ rounds events) ≡ some (t, now))
            × ((sync first events new_store).1 ≡ showing (some (t, now)))
          → MayReturn (sync first events new_store).1 ended (ok tt)
      from (t, now, is, e) = synced (ap (λ (c : Store). c.closed) e)
