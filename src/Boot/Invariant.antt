-- ===== src/Boot/Invariant.antt =====
-- What the process guarantees from its start on: it serves from a synchronized cache only.
use mathlib.Core.Path.{subst}
use rbac_manager.Prelude.{
  ℕ, Bool, true, false, Option, none, some, ◌≡◌, refl, sym, ap, ◌∙◌, arith, inl, inr,
}
use rbac_manager.Outcome.{Outcome, ok, panic, Outcome-cases}
use rbac_manager.Config.{Config}
use rbac_manager.Cache.Update.{UpdateError}
use rbac_manager.Cache.{Tables, Store, new_store}
use rbac_manager.Cache.Consistency.{IsConsistent}
use rbac_manager.Cache.Consistency.Preservation.{build_tables-IsConsistent}
use rbac_manager.Cache.Sync.{Round, run_round, synced}
use rbac_manager.Cache.Sync.Latest.{built, showing, round-ok, round-err}
use rbac_manager.Monitoring.{Registry}
use rbac_manager.Boot.{
  Stage, making_validator, serving, sleeping, stopping, Process, boot, after_update, start_servers,
  leave, stop_server, Step, updates, sync_ends, context_ends, signal_comes, sync_seen, wait_fails,
  validator_fails, validator_made, srv_stored, grpc_ends, monitor_ends, metrics_ends, sync_received,
  grpc_received, monitor_received, metrics_received, signal_taken, woken, stopped, Reach, here,
  next,
}

-- `run` has been let through by `WaitForSync`, and has not returned.
abbrev pub is_past_wait : Stage → Bool
is_past_wait making_validator = true
is_past_wait serving = true
is_past_wait sleeping = true
is_past_wait stopping = true
is_past_wait _ = false

-- The tables and the time come from a round of listings that all answered.
abbrev pub FromRound : Tables → ℕ → Type 0
FromRound t now = (r : Round) × (built r ≡ ok t) × (r.now ≡ now)

-- The cache shows nothing yet, or the result of a successful round.
pub data Shows (c : Store) : Type 0 where
  nothing : c ≡ showing none → Shows c
  result : (t : Tables) (now : ℕ) → FromRound t now → c ≡ showing (some (t, now)) → Shows c

round-panic : (r : Round) (c : Store) → built r ≡ panic → run_round r c ≡ (panic, c)
unfolding run_round
round-panic r c e = ground arith

-- An update keeps a store that shows a result, and a closed channel closed.
record IsKept (before after : Store) : Type 0 where
  shows : Shows after
  closed : before.closed ≡ true → after.closed ≡ true

module _ (x : Option (Tables × ℕ)) (r : Round) where
  abbrev after : Store
  after = (run_round r (showing x)).1

  round-IsKept : Shows (showing x) → IsKept (showing x) after
  round-IsKept h = elim (Outcome-cases (built r)) [
    | inl (t, is) ↦
        let e : after ≡ showing (some (t, r.now)) =
          ap (λ (o : Outcome UpdateError (Unit {0}) × Store). o.1) (round-ok x r t is) in
        record {
          shows = result t r.now (r, is, refl) e;
          closed = λ k. ap (λ (c : Store). c.closed) e;
        }
    | inr (inl (f, is)) ↦
        stays (ap (λ (o : Outcome UpdateError (Unit {0}) × Store). o.1) (round-err x r f is))
    | inr (inr is) ↦
        stays
          (ap (λ (o : Outcome UpdateError (Unit {0}) × Store). o.1) (round-panic r (showing x) is))
  ]
    where
      stays : after ≡ showing x → IsKept (showing x) after
      stays e = record {
        shows = subst Shows (sym e) h;
        closed = λ k. ap (λ (c : Store). c.closed) e ∙ k;
      }

-- Only a listing makes an update panic.
showing-panic :
    (x : Option (Tables × ℕ)) (r : Round) → (run_round r (showing x)).0 ≡ panic → built r ≡ panic
showing-panic x r e = elim (Outcome-cases (built r)) [
  | inr (inr is) ↦ is
  | inl (t, is) ↦ absurd (cc (e, round-ok x r t is))
  | inr (inl (f, is)) ↦ absurd (cc (e, round-err x r f is))
]

pub run_round-panic :
    (r : Round) (c : Store) → Shows c → (run_round r c).0 ≡ panic → built r ≡ panic
run_round-panic r c (nothing e) h =
    showing-panic none r (ap (λ (c : Store). (run_round r c).0) (sym e) ∙ h)
run_round-panic r c (result t now _ e) h =
    showing-panic (some (t, now)) r (ap (λ (c : Store). (run_round r c).0) (sym e) ∙ h)

run_round-IsKept : (r : Round) (c : Store) → Shows c → IsKept c (run_round r c).1
run_round-IsKept r c (nothing e) =
    subst (λ c. IsKept c (run_round r c).1) (sym e) (round-IsKept none r (nothing refl))
run_round-IsKept r c (result t now from e) =
    subst (λ c. IsKept c (run_round r c).1) (sym e)
      (round-IsKept (some (t, now)) r (result t now from refl))

shown-closed :
    (c : Store)
    → Shows c
    → c.closed ≡ true
    → (t : Tables) × (now : ℕ) × FromRound t now × (c ≡ showing (some (t, now)))
shown-closed c (nothing e) k = absurd (ground arith)
shown-closed c (result t now from e) k = (t, now, from, e)

module _ {p : Registry} where
  pub record Inv (s : Process p) : Type 0 where
    pub shows : Shows s.store
    pub past : is_past_wait s.stage ≡ true → s.store.closed ≡ true

  boot-Inv : (r : p.Reg) → Inv (boot p r)
  unfolding boot new_store
  boot-Inv r = record { shows = nothing refl; past = λ e. cc }

  -- The cache stays, and `run` does not get past the wait.
  keep-Inv :
      {s : Process p} (t : Process p)
      → t.store ≡ s.store
      → (is_past_wait t.stage ≡ true → is_past_wait s.stage ≡ true)
      → Inv s
      → Inv t
  keep-Inv {s} t same before v = record {
    shows = subst Shows (sym same) v.shows;
    past = λ e. ap (λ (c : Store). c.closed) same ∙ v.past (before e);
  }

  after_update-store :
      (c : Config) (r : Round) (s : Process p)
      → ((after_update p c r s).store ≡ (run_round r s.store).1)
        × (is_past_wait (after_update p c r s).stage ≡ true → is_past_wait s.stage ≡ true)
  unfolding after_update
  after_update-store c r s = (ground arith, λ e. ground arith)

  after_update-Inv : (c : Config) (r : Round) (s : Process p) → Inv s → Inv (after_update p c r s)
  after_update-Inv c r s v =
      let (same, before) = after_update-store c r s in
      let k = run_round-IsKept r s.store v.shows in
      record {
        shows = subst Shows (sym same) k.shows;
        past = λ e. ap (λ (c : Store). c.closed) same ∙ k.closed (v.past (before e));
      }

  pub after_update-closed :
      (c : Config) (r : Round) (s : Process p)
      → Inv s
      → s.store.closed ≡ true
      → (after_update p c r s).store.closed ≡ true
  after_update-closed c r s v e =
      ap (λ (c : Store). c.closed) (after_update-store c r s).0
      ∙ (run_round-IsKept r s.store v.shows).closed e

  pub start_servers-store : (s : Process p) → (start_servers p s).store ≡ s.store
  unfolding start_servers
  start_servers-store s = ground arith

  pub stop_server-store :
      (s : Process p)
      → ((stop_server p s).store ≡ s.store) × (is_past_wait (stop_server p s).stage ≡ false)
  unfolding stop_server leave
  stop_server-store s = (ground arith, ground arith)

  moved :
      {s t : Process p} (u : Process p)
      → u.store ≡ s.store
      → (is_past_wait u.stage ≡ true → is_past_wait s.stage ≡ true)
      → t ≡ u
      → Inv s
      → Inv t
  moved u same before e v = subst Inv (sym e) (keep-Inv u same before v)

  -- Every step keeps the invariant.
  pub Step-Inv : {c : Config} {s t : Process p} → Step p c s t → Inv s → Inv t
  unfolding leave
  Step-Inv {c} {s} (updates r _ _ e) v = subst Inv (sym e) (after_update-Inv c r s v)
  Step-Inv (sync_ends _ _ _ _ _ e) v = moved _ refl (λ k. k) e v
  Step-Inv (context_ends _ _ _ e) v = moved _ refl (λ k. k) e v
  Step-Inv (signal_comes _ e) v = moved _ refl (λ k. k) e v
  Step-Inv (sync_seen _ (synced closed) e) v =
      subst Inv (sym e) (record { shows = v.shows; past = λ _. closed })
  Step-Inv (wait_fails _ _ _ e) v = moved _ refl (λ k. cc) e v
  Step-Inv (validator_fails _ _ e) v = moved _ refl (λ k. cc) e v
  Step-Inv {s = s} (validator_made at e) v =
      moved _ (start_servers-store s) (λ _. ap is_past_wait at) e v
  Step-Inv (srv_stored _ _ e) v = moved _ refl (λ k. k) e v
  Step-Inv (grpc_ends _ _ _ _ e) v = moved _ refl (λ k. k) e v
  Step-Inv (monitor_ends _ _ _ _ e) v = moved _ refl (λ k. k) e v
  Step-Inv (metrics_ends _ _ _ e) v = moved _ refl (λ k. k) e v
  Step-Inv (sync_received _ _ _ e) v = moved _ refl (λ k. cc) e v
  Step-Inv (grpc_received _ _ _ e) v = moved _ refl (λ k. cc) e v
  Step-Inv (monitor_received _ _ _ e) v = moved _ refl (λ k. cc) e v
  Step-Inv (metrics_received _ _ _ e) v = moved _ refl (λ k. cc) e v
  Step-Inv (signal_taken at _ e) v = moved _ refl (λ _. ap is_past_wait at) e v
  Step-Inv (woken at e) v = moved _ refl (λ _. ap is_past_wait at) e v
  Step-Inv {s = s} (stopped at e) v = moved _ (stop_server-store s).0 (λ _. ap is_past_wait at) e v

  pub Reach-Inv : {c : Config} (r : p.Reg) {s : Process p} → Reach p c (boot p r) s → Inv s
  Reach-Inv r here = boot-Inv r
  Reach-Inv r (next h st) = Step-Inv st (Reach-Inv r h)

  -- Whatever the goroutines and the world do: from the end of `WaitForSync` until `run` returns, the
  -- cache shows the tables and the time of a round in which every listing has answered, and these
  -- tables are consistent with one another.
  pub serving-synced :
      (c : Config) (r : p.Reg) (s : Process p)
      → Reach p c (boot p r) s
      → is_past_wait s.stage ≡ true
      → (t : Tables) × (now : ℕ) × FromRound t now
        × (s.store ≡ showing (some (t, now)))
        × IsConsistent t
  serving-synced c r s reached past =
      let v = Reach-Inv r reached in
      let (t, now, (round, is, at), shown) = shown-closed s.store v.shows (v.past past) in
      (
        t,
        now,
        (round, is, at),
        shown,
        build_tables-IsConsistent round.user_infos round.cluster_infos t is,
      )
