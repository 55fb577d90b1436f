-- ===== src/Boot.antt =====
-- server/cmd/run.go: the command `run` and the process that it starts. The process is a step
-- relation: the goroutines of `run` take steps in any order, and the world may send a signal or end
-- the context at any time. A panic of a goroutine ends the process.
pub mod Command
pub mod Invariant
pub mod Isolation
pub mod Crash
pub mod Ends
pub mod Signals
use Prim.Native.String
use rbac_manager.Prelude.{
  ℕ, String, Bool, true, false, not, ◌||◌, Option, none, some, ◌≡◌, if◌then◌else◌,
}
use rbac_manager.Prelude.Int.{ℤ, is_positive}
use rbac_manager.Outcome.{Outcome, ok, err, panic, ◌>>=◌}
use rbac_manager.Config.{Config, validate_config}
use rbac_manager.Cache.{Store, new_store}
use rbac_manager.Cache.Sync.{Round, run_round, MayReturn}
use rbac_manager.Monitoring.{Registry, new_metrics_monitor, unregister_all_collectors}
use rbac_manager.Server.Serving.{store_srv, graceful_stop}

-- `RunE` of the command: `get_config` answers the flag, `parse` is `config.Parse` at the path.
unfoldable pub run_command :
    (get_config : Outcome String String)
    → (parse : String → Outcome String Config) → (run : Config → Outcome String (Unit {0}))
    → Outcome String (Unit {0})
run_command get_config parse run = do
  path ← get_config
  c ← parse path
  _ ← validate_config c
  run c

-- A goroutine, which ends by sending its error to the channel `errCh`: that has no buffer.
pub data Goroutine : Type 0 where
  unstarted running finished : Goroutine
  sending : Option String → Goroutine

-- Where `run` stands, from the start of `Sync` on.
pub data Stage : Type 0 where
  waiting making_validator serving sleeping stopping crashed : Stage
  returned : Option String → Stage

abbrev pub is_alive : Stage → Bool
is_alive crashed = false
is_alive (returned _) = false
is_alive _ = true

-- `ended` is the context's error, once it has ended; `signalled` says whether the channel of the
-- signals, which has room for one, holds one; `srv` is the field that the gRPC goroutine sets.
pub record Process (p : Registry) : Type 0 where
  pub stage : Stage
  pub ended : Option String
  pub signalled : Bool
  pub store : Store
  pub ticking : Bool
  pub sync : Goroutine
  pub grpc : Goroutine
  pub monitor : Goroutine
  pub metrics : Goroutine
  pub srv : Option (Unit {0})
  pub registry : p.Reg

module _ (p : Registry) where
  unfoldable pub boot : p.Reg → Process p
  boot r = record {
    stage = waiting;
    ended = none;
    signalled = false;
    store = new_store;
    ticking = false;
    sync = running;
    grpc = unstarted;
    monitor = unstarted;
    metrics = unstarted;
    srv = none;
    registry = r;
  }

  -- `run` up to the start of `Sync`; `new_client` is `grpc.NewClient`.
  unfoldable pub start_process :
      (new_client : String → Outcome String (Unit {0}))
      → Config
      → p.Reg
      → Outcome String (Process p)
  start_process new_client c r = do
    _ ← new_client c.cache_config.user_manager_server_internal_addr
    _ ← new_client c.cache_config.cluster_manager_server_internal_addr
    ok (boot r)

  -- One update of the goroutine of `Sync`. After the first one it makes the ticker, which panics where
  -- the interval is not positive.
  unfoldable pub after_update : Config → Round → Process p → Process p
  after_update c r s =
      let (o, c') = run_round r s.store in
      let rest =
        if s.ticking || is_positive c.cache_config.sync_interval
        then (record s { store = c'; ticking = true })
        else (record s { store = c'; stage = crashed }) in
      elim o [ ok _ ↦ rest | err _ ↦ rest | panic ↦ record s { store = c'; stage = crashed } ]

  -- From the new validator on to the `select`.
  unfoldable pub start_servers : Process p → Process p
  start_servers s = elim (new_metrics_monitor p {F = Unit} {E = String} s.registry) [
    | ok (_, r) ↦ record s {
      stage = serving;
      grpc = running;
      monitor = running;
      metrics = running;
      registry = r;
    }
    | err _ ↦ record s { stage = crashed }
    | panic ↦ record s { stage = crashed }
  ]

  -- `run` returns, after the deferred call.
  unfoldable pub leave : Option String → Process p → Process p
  leave e s = record s { stage = returned e; registry = unregister_all_collectors p s.registry }

  unfoldable pub stop_server : Process p → Process p
  stop_server s = elim (graceful_stop {E = String} s.srv) [
    | ok _ ↦ leave none s
    | err _ ↦ record s { stage = crashed }
    | panic ↦ record s { stage = crashed }
  ]

  pub data Step (c : Config) (s t : Process p) : Type 0 where
    updates :
        (r : Round)
        → is_alive s.stage ≡ true
        → s.sync ≡ running
        → t ≡ after_update c r s
        → Step c s t
    sync_ends :
        (reason : String)
        → is_alive s.stage ≡ true
        → s.sync ≡ running
        → s.ticking ≡ true
        → s.ended ≡ some reason
        → t ≡ record s { sync = sending (some reason) }
        → Step c s t
    context_ends :
        (reason : String)
        → is_alive s.stage ≡ true
        → s.ended ≡ none
        → t ≡ record s { ended = some reason }
        → Step c s t
    signal_comes : is_alive s.stage ≡ true → t ≡ record s { signalled = true } → Step c s t
    sync_seen :
        s.stage ≡ waiting
        → MayReturn s.store s.ended (ok tt)
        → t ≡ record s { stage = making_validator }
        → Step c s t
    wait_fails :
        (reason : String)
        → s.stage ≡ waiting
        → MayReturn s.store s.ended (err reason)
        → t ≡ record s { stage = returned (some (String.◌++◌ "sync cache: " reason)) }
        → Step c s t
    validator_fails :
        (e : String)
        → s.stage ≡ making_validator
        → t ≡ record s { stage = returned (some e) }
        → Step c s t
    validator_made : s.stage ≡ making_validator → t ≡ start_servers s → Step c s t
    srv_stored :
        is_alive s.stage ≡ true
        → s.grpc ≡ running
        → t ≡ record s { srv = store_srv tt s.srv }
        → Step c s t
    grpc_ends :
        (e : Option String)
        → is_alive s.stage ≡ true
        → s.grpc ≡ running
        → s.srv ≡ some tt
        → t ≡ record s { grpc = sending e }
        → Step c s t
    monitor_ends :
        (reason : String)
        → is_alive s.stage ≡ true
        → s.monitor ≡ running
        → s.ended ≡ some reason
        → t ≡ record s { monitor = sending (some reason) }
        → Step c s t
    metrics_ends :
        (e : String)
        → is_alive s.stage ≡ true
        → s.metrics ≡ running
        → t ≡ record s { metrics = sending (some e) }
        → Step c s t
    sync_received :
        (e : Option String)
        → s.stage ≡ serving
        → s.sync ≡ sending e
        → t ≡ leave e (record s { sync = finished })
        → Step c s t
    grpc_received :
        (e : Option String)
        → s.stage ≡ serving
        → s.grpc ≡ sending e
        → t ≡ leave e (record s { grpc = finished })
        → Step c s t
    monitor_received :
        (e : Option String)
        → s.stage ≡ serving
        → s.monitor ≡ sending e
        → t ≡ leave e (record s { monitor = finished })
        → Step c s t
    metrics_received :
        (e : Option String)
        → s.stage ≡ serving
        → s.metrics ≡ sending e
        → t ≡ leave e (record s { metrics = finished })
        → Step c s t
    signal_taken :
        s.stage ≡ serving
        → s.signalled ≡ true
        → t ≡ record s { stage = sleeping; signalled = false }
        → Step c s t
    woken : s.stage ≡ sleeping → t ≡ record s { stage = stopping } → Step c s t
    stopped : s.stage ≡ stopping → t ≡ stop_server s → Step c s t

  pub data Reach (c : Config) (s : Process p) : Process p → Type 0 where
    here : Reach c s s
    next : {t u : Process p} → Reach c s t → Step c t u → Reach c s u
