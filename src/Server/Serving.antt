-- ===== src/Server/Serving.antt =====
-- server.go, `New`, `Run` and `GracefulStop`. `Srv` and `Listener` are the types of gRPC's server
-- and of Go's listeners.
use Prim.Native.String.{String, ◌++◌}
use rbac_manager.Prelude.{Option, none, some, List}
use rbac_manager.Prelude.Int.{ℤ}
use rbac_manager.Outcome.{Outcome, ok, panic, ◌>>=◌, map_err}
use rbac_manager.GoMap.{GoMap}
use rbac_manager.Server.{TokenIntrospector, Server}

-- `New`, but for the cache.
unfoldable pub new_server : TokenIntrospector → GoMap (List String) → Server
new_server ti role_scopes = record { token_introspector = ti; role_scopes_mapper = role_scopes }

module _ {Srv Listener : Type 0} (listen : ℤ → Outcome String Listener)
    (serve : Srv → Listener → Outcome String (Unit {0})) where
  unfoldable pub listen_and_serve : Srv → ℤ → Outcome String (Unit {0})
  listen_and_serve srv port = do
    l ← map_err (λ e. "failed to listen: " ++ e) (listen port)
    map_err (λ e. "failed to start gRPC server: " ++ e) (serve srv l)

-- `Run` stores the new gRPC server before it listens.
unfoldable pub store_srv : {Srv : Type 0} → Srv → Option Srv → Option Srv
store_srv serv _ = some serv

-- `GracefulStop` of a server on which `Run` has not stored a gRPC server reads a nil pointer.
unfoldable pub graceful_stop : {E Srv : Type 0} → Option Srv → Outcome E (Unit {0})
graceful_stop none = panic
graceful_stop (some srv) = ok tt
