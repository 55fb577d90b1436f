-- ===== src/Server/Worker.antt =====
-- authorization_worker.go, `AuthorizeWorker`.
pub mod Registered
use rbac_manager.Prelude.{true, false, none, some, if◌then◌else◌, is_empty}
use rbac_manager.Outcome.{ok, err}
use rbac_manager.Rbac.{AuthorizeWorkerRequest, AuthorizeWorkerResponse, Status, invalid_argument}
use rbac_manager.Server.Reads.{Action, ask, lift, ◌>>=◌}

unfoldable pub authorize_worker : AuthorizeWorkerRequest → Action Status AuthorizeWorkerResponse
authorize_worker req =
    if is_empty req.token
    then lift (err (record { code = invalid_argument; message = "token is required" }))
    else (do
      found ← ask (λ g. g.get_cluster_by_registration_key req.token)
      lift (
          ok (elim found [
            | none ↦ record { authorized = false; cluster = none; tenant_id = "" }
            | some c ↦ record {
              authorized = true;
              cluster = some (record { id = c.id; name = c.name });
              tenant_id = c.tenant_id;
            }
          ])))
