-- ===== src/Server/Worker/Registered.antt =====
-- When `AuthorizeWorker` accepts a worker.
use rbac_manager.Prelude.{
  ℕ, String, true, some, ◌≡◌, ◌≢◌, ◌↔◌, arith, eq_iff, is_empty, inl, inr, Bool-cases, Option-cases,
}
use rbac_manager.Outcome.{Outcome, ok, err}
use rbac_manager.Rbac.{AuthorizeWorkerRequest, AuthorizeWorkerResponse, Status, invalid_argument}
use rbac_manager.Cache.{C}
use rbac_manager.Server.{CacheGetter}
use rbac_manager.Server.Reads.{steady, ◌>>=◌}
use rbac_manager.Server.Worker.{authorize_worker}

abbrev pub worker_response : C → AuthorizeWorkerResponse
worker_response c = record {
  authorized = true;
  cluster = some (record { id = c.id; name = c.name });
  tenant_id = c.tenant_id;
}

-- The token is the registration key of the cluster `c`, and the response names that cluster.
pub record IsRegistered (g : CacheGetter) (token : String) (c : C) (r : AuthorizeWorkerResponse)
    : Type 0 where
  pub has_token : token ≢ ""
  pub registered : g.get_cluster_by_registration_key token ≡ some c
  pub response : r ≡ worker_response c

module _ (g : CacheGetter) (req : AuthorizeWorkerRequest) (n : ℕ) where
  abbrev pub answer : Outcome Status AuthorizeWorkerResponse
  answer = (authorize_worker req (steady g) n).0

  worker_sound :
      (r : AuthorizeWorkerResponse)
      → answer ≡ ok r
      → r.authorized ≡ true
      → (c : C) × IsRegistered g req.token c r
  unfolding authorize_worker ◌>>=◌
  worker_sound r e authorized = elim (Bool-cases (is_empty req.token)) [
    | inl missing ↦ absurd (ground arith)
    | inr has_token ↦ elim (Option-cases (g.get_cluster_by_registration_key req.token)) [
      | inl unknown ↦ absurd (ground arith)
      | inr (c, registered) ↦ (
        c,
        record {
          has_token = ground (arith, eq_iff req.token "");
          registered = registered;
          response = ground arith;
        },
      )
    ]
  ]

  worker_complete :
      (r : AuthorizeWorkerResponse) (c : C)
      → IsRegistered g req.token c r
      → (answer ≡ ok r) × (r.authorized ≡ true)
  unfolding authorize_worker ◌>>=◌
  worker_complete r c i =
      let known = i.registered in
      let set = i.has_token in
      let is_r = i.response in (ground (arith, eq_iff req.token ""), ground arith)

  -- With no update of the cache in between, `AuthorizeWorker` accepts a worker exactly when the token
  -- is not empty and is the registration key of a cached cluster, whose ID, name and tenant the
  -- response then has. The call fails exactly for the empty token, with `invalid_argument`.
  pub authorize_worker_iff :
      ((r : AuthorizeWorkerResponse)
        → ((answer ≡ ok r) × (r.authorized ≡ true)) ↔ ((c : C) × IsRegistered g req.token c r))
      × ((e : Status)
          → (answer ≡ err e) ↔ (
              (req.token ≡ "")
              × (e ≡ record { code = invalid_argument; message = "token is required" })))
  unfolding authorize_worker ◌>>=◌
  authorize_worker_iff = (
    λ r. (λ (e, a). worker_sound r e a, λ (c, i). worker_complete r c i),
    λ e. (λ f. ground (arith, eq_iff req.token ""), λ (f, g). ground (arith, eq_iff req.token "")),
  )
