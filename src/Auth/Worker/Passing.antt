-- ===== src/Auth/Worker/Passing.antt =====
-- Which gRPC calls of worker clusters the interceptor passes on, and with which context.
use rbac_manager.Prelude.{String, true, some, ◌≡◌, ◌↔◌, sym, arith, inl, inr, Bool-cases}
use rbac_manager.Outcome.{Outcome, ok, map_err, ◌>>=◌, >>=-then, map_err-eq-ok, ok-injective}
use rbac_manager.Rbac.{AuthorizeWorkerResponse, Status}
use rbac_manager.Auth.{
  Context, ClusterInfo, append_cluster_info_to_context, new_cluster_info_from_authorize_response,
}
use rbac_manager.Auth.Interceptor.{extract_token_from_context}
use rbac_manager.Auth.Interceptor.Passing.{HasToken, token_iff}
use rbac_manager.Auth.Worker.{
  WorkerInterceptor, ServerStream, worker_admit, worker_unary, worker_stream,
}

module _ (a : WorkerInterceptor) where
  -- The RBAC server authorizes the key that the call carries, and `passed` carries the cluster that
  -- the response names.
  pub record IsAdmitted (ctx passed : Context) : Type 0 where
    pub token : String
    pub resp : AuthorizeWorkerResponse
    pub info : ClusterInfo
    pub has_token : HasToken ctx token
    pub answered : a.client ctx (record { token = token }) ≡ ok resp
    pub authorized : resp.authorized ≡ true
    pub has_info : new_cluster_info_from_authorize_response {E = Status} resp ≡ ok info
    pub is_passed : passed ≡ record ctx { cluster_info = some info }

  admit_sound : (ctx passed : Context) → worker_admit a ctx ≡ ok passed → IsAdmitted ctx passed
  unfolding worker_admit append_cluster_info_to_context
  admit_sound ctx passed e = >>=-then (extract_token_from_context ctx) _ e λ token t e'.
      >>=-then (map_err _ (a.client ctx (record { token = token }))) _ e' λ resp asked e''.
        elim (Bool-cases resp.authorized) [
          | inr refused ↦ absurd (ground arith)
          | inl authorized ↦
              >>=-then (new_cluster_info_from_authorize_response {E = Status} resp)
                (λ info. ok (append_cluster_info_to_context ctx info)) (ground arith)
                λ info n last. record {
                  token = token;
                  resp = resp;
                  info = info;
                  has_token = (token_iff ctx token).0 t;
                  answered = map_err-eq-ok _ _ asked;
                  authorized = authorized;
                  has_info = n;
                  is_passed = sym (ok-injective last);
                }
        ]

  admit_complete : (ctx passed : Context) → IsAdmitted ctx passed → worker_admit a ctx ≡ ok passed
  unfolding worker_admit append_cluster_info_to_context
  admit_complete ctx passed i =
      let t = (token_iff ctx i.token).1 i.has_token in
      ground (arith, t, i.answered, i.authorized, i.has_info, i.is_passed)

  module _ {E : Type 0} (status : Status → E) where
    -- What follows on the admission of a call runs exactly for an admitted context.
    passes :
        {A : Type 0} (ctx : Context) (next : Context → Outcome E A) (r : A)
        → ((map_err status (worker_admit a ctx) >>= next) ≡ ok r)
          ↔ ((passed : Context) × IsAdmitted ctx passed × (next passed ≡ ok r))
    passes ctx next r = (
      λ e. >>=-then (map_err status (worker_admit a ctx)) next e λ passed admitted handled.
          (passed, admit_sound ctx passed (map_err-eq-ok status _ admitted), handled),
      λ x. let e = admit_complete ctx x.0 x.1 in ground arith,
    )

    module _ {Req Resp Srv Stream : Type 0} (ctx : Context) (req : Req)
        (handler : Context → Req → Outcome E Resp) (r : Resp) (srv : Srv) (ss : ServerStream Stream)
        (stream_handler : Srv → ServerStream Stream → Outcome E (Unit {0})) where
      -- The worker interceptor of unary calls returns `r` exactly when the RBAC server authorizes the
      -- key that the call carries and the handler returns `r` in the call's context with the cluster
      -- that the server names. The one of streams succeeds exactly when this holds of the stream's
      -- context and the handler succeeds on the stream with the new context.
      pub worker_unary-stream :
          ((worker_unary status a ctx req handler ≡ ok r)
            ↔ ((passed : Context) × IsAdmitted ctx passed × (handler passed req ≡ ok r)))
          × ((worker_stream status a srv ss stream_handler ≡ ok tt) ↔ (
              (passed : Context) × IsAdmitted ss.ctx passed
              × (stream_handler srv (record ss { ctx = passed }) ≡ ok tt)))
      unfolding worker_unary worker_stream
      worker_unary-stream = (
        passes ctx (λ ctx'. handler ctx' req) r,
        passes ss.ctx (λ ctx'. stream_handler srv (record ss { ctx = ctx' })) tt,
      )
