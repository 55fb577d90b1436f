-- ===== src/Auth/Interceptor/Served.antt =====
-- The interceptor in front of the handler `Authorize` of the server: no nil pointer is read.
use mathlib.Core.Path.{subst}
use rbac_manager.Prelude.{
  ℕ, String, true, Option, some, List, ◌≡◌, ◌≢◌, ◌⊎◌, ap, refl, arith, inl, inr, Bool-cases,
}
use rbac_manager.Outcome.{Outcome, ok, err, panic, map_err, Outcome-cases, ok-injective}
use rbac_manager.Rbac.{AuthorizeRequest, AuthorizeResponse, Status}
use rbac_manager.Server.{Server}
use rbac_manager.Server.Reads.{History}
use rbac_manager.Server.Authorize.{authorize}
use rbac_manager.Server.Authorize.Errors.{answers, authorize_ends}
use rbac_manager.Auth.{Context, new_user_info_from_authorize_response}
use rbac_manager.Auth.Text.Laws.{last_part-split_slash}
use rbac_manager.Auth.Interceptor.{
  Client, Interceptor, extract_token_from_context, authorize_grpc, admit, unary, contains,
}

-- What a caller needs of a response before it may read the user, the organization and the project.
info-answers :
    (resp : AuthorizeResponse)
    → resp.authorized ≡ true
    → answers (ok resp) ≡ true
    → new_user_info_from_authorize_response {E = Status} resp ≢ panic
unfolding new_user_info_from_authorize_response
info-answers resp authorized complete e = ground arith

token-ne-panic : (ctx : Context) → extract_token_from_context ctx ≢ panic
unfolding extract_token_from_context
token-ne-panic ctx e = ground arith

map_err-keeps :
    (wrap : String → Status) (o : Outcome String AuthorizeResponse)
    → (o ≢ panic) × ((resp : AuthorizeResponse) → o ≡ ok resp → answers (ok resp) ≡ true)
    → (map_err wrap o ≢ panic)
      × ((resp : AuthorizeResponse) → map_err wrap o ≡ ok resp → answers (ok resp) ≡ true)
map_err-keeps wrap (ok resp) (_, complete) = (λ e. cc, λ r e. complete r (ap ok (ok-injective e)))
map_err-keeps wrap (err x) _ = (λ e. cc, λ r e. cc)
map_err-keeps wrap panic (calls, _) = absurd (calls refl)

map_err-answers :
    {X : Status → Type 0} (text_of : Status → String) (o : Outcome Status AuthorizeResponse)
    → (answers o ≡ true) ⊎ ((e : Status) × (o ≡ err e) × X e)
    → (map_err text_of o ≢ panic)
      × ((resp : AuthorizeResponse) → map_err text_of o ≡ ok resp → answers (ok resp) ≡ true)
map_err-answers text_of (ok resp) (inl complete) =
    (λ e. cc, λ r e. subst (λ x. answers (ok x) ≡ true) (ok-injective e) complete)
map_err-answers text_of (ok resp) (inr (e, is_err, _)) = cc
map_err-answers text_of (err x) ends = (λ e. cc, λ r e. cc)
map_err-answers text_of panic (inl complete) = cc
map_err-answers text_of panic (inr (e, is_err, _)) = cc

module _ (normalize : String → String) (s : Server) (h : History) (n : ℕ)
    (text_of : Status → String) where
  -- A client whose calls the server `s` answers; `text_of` is the text of a status.
  abbrev pub served_by : Client
  served_by _ req = map_err text_of (authorize normalize s req h n).0

  module _ (no_panic : (token : String) → s.token_introspector token ≢ panic) where
    served-answers :
        (ctx : Context) (req : AuthorizeRequest)
        → (served_by ctx req ≢ panic)
          × ((resp : AuthorizeResponse) → served_by ctx req ≡ ok resp → answers (ok resp) ≡ true)
    served-answers ctx req =
        map_err-answers text_of (authorize normalize s req h n).0
          (authorize_ends normalize s req h n (no_panic req.token))

    module _ {Url : Type 0} (resource_of : String → String)
        (resource_of_http : Option (String → Url → String)) where
      -- An interceptor with such a client and a function for the resources of gRPC methods.
      abbrev pub served : Interceptor Url
      served = record {
        client = served_by;
        resource_for_grpc_request = some resource_of;
        resource_for_http_request = resource_of_http;
      }

      authorize_grpc-answers :
          (ctx : Context) (full_method token : String)
          → (authorize_grpc served ctx full_method token ≢ panic)
            × ((resp : AuthorizeResponse)
                → authorize_grpc served ctx full_method token ≡ ok resp
                → answers (ok resp) ≡ true)
      unfolding authorize_grpc
      authorize_grpc-answers ctx full_method token =
          let (m, is) = last_part-split_slash full_method in
          rw is (map_err-keeps _ _ (served-answers ctx _))

      admit-ne-panic : (ctx : Context) (full_method : String) → admit served ctx full_method ≢ panic
      unfolding admit
      admit-ne-panic ctx full_method e = elim (Outcome-cases (extract_token_from_context ctx)) [
        | inr (inr panics) ↦ token-ne-panic ctx panics
        | inr (inl (x, failed)) ↦ ground arith
        | inl (token, found) ↦
            let (calls, complete) = authorize_grpc-answers ctx full_method token in
            elim (Outcome-cases (authorize_grpc served ctx full_method token)) [
              | inr (inr panics) ↦ calls panics
              | inr (inl (x, failed)) ↦ ground arith
              | inl (resp, answered) ↦ elim (Bool-cases resp.authorized) [
                | inr refused ↦ ground arith
                | inl authorized ↦
                    let readable = info-answers resp authorized (complete resp answered) in
                    elim (Outcome-cases (new_user_info_from_authorize_response {E = Status} resp)) [
                      | inr (inr panics) ↦ readable panics
                      | inr (inl (x, failed)) ↦ ground arith
                      | inl (info, made) ↦ ground arith
                    ]
              ]
            ]
      ]

      -- Where the introspection of tokens does not panic, a call whose handler does not panic does not
      -- panic under the interceptor either, whatever it carries and whatever updates of the server's
      -- cache fall into it.
      pub unary-served-ne-panic :
          {E Req Resp : Type 0} (status : Status → E) (exclude_methods : List String)
          (ctx : Context) (req : Req) (full_method : String)
          (handler : Context → Req → Outcome E Resp)
          → ((passed : Context) → handler passed req ≢ panic)
          → unary status served exclude_methods ctx req full_method handler ≢ panic
      unfolding unary
      unary-served-ne-panic status exclude_methods ctx req full_method handler handles e =
          elim (Bool-cases (contains exclude_methods full_method)) [
            | inl excluded ↦ handles ctx (ground arith)
            | inr other ↦ elim (Outcome-cases (admit served ctx full_method)) [
              | inr (inr panics) ↦ admit-ne-panic ctx full_method panics
              | inr (inl (x, failed)) ↦ ground arith
              | inl (passed, admitted) ↦ handles passed (ground arith)
            ]
          ]
