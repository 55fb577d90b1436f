-- ===== src/Auth/Interceptor/Granted.antt =====
-- The interceptor in front of `Authorize`: a call with a token is admitted exactly on the grounds of
-- the server.
use mathlib.Core.Option.{some-injective}
use Prim.Native.String.{String, ◌++◌}
use rbac_manager.Prelude.{
  eq_iff, ℕ, Bool, true, false, if◌then◌else◌, none, some, ◌≡◌, ◌≢◌, ◌↔◌, refl, sym, ap, ◌∙◌, arith,
}
use rbac_manager.Outcome.{ok, map_err, map_err-eq-ok, ok-injective}
use rbac_manager.Rbac.{AuthorizeRequest, AuthorizeResponse, Status}
use rbac_manager.Server.{CacheGetter, Server}
use rbac_manager.Server.Reads.{steady}
use rbac_manager.Server.Authorize.{authorize}
use rbac_manager.Server.Authorize.Grounds.{IsGranted, IsComplete}
use rbac_manager.Server.Authorize.Decision.{authorize_iff}
use rbac_manager.Auth.{Context, UserInfo, new_user_info_from_authorize_response}
use rbac_manager.Auth.Text.{capability_of_method}
use rbac_manager.Auth.Text.Method.{NoSlash, last_part-split_slash-append}
use rbac_manager.Auth.Interceptor.{Interceptor, admit}
use rbac_manager.Auth.Interceptor.Asked.{asked}
use rbac_manager.Auth.Interceptor.Passing.{HasToken, token_iff, admit_sound, admit_complete}
use rbac_manager.Auth.Interceptor.Served.{served_by}

verb-ne-empty : (b : Bool) → ◌≢◌ {A = String} (if b then "read" else "write") ""
verb-ne-empty true e = ground (arith, eq_iff "read" "")
verb-ne-empty false e = ground (arith, eq_iff "write" "")

module _ (normalize : String → String) (s : Server) (g : CacheGetter) (n : ℕ)
    (text_of : Status → String) (Url : Type 0) (resource_of : String → String) where
  -- The interceptor in front of the server `s`, over a cache that no update changes.
  abbrev pub fronted : Interceptor Url
  fronted = record {
    client = served_by normalize s (steady g) n text_of;
    resource_for_grpc_request = some resource_of;
    resource_for_http_request = none;
  }

  module _ (ctx : Context) (service method token : String) where
    abbrev pub request : AuthorizeRequest
    request = asked fronted ctx service method token resource_of

    -- The server has grounds for the request, and `passed` carries the user of its response.
    pub record IsPassed (passed : Context) : Type 0 where
      pub resp : AuthorizeResponse
      pub info : UserInfo
      pub granted : IsGranted normalize s g request resp
      pub has_info : new_user_info_from_authorize_response {E = Status} resp ≡ ok info
      pub is_passed : passed ≡ record ctx { user_info = some info }

    module _ (passed : Context) (plain : NoSlash method) (has_token : HasToken ctx token)
        (given : token ≢ "") (named : resource_of (service ++ ("/" ++ method)) ≢ "") where
      IsPassed-sound : admit fronted ctx (service ++ ("/" ++ method)) ≡ ok passed → IsPassed passed
      unfolding capability_of_method
      IsPassed-sound e =
          let i = admit_sound fronted ctx (service ++ ("/" ++ method)) passed e in
          let same_token : i.token ≡ token =
            ok-injective
              (sym ((token_iff ctx i.token).1 i.has_token) ∙ (token_iff ctx token).1 has_token) in
          let same_method : i.method ≡ method =
            some-injective _ _
              (sym i.has_method ∙ last_part-split_slash-append service method plain) in
          let same_resource : i.resource_of ≡ resource_of = some-injective _ _ (sym i.has_getter) in
          let answered : map_err text_of (authorize normalize s request (steady g) n).0
              ≡ ok i.resp =
            ground (arith, i.answered, same_token, same_method, same_resource) in
          let granted =
            (authorize_iff normalize s g request i.resp n).0
              (map_err-eq-ok text_of _ answered, i.authorized) in
          record {
            resp = i.resp;
            info = i.info;
            granted = granted.1;
            has_info = i.has_info;
            is_passed = i.is_passed;
          }

      IsPassed-complete :
          IsPassed passed → admit fronted ctx (service ++ ("/" ++ method)) ≡ ok passed
      unfolding capability_of_method
      IsPassed-complete p =
          let complete : IsComplete normalize s g request = record {
            token = given;
            access_resource = named;
            capability = verb-ne-empty _;
          } in
          let (answered, authorized) =
            (authorize_iff normalize s g request p.resp n).1 (complete, p.granted) in
          admit_complete fronted ctx (service ++ ("/" ++ method)) passed (record {
            token = token;
            method = method;
            resource_of = resource_of;
            resp = p.resp;
            info = p.info;
            has_token = has_token;
            has_method = last_part-split_slash-append service method plain;
            has_getter = refl;
            answered = ap (map_err text_of) answered;
            authorized = authorized;
            has_info = p.has_info;
            is_passed = p.is_passed;
          })

      pub IsPassed-iff :
          (admit fronted ctx (service ++ ("/" ++ method)) ≡ ok passed) ↔ IsPassed passed
      IsPassed-iff = (IsPassed-sound, IsPassed-complete)
