-- ===== src/Auth/Interceptor/Passing.antt =====
-- Which calls the interceptor passes on to the handler, and with which context.
use rbac_manager.Prelude.{
  String, true, false, Option, none, some, List, [], ◌∷◌, ◌≡◌, ◌↔◌, ◌⊎◌, refl, sym, In, eq_iff,
  arith, inl, inr, Bool-cases, Option-cases,
}
use rbac_manager.Outcome.{Outcome, ok, map_err, >>=-then, map_err-eq-ok, ok-injective}
use rbac_manager.GoMap.{GoMap, lookup_all}
use rbac_manager.Rbac.{AuthorizeRequest, AuthorizeResponse, Status}
use rbac_manager.Auth.{
  Context, UserInfo, append_user_info_to_context, deref, new_user_info_from_authorize_response,
}
use rbac_manager.Auth.Text.{trim_prefix, split_slash, last_part, capability_of_method}
use rbac_manager.Auth.Interceptor.{
  Interceptor, extract_token_from_context, extract_org_id_from_context,
  extract_project_id_from_context, authorize_grpc, admit, unary, contains,
}

-- The call carries the token, bare or after the word `Bearer`.
pub record HasToken (ctx : Context) (token : String) : Type 0 where
  pub md : GoMap (List String)
  pub auth : String
  pub others : List String
  pub has_metadata : ctx.incoming ≡ some md
  pub has_auth : lookup_all "authorization" md ≡ auth ∷ others
  pub is_token : token ≡ trim_prefix auth "Bearer "

List-cases :
    (xs : List String) → (xs ≡ []) ⊎ ((x : String) × (others : List String) × (xs ≡ x ∷ others))
List-cases [] = inl refl
List-cases (x ∷ xs) = inr (x, xs, refl)

pub token_iff :
    (ctx : Context) (token : String)
    → (extract_token_from_context ctx ≡ ok token) ↔ HasToken ctx token
unfolding extract_token_from_context
token_iff ctx token = (to, from)
  where
    to : extract_token_from_context ctx ≡ ok token → HasToken ctx token
    to e = elim (Option-cases ctx.incoming) [
      | inl missing ↦ absurd (ground arith)
      | inr (md, has_metadata) ↦ elim (List-cases (lookup_all "authorization" md)) [
        | inl missing ↦ absurd (ground arith)
        | inr (auth, others, has_auth) ↦ record {
          md = md;
          auth = auth;
          others = others;
          has_metadata = has_metadata;
          has_auth = has_auth;
          is_token = ground arith;
        }
      ]
    ]

    from : HasToken ctx token → extract_token_from_context ctx ≡ ok token
    from h = ground (arith, h.has_metadata, h.has_auth, h.is_token)

module _ {Url : Type 0} (a : Interceptor Url) (ctx : Context) (full_method : String) where
  -- The request for a call with this token.
  abbrev pub request_of : (token method resource : String) → AuthorizeRequest
  request_of token method resource = record {
    token = token;
    access_resource = resource;
    capability = capability_of_method method;
    organization_id = extract_org_id_from_context ctx;
    project_id = extract_project_id_from_context ctx;
  }

  -- The RBAC server authorizes the call, and `passed` carries the user that its response names.
  pub record IsAdmitted (passed : Context) : Type 0 where
    pub token : String
    pub method : String
    pub resource_of : String → String
    pub resp : AuthorizeResponse
    pub info : UserInfo
    pub has_token : HasToken ctx token
    pub has_method : last_part (split_slash full_method) ≡ some method
    pub has_getter : a.resource_for_grpc_request ≡ some resource_of
    pub answered : a.client ctx (request_of token method (resource_of full_method)) ≡ ok resp
    pub authorized : resp.authorized ≡ true
    pub has_info : new_user_info_from_authorize_response {E = Status} resp ≡ ok info
    pub is_passed : passed ≡ record ctx { user_info = some info }

  deref-eq-ok : {A : Type 0} {x : A} (o : Option A) → deref {E = Status} o ≡ ok x → o ≡ some x
  deref-eq-ok none e = cc
  deref-eq-ok (some y) e = cc

  pub admit_sound : (passed : Context) → admit a ctx full_method ≡ ok passed → IsAdmitted passed
  unfolding admit authorize_grpc append_user_info_to_context
  admit_sound passed e = >>=-then (extract_token_from_context ctx) _ e λ token t e'.
      >>=-then (authorize_grpc a ctx full_method token) _ e' λ resp asked e''.
        >>=-then (deref (last_part (split_slash full_method))) _ asked λ method m asked'.
          >>=-then (deref a.resource_for_grpc_request) _ asked' λ resource_of g asked''.
            elim (Bool-cases resp.authorized) [
              | inr refused ↦ absurd (ground arith)
              | inl authorized ↦
                  >>=-then (new_user_info_from_authorize_response {E = Status} resp)
                    (λ info. ok (append_user_info_to_context ctx info)) (ground arith)
                    λ info n last. record {
                      token = token;
                      method = method;
                      resource_of = resource_of;
                      resp = resp;
                      info = info;
                      has_token = (token_iff ctx token).0 t;
                      has_method = deref-eq-ok _ m;
                      has_getter = deref-eq-ok _ g;
                      answered = map_err-eq-ok _ _ asked'';
                      authorized = authorized;
                      has_info = n;
                      is_passed = sym (ok-injective last);
                    }
            ]

  pub admit_complete : (passed : Context) → IsAdmitted passed → admit a ctx full_method ≡ ok passed
  unfolding admit authorize_grpc append_user_info_to_context
  admit_complete passed i =
      let t = (token_iff ctx i.token).1 i.has_token in
      ground
        (arith, t, i.has_method, i.has_getter, i.answered, i.authorized, i.has_info, i.is_passed)

  contains_iff : (ms : List String) (m : String) → (contains ms m ≡ true) ↔ In m ms
  contains_iff [] m = (λ e. cc, λ i. absurd i)
  contains_iff (x ∷ ms) m = ground (arith, eq_iff m x, contains_iff ms m)

  module _ {E Req Resp : Type 0} (status : Status → E) (exclude_methods : List String) (req : Req)
      (handler : Context → Req → Outcome E Resp) (r : Resp) where
    -- What is known of the admission of a call is known of the call.
    pub unary-passes :
        {X : Context → Type 0}
        → ((passed : Context) → (admit a ctx full_method ≡ ok passed) ↔ X passed)
        → contains exclude_methods full_method ≡ false
        → (unary status a exclude_methods ctx req full_method handler ≡ ok r)
          ↔ ((passed : Context) × X passed × (handler passed req ≡ ok r))
    unfolding unary
    unary-passes same other = (
      λ e.
          >>=-then (map_err status (admit a ctx full_method)) (λ passed. handler passed req)
            (ground arith)
            λ passed admitted handled.
              (passed, (same passed).0 (map_err-eq-ok status _ admitted), handled),
      λ (passed, x, handled). let e = (same passed).1 x in ground arith,
    )

    -- The interceptor of gRPC calls returns `r` exactly when the method is excluded and the handler
    -- returns `r` in the call's own context, or it is not excluded, the RBAC server authorizes the
    -- call for its token, method and resource, and the handler returns `r` in the context with the
    -- user that the server names.
    pub unary_iff : (unary status a exclude_methods ctx req full_method handler ≡ ok r) ↔ (
        (In full_method exclude_methods × (handler ctx req ≡ ok r))
        ⊎ (¬ In full_method exclude_methods
            × ((passed : Context) × IsAdmitted passed × (handler passed req ≡ ok r))))
    unfolding unary
    unary_iff =
        let passes = unary-passes (λ passed. (admit_sound passed, admit_complete passed)) in
        elim (Bool-cases (contains exclude_methods full_method)) [
          | inl excluded ↦
              let i = (contains_iff exclude_methods full_method).0 excluded in
              (
                λ e. inl (i, ground arith),
                λ x. elim x [
                  | inl (_, h) ↦ ground arith
                  | inr (listed_not, _) ↦ absurd (listed_not i)
                ],
              )
          | inr other ↦
              let listed_not : ¬ In full_method exclude_methods = λ i.
                absurd (ground (arith, other, (contains_iff exclude_methods full_method).1 i)) in
              (
                λ e. inr (listed_not, (passes other).0 e),
                λ x. elim x [
                  | inl (i, _) ↦ absurd (listed_not i)
                  | inr (_, x) ↦ (passes other).1 x
                ],
              )
        ]
