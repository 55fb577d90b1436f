-- ===== src/Auth/Interceptor/Http/Accepted.antt =====
-- Which HTTP requests the interceptor accepts.
use rbac_manager.Prelude.{
  String, true, none, some, ◌≡◌, ◌↔◌, refl, sym, ap, arith, inl, inr, Bool-cases, Option-cases,
}
use rbac_manager.Outcome.{Outcome, ok, Outcome-cases}
use rbac_manager.Rbac.{AuthorizeRequest, AuthorizeResponse}
use rbac_manager.Auth.{UserInfo, new_user_info_from_authorize_response}
use rbac_manager.Auth.Text.{capability_of_http_method}
use rbac_manager.Auth.Text.Laws.{IsWithout}
use rbac_manager.Auth.Interceptor.{
  HttpRequest, Interceptor, extract_token_from_header, extract_org_id_from_header,
  extract_project_id_from_header,
}
use rbac_manager.Auth.Interceptor.Http.{HttpAnswer, intercept_with, intercept_http_request}
use rbac_manager.Auth.Interceptor.Http.Parts.{
  IsFirstUnder, IsFirstOrEmpty, IsCapability, IsInfo, header_token_iff, value_iff, IsCapability-iff,
  IsInfo-iff,
}

module _ {Url : Type 0} (a : Interceptor Url) (req : HttpRequest Url) where
  abbrev http_request_of : (token resource : String) → AuthorizeRequest
  http_request_of token resource = record {
    token = token;
    access_resource = resource;
    capability = capability_of_http_method req.method;
    organization_id = extract_org_id_from_header req.header;
    project_id = extract_project_id_from_header req.header;
  }

  -- The RBAC server authorizes what is asked: for the token of the header, without the word `Bearer`,
  -- the resource of the method and the URL, and reading exactly for GET, in the organization and the
  -- project of the header.
  pub record IsAccepted (info : UserInfo) : Type 0 where
    pub asked : AuthorizeRequest
    pub auth : String
    pub resource_of : String → Url → String
    pub resp : AuthorizeResponse
    pub has_auth : IsFirstUnder "Authorization" req.header auth
    pub is_token : IsWithout "Bearer " auth asked.token
    pub has_getter : a.resource_for_http_request ≡ some resource_of
    pub is_resource : asked.access_resource ≡ resource_of req.method req.url
    pub is_capability : IsCapability req.method asked.capability
    pub is_organization : IsFirstOrEmpty "Openai-Organization" req.header asked.organization_id
    pub is_project : IsFirstOrEmpty "Openai-Project" req.header asked.project_id
    pub answered : a.client req.context asked ≡ ok resp
    pub authorized : resp.authorized ≡ true
    pub has_info : IsInfo resp info

  organization_iff :
      (v : String)
      → (extract_org_id_from_header req.header ≡ v)
        ↔ IsFirstOrEmpty "Openai-Organization" req.header v
  unfolding extract_org_id_from_header
  organization_iff v = value_iff req.header "Openai-Organization" v

  project_iff :
      (v : String)
      → (extract_project_id_from_header req.header ≡ v)
        ↔ IsFirstOrEmpty "Openai-Project" req.header v
  unfolding extract_project_id_from_header
  project_iff v = value_iff req.header "Openai-Project" v

  is_asked :
      (info : UserInfo) (i : IsAccepted info)
      → i.asked ≡ http_request_of i.asked.token (i.resource_of req.method req.url)
  is_asked info i = λ j. record {
    token = i.asked.token;
    access_resource = i.is_resource j;
    capability = sym ((IsCapability-iff req.method i.asked.capability).1 i.is_capability) j;
    organization_id = sym ((organization_iff i.asked.organization_id).1 i.is_organization) j;
    project_id = sym ((project_iff i.asked.project_id).1 i.is_project) j;
  }

  module _ {E : Type 0} (info : UserInfo) where
    abbrev accepted : Outcome E (HttpAnswer UserInfo)
    accepted = ok (record { status = 200; info = info; error = none })

    accepted_sound : intercept_http_request {E = E} a req ≡ accepted → IsAccepted info
    unfolding intercept_http_request intercept_with
    accepted_sound e = elim (Option-cases (extract_token_from_header req.header)) [
      | inl missing ↦ absurd (ground arith)
      | inr (token, has_token) ↦ elim (Option-cases a.resource_for_http_request) [
        | inl missing ↦ absurd (ground arith)
        | inr (resource_of, has_getter) ↦
            let asked = http_request_of token (resource_of req.method req.url) in
            elim (Outcome-cases (a.client req.context asked)) [
              | inr (inr panics) ↦ absurd (ground arith)
              | inr (inl (x, failed)) ↦ absurd (ground arith)
              | inl (resp, answered) ↦ elim (Bool-cases resp.authorized) [
                | inr refused ↦ absurd (ground arith)
                | inl authorized ↦
                    elim (Outcome-cases (new_user_info_from_authorize_response {E = E} resp)) [
                      | inr (inr panics) ↦ absurd (ground arith)
                      | inr (inl (x, failed)) ↦ absurd (ground arith)
                      | inl (made, has_info) ↦
                          let (auth, has_auth, is_token) =
                            (header_token_iff req.header token).0 has_token in
                          record {
                            asked = asked;
                            auth = auth;
                            resource_of = resource_of;
                            resp = resp;
                            has_auth = has_auth;
                            is_token = is_token;
                            has_getter = has_getter;
                            is_resource = refl;
                            is_capability = (IsCapability-iff req.method asked.capability).0 refl;
                            is_organization = (organization_iff asked.organization_id).0 refl;
                            is_project = (project_iff asked.project_id).0 refl;
                            answered = answered;
                            authorized = authorized;
                            has_info = (IsInfo-iff {E = E} resp info).0 (ground arith);
                          }
                    ]
              ]
            ]
      ]
    ]

    accepted_complete : IsAccepted info → intercept_http_request {E = E} a req ≡ accepted
    unfolding intercept_http_request intercept_with
    accepted_complete i =
        let token =
          (header_token_iff req.header i.asked.token).1 (i.auth, i.has_auth, i.is_token) in
        let made = (IsInfo-iff {E = E} i.resp info).1 i.has_info in
        let same = ap (a.client req.context) (is_asked info i) in
        ground (arith, token, i.has_getter, i.answered, i.authorized, made)

    -- The interceptor of HTTP requests answers 200 with `info` exactly when there is a function for the
    -- resources of HTTP requests, the header has a token, and the RBAC server authorizes the resource
    -- that the function gives for the method and the URL, for reading if the method is GET and for
    -- writing if it is any other, to the first token of the header, without the word `Bearer` if that
    -- stands before it, in the organization and the project that the header names first, if any; and
    -- `info` is what the server's response says of user, organization and project, all three of which
    -- it has.
    pub intercept_http_iff :
        (intercept_http_request {E = E} a req
          ≡ ok (record { status = 200; info = info; error = none }))
        ↔ IsAccepted info
    intercept_http_iff = (accepted_sound, accepted_complete)
