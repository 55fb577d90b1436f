-- ===== src/Auth/Interceptor/Keyed/Listed.antt =====
-- A gRPC call with an API key, from the listings of the cache's last update to the handler.
use Prim.Native.String.{String, ◌++◌}
use rbac_manager.Prelude.{
  [], ◌∷◌, ℕ, false, some, List, ◌≡◌, ◌≢◌, ◌↔◌, ◌==◌, ◌||◌, if◌then◌else◌, refl, sym, ap, ◌∙◌, map,
  arith, keep,
}
use text.Mathlib.Text.{starts_with}
use rbac_manager.Outcome.{Outcome, ok, ok-injective}
use rbac_manager.UserManager.{InternalApiKey, InternalCluster, InternalOrganization, ProjectInfo}
use rbac_manager.Rbac.{Status}
use rbac_manager.Cache.{K, O, P, C, Store}
use rbac_manager.Cache.Update.{UserInfoLister, ClusterInfoLister, to_p, update_cache}
use rbac_manager.Cache.Update.Contents.{
  latest, has_secret, to_k, has_org_id, to_o, update_cache-Contains,
}
use rbac_manager.Cache.Update.Members.{to_c, update_cache-HasMembers}
use rbac_manager.Server.{CacheGetter, Server, store_getter}
use rbac_manager.Server.Roles.Allowed.{Allowed}
use rbac_manager.Auth.{Context}
use rbac_manager.Auth.Text.Method.{NoSlash}
use rbac_manager.Auth.Interceptor.{Interceptor, admit, contains, unary}
use rbac_manager.Auth.Interceptor.Granted.{fronted}
use rbac_manager.Auth.Interceptor.Keyed.{key_user, IsKeyed-iff}
use rbac_manager.Auth.Interceptor.Passing.{unary-passes, HasToken}

-- What the last update listed that matters to an API key.
pub record Listings : Type 0 where
  pub api_keys : List InternalApiKey
  pub orgs : List InternalOrganization
  pub projects : List ProjectInfo
  pub clusters : List InternalCluster

pub record Answered (ul : UserInfoLister) (cl : ClusterInfoLister) (l : Listings) : Type 0 where
  pub has_api_keys : ul.list_internal_api_keys ≡ ok l.api_keys
  pub has_orgs : ul.list_internal_organizations ≡ ok l.orgs
  pub has_projects : ul.list_projects ≡ ok l.projects
  pub has_clusters : cl.list_internal_clusters ≡ ok l.clusters

-- The service's resource, and whether the method reads or writes.
abbrev pub scope_of : (resource method : String) → String
scope_of resource method =
    resource
    ++ ("." ++ (if starts_with method "Get" || starts_with method "List" then "read" else "write"))

module _ (s : Server) (l : Listings) where
  -- The latest listed project and organization of the key, roles of the key that the configuration
  -- gives the scope, and in the context the owner of the key, with the listed clusters of the tenant.
  pub record IsListed (scope : String) (key : K) (ctx passed : Context) : Type 0 where
    pub project : P
    pub org : O
    pub clusters : List C
    pub has_project :
        latest (λ (p : ProjectInfo). p.id == key.project_id) (λ p. some (to_p p)) l.projects
        ≡ some project
    pub has_org : latest (has_org_id key.organization_id) to_o l.orgs ≡ some org
    pub has_clusters :
        map some clusters
        ≡ map to_c (keep (λ (x : InternalCluster). x.tenant_id == key.tenant_id) l.clusters)
    pub allowed : Allowed s scope key.organization_role key.project_role
    pub is_passed : passed ≡ record ctx { user_info = some (key_user clusters key project org) }

map-some-injective : {A : Type 0} (xs ys : List A) → map some xs ≡ map some ys → xs ≡ ys
map-some-injective [] [] e = refl
map-some-injective [] (y ∷ ys) e = cc
map-some-injective (x ∷ xs) [] e = cc
map-some-injective (x ∷ xs) (y ∷ ys) e = ground (arith, map-some-injective xs ys)

module _ (normalize : String → String) (s : Server) (n : ℕ) (text_of : Status → String)
    (Url : Type 0) (resource_of : String → String) (ul : UserInfoLister) (cl : ClusterInfoLister)
    (now : ℕ) (before c : Store) (l : Listings) (answered : Answered ul cl l)
    (updated : update_cache ul cl now before ≡ (ok tt, c)) where
  abbrev g : CacheGetter
  g = store_getter c

  abbrev pub front : Interceptor Url
  front = fronted normalize s g n text_of Url resource_of

  key_at :
      (secret : String)
      → g.get_api_key_by_secret secret ≡ latest (has_secret secret) to_k l.api_keys
  unfolding store_getter
  key_at secret =
      let (b, held) = update_cache-Contains ul cl c now before updated in
      held.key_of secret
      ∙ ap (latest (has_secret secret) to_k)
          (ok-injective (sym b.got_api_keys ∙ answered.has_api_keys))

  org_at : (id : String) → g.get_organization_by_id id ≡ latest (has_org_id id) to_o l.orgs
  unfolding store_getter
  org_at id =
      let (b, held) = update_cache-Contains ul cl c now before updated in
      held.org_of id
      ∙ ap (latest (has_org_id id) to_o) (ok-injective (sym b.got_orgs ∙ answered.has_orgs))

  project_at :
      (id : String)
      → g.get_project_by_id id
        ≡ latest (λ (p : ProjectInfo). p.id == id) (λ p. some (to_p p)) l.projects
  unfolding store_getter
  project_at id =
      let (b, held) = update_cache-Contains ul cl c now before updated in
      held.project_of id
      ∙ ap (latest (λ (p : ProjectInfo). p.id == id) (λ p. some (to_p p)))
          (ok-injective (sym b.got_projects ∙ answered.has_projects))

  clusters_at :
      (id : String)
      → map some (g.get_clusters_by_tenant_id id)
        ≡ map to_c (keep (λ (x : InternalCluster). x.tenant_id == id) l.clusters)
  unfolding store_getter
  clusters_at id =
      let (b, held) = update_cache-HasMembers ul cl c now before updated in
      held.clusters_of id
      ∙ ap (λ xs. map to_c (keep (λ (x : InternalCluster). x.tenant_id == id) xs))
          (ok-injective (sym b.got_clusters ∙ answered.has_clusters))

  module _ (ctx : Context) (service method token : String) (key : K) (plain : NoSlash method)
      (has_token : HasToken ctx token) (given : token ≢ "")
      (named : resource_of (service ++ ("/" ++ method)) ≢ "")
      (listed : latest (has_secret token) to_k l.api_keys ≡ some key) where
    abbrev scope : String
    scope = scope_of (resource_of (service ++ ("/" ++ method))) method

    IsListed-iff :
        (passed : Context)
        → (admit front ctx (service ++ ("/" ++ method)) ≡ ok passed)
          ↔ IsListed s l scope key ctx passed
    IsListed-iff passed =
        let same =
          IsKeyed-iff normalize s g n text_of Url resource_of ctx service method token key passed
            plain has_token given named (key_at token ∙ listed) in
        (
          λ e.
              let k = same.0 e in
              record {
                project = k.project;
                org = k.org;
                clusters = g.get_clusters_by_tenant_id key.tenant_id;
                has_project = sym (project_at key.project_id) ∙ k.has_project;
                has_org = sym (org_at key.organization_id) ∙ k.has_org;
                has_clusters = clusters_at key.tenant_id;
                allowed = k.allowed;
                is_passed = k.is_passed;
              },
          λ i. same.1 (record {
            project = i.project;
            org = i.org;
            has_project = project_at key.project_id ∙ i.has_project;
            has_org = org_at key.organization_id ∙ i.has_org;
            allowed = i.allowed;
            is_passed =
                i.is_passed
                ∙ ap
                    (λ (cs : List C). record ctx {
                      user_info = some (key_user cs key i.project i.org);
                    })
                    (map-some-injective _ _ (i.has_clusters ∙ sym (clusters_at key.tenant_id)));
          }),
        )

    module _ {E Req Resp : Type 0} (status : Status → E) (exclude_methods : List String) (req : Req)
        (handler : Context → Req → Outcome E Resp) (r : Resp) where
      -- With no update during the call, after one that succeeded: where the call carries the secret
      -- of a listed API key, neither the secret nor the service's resource is empty, and the method,
      -- whose name has no slash, is not excluded, the interceptor in front of the server returns `r`
      -- exactly when the project and the organization of the key are listed, the configuration gives
      -- the key's roles the scope that resource and method amount to, and the handler returns `r` in
      -- the call's context with the owner of the key, as the latest listed items describe them.
      pub unary-IsListed_iff :
          contains exclude_methods (service ++ ("/" ++ method)) ≡ false
          → (unary status front exclude_methods ctx req (service ++ ("/" ++ method)) handler ≡ ok r)
            ↔ ((passed : Context) × IsListed s l scope key ctx passed × (handler passed req ≡ ok r))
      unary-IsListed_iff =
          unary-passes front ctx (service ++ ("/" ++ method)) status exclude_methods req handler r
            IsListed-iff
