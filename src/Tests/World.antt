-- ===== src/Tests/World.antt =====
-- A small installation: one tenant with an organization, two projects, a user, two API keys and a
-- cluster, and a second tenant. It follows the fixtures of cache_test.go and authorization_test.go.
use rbac_manager.Prelude.{ℕ, String, Bool, true, false, none, some, [], ◌∷◌, ◌==◌, if◌then◌else◌}
use rbac_manager.Outcome.{ok, err}
use rbac_manager.UserManager.{
  OrganizationRole, ProjectRole, InternalApiKey, InternalCluster, InternalOrganization,
  OrganizationUser, ProjectInfo,
}
use rbac_manager.Token.{Introspection}
use rbac_manager.Rbac.{AuthorizeRequest}
use rbac_manager.Cache.{Store, new_store}
use rbac_manager.Cache.Update.{UserInfoLister, ClusterInfoLister}
use rbac_manager.Cache.Sync.{Round, sync}
use rbac_manager.Server.{Server}

abbrev pub key0 : InternalApiKey
key0 = record {
  api_key = some (record {
    id = "k0";
    secret = "s0";
    user = some (record { id = "u0"; internal_id = "iu0" });
    organization = some (record { id = "o0" });
    project = some (record { id = "p0" });
    organization_role = OrganizationRole.reader;
    project_role = ProjectRole.member;
    excluded_from_rate_limiting = true;
  });
  tenant_id = "t0";
}

abbrev pub cluster0 : InternalCluster
cluster0 = record {
  cluster = some (record { id = "c0"; name = "cluster 0"; registration_key = "r0" });
  tenant_id = "t0";
}

abbrev pub cluster1 : InternalCluster
cluster1 = record {
  cluster = some (record { id = "c1"; name = "cluster 1"; registration_key = "r1" });
  tenant_id = "t1";
}

abbrev pub org : String → String → InternalOrganization
org id tenant = record {
  organization = some (record { id = id; title = "org"; is_default = true });
  tenant_id = tenant;
}

abbrev pub org_user : String → String → OrganizationRole → OrganizationUser
org_user user_id org_id role = record {
  user_id = user_id;
  internal_user_id = "i";
  organization_id = org_id;
  role = role;
}

abbrev pub project : String → Bool → ProjectInfo
project id is_default = record {
  id = id;
  title = "project";
  organization_id = "o0";
  kubernetes_namespace = "ns0";
  assignments = record { cluster_id = "c0"; namespace = "ns1" } ∷ [];
  is_default = is_default;
}

abbrev pub users : UserInfoLister
users = record {
  list_internal_api_keys = ok (key0 ∷ []);
  list_internal_organizations = ok (org "o0" "t0" ∷ org "o1" "t1" ∷ []);
  list_organization_users =
      ok (
        org_user "u0" "o0" OrganizationRole.reader
        ∷ org_user "u1" "o1" OrganizationRole.owner
        ∷ []);
  list_projects = ok (project "p0" false ∷ project "p1" true ∷ []);
  list_project_users = ok (
      record { user_id = "u0"; project_id = "p0"; organization_id = "o0"; role = ProjectRole.owner }
      ∷ []);
}

abbrev pub clusters : ClusterInfoLister
clusters = record { list_internal_clusters = ok (cluster0 ∷ cluster1 ∷ []) }

abbrev pub down : ClusterInfoLister
down = record { list_internal_clusters = err "unavailable" }

abbrev pub round : ℕ → ClusterInfoLister → Round
round now cl = record { user_infos = users; cluster_infos = cl; now = now }

-- The store after one successful round.
abbrev pub store : Store
store = (sync (round 7 clusters) [] new_store).1

abbrev pub active : String → Introspection
active email = record {
  active = true;
  subject = "sub";
  extra = record { email = email; email_verified = none };
}

abbrev pub server : Server
server = record {
  token_introspector = λ token. if token == "jwt0" then ok (active "u0") else err "unreachable";
  role_scopes_mapper =
      ("projectMember", "api.models.read" ∷ [])
      ∷ ("projectOwner", "api.models.read" ∷ "api.models.write" ∷ [])
      ∷ [];
}

abbrev pub ask : String → String → String → AuthorizeRequest
ask token resource project_id = record {
  token = token;
  access_resource = resource;
  capability = "read";
  organization_id = "";
  project_id = project_id;
}

abbrev pub same : String → String
same id = id
