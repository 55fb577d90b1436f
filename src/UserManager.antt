-- ===== src/UserManager.antt =====
-- The messages of user-manager and cluster-manager that server/internal/cache/cache.go reads, with
-- the fields that it reads. Both services are other repositories: nothing of their behaviour is
-- assumed. A nested message is a Go pointer and may be nil, which is `none` here; protobuf decoding
-- never puts a nil pointer into a repeated field.
use rbac_manager.Prelude.{ℕ, String, Bool, Option, List}

-- uv1.OrganizationRole, with the constants that the program names; proto3 enums are open, so any
-- other number may arrive too.
pub data OrganizationRole : Type 0 where
  unspecified owner reader tenant_system : OrganizationRole
  other : ℕ → OrganizationRole

-- uv1.ProjectRole
pub data ProjectRole : Type 0 where
  unspecified owner member : ProjectRole
  other : ℕ → ProjectRole

pub record ProjectAssignment : Type 0 where
  pub cluster_id : String
  pub namespace : String

pub record IdOnly : Type 0 where
  pub id : String

pub record ApiKeyUser : Type 0 where
  pub id : String
  pub internal_id : String

pub record ApiKey : Type 0 where
  pub id : String
  pub secret : String
  pub user : Option ApiKeyUser
  pub organization : Option IdOnly
  pub project : Option IdOnly
  pub organization_role : OrganizationRole
  pub project_role : ProjectRole
  pub excluded_from_rate_limiting : Bool

pub record InternalApiKey : Type 0 where
  pub api_key : Option ApiKey
  pub tenant_id : String

pub record ClusterInfo : Type 0 where
  pub id : String
  pub name : String
  pub registration_key : String

pub record InternalCluster : Type 0 where
  pub cluster : Option ClusterInfo
  pub tenant_id : String

pub record OrganizationInfo : Type 0 where
  pub id : String
  pub title : String
  pub is_default : Bool

pub record InternalOrganization : Type 0 where
  pub organization : Option OrganizationInfo
  pub tenant_id : String

pub record OrganizationUser : Type 0 where
  pub user_id : String
  pub internal_user_id : String
  pub organization_id : String
  pub role : OrganizationRole

pub record ProjectInfo : Type 0 where
  pub id : String
  pub title : String
  pub organization_id : String
  pub kubernetes_namespace : String
  pub assignments : List ProjectAssignment
  pub is_default : Bool

pub record ProjectUser : Type 0 where
  pub user_id : String
  pub project_id : String
  pub organization_id : String
  pub role : ProjectRole
