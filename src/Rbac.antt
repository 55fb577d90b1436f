-- ===== src/Rbac.antt =====
-- The messages of api/v1/rbac_manager_service.proto, as api/v1/rbac_manager_service.pb.go declares
-- them (without the bookkeeping fields of protobuf), and the gRPC statuses that the program
-- returns. A field that is a message is a pointer: `none` is nil.
use rbac_manager.Prelude.{String, Bool, false, Option, none, List, []}

pub record AuthorizeRequest : Type 0 where
  pub token : String
  pub access_resource : String
  pub capability : String
  pub organization_id : String
  pub project_id : String

pub record User : Type 0 where
  pub id : String
  pub internal_id : String

pub record Organization : Type 0 where
  pub id : String
  pub title : String

pub record AssignedKubernetesEnv : Type 0 where
  pub cluster_id : String
  pub cluster_name : String
  pub namespace : String

pub record Project : Type 0 where
  pub id : String
  pub title : String
  pub assigned_kubernetes_envs : List AssignedKubernetesEnv

pub record AuthorizeResponse : Type 0 where
  pub authorized : Bool
  pub user : Option User
  pub organization : Option Organization
  pub project : Option Project
  pub tenant_id : String
  pub api_key_id : String
  pub excluded_from_rate_limiting : Bool

pub record AuthorizeWorkerRequest : Type 0 where
  pub token : String

pub record Cluster : Type 0 where
  pub id : String
  pub name : String

pub record AuthorizeWorkerResponse : Type 0 where
  pub authorized : Bool
  pub cluster : Option Cluster
  pub tenant_id : String

-- `&v1.AuthorizeResponse{Authorized: false}`
abbrev pub denied : AuthorizeResponse
denied = record {
  authorized = false;
  user = none;
  organization = none;
  project = none;
  tenant_id = "";
  api_key_id = "";
  excluded_from_rate_limiting = false;
}

-- `&v1.Organization{}`, `&v1.Project{}`
abbrev pub empty_organization : Organization
empty_organization = record { id = ""; title = "" }

abbrev pub empty_project : Project
empty_project = record { id = ""; title = ""; assigned_kubernetes_envs = [] }

-- The codes of google.golang.org/grpc/codes that the program uses.
pub data Code : Type 0 where
  invalid_argument unauthenticated permission_denied internal : Code

-- An error made by `status.Errorf`.
pub record Status : Type 0 where
  pub code : Code
  pub message : String
