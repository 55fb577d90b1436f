-- ===== src/Tests/Isolation.antt =====
-- A call with an API key, answered by the serving process.
use rbac_manager.Prelude.{[], ℕ, some, ◌≡◌, refl, inl}
use rbac_manager.Outcome.{ok}
use rbac_manager.Auth.{
  AssignedKubernetesEnv, Context, new_user_info_from_authorize_response,
  append_user_info_to_context,
}
use rbac_manager.Auth.Text.{trim_prefix, split_slash, last_part, capability_of_method}
use rbac_manager.Auth.Interceptor.{
  admit, authorize_grpc, extract_token_from_context, extract_org_id_from_context,
  extract_project_id_from_context,
}
use rbac_manager.Boot.{Process}
use rbac_manager.Boot.Isolation.{IsTheirs, in_front, admitted_envs_tenant}
use rbac_manager.Tests.World.{server, same}
use rbac_manager.Tests.Calls.{ctx, full_method, text_of}
use rbac_manager.Tests.Configs.{config}
use rbac_manager.Tests.Monitors.{registry}
use rbac_manager.Tests.Decisions.{deciding}
use rbac_manager.Tests.Boots.{booting, served, reach_served}
use rbac_manager.Tests.Web.{member}

abbrev served_at : ℕ → Process registry
served_at _ = served

abbrev pub with_member : Context
with_member = record ctx { user_info = some member }

abbrev own_env : AssignedKubernetesEnv
own_env = record { cluster_id = "c0"; cluster_name = "cluster 0"; namespace = "ns1" }

admits :
    admit
      (in_front registry config [] served_at
        (λ _. reach_served)
        same
        server
        0
        text_of
        (Unit {0})
        (λ _. "api.models"))
      ctx
      full_method
    ≡ ok with_member
unfolding booting deciding admit authorize_grpc extract_token_from_context
    extract_org_id_from_context extract_project_id_from_context trim_prefix split_slash last_part
    capability_of_method new_user_info_from_authorize_response append_user_info_to_context
admits = refl

admitted_envs_tenant_example : (k : ℕ) × IsTheirs (served_at k).store "t0" own_env
admitted_envs_tenant_example =
    admitted_envs_tenant registry config [] served_at (λ _. reach_served) same server 0 text_of
      (Unit {0}) (λ _. "api.models") ctx with_member full_method member own_env admits refl
      (inl refl)
