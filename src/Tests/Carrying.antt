-- ===== src/Tests/Carrying.antt =====
-- `CarryMetadata` of a call with a token and a project.
use rbac_manager.Prelude.{String, none, some, List, [], ◌∷◌, ◌≡◌, refl}
use rbac_manager.Outcome.{ok}
use rbac_manager.GoMap.{GoMap}
use rbac_manager.Rbac.{Status}
use rbac_manager.Auth.{Context}
use rbac_manager.Auth.Metadata.{carry, carry_metadata}
use rbac_manager.Auth.Metadata.Carried.{with_outgoing}

abbrev md : GoMap (List String)
md = ("authorization", "Bearer s0" ∷ []) ∷ ("openai-project", "p0" ∷ "p1" ∷ []) ∷ []

abbrev ctx : Context
ctx = record { incoming = some md; outgoing = []; user_info = none; cluster_info = none }

abbrev pairs : List (String × String)
pairs = ("Authorization", "Bearer s0") ∷ ("Openai-Project", "p0") ∷ []

-- The context of an HTTP request, without metadata of gRPC.
abbrev plain : Context
plain = record { incoming = none; outgoing = []; user_info = none; cluster_info = none }

abbrev header : GoMap (List String)
header = ("Authorization", "Bearer s0" ∷ []) ∷ []

carried_run : carry_metadata {E = Status} ctx ≡ ok (with_outgoing ctx pairs)
unfolding carry carry_metadata
carried_run = refl
