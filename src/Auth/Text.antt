-- ===== src/Auth/Text.antt =====
-- interceptor.go: the functions of Go's `strings` that it uses, and its headers.
pub mod Laws
pub mod Method
use Prim.Native.Char.{Char, code}
use Prim.Native.String
use Prim.Native.String.{String, len, slice}
use text.Mathlib.Text.{starts_with, ◌==◌ as str_eq}
use rbac_manager.Prelude.{ℕ, Bool, List, [], ◌∷◌, Option, none, some, ◌||◌, if◌then◌else◌}
use rbac_manager.Prelude.Numbers.{nat_eq}

-- The header keys, and what `strings.ToLower` makes of them.
abbrev pub auth_header : String
auth_header = "Authorization"

abbrev pub org_header : String
org_header = "Openai-Organization"

abbrev pub project_header : String
project_header = "Openai-Project"

abbrev pub to_lower_auth_header : String
to_lower_auth_header = "authorization"

abbrev pub to_lower_org_header : String
to_lower_org_header = "openai-organization"

abbrev pub to_lower_project_header : String
to_lower_project_header = "openai-project"

abbrev pub cap_read : String
cap_read = "read"

abbrev pub cap_write : String
cap_write = "write"

-- `strings.TrimPrefix`
unfoldable pub trim_prefix : String → String → String
trim_prefix s prefix = if starts_with s prefix then slice s (len prefix) (len s) else s

abbrev pub push_front : Char → List String → List String
push_front c [] = (String.◌∷◌ c "") ∷ []
push_front c (part ∷ parts) = (String.◌∷◌ c part) ∷ parts

-- `strings.Split(s, "/")`
unfoldable pub split_slash : String → List String
split_slash String.[] = "" ∷ []
split_slash (String.◌∷◌ c s) =
    let rest = split_slash s in if nat_eq (code c) b'/' then "" ∷ rest else push_front c rest

-- `ms[len(ms)-1]`, which panics on an empty slice.
unfoldable pub last_part : List String → Option String
last_part [] = none
last_part (part ∷ []) = some part
last_part (_ ∷ part ∷ parts) = last_part (part ∷ parts)

-- The capability that a gRPC method needs, by its name.
unfoldable pub capability_of_method : String → String
capability_of_method method =
    if starts_with method "Get" || starts_with method "List" then cap_read else cap_write

-- The capability that an HTTP method needs.
unfoldable pub capability_of_http_method : String → String
capability_of_http_method method = if str_eq method "GET" then cap_read else cap_write
