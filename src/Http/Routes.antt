-- ===== src/Http/Routes.antt =====
-- The patterns of `newHandler`, the roles that may use each, and the pattern of a request.
use enterprise_workflow_plat.Common.{
  String, List, [], ◌∷◌, Option, none, some, Bool, true, false, not, ◌&&◌, ◌||◌, ◌==◌,
  if◌then◌else◌,
}
use enterprise_workflow_plat.Auth.{
  Role, role_admin, role_builder, role_requester, role_approver, role_auditor,
}

-- The patterns of `newHandler`, with what `{id}` stands for.
pub data Endpoint : Type 0 where
  healthz creates_workflow lists_workflows creates_record lists_records lists_audit : Endpoint
  gets_record updates_record : (id : String) → Endpoint

abbrev pub all_roles : List Role
all_roles = role_admin ∷ role_builder ∷ role_requester ∷ role_approver ∷ role_auditor ∷ []

-- The roles that `newHandler` lets use each pattern; `healthz` is not wrapped in `authorize` and has
-- no list.
abbrev pub allowed_roles : Endpoint → List Role
allowed_roles healthz = []
allowed_roles creates_workflow = role_admin ∷ role_builder ∷ []
allowed_roles lists_workflows = all_roles
allowed_roles creates_record = role_admin ∷ role_builder ∷ role_requester ∷ []
allowed_roles lists_records = all_roles
allowed_roles (gets_record id) = all_roles
allowed_roles (updates_record id) = role_admin ∷ role_approver ∷ []
allowed_roles lists_audit = role_admin ∷ role_auditor ∷ []

-- `_, ok := allowed[claims.Role]`.
unfoldable pub is_allowed : List Role → Role → Bool
is_allowed [] role = false
is_allowed (r ∷ rs) role = if r == role then true else is_allowed rs role

-- The patterns of `newHandler`, on a clean path; a `GET` pattern serves `HEAD` too.
unfoldable pub is_get : String → Bool
is_get method = if method == "GET" then true else method == "HEAD"

-- `GET` and `POST` of a collection under `/api/v1`.
unfoldable pub find_collection : String → String → Option Endpoint
find_collection method name =
    if name == "workflows"
    then (if is_get method
        then some lists_workflows
        else if method == "POST"
        then some creates_workflow
        else none)
    else if name == "records"
    then (if is_get method
        then some lists_records
        else if method == "POST"
        then some creates_record
        else none)
    else if name == "audit-events" && is_get method
    then some lists_audit
    else none

-- `GET` and `PUT` of `/api/v1/records/{id}`.
unfoldable pub find_item : String → String → String → Option Endpoint
find_item method name id =
    if not (name == "records") || id == ""
    then none
    else if is_get method
    then some (gets_record id)
    else if method == "PUT"
    then some (updates_record id)
    else none

unfoldable pub find_endpoint : String → List String → Option Endpoint
find_endpoint method [] = none
find_endpoint method (a ∷ []) = if a == "healthz" && is_get method then some healthz else none
find_endpoint method (a ∷ v ∷ []) = none
find_endpoint method (a ∷ v ∷ name ∷ []) =
    if a == "api" && v == "v1" then find_collection method name else none
find_endpoint method (a ∷ v ∷ name ∷ id ∷ []) =
    if a == "api" && v == "v1" then find_item method name id else none
find_endpoint method (a ∷ v ∷ name ∷ id ∷ more ∷ others) = none

abbrev has_pattern : List String → String → Bool
has_pattern path method = elim (find_endpoint method path) [ none ↦ false | some _ ↦ true ]

unfoldable pub is_known_path : List String → Bool
is_known_path path = has_pattern path "GET" || has_pattern path "POST" || has_pattern path "PUT"
