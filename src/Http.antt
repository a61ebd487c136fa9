-- ===== src/Http.antt =====
-- services/api/internal/httpapi/server.go: the handlers, their authorization and the routes.
-- The store is the interface `store.Store`: `Store` has its methods, each a function of the state
-- `W` of the world. The decoders of `encoding/json` are parameters, in `Json`.
mod Routes
pub mod Access
pub mod State
pub mod Memory
pub mod Conflict
mod Tests
unfoldable pub use Routes.*
use enterprise_workflow_plat.Common.{
  ℕ, String, List, [], ◌∷◌, Option, none, some, Bool, true, false, not, ◌&&◌, ◌||◌, ◌==◌, ◌++◌,
  Result, ok, err, if◌then◌else◌, get_or,
}
use enterprise_workflow_plat.Common.Int64.{format_int, parse_int}
use enterprise_workflow_plat.Common.Texts.{trim_space, trim_quotes}
use enterprise_workflow_plat.Domain.{Time, Int64, WorkflowDefinition, Record, AuditEvent}
use enterprise_workflow_plat.Domain.Value.{Members}
use enterprise_workflow_plat.Store.{StoreError, not_found, conflict}
use enterprise_workflow_plat.Auth.{
  Role, role_admin, role_builder, role_requester, role_approver, role_auditor, Claims, Codec,
  Manager, bearer, parse,
}

-- An error of the store: one of its own, or any other, with its text.
pub data Fault : Type 0 where
  known : StoreError → Fault
  other : String → Fault

pub record Store (W : Type 0) : Type 0 where
  pub create_workflow : String → WorkflowDefinition → W → Result Fault WorkflowDefinition × W
  pub list_workflows : String → W → Result Fault (List WorkflowDefinition) × W
  pub create_record : String → String → Record → W → Result Fault (Record × Bool) × W
  pub list_records : String → String → W → Result Fault (List Record) × W
  pub get_record : String → String → W → Result Fault Record × W
  pub update_record :
      String → String → Int64 → String → Option Members → W → Result Fault Record × W
  pub list_audit_events : String → W → Result Fault (List AuditEvent) × W

pub record UpdateRecordRequest : Type 0 where
  pub state : String
  pub request_data : Option Members
  pub expected_version : Int64

-- `json.NewDecoder(r.Body).Decode` at the three types, and `err.Error()`.
pub record Json : Type 0 where
  pub workflow : String → Option WorkflowDefinition
  pub new_record : String → Option Record
  pub update : String → Option UpdateRecordRequest
  pub message : Fault → String

-- A request: its path as segments, its headers (an empty text for a missing one), `state` of its
-- query, its body.
pub record Request : Type 0 where
  pub method : String
  pub path : List String
  pub header : String → String
  pub query_state : String
  pub body : String

pub data Body : Type 0 where
  no_content : Body
  status_body error_body text_body : String → Body
  workflow_body : WorkflowDefinition → Body
  workflows_body : List WorkflowDefinition → Body
  record_body : Record → Body
  records_body : List Record → Body
  audit_body : List AuditEvent → Body

pub record Response : Type 0 where
  pub status : ℕ
  pub headers : List (String × String)
  pub body : Body

-- `writeJSON` and `writeErr`.
abbrev pub write_json : ℕ → Body → Response
write_json status body = record { status = status; headers = []; body = body }

abbrev pub write_err : ℕ → String → Response
write_err status message = write_json status (error_body message)

abbrev pub with_header : String → String → Response → Response
with_header name value r = record r { headers = (name, value) ∷ r.headers }

-- What the multiplexer answers by `http.Error`.
abbrev text_error : ℕ → String → Response
text_error status message = record {
  status = status;
  headers =
      ("Content-Type", "text/plain; charset=utf-8") ∷ ("X-Content-Type-Options", "nosniff") ∷ [];
  body = text_body message;
}

-- `withJSON`, where a pattern was found.
abbrev json_type : Option Endpoint → List (String × String)
json_type none = []
json_type (some _) = ("Content-Type", "application/json") ∷ []

abbrev pub cors_headers : List (String × String)
cors_headers =
    ("Access-Control-Allow-Origin", "http://localhost:5173")
    ∷ (
      "Access-Control-Allow-Headers",
      "Authorization, Content-Type, X-Tenant-ID, Idempotency-Key, If-Match",
    )
    ∷ ("Access-Control-Allow-Methods", "GET, POST, PUT, OPTIONS")
    ∷ []

-- `tenantID`: the tenant of the claims in the context, or of the header.
unfoldable pub tenant_id : Option Claims → Request → Option String
tenant_id (some c) r = if not (c.tenant_id == "") then some c.tenant_id else none
tenant_id none r =
    let tenant = trim_space (r.header "X-Tenant-ID") in
    if not (tenant == "") then some tenant else none

-- `If-Match` takes the place of `expectedVersion` when it is a number.
unfoldable pub expected_version : Request → UpdateRecordRequest → Int64
expected_version r req =
    if not (r.header "If-Match" == "")
    then get_or (parse_int (trim_quotes (r.header "If-Match"))) req.expected_version
    else req.expected_version

-- What `updateRecord` answers to each result of the store.
unfoldable pub update_response : Json → Result Fault Record → Response
update_response json (ok r) =
    with_header "ETag" (format_int r.version) (write_json 200 (record_body r))
update_response json (err (known conflict)) = write_err 409 "version conflict"
update_response json (err (known not_found)) = write_err 404 "record not found"
update_response json (err e) = write_err 422 (json.message e)

unfoldable pub create_response : Json → Result Fault (Record × Bool) → Response
create_response json (ok (r, true)) =
    with_header "Idempotent-Replay" "true" (write_json 201 (record_body r))
create_response json (ok (r, false)) = write_json 201 (record_body r)
create_response json (err e) = write_err 422 (json.message e)

module _ {W : Type 0} (store : Store W) (json : Json) where
  -- Each handler with the tenant that `tenantID` found.
  unfoldable pub handle_create_workflow : String → Request → W → Response × W
  handle_create_workflow tenant r w = elim (json.workflow r.body) [
    | none ↦ (write_err 400 "invalid JSON", w)
    | some wf ↦
        let (result, w') = store.create_workflow tenant wf w in
        elim result [
          | err e ↦ (write_err 422 (json.message e), w')
          | ok created ↦ (write_json 201 (workflow_body created), w')
        ]
  ]

  unfoldable pub handle_list_workflows : String → W → Response × W
  handle_list_workflows tenant w =
      let (result, w') = store.list_workflows tenant w in
      elim result [
        | err e ↦ (write_err 500 "unable to list workflows", w')
        | ok items ↦ (write_json 200 (workflows_body items), w')
      ]

  unfoldable pub handle_create_record : String → Request → W → Response × W
  handle_create_record tenant r w = elim (json.new_record r.body) [
    | none ↦ (write_err 400 "invalid JSON", w)
    | some rec ↦
        let (result, w') = store.create_record tenant (r.header "Idempotency-Key") rec w in
        (create_response json result, w')
  ]

  unfoldable pub handle_list_records : String → Request → W → Response × W
  handle_list_records tenant r w =
      let (result, w') = store.list_records tenant (trim_space r.query_state) w in
      elim result [
        | err e ↦ (write_err 500 "unable to list records", w')
        | ok items ↦ (write_json 200 (records_body items), w')
      ]

  unfoldable pub handle_get_record : String → String → W → Response × W
  handle_get_record tenant id w =
      let (result, w') = store.get_record tenant id w in
      elim result [
        | err e ↦ (write_err 404 "record not found", w')
        | ok r ↦ (write_json 200 (record_body r), w')
      ]

  unfoldable pub handle_update_record : String → String → Request → W → Response × W
  handle_update_record tenant id r w = elim (json.update r.body) [
    | none ↦ (write_err 400 "invalid JSON", w)
    | some req ↦
        let (result, w') =
          store.update_record tenant id (expected_version r req) req.state req.request_data w in
        (update_response json result, w')
  ]

  unfoldable pub handle_list_audit : String → W → Response × W
  handle_list_audit tenant w =
      let (result, w') = store.list_audit_events tenant w in
      elim result [
        | err e ↦ (write_err 500 "unable to list audit events", w')
        | ok items ↦ (write_json 200 (audit_body items), w')
      ]

  unfoldable pub handle : Endpoint → String → Request → W → Response × W
  handle healthz tenant r w = (write_json 200 (status_body "ok"), w)
  handle creates_workflow tenant r w = handle_create_workflow tenant r w
  handle lists_workflows tenant r w = handle_list_workflows tenant w
  handle creates_record tenant r w = handle_create_record tenant r w
  handle lists_records tenant r w = handle_list_records tenant r w
  handle (gets_record id) tenant r w = handle_get_record tenant id w
  handle (updates_record id) tenant r w = handle_update_record tenant id r w
  handle lists_audit tenant r w = handle_list_audit tenant w

  -- The guard that every handler but `health` begins with.
  unfoldable pub with_tenant : Endpoint → Option Claims → Request → W → Response × W
  with_tenant endpoint claims r w = elim (tenant_id claims r) [
    | none ↦ (write_err 400 "tenant is required", w)
    | some tenant ↦ handle endpoint tenant r w
  ]

  -- What `authorize` puts before a handler, with a manager.
  unfoldable pub authorize : Codec → Manager → Time → Endpoint → Request → W → Response × W
  authorize codec m now endpoint r w = elim (bearer (r.header "Authorization")) [
    | err _ ↦ (write_err 401 "authentication required", w)
    | ok token ↦ elim (parse codec m now token) [
      | err _ ↦ (write_err 401 "invalid or expired token", w)
      | ok claims ↦
          let requested = trim_space (r.header "X-Tenant-ID") in
          if not (requested == "") && not (requested == claims.tenant_id)
          then (write_err 403 "tenant does not match token", w)
          else if not (is_allowed (allowed_roles endpoint) claims.role)
          then (write_err 403 "role is not allowed for this operation", w)
          else with_tenant endpoint (some claims) r w
    ]
  ]

  -- A server with a manager, or without one as `New` makes it.
  unfoldable pub guard : Codec → Option Manager → Time → Endpoint → Request → W → Response × W
  guard codec none now endpoint r w = with_tenant endpoint none r w
  guard codec (some m) now endpoint r w = authorize codec m now endpoint r w

  -- `health` is not authorized.
  unfoldable pub serve_endpoint :
      Codec → Option Manager → Time → Endpoint → Request → W → Response × W
  serve_endpoint codec m now endpoint r w = elim endpoint [
    | healthz ↦ (write_json 200 (status_body "ok"), w)
    | guarded ↦ guard codec m now guarded r w
  ]

  -- The multiplexer: no pattern for the path, or none for its method. The `Allow` header of the
  -- latter is left out.
  unfoldable pub route : Codec → Option Manager → Time → Request → W → Response × W
  route codec m now r w = elim (find_endpoint r.method r.path) [
    | some endpoint ↦ serve_endpoint codec m now endpoint r w
    | none ↦ (
      (if is_known_path r.path
          then text_error 405 "Method Not Allowed"
          else text_error 404 "404 page not found"),
      w,
    )
  ]

  -- `withCORS(withJSON(mux))`; the multiplexer's own answers replace the type that `withJSON` sets.
  unfoldable pub serve : Codec → Option Manager → Time → Request → W → Response × W
  serve codec m now r w =
      let (response, w') = route codec m now r w in
      if r.method == "OPTIONS"
      then (record { status = 204; headers = cors_headers; body = no_content }, w)
      else (
        record response {
          headers = cors_headers ++ json_type (find_endpoint r.method r.path) ++ response.headers;
        },
        w',
      )
