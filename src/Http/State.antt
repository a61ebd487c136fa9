-- ===== src/Http/State.antt =====
-- The state that a request leaves: of the store's operations for one tenant, at most one is called.
use enterprise_workflow_plat.Common.{
  String, Option, some, ◌==◌, ap, subst, sym, inl, inr, Option-cases, Result-cases, Bool-cases,
}
use enterprise_workflow_plat.Common.Texts.{trim_space}
use enterprise_workflow_plat.Domain.{Time, Int64, WorkflowDefinition, Record}
use enterprise_workflow_plat.Domain.Value.{Members}
use enterprise_workflow_plat.Auth.{Claims, Codec, Manager}
use enterprise_workflow_plat.Http.{
  Store, Json, Endpoint, healthz, creates_workflow, lists_workflows, creates_record, lists_records,
  gets_record, updates_record, lists_audit, Request, handle, handle_create_workflow,
  handle_list_workflows, handle_create_record, handle_list_records, handle_get_record,
  handle_update_record, handle_list_audit, guard, serve_endpoint, route, serve, find_endpoint,
}
use enterprise_workflow_plat.Http.Access.{MayUse, authorize-MayUse}

-- `P` holds of a state `w`, and of what each operation for a tenant makes of it.
pub record Keeps {W : Type 0} (store : Store W) (P : W → Type 0) (tenant : String) (w : W)
    : Type 0 where
  pub unchanged : P w
  pub create_workflow : (wf : WorkflowDefinition) → P (store.create_workflow tenant wf w).1
  pub list_workflows : P (store.list_workflows tenant w).1
  pub create_record : (key : String) (r : Record) → P (store.create_record tenant key r w).1
  pub list_records : (state : String) → P (store.list_records tenant state w).1
  pub get_record : (id : String) → P (store.get_record tenant id w).1
  pub update_record :
      (id : String) (expected : Int64) (state : String) (new_data : Option Members)
      → P (store.update_record tenant id expected state new_data w).1
  pub list_audit_events : P (store.list_audit_events tenant w).1

module _ {W : Type 0} (store : Store W) (json : Json) (P : W → Type 0) where
  pub handle-Keeps :
      (endpoint : Endpoint) (tenant : String) (r : Request) (w : W)
      → Keeps store P tenant w
      → P (handle store json endpoint tenant r w).1
  unfolding handle handle_create_workflow handle_list_workflows handle_create_record
      handle_list_records handle_get_record handle_update_record handle_list_audit
  handle-Keeps healthz tenant r w k = k.unchanged
  handle-Keeps creates_workflow tenant r w k = elim (Option-cases (json.workflow r.body)) [
    | inl bad ↦ rw (bad, handle, handle_create_workflow) k.unchanged
    | inr (wf, good) ↦ elim (Result-cases (store.create_workflow tenant wf w).0) [
      | inl (e, failed) ↦ rw (good, handle, handle_create_workflow, failed) (k.create_workflow wf)
      | inr (x, went) ↦ rw (good, handle, handle_create_workflow, went) (k.create_workflow wf)
    ]
  ]
  handle-Keeps lists_workflows tenant r w k =
      elim (Result-cases (store.list_workflows tenant w).0) [
        | inl (e, failed) ↦ rw (failed, handle, handle_list_workflows) k.list_workflows
        | inr (x, went) ↦ rw (went, handle, handle_list_workflows) k.list_workflows
      ]
  handle-Keeps creates_record tenant r w k = elim (Option-cases (json.new_record r.body)) [
    | inl bad ↦ rw (bad, handle, handle_create_record) k.unchanged
    | inr (rec, good) ↦ rw (good, handle, handle_create_record) (k.create_record _ rec)
  ]
  handle-Keeps lists_records tenant r w k =
      elim (Result-cases (store.list_records tenant (trim_space r.query_state) w).0) [
        | inl (e, failed) ↦ rw (failed, handle, handle_list_records) (k.list_records _)
        | inr (x, went) ↦ rw (went, handle, handle_list_records) (k.list_records _)
      ]
  handle-Keeps (gets_record id) tenant r w k =
      elim (Result-cases (store.get_record tenant id w).0) [
        | inl (e, failed) ↦ rw (failed, handle, handle_get_record) (k.get_record id)
        | inr (x, went) ↦ rw (went, handle, handle_get_record) (k.get_record id)
      ]
  handle-Keeps (updates_record id) tenant r w k = elim (Option-cases (json.update r.body)) [
    | inl bad ↦ rw (bad, handle, handle_update_record) k.unchanged
    | inr (req, good) ↦ rw (good, handle, handle_update_record) (k.update_record id _ _ _)
  ]
  handle-Keeps lists_audit tenant r w k = elim (Result-cases (store.list_audit_events tenant w).0) [
    | inl (e, failed) ↦ rw (failed, handle, handle_list_audit) k.list_audit_events
    | inr (x, went) ↦ rw (went, handle, handle_list_audit) k.list_audit_events
  ]

  -- A state property holds after a request to a server with a manager if it holds before, and after
  -- each operation for the tenant of any claims that let the request use its endpoint.
  module _ (codec : Codec) (m : Manager) (now : Time) where
    serve_endpoint-Keeps :
        (endpoint : Endpoint) (r : Request) (w : W)
        → P w
        → ((c : Claims) → MayUse codec m now endpoint r c → Keeps store P c.tenant_id w)
        → P (guard store json codec (some m) now endpoint r w).1
    unfolding guard
    serve_endpoint-Keeps endpoint r w p k =
        elim (authorize-MayUse store json codec m now endpoint r w) [
          | inl (_, kept) ↦ subst P (sym kept) p
          | inr (c, may, answered) ↦
              subst P (sym (ap (λ a. a.1) answered))
                (handle-Keeps endpoint c.tenant_id r w (k c may))
        ]

    route-Keeps :
        (r : Request) (w : W)
        → P w
        → ((endpoint : Endpoint) (c : Claims)
            → MayUse codec m now endpoint r c
            → Keeps store P c.tenant_id w)
        → P (route store json codec (some m) now r w).1
    unfolding route serve_endpoint
    route-Keeps r w p k = elim (Option-cases (find_endpoint r.method r.path)) [
      | inl missing ↦ rw (missing, route) p
      | inr (healthz, found) ↦ rw (found, route) p
      | inr (creates_workflow, found) ↦
          rw (found, route) (serve_endpoint-Keeps creates_workflow r w p (k creates_workflow))
      | inr (lists_workflows, found) ↦
          rw (found, route) (serve_endpoint-Keeps lists_workflows r w p (k lists_workflows))
      | inr (creates_record, found) ↦
          rw (found, route) (serve_endpoint-Keeps creates_record r w p (k creates_record))
      | inr (lists_records, found) ↦
          rw (found, route) (serve_endpoint-Keeps lists_records r w p (k lists_records))
      | inr (lists_audit, found) ↦
          rw (found, route) (serve_endpoint-Keeps lists_audit r w p (k lists_audit))
      | inr (gets_record id, found) ↦
          rw (found, route) (serve_endpoint-Keeps (gets_record id) r w p (k (gets_record id)))
      | inr (updates_record id, found) ↦
          rw (found, route) (serve_endpoint-Keeps (updates_record id) r w p (k (updates_record id)))
    ]

    pub serve-Keeps :
        (r : Request) (w : W)
        → P w
        → ((endpoint : Endpoint) (c : Claims)
            → MayUse codec m now endpoint r c
            → Keeps store P c.tenant_id w)
        → P (serve store json codec (some m) now r w).1
    unfolding serve
    serve-Keeps r w p k = elim (Bool-cases (r.method == "OPTIONS")) [
      | inl preflight ↦ rw (preflight, serve) p
      | inr method ↦ rw (method, serve) (route-Keeps r w p k)
    ]
