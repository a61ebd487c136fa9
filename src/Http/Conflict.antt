-- ===== src/Http/Conflict.antt =====
-- `PUT /api/v1/records/{id}` over the in-memory store: the answer to two clients that hold the same
-- version.
use enterprise_workflow_plat.Common.{
  String, List, some, ok, err, ◌≡◌, refl, sym, ◌∙◌, ap, arith, ◌+◌, ◌*◌, ◌<◌, length, subst,
}
use enterprise_workflow_plat.Common.Int64.{two_63}
use enterprise_workflow_plat.Domain.{WorkflowDefinition, Record}
use enterprise_workflow_plat.Store.{conflict, not_found, invalid_workflow, index_out_of_range}
use enterprise_workflow_plat.Store.Memory.{MemoryStore, Clock, Outcome, update_record}
use enterprise_workflow_plat.Store.Memory.Queries.{Range}
use enterprise_workflow_plat.Store.Memory.Trace.{Call, run}
use enterprise_workflow_plat.Store.Memory.Sound.{IsSound}
use enterprise_workflow_plat.Store.Memory.Concurrency.{update_record_once}
use enterprise_workflow_plat.Http.{
  Json, known, updates_record, Request, UpdateRecordRequest, Response, handle, handle_update_record,
  expected_version, update_response, write_err,
}
use enterprise_workflow_plat.Http.Memory.{as_result, memory_store}

update_response-ok :
    (json : Json) (o : Outcome Record)
    → (update_response json (as_result o).0).status ≡ 200
    → (new : Record) × (o.0 ≡ ok new)
unfolding update_response
update_response-ok json (ok r, s) e = (r, refl)
update_response-ok json (err not_found, s) e = absurd (omega (arith, e))
update_response-ok json (err conflict, s) e = absurd (omega (arith, e))
update_response-ok json (err invalid_workflow, s) e = absurd (omega (arith, e))
update_response-ok json (err index_out_of_range, s) e = absurd (omega (arith, e))

as_result-state : (o : Outcome Record) → (as_result o).1 ≡ o.1
as_result-state (ok r, s) = refl
as_result-state (err e, s) = refl

abbrev update_of :
    Clock → String → String → Request → UpdateRecordRequest → MemoryStore → Outcome Record
update_of clock tenant id r req s =
    update_record clock tenant id (expected_version r req) req.state req.request_data s

module _ (clock : Clock) (visit : Range WorkflowDefinition) (visit_records : Range Record)
    (json : Json) (tenant id : String) where
  abbrev answer : Request → MemoryStore → Response × MemoryStore
  answer r s = handle (memory_store clock visit visit_records) json (updates_record id) tenant r s

  answer-eq :
      (r : Request) (req : UpdateRecordRequest) (s : MemoryStore)
      → json.update r.body ≡ some req
      → answer r s ≡ (
        update_response json (as_result (update_of clock tenant id r req s)).0,
        (as_result (update_of clock tenant id r req s)).1,
      )
  unfolding handle handle_update_record
  answer-eq r req s h = rw (h, handle_update_record) refl

conflict_response :
    (json : Json) (t : MemoryStore)
    → ◌≡◌ {A = Response × MemoryStore}
        (update_response json (err (known conflict)), t)
        (write_err 409 "version conflict", t)
unfolding update_response
conflict_response json t = refl

-- After a `PUT` of a record has been answered with 200, and after any further calls of the store, a
-- `PUT` of the record by the same tenant that expects the same version, by its `If-Match` header or
-- its body, is answered with 409 and changes nothing. The store is sound and its counter stays below
-- 2 ^ 63.
pub put_twice :
    (clock later : Clock) (visit : Range WorkflowDefinition) (visit_records : Range Record)
    (json : Json) (tenant id : String) (r r' : Request) (req req' : UpdateRecordRequest)
    (s : MemoryStore) (cs : List Call)
    → json.update r.body ≡ some req
    → json.update r'.body ≡ some req'
    → expected_version r' req' ≡ expected_version r req
    → IsSound s
    → s.counter + (3 + 3 * length cs) < two_63
    → let first =
        handle (memory_store clock visit visit_records) json (updates_record id) tenant r s in
      let t = run cs first.1 in
      first.0.status ≡ 200
      → handle (memory_store later visit visit_records) json (updates_record id) tenant r' t
        ≡ (write_err 409 "version conflict", t)
put_twice clock later visit visit_records json tenant id r r' req req' s cs h h' same sound room e =
    let first = answer-eq clock visit visit_records json tenant id r req s h in
    let (new, went) =
      update_response-ok json (update_of clock tenant id r req s)
        (ap (λ a. a.0.status) (sym first) ∙ e) in
    let state = ap (λ a. a.1) first ∙ as_result-state (update_of clock tenant id r req s) in
    let once =
      update_record_once clock later tenant id (expected_version r req) req.state req'.state
        req.request_data req'.request_data new s cs sound room went in
    let t = run cs (update_of clock tenant id r req s).1 in
    let refused : update_of later tenant id r' req' t ≡ (err conflict, t) =
      ap (λ v. update_record later tenant id v req'.state req'.request_data t) same ∙ once in
    subst
      (λ x.
        handle (memory_store later visit visit_records) json (updates_record id) tenant r'
          (run cs x)
        ≡ (write_err 409 "version conflict", run cs x))
      (sym state)
      (answer-eq later visit visit_records json tenant id r' req' t h'
        ∙ ap (λ o. (update_response json (as_result o).0, (as_result o).1)) refused
        ∙ conflict_response json t)
