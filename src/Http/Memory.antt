-- ===== src/Http/Memory.antt =====
-- The API over the in-memory store. A panic of the store is an error here too; on a valid store it
-- has none.
use enterprise_workflow_plat.Common.{
  String, Option, some, Result, ok, err, ◌≡◌, ◌≢◌, refl, sym, subst,
}
use enterprise_workflow_plat.Domain.{Time, Int64, WorkflowDefinition, Record}
use enterprise_workflow_plat.Domain.Value.{Members}
use enterprise_workflow_plat.Store.{StoreError}
use enterprise_workflow_plat.Store.Memory.{
  MemoryStore, Clock, Outcome, create_workflow, create_record, get_record, update_record,
}
use enterprise_workflow_plat.Store.Memory.Queries.{
  Range, list_workflows, list_records, list_audit_events,
}
use enterprise_workflow_plat.Store.Memory.Trace.{
  creates_workflow, creates_record, updates_record, step,
}
use enterprise_workflow_plat.Store.Memory.Fresh.{IsFresh, HasRoom}
use enterprise_workflow_plat.Store.Memory.Sound.{IsSound, step-IsSound}
use enterprise_workflow_plat.Store.Memory.Isolation.{SameView, SameView-refl}
use enterprise_workflow_plat.Store.Memory.Foreign.{step-SameView}
use enterprise_workflow_plat.Auth.{Claims, Codec, Manager, bearer, parse}
use enterprise_workflow_plat.Http.State.{Keeps, serve-Keeps}
use enterprise_workflow_plat.Http.{Store, Json, Fault, known, Request, serve}

abbrev pub as_result : {A : Type 0} → Outcome A → Result Fault A × MemoryStore
as_result (ok a, s) = (ok a, s)
as_result (err e, s) = (err (known e), s)

abbrev pub as_fault : {A : Type 0} → Result StoreError A → Result Fault A
as_fault (ok a) = ok a
as_fault (err e) = err (known e)

abbrev pub memory_store : Clock → Range WorkflowDefinition → Range Record → Store MemoryStore
memory_store clock visit visit_records = record {
  create_workflow = λ tenant wf s. as_result (create_workflow clock tenant wf s);
  list_workflows = λ tenant s. (ok (list_workflows visit tenant s), s);
  create_record = λ tenant key r s. as_result (create_record clock tenant key r s);
  list_records = λ tenant state s. (ok (list_records visit_records tenant state s), s);
  get_record = λ tenant id s. (as_fault (get_record tenant id s), s);
  update_record = λ tenant id expected state new_data s.
      as_result (update_record clock tenant id expected state new_data s);
  list_audit_events = λ tenant s. (ok (list_audit_events tenant s), s);
}

as_result-state : {A : Type 0} (o : Outcome A) → (as_result o).1 ≡ o.1
as_result-state (ok a, s) = refl
as_result-state (err e, s) = refl

module _ (clock : Clock) (visit : Range WorkflowDefinition) (visit_records : Range Record) where
  abbrev store : Store MemoryStore
  store = memory_store clock visit visit_records

  -- The operations of a tenant that change the store are calls.
  store-Keeps :
      (P : MemoryStore → Type 0) (tenant : String) (s : MemoryStore)
      → P s
      → ((wf : WorkflowDefinition) → P (step (creates_workflow clock tenant wf) s))
      → ((key : String) (r : Record) → P (step (creates_record clock tenant key r) s))
      → ((id : String) (expected : Int64) (state : String) (new_data : Option Members)
          → P (step (updates_record clock tenant id expected state new_data) s))
      → Keeps store P tenant s
  unfolding step
  store-Keeps P tenant s p workflow new update = record {
    unchanged = p;
    create_workflow =
        λ wf. subst P (sym (as_result-state (create_workflow clock tenant wf s))) (workflow wf);
    list_workflows = p;
    create_record =
        λ key r. subst P (sym (as_result-state (create_record clock tenant key r s))) (new key r);
    list_records = λ _. p;
    get_record = λ _. p;
    update_record = λ id expected state new_data.
        subst P (sym (as_result-state (update_record clock tenant id expected state new_data s)))
          (update id expected state new_data);
    list_audit_events = p;
  }

  module _ (json : Json) (codec : Codec) (m : Manager) (now : Time) (r : Request)
      (s : MemoryStore) where
    -- A request whose token, if it has a valid one, is of another tenant leaves everything that a
    -- tenant can read as it was. The store's identifiers are fresh and its counter has room for a
    -- call.
    pub serve-SameView :
        (tenant : String)
        → HasRoom s
        → IsFresh s
        → ((token : String) (c : Claims)
            → bearer (r.header "Authorization") ≡ ok token
            → parse codec m now token ≡ ok c
            → c.tenant_id ≢ tenant)
        → SameView tenant s (serve store json codec (some m) now r s).1
    serve-SameView tenant room fresh foreign =
        serve-Keeps store json (SameView tenant s) codec m now r s (SameView-refl tenant s)
          λ endpoint c may.
            let other = foreign may.token c may.bears may.parses in
            store-Keeps (SameView tenant s) c.tenant_id s (SameView-refl tenant s)
              (λ wf.
                step-SameView tenant (creates_workflow clock c.tenant_id wf) s room fresh other)
              (λ key rec.
                step-SameView tenant (creates_record clock c.tenant_id key rec) s room fresh other)
              λ id expected state new_data.
                step-SameView tenant (updates_record clock c.tenant_id id expected state new_data) s
                  room fresh other

    -- A request to a server with a manager leaves a sound store with room in its counter sound.
    pub serve-IsSound : HasRoom s → IsSound s → IsSound (serve store json codec (some m) now r s).1
    serve-IsSound room sound =
        serve-Keeps store json IsSound codec m now r s sound λ endpoint c may.
          store-Keeps IsSound c.tenant_id s sound
            (λ wf. (step-IsSound (creates_workflow clock c.tenant_id wf) s room sound).0)
            (λ key rec. (step-IsSound (creates_record clock c.tenant_id key rec) s room sound).0)
            λ id expected state new_data.
              (step-IsSound (updates_record clock c.tenant_id id expected state new_data) s room
                sound).0
