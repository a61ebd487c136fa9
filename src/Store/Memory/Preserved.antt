-- ===== src/Store/Memory/Preserved.antt =====
-- Every call keeps a store valid.
use enterprise_workflow_plat.Common.{
  String, List, [], ◌∷◌, Option, some, true, ◌≡◌, ◌≢◌, ◌⊎◌, refl, sym, ◌∙◌, arith, contains, get_or,
  eq_refl, eq_iff,
}
use enterprise_workflow_plat.Common.Map.{lookup, insert, lookup-insert_cases, lookup-insert_self}
use enterprise_workflow_plat.Domain.{WorkflowDefinition, Record, zero_workflow}
use enterprise_workflow_plat.Domain.Value.{Members}
use enterprise_workflow_plat.Store.Memory.{
  MemoryStore, Clock, next_id, append_events, write_new, write_update, new_record, updated_record,
}
use enterprise_workflow_plat.Store.Memory.Cases.{stored_workflow}
use enterprise_workflow_plat.Store.Memory.Change.{
  Change, unchanged, counted, defined, created, updated, published, failed, first_version,
}
use enterprise_workflow_plat.Store.Memory.Fresh.{IsFresh, HasRoom}
use enterprise_workflow_plat.Store.Memory.Validity.{
  IsValid, IsWorkflow, IsRecord, IsValid-maps, next_id-unused, IsRecord-insert_workflow,
  IsReplay-insert, IsReplay-remember, maps-append_events,
}

next_id-IsValid : (prefix : String) (s : MemoryStore) → IsValid s → IsValid (next_id prefix s).1
unfolding next_id
next_id-IsValid prefix s v = IsValid-maps s (next_id prefix s).1 refl refl refl v

append_events-IsValid :
    (clock : Clock) (r : Record) (typ : String) (s : MemoryStore)
    → IsValid s
    → IsValid (append_events clock r typ s)
append_events-IsValid clock r typ s v =
    let (w, rs, i) = maps-append_events s clock r typ in IsValid-maps s _ w rs i v

defined-IsValid :
    (clock : Clock) (tenant : String) (wf : WorkflowDefinition) (s : MemoryStore)
    → tenant ≢ ""
    → wf.states ≢ []
    → wf.name ≢ ""
    → HasRoom s
    → IsFresh s
    → IsValid s
    → IsValid (record (next_id "wf" s).1 {
      workflows =
          insert
            (next_id "wf" s).0
            (stored_workflow clock tenant wf s)
            (next_id "wf" s).1.workflows;
    })
unfolding next_id
defined-IsValid clock tenant wf s has_tenant has_states has_name h f v = record {
  workflows_ok =
      lookup-insert_cases IsWorkflow (next_id "wf" s).0 (stored_workflow clock tenant wf s)
        s.workflows
        (record {
          own_id = refl;
          has_tenant = has_tenant;
          has_name = has_name;
          has_states = has_states;
        })
        (λ k w _. v.workflows_ok k w);
  records_ok = λ id r e.
      IsRecord-insert_workflow s.workflows _ _ (next_id-unused s h f).0 id r (v.records_ok id r e);
  replays_ok = v.replays_ok;
}

created-IsValid :
    (clock : Clock) (tenant key : String) (wf : WorkflowDefinition) (r : Record) (first : String)
    (rest : List String) (s : MemoryStore)
    → lookup r.workflow_id s.workflows ≡ some wf
    → wf.tenant_id ≡ tenant
    → wf.states ≡ first ∷ rest
    → HasRoom s
    → IsFresh s
    → IsValid s
    → IsValid
        (write_new clock tenant key
          (first_version clock tenant key first r s)
          (next_id "rec" s).1).1
unfolding write_new next_id new_record contains
created-IsValid clock tenant key wf r first rest s found own states h f v =
    let id = (next_id "rec" s).0 in
    let new = first_version clock tenant key first r s in
    let unused = (next_id-unused s h f).1 in
    append_events-IsValid clock new "record.created" _ (record {
      workflows_ok = v.workflows_ok;
      records_ok =
          lookup-insert_cases (IsRecord s.workflows) id new s.records
            (record {
              own_id = refl;
              workflow = wf;
              belongs = found;
              same_tenant = own;
              known_state = rw states (rw (eq_refl first));
            })
            (λ k w _. v.records_ok k w);
      replays_ok =
          IsReplay-remember tenant key id new _ s.idempotency (lookup-insert_self id new s.records)
            refl refl
            λ k i e.
              IsReplay-insert s.records id new (λ old e'. cc (sym unused ∙ e')) k i
                (v.replays_ok k i e);
    })

updated-IsValid :
    (clock : Clock) (id state : String) (new_data : Option Members) (r : Record) (s : MemoryStore)
    → lookup id s.records ≡ some r
    → (state ≡ "")
      ⊎ (contains (get_or (lookup r.workflow_id s.workflows) zero_workflow).states state ≡ true)
    → IsValid s
    → IsValid (write_update clock id (updated_record (clock 0) state new_data r) s).1
unfolding write_update updated_record
updated-IsValid clock id state new_data r s found allowed v =
    let ok = v.records_ok id r found in
    let new = updated_record (clock 0) state new_data r in
    append_events-IsValid clock new "record.updated" _ (record {
      workflows_ok = v.workflows_ok;
      records_ok =
          lookup-insert_cases (IsRecord s.workflows) id new s.records
            (record {
              own_id = ok.own_id;
              workflow = ok.workflow;
              belongs = ok.belongs;
              same_tenant = ok.same_tenant;
              known_state = ground (arith, eq_iff state "", ok.belongs, ok.known_state);
            })
            (λ k w _. v.records_ok k w);
      replays_ok = λ k i e.
          IsReplay-insert s.records id new
            (λ old e'. let same : some r ≡ some old = sym found ∙ e' in (cc same, cc same)) k i
            (v.replays_ok k i e);
    })

-- Every call keeps a valid store valid.
pub Change-IsValid :
    {s t : MemoryStore} → Change s t → HasRoom s → IsFresh s → IsValid s → IsValid t
Change-IsValid {s} unchanged h f v = v
Change-IsValid {s} counted h f v = next_id-IsValid "rec" s v
Change-IsValid {s} (defined clock tenant wf a b c) h f v =
    defined-IsValid clock tenant wf s a b c h f v
Change-IsValid {s} (created clock tenant key wf r first rest found own states _) h f v =
    created-IsValid clock tenant key wf r first rest s found own states h f v
Change-IsValid {s} (updated clock id state new_data r found allowed) h f v =
    updated-IsValid clock id state new_data r s found allowed v
Change-IsValid {s} (published now id events e) h f v = IsValid-maps s _ refl refl refl v
Change-IsValid {s} (failed id reason events e) h f v = IsValid-maps s _ refl refl refl v
