-- ===== src/Store/Memory/Cases.antt =====
-- How each writing method of `MemoryStore` can end: the rules by which the invariants are proved.
use enterprise_workflow_plat.Common.{
  String, refl, List, ◌∷◌, [], Option, none, some, Bool, true, false, not, ◌||◌, ◌⊎◌, ◌==◌, ◌≡◌,
  ◌≢◌, inl, inr, ok, err, nat_beq, arith, if_cases, eq_refl, Option-cases, Text-cases, eq_iff,
  contains, get_or,
}
use enterprise_workflow_plat.Common.Map.{lookup, insert}
use enterprise_workflow_plat.Domain.{WorkflowDefinition, Record, Int64, zero_workflow}
use enterprise_workflow_plat.Domain.Value.{Members}
use enterprise_workflow_plat.Store.{not_found, conflict, invalid_workflow, index_out_of_range}
use enterprise_workflow_plat.Store.Memory.{
  MemoryStore, Clock, Outcome, next_id, is_empty_list, create_workflow, create_record, find_replay,
  insert_record, new_record, write_new, update_record, updated_record, write_update,
}

-- What `create_workflow` writes for a valid request.
abbrev pub stored_workflow : Clock → String → WorkflowDefinition → MemoryStore → WorkflowDefinition
stored_workflow clock tenant wf s = record wf {
  id = (next_id "wf" s).0;
  tenant_id = tenant;
  version = 1;
  created_at = clock 0;
  updated_at = clock 0;
}

pub create_workflow_cases {ℓ} :
    (P : Outcome WorkflowDefinition → Type ℓ) (clock : Clock) (tenant : String)
    (wf : WorkflowDefinition) (s : MemoryStore)
    → P (err invalid_workflow, s)
    → (tenant ≢ ""
        → wf.states ≢ []
        → wf.name ≢ ""
        → let stored = stored_workflow clock tenant wf s in
          let s' = (next_id "wf" s).1 in
          P (ok stored, record s' { workflows = insert stored.id stored s'.workflows }))
    → P (create_workflow clock tenant wf s)
unfolding create_workflow is_empty_list
create_workflow_cases P clock tenant wf s refused stored =
    if_cases P (tenant == "" || (is_empty_list wf.states || wf.name == "")) (λ _. refused)
      λ e.
        stored (ground (arith, eq_iff tenant "")) (ground arith) (ground (arith, eq_iff wf.name ""))

pub create_record_cases {ℓ} :
    (P : Outcome (Record × Bool) → Type ℓ) (clock : Clock) (tenant key : String) (r : Record)
    (s : MemoryStore)
    → P (err invalid_workflow, s)
    → ((existing : Record) → find_replay tenant key s ≡ some existing → P (ok (existing, true), s))
    → ((wf : WorkflowDefinition)
        → lookup r.workflow_id s.workflows ≡ some wf
        → wf.tenant_id ≡ tenant
        → find_replay tenant key s ≡ none
        → P (insert_record clock tenant key wf r s))
    → P (create_record clock tenant key r s)
unfolding create_record
create_record_cases P clock tenant key r s refused replayed inserted =
    elim (Option-cases (lookup r.workflow_id s.workflows)) [
      | inl missing ↦ rw (missing, create_record) refused
      | inr (wf, found) ↦ elim (Text-cases wf.tenant_id tenant) [
        | inr (_, other) ↦ rw (found, create_record, other) refused
        | inl own ↦ elim (Option-cases (find_replay tenant key s)) [
          | inl new ↦
              rw (found, create_record, own, eq_refl tenant, new) (inserted wf found own new)
          | inr (existing, again) ↦
              rw (found, create_record, own, eq_refl tenant, again) (replayed existing again)
        ]
      ]
    ]

pub update_record_cases {ℓ} :
    (P : Outcome Record → Type ℓ) (clock : Clock) (tenant id : String) (expected : Int64)
    (state : String) (new_data : Option Members) (s : MemoryStore)
    → ((r : Record) → lookup id s.records ≡ some r → r.tenant_id ≢ tenant → P (err not_found, s))
    → (lookup id s.records ≡ none → P (err not_found, s))
    → ((r : Record)
        → lookup id s.records ≡ some r
        → r.tenant_id ≡ tenant
        → r.version ≢ expected
        → P (err conflict, s))
    → ((r : Record)
        → lookup id s.records ≡ some r
        → r.tenant_id ≡ tenant
        → r.version ≡ expected
        → state ≢ ""
        → contains (get_or (lookup r.workflow_id s.workflows) zero_workflow).states state ≡ false
        → P (err invalid_workflow, s))
    → ((r : Record)
        → lookup id s.records ≡ some r
        → r.tenant_id ≡ tenant
        → r.version ≡ expected
        → (state ≡ "")
          ⊎ (contains (get_or (lookup r.workflow_id s.workflows) zero_workflow).states state ≡ true)
        → P (write_update clock id (updated_record (clock 0) state new_data r) s))
    → P (update_record clock tenant id expected state new_data s)
unfolding update_record
update_record_cases P clock tenant id expected state new_data s foreign absent stale bad written =
    elim (Option-cases (lookup id s.records)) [
      | inl missing ↦ rw (missing, update_record) (absent missing)
      | inr (r, found) ↦
          rw (found, update_record)
            (if_cases P (not (r.tenant_id == tenant))
              (λ e. foreign r found (ground (arith, eq_iff r.tenant_id tenant)))
              λ own.
                if_cases P (not (nat_beq r.version expected))
                  (λ e. stale r found (ground (arith, eq_iff r.tenant_id tenant)) (ground arith))
                  λ same.
                    if_cases P _
                      (λ e.
                        bad r found (ground (arith, eq_iff r.tenant_id tenant)) (ground arith)
                          (ground (arith, eq_iff state "")) (ground arith))
                      (λ e.
                        written r found (ground (arith, eq_iff r.tenant_id tenant)) (ground arith)
                          (ground (arith, eq_iff state ""))))
    ]

pub insert_record_cases {ℓ} :
    (P : Outcome (Record × Bool) → Type ℓ) (clock : Clock) (tenant key : String)
    (wf : WorkflowDefinition) (r : Record) (s : MemoryStore) (states : List String)
    → wf.states ≡ states
    → (states ≡ [] → P (err index_out_of_range, (next_id "rec" s).1))
    → ((first : String) (rest : List String)
        → states ≡ first ∷ rest
        → P (
            write_new clock tenant key
              (new_record (clock 0) (next_id "rec" s).0 tenant key first r)
              (next_id "rec" s).1))
    → P (insert_record clock tenant key wf r s)
unfolding insert_record
insert_record_cases P clock tenant key wf r s [] e panics written =
    rw (e, insert_record) (panics refl)
insert_record_cases P clock tenant key wf r s (first ∷ rest) e panics written =
    rw (e, insert_record) (written first rest refl)
