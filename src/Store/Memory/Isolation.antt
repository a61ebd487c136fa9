-- ===== src/Store/Memory/Isolation.antt =====
-- Tenants apart: what one tenant can read of a store, and that no other tenant's calls touch it.
use enterprise_workflow_plat.Common.{
  String, [], ◌∷◌, ◌++◌, some, ◌≡◌, ◌≢◌, ◌↔◌, refl, sym, ◌∙◌, ap, arith, ok, inl, inr, ◌==◌, eq_iff,
  Text-cases, Option-cases, keep, keep-append, append-nil,
}
use enterprise_workflow_plat.Common.Map.{lookup, insert, lookup-insert_self, lookup-insert_ne}
use enterprise_workflow_plat.Domain.{Record, WorkflowDefinition, AuditEvent}
use enterprise_workflow_plat.Store.Memory.{
  MemoryStore, Clock, get_record, next_id, append_events, append_audit, append_outbox,
}
use enterprise_workflow_plat.Store.Memory.Queries.{list_audit_events}

-- `get_record` succeeds exactly for the tenant's own records, and returns the stored one.
pub get_record_iff :
    (tenant id : String) (r : Record) (s : MemoryStore)
    → (get_record tenant id s ≡ ok r) ↔ ((lookup id s.records ≡ some r) × (r.tenant_id ≡ tenant))
unfolding get_record
get_record_iff tenant id r s = elim (Option-cases (lookup id s.records)) [
  | inl missing ↦ (λ e. ground arith, λ h. cc (sym missing ∙ h.0))
  | inr (x, found) ↦ (
    λ e. ground (arith, eq_iff x.tenant_id tenant),
    λ h. ground (arith, eq_iff x.tenant_id tenant),
  )
]

-- What a tenant can read: its records, its workflows and its part of the audit log.
pub record SameView (tenant : String) (s t : MemoryStore) : Type 0 where
  pub records : (id : String) → get_record tenant id t ≡ get_record tenant id s
  pub workflows :
      (id : String) (wf : WorkflowDefinition)
      → wf.tenant_id ≡ tenant
      → (lookup id t.workflows ≡ some wf) ↔ (lookup id s.workflows ≡ some wf)
  pub audit : list_audit_events tenant t ≡ list_audit_events tenant s

pub SameView-refl : (tenant : String) (s : MemoryStore) → SameView tenant s s
SameView-refl tenant s = record {
  records = λ _. refl;
  workflows = λ _ _ _. (λ e. e, λ e. e);
  audit = refl;
}

-- A write of another tenant's record, where there was none or another tenant's.
pub get_record-write :
    (tenant k : String) (r : Record) (s t : MemoryStore)
    → t.records ≡ insert k r s.records
    → r.tenant_id ≢ tenant
    → ((old : Record) → lookup k s.records ≡ some old → old.tenant_id ≢ tenant)
    → (id : String) → get_record tenant id t ≡ get_record tenant id s
unfolding get_record
get_record-write tenant k r s t records foreign was id = elim (Text-cases k id) [
  | inl same ↦
      let now : lookup id t.records ≡ some r =
        ap (lookup id) records
        ∙ ap (λ j. lookup j (insert k r s.records)) (sym same)
        ∙ lookup-insert_self k r s.records in
      elim (Option-cases (lookup id s.records)) [
        | inl missing ↦ ground (arith, eq_iff r.tenant_id tenant)
        | inr (old, found) ↦ ground (
          arith,
          eq_iff r.tenant_id tenant,
          eq_iff old.tenant_id tenant,
          was old (ap (λ j. lookup j s.records) same ∙ found),
        )
      ]
  | inr (other, _) ↦
      let now : lookup id t.records ≡ lookup id s.records =
        ap (lookup id) records ∙ lookup-insert_ne k id r s.records other in
      rw (now, get_record)
]

pub list_audit_events-append :
    (tenant : String) (e : AuditEvent) (s t : MemoryStore)
    → t.audit ≡ s.audit ++ e ∷ []
    → e.tenant_id ≢ tenant
    → list_audit_events tenant t ≡ list_audit_events tenant s
unfolding list_audit_events
list_audit_events-append tenant e s t audit foreign =
    ap (keep (λ x. x.tenant_id == tenant)) audit
    ∙ keep-append (λ x. x.tenant_id == tenant) s.audit (e ∷ [])
    ∙ ground
        (arith, eq_iff e.tenant_id tenant, append-nil (keep (λ x. x.tenant_id == tenant) s.audit))

pub audit-append_events :
    (clock : Clock) (r : Record) (typ : String) (s : MemoryStore)
    → (e : AuditEvent) × ((append_events clock r typ s).audit ≡ s.audit ++ e ∷ [])
      × (e.tenant_id ≡ r.tenant_id)
unfolding append_events append_audit append_outbox next_id
audit-append_events clock r typ s = (_, refl, refl)
