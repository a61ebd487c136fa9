-- ===== src/Store/Memory/Revised.antt =====
-- What `UpdateRecord` makes of a record, and what the events of a write say of it.
use enterprise_workflow_plat.Common.{
  String, [], ◌∷◌, ◌++◌, Option, none, ◌≡◌, refl, ap, arith, eq_iff,
}
use enterprise_workflow_plat.Domain.{Time, Record, AuditEvent, OutboxEvent}
use enterprise_workflow_plat.Domain.Value.{Members}
use enterprise_workflow_plat.Store.Spec.{IsRevised}
use enterprise_workflow_plat.Store.Memory.{
  MemoryStore, Clock, updated_record, replace_data, append_events, append_audit, append_outbox,
  next_id, write_update,
}

pub updated_record-IsRevised :
    (now : Time) (state : String) (new_data : Option Members) (old : Record)
    → IsRevised state new_data old (updated_record now state new_data old)
unfolding updated_record
updated_record-IsRevised now state new_data old = record {
  same_id = refl;
  same_tenant = refl;
  same_workflow = refl;
  same_key = refl;
  same_creation = refl;
  next_version = refl;
  same_state = λ e. rw ((eq_iff state "").1 e) refl;
  new_state = λ e. ground (arith, eq_iff state "");
  same_data = λ e. ap (λ d. replace_data d old.record_data) e;
  given_data = λ m e. ap (λ d. replace_data d old.record_data) e;
}

pub updated_record-updated_at :
    (now : Time) (state : String) (new_data : Option Members) (old : Record)
    → (updated_record now state new_data old).updated_at ≡ now
unfolding updated_record
updated_record-updated_at now state new_data old = refl

-- One audit event and one outbox event, not yet published, were appended for a record.
pub record IsAnnounced (event_type : String) (r : Record) (s t : MemoryStore) : Type 0 where
  pub audited : AuditEvent
  pub audits : t.audit ≡ s.audit ++ audited ∷ []
  pub audited_tenant : audited.tenant_id ≡ r.tenant_id
  pub audited_record : audited.record_id ≡ r.id
  pub audited_type : audited.event_type ≡ event_type
  pub queued : OutboxEvent
  pub queues : t.outbox ≡ s.outbox ++ queued ∷ []
  pub queued_tenant : queued.tenant_id ≡ r.tenant_id
  pub queued_record : queued.aggregate_id ≡ r.id
  pub queued_key : queued.key ≡ r.id
  pub queued_type : queued.event_type ≡ event_type
  pub unpublished : queued.published_at ≡ none

pub write_update-IsAnnounced :
    (clock : Clock) (id : String) (r : Record) (s : MemoryStore)
    → IsAnnounced "record.updated" r s (write_update clock id r s).1
unfolding write_update append_events append_audit append_outbox next_id
write_update-IsAnnounced clock id r s = record {
  audited = _;
  audits = refl;
  audited_tenant = refl;
  audited_record = refl;
  audited_type = refl;
  queued = _;
  queues = refl;
  queued_tenant = refl;
  queued_record = refl;
  queued_key = refl;
  queued_type = refl;
  unpublished = refl;
}
