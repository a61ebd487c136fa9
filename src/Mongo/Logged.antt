-- ===== src/Mongo/Logged.antt =====
-- The events that a write of `MongoStore` leaves, and what an insertion has done.
use enterprise_workflow_plat.Common.{String, [], ◌∷◌, ◌++◌, none, ok, ◌≡◌, refl, sym, ◌∙◌, ap}
use enterprise_workflow_plat.Domain.{Time, Record, AuditEvent, OutboxEvent}
use enterprise_workflow_plat.Mongo.Bson.{millis, stored_audit, stored_outbox}
use enterprise_workflow_plat.Mongo.Driver.{Driver, Collection}
use enterprise_workflow_plat.Mongo.Action.{as_action, bind-ok, failure-ok}
use enterprise_workflow_plat.Mongo.Records.{audit_event, outbox_event, write_audit_and_outbox}
use enterprise_workflow_plat.Mongo.Laws.{Database, Lacks, Schema, IsCollection, Lawful}

abbrev add_audit : AuditEvent → Database → Database
add_audit a db = record db { audit = db.audit ++ a ∷ [] }

abbrev add_outbox : OutboxEvent → Database → Database
add_outbox o db = record db { outbox = db.outbox ++ o ∷ [] }

-- What the two events of a write say of its record.
pub record IsEventPair (event_type : String) (r : Record) (audited : AuditEvent)
    (queued : OutboxEvent) : Type 0 where
  pub audited_tenant : audited.tenant_id ≡ r.tenant_id
  pub audited_record : audited.record_id ≡ r.id
  pub audited_type : audited.event_type ≡ event_type
  pub queued_tenant : queued.tenant_id ≡ r.tenant_id
  pub queued_record : queued.aggregate_id ≡ r.id
  pub queued_key : queued.key ≡ r.id
  pub queued_type : queued.event_type ≡ event_type
  pub unpublished : queued.published_at ≡ none

-- The two events of a write.
pub record IsLogged (r : Record) (typ : String) (before after : Database) : Type 0 where
  pub time : Time
  pub audit_id : String
  pub outbox_id : String
  pub writes : after ≡ record before {
    audit = before.audit ++ audit_event time audit_id r typ ∷ [];
    outbox = before.outbox ++ outbox_event time outbox_id r typ ∷ [];
  }
  pub announced :
      IsEventPair typ r (audit_event time audit_id r typ) (outbox_event time outbox_id r typ)

module _ {W : Type 0} (driver : Driver W) (contents : W → Database)
    (law : Lawful driver contents) where
  -- An insertion that succeeded.
  pub insert-ok :
      {A : Type 0} (schema : Schema A) (c : Collection W A)
      → IsCollection contents schema c
      → (d : A) (w : W) → (as_action (c.insert_one d) w).0 ≡ ok tt
      → (contents (as_action (c.insert_one d) w).1
          ≡ schema.put (schema.get (contents w) ++ schema.kept d ∷ []) (contents w))
        × Lacks (λ x. schema.excludes x d) (schema.get (contents w))
  insert-ok schema c is d w e = is.insert_done d w (failure-ok (c.insert_one d w).0 e)

  pub write_audit_and_outbox-ok :
      (r : Record) (typ : String) (w : W)
      → (write_audit_and_outbox driver r typ w).0 ≡ ok tt
      → IsLogged r typ (contents w) (contents (write_audit_and_outbox driver r typ w).1)
  unfolding write_audit_and_outbox audit_event outbox_event
  write_audit_and_outbox-ok r typ w e =
      let now = driver.now w in
      let (audit_id, w₁) = driver.new_object_id w in
      let (outbox_id, w₂) = driver.new_object_id w₁ in
      let a = audit_event now audit_id r typ in
      let o = outbox_event now outbox_id r typ in
      let m = as_action (driver.audit.insert_one a) in
      let n = as_action (driver.outbox.insert_one o) in
      let (_, went, rest) = bind-ok m (λ _. n) w₂ tt e in
      let (first, _) = insert-ok _ driver.audit law.audit a w₂ went in
      let (second, _) =
        insert-ok _ driver.outbox law.outbox o (m w₂).1 (ap (λ x. x.0) (sym rest) ∙ e) in
      let same : contents w₂ ≡ contents w = law.ids_keep w₁ ∙ law.ids_keep w in
      record {
        time = millis now;
        audit_id = audit_id;
        outbox_id = outbox_id;
        writes =
            ap (λ x. contents x.1) rest
            ∙ second
            ∙ ap (add_outbox (stored_outbox o)) first
            ∙ ap (λ db. add_outbox (stored_outbox o) (add_audit (stored_audit a) db)) same;
        announced = record {
          audited_tenant = refl;
          audited_record = refl;
          audited_type = refl;
          queued_tenant = refl;
          queued_record = refl;
          queued_key = refl;
          queued_type = refl;
          unpublished = refl;
        };
      }
