-- ===== src/Mongo/Laws.antt =====
-- What the store relies on in the driver and the server, for calls with no other client's writes
-- between them: a read returns documents of the collection that match, a write has its documented
-- effect with times kept to the millisecond, a committed transaction has the effect of one run of its function, one that its function or
-- a duplicate key aborts has none, and identifiers and unique indexes are unique. Nothing is assumed
-- of the effect of a write that fails otherwise, such as by a timeout.
use enterprise_workflow_plat.Common.{
  length, ◌<◌, String, List, [], ◌∷◌, ◌++◌, Option, none, some, Bool, true, false, ◌&&◌, ◌==◌, ok,
  err, ◌≡◌, All,
}
use enterprise_workflow_plat.Domain.{
  Int64, WorkflowDefinition, Record, AuditEvent, OutboxEvent, Notification,
}
use enterprise_workflow_plat.Store.{StoreError}
use enterprise_workflow_plat.Mongo.Bson.{
  Bson, Filter, Update, Order, Change, matches, apply_update, workflow_field, record_field,
  audit_field, outbox_field, notification_field, idempotency_field, change_record, change_outbox,
  stored_workflow, stored_record, stored_key, stored_audit, stored_outbox, stored_notification,
  IdempotencyDoc,
}
use enterprise_workflow_plat.Mongo.Driver.{
  Collection, Driver, MongoError, no_documents, duplicate_key, refused, driver_error,
}

-- The documents in the database.
pub record Database : Type 0 where
  pub workflows : List WorkflowDefinition
  pub records : List Record
  pub idempotency : List IdempotencyDoc
  pub audit : List AuditEvent
  pub outbox : List OutboxEvent
  pub notifications : List Notification

-- A document among others.
pub record In {A : Type 0} (d : A) (ds : List A) : Type 0 where
  pub before : List A
  pub after : List A
  pub split : ds ≡ before ++ d ∷ after

abbrev pub Lacks : {A : Type 0} → (A → Bool) → List A → Type 0
Lacks p ds = All (λ d. p d ≡ false) ds

-- The documents after an update of those that fit.
abbrev pub changed : {A : Type 0} → (A → Bool) → (A → A) → List A → List A
changed p change [] = []
changed p change (d ∷ ds) = elim (p d) [ true ↦ change d | false ↦ d ] ∷ changed p change ds

-- A collection of the database `contents w`: where it is there, how filters read it, which documents
-- exclude one another, and what is kept of a document that is inserted.
pub record Schema (A : Type 0) : Type 0 where
  pub get : Database → List A
  pub put : List A → Database → Database
  pub field : String → A → Option Bson
  pub excludes : A → A → Bool
  pub change : String → Change → A → A
  pub kept : A → A

module _ {W A : Type 0} (contents : W → Database) (schema : Schema A) (c : Collection W A) where
  pub record IsCollection : Type 0 where
    pub find_one_keeps : (f : Filter) (w : W) → contents (c.find_one f w).1 ≡ contents w
    pub find_one_found :
        (f : Filter) (w : W) (d : A)
        → (c.find_one f w).0 ≡ ok d
        → In d (schema.get (contents w)) × (matches schema.field f d ≡ true)
    pub find_one_missing :
        (f : Filter) (w : W)
        → (c.find_one f w).0 ≡ err no_documents
        → Lacks (matches schema.field f) (schema.get (contents w))
    -- What is found matches, and is all of it if it is less than the limit.
    pub find_done :
        (f : Filter) (order : Option (String × Order)) (limit : Int64) (w : W) (ds : List A)
        → (c.find f order limit w).0 ≡ ok ds
        → (contents (c.find f order limit w).1 ≡ contents w)
          × All (λ d. In d (schema.get (contents w)) × (matches schema.field f d ≡ true)) ds
    pub find_all :
        (f : Filter) (order : Option (String × Order)) (limit : Int64) (w : W) (ds : List A)
        → (c.find f order limit w).0 ≡ ok ds
        → length ds < limit
        → (d : A) → In d (schema.get (contents w))
        → matches schema.field f d ≡ true
        → In d ds
    pub update_many_done :
        (f : Filter) (u : Update) (w : W)
        → (c.update_many f u w).0 ≡ none
        → contents (c.update_many f u w).1
          ≡ schema.put
              (changed
                (matches schema.field f)
                (apply_update schema.change u)
                (schema.get (contents w)))
              (contents w)
    pub insert_done :
        (d : A) (w : W)
        → (c.insert_one d w).0 ≡ none
        → (contents (c.insert_one d w).1
            ≡ schema.put (schema.get (contents w) ++ schema.kept d ∷ []) (contents w))
          × Lacks (λ x. schema.excludes x d) (schema.get (contents w))
    pub insert_duplicate :
        (d : A) (w : W) (message : String)
        → (c.insert_one d w).0 ≡ some (duplicate_key message)
        → (contents (c.insert_one d w).1 ≡ contents w)
          × (¬ Lacks (λ x. schema.excludes x d) (schema.get (contents w)))
    pub find_one_and_update_done :
        (f : Filter) (u : Update) (w : W) (d : A)
        → (c.find_one_and_update f u w).0 ≡ ok d
        → (old : A) × (there : In old (schema.get (contents w))) × (matches schema.field f old
            ≡ true)
          × (d ≡ apply_update schema.change u old)
          × (contents (c.find_one_and_update f u w).1
              ≡ schema.put (there.before ++ d ∷ there.after) (contents w))
    pub find_one_and_update_missing :
        (f : Filter) (u : Update) (w : W)
        → (c.find_one_and_update f u w).0 ≡ err no_documents
        → Lacks (matches schema.field f) (schema.get (contents w))

-- The collections of `NewMongoStore`; `ensureIndexes` makes tenant and key of `idempotency_keys`
-- unique, and `_id` is unique everywhere.
abbrev pub workflows_schema : Schema WorkflowDefinition
workflows_schema = record {
  get = λ db. db.workflows;
  put = λ ds db. record db { workflows = ds };
  field = workflow_field;
  excludes = λ x d. x.id == d.id;
  change = λ _ _ d. d;
  kept = stored_workflow;
}

abbrev pub records_schema : Schema Record
records_schema = record {
  get = λ db. db.records;
  put = λ ds db. record db { records = ds };
  field = record_field;
  excludes = λ x d. x.id == d.id;
  change = change_record;
  kept = stored_record;
}

abbrev pub idempotency_schema : Schema IdempotencyDoc
idempotency_schema = record {
  get = λ db. db.idempotency;
  put = λ ds db. record db { idempotency = ds };
  field = idempotency_field;
  excludes = λ x d. x.tenant_id == d.tenant_id && x.key == d.key;
  change = λ _ _ d. d;
  kept = stored_key;
}

abbrev pub audit_schema : Schema AuditEvent
audit_schema = record {
  get = λ db. db.audit;
  put = λ ds db. record db { audit = ds };
  field = audit_field;
  excludes = λ x d. x.id == d.id;
  change = λ _ _ d. d;
  kept = stored_audit;
}

abbrev pub outbox_schema : Schema OutboxEvent
outbox_schema = record {
  get = λ db. db.outbox;
  put = λ ds db. record db { outbox = ds };
  field = outbox_field;
  excludes = λ x d. x.id == d.id;
  change = change_outbox;
  kept = stored_outbox;
}

abbrev pub notifications_schema : Schema Notification
notifications_schema = record {
  get = λ db. db.notifications;
  put = λ ds db. record db { notifications = ds };
  field = notification_field;
  excludes = λ x d. x.id == d.id;
  change = λ _ _ d. d;
  kept = stored_notification;
}

-- The function of a transaction, and the result of a call of `WithTransaction`.
abbrev pub Body : Type 0 → Type 0
Body W = Record × W → Option MongoError × (Record × W)

module _ {W : Type 0} (driver : Driver W) (contents : W → Database) where
  -- The run of the function whose effect a transaction has; the function may have been run before.
  pub record Run (body : Body W) (w : W) : Type 0 where
    pub variable : Record
    pub start : W
    pub from : contents start ≡ contents w

  pub record Lawful : Type 0 where
    pub workflows : IsCollection contents workflows_schema driver.workflows
    pub records : IsCollection contents records_schema driver.records
    pub idempotency : IsCollection contents idempotency_schema driver.idempotency
    pub audit : IsCollection contents audit_schema driver.audit
    pub outbox : IsCollection contents outbox_schema driver.outbox
    pub notifications : IsCollection contents notifications_schema driver.notifications
    pub ids_keep : (w : W) → contents (driver.new_object_id w).1 ≡ contents w
    pub session_keeps : (w : W) → contents (driver.start_session w).1 ≡ contents w
    pub committed :
        (body : Body W) (r : Record) (w : W)
        → (driver.with_transaction body (r, w)).0 ≡ none
        → (run : Run body w) × ((body (run.variable, run.start)).0 ≡ none)
          × ((driver.with_transaction body (r, w)).1.0 ≡ (body (run.variable, run.start)).1.0)
          × (contents (driver.with_transaction body (r, w)).1.1
              ≡ contents (body (run.variable, run.start)).1.1)
    -- An error of the store comes from the function, and it or a duplicate key aborts.
    pub aborted :
        (body : Body W) (r : Record) (w : W) (e : StoreError)
        → (driver.with_transaction body (r, w)).0 ≡ some (refused e)
        → (run : Run body w) × ((body (run.variable, run.start)).0 ≡ some (refused e))
          × (contents (driver.with_transaction body (r, w)).1.1 ≡ contents w)
    pub aborted_duplicate :
        (body : Body W) (r : Record) (w : W) (message : String)
        → (driver.with_transaction body (r, w)).0 ≡ some (driver_error (duplicate_key message))
        → contents (driver.with_transaction body (r, w)).1.1 ≡ contents w
