-- ===== src/Mongo/Driver.antt =====
-- The MongoDB driver as the store sees it: a parameter. `W` is the state of the world.
use enterprise_workflow_plat.Common.{String, List, Option, Result}
use enterprise_workflow_plat.Domain.{
  Time, Int64, WorkflowDefinition, Record, AuditEvent, OutboxEvent, Notification,
}
use enterprise_workflow_plat.Store.{StoreError}
use enterprise_workflow_plat.Mongo.Bson.{Filter, Update, Order, IdempotencyDoc}

-- `mongo.ErrNoDocuments`, an error for which `mongo.IsDuplicateKeyError` holds, and any other, the
-- last two with their texts.
pub data DriverError : Type 0 where
  no_documents : DriverError
  duplicate_key failed : String → DriverError

-- An error of a method of the store: one of its own, or one that it passes on.
pub data MongoError : Type 0 where
  refused : StoreError → MongoError
  driver_error : DriverError → MongoError

-- The methods of a collection that the store calls. `find` is `Find` with `All` on its cursor; a
-- limit of 0 is none.
pub record Collection (W A : Type 0) : Type 0 where
  pub find_one : Filter → W → Result DriverError A × W
  pub find : Filter → Option (String × Order) → Int64 → W → Result DriverError (List A) × W
  pub insert_one : A → W → Option DriverError × W
  pub find_one_and_update : Filter → Update → W → Result DriverError A × W
  pub update_one : Filter → Update → W → Option DriverError × W
  pub update_many : Filter → Update → W → Option DriverError × W
  pub count_documents : Filter → W → Result DriverError Int64 × W

-- A transaction's function also writes a variable of its caller, here a record.
pub record Driver (W : Type 0) : Type 0 where
  pub workflows : Collection W WorkflowDefinition
  pub records : Collection W Record
  pub idempotency : Collection W IdempotencyDoc
  pub audit : Collection W AuditEvent
  pub outbox : Collection W OutboxEvent
  pub notifications : Collection W Notification
  pub new_object_id : W → String × W
  pub now : W → Time
  pub start_session : W → Option DriverError × W
  pub with_transaction :
      (Record × W → Option MongoError × (Record × W))
      → Record × W
      → Option MongoError × (Record × W)
