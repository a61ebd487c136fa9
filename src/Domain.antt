-- ===== src/Domain.antt =====
-- services/api/internal/domain: the documents that the services store and exchange.
-- A `time.Time` is a number of nanoseconds, an `int64` its bit pattern (Common/Int64), and a value
-- of type `any` a JSON value. A nil map is `none`.
-- The fields `data` and `type` keep those words with an addition, since `data` is reserved.
pub mod Value
use Value.{Members}
use enterprise_workflow_plat.Common.{ℕ, String, Bool, List, [], Option, none}

abbrev pub Time : Type 0
Time = ℕ

abbrev pub Int64 : Type 0
Int64 = ℕ

-- The value of a `time.Time` that is not set.
abbrev pub zero_time : Time
zero_time = 0

-- `FieldText`, `FieldNumber` and `FieldBool`; any other text is a value of the type too.
abbrev pub FieldType : Type 0
FieldType = String

abbrev pub field_text : FieldType
field_text = "text"

abbrev pub field_number : FieldType
field_number = "number"

abbrev pub field_bool : FieldType
field_bool = "boolean"

pub record FieldDefinition : Type 0 where
  pub key : String
  pub label : String
  pub field_type : FieldType
  pub required : Bool

pub record WorkflowDefinition : Type 0 where
  pub id : String
  pub tenant_id : String
  pub name : String
  pub fields : List FieldDefinition
  pub states : List String
  pub version : Int64
  pub created_at : Time
  pub updated_at : Time

pub record Record : Type 0 where
  pub id : String
  pub tenant_id : String
  pub workflow_id : String
  pub state : String
  pub record_data : Option Members
  pub version : Int64
  pub idempotency : String
  pub created_at : Time
  pub updated_at : Time

pub record AuditEvent : Type 0 where
  pub id : String
  pub tenant_id : String
  pub record_id : String
  pub event_type : String
  pub occurred_at : Time
  pub payload : Option Members

pub record OutboxEvent : Type 0 where
  pub id : String
  pub tenant_id : String
  pub aggregate_id : String
  pub topic : String
  pub key : String
  pub event_type : String
  pub payload : Option Members
  pub created_at : Time
  pub published_at : Option Time
  pub attempts : Int64
  pub last_error : String

pub record Notification : Type 0 where
  pub id : String
  pub tenant_id : String
  pub record_id : String
  pub event_type : String
  pub state : String
  pub created_at : Time

-- Go's zero values, what a read of a missing map key gives.
abbrev pub zero_workflow : WorkflowDefinition
zero_workflow = record {
  id = "";
  tenant_id = "";
  name = "";
  fields = [];
  states = [];
  version = 0;
  created_at = zero_time;
  updated_at = zero_time;
}

abbrev pub zero_record : Record
zero_record = record {
  id = "";
  tenant_id = "";
  workflow_id = "";
  state = "";
  record_data = none;
  version = 0;
  idempotency = "";
  created_at = zero_time;
  updated_at = zero_time;
}
