-- ===== src/Mongo/Replay.antt =====
-- What `CreateRecord` of `MongoStore` returns, new or replayed.
use enterprise_workflow_plat.Common.{
  String, some, true, Result, ok, err, ◌≡◌, refl, sym, ◌∙◌, ap, subst, arith, eq_iff,
}
use enterprise_workflow_plat.Domain.{Record}
use enterprise_workflow_plat.Mongo.Bson.{
  matches, holds, bson_eq, record_field, idempotency_field, IdempotencyDoc,
}
use enterprise_workflow_plat.Mongo.Driver.{Driver, DriverError, no_documents, duplicate_key, failed}
use enterprise_workflow_plat.Mongo.Records.{by_id}
use enterprise_workflow_plat.Mongo.Create.{by_key, find_replay, read_replay, replayed}
use enterprise_workflow_plat.Mongo.Laws.{Database, In, Lawful}

-- The tenant's record that an idempotency document of the tenant and the key names.
pub record IsReplay (tenant key : String) (r : Record) (db : Database) : Type 0 where
  pub entry : IdempotencyDoc
  pub there : In entry db.idempotency
  pub entry_tenant : entry.tenant_id ≡ tenant
  pub entry_key : entry.key ≡ key
  pub named : entry.record_id ≡ r.id
  pub stored : In r db.records
  pub tenant_is : r.tenant_id ≡ tenant

pub record-matches :
    (id tenant : String) (r : Record)
    → matches record_field (by_id id tenant) r ≡ true
    → (r.id ≡ id) × (r.tenant_id ≡ tenant)
unfolding matches holds bson_eq record_field
record-matches id tenant r e = ground (arith, eq_iff r.id id, eq_iff r.tenant_id tenant)

key-matches :
    (tenant key : String) (d : IdempotencyDoc)
    → matches idempotency_field (by_key tenant key) d ≡ true
    → (d.tenant_id ≡ tenant) × (d.key ≡ key)
unfolding matches holds bson_eq idempotency_field
key-matches tenant key d e = ground (arith, eq_iff d.tenant_id tenant, eq_iff d.key key)

module _ {W : Type 0} (driver : Driver W) (contents : W → Database)
    (law : Lawful driver contents) where
  replayed-ok :
      (found : Result DriverError Record) (r : Record) → replayed found ≡ ok (some r) → found ≡ ok r
  replayed-ok (ok x) r e = let same : x ≡ r = ground arith in ap ok same
  replayed-ok (err x) r e = cc

  -- The record of a document of the tenant and the key, in a database that is still the same.
  read_replay-ok :
      (tenant key : String) (entry : Result DriverError IdempotencyDoc) (r : Record) (w w₀ : W)
      → contents w ≡ contents w₀
      → ((d : IdempotencyDoc)
          → entry ≡ ok d
          → In d (contents w₀).idempotency × (d.tenant_id ≡ tenant) × (d.key ≡ key))
      → (read_replay driver tenant entry w).0 ≡ ok (some r)
      → IsReplay tenant key r (contents w₀)
  read_replay-ok tenant key (err no_documents) r w w₀ same found e = absurd (ground arith)
  read_replay-ok tenant key (err (duplicate_key s)) r w w₀ same found e = cc
  read_replay-ok tenant key (err (failed s)) r w w₀ same found e = cc
  read_replay-ok tenant key (ok d) r w w₀ same found e =
      let (there, tenant_is, key_is) = found d refl in
      let filter = by_id d.record_id tenant in
      let (stored, fits) =
        law.records.find_one_found filter w r
          (replayed-ok (driver.records.find_one filter w).0 r e) in
      let (id, own) = record-matches d.record_id tenant r fits in
      record {
        entry = d;
        there = there;
        entry_tenant = tenant_is;
        entry_key = key_is;
        named = sym id;
        stored = subst (λ db. In r db.records) same stored;
        tenant_is = own;
      }

  read_replay-keeps :
      (tenant : String) (entry : Result DriverError IdempotencyDoc) (w : W)
      → contents (read_replay driver tenant entry w).1 ≡ contents w
  read_replay-keeps tenant (err no_documents) w = refl
  read_replay-keeps tenant (err (duplicate_key s)) w = refl
  read_replay-keeps tenant (err (failed s)) w = refl
  read_replay-keeps tenant (ok d) w = law.records.find_one_keeps (by_id d.record_id tenant) w

  pub find_replay-keeps :
      (tenant key : String) (w : W) → contents (find_replay driver tenant key w).1 ≡ contents w
  unfolding find_replay
  find_replay-keeps tenant key w =
      read_replay-keeps tenant (driver.idempotency.find_one (by_key tenant key) w).0
        (driver.idempotency.find_one (by_key tenant key) w).1
      ∙ law.idempotency.find_one_keeps (by_key tenant key) w

  pub find_replay-ok :
      (tenant key : String) (r : Record) (w : W)
      → (find_replay driver tenant key w).0 ≡ ok (some r)
      → IsReplay tenant key r (contents w)
  unfolding find_replay
  find_replay-ok tenant key r w e =
      let (entry, w') = driver.idempotency.find_one (by_key tenant key) w in
      read_replay-ok tenant key entry r w' w (law.idempotency.find_one_keeps (by_key tenant key) w)
        (λ d h.
          let (there, fits) = law.idempotency.find_one_found (by_key tenant key) w d h in
          let (tenant_is, key_is) = key-matches tenant key d fits in (there, tenant_is, key_is))
        e
