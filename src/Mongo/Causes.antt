-- ===== src/Mongo/Causes.antt =====
-- Where the errors of the methods of `MongoStore` come from.
use enterprise_workflow_plat.Common.{
  String, Option, none, some, Result, ok, err, ◌≡◌, ◌≢◌, ◌⊎◌, refl, ap, inl, inr,
}
use enterprise_workflow_plat.Domain.{Record}
use enterprise_workflow_plat.Store.{StoreError, invalid_workflow}
use enterprise_workflow_plat.Mongo.Bson.{workflow_field, matches}
use enterprise_workflow_plat.Mongo.Driver.{
  Driver, DriverError, MongoError, no_documents, duplicate_key, failed, refused,
}
use enterprise_workflow_plat.Mongo.Action.{bind-err, as_action, failure}
use enterprise_workflow_plat.Mongo.Records.{
  by_id, or_refused, or_invalid, failure_of, write_audit_and_outbox,
}
use enterprise_workflow_plat.Mongo.Laws.{Database, Lacks, Lawful}

pub or_refused-refused :
    {A : Type 0} (x e : StoreError) (found : Result DriverError A)
    → or_refused x found ≡ err (refused e)
    → (x ≡ e) × (found ≡ err no_documents)
or_refused-refused x e (ok a) h = cc
or_refused-refused x e (err no_documents) h = (cc, refl)
or_refused-refused x e (err (duplicate_key s)) h = cc
or_refused-refused x e (err (failed s)) h = cc

pub or_invalid-refused :
    {A : Type 0} (e : StoreError) (found : Result DriverError A)
    → or_invalid found ≡ err (refused e)
    → (invalid_workflow ≡ e) × (x : DriverError) × (found ≡ err x)
or_invalid-refused e (ok a) h = cc
or_invalid-refused e (err x) h = (cc, x, refl)

pub failure-ne-refused : (e : StoreError) (o : Option DriverError) → ¬ (failure o ≡ err (refused e))
failure-ne-refused e none h = cc
failure-ne-refused e (some x) h = cc

pub failure_of-some :
    {A : Type 0} (r : Result MongoError A) (e : MongoError) → failure_of r ≡ some e → r ≡ err e
failure_of-some (ok a) e h = cc
failure_of-some (err x) e h = let same : x ≡ e = cc in ap err same

-- Why a workflow of the tenant was not read: there is none, or a read for it failed.
abbrev pub IsUnread : {W : Type 0} → Driver W → (id tenant : String) → Database → Type 0
IsUnread {W} driver id tenant db =
    Lacks (matches workflow_field (by_id id tenant)) db.workflows
    ⊎ ((w : W) × (x : DriverError) × (x ≢ no_documents)
        × ((driver.workflows.find_one (by_id id tenant) w).0 ≡ err x))

module _ {W : Type 0} (driver : Driver W) where
  pub write_audit_and_outbox-ne-refused :
      (r : Record) (typ : String) (e : StoreError) (w : W)
      → ¬ ((write_audit_and_outbox driver r typ w).0 ≡ err (refused e))
  unfolding write_audit_and_outbox
  write_audit_and_outbox-ne-refused r typ e w h =
      elim (bind-err (as_action (driver.audit.insert_one _)) _ _ (refused e) h) [
        | inl first ↦ failure-ne-refused e _ first
        | inr (_, _, second) ↦ failure-ne-refused e _ second
      ]

module _ {W : Type 0} (driver : Driver W) (contents : W → Database)
    (law : Lawful driver contents) where
  pub unread :
      (id tenant : String) (x : DriverError) (w : W)
      → (driver.workflows.find_one (by_id id tenant) w).0 ≡ err x
      → IsUnread driver id tenant (contents w)
  unread id tenant no_documents w h = inl (law.workflows.find_one_missing (by_id id tenant) w h)
  unread id tenant (duplicate_key s) w h = inr (w, duplicate_key s, (λ e. cc), h)
  unread id tenant (failed s) w h = inr (w, failed s, (λ e. cc), h)
