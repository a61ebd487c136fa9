-- ===== src/Mongo/Outbox.antt =====
-- The outbox and the notifications of `MongoStore`.
use enterprise_workflow_plat.Common.{
  String, List, [], ◌∷◌, Option, none, some, Bool, true, false, ◌==◌, Result, ok, err,
  if◌then◌else◌,
}
use enterprise_workflow_plat.Common.Int64.{is_positive}
use enterprise_workflow_plat.Domain.{Time, Int64, OutboxEvent, Notification}
use enterprise_workflow_plat.Mongo.Bson as B
use enterprise_workflow_plat.Mongo.Bson.{
  Filter, Update, missing, one_of, equals, set_value, increment, ascending,
}
use enterprise_workflow_plat.Mongo.Driver.{
  Driver, DriverError, MongoError, duplicate_key, failed, no_documents, driver_error,
}
use enterprise_workflow_plat.Mongo.Action.{Action, with_error, as_action}
use enterprise_workflow_plat.Mongo.Records.{by_tenant}

-- `publishedAt` and `lastError` of a published event.
abbrev pub published_at : Time → Update
published_at now =
    ("publishedAt", set_value (B.date now)) ∷ ("lastError", set_value (B.text "")) ∷ []

abbrev pub with_id : String → Filter
with_id id = ("_id", equals (B.text id)) ∷ []

-- Whether a notification is new: `StoreNotification` after its insertion.
abbrev pub is_new : Option DriverError → Result MongoError Bool
is_new none = ok true
is_new (some (duplicate_key _)) = ok false
is_new (some no_documents) = err (driver_error no_documents)
is_new (some (failed s)) = err (driver_error (failed s))

module _ {W : Type 0} (driver : Driver W) where
  unfoldable pub list_pending_outbox : Int64 → Action W (List OutboxEvent)
  list_pending_outbox limit w =
      let (found, w') =
        driver.outbox.find (("publishedAt", missing) ∷ []) (some ("createdAt", ascending))
          (if is_positive limit then limit else 100) w in
      (with_error found, w')

  -- No document with the identifier is no error.
  unfoldable pub mark_outbox_published : String → Action W (Unit {0})
  mark_outbox_published id w =
      as_action (driver.outbox.update_one (with_id id) (published_at (driver.now w))) w

  unfoldable pub mark_outbox_published_batch : List String → Action W (Unit {0})
  mark_outbox_published_batch [] w = (ok tt, w)
  mark_outbox_published_batch (id ∷ ids) w =
      as_action
        (driver.outbox.update_many (("_id", one_of (id ∷ ids)) ∷ []) (published_at (driver.now w)))
        w

  unfoldable pub mark_outbox_failed : String → String → Action W (Unit {0})
  mark_outbox_failed id reason = as_action (
      driver.outbox.update_one (with_id id)
        (("attempts", increment) ∷ ("lastError", set_value (B.text reason)) ∷ []))

  unfoldable pub store_notification : Notification → Action W Bool
  store_notification notification w =
      let (failure, w') = driver.notifications.insert_one notification w in (is_new failure, w')

  unfoldable pub count_notifications : String → Action W Int64
  count_notifications tenant w =
      if tenant == ""
      then (err (driver_error (failed "tenant ID is required")), w)
      else let (counted, w') = driver.notifications.count_documents (by_tenant tenant) w in
        (with_error counted, w')
