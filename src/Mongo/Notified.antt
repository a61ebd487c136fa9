-- ===== src/Mongo/Notified.antt =====
-- `StoreNotification` of `MongoStore`: a notification is stored once.
use enterprise_workflow_plat.Common.{
  String, [], ◌∷◌, ◌++◌, Option, none, some, Bool, true, false, ◌==◌, ok, ◌≡◌, refl, sym, ◌∙◌,
  subst, eq_refl,
}
use enterprise_workflow_plat.Domain.{Notification}
use enterprise_workflow_plat.Mongo.Bson.{stored_notification}
use enterprise_workflow_plat.Mongo.Driver.{Driver, DriverError, no_documents, duplicate_key, failed}
use enterprise_workflow_plat.Mongo.Outbox.{store_notification, is_new}
use enterprise_workflow_plat.Mongo.Laws.{Database, Lacks, Lawful}
use enterprise_workflow_plat.Mongo.Repeat.{last-lacks}

-- A new notification is added as BSON keeps it, and no other has its identifier; a known one changes
-- nothing.
abbrev pub IsNotified : Notification → Bool → Database → Database → Type 0
IsNotified n true before after =
    Lacks (λ x. x.id == n.id) before.notifications
    × (after ≡ record before { notifications = before.notifications ++ stored_notification n ∷ [] })
IsNotified n false before after =
    (¬ Lacks (λ (x : Notification). x.id == n.id) before.notifications) × (after ≡ before)

is_new-IsNotified :
    (n : Notification) (new : Bool) (failure : Option DriverError) (before after : Database)
    → (failure ≡ none
        → (after
            ≡ record before { notifications = before.notifications ++ stored_notification n ∷ [] })
          × Lacks (λ x. x.id == n.id) before.notifications)
    → ((message : String)
        → failure ≡ some (duplicate_key message)
        → (after ≡ before) × (¬ Lacks (λ (x : Notification). x.id == n.id) before.notifications))
    → is_new failure ≡ ok new
    → IsNotified n new before after
is_new-IsNotified n new none before after done duplicate h =
    let same : true ≡ new = cc in
    let (writes, lacks) = done refl in subst (λ b. IsNotified n b before after) same (lacks, writes)
is_new-IsNotified n new (some (duplicate_key s)) before after done duplicate h =
    let same : false ≡ new = cc in
    let (keeps, there) = duplicate s refl in
    subst (λ b. IsNotified n b before after) same (there, keeps)
is_new-IsNotified n new (some no_documents) before after done duplicate h = cc
is_new-IsNotified n new (some (failed s)) before after done duplicate h = cc

second_is :
    (n : Notification) (first second : Bool) (before middle after : Database)
    → IsNotified n first before middle
    → IsNotified n second middle after
    → (second ≡ false) × (after ≡ middle)
second_is n first false before middle after one two = (refl, two.1)
second_is n true true before middle after one two =
    let off =
      last-lacks (λ (x : Notification). x.id == n.id) before.notifications (stored_notification n)
        (subst (λ db. Lacks (λ (x : Notification). x.id == n.id) db.notifications) one.1 two.0) in
    cc (sym (eq_refl n.id) ∙ off)
second_is n false true before middle after one two =
    absurd (
      one.0 (subst (λ db. Lacks (λ (x : Notification). x.id == n.id) db.notifications) one.1 two.0))

module _ {W : Type 0} (driver : Driver W) (contents : W → Database)
    (law : Lawful driver contents) where
  pub store_notification-IsNotified :
      (n : Notification) (new : Bool) (w : W)
      → (store_notification driver n w).0 ≡ ok new
      → IsNotified n new (contents w) (contents (store_notification driver n w).1)
  unfolding store_notification
  store_notification-IsNotified n new w h =
      is_new-IsNotified n new (driver.notifications.insert_one n w).0 (contents w)
        (contents (driver.notifications.insert_one n w).1) (law.notifications.insert_done n w)
        (law.notifications.insert_duplicate n w) h

  -- Over a lawful driver, if storing a notification succeeded and nothing was written since,
  -- storing it again, if it succeeds, reports that it is known and writes nothing.
  pub store_notification-store_notification :
      (n : Notification) (first second : Bool) (w w' : W)
      → (store_notification driver n w).0 ≡ ok first
      → contents w' ≡ contents (store_notification driver n w).1
      → (store_notification driver n w').0 ≡ ok second
      → (second ≡ false) × (contents (store_notification driver n w').1 ≡ contents w')
  store_notification-store_notification n first second w w' one kept two =
      second_is n first second (contents w) (contents w')
        (contents (store_notification driver n w').1)
        (subst (IsNotified n first (contents w)) (sym kept)
          (store_notification-IsNotified n first w one))
        (store_notification-IsNotified n second w' two)
