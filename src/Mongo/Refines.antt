-- ===== src/Mongo/Refines.antt =====
-- `MongoStore` keeps the promises of `Store`.
use enterprise_workflow_plat.Common.{
  String, Option, none, some, true, false, Result, ok, err, ◌≡◌, refl, ap,
}
use enterprise_workflow_plat.Domain.{Record}
use enterprise_workflow_plat.Store.{not_found}
use enterprise_workflow_plat.Store.Spec.{Operations, Implements}
use enterprise_workflow_plat.Mongo.Bson.{stored_record}
use enterprise_workflow_plat.Mongo.Driver.{Driver, MongoError}
use enterprise_workflow_plat.Mongo.Records.{by_id, get_record}
use enterprise_workflow_plat.Mongo.Create.{create_record}
use enterprise_workflow_plat.Mongo.Update.{update_record}
use enterprise_workflow_plat.Mongo.Laws.{Database, In, Lawful}
use enterprise_workflow_plat.Mongo.Replay.{record-matches}
use enterprise_workflow_plat.Mongo.Outcome.{IsReplayed, create_record-IsOutcome}
use enterprise_workflow_plat.Mongo.Updated.{or_refused-ok}
use enterprise_workflow_plat.Mongo.Versioned.{update_record-ok}
use enterprise_workflow_plat.Mongo.Ids.{find_id-In}
use enterprise_workflow_plat.Mongo.View.{
  catalog, HasDistinctIds, record_id_of, IsNew-IsCreation, IsUpdated-IsUpdate,
}

abbrev pub succeeded : {A : Type 0} → Result MongoError A → Option A
succeeded (ok a) = some a
succeeded (err _) = none

abbrev pub updated : Record × Option MongoError → Option Record
updated (r, none) = some r
updated (r, some _) = none

-- The methods of `MongoStore`.
abbrev pub mongo_store : {W : Type 0} → Driver W → Operations W
mongo_store driver = record {
  create_record = λ tenant key r w.
      let (result, w') = create_record driver tenant key r w in (succeeded result, w');
  get_record =
      λ tenant id w. let (result, w') = get_record driver tenant id w in (succeeded result, w');
  update_record = λ tenant id expected state new_data w.
      let (result, w') = update_record driver tenant id expected state new_data w in
      (updated result, w');
}

succeeded-some : {A : Type 0} (r : Result MongoError A) (a : A) → succeeded r ≡ some a → r ≡ ok a
succeeded-some (ok x) a h = let same : x ≡ a = cc in ap ok same
succeeded-some (err e) a h = cc

updated-some :
    (r : Record × Option MongoError) (new : Record) → updated r ≡ some new → r ≡ (new, none)
updated-some (r, none) new h = let same : r ≡ new = cc in ap (λ (x : Record). (x, none)) same
updated-some (r, some e) new h = cc

module _ {W : Type 0} (driver : Driver W) (contents : W → Database)
    (law : Lawful driver contents) where
  get_record-ok :
      (tenant id : String) (r : Record) (w : W)
      → (get_record driver tenant id w).0 ≡ ok r
      → In r (contents w).records
        × (r.id ≡ id)
        × (r.tenant_id ≡ tenant)
        × (contents (get_record driver tenant id w).1 ≡ contents w)
  unfolding get_record
  get_record-ok tenant id r w h =
      let filter = by_id id tenant in
      let (there, fits) =
        law.records.find_one_found filter w r
          (or_refused-ok not_found (driver.records.find_one filter w).0 r h) in
      let (id_is, tenant_is) = record-matches id tenant r fits in
      (there, id_is, tenant_is, law.records.find_one_keeps filter w)

  -- Over a lawful driver and from distinct identifiers, every creation, replay, read and update
  -- that succeeds is the step of the specification `Store.Spec` on the view of the database by
  -- identifiers, where a new record is kept with its times in milliseconds.
  pub mongo_store-Implements :
      Implements
        (mongo_store driver)
        (λ w. catalog (contents w))
        stored_record
        (λ w. HasDistinctIds (contents w))
  mongo_store-Implements = record {
    creates = λ tenant key r new w ready h.
        IsNew-IsCreation driver contents law tenant key r new (contents w)
          (contents (create_record driver tenant key r w).1) ready
          (create_record-IsOutcome driver contents law tenant key r new false w
            (succeeded-some (create_record driver tenant key r w).0 (new, false) h));
    replays = λ tenant key r old w ready h.
        let replayed : IsReplayed tenant key old (contents w)
            (contents (create_record driver tenant key r w).1) =
          create_record-IsOutcome driver contents law tenant key r old true w
            (succeeded-some (create_record driver tenant key r w).0 (old, true) h) in
        (
          replayed.has_key,
          find_id-In record_id_of old.id (contents w).records old replayed.is.stored ready.1 refl,
          ap catalog replayed.keeps,
        );
    reads = λ tenant id r w ready h.
        let (there, id_is, tenant_is, keeps) =
          get_record-ok tenant id r w (succeeded-some (get_record driver tenant id w).0 r h) in
        (
          find_id-In record_id_of id (contents w).records r there ready.1 id_is,
          tenant_is,
          ap catalog keeps,
        );
    updates = λ tenant id expected state new_data new w ready h.
        IsUpdated-IsUpdate tenant id expected state new_data new (contents w)
          (contents (update_record driver tenant id expected state new_data w).1)
          (update_record-ok driver contents law tenant id expected state new_data new w
            (updated-some (update_record driver tenant id expected state new_data w).0 new h))
          ready;
  }
