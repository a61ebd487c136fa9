-- ===== src/Mongo/Versioned.antt =====
-- `UpdateRecord` of `MongoStore`, its transaction included.
use enterprise_workflow_plat.Common.{
  String, Option, none, Result, ok, err, ◌≡◌, refl, sym, ap, subst, inl, inr, Option-cases,
}
use enterprise_workflow_plat.Domain.{Time, Int64, Record, zero_record}
use enterprise_workflow_plat.Domain.Value.{Members}
use enterprise_workflow_plat.Mongo.Driver.{Driver, MongoError}
use enterprise_workflow_plat.Mongo.Records.{failure_of, write_audit_and_outbox}
use enterprise_workflow_plat.Mongo.Update.{write_version, log_update, update_body, update_record}
use enterprise_workflow_plat.Mongo.Laws.{Database, Lawful}
use enterprise_workflow_plat.Mongo.Logged.{IsLogged, write_audit_and_outbox-ok}
use enterprise_workflow_plat.Mongo.Updated.{IsAllowed, IsWritten, write_version-ok}

-- What a successful `UpdateRecord` has checked, written and logged.
pub record IsUpdated (tenant id : String) (expected : Int64) (state : String)
    (new_data : Option Members) (new : Record) (before after : Database) : Type 0 where
  pub checks : IsAllowed tenant id expected state before
  pub time : Time
  pub written : Database
  pub writes : IsWritten tenant id expected state new_data time new before written
  pub logged : IsLogged new "record.updated" written after

failure_of-done : (r : Result MongoError (Unit {0})) → failure_of r ≡ none → r ≡ ok tt
failure_of-done (ok tt) h = refl
failure_of-done (err e) h = cc

module _ {W : Type 0} (driver : Driver W) (contents : W → Database)
    (law : Lawful driver contents) where
  log_update-ok :
      (tenant id : String) (expected : Int64) (state : String) (new_data : Option Members)
      (result : Result MongoError Record) (old : Record) (w : W) (before : Database)
      → ((new : Record)
          → result ≡ ok new
          → IsAllowed tenant id expected state before
            × (now : Time) × IsWritten tenant id expected state new_data now new before
                (contents w))
      → (log_update driver result (old, w)).0 ≡ none
      → IsUpdated tenant id expected state new_data
          (log_update driver result (old, w)).1.0
          before
          (contents (log_update driver result (old, w)).1.1)
  log_update-ok tenant id expected state new_data (err e) old w before written h = cc
  log_update-ok tenant id expected state new_data (ok new) old w before written h =
      let (checks, now, writes) = written new refl in
      record {
        checks = checks;
        time = now;
        written = contents w;
        writes = writes;
        logged =
            write_audit_and_outbox-ok driver contents law new "record.updated" w
              (failure_of-done (write_audit_and_outbox driver new "record.updated" w).0 h);
      }

  update_body-ok :
      (tenant id : String) (expected : Int64) (state : String) (new_data : Option Members)
      (old : Record) (w : W)
      → (update_body driver tenant id expected state new_data (old, w)).0 ≡ none
      → IsUpdated tenant id expected state new_data
          (update_body driver tenant id expected state new_data (old, w)).1.0
          (contents w)
          (contents (update_body driver tenant id expected state new_data (old, w)).1.1)
  unfolding update_body
  update_body-ok tenant id expected state new_data old w h =
      let (result, w') = write_version driver tenant id expected state new_data w in
      log_update-ok tenant id expected state new_data result old w' (contents w)
        (λ new. write_version-ok driver contents law tenant id expected state new_data new w) h

  commit_update-ok :
      (tenant id : String) (expected : Int64) (state : String) (new_data : Option Members) (w : W)
      → (driver.with_transaction
          (update_body driver tenant id expected state new_data)
          (zero_record, w)).0
        ≡ none
      → IsUpdated tenant id expected state new_data
          (driver.with_transaction
            (update_body driver tenant id expected state new_data)
            (zero_record, w)).1.0
          (contents w)
          (contents
            (driver.with_transaction
              (update_body driver tenant id expected state new_data)
              (zero_record, w)).1.1)
  commit_update-ok tenant id expected state new_data w h =
      let body = update_body driver tenant id expected state new_data in
      let (run, ran, variable, writes) = law.committed body zero_record w h in
      let ended = body (run.variable, run.start) in
      subst
        (λ x.
          IsUpdated tenant id expected state new_data x (contents w)
            (contents (driver.with_transaction body (zero_record, w)).1.1))
        (sym variable)
        (subst (IsUpdated tenant id expected state new_data ended.1.0 (contents w)) (sym writes) (
          subst
            (λ db. IsUpdated tenant id expected state new_data ended.1.0 db (contents ended.1.1))
            run.from (update_body-ok tenant id expected state new_data run.variable run.start ran)))

  -- Over a lawful driver, an update without an error found the tenant's record at the expected
  -- version and its workflow with the requested state, if one was given; it replaced a record of
  -- that identifier, tenant and version by what `MemoryStore` would write, returned it, and logged
  -- both events, and wrote nothing else.
  pub update_record-ok :
      (tenant id : String) (expected : Int64) (state : String) (new_data : Option Members)
      (new : Record) (w : W)
      → (update_record driver tenant id expected state new_data w).0 ≡ (new, none)
      → IsUpdated tenant id expected state new_data new
          (contents w)
          (contents (update_record driver tenant id expected state new_data w).1)
  unfolding update_record
  update_record-ok tenant id expected state new_data new w h =
      let w' = (driver.start_session w).1 in
      elim (Option-cases (driver.start_session w).0) [
        | inr (e, broke) ↦ let h' = rw (broke, update_record) at h in cc (ap (λ p. p.1) h')
        | inl started ↦
            let h' = rw (started, update_record) at h in
            let body = update_body driver tenant id expected state new_data in
            let ended = driver.with_transaction body (zero_record, w') in
            rw (started, update_record)
              (subst
                (λ x.
                  IsUpdated tenant id expected state new_data x (contents w) (contents ended.1.1))
                (ap (λ p. p.0) h')
                (subst
                  (λ db.
                    IsUpdated tenant id expected state new_data ended.1.0 db (contents ended.1.1))
                  (law.session_keeps w)
                  (commit_update-ok tenant id expected state new_data w' (ap (λ p. p.1) h'))))
      ]
