-- ===== src/Mongo/Aborted.antt =====
-- The errors of its own that `CreateRecord` of `MongoStore` returns.
use enterprise_workflow_plat.Common.{
  String, List, [], ◌∷◌, Option, none, some, true, not, ◌==◌, ◌&&◌, Result, ok, err, ◌≡◌, refl, sym,
  ◌∙◌, ap, subst, inl, inr, arith, Bool-cases, Option-cases,
}
use enterprise_workflow_plat.Domain.{Time, Record, WorkflowDefinition, zero_record}
use enterprise_workflow_plat.Store.{
  StoreError, not_found, conflict, invalid_workflow, index_out_of_range,
}
use enterprise_workflow_plat.Mongo.Driver.{
  Driver, DriverError, MongoError, no_documents, duplicate_key, failed, refused,
}
use enterprise_workflow_plat.Mongo.Bson.{IdempotencyDoc}
use enterprise_workflow_plat.Mongo.Action.{Action, pure, as_action, go_on, bind-err}
use enterprise_workflow_plat.Mongo.Records.{by_id, find_workflow, write_audit_and_outbox}
use enterprise_workflow_plat.Mongo.Create.{
  replayed, read_replay, find_replay, first_state, remember, write_created, insert_into,
  insert_record, create_body, replay_or, is_duplicate_key, after_failure, finish, create_new,
  replay_first, create_unless, create_record, filled_record,
}
use enterprise_workflow_plat.Mongo.Laws.{Database, In, Lawful}
use enterprise_workflow_plat.Mongo.Created.{or_invalid-ok}
use enterprise_workflow_plat.Mongo.Outcome.{replay_first-keeps}
use enterprise_workflow_plat.Mongo.Causes.{
  IsUnread, unread, or_invalid-refused, failure-ne-refused, failure_of-some,
  write_audit_and_outbox-ne-refused,
}

-- Why `CreateRecord` refuses, or panics.
abbrev pub CreateCause :
    {W : Type 0} → Driver W → (tenant : String) → Record → Database → StoreError → Type 0
CreateCause driver tenant r db not_found = ⊥
CreateCause driver tenant r db conflict = ⊥
CreateCause driver tenant r db invalid_workflow = IsUnread driver r.workflow_id tenant db
CreateCause driver tenant r db index_out_of_range =
    (workflow : WorkflowDefinition) × In workflow db.workflows × (workflow.states ≡ [])

replay_or-err :
    (x y : MongoError) (found : Result MongoError (Option Record))
    → replay_or x found ≡ err y
    → x ≡ y
replay_or-err x y (ok (some r)) h = cc
replay_or-err x y (ok none) h = cc
replay_or-err x y (err z) h = cc

module _ {W : Type 0} (driver : Driver W) where
  replayed-ne-refused :
      (e : StoreError) (found : Result DriverError Record) → ¬ (replayed found ≡ err (refused e))
  replayed-ne-refused e (ok r) h = cc
  replayed-ne-refused e (err x) h = cc

  read_replay-ne-refused :
      (tenant : String) (entry : Result DriverError IdempotencyDoc) (e : StoreError) (w : W)
      → ¬ ((read_replay driver tenant entry w).0 ≡ err (refused e))
  read_replay-ne-refused tenant (ok d) e w h = replayed-ne-refused e _ h
  read_replay-ne-refused tenant (err no_documents) e w h = cc
  read_replay-ne-refused tenant (err (duplicate_key s)) e w h = cc
  read_replay-ne-refused tenant (err (failed s)) e w h = cc

  replay_first-ne-refused :
      (tenant key : String) (e : StoreError) (w : W)
      → ¬ ((replay_first driver tenant key w).0 ≡ err (refused e))
  unfolding replay_first find_replay
  replay_first-ne-refused tenant key e w h = elim (Bool-cases (key == "")) [
    | inl on ↦ let h' = rw on at h in cc
    | inr off ↦ let h' = rw off at h in read_replay-ne-refused tenant _ e _ h'
  ]

  first_state-refused :
      (states : List String) (e : StoreError) (w : W)
      → (first_state driver states w).0 ≡ err (refused e)
      → (index_out_of_range ≡ e) × (states ≡ [])
  first_state-refused [] e w h = (cc, refl)
  first_state-refused (x ∷ rest) e w h = cc

  remember-ne-refused :
      (now : Time) (tenant key id : String) (e : StoreError) (w : W)
      → ¬ ((remember driver now tenant key id w).0 ≡ err (refused e))
  remember-ne-refused now tenant key id e w h = elim (Bool-cases (key == "")) [
    | inl on ↦ let h' = rw on at h in cc
    | inr off ↦ let h' = rw off at h in failure-ne-refused e _ h'
  ]

  write_created-ne-refused :
      (now : Time) (tenant key : String) (r : Record) (e : StoreError) (w : W)
      → ¬ ((write_created driver now tenant key r w).0 ≡ err (refused e))
  unfolding write_created
  write_created-ne-refused now tenant key r e w h =
      elim (bind-err (as_action (driver.records.insert_one r)) _ w (refused e) h) [
        | inl first ↦ failure-ne-refused e _ first
        | inr (_, _, h₁) ↦
            elim (bind-err (remember driver now tenant key r.id) _ _ (refused e) h₁) [
              | inl second ↦ remember-ne-refused now tenant key r.id e _ second
              | inr (_, _, h₂) ↦
                  elim (bind-err (write_audit_and_outbox driver r "record.created") (λ _. pure r) _
                    (refused e) h₂) [
                      | inl third ↦
                          write_audit_and_outbox-ne-refused driver r "record.created" e _ third
                      | inr (_, _, h₃) ↦ cc
                    ]
            ]
      ]

  after_failure-refused :
      (tenant key : String) (x : MongoError) (e : StoreError) (w : W)
      → (after_failure driver tenant key x w).0 ≡ err (refused e)
      → (x ≡ refused e) × ((after_failure driver tenant key x w).1 ≡ w)
  unfolding after_failure
  after_failure-refused tenant key x e w h =
      elim (Bool-cases (not (key == "") && is_duplicate_key x)) [
        | inl on ↦
            let h' = rw on at h in
            let is = replay_or-err x (refused e) (find_replay driver tenant key w).0 h' in
            let dup : is_duplicate_key x ≡ true = ground arith in
            cc (sym (ap is_duplicate_key is) ∙ dup)
        | inr off ↦ let h' = rw off at h in (cc, rw off refl)
      ]

module _ {W : Type 0} (driver : Driver W) (contents : W → Database)
    (law : Lawful driver contents) where
  insert_into-refused :
      (tenant key : String) (r : Record) (wf : WorkflowDefinition) (e : StoreError) (w : W)
      (db : Database)
      → In wf db.workflows
      → (insert_into driver tenant key r wf w).0 ≡ err (refused e)
      → CreateCause driver tenant r db e
  unfolding insert_into
  insert_into-refused tenant key r wf e w db there h =
      let now = driver.now w in
      let (id, w₁) = driver.new_object_id w in
      let f : String → Action W Record =
        λ first. write_created driver now tenant key (filled_record now id tenant key first r) in
      elim (bind-err (first_state driver wf.states) f w₁ (refused e) h) [
        | inl panics ↦
            let (same, none_is) = first_state-refused driver wf.states e w₁ panics in
            subst (CreateCause driver tenant r db) same (wf, there, none_is)
        | inr (first, _, h₁) ↦ absurd (
            write_created-ne-refused driver now tenant key (filled_record now id tenant key first r)
              e _ h₁)
      ]

  insert_record-refused :
      (tenant key : String) (r : Record) (e : StoreError) (w : W)
      → (insert_record driver tenant key r w).0 ≡ err (refused e)
      → CreateCause driver tenant r (contents w) e
  unfolding insert_record
  insert_record-refused tenant key r e w h =
      let m = find_workflow driver r.workflow_id tenant in
      let filter = by_id r.workflow_id tenant in
      elim (bind-err m (insert_into driver tenant key r) w (refused e) h) [
        | inl broke ↦
            let (is, x, failed_with) =
              or_invalid-refused e (driver.workflows.find_one filter w).0 broke in
            subst (CreateCause driver tenant r (contents w)) is
              (unread driver contents law r.workflow_id tenant x w failed_with)
        | inr (wf, found, h₁) ↦
            let (there, _) =
              law.workflows.find_one_found filter w wf
                (or_invalid-ok (driver.workflows.find_one filter w).0 wf found) in
            insert_into-refused tenant key r wf e (m w).1 (contents w) there h₁
      ]

  finish-refused :
      (tenant key : String) (failure : Option MongoError) (created : Record) (e : StoreError)
      (w : W)
      → (finish driver tenant key failure created w).0 ≡ err (refused e)
      → (failure ≡ some (refused e)) × ((finish driver tenant key failure created w).1 ≡ w)
  finish-refused tenant key none created e w h = cc
  finish-refused tenant key (some x) created e w h =
      let (is, keeps) = after_failure-refused driver tenant key x e w h in (ap some is, keeps)

  create_new-refused :
      (tenant key : String) (r : Record) (e : StoreError) (w : W)
      → (create_new driver tenant key r w).0 ≡ err (refused e)
      → CreateCause driver tenant r (contents w) e
        × (contents (create_new driver tenant key r w).1 ≡ contents w)
  unfolding create_new create_body
  create_new-refused tenant key r e w h =
      let body = create_body driver tenant key r in
      let ended = driver.with_transaction body (zero_record, w) in
      let (is, same) = finish-refused tenant key ended.0 ended.1.0 e ended.1.1 h in
      let (run, ran, keeps) = law.aborted body zero_record w e is in
      (
        subst (λ db. CreateCause driver tenant r db e) run.from
            (insert_record-refused tenant key r e run.start
              (failure_of-some (insert_record driver tenant key r run.start).0 (refused e) ran)),
        ap contents same ∙ keeps,
      )

  create_unless-refused :
      (tenant key : String) (r : Record) (found : Option Record) (e : StoreError) (w : W)
      → (create_unless driver tenant key r found w).0 ≡ err (refused e)
      → CreateCause driver tenant r (contents w) e
        × (contents (create_unless driver tenant key r found w).1 ≡ contents w)
  create_unless-refused tenant key r (some existing) e w h = cc
  create_unless-refused tenant key r none e w h =
      let start = as_action driver.start_session in
      let create = create_new driver tenant key r in
      elim (Option-cases (driver.start_session w).0) [
        | inr (x, broke) ↦ let h' = rw broke at h in cc
        | inl started ↦
            let h' = rw started at h in
            let (cause, keeps) = create_new-refused tenant key r e (start w).1 h' in
            (
              subst (λ db. CreateCause driver tenant r db e) (law.session_keeps w) cause,
              rw started (keeps ∙ law.session_keeps w),
            )
      ]

  -- Over a lawful driver, a creation that is refused leaves the database as it was. It is refused with
  -- invalid_workflow only if the workflow was not read, as it is missing or a read failed, and not
  -- with not_found or conflict; it panics only if a stored workflow has no states.
  pub create_record-CreateCause :
      (tenant key : String) (r : Record) (e : StoreError) (w : W)
      → (create_record driver tenant key r w).0 ≡ err (refused e)
      → CreateCause driver tenant r (contents w) e
        × (contents (create_record driver tenant key r w).1 ≡ contents w)
  unfolding create_record
  create_record-CreateCause tenant key r e w h =
      let m = replay_first driver tenant key in
      let f = create_unless driver tenant key r in
      let kept = replay_first-keeps driver contents law tenant key w in
      elim (bind-err m f w (refused e) h) [
        | inl broke ↦ absurd (replay_first-ne-refused driver tenant key e w broke)
        | inr (found, went, h₁) ↦
            let eq : create_record driver tenant key r w ≡ f found (m w).1 =
              ap (λ x. go_on f (x, (m w).1)) went in
            let (cause, keeps) = create_unless-refused tenant key r found e (m w).1 h₁ in
            (
              subst (λ db. CreateCause driver tenant r db e) kept cause,
              ap (λ x. contents x.1) eq ∙ keeps ∙ kept,
            )
      ]
