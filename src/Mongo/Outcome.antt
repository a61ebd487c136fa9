-- ===== src/Mongo/Outcome.antt =====
-- What `CreateRecord` of `MongoStore` returns and leaves in the database: a new record, the replay of
-- an earlier one, or an error.
use enterprise_workflow_plat.Common.{
  String, Option, none, some, Bool, true, false, not, ◌==◌, ◌&&◌, Result, ok, err, ◌≡◌, refl, sym,
  ◌∙◌, ap, subst, inl, inr, arith, eq_iff, Text-cases, Bool-cases,
}
use enterprise_workflow_plat.Domain.{Record, zero_record}
use enterprise_workflow_plat.Mongo.Driver.{
  Driver, MongoError, no_documents, duplicate_key, failed, refused, driver_error,
}
use enterprise_workflow_plat.Mongo.Action.{as_action, bind-ok, pure-ok}
use enterprise_workflow_plat.Mongo.Records.{failure_of}
use enterprise_workflow_plat.Mongo.Create.{
  find_replay, insert_record, create_body, create_new, create_record, create_unless, finish,
  replay_first, after_failure, replay_or, is_duplicate_key, value_or,
}
use enterprise_workflow_plat.Mongo.Laws.{Database, Lawful}
use enterprise_workflow_plat.Mongo.Created.{IsNew, insert_record-ok}
use enterprise_workflow_plat.Mongo.Replay.{IsReplay, find_replay-ok, find_replay-keeps}

-- A replay has a key and writes nothing.
pub record IsReplayed (tenant key : String) (r : Record) (before after : Database) : Type 0 where
  pub has_key : ¬ (key ≡ "")
  pub is : IsReplay tenant key r before
  pub keeps : after ≡ before

pub duplicate-is :
    (e : MongoError)
    → is_duplicate_key e ≡ true
    → (message : String) × (e ≡ driver_error (duplicate_key message))
duplicate-is (driver_error (duplicate_key s)) h = (s, refl)
duplicate-is (driver_error no_documents) h = cc
duplicate-is (driver_error (failed s)) h = cc
duplicate-is (refused e) h = cc

replay_or-ok :
    (e : MongoError) (found : Result MongoError (Option Record)) (r : Record) (b : Bool)
    → replay_or e found ≡ ok (r, b)
    → (found ≡ ok (some r)) × (b ≡ true)
replay_or-ok e (ok (some x)) r b h =
    let same : x ≡ r = ground arith in (ap (λ y. ok (some y)) same, ground arith)
replay_or-ok e (ok none) r b h = cc
replay_or-ok e (err x) r b h = cc

pub failure_of-none :
    (result : Result MongoError Record) (old : Record)
    → failure_of result ≡ none
    → result ≡ ok (value_or old result)
failure_of-none (ok r) old h = refl
failure_of-none (err e) old h = cc

module _ {W : Type 0} (driver : Driver W) (contents : W → Database)
    (law : Lawful driver contents) where
  -- What the two results of `CreateRecord` and its database say.
  abbrev pub IsOutcome : String → String → Record → Record → Bool → Database → Database → Type 0
  IsOutcome tenant key r new true before after = IsReplayed tenant key new before after
  IsOutcome tenant key r new false before after =
      IsNew driver contents law tenant key r new before after

  after_failure-ok :
      (tenant key : String) (r new : Record) (replay : Bool) (e : MongoError) (w : W)
      → (after_failure driver tenant key e w).0 ≡ ok (new, replay)
      → (is_duplicate_key e ≡ true)
        × (replay ≡ true)
        × IsReplayed tenant key new (contents w) (contents (after_failure driver tenant key e w).1)
  unfolding after_failure
  after_failure-ok tenant key r new replay e w h =
      elim (Bool-cases (not (key == "") && is_duplicate_key e)) [
        | inr off ↦ let h' = rw off at h in cc
        | inl on ↦
            let h' = rw on at h in
            let (found, is_true) =
              replay_or-ok e (find_replay driver tenant key w).0 new replay h' in
            let full : ¬ (key ≡ "") = ground (arith, eq_iff key "") in
            (
              ground arith,
              is_true,
              record {
                has_key = full;
                is = find_replay-ok driver contents law tenant key new w found;
                keeps = rw on (find_replay-keeps driver contents law tenant key w);
              },
            )
      ]

  create_body-ok :
      (tenant key : String) (r old : Record) (w : W)
      → (create_body driver tenant key r (old, w)).0 ≡ none
      → IsNew driver contents law tenant key r
          (create_body driver tenant key r (old, w)).1.0
          (contents w)
          (contents (create_body driver tenant key r (old, w)).1.1)
  unfolding create_body
  create_body-ok tenant key r old w h =
      insert_record-ok driver contents law tenant key r _ w
        (failure_of-none (insert_record driver tenant key r w).0 old h)

  finish-ok :
      (tenant key : String) (r new created : Record) (replay : Bool) (failure : Option MongoError)
      (w₀ w : W)
      → (failure ≡ none → IsNew driver contents law tenant key r created (contents w₀) (contents w))
      → ((message : String)
          → failure ≡ some (driver_error (duplicate_key message))
          → contents w ≡ contents w₀)
      → (finish driver tenant key failure created w).0 ≡ ok (new, replay)
      → IsOutcome tenant key r new replay
          (contents w₀)
          (contents (finish driver tenant key failure created w).1)
  finish-ok tenant key r new created replay none w₀ w is_new aborted h =
      let same = pure-ok {A = Record × Bool} (created, false) (new, replay) w h in
      subst (λ p. IsOutcome tenant key r p.0 p.1 (contents w₀) (contents w)) same (is_new refl)
  finish-ok tenant key r new created replay (some e) w₀ w is_new aborted h =
      let (duplicate, is_true, replayed) = after_failure-ok tenant key r new replay e w h in
      let (message, is) = duplicate-is e duplicate in
      let after = contents (after_failure driver tenant key e w).1 in
      subst (λ b. IsOutcome tenant key r new b (contents w₀) after) (sym is_true)
        (subst (λ db. IsReplayed tenant key new db after) (aborted message (ap some is)) replayed)

  create_new-ok :
      (tenant key : String) (r new : Record) (replay : Bool) (w : W)
      → (create_new driver tenant key r w).0 ≡ ok (new, replay)
      → IsOutcome tenant key r new replay
          (contents w)
          (contents (create_new driver tenant key r w).1)
  unfolding create_new
  create_new-ok tenant key r new replay w h =
      let body = create_body driver tenant key r in
      let ended = driver.with_transaction body (zero_record, w) in
      finish-ok tenant key r new ended.1.0 replay ended.0 w ended.1.1
        (λ done.
          let (run, ran, variable, writes) = law.committed body zero_record w done in
          subst (λ x. IsNew driver contents law tenant key r x (contents w) (contents ended.1.1))
            (sym variable)
            (subst
              (IsNew driver contents law tenant key r (body (run.variable, run.start)).1.0
                (contents w))
              (sym writes)
              (subst
                (λ db.
                  IsNew driver contents law tenant key r (body (run.variable, run.start)).1.0 db
                    (contents (body (run.variable, run.start)).1.1))
                run.from (create_body-ok tenant key r run.variable run.start ran))))
        (law.aborted_duplicate body zero_record w) h

  replay_first-ok :
      (tenant key : String) (r : Record) (w : W)
      → (replay_first driver tenant key w).0 ≡ ok (some r)
      → (¬ (key ≡ "")) × IsReplay tenant key r (contents w)
  unfolding replay_first
  replay_first-ok tenant key r w h = elim (Text-cases key "") [
    | inl empty ↦
        let test = (eq_iff key "").1 empty in let h' = rw test at h in absurd (ground arith)
    | inr (full, test) ↦ (full, find_replay-ok driver contents law tenant key r w (rw test at h))
  ]

  pub replay_first-keeps :
      (tenant key : String) (w : W) → contents (replay_first driver tenant key w).1 ≡ contents w
  unfolding replay_first
  replay_first-keeps tenant key w = elim (Bool-cases (key == "")) [
    | inl on ↦ rw on refl
    | inr off ↦ rw off (find_replay-keeps driver contents law tenant key w)
  ]

  create_unless-ok :
      (tenant key : String) (r new : Record) (replay : Bool) (found : Option Record) (w₀ w : W)
      → ((existing : Record)
          → found ≡ some existing
          → (¬ (key ≡ "")) × IsReplay tenant key existing (contents w₀))
      → contents w ≡ contents w₀
      → (create_unless driver tenant key r found w).0 ≡ ok (new, replay)
      → IsOutcome tenant key r new replay
          (contents w₀)
          (contents (create_unless driver tenant key r found w).1)
  create_unless-ok tenant key r new replay (some existing) w₀ w is_replay kept h =
      let same = pure-ok {A = Record × Bool} (existing, true) (new, replay) w h in
      let (full, is) = is_replay existing refl in
      subst (λ p. IsOutcome tenant key r p.0 p.1 (contents w₀) (contents w)) same
        (record { has_key = full; is = is; keeps = kept })
  create_unless-ok tenant key r new replay none w₀ w is_replay kept h =
      let start = as_action driver.start_session in
      let (_, _, eq) = bind-ok start (λ _. create_new driver tenant key r) w (new, replay) h in
      let w₁ = (start w).1 in
      let same : contents w₁ ≡ contents w₀ = law.session_keeps w ∙ kept in
      subst (IsOutcome tenant key r new replay (contents w₀)) (ap (λ x. contents x.1) (sym eq)) (
        subst
          (λ db.
            IsOutcome tenant key r new replay db (contents (create_new driver tenant key r w₁).1))
          same (create_new-ok tenant key r new replay w₁ (ap (λ x. x.0) (sym eq) ∙ h)))

  -- Over a lawful driver, a record returned as new belongs to the calling tenant and to a workflow of
  -- that tenant, is in the workflow's first state at version 1, carries the key, the workflow and the
  -- data of the request, and is stored, with its times in milliseconds, with its idempotency document
  -- and both events, under an unused identifier and key; one returned as a replay is the tenant's,
  -- under an idempotency document of the tenant and the non-empty key, and nothing is written.
  pub create_record-IsOutcome :
      (tenant key : String) (r new : Record) (replay : Bool) (w : W)
      → (create_record driver tenant key r w).0 ≡ ok (new, replay)
      → IsOutcome tenant key r new replay
          (contents w)
          (contents (create_record driver tenant key r w).1)
  unfolding create_record
  create_record-IsOutcome tenant key r new replay w h =
      let m = replay_first driver tenant key in
      let f = create_unless driver tenant key r in
      let (found, first, eq) = bind-ok m f w (new, replay) h in
      subst (IsOutcome tenant key r new replay (contents w)) (ap (λ x. contents x.1) (sym eq)) (
        create_unless-ok tenant key r new replay found w (m w).1
          (λ existing is. replay_first-ok tenant key existing w (first ∙ ap ok is))
          (replay_first-keeps tenant key w) (ap (λ x. x.0) (sym eq) ∙ h))
