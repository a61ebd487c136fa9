-- ===== src/Mongo/Repeat.antt =====
-- A second `CreateRecord` of `MongoStore` with the key of a first.
use enterprise_workflow_plat.Common.{
  String, List, [], ◌∷◌, ◌++◌, Bool, true, false, ◌==◌, ◌&&◌, ok, ◌≡◌, refl, sym, ◌∙◌, ap, subst,
  inl, inr, arith, eq_iff, Text-cases, Bool-cases,
}
use enterprise_workflow_plat.Domain.{Time, Record}
use enterprise_workflow_plat.Mongo.Bson.{IdempotencyDoc, millis, stored_record}
use enterprise_workflow_plat.Mongo.Driver.{Driver}
use enterprise_workflow_plat.Mongo.Create.{create_record}
use enterprise_workflow_plat.Mongo.Laws.{Database, Lacks, Lawful}
use enterprise_workflow_plat.Mongo.Created.{IsNew, add_key, add_record}
use enterprise_workflow_plat.Mongo.Replay.{IsReplay}
use enterprise_workflow_plat.Mongo.Outcome.{IsOutcome, create_record-IsOutcome}

-- A document of a list that the list before its last one lacks is that last one.
last-is :
    {A : Type 0} (p : A → Bool) (ds before after : List A) (d x : A)
    → ds ++ x ∷ [] ≡ before ++ d ∷ after
    → Lacks p ds
    → p d ≡ true
    → d ≡ x
last-is p [] [] after d x split lacks fits = cc
last-is p [] (b ∷ []) after d x split lacks fits = cc
last-is p [] (b ∷ c ∷ bs) after d x split lacks fits = cc
last-is p (y ∷ ys) [] after d x split lacks fits =
    let same : y ≡ d = cc in let bad : p y ≡ true = ap p same ∙ fits in cc
last-is p (y ∷ ys) (b ∷ bs) after d x split lacks fits =
    let rest : ys ++ x ∷ [] ≡ bs ++ d ∷ after = cc in last-is p ys bs after d x rest lacks.1 fits

pub last-lacks :
    {A : Type 0} (p : A → Bool) (ds : List A) (x : A) → Lacks p (ds ++ x ∷ []) → p x ≡ false
last-lacks p [] x lacks = lacks.0
last-lacks p (y ∷ ys) x lacks = last-lacks p ys x lacks.1

key-added :
    (now : Time) (r : Record) (db : Database)
    → ¬ (r.idempotency ≡ "")
    → (add_key now r db).idempotency
      ≡ db.idempotency
        ++ record {
          tenant_id = r.tenant_id;
          key = r.idempotency;
          record_id = r.id;
          created_at = now;
        }
          ∷ []
key-added now r db full = elim (Text-cases r.idempotency "") [
  | inl empty ↦ absurd (full empty)
  | inr (_, test) ↦ rw test refl
]

pub key-keeps : (now : Time) (r : Record) (db : Database) → (add_key now r db).records ≡ db.records
key-keeps now r db = elim (Bool-cases (r.idempotency == "")) [
  | inl on ↦ rw on refl
  | inr off ↦ rw off refl
]

both-hold : (x tenant y key : String) → x ≡ tenant → y ≡ key → (x == tenant && y == key) ≡ true
both-hold x tenant y key e h = ground (arith, eq_iff x tenant, eq_iff y key)

-- A creation's record as it is stored and its idempotency document, the only ones of their kind.
record IsKept (tenant key : String) (new : Record) (before after : Database) : Type 0 where
  entry : IdempotencyDoc
  entries : after.idempotency ≡ before.idempotency ++ entry ∷ []
  record_is : entry.record_id ≡ new.id
  entry_tenant : entry.tenant_id ≡ tenant
  entry_key : entry.key ≡ key
  no_entry : Lacks (λ x. x.tenant_id == tenant && x.key == key) before.idempotency
  records : after.records ≡ before.records ++ stored_record new ∷ []
  no_record : Lacks (λ x. x.id == new.id) before.records

module _ {W : Type 0} (driver : Driver W) (contents : W → Database)
    (law : Lawful driver contents) where
  new-IsKept :
      (tenant key : String) (r new : Record) (before after : Database)
      → ¬ (key ≡ "")
      → IsNew driver contents law tenant key r new before after
      → IsKept tenant key new before after
  new-IsKept tenant key r new before after full n =
      let key_is = n.key_is in
      let tenant_is = n.tenant_is in
      let has_key : ¬ (new.idempotency ≡ "") = λ empty. full (sym key_is ∙ empty) in
      let writes = n.stored.logged.writes in
      record {
        entry = record {
          tenant_id = new.tenant_id;
          key = new.idempotency;
          record_id = new.id;
          created_at = millis n.time;
        };
        entries =
            ap (λ db. db.idempotency) writes
            ∙ key-added (millis n.time) new (add_record (stored_record new) before) has_key;
        record_is = refl;
        entry_tenant = tenant_is;
        entry_key = key_is;
        no_entry = elim n.stored.new_key [
          | inl empty ↦ absurd (has_key empty)
          | inr lacks ↦
              subst (λ k. Lacks (λ x. x.tenant_id == tenant && x.key == k) before.idempotency)
                key_is
                (subst
                  (λ t.
                    Lacks (λ x. x.tenant_id == t && x.key == new.idempotency) before.idempotency)
                  tenant_is lacks)
        ];
        records =
            ap (λ db. db.records) writes
            ∙ key-keeps (millis n.time) new (add_record (stored_record new) before);
        no_record = n.stored.new_id;
      }

  IsKept-ne-IsNew :
      (tenant key : String) (r new again : Record) (before middle after : Database)
      → IsKept tenant key new before middle
      → ¬ (key ≡ "")
      → ¬ IsNew driver contents law tenant key r again middle after
  IsKept-ne-IsNew tenant key r new again before middle after kept full n =
      let p : IdempotencyDoc → Bool = λ x. x.tenant_id == tenant && x.key == key in
      let free = (new-IsKept tenant key r again middle after full n).no_entry in
      let last = last-lacks p before.idempotency kept.entry (subst (Lacks p) kept.entries free) in
      let held =
        both-hold kept.entry.tenant_id tenant kept.entry.key key kept.entry_tenant kept.entry_key in
      cc

  IsKept-IsReplay :
      (tenant key : String) (new again : Record) (before after : Database)
      → IsKept tenant key new before after
      → IsReplay tenant key again after
      → again ≡ stored_record new
  IsKept-IsReplay tenant key new again before after kept replay =
      let has : (λ (x : IdempotencyDoc). x.tenant_id == tenant && x.key == key) replay.entry
          ≡ true =
        both-hold replay.entry.tenant_id tenant replay.entry.key key replay.entry_tenant
          replay.entry_key in
      let entry_is =
        last-is (λ x. x.tenant_id == tenant && x.key == key) before.idempotency replay.there.before
          replay.there.after replay.entry kept.entry (sym kept.entries ∙ replay.there.split)
          kept.no_entry has in
      let id : again.id ≡ new.id =
        sym replay.named ∙ ap (λ x. x.record_id) entry_is ∙ kept.record_is in
      last-is (λ x. x.id == new.id) before.records replay.stored.before replay.stored.after again
        (stored_record new) (sym kept.records ∙ replay.stored.split) kept.no_record
        ((eq_iff again.id new.id).1 id)

  repeat_is :
      (tenant key : String) (r new again : Record) (replay : Bool) (before middle after : Database)
      → ¬ (key ≡ "")
      → IsKept tenant key new before middle
      → IsOutcome driver contents law tenant key r again replay middle after
      → (again ≡ stored_record new) × (replay ≡ true) × (after ≡ middle)
  repeat_is tenant key r new again true before middle after full kept outcome =
      (IsKept-IsReplay tenant key new again before middle kept outcome.is, refl, outcome.keeps)
  repeat_is tenant key r new again false before middle after full kept outcome =
      absurd (IsKept-ne-IsNew tenant key r new again before middle after kept full outcome)

  -- Over a lawful driver, if a creation under a non-empty key made a record and nothing was written
  -- since, a creation of the same tenant under the key that returns a record returns that one, with
  -- its times in milliseconds, as a replay, and writes nothing.
  pub create_record-create_record :
      (tenant key : String) (r r' new again : Record) (replay : Bool) (w w' : W)
      → ¬ (key ≡ "")
      → (create_record driver tenant key r w).0 ≡ ok (new, false)
      → contents w' ≡ contents (create_record driver tenant key r w).1
      → (create_record driver tenant key r' w').0 ≡ ok (again, replay)
      → (again ≡ stored_record new)
        × (replay ≡ true)
        × (contents (create_record driver tenant key r' w').1 ≡ contents w')
  create_record-create_record tenant key r r' new again replay w w' full first kept second =
      let created =
        new-IsKept tenant key r new (contents w) _ full
          (create_record-IsOutcome driver contents law tenant key r new false w first) in
      repeat_is tenant key r' new again replay (contents w) (contents w')
        (contents (create_record driver tenant key r' w').1) full
        (subst (IsKept tenant key new (contents w)) (sym kept) created)
        (create_record-IsOutcome driver contents law tenant key r' again replay w' second)
