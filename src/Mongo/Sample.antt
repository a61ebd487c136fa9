-- ===== src/Mongo/Sample.antt =====
-- A driver over lists of documents, for the tests.
pub mod Proofs
use enterprise_workflow_plat.Common.{
  All, String, List, [], ◌∷◌, ◌++◌, Option, none, some, Bool, true, false, Result, ok, err, ◌≡◌,
  ◌⊎◌, suc, refl, sym, ap, subst, ◌∙◌, inl, inr, ℕ, ◌*◌, ◌+◌,
}
use enterprise_workflow_plat.Common.Decimal.{decimal}
use enterprise_workflow_plat.Domain.{Record}
use enterprise_workflow_plat.Store.{StoreError}
use enterprise_workflow_plat.Mongo.Bson.{matches, apply_update, Filter, Update}
use enterprise_workflow_plat.Mongo.Driver.{
  Collection, Driver, DriverError, MongoError, no_documents, duplicate_key, refused, driver_error,
}
use enterprise_workflow_plat.Mongo.Laws.{
  Database, changed, In, Lacks, Schema, IsCollection, Lawful, Run, Body, workflows_schema,
  records_schema, idempotency_schema, audit_schema, outbox_schema, notifications_schema,
}

-- The documents, and how many identifiers have been given out.
pub record World : Type 0 where
  pub database : Database
  pub given : ℕ

abbrev pub decided : (b : Bool) → (b ≡ true) ⊎ (b ≡ false)
decided true = inl refl
decided false = inr refl

module _ {A : Type 0} where
  pub record Located (p : A → Bool) (ds : List A) : Type 0 where
    pub document : A
    pub there : In document ds
    pub fits : p document ≡ true

  abbrev pub later : (p : A → Bool) (x : A) (ds : List A) → Located p ds → Located p (x ∷ ds)
  later p x ds l = record {
    document = l.document;
    there = record {
      before = x ∷ l.there.before;
      after = l.there.after;
      split = ap (λ ys. x ∷ ys) l.there.split;
    };
    fits = l.fits;
  }

  -- The first document that fits, or the proof that there is none.
  abbrev pub locate : (p : A → Bool) (ds : List A) → Located p ds ⊎ Lacks p ds
  locate p [] = inr tt
  locate p (x ∷ ds) =
      let rest = locate p ds in
      elim (decided (p x)) [
        | inl on ↦ inl (record {
          document = x;
          there = record { before = []; after = ds; split = refl };
          fits = on;
        })
        | inr off ↦ elim rest [ inl l ↦ inl (later p x ds l) | inr lacks ↦ inr (off, lacks) ]
      ]

  abbrev pub filtered : (p : A → Bool) (ds : List A) → List A
  filtered p [] = []
  filtered p (x ∷ ds) = let rest = filtered p ds in elim (p x) [ true ↦ x ∷ rest | false ↦ rest ]

  abbrev pub number_of : (ds : List A) → ℕ
  number_of [] = 0
  number_of (x ∷ ds) = suc (number_of ds)

  abbrev pub answer :
      {p : A → Bool} {ds : List A} → Located p ds ⊎ Lacks p ds → Result DriverError A
  answer (inl l) = ok l.document
  answer (inr _) = err no_documents

module _ {A : Type 0} (schema : Schema A) where
  abbrev pub stored : World → List A
  stored w = schema.get w.database

  abbrev pub with_stored : List A → World → World
  with_stored ds w = record w { database = schema.put ds w.database }

  abbrev pub search :
      (f : Filter) (w : World)
      → Located (matches schema.field f) (stored w) ⊎ Lacks (matches schema.field f) (stored w)
  search f w = locate (matches schema.field f) (stored w)

  abbrev pub insert_unless :
      {p : A → Bool} (d : A) (w : World)
      → Located p (stored w) ⊎ Lacks p (stored w)
      → Option DriverError × World
  insert_unless d w (inl _) = (some (duplicate_key "E11000 duplicate key error"), w)
  insert_unless d w (inr _) = (none, with_stored (stored w ++ schema.kept d ∷ []) w)

  abbrev pub update_found :
      {p : A → Bool} (u : Update) (w : World)
      → Located p (stored w) ⊎ Lacks p (stored w)
      → Result DriverError A × World
  update_found u w (inl l) =
      let d = apply_update schema.change u l.document in
      (ok d, with_stored (l.there.before ++ d ∷ l.there.after) w)
  update_found u w (inr _) = (err no_documents, w)

  abbrev update_quietly : Result DriverError A × World → Option DriverError × World
  update_quietly (_, w) = (none, w)

  abbrev pub sample_collection : Collection World A
  sample_collection = record {
    find_one = λ f w. (answer (search f w), w);
    find = λ f _ _ w. (ok (filtered (matches schema.field f) (stored w)), w);
    insert_one = λ d w. insert_unless d w (locate (λ x. schema.excludes x d) (stored w));
    find_one_and_update = λ f u w. update_found u w (search f w);
    update_one = λ f u w. update_quietly (update_found u w (search f w));
    update_many = λ f u w. (
      none,
      with_stored (changed (matches schema.field f) (apply_update schema.change u) (stored w)) w,
    );
    count_documents = λ f w. (ok (number_of (filtered (matches schema.field f) (stored w))), w);
  }

abbrev pub ended :
    Record × World → Option MongoError × (Record × World) → Option MongoError × (Record × World)
ended s (none, s') = (none, s')
ended (_, w) (some e, (r, _)) = (some e, (r, w))

abbrev pub sample_driver : Driver World
sample_driver = record {
  workflows = sample_collection workflows_schema;
  records = sample_collection records_schema;
  idempotency = sample_collection idempotency_schema;
  audit = sample_collection audit_schema;
  outbox = sample_collection outbox_schema;
  notifications = sample_collection notifications_schema;
  new_object_id = λ w. (decimal w.given, record w { given = suc w.given });
  now = λ w. w.given * 1500000 + 1;
  start_session = λ w. (none, w);
  with_transaction = λ body s. ended s (body s);
}
