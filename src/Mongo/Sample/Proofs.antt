-- ===== src/Mongo/Sample/Proofs.antt =====
-- Every law of the parameter holds of the sample driver.
use enterprise_workflow_plat.Common.{
  All, String, List, [], ◌∷◌, ◌++◌, Option, none, some, Bool, true, false, Result, ok, err, ◌≡◌,
  ◌⊎◌, refl, sym, ap, subst, ◌∙◌, inl, inr,
}
use enterprise_workflow_plat.Domain.{Record}
use enterprise_workflow_plat.Store.{StoreError}
use enterprise_workflow_plat.Mongo.Bson.{matches, apply_update, Update}
use enterprise_workflow_plat.Mongo.Driver.{
  DriverError, MongoError, no_documents, duplicate_key, refused, driver_error,
}
use enterprise_workflow_plat.Mongo.Laws.{
  In, Lacks, Schema, IsCollection, Lawful, Run, Body, workflows_schema, records_schema,
  idempotency_schema, audit_schema, outbox_schema, notifications_schema,
}
use enterprise_workflow_plat.Mongo.Sample.{
  World, Located, locate, filtered, answer, stored, search, insert_unless, update_found, ended,
  decided, sample_collection, sample_driver,
}

module _ {A : Type 0} (schema : Schema A) where
  answer_is :
      {p : A → Bool} {ds : List A} (l : Located p ds ⊎ Lacks p ds) (d : A)
      → answer l ≡ ok d
      → In d ds × (p d ≡ true)
  answer_is {p} {ds} (inl l) d h =
      let same : l.document ≡ d = cc in
      (subst (λ x. In x ds) same l.there, ap p (sym same) ∙ l.fits)
  answer_is (inr lacks) d h = cc

  missing_is :
      {p : A → Bool} {ds : List A} (l : Located p ds ⊎ Lacks p ds)
      → answer l ≡ err no_documents
      → Lacks p ds
  missing_is (inl l) h = cc
  missing_is (inr lacks) h = lacks

  insert_is :
      {p : A → Bool} (d : A) (w : World)
      (l : Located p (stored schema w) ⊎ Lacks p (stored schema w))
      → (insert_unless schema d w l).0 ≡ none
      → ((insert_unless schema d w l).1.database
          ≡ schema.put (stored schema w ++ schema.kept d ∷ []) w.database)
        × Lacks p (stored schema w)
  insert_is d w (inl l) h = cc
  insert_is d w (inr lacks) h = (refl, lacks)

  in_lacks :
      (p : A → Bool) (before after : List A) (d : A) → Lacks p (before ++ d ∷ after) → p d ≡ false
  in_lacks p [] after d lacks = lacks.0
  in_lacks p (x ∷ before) after d lacks = in_lacks p before after d lacks.1

  located-ne-lacks : {p : A → Bool} {ds : List A} → Located p ds → ¬ Lacks p ds
  located-ne-lacks {p} l lacks =
      let off =
        in_lacks p l.there.before l.there.after l.document (subst (Lacks p) l.there.split lacks) in
      cc (sym l.fits ∙ off)

  refuse_is :
      {p : A → Bool} (d : A) (w : World)
      (l : Located p (stored schema w) ⊎ Lacks p (stored schema w)) (message : String)
      → (insert_unless schema d w l).0 ≡ some (duplicate_key message)
      → ((insert_unless schema d w l).1.database ≡ w.database) × (¬ Lacks p (stored schema w))
  refuse_is d w (inl l) message h = (refl, located-ne-lacks l)
  refuse_is d w (inr lacks) message h = cc

  update_is :
      {p : A → Bool} (u : Update) (w : World)
      (l : Located p (stored schema w) ⊎ Lacks p (stored schema w)) (d : A)
      → (update_found schema u w l).0 ≡ ok d
      → (old : A) × (there : In old (stored schema w)) × (p old ≡ true)
        × (d ≡ apply_update schema.change u old)
        × ((update_found schema u w l).1.database
            ≡ schema.put (there.before ++ d ∷ there.after) w.database)
  update_is u w (inl l) d h =
      let same : apply_update schema.change u l.document ≡ d = cc in
      (
        l.document,
        l.there,
        l.fits,
        sym same,
        ap (λ x. schema.put (l.there.before ++ x ∷ l.there.after) w.database) same,
      )
  update_is u w (inr lacks) d h = cc

  absent_is :
      {p : A → Bool} (u : Update) (w : World)
      (l : Located p (stored schema w) ⊎ Lacks p (stored schema w))
      → (update_found schema u w l).0 ≡ err no_documents
      → Lacks p (stored schema w)
  absent_is u w (inl l) h = cc
  absent_is u w (inr lacks) h = lacks

  in_later : (x d : A) (ds : List A) → In d ds → In d (x ∷ ds)
  in_later x d ds there = record {
    before = x ∷ there.before;
    after = there.after;
    split = ap (λ ys. x ∷ ys) there.split;
  }

  in_first : (d : A) (ds : List A) → In d (d ∷ ds)
  in_first d ds = record { before = []; after = ds; split = refl }

  filtered_later :
      (p : A → Bool) (x : A) (ds xs : List A)
      → All (λ d. In d ds × (p d ≡ true)) xs
      → All (λ d. In d (x ∷ ds) × (p d ≡ true)) xs
  filtered_later p x ds [] all = tt
  filtered_later p x ds (y ∷ xs) all =
      ((in_later x y ds all.0.0, all.0.1), filtered_later p x ds xs all.1)

  filtered_is : (p : A → Bool) (ds : List A) → All (λ d. In d ds × (p d ≡ true)) (filtered p ds)
  filtered_is p [] = tt
  filtered_is p (x ∷ ds) =
      let rest = filtered_later p x ds (filtered p ds) (filtered_is p ds) in
      elim (decided (p x)) [
        | inl on ↦
            let same : filtered p (x ∷ ds) ≡ x ∷ filtered p ds = rw (on, filtered) refl in
            subst (All (λ d. In d (x ∷ ds) × (p d ≡ true))) (sym same) ((in_first x ds, on), rest)
        | inr off ↦
            let same : filtered p (x ∷ ds) ≡ filtered p ds = rw (off, filtered) refl in
            subst (All (λ d. In d (x ∷ ds) × (p d ≡ true))) (sym same) rest
      ]

  filtered_all :
      (p : A → Bool) (before after : List A) (d : A)
      → p d ≡ true
      → In d (filtered p (before ++ d ∷ after))
  filtered_all p [] after d fits = rw fits (in_first d (filtered p after))
  filtered_all p (x ∷ before) after d fits =
      let rest = filtered_all p before after d fits in
      elim (decided (p x)) [
        | inl on ↦ rw on (in_later x d (filtered p (before ++ d ∷ after)) rest)
        | inr off ↦ rw off rest
      ]

  found_is :
      (p : A → Bool) (ds found : List A)
      → filtered p ds ≡ found
      → All (λ d. In d ds × (p d ≡ true)) found
  found_is p ds found same = subst (All (λ d. In d ds × (p d ≡ true))) same (filtered_is p ds)

  found_all :
      (p : A → Bool) (ds found : List A) (d : A)
      → filtered p ds ≡ found
      → In d ds
      → p d ≡ true
      → In d found
  found_all p ds found d same there fits =
      subst (In d) (ap (filtered p) (sym there.split) ∙ same)
        (filtered_all p there.before there.after d fits)

  done_is : (xs ys : List A) → ◌≡◌ {A = Result DriverError (List A)} (ok xs) (ok ys) → xs ≡ ys
  done_is xs ys h = cc

  pub sample_collection-IsCollection :
      IsCollection (λ w. w.database) schema (sample_collection schema)
  sample_collection-IsCollection = record {
    find_one_keeps = λ f w. refl;
    find_one_found = λ f w. answer_is (search schema f w);
    find_one_missing = λ f w. missing_is (search schema f w);
    find_done = λ f order limit w ds h.
        (refl, found_is (matches schema.field f) (stored schema w) ds (done_is _ ds h));
    find_all = λ f order limit w ds h _ d.
        found_all (matches schema.field f) (stored schema w) ds d (done_is _ ds h);
    update_many_done = λ f u w h. refl;
    insert_done = λ d w. insert_is d w (locate (λ x. schema.excludes x d) (stored schema w));
    insert_duplicate =
        λ d w message. refuse_is d w (locate (λ x. schema.excludes x d) (stored schema w)) message;
    find_one_and_update_done = λ f u w. update_is u w (search schema f w);
    find_one_and_update_missing = λ f u w. absent_is u w (search schema f w);
  }

module _ (body : Body World) (r : Record) (w : World) where
  committed_is :
      (o : Option MongoError × (Record × World))
      → body (r, w) ≡ o
      → (ended (r, w) o).0 ≡ none
      → (run : Run sample_driver (λ x. x.database) body w) × ((body (run.variable, run.start)).0
          ≡ none)
        × ((ended (r, w) o).1.0 ≡ (body (run.variable, run.start)).1.0)
        × ((ended (r, w) o).1.1.database ≡ (body (run.variable, run.start)).1.1.database)
  committed_is (none, s) ran h = (
    record { variable = r; start = w; from = refl },
    ap (λ x. x.0) ran,
    ap (λ x. x.1.0) (sym ran),
    ap (λ x. x.1.1.database) (sym ran),
  )
  committed_is (some e, s) ran h = cc

  aborted_is :
      (o : Option MongoError × (Record × World)) (e : StoreError)
      → body (r, w) ≡ o
      → (ended (r, w) o).0 ≡ some (refused e)
      → (run : Run sample_driver (λ x. x.database) body w) × ((body (run.variable, run.start)).0
          ≡ some (refused e))
        × ((ended (r, w) o).1.1.database ≡ w.database)
  aborted_is (none, s) e ran h = cc
  aborted_is (some x, (r', s)) e ran h =
      (record { variable = r; start = w; from = refl }, ap (λ x. x.0) ran ∙ h, refl)

  duplicate_is :
      (o : Option MongoError × (Record × World)) (message : String)
      → (ended (r, w) o).0 ≡ some (driver_error (duplicate_key message))
      → (ended (r, w) o).1.1.database ≡ w.database
  duplicate_is (none, s) message h = cc
  duplicate_is (some x, (r', s)) message h = refl

pub sample_driver-Lawful : Lawful sample_driver (λ w. w.database)
sample_driver-Lawful = record {
  workflows = sample_collection-IsCollection workflows_schema;
  records = sample_collection-IsCollection records_schema;
  idempotency = sample_collection-IsCollection idempotency_schema;
  audit = sample_collection-IsCollection audit_schema;
  outbox = sample_collection-IsCollection outbox_schema;
  notifications = sample_collection-IsCollection notifications_schema;
  ids_keep = λ w. refl;
  session_keeps = λ w. refl;
  committed = λ body r w. committed_is body r w (body (r, w)) refl;
  aborted = λ body r w e. aborted_is body r w (body (r, w)) e refl;
  aborted_duplicate = λ body r w. duplicate_is body r w (body (r, w));
}
