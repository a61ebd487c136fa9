-- ===== src/Mongo/Pending.antt =====
-- The pending events of the database, and what marking a batch of them leaves.
use enterprise_workflow_plat.Common.{
  ℕ, suc, ◌<◌, ◌≤◌, String, List, [], ◌∷◌, ◌++◌, none, some, Bool, true, false, ◌≡◌, ◌≢◌, refl, sym,
  ◌∙◌, ap, subst, arith, eq_refl, contains, map, length, All, ok, Bool-cases, inl, inr,
  if◌then◌else◌,
}
use enterprise_workflow_plat.Common.Int64.{is_positive}
use enterprise_workflow_plat.Domain.{Time, Int64, OutboxEvent}
use enterprise_workflow_plat.Mongo.Bson.{
  Filter, missing, one_of, matches, holds, apply_update, change_outbox, outbox_field, ascending,
}
use enterprise_workflow_plat.Mongo.Driver.{Driver}
use enterprise_workflow_plat.Mongo.Action.{with_error-ok, failure-ok}
use enterprise_workflow_plat.Mongo.Outbox.{
  list_pending_outbox, mark_outbox_published_batch, published_at,
}
use enterprise_workflow_plat.Mongo.Laws.{Database, changed, In, Lawful}

abbrev pub is_pending : OutboxEvent → Bool
is_pending d = elim d.published_at [ none ↦ true | some _ ↦ false ]

-- How many documents fit.
abbrev pub number_of : {A : Type 0} → (A → Bool) → List A → ℕ
number_of p [] = 0
number_of p (d ∷ ds) = elim (p d) [ true ↦ suc (number_of p ds) | false ↦ number_of p ds ]

abbrev pub pending_count : Database → ℕ
pending_count db = number_of is_pending db.outbox

module _ {A : Type 0} (p q : A → Bool) (change : A → A)
    (changes : (d : A) → p (change d) ≡ false) where
  number_of-changed-le : (ds : List A) → number_of p (changed q change ds) ≤ number_of p ds
  number_of-changed-le [] = omega arith
  number_of-changed-le (d ∷ ds) =
      let rest = number_of-changed-le ds in
      elim (Bool-cases (q d)) [
        | inl on ↦ elim (Bool-cases (p d)) [
          | inl fits ↦ rw (on, changes d, fits, number_of) (omega arith)
          | inr off ↦ rw (on, changes d, off, number_of) rest
        ]
        | inr off ↦ elim (Bool-cases (p d)) [
          | inl fits ↦ rw (off, fits, number_of) (omega arith)
          | inr not_fits ↦ rw (off, not_fits, number_of) rest
        ]
      ]

  -- Changing one that fits leaves fewer.
  number_of-changed-lt :
      (before after : List A) (d : A)
      → p d ≡ true
      → q d ≡ true
      → number_of p (changed q change (before ++ d ∷ after)) < number_of p (before ++ d ∷ after)
  number_of-changed-lt [] after d fits on =
      let rest = number_of-changed-le after in rw (on, changes d, fits) (omega arith)
  number_of-changed-lt (x ∷ before) after d fits on =
      let rest = number_of-changed-lt before after d fits on in
      elim (Bool-cases (q x)) [
        | inl on_x ↦ elim (Bool-cases (p x)) [
          | inl fits_x ↦ rw (on_x, changes x, fits_x) (omega arith)
          | inr off_x ↦ rw (on_x, changes x, off_x) rest
        ]
        | inr off_x ↦ elim (Bool-cases (p x)) [
          | inl fits_x ↦ rw (off_x, fits_x) (omega arith)
          | inr not_x ↦ rw (off_x, not_x) rest
        ]
      ]

  -- Changing all that fit leaves none.
  number_of-changed-zero :
      (ds : List A)
      → ((d : A) → In d ds → p d ≡ true → q d ≡ true)
      → number_of p (changed q change ds) ≡ 0
  number_of-changed-zero [] all = refl
  number_of-changed-zero (x ∷ ds) all =
      let first : In x (x ∷ ds) = record { before = []; after = ds; split = refl } in
      let rest = number_of-changed-zero ds (λ d there. all d (record {
        before = x ∷ there.before;
        after = there.after;
        split = ap (λ ys. x ∷ ys) there.split;
      })) in
      elim (Bool-cases (q x)) [
        | inl on ↦ rw (on, changes x) rest
        | inr off ↦ elim (Bool-cases (p x)) [
          | inl fits ↦ cc (sym off ∙ all x first fits)
          | inr not_fits ↦ rw (off, not_fits) rest
        ]
      ]

nil-split : {A : Type 0} (before after : List A) (d : A) → ◌≢◌ {A = List A} [] (before ++ d ∷ after)
nil-split [] after d h = cc
nil-split (x ∷ before) after d h = cc

pub number_of-zero :
    {A : Type 0} (p : A → Bool) (ds : List A)
    → ((d : A) → In d ds → p d ≡ true → In d [])
    → number_of p ds ≡ 0
number_of-zero p [] none_fits = refl
number_of-zero p (x ∷ ds) none_fits =
    let rest = number_of-zero p ds (λ d there. none_fits d (record {
      before = x ∷ there.before;
      after = there.after;
      split = ap (λ ys. x ∷ ys) there.split;
    })) in
    elim (Bool-cases (p x)) [
      | inl fits ↦
          let there = none_fits x (record { before = []; after = ds; split = refl }) fits in
          absurd (nil-split there.before there.after x there.split)
      | inr off ↦ rw (off, number_of) rest
    ]

published-ne-pending :
    (now : Time) (d : OutboxEvent)
    → is_pending (apply_update change_outbox (published_at now) d) ≡ false
unfolding apply_update change_outbox
published-ne-pending now d = refl

-- The filter of `ListPendingOutbox` finds the pending events.
pending_of :
    (d : OutboxEvent) → matches outbox_field (("publishedAt", missing) ∷ []) d ≡ is_pending d
unfolding matches holds outbox_field
pending_of d =
    elim d.published_at
      as (λ o.
        matches outbox_field (("publishedAt", missing) ∷ []) (record d { published_at = o })
        ≡ is_pending (record d { published_at = o })) [ none ↦ refl | some t ↦ refl ]

chosen_of :
    (ids : List String) (d : OutboxEvent)
    → matches outbox_field (("_id", one_of ids) ∷ []) d ≡ contains ids d.id
unfolding matches holds outbox_field
chosen_of ids d = ground arith

-- The identifier of a listed event is among those that are marked.
chosen :
    (before after : List OutboxEvent) (d : OutboxEvent)
    → contains (map (λ (e : OutboxEvent). e.id) (before ++ d ∷ after)) d.id ≡ true
unfolding contains
chosen [] after d = rw (eq_refl d.id) refl
chosen (x ∷ before) after d = let rest = chosen before after d in ground arith

module _ {W : Type 0} (driver : Driver W) (contents : W → Database)
    (law : Lawful driver contents) where
  -- Pending events of the outbox, all of them if they are fewer than the limit.
  pub record IsListed (limit : Int64) (items : List OutboxEvent) (db : Database) : Type 0 where
    pub pending : All (λ d. In d db.outbox × (is_pending d ≡ true)) items
    pub complete :
        length items < limit → (d : OutboxEvent) → In d db.outbox → is_pending d ≡ true → In d items

  listed_pending :
      (db : Database) (items : List OutboxEvent)
      → All
          (λ d. In d db.outbox × (matches outbox_field (("publishedAt", missing) ∷ []) d ≡ true))
          items
      → All (λ d. In d db.outbox × (is_pending d ≡ true)) items
  listed_pending db [] all = tt
  listed_pending db (d ∷ items) all =
      ((all.0.0, sym (pending_of d) ∙ all.0.1), listed_pending db items all.1)

  pub list_pending_outbox-IsListed :
      (limit : Int64) (items : List OutboxEvent) (w : W)
      → is_positive limit ≡ true
      → (list_pending_outbox driver limit w).0 ≡ ok items
      → (contents (list_pending_outbox driver limit w).1 ≡ contents w)
        × IsListed limit items (contents w)
  unfolding list_pending_outbox
  list_pending_outbox-IsListed limit items w positive h =
      let filter : Filter = ("publishedAt", missing) ∷ [] in
      let order = some ("createdAt", ascending) in
      let same : (if is_positive limit then limit else 100) ≡ limit = rw positive refl in
      let find = λ (l : Int64). driver.outbox.find filter order l w in
      let found : (find limit).0 ≡ ok items =
        ap (λ l. (find l).0) (sym same) ∙ with_error-ok (find _).0 items h in
      let (keeps, all) = law.outbox.find_done filter order limit w items found in
      (
        ap (λ l. contents (find l).1) same ∙ keeps,
        record {
          pending = listed_pending (contents w) items all;
          complete = λ short d there fits.
              law.outbox.find_all filter order limit w items found short d there
                (pending_of d ∙ fits);
        },
      )

  -- The outbox after a batch was marked.
  marked-outbox :
      (first : OutboxEvent) (more : List OutboxEvent) (w : W)
      → let ids = map (λ (e : OutboxEvent). e.id) (first ∷ more) in
        (mark_outbox_published_batch driver ids w).0 ≡ ok tt
        → (contents (mark_outbox_published_batch driver ids w).1).outbox
          ≡ changed
              (matches outbox_field (("_id", one_of ids) ∷ []))
              (apply_update change_outbox (published_at (driver.now w)))
              (contents w).outbox
  unfolding mark_outbox_published_batch
  marked-outbox first more w h =
      let ids = map (λ (e : OutboxEvent). e.id) (first ∷ more) in
      let filter : Filter = ("_id", one_of ids) ∷ [] in
      let update = published_at (driver.now w) in
      ap (λ (db : Database). db.outbox)
        (law.outbox.update_many_done filter update w
          (failure-ok (driver.outbox.update_many filter update w).0 h))

  pub marked-lt :
      (first : OutboxEvent) (more : List OutboxEvent) (w : W)
      → let ids = map (λ (e : OutboxEvent). e.id) (first ∷ more) in
        In first (contents w).outbox
        → is_pending first ≡ true
        → (mark_outbox_published_batch driver ids w).0 ≡ ok tt
        → pending_count (contents (mark_outbox_published_batch driver ids w).1)
          < pending_count (contents w)
  marked-lt first more w there fits h =
      let ids = map (λ (e : OutboxEvent). e.id) (first ∷ more) in
      let q = matches outbox_field (("_id", one_of ids) ∷ []) in
      let change = apply_update change_outbox (published_at (driver.now w)) in
      let less =
        number_of-changed-lt is_pending q change (published-ne-pending (driver.now w)) there.before
          there.after first fits (chosen_of ids first ∙ chosen [] more first) in
      subst (λ n. n < pending_count (contents w))
        (ap (number_of is_pending) (sym (marked-outbox first more w h)))
        (subst (λ ds. number_of is_pending (changed q change ds) < number_of is_pending ds)
          (sym there.split) less)

  pub marked-zero :
      (first : OutboxEvent) (more : List OutboxEvent) (w : W)
      → let ids = map (λ (e : OutboxEvent). e.id) (first ∷ more) in
        ((d : OutboxEvent) → In d (contents w).outbox → is_pending d ≡ true → In d (first ∷ more))
        → (mark_outbox_published_batch driver ids w).0 ≡ ok tt
        → pending_count (contents (mark_outbox_published_batch driver ids w).1) ≡ 0
  marked-zero first more w all h =
      let ids = map (λ (e : OutboxEvent). e.id) (first ∷ more) in
      let q = matches outbox_field (("_id", one_of ids) ∷ []) in
      let change = apply_update change_outbox (published_at (driver.now w)) in
      ap (number_of is_pending) (marked-outbox first more w h)
      ∙ number_of-changed-zero is_pending q change (published-ne-pending (driver.now w))
          (contents w).outbox
          (λ d there fits.
            let listed = all d there fits in
            chosen_of ids d
            ∙ ap (λ xs. contains (map (λ (e : OutboxEvent). e.id) xs) d.id) listed.split
            ∙ chosen listed.before listed.after d)
