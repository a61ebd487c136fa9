-- ===== src/Mongo/Past.antt =====
-- How far the version of a record has moved, on views of the database by identifiers.
use enterprise_workflow_plat.Common.{
  ℕ, ◌+◌, ◌≤◌, ◌<◌, ◌%◌, String, Option, none, some, ◌≡◌, sym, ◌∙◌, ap, inl, inr, arith, Text-cases,
}
use enterprise_workflow_plat.Common.Int64.{two_64, inc64}
use enterprise_workflow_plat.Domain.{Record, Int64}
use enterprise_workflow_plat.Domain.Value.{Members}
use enterprise_workflow_plat.Store.Spec.{Catalog, IsCreation, IsUpdate}

-- The record under `id` is some versions after `version`, `most` at most.
pub record IsPast (id : String) (version : Int64) (most : ℕ) (c : Catalog) : Type 0 where
  pub current : Record
  pub there : c.record_of id ≡ some current
  pub steps : ℕ
  pub at_least : 1 ≤ steps
  pub at_most : steps ≤ most
  pub version_is : current.version ≡ (version + steps) % two_64

pub IsPast-kept :
    (id : String) (version : Int64) (most : ℕ) (a b : Catalog)
    → IsPast id version most a
    → b.record_of id ≡ a.record_of id
    → IsPast id version (most + 1) b
IsPast-kept id version most a b past same = record {
  current = past.current;
  there = same ∙ past.there;
  steps = past.steps;
  at_least = past.at_least;
  at_most = omega (arith, past.at_most);
  version_is = past.version_is;
}

pub IsPast-within :
    (id : String) (version : Int64) (most more : ℕ) (c : Catalog)
    → most ≤ more
    → IsPast id version most c
    → IsPast id version more c
IsPast-within id version most more c h past = record {
  current = past.current;
  there = past.there;
  steps = past.steps;
  at_least = past.at_least;
  at_most = omega (arith, past.at_most);
  version_is = past.version_is;
}

-- Fewer steps than there are versions do not lead back.
pub past-ne :
    (version steps n : ℕ)
    → (version + steps) % two_64 ≡ version
    → 1 ≤ steps
    → steps ≤ 1 + n
    → n + 1 < two_64
    → ¬ (version < two_64)
past-ne version steps n e some_one most few bound = omega arith

-- An update of the record is one version further.
pub next-version :
    (version steps old : ℕ)
    → old ≡ (version + steps) % two_64
    → inc64 old ≡ (version + (steps + 1)) % two_64
unfolding inc64
next-version version steps old e = omega arith

pub IsPast-created :
    (id tenant key : String) (version : Int64) (most : ℕ) (r new kept : Record) (a b : Catalog)
    → IsPast id version most a
    → IsCreation tenant key r new kept a b
    → IsPast id version (most + 1) b
IsPast-created id tenant key version most r new kept a b past made =
    IsPast-kept id version most a b past (
      made.writes.others id (λ e.
        let found : a.record_of id ≡ none = ap a.record_of e ∙ made.unused in
        cc (sym found ∙ past.there)))

pub IsPast-updated :
    (id tenant other : String) (version expected : Int64) (most : ℕ) (state : String)
    (new_data : Option Members) (new : Record) (a b : Catalog)
    → IsPast id version most a
    → IsUpdate tenant other expected state new_data new a b
    → IsPast id version (most + 1) b
IsPast-updated id tenant other version expected most state new_data new a b past made =
    elim (Text-cases id other) [
      | inr (apart, _) ↦ IsPast-kept id version most a b past (made.writes.others id apart)
      | inl same ↦
          let found : a.record_of other ≡ some past.current =
            ap a.record_of (sym same) ∙ past.there in
          let old_is : past.current ≡ made.old = cc (sym found ∙ made.was) in
          record {
            current = new;
            there = ap b.record_of same ∙ made.writes.there;
            steps = past.steps + 1;
            at_least = omega arith;
            at_most = omega (arith, past.at_most);
            version_is =
                made.revised.next_version
                ∙ next-version version past.steps made.old.version
                    (ap (λ (x : Record). x.version) (sym old_is) ∙ past.version_is);
          }
    ]
