-- ===== src/Mongo/Action.antt =====
-- Methods that call the driver: actions whose errors are those of the store or the driver.
pub use enterprise_workflow_plat.Common.Actions.{
  go_on, ◌>>=◌, ◌>>◌, pure, raise, bind-ok, bind-err, pure-ok,
}
use enterprise_workflow_plat.Common.Actions as A
use enterprise_workflow_plat.Common.{Option, none, some, Result, ok, err, ◌≡◌, refl, ap}
use enterprise_workflow_plat.Mongo.Driver.{DriverError, MongoError, driver_error}

abbrev pub Action : Type 0 → Type 0 → Type 0
Action = A.Action MongoError

-- `return err` of a driver's error.
abbrev pub with_error : {A : Type 0} → Result DriverError A → Result MongoError A
with_error (ok a) = ok a
with_error (err e) = err (driver_error e)

abbrev pub failure : Option DriverError → Result MongoError (Unit {0})
failure none = ok tt
failure (some e) = err (driver_error e)

abbrev pub as_action : {S : Type 0} → (S → Option DriverError × S) → Action S (Unit {0})
as_action f s = let (e, s') = f s in (failure e, s')

pub failure-ok : (e : Option DriverError) → failure e ≡ ok tt → e ≡ none
failure-ok none h = refl
failure-ok (some e) h = cc

pub with_error-ok : {A : Type 0} (r : Result DriverError A) (a : A) → with_error r ≡ ok a → r ≡ ok a
with_error-ok (ok b) a h = let same : b ≡ a = cc in ap ok same
with_error-ok (err e) a h = cc
