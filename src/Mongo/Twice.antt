-- ===== src/Mongo/Twice.antt =====
-- Optimistic concurrency of `MongoStore`: two updates against the same version of a record.
use enterprise_workflow_plat.Common.{ℕ, ◌+◌, String, Option, none, Bool, ok, ◌≡◌}
use enterprise_workflow_plat.Domain.{Record, Int64}
use enterprise_workflow_plat.Domain.Value.{Members}
use enterprise_workflow_plat.Mongo.Driver.{Driver}
use enterprise_workflow_plat.Mongo.Create.{create_record}
use enterprise_workflow_plat.Mongo.Update.{update_record}
use enterprise_workflow_plat.Mongo.Laws.{Database, Lawful}

module _ {W : Type 0} (driver : Driver W) (contents : W → Database)
    (law : Lawful driver contents) where
  -- Calls that succeed, by any clients, each on the database that the one before it left.
  pub data Writes : ℕ → W → W → Type 0 where
    nothing : {w w' : W} → contents w' ≡ contents w → Writes 0 w w'
    creates :
        {n : ℕ} {w next last : W} (tenant key : String) (r new : Record) (replay : Bool)
        → (create_record driver tenant key r w).0 ≡ ok (new, replay)
        → contents next ≡ contents (create_record driver tenant key r w).1
        → Writes n next last
        → Writes (n + 1) w last
    updates :
        {n : ℕ} {w next last : W} (tenant id : String) (expected : Int64) (state : String)
        (new_data : Option Members) (new : Record)
        → (update_record driver tenant id expected state new_data w).0 ≡ (new, none)
        → contents next ≡ contents (update_record driver tenant id expected state new_data w).1
        → Writes n next last
        → Writes (n + 1) w last
