-- ===== src/Mongo/Connect.antt =====
-- `NewMongoStore` and `ensureIndexes`, over a parameter for the client; an error is its text.
use enterprise_workflow_plat.Common.{
  String, List, [], ◌∷◌, Option, none, some, ◌==◌, Result, ok, err, if◌then◌else◌,
}
use Prim.Native.String.{◌++◌}
use enterprise_workflow_plat.Common.Actions.{Action, ◌>>◌, pure}

-- `create_unique_index` takes the collection and the keys.
pub record Client (W : Type 0) : Type 0 where
  pub connect : String → W → Option String × W
  pub ping : W → Option String × W
  pub create_unique_index : String → List String → W → Option String × W

abbrev failing : String → Option String → Result String (Unit {0})
failing text none = ok tt
failing text (some e) = err (text ++ e)

abbrev call : {W : Type 0} → String → (W → Option String × W) → Action String W (Unit {0})
call text f w = let (e, w') = f w in (failing text e, w')

abbrev pub database_name : String → String
database_name database = if database == "" then "enterprise_workflow" else database

unfoldable pub ensure_indexes : {W : Type 0} → Client W → Action String W (Unit {0})
ensure_indexes client =
    call "" (client.create_unique_index "idempotency_keys" ("tenantId" ∷ "key" ∷ []))

-- The name of the database that the store uses.
unfoldable pub new_mongo_store :
    {W : Type 0} → Client W → (uri database : String) → Action String W String
new_mongo_store client uri database = do
  call "connect mongo: " (client.connect uri)
  call "ping mongo: " client.ping
  ensure_indexes client
  pure (database_name database)
