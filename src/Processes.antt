-- ===== src/Processes.antt =====
-- services/api/cmd: what the processes choose from their environment, and the token command.
use enterprise_workflow_plat.Common.{String, Result, ok, err, ◌==◌, not, if◌then◌else◌}
use enterprise_workflow_plat.Common.Actions.{Action}
use enterprise_workflow_plat.Domain.{Time, Int64}
use enterprise_workflow_plat.Auth.{AuthError, Codec, Role, new_manager, issue}
use enterprise_workflow_plat.Mongo.Connect.{Client, new_mongo_store}

-- `os.Getenv`: a missing variable is empty.
abbrev pub Environment : Type 0
Environment = String → String

unfoldable pub env_or : Environment → String → String → String
env_or env key fallback = if env key == "" then fallback else env key

-- The store of a server: in memory, or in the database of a name.
pub data ChosenStore : Type 0 where
  in_memory : ChosenStore
  in_mongo : String → ChosenStore

abbrev as_mongo : {W : Type 0} → Result String String × W → Result String ChosenStore × W
as_mongo (ok name, w) = (ok (in_mongo name), w)
as_mongo (err e, w) = (err e, w)

-- `newStore` of the server; an error ends the process.
unfoldable pub new_store : {W : Type 0} → Environment → Client W → Action String W ChosenStore
new_store env client w =
    if not (env_or env "PERSISTENCE" "memory" == "mongo")
    then (ok in_memory, w)
    else as_mongo (
        new_mongo_store client (env_or env "MONGO_URI" "mongodb://localhost:27017/?replicaSet=rs0")
          (env_or env "MONGO_DB" "enterprise_workflow") w)

-- main of the token command: an error of either call ends the process.
unfoldable pub token_command :
    Codec → Time → Environment → (subject tenant : String) → Role → Int64 → Result AuthError String
token_command codec now env subject tenant role ttl = elim (new_manager (env "AUTH_SECRET")) [
  | err e ↦ err e
  | ok manager ↦ issue codec manager now subject tenant role ttl
]
