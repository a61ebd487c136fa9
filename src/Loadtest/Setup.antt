-- ===== src/Loadtest/Setup.antt =====
-- `newPipelineProbe` and the small functions of services/api/cmd/loadtest/main.go.
use Prim.Native.String.{◌++◌}
use Prim.Native.Char.{Char}
use enterprise_workflow_plat.Common.{
  ℕ, String, List, [], ◌∷◌, Option, none, some, Result, ok, err, ◌==◌, leb, if◌then◌else◌,
}
use enterprise_workflow_plat.Common.Decimal.{decimal}
use enterprise_workflow_plat.Common.Texts.{split, trim_space}
use enterprise_workflow_plat.Events.{clean_brokers}
use enterprise_workflow_plat.Loadtest.{Duration}

abbrev comma : Char
comma = ","

-- The loop over the parts is that of the brokers' addresses.
unfoldable pub split_csv : String → List String
split_csv value = let (first, others) = split comma value in clean_brokers (first ∷ others)

-- Of sorted values.
unfoldable pub max_duration : List Duration → Duration
max_duration [] = 0
max_duration (value ∷ []) = value
max_duration (value ∷ next ∷ values) = max_duration (next ∷ values)

-- `sort.Ints`.
abbrev insert_sorted : ℕ → List ℕ → List ℕ
insert_sorted n [] = n ∷ []
insert_sorted n (m ∷ ms) = let rest = insert_sorted n ms in if leb n m then n ∷ m ∷ ms else m ∷ rest

abbrev pub sort_ints : List ℕ → List ℕ
sort_ints [] = []
sort_ints (n ∷ ns) = insert_sorted n (sort_ints ns)

-- The calls of the clients; `lookup_partitions` takes the broker and the topic and gives the
-- partitions, each with its error.
pub record SetupCalls (W : Type 0) : Type 0 where
  pub connect : String → W → Option String × W
  pub ping : W → Option String × W
  pub disconnect : W → W
  pub lookup_partitions : (broker topic : String) → W → Result String (List (ℕ × Option String)) × W

-- The loop over the partitions, up to the first with an error.
unfoldable pub partition_ids : List (ℕ × Option String) → Result String (List ℕ)
partition_ids [] = ok []
partition_ids ((id, some e) ∷ rest) =
    err ("Kafka partition " ++ (decimal id ++ (" metadata: " ++ e)))
partition_ids ((id, none) ∷ rest) = elim (partition_ids rest) [
  | ok ids ↦ ok (id ∷ ids)
  | err e ↦ err e
]

-- `quote` is `%q`. The result has the sorted partitions of the probe; every failure after the ping
-- began disconnects.
module _ {W : Type 0} (calls : SetupCalls W) (quote : String → String) where
  abbrev given_up : {A : Type 0} → String → W → Result String A × W
  given_up e w = (err e, calls.disconnect w)

  abbrev pub checked_ids : String → Result String (List ℕ) → W → Result String (List ℕ) × W
  checked_ids topic (err e) w = given_up e w
  checked_ids topic (ok []) w = given_up ("Kafka topic " ++ (quote topic ++ " has no partitions")) w
  checked_ids topic (ok (id ∷ ids)) w = (ok (sort_ints (id ∷ ids)), w)

  abbrev pub looked_up :
      String → Result String (List (ℕ × Option String)) × W → Result String (List ℕ) × W
  looked_up topic (err e, w) = given_up ("lookup Kafka partitions: " ++ e) w
  looked_up topic (ok partitions, w) = checked_ids topic (partition_ids partitions) w

  abbrev pub pinged : (broker topic : String) → Option String × W → Result String (List ℕ) × W
  pinged broker topic (some e, w) = given_up ("ping MongoDB: " ++ e) w
  pinged broker topic (none, w) = looked_up topic (calls.lookup_partitions broker topic w)

  abbrev pub connected : (broker topic : String) → Option String × W → Result String (List ℕ) × W
  connected broker topic (some e, w) = (err ("connect MongoDB: " ++ e), w)
  connected broker topic (none, w) = pinged broker topic (calls.ping w)

  abbrev pub with_brokers :
      List String → (mongo_uri topic : String) → W → Result String (List ℕ) × W
  with_brokers [] mongo_uri topic w = (err "at least one Kafka broker is required", w)
  with_brokers (broker ∷ brokers) mongo_uri topic w =
      connected broker topic (calls.connect mongo_uri w)

  unfoldable pub new_pipeline_probe :
      (mongo_uri database brokers_value topic group_id : String) → W → Result String (List ℕ) × W
  new_pipeline_probe mongo_uri database brokers_value topic group_id w =
      if trim_space mongo_uri == ""
      then (err "MongoDB URI is required", w)
      else if trim_space database == ""
      then (err "MongoDB database is required", w)
      else if trim_space topic == ""
      then (err "Kafka topic is required", w)
      else if trim_space group_id == ""
      then (err "Kafka consumer group is required", w)
      else with_brokers (split_csv brokers_value) mongo_uri topic w
