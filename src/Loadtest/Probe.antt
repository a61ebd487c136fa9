-- ===== src/Loadtest/Probe.antt =====
-- `pipelineProbe` of services/api/cmd/loadtest/main.go, over parameters for the MongoDB and the Kafka
-- client. An error is the text that it prints.
use Prim.Native.String.{◌++◌}
use enterprise_workflow_plat.Common.{
  ℕ, String, List, [], ◌∷◌, Option, none, some, Result, ok, err, nat_beq, Bool, true, false,
  if◌then◌else◌,
}
use enterprise_workflow_plat.Common.Actions.{Action, ◌>>=◌, ◌>>◌, pure}
use enterprise_workflow_plat.Common.Decimal.{decimal}
use enterprise_workflow_plat.Domain.{Int64}
use enterprise_workflow_plat.Loadtest.{PipelineSnapshot}
use enterprise_workflow_plat.Loadtest.Lag.{Offsets, set_offset, calculate_kafka_lag}

-- What a response has for one partition: an offset, or an error.
pub record PartitionOffset : Type 0 where
  pub partition : ℕ
  pub offset : Int64
  pub error : Option String

-- The response of `OffsetFetch`, with its own error, for the topic.
pub record FetchedOffsets : Type 0 where
  pub error : Option String
  pub offsets : List PartitionOffset

-- The calls that the probe makes, for its topic and group; `W` is the state of the world, the open
-- cursor included. The counts and the search are those of the workflow's creations.
pub record ProbeCalls (W : Type 0) : Type 0 where
  pub partitions : List ℕ
  pub count_records : String → Action String W Int64
  pub count_unpublished : String → Action String W Int64
  pub find_outbox : String → Action String W (Unit {0})
  pub read_outbox_ids : Action String W (List String)
  pub count_notifications : List String → Action String W Int64
  pub list_offsets : Action String W (List PartitionOffset)
  pub offset_fetch : Action String W FetchedOffsets

abbrev with_prefix : {A : Type 0} → String → Result String A → Result String A
with_prefix text (ok a) = ok a
with_prefix text (err e) = err (text ++ e)

-- `fmt.Errorf("…: %w", err)` of the error of a call.
abbrev pub wrapped : {W A : Type 0} → String → Action String W A → Action String W A
wrapped text m w = let (result, w') = m w in (with_prefix text result, w')

abbrev add_offset : ℕ → Int64 → Result String Offsets → Result String Offsets
add_offset partition offset (ok m) = ok (set_offset partition offset m)
add_offset partition offset (err e) = err e

-- The loops of `kafkaLag` over a response, up to the first partition with an error.
unfoldable pub collect_offsets : String → List PartitionOffset → Offsets → Result String Offsets
collect_offsets text [] m = ok m
collect_offsets text (p ∷ rest) m =
    let collected = collect_offsets text rest (set_offset p.partition p.offset m) in
    elim p.error [ some e ↦ err (text ++ (decimal p.partition ++ (": " ++ e))) | none ↦ collected ]

-- Whether a map has a key.
unfoldable pub has_offset : ℕ → Offsets → Bool
has_offset partition [] = false
has_offset partition (entry ∷ m) =
    let rest = has_offset partition m in if nat_beq entry.0 partition then true else rest

unfoldable pub check_partitions : List ℕ → Offsets → Result String (Unit {0})
check_partitions [] m = ok tt
check_partitions (partition ∷ rest) m =
    let checked = check_partitions rest m in
    if has_offset partition m
    then checked
    else err ("missing Kafka end offset for partition " ++ decimal partition)

abbrev returned : {W A : Type 0} → Result String A → Action String W A
returned r w = (r, w)

abbrev fetched : {W : Type 0} → FetchedOffsets → Action String W (List PartitionOffset)
fetched response w = elim response.error [
  | some e ↦ (err ("fetch Kafka committed offsets: " ++ e), w)
  | none ↦ (ok response.offsets, w)
]

module _ {W : Type 0} (calls : ProbeCalls W) where
  unfoldable pub kafka_lag : Action String W Int64
  kafka_lag = do
    ends ← wrapped "list Kafka end offsets: " calls.list_offsets
    end_offsets ← returned (collect_offsets "Kafka end offset partition " ends [])
    response ← wrapped "fetch Kafka committed offsets: " calls.offset_fetch
    commits ← fetched response
    committed ← returned (collect_offsets "Kafka committed offset partition " commits [])
    returned (check_partitions calls.partitions end_offsets)
    pure (calculate_kafka_lag end_offsets committed)

  -- From the identifiers of the events on.
  abbrev pub count_of : List String → Action String W Int64
  count_of [] = pure 0
  count_of (id ∷ ids) =
      wrapped "count workflow notifications: " (calls.count_notifications (id ∷ ids))

  unfoldable pub count_notifications_for_workflow : String → Action String W Int64
  count_notifications_for_workflow workflow_id = do
    wrapped "list workflow outbox ids: " (calls.find_outbox workflow_id)
    ids ← wrapped "decode workflow outbox ids: " calls.read_outbox_ids
    count_of ids

  unfoldable pub snapshot : String → Action String W PipelineSnapshot
  snapshot workflow_id = do
    records ← wrapped "count records: " (calls.count_records workflow_id)
    unpublished ← wrapped "count unpublished outbox events: " (calls.count_unpublished workflow_id)
    notifications ← count_notifications_for_workflow workflow_id
    lag ← kafka_lag
    pure (record {
      records = records;
      unpublished = unpublished;
      notifications = notifications;
      kafka_lag = lag;
    })
