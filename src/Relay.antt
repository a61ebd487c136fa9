-- ===== src/Relay.antt =====
-- services/api/cmd/outbox-relay/main.go: `drainOutbox` and `publishSequential`.
-- The relay sees its store and its publisher through interfaces: `Ports` has their methods, each a
-- function of the state `W` of the world. An error is the text that it prints. The two type
-- assertions of `drainOutbox` are the optional methods.
pub mod Memory
pub mod Mongo
pub mod Poll
mod Tests
use Prim.Native.String.{◌++◌}
use enterprise_workflow_plat.Common.{
  ℕ, zero, suc, ◌+◌, String, List, [], ◌∷◌, Option, none, some, Result, ok, err, map, length, ltb,
  if◌then◌else◌,
}
use enterprise_workflow_plat.Common.Int64.{is_positive}
use enterprise_workflow_plat.Domain.{Int64, OutboxEvent}

abbrev pub outbox_batch_size : ℕ
outbox_batch_size = 250

-- `none` is Go's `nil` error.
abbrev pub Failure : Type 0
Failure = Option String

pub record Ports (W : Type 0) : Type 0 where
  pub list_pending : Int64 → W → Result String (List OutboxEvent) × W
  pub mark_published : String → W → Failure × W
  pub mark_failed : String → String → W → Failure × W
  pub publish : OutboxEvent → W → Failure × W
  pub publish_batch : Option (List OutboxEvent → W → Failure × W)
  pub mark_published_batch : Option (List String → W → Failure × W)

-- `errors.Join(err, fmt.Errorf(...))`: the messages on a line each.
abbrev pub join_errors : Failure → String → Failure
join_errors none e = some e
join_errors (some before) e = some (before ++ ("\n" ++ e))

-- `fmt.Errorf("publish %s: %w", …)` and `fmt.Errorf("mark %s published: %w", …)`.
abbrev pub publish_error : OutboxEvent → String → String
publish_error event e = "publish " ++ (event.id ++ (": " ++ e))

abbrev pub mark_error : OutboxEvent → String → String
mark_error event e = "mark " ++ (event.id ++ (" published: " ++ e))

module _ {W : Type 0} (ports : Ports W) where
  -- The loop of `publishSequential`, with `published` and `batchErr`.
  unfoldable pub publish_loop : ℕ → Failure → List OutboxEvent → W → (ℕ × Failure) × W
  publish_loop published batch_err [] w = ((published, batch_err), w)
  publish_loop published batch_err (event ∷ items) w =
      let (sent, w') = ports.publish event w in
      elim sent [
        | some e ↦
            let (_, w'') = ports.mark_failed event.id e w' in
            publish_loop published (join_errors batch_err (publish_error event e)) items w''
        | none ↦
            let (marked, w'') = ports.mark_published event.id w' in
            elim marked [
              | some e ↦
                  publish_loop published (join_errors batch_err (mark_error event e)) items w''
              | none ↦ publish_loop (published + 1) batch_err items w''
            ]
      ]

  unfoldable pub publish_sequential : List OutboxEvent → W → (ℕ × Failure) × W
  publish_sequential = publish_loop 0 none

  -- `for _, event := range items { _ = outbox.MarkOutboxFailed(ctx, event.ID, err.Error()) }`.
  unfoldable pub mark_all_failed : String → List OutboxEvent → W → W
  mark_all_failed reason [] w = w
  mark_all_failed reason (event ∷ items) w =
      mark_all_failed reason items (ports.mark_failed event.id reason w).1

  -- The branch for a publisher and a store that both work in batches.
  unfoldable pub publish_in_batch :
      (List OutboxEvent → W → Failure × W)
      → (List String → W → Failure × W)
      → List OutboxEvent
      → W
      → (ℕ × Failure) × W
  publish_in_batch send mark items w =
      let (sent, w') = send items w in
      elim sent [
        | some e ↦ ((0, some ("publish batch: " ++ e)), mark_all_failed e items w')
        | none ↦
            let (marked, w'') = mark (map (λ event. event.id) items) w' in
            elim marked [
              | some e ↦ ((0, some ("mark batch published: " ++ e)), w'')
              | none ↦ ((length items, none), w'')
            ]
      ]

  -- One batch, by whichever way the two ports allow.
  unfoldable pub publish_items : List OutboxEvent → W → (ℕ × Failure) × W
  publish_items items w = elim ports.publish_batch [
    | none ↦ publish_sequential items w
    | some send ↦ elim ports.mark_published_batch [
      | none ↦ publish_sequential items w
      | some mark ↦ publish_in_batch send mark items w
    ]
  ]

  -- The loop of `drainOutbox`, from `totalPublished`; `none` means that the fuel ran out.
  unfoldable pub drain_loop : ℕ → Int64 → ℕ → W → Option ((ℕ × Failure) × W)
  drain_loop zero batch_size total w = none
  drain_loop (suc fuel) batch_size total w =
      let (listed, w') = ports.list_pending batch_size w in
      elim listed [
        | err e ↦ some ((total, some ("list pending outbox: " ++ e)), w')
        | ok [] ↦ some ((total, none), w')
        | ok (first ∷ more) ↦
            let ((count, failure), w'') = publish_items (first ∷ more) w' in
            elim failure [
              | some e ↦ some ((total + count, some e), w'')
              | none ↦
                  if ltb (length (first ∷ more)) batch_size
                  then some ((total + count, none), w'')
                  else drain_loop fuel batch_size (total + count) w''
            ]
      ]

  unfoldable pub drain_outbox : ℕ → Int64 → W → Option ((ℕ × Failure) × W)
  drain_outbox fuel batch_size w =
      drain_loop fuel (if is_positive batch_size then batch_size else outbox_batch_size) 0 w
