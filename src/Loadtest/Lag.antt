-- ===== src/Loadtest/Lag.antt =====
-- `calculateKafkaLag` of services/api/cmd/loadtest/main.go, and when the lag is zero.
use enterprise_workflow_plat.Common.{
  ℕ, ◌+◌, ◌-◌, ◌%◌, ◌<◌, ◌≤◌, List, [], ◌∷◌, All, ◌≡◌, ◌↔◌, refl, arith, nat_beq, ltb, not,
  if◌then◌else◌,
}
use enterprise_workflow_plat.Common.Int64.{two_63, two_64, leb_signed}
use enterprise_workflow_plat.Domain.{Int64}

-- A Go map from partitions to offsets; the loop over it takes its entries in some order.
abbrev pub Offsets : Type 0
Offsets = List (ℕ × Int64)

-- Reading a missing key gives 0.
unfoldable pub offset_at : ℕ → Offsets → Int64
offset_at partition [] = 0
offset_at partition (entry ∷ m) =
    let rest = offset_at partition m in if nat_beq entry.0 partition then entry.1 else rest

unfoldable pub set_offset : ℕ → Int64 → Offsets → Offsets
set_offset partition offset [] = (partition, offset) ∷ []
set_offset partition offset (entry ∷ m) =
    let rest = set_offset partition offset m in
    if nat_beq entry.0 partition then (partition, offset) ∷ m else entry ∷ rest

-- `if committedOffset < 0 { committedOffset = 0 }`.
abbrev pub not_negative : Int64 → Int64
not_negative v = if ltb v two_63 then v else 0

-- The lag of one partition: `endOffset - committedOffset` if `endOffset > committedOffset`.
unfoldable pub partition_lag : Int64 → Int64 → Int64
partition_lag end_offset committed =
    let c = not_negative committed in
    if not (leb_signed end_offset c) then (end_offset + (two_64 - c)) % two_64 else 0

-- The loop, with `lag` and the wrap of its sum.
unfoldable pub lag_loop : Int64 → Offsets → Offsets → Int64
lag_loop lag [] committed = lag
lag_loop lag (entry ∷ rest) committed =
    lag_loop ((lag + partition_lag entry.1 (offset_at entry.0 committed)) % two_64) rest committed

unfoldable pub calculate_kafka_lag : Offsets → Offsets → Int64
calculate_kafka_lag end_offsets committed = lag_loop 0 end_offsets committed

-- The sum of the end offsets.
abbrev pub total : Offsets → ℕ
total [] = 0
total (entry ∷ rest) = entry.1 + total rest

-- Every partition has been read up to its end.
abbrev pub IsCaughtUp : Offsets → Offsets → Type 0
IsCaughtUp end_offsets committed =
    All (λ entry. entry.1 ≤ not_negative (offset_at entry.0 committed)) end_offsets

partition_lag-le : (e c : Int64) → e < two_63 → (partition_lag e c ≤ e)
unfolding partition_lag leb_signed
partition_lag-le e c h = ground arith

partition_lag_zero : (e c : Int64) → e < two_63 → (partition_lag e c ≡ 0) ↔ (e ≤ not_negative c)
unfolding partition_lag leb_signed
partition_lag_zero e c h = (λ z. ground arith, λ l. ground arith)

no_wrap :
    (lag e d t : ℕ)
    → d ≤ e
    → lag + (e + t) < two_64
    → ((lag + d) % two_64 ≡ lag + d) × ((lag + d) % two_64 + t < two_64)
no_wrap lag e d t h k = (omega arith, omega arith)

lag_loop_iff :
    (lag : Int64) (end_offsets committed : Offsets)
    → All (λ entry. entry.1 < two_63) end_offsets
    → lag + total end_offsets < two_64
    → (lag_loop lag end_offsets committed ≡ 0) ↔ ((lag ≡ 0) × IsCaughtUp end_offsets committed)
unfolding lag_loop
lag_loop_iff lag [] committed ranges bound = (λ z. (z, tt), λ h. h.0)
lag_loop_iff lag (entry ∷ rest) committed (range, ranges) bound =
    let d = partition_lag entry.1 (offset_at entry.0 committed) in
    let le = partition_lag-le entry.1 (offset_at entry.0 committed) range in
    let zero_iff = partition_lag_zero entry.1 (offset_at entry.0 committed) range in
    let (same, bound') = no_wrap lag entry.1 d (total rest) le bound in
    let rest_iff = lag_loop_iff ((lag + d) % two_64) rest committed ranges bound' in
    (
      λ z.
          let (sum_zero, caught_up) = rest_iff.0 z in
          let both : (lag ≡ 0) × (d ≡ 0) = (omega arith, omega arith) in
          (both.0, (zero_iff.0 both.1, caught_up)),
      λ h. let d_zero : d ≡ 0 = zero_iff.1 h.1.0 in rest_iff.1 (omega arith, h.1.1),
    )

-- The lag is zero exactly if every partition has been committed up to its end, where a committed
-- offset that is missing or negative counts as 0. The end offsets are not negative and sum to less
-- than 2 ^ 64.
pub calculate_kafka_lag_iff :
    (end_offsets committed : Offsets)
    → All (λ entry. entry.1 < two_63) end_offsets
    → total end_offsets < two_64
    → (calculate_kafka_lag end_offsets committed ≡ 0) ↔ IsCaughtUp end_offsets committed
unfolding calculate_kafka_lag
calculate_kafka_lag_iff end_offsets committed ranges bound =
    let loop = lag_loop_iff 0 end_offsets committed ranges (omega arith) in
    (λ z. (loop.0 z).1, λ h. loop.1 (refl, h))
