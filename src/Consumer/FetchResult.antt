-- ===== src/Consumer/FetchResult.antt =====
-- The class FetchResult of aiokafka/consumer/fetcher.py: records that were fetched for one partition, with the
-- state of the partition, whose position they move on.
pub mod Paging
mod Examples
use aiokafka.Base.{
  ℕ, suc, zero, Bool, true, false, not, Option, none, some, is_some, List, [], ◌∷◌, ◌++◌, length,
  leb, eqb_ℤ, if◌then◌else◌, ℤ,
}
use aiokafka.Base.{
  Result, ok, err, Exec, pure, raise, gets, modify, continue, ◌>>=◌, ◌>>◌, assertion_error,
  attribute_error, type_error,
}
use aiokafka.Consumer.PartitionState.{Held, consumed_to}
use aiokafka.Consumer.PartitionRecords.{
  Config, ConsumerRecord, PartitionRecords, next_consumer_record,
}

pub record FetchResult : Type 0 where
  pub partition_records : Option PartitionRecords
  pub held : Held

abbrev pub drop_records : FetchResult → FetchResult
drop_records s = record s { partition_records = none }

abbrev compare_position : ℤ → FetchResult → Option PartitionRecords → Result Bool × FetchResult
compare_position position s none = (err attribute_error, s)
compare_position position s (some r) =
    if eqb_ℤ position r.next_fetch_offset then (ok true, s) else (ok false, drop_records s)

abbrev pub check_position : FetchResult → Option ℤ → Result Bool × FetchResult
check_position s none = (err assertion_error, s)
check_position s (some position) = compare_position position s s.partition_records

-- `check_assignment`, with `assignment.active`
unfoldable pub check_assignment : Bool → Exec FetchResult Bool
check_assignment active s =
    if not active
    then (ok false, drop_records s)
    else if s.held.it.paused
    then (ok false, drop_records s)
    else check_position s s.held.it.position

abbrev with_held : FetchResult → Result (Unit {0}) × Held → Result (Unit {0}) × FetchResult
with_held s (r, h) = (r, record s { held = h })

abbrev move_to : FetchResult → Option PartitionRecords → Result (Unit {0}) × FetchResult
move_to s none = (err attribute_error, s)
move_to s (some r) = with_held s (consumed_to r.next_fetch_offset s.held)

-- `_update_position`
unfoldable pub update_position : Exec FetchResult (Unit {0})
update_position s = move_to s s.partition_records

abbrev pub has_more : FetchResult → Bool
has_more s = is_some s.partition_records

module _ {K V : Type 0} (config : Config K V) where
  abbrev with_records :
      FetchResult
      → Result (Option (ConsumerRecord K V)) × PartitionRecords
      → Result (Option (ConsumerRecord K V)) × FetchResult
  with_records s (x, r) = (x, record s { partition_records = some r })

  abbrev next_of :
      FetchResult → Option PartitionRecords → Result (Option (ConsumerRecord K V)) × FetchResult
  next_of s none = (err type_error, s)
  next_of s (some r) = with_records s (next_consumer_record config r)

  -- `next(self._partition_records, None)`
  unfoldable pub next_message : Exec FetchResult (Option (ConsumerRecord K V))
  next_message s = next_of s s.partition_records

  abbrev give : Option (ConsumerRecord K V) → Exec FetchResult (Option (ConsumerRecord K V))
  give none = do modify drop_records; pure none
  give (some msg) = pure (some msg)

  abbrev getone_checked : Bool → Exec FetchResult (Option (ConsumerRecord K V))
  getone_checked false = pure none
  getone_checked true = do msg ← next_message; update_position; give msg

  unfoldable pub getone : Bool → Exec FetchResult (Option (ConsumerRecord K V))
  getone active = do
    checked ← check_assignment active
    more ← gets has_more
    getone_checked (if checked then more else false)

  -- Whether the list is as long as `max_records`.
  abbrev pub is_full : Option ℕ → ℕ → Bool
  is_full none n = false
  is_full (some max_records) n = leb max_records n

  abbrev finish : List (ConsumerRecord K V) → Exec FetchResult (List (ConsumerRecord K V))
  finish ret_list = do update_position; modify drop_records; pure ret_list

  abbrev stop_full : List (ConsumerRecord K V) → Exec FetchResult (List (ConsumerRecord K V))
  stop_full ret_list = do update_position; pure ret_list

  abbrev stop_or :
      Bool
      → List (ConsumerRecord K V)
      → (List (ConsumerRecord K V) → Exec FetchResult (List (ConsumerRecord K V)))
      → Exec FetchResult (List (ConsumerRecord K V))
  stop_or true ret_list again = stop_full ret_list
  stop_or false ret_list again = again ret_list

  abbrev take_message :
      Option ℕ
      → List (ConsumerRecord K V)
      → (List (ConsumerRecord K V) → Exec FetchResult (List (ConsumerRecord K V)))
      → Option (ConsumerRecord K V)
      → Exec FetchResult (List (ConsumerRecord K V))
  take_message max_records ret_list again none = finish ret_list
  take_message max_records ret_list again (some msg) =
      stop_or (is_full max_records (length (ret_list ++ msg ∷ []))) (ret_list ++ msg ∷ []) again

  -- The loop of `getall`, on fuel.
  unfoldable pub take_records :
      ℕ → Option ℕ → List (ConsumerRecord K V) → Exec FetchResult (List (ConsumerRecord K V))
  take_records zero max_records ret_list = pure ret_list
  take_records (suc fuel) max_records ret_list =
      next_message >>= take_message max_records ret_list (take_records fuel max_records)

  abbrev pub getall_checked : ℕ → Option ℕ → Bool → Exec FetchResult (List (ConsumerRecord K V))
  getall_checked fuel max_records false = pure []
  getall_checked fuel max_records true = take_records fuel max_records []

  unfoldable pub getall : ℕ → Bool → Option ℕ → Exec FetchResult (List (ConsumerRecord K V))
  getall fuel active max_records = do
    checked ← check_assignment active
    more ← gets has_more
    getall_checked fuel max_records (if checked then more else false)
