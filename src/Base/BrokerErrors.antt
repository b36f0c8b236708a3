-- ===== src/Base/BrokerErrors.antt =====
-- aiokafka/errors.py: the errors that a broker answers with, each with its number, and `for_code`, which
-- reads a number. Messages and descriptions are only printed, and are left out.
use mathlib.Core.Path.{◌≡◌, refl, sym, ap, ◌∙◌}
use mathlib.Core.Logic.{◌≢◌, ◌↔◌, ◌⊎◌, inl, inr}
use mathlib.Core.Bool.{Bool, true, false}
use mathlib.Core.Option.{Option, none, some}
use mathlib.Core.List.{List, [], ◌∷◌}
use native.Mathlib.Omega.{arith}
use aiokafka.Base.Int.{ℤ, pos, negsuc, eqb_ℤ, eqb_ℤ_iff}
use aiokafka.Base.Tests.{Bool-cases}
use aiokafka.Base.Keys.{Eq, int_eq}
use aiokafka.Base.Dict
use aiokafka.Base.Dict.{Dict}

pub data BrokerResponseError : Type 0 where
  no_error unknown_error offset_out_of_range_error corrupt_record_exception : BrokerResponseError
  unknown_topic_or_partition_error invalid_fetch_request_error leader_not_available_error :
      BrokerResponseError
  not_leader_for_partition_error request_timed_out_error broker_not_available_error :
      BrokerResponseError
  replica_not_available_error message_size_too_large_error stale_controller_epoch_error :
      BrokerResponseError
  offset_metadata_too_large_error stale_leader_epoch_code_error group_load_in_progress_error :
      BrokerResponseError
  group_coordinator_not_available_error not_coordinator_for_group_error invalid_topic_error :
      BrokerResponseError
  record_list_too_large_error not_enough_replicas_error : BrokerResponseError
  not_enough_replicas_after_append_error invalid_required_acks_error : BrokerResponseError
  illegal_generation_error inconsistent_group_protocol_error invalid_group_id_error :
      BrokerResponseError
  unknown_member_id_error invalid_session_timeout_error rebalance_in_progress_error :
      BrokerResponseError
  invalid_commit_offset_size_error topic_authorization_failed_error : BrokerResponseError
  group_authorization_failed_error cluster_authorization_failed_error : BrokerResponseError
  invalid_timestamp_error unsupported_sasl_mechanism_error illegal_sasl_state_error :
      BrokerResponseError
  unsupported_version_error topic_already_exists_error invalid_partitions_error :
      BrokerResponseError
  invalid_replication_factor_error invalid_replication_assignment_error : BrokerResponseError
  invalid_configuration_error not_controller_error invalid_request_error : BrokerResponseError
  unsupported_for_message_format_error policy_violation_error out_of_order_sequence_number :
      BrokerResponseError
  duplicate_sequence_number invalid_producer_epoch invalid_txn_state : BrokerResponseError
  invalid_producer_id_mapping invalid_transaction_timeout concurrent_transactions :
      BrokerResponseError
  transaction_coordinator_fenced transactional_id_authorization_failed security_disabled :
      BrokerResponseError
  operation_not_attempted kafka_storage_error log_dir_not_found sasl_authentication_failed :
      BrokerResponseError
  unknown_producer_id reassignment_in_progress delegation_token_auth_disabled : BrokerResponseError
  delegation_token_not_found delegation_token_owner_mismatch : BrokerResponseError
  delegation_token_request_not_allowed delegation_token_authorization_failed : BrokerResponseError
  delegation_token_expired invalid_principal_type non_empty_group group_id_not_found :
      BrokerResponseError
  fetch_session_id_not_found invalid_fetch_session_epoch listener_not_found : BrokerResponseError
  member_id_required : BrokerResponseError

pub errno : BrokerResponseError → ℤ
errno no_error = pos 0
errno unknown_error = negsuc 0
errno offset_out_of_range_error = pos 1
errno corrupt_record_exception = pos 2
errno unknown_topic_or_partition_error = pos 3
errno invalid_fetch_request_error = pos 4
errno leader_not_available_error = pos 5
errno not_leader_for_partition_error = pos 6
errno request_timed_out_error = pos 7
errno broker_not_available_error = pos 8
errno replica_not_available_error = pos 9
errno message_size_too_large_error = pos 10
errno stale_controller_epoch_error = pos 11
errno offset_metadata_too_large_error = pos 12
errno stale_leader_epoch_code_error = pos 13
errno group_load_in_progress_error = pos 14
errno group_coordinator_not_available_error = pos 15
errno not_coordinator_for_group_error = pos 16
errno invalid_topic_error = pos 17
errno record_list_too_large_error = pos 18
errno not_enough_replicas_error = pos 19
errno not_enough_replicas_after_append_error = pos 20
errno invalid_required_acks_error = pos 21
errno illegal_generation_error = pos 22
errno inconsistent_group_protocol_error = pos 23
errno invalid_group_id_error = pos 24
errno unknown_member_id_error = pos 25
errno invalid_session_timeout_error = pos 26
errno rebalance_in_progress_error = pos 27
errno invalid_commit_offset_size_error = pos 28
errno topic_authorization_failed_error = pos 29
errno group_authorization_failed_error = pos 30
errno cluster_authorization_failed_error = pos 31
errno invalid_timestamp_error = pos 32
errno unsupported_sasl_mechanism_error = pos 33
errno illegal_sasl_state_error = pos 34
errno unsupported_version_error = pos 35
errno topic_already_exists_error = pos 36
errno invalid_partitions_error = pos 37
errno invalid_replication_factor_error = pos 38
errno invalid_replication_assignment_error = pos 39
errno invalid_configuration_error = pos 40
errno not_controller_error = pos 41
errno invalid_request_error = pos 42
errno unsupported_for_message_format_error = pos 43
errno policy_violation_error = pos 44
errno out_of_order_sequence_number = pos 45
errno duplicate_sequence_number = pos 46
errno invalid_producer_epoch = pos 47
errno invalid_txn_state = pos 48
errno invalid_producer_id_mapping = pos 49
errno invalid_transaction_timeout = pos 50
errno concurrent_transactions = pos 51
errno transaction_coordinator_fenced = pos 52
errno transactional_id_authorization_failed = pos 53
errno security_disabled = pos 54
errno operation_not_attempted = pos 55
errno kafka_storage_error = pos 56
errno log_dir_not_found = pos 57
errno sasl_authentication_failed = pos 58
errno unknown_producer_id = pos 59
errno reassignment_in_progress = pos 60
errno delegation_token_auth_disabled = pos 61
errno delegation_token_not_found = pos 62
errno delegation_token_owner_mismatch = pos 63
errno delegation_token_request_not_allowed = pos 64
errno delegation_token_authorization_failed = pos 65
errno delegation_token_expired = pos 66
errno invalid_principal_type = pos 67
errno non_empty_group = pos 68
errno group_id_not_found = pos 69
errno fetch_session_id_not_found = pos 70
errno invalid_fetch_session_epoch = pos 71
errno listener_not_found = pos 72
errno member_id_required = pos 79

-- The errors after which the same request may be sent again.
unfoldable pub retriable : BrokerResponseError → Bool
retriable unknown_topic_or_partition_error = true
retriable leader_not_available_error = true
retriable not_leader_for_partition_error = true
retriable request_timed_out_error = true
retriable group_load_in_progress_error = true
retriable group_coordinator_not_available_error = true
retriable not_coordinator_for_group_error = true
retriable not_enough_replicas_error = true
retriable not_enough_replicas_after_append_error = true
retriable not_controller_error = true
retriable _ = false

-- The errors that show the metadata of the cluster to be stale.
pub invalid_metadata : BrokerResponseError → Bool
invalid_metadata unknown_topic_or_partition_error = true
invalid_metadata leader_not_available_error = true
invalid_metadata not_leader_for_partition_error = true
invalid_metadata _ = false

-- `_iter_subclasses(BrokerResponseError)`, in the order in which the classes are made.
pub subclasses : List BrokerResponseError
subclasses =
    no_error ∷ unknown_error ∷ offset_out_of_range_error ∷ corrupt_record_exception
    ∷ unknown_topic_or_partition_error ∷ invalid_fetch_request_error ∷ leader_not_available_error
    ∷ not_leader_for_partition_error ∷ request_timed_out_error ∷ broker_not_available_error
    ∷ replica_not_available_error ∷ message_size_too_large_error ∷ stale_controller_epoch_error
    ∷ offset_metadata_too_large_error ∷ stale_leader_epoch_code_error ∷ group_load_in_progress_error
    ∷ group_coordinator_not_available_error ∷ not_coordinator_for_group_error ∷ invalid_topic_error
    ∷ record_list_too_large_error ∷ not_enough_replicas_error
    ∷ not_enough_replicas_after_append_error ∷ invalid_required_acks_error
    ∷ illegal_generation_error ∷ inconsistent_group_protocol_error ∷ invalid_group_id_error
    ∷ unknown_member_id_error ∷ invalid_session_timeout_error ∷ rebalance_in_progress_error
    ∷ invalid_commit_offset_size_error ∷ topic_authorization_failed_error
    ∷ group_authorization_failed_error ∷ cluster_authorization_failed_error
    ∷ invalid_timestamp_error ∷ unsupported_sasl_mechanism_error ∷ illegal_sasl_state_error
    ∷ unsupported_version_error ∷ topic_already_exists_error ∷ invalid_partitions_error
    ∷ invalid_replication_factor_error ∷ invalid_replication_assignment_error
    ∷ invalid_configuration_error ∷ not_controller_error ∷ invalid_request_error
    ∷ unsupported_for_message_format_error ∷ policy_violation_error ∷ out_of_order_sequence_number
    ∷ duplicate_sequence_number ∷ invalid_producer_epoch ∷ invalid_txn_state
    ∷ invalid_producer_id_mapping ∷ invalid_transaction_timeout ∷ concurrent_transactions
    ∷ transaction_coordinator_fenced ∷ transactional_id_authorization_failed ∷ security_disabled
    ∷ operation_not_attempted ∷ kafka_storage_error ∷ log_dir_not_found ∷ sasl_authentication_failed
    ∷ unknown_producer_id ∷ reassignment_in_progress ∷ delegation_token_auth_disabled
    ∷ delegation_token_not_found ∷ delegation_token_owner_mismatch
    ∷ delegation_token_request_not_allowed ∷ delegation_token_authorization_failed
    ∷ delegation_token_expired ∷ invalid_principal_type ∷ non_empty_group ∷ group_id_not_found
    ∷ fetch_session_id_not_found ∷ invalid_fetch_session_epoch ∷ listener_not_found
    ∷ member_id_required ∷ []

-- The dictionary from an error's number to the error.
pub kafka_errors : List BrokerResponseError → Dict ℤ BrokerResponseError
kafka_errors [] = []
kafka_errors (x ∷ xs) = (errno x, x) ∷ kafka_errors xs

unfoldable pub for_code : ℤ → BrokerResponseError
unfolding kafka_errors subclasses errno
for_code error_code = elim (Dict.get (kafka_errors subclasses) error_code) [
  | none ↦ unknown_error
  | some x ↦ x
]

for_code-errno : (x : BrokerResponseError) → for_code (errno x) ≡ x
unfolding for_code Dict.get
for_code-errno no_error = refl
for_code-errno _ = refl

get-errno :
    (xs : List BrokerResponseError) (c : ℤ) (x : BrokerResponseError)
    → Dict.get (kafka_errors xs) c ≡ some x
    → errno x ≡ c
unfolding Dict.get kafka_errors
get-errno [] c x h = cc
get-errno (y ∷ ys) c x h = ground (arith, eqb_ℤ_iff (errno y) c, get-errno ys c x)

for_code-or-unknown : (c : ℤ) → (errno (for_code c) ≡ c) ⊎ (for_code c ≡ unknown_error)
unfolding for_code Dict.get
for_code-or-unknown c = by_lookup (Dict.get (kafka_errors subclasses) c) (get-errno subclasses c)
  where
    by_lookup :
        (o : Option BrokerResponseError)
        → ((x : BrokerResponseError) → o ≡ some x → errno x ≡ c)
        → (errno (elim o [ none ↦ unknown_error | some x ↦ x ]) ≡ c)
          ⊎ (elim o [ none ↦ unknown_error | some x ↦ x ] ≡ unknown_error)
    by_lookup none f = inr refl
    by_lookup (some x) f = inl (f x refl)

-- `for_code` reads back the number of every error, and a number that no error has is an unknown error.
pub for_code_lem :
    (c : ℤ) (x : BrokerResponseError)
    → (for_code c ≡ x)
      ↔ ((errno x ≡ c) ⊎ ((x ≡ unknown_error) × ((y : BrokerResponseError) → errno y ≢ c)))
for_code_lem c x = (
  λ h. elim (Bool-cases (eqb_ℤ (errno x) c)) [
    | inl same ↦ inl ((eqb_ℤ_iff (errno x) c).0 same)
    | inr other ↦ inr (missed h λ e. cc ((eqb_ℤ_iff (errno x) c).1 e))
  ],
  λ s. found s (for_code-or-unknown c),
)
  where
    missed :
        for_code c ≡ x
        → errno x ≢ c
        → (x ≡ unknown_error) × ((y : BrokerResponseError) → errno y ≢ c)
    missed h ne = (unknown (for_code-or-unknown c), λ y e. ne (cc (for_code-errno y)))
      where
        unknown : (errno (for_code c) ≡ c) ⊎ (for_code c ≡ unknown_error) → x ≡ unknown_error
        unknown (inl e) = absurd (ne (cc))
        unknown (inr e) = cc

    found :
        (errno x ≡ c) ⊎ ((x ≡ unknown_error) × ((y : BrokerResponseError) → errno y ≢ c))
        → (errno (for_code c) ≡ c) ⊎ (for_code c ≡ unknown_error)
        → for_code c ≡ x
    found (inl e) s = ap for_code (sym e) ∙ for_code-errno x
    found (inr (e, f)) (inl g) = absurd (f (for_code c) g)
    found (inr (e, f)) (inr g) = g ∙ sym e

-- `error_type is X`: the classes have different numbers.
unfoldable pub same_error : BrokerResponseError → BrokerResponseError → Bool
same_error a b = eqb_ℤ (errno a) (errno b)

pub same_error_iff : (a b : BrokerResponseError) → (same_error a b ≡ true) ↔ (a ≡ b)
unfolding same_error
same_error_iff a b = (
  λ h.
      sym (for_code-errno a) ∙ ap for_code ((eqb_ℤ_iff (errno a) (errno b)).0 h) ∙ for_code-errno b,
  λ e. (eqb_ℤ_iff (errno a) (errno b)).1 (ap errno e),
)

instance abbrev pub error_eq : Eq BrokerResponseError
error_eq = record { same = same_error; same_iff = same_error_iff }
