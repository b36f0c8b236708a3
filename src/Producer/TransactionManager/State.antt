-- ===== src/Producer/TransactionManager/State.antt =====
-- The enumerations of aiokafka/producer/transaction_manager.py and the table of its transitions.
use aiokafka.Base.{Bool, true, false}

pub data TransactionState : Type 0 where
  uninitialized ready in_transaction committing_transaction aborting_transaction : TransactionState
  abortable_error fatal_error : TransactionState

pub state_discrete : Discrete TransactionState
state_discrete = hlevel

pub data TransactionResult : Type 0 where
  abort commit : TransactionResult

-- The tests on the target and the source are the patterns.
abbrev pub is_transition_valid : TransactionState → TransactionState → Bool
is_transition_valid uninitialized ready = true
is_transition_valid committing_transaction ready = true
is_transition_valid aborting_transaction ready = true
is_transition_valid source ready = false
is_transition_valid ready in_transaction = true
is_transition_valid source in_transaction = false
is_transition_valid in_transaction committing_transaction = true
is_transition_valid source committing_transaction = false
is_transition_valid in_transaction aborting_transaction = true
is_transition_valid abortable_error aborting_transaction = true
is_transition_valid source aborting_transaction = false
is_transition_valid source abortable_error = true
is_transition_valid source fatal_error = true
is_transition_valid source uninitialized = false
