-- ===== src/Consumer/PartitionState/Examples.antt =====
-- The theorems on partitions at concrete states.
use aiokafka.Base.{[], ◌∷◌, pos}
use aiokafka.Base.Futures.{pending, resolved, failed, done}
use aiokafka.Base.Futures
use aiokafka.Base.Keys.{tp_eq, string_eq}
use aiokafka.Consumer.PartitionState.{
  Held, OffsetAndMetadata, TopicPartitionState, awaiting_reset, consuming, await_reset, consumed_to,
  reset_to, update_committed,
}
use aiokafka.Consumer.PartitionState
use aiokafka.Consumer.PartitionState.Machine
use aiokafka.Consumer.PartitionState.Machine.{assigned_at, Step_frame}

abbrev held : Held
held = assigned_at Futures.empty Futures.empty

Reach-IsCoherent_example : Machine.IsCoherent (PartitionState.pause held).1
Reach-IsCoherent_example =
    Machine.Reach-IsCoherent Futures.empty Futures.empty (Machine.next Machine.here Machine.pauses)

held-IsCoherent : Machine.IsCoherent held
held-IsCoherent = Machine.Reach-IsCoherent Futures.empty Futures.empty Machine.here

abbrev asked : Held
asked = record held { it = record held.it { committed_futs = 0 ∷ [] } }

abbrev offset7 : OffsetAndMetadata
offset7 = record { offset = pos 7; metadata = "" }
