-- ===== src/Assignors/Range/Examples.antt =====
-- Three partitions for two consumers.
use aiokafka.Base.{ℕ, ◌≡◌, refl, [], ◌∷◌, leb, arith, pos}
use aiokafka.Base.Dict
use aiokafka.Base.Keys.{string_eq, nat_eq}
use aiokafka.Base.Sets
use aiokafka.Cluster.{ClusterMetadata, PartitionMetadata, init, partitions_for_topic}
use aiokafka.Base.Sorting.{sorted, insert}
use aiokafka.Assignors.{leb_string}
use aiokafka.Assignors.Range.{assign_topic}
use aiokafka.Assignors.Range.Shares.{gather, assign_topic_covers}

abbrev partition_metadata : ℕ → PartitionMetadata
partition_metadata p = record {
  topic = "t";
  partition = p;
  leader = pos 1;
  replicas = [];
  isr = [];
  error = pos 0;
}

abbrev cluster : ClusterMetadata
cluster = record (init []) {
  partitions =
      ("t", (2, partition_metadata 2) ∷ (0, partition_metadata 0) ∷ (1, partition_metadata 1) ∷ [])
      ∷ [];
}

assign_topic_covers_example :
    gather
      (assign_topic cluster "t" ("C1" ∷ "C0" ∷ []) [])
      "t"
      (sorted leb_string ("C1" ∷ "C0" ∷ []))
    ≡ sorted leb (2 ∷ 0 ∷ 1 ∷ [])
unfolding partitions_for_topic Dict.get sorted insert Sets.contains
assign_topic_covers_example =
    assign_topic_covers cluster "t" ("C1" ∷ "C0" ∷ []) (2 ∷ 0 ∷ 1 ∷ []) [] refl (omega arith)
      (refl, (refl, tt))
