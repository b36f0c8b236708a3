-- ===== src/Assignors/Range.antt =====
-- The class RangePartitionAssignor of aiokafka/coordinator/assignors/range.py.
pub mod Shares
mod Examples
use aiokafka.Base.{
  ℕ, ◌+◌, ◌*◌, ◌/◌, ◌%◌, min, Bool, true, false, not, Option, none, some, List, [], ◌∷◌, ◌++◌,
  if◌then◌else◌, String, ltb, leb, length, take, drop,
}
use aiokafka.Base.Keys.{string_eq}
use aiokafka.Base.Dict
use aiokafka.Base.Dict.{Dict}
use aiokafka.Cluster.{ClusterMetadata, partitions_for_topic}
use aiokafka.Base.Sorting.{sorted}
use aiokafka.Assignors.{Members, PartitionsByMember, MemberAssignment, leb_string}

abbrev listed : Option (List String) → List String
listed none = []
listed (some l) = l

add_consumer : String → List String → Dict String (List String) → Dict String (List String)
add_consumer member [] found = found
add_consumer member (topic ∷ rest) found =
    add_consumer member rest (Dict.put found topic (listed (Dict.get found topic) ++ member ∷ []))

consumers_per_topic : Members → Dict String (List String) → Dict String (List String)
unfolding add_consumer
consumers_per_topic [] found = found
consumers_per_topic ((member, subscription) ∷ rest) found =
    consumers_per_topic rest (add_consumer member subscription found)

-- The share of the i-th consumer.
unfoldable pub share : List ℕ → ℕ → ℕ → ℕ → List ℕ
share partitions_list partitions_per_consumer consumers_with_extra i =
    take
      (if not (ltb consumers_with_extra (i + 1))
        then partitions_per_consumer + 1
        else partitions_per_consumer)
      (drop (partitions_per_consumer * i + min i consumers_with_extra) partitions_list)

abbrev pub topics_of : PartitionsByMember → String → Dict String (List ℕ)
topics_of assignment member = elim (Dict.get assignment member) [ none ↦ [] | some d ↦ d ]

-- The loop over the sorted consumers of a topic.
unfoldable pub spread :
    String → List ℕ → ℕ → ℕ → ℕ → List String → PartitionsByMember → PartitionsByMember
unfolding share
spread topic l per_consumer with_extra i [] assignment = assignment
spread topic l per_consumer with_extra i (member ∷ rest) assignment =
    spread topic l per_consumer with_extra (i + 1) rest (
      Dict.put assignment member
        (Dict.put (topics_of assignment member) topic (share l per_consumer with_extra i)))

unfoldable pub assign_topic :
    ClusterMetadata → String → List String → PartitionsByMember → PartitionsByMember
unfolding spread
assign_topic cluster topic consumers assignment = elim (partitions_for_topic topic cluster) [
  | none ↦ assignment
  | some partitions ↦
      let l = sorted leb partitions in
      let c = sorted leb_string consumers in
      spread topic l (length l / length c) (length l % length c) 0 c assignment
]

assign_topics :
    ClusterMetadata → Dict String (List String) → PartitionsByMember → PartitionsByMember
assign_topics cluster [] assignment = assignment
assign_topics cluster ((topic, consumers) ∷ rest) assignment =
    assign_topics cluster rest (assign_topic cluster topic consumers assignment)

abbrev leb_item : String × List ℕ → String × List ℕ → Bool
leb_item a b = leb_string a.0 b.0

-- The topics of a member differ, so that sorting its items compares topics only.
protocol_assignment : PartitionsByMember → Members → Dict String MemberAssignment
protocol_assignment assignment [] = []
protocol_assignment assignment ((member, subscription) ∷ rest) =
    (
      member,
      record {
        version = 0;
        assignment = sorted leb_item (topics_of assignment member);
        user_data = [];
      },
    )
    ∷ protocol_assignment assignment rest

pub assign_range : ClusterMetadata → Members → Dict String MemberAssignment
unfolding consumers_per_topic assign_topics protocol_assignment
assign_range cluster members =
    protocol_assignment (assign_topics cluster (consumers_per_topic members []) []) members
