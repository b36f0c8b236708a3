-- ===== src/Producer/Sender/Requests/Topics.antt =====
-- What a request to add partitions lists.
use aiokafka.Base.{
  Bool-cases, inl, inr, ℕ, String, List, [], ◌∷◌, ◌++◌, if◌then◌else◌, ◌≡◌, refl, sym, ◌∙◌, arith,
}
use aiokafka.Base.Keys.{TopicPartition, string_eq, ◌==◌, ==_iff}
use aiokafka.Base.Dict
use aiokafka.Base.Dict.{Dict, get-put}
use aiokafka.Producer.Sender.Requests.{listed, group_partitions, request_topics}
use mathlib.Core.List.{append_assoc, append-nil}

-- The partitions of a topic in the order of a list, read off directly.
pub partitions_of : String → List TopicPartition → List ℕ
partitions_of topic [] = []
partitions_of topic (tp ∷ tps) =
    let rest = partitions_of topic tps in if tp.topic == topic then tp.partition ∷ rest else rest

listed-put :
    (d : Dict String (List ℕ)) (k j : String) (l : List ℕ)
    → listed (Dict.put d k l) j ≡ (if k == j then l else listed d j)
listed-put d k j l = ground (arith, get-put d k j l)

group_partitions_lem :
    (topic : String) (tps : List TopicPartition) (d : Dict String (List ℕ))
    → listed (group_partitions tps d) topic ≡ listed d topic ++ partitions_of topic tps
unfolding group_partitions partitions_of
group_partitions_lem topic [] d = sym (append-nil (listed d topic))
group_partitions_lem topic (tp ∷ tps) d =
    group_partitions_lem topic tps (Dict.put d tp.topic (listed d tp.topic ++ tp.partition ∷ []))
    ∙ grown
  where
    grown :
        listed (Dict.put d tp.topic (listed d tp.topic ++ tp.partition ∷ [])) topic
          ++ partitions_of topic tps
        ≡ listed d topic ++ partitions_of topic (tp ∷ tps)
    grown = rw listed-put (elim (Bool-cases (tp.topic == topic)) [
      | inl same ↦
          rw (same, (==_iff tp.topic topic).0 same)
            (append_assoc (listed d topic) (tp.partition ∷ []) (partitions_of topic tps))
      | inr other ↦ rw other refl
    ])

-- The request lists under each topic exactly the partitions of that topic, in their order.
pub request_topics_lem :
    (topic : String) (tps : List TopicPartition)
    → listed (request_topics tps) topic ≡ partitions_of topic tps
unfolding request_topics partitions_of Dict.get
request_topics_lem topic tps = group_partitions_lem topic tps []
