-- ===== src/Assignors.antt =====
-- aiokafka/coordinator/assignors: how the leader of a group spreads partitions over its members. What the
-- assignors share is here.
pub mod Range
use aiokafka.Base.{ℕ, Bool, true, false, List, String}
use Prim.Native.Nat.{lt, eq, gt}
use Prim.Native.String.{compare}
use aiokafka.Base.Dict.{Dict}

-- The topics that each member subscribes to, `metadata.subscription`.
abbrev pub Members : Type 0
Members = Dict String (List String)

-- What each member gets of each topic.
abbrev pub PartitionsByMember : Type 0
PartitionsByMember = Dict String (Dict String (List ℕ))

-- `ConsumerProtocolMemberAssignment`, whose user data are empty bytes
pub record MemberAssignment : Type 0 where
  pub version : ℕ
  pub assignment : List (String × List ℕ)
  pub user_data : List ℕ

-- Texts are compared by their code points.
abbrev pub leb_string : String → String → Bool
leb_string s t = elim (compare s t) [ lt ↦ true | eq ↦ true | gt ↦ false ]
