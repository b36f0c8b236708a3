-- ===== src/Assignors/Range/Shares.antt =====
-- The shares of the consumers of one topic.
use aiokafka.Base.{
  ℕ, zero, suc, ◌+◌, ◌*◌, ◌/◌, ◌%◌, ◌<◌, min, false, not, none, some, List, [], ◌∷◌, ◌++◌,
  if◌then◌else◌, String, ltb, leb, length, take, drop, arith, refl, sym, ap, ◌∙◌, ◌≡◌, inl, inr,
  Bool-cases,
}
use native.Mathlib.Nat.{div-add-mod, mod-lt, mul-add, mul_comm}
use mathlib.Core.List.{append_assoc, append-nil}
use aiokafka.Base.Keys.{string_eq, ◌==◌, ==_iff}
use aiokafka.Base.Dict
use aiokafka.Base.Dict.{Dict, get-put}
use aiokafka.Base.Sets
use aiokafka.Cluster.{ClusterMetadata, partitions_for_topic}
use aiokafka.Base.Sorting.{sorted}
use aiokafka.Assignors.{PartitionsByMember, leb_string}
use aiokafka.Assignors.Range.{share, spread, topics_of, assign_topic}

-- What a member has of a topic.
abbrev pub owned : PartitionsByMember → String → String → List ℕ
owned assignment topic member = elim (Dict.get (topics_of assignment member) topic) [
  | none ↦ []
  | some l ↦ l
]

-- What the members have of a topic, one after the other.
pub gather : PartitionsByMember → String → List String → List ℕ
gather assignment topic [] = []
gather assignment topic (m ∷ rest) = owned assignment topic m ++ gather assignment topic rest

abbrev pub IsDistinct : List String → Type 0
IsDistinct [] = Unit
IsDistinct (m ∷ l) = (Sets.contains l m ≡ false) × IsDistinct l

take-drop : (b : ℕ) (l : List ℕ) → take b l ++ drop b l ≡ l
take-drop zero l = refl
take-drop (suc b) [] = refl
take-drop (suc b) (x ∷ l) = ap (λ t. x ∷ t) (take-drop b l)

drop_none : (b : ℕ) → drop {A = ℕ} b [] ≡ []
drop_none zero = refl
drop_none (suc b) = refl

drop-drop : (a b : ℕ) (l : List ℕ) → drop (a + b) l ≡ drop b (drop a l)
drop-drop zero b l = ap (λ n. drop n l) (omega arith)
drop-drop (suc a) b [] = drop_none (suc a + b) ∙ sym (drop_none b)
drop-drop (suc a) b (x ∷ l) =
    let e : suc a + b ≡ suc (a + b) = omega arith in ap (λ n. drop n (x ∷ l)) e ∙ drop-drop a b l

drop-length : (l : List ℕ) → drop (length l) l ≡ []
drop-length [] = refl
drop-length (x ∷ l) = drop-length l

owned-put :
    (a : PartitionsByMember) (topic m k : String) (l : List ℕ)
    → owned (Dict.put a m (Dict.put (topics_of a m) topic l)) topic k
      ≡ (if m == k then l else owned a topic k)
owned-put a topic m k l = ground (
  arith,
  get-put a m k (Dict.put (topics_of a m) topic l),
  get-put (topics_of a m) topic topic l,
  ==_iff topic topic,
  ==_iff m k,
)

module _ (topic : String) (l : List ℕ) (q r : ℕ) where
  shares : ℕ → List String → List ℕ
  shares i [] = []
  shares i (m ∷ rest) = share l q r i ++ shares (i + 1) rest

  spread-others :
      (i : ℕ) (c : List String) (a : PartitionsByMember) (k : String)
      → Sets.contains c k ≡ false
      → owned (spread topic l q r i c a) topic k ≡ owned a topic k
  unfolding spread Sets.contains
  spread-others i [] a k h = refl
  spread-others i (m ∷ rest) a k h =
      spread-others (i + 1) rest _ k (ground (arith, h))
      ∙ owned-put a topic m k (share l q r i)
      ∙ ground (arith, h)

  gather-spread :
      (i : ℕ) (c : List String) (a : PartitionsByMember)
      → IsDistinct c
      → gather (spread topic l q r i c a) topic c ≡ shares i c
  unfolding spread shares gather
  gather-spread i [] a d = refl
  gather-spread i (m ∷ rest) a d =
      let b = Dict.put a m (Dict.put (topics_of a m) topic (share l q r i)) in
      let own : owned (spread topic l q r (i + 1) rest b) topic m ≡ share l q r i =
        spread-others (i + 1) rest b m d.0
        ∙ owned-put a topic m m (share l q r i)
        ∙ ground (arith, ==_iff m m) in
      rw (own, gather-spread (i + 1) rest b d.1) refl

  start : ℕ → ℕ
  start i = q * i + min i r

  start_next : (i : ℕ) → start (i + 1) ≡ start i + (if not (ltb r (i + 1)) then q + 1 else q)
  unfolding start
  start_next i =
      let p : q * (i + 1) ≡ q * i + q = mul-add q i 1 ∙ omega arith in
      elim (Bool-cases (ltb r (i + 1))) [
        | inl e ↦ rw e (ground (arith, p, e))
        | inr e ↦ rw e (ground (arith, p, e))
      ]

  share-drop : (i : ℕ) → share l q r i ++ drop (start (i + 1)) l ≡ drop (start i) l
  unfolding share start
  share-drop i =
      let w = if not (ltb r (i + 1)) then q + 1 else q in
      ap (λ z. share l q r i ++ z) (ap (λ n. drop n l) (start_next i) ∙ drop-drop (start i) w l)
      ∙ take-drop w (drop (start i) l)

  shares-drop :
      (i : ℕ) (c : List String) → shares i c ++ drop (start (i + length c)) l ≡ drop (start i) l
  unfolding shares
  shares-drop i [] = ap (λ n. drop (start n) l) (omega arith)
  shares-drop i (m ∷ rest) =
      let e : i + suc (length rest) ≡ i + 1 + length rest = omega arith in
      append_assoc (share l q r i) (shares (i + 1) rest) (drop (start (i + suc (length rest))) l)
      ∙ ap (λ z. share l q r i ++ z)
          (ap (λ n. shares (i + 1) rest ++ drop (start n) l) e ∙ shares-drop (i + 1) rest)
      ∙ share-drop i

  -- The shares of all consumers.
  shares_all :
      (c : List String)
      → 0 < length c
      → q ≡ length l / length c
      → r ≡ length l % length c
      → shares 0 c ≡ l
  unfolding start
  shares_all c p dq dr =
      let k = length c in
      let lt : r < k = rw dr (mod-lt (length l) p) in
      let n : k * q + r ≡ length l = rw (dq, dr) (div-add-mod (length l) k) in
      let m : q * (0 + k) ≡ k * q = ap (λ z. q * z) (omega arith) ∙ mul_comm q k in
      let last : start (0 + k) ≡ length l = ground (arith, lt, n, m) in
      let first : start 0 ≡ 0 = ground arith in
      sym (append-nil (shares 0 c))
      ∙ ap (λ z. shares 0 c ++ z) (sym (ap (λ z. drop z l) last ∙ drop-length l))
      ∙ shares-drop 0 c
      ∙ ap (λ z. drop z l) first

-- Each partition of a topic that the cluster knows goes to one consumer, in order: what the sorted consumers
-- have, one after the other, is the sorted list of its partitions. There is a consumer, and none is listed twice.
pub assign_topic_covers :
    (cluster : ClusterMetadata) (topic : String) (consumers : List String) (partitions : List ℕ)
    (a : PartitionsByMember)
    → partitions_for_topic topic cluster ≡ some partitions
    → 0 < length (sorted leb_string consumers)
    → IsDistinct (sorted leb_string consumers)
    → gather (assign_topic cluster topic consumers a) topic (sorted leb_string consumers)
      ≡ sorted leb partitions
unfolding assign_topic
assign_topic_covers cluster topic consumers partitions a e p d =
    rw (assign_topic, e)
      (let l = sorted leb partitions in
        let c = sorted leb_string consumers in
        gather-spread topic l (length l / length c) (length l % length c) 0 c a d
        ∙ shares_all topic l (length l / length c) (length l % length c) c p refl refl)
