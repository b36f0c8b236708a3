-- ===== src/Cluster/Coordinators.antt =====
-- Coordinators that share a node, and futures of updates.
use aiokafka.Base.{
  ℕ, true, false, Option, none, some, List, [], ◌∷◌, ◌+◌, ap, sym, ◌∙◌, if◌then◌else◌, Bool, pure,
  modify, ℤ, String, arith, refl, ◌≡◌, ◌≢◌, is_some, ok, err, key_error, attribute_error,
}
use aiokafka.Base.Keys.{nat_eq, int_eq, ==_iff}
use aiokafka.Base.Dict
use aiokafka.Base.Dict.{Dict, get-put, get-remove}
use aiokafka.Cluster.{ClusterMetadata, Action, node, BrokerMetadata}
use aiokafka.Cluster.Updates.{
  MetadataResponse, add_coordinator, drop_coordinator, coordinator_metadata, request_update,
  failed_update, update_metadata, apply_metadata, read_metadata, no_brokers, call_listeners,
}

module _ (host : String) (port : ℕ) (rack : Option String) where
  abbrev moved : ℤ → ℤ → ℕ → ClusterMetadata → ClusterMetadata
  moved a c p s = record s {
    coordinators =
        Dict.put (Dict.remove s.coordinators a) c
          (record { node_id = node c; host = host; port = port; rack = rack });
    coordinator_by_key = Dict.put (Dict.remove s.coordinator_by_key p) p c;
  }

  add_coordinator_moves :
      (s : ClusterMetadata) (p : ℕ) (a c : ℤ)
      → Dict.get s.coordinator_by_key p ≡ some a
      → is_some (Dict.get s.coordinators a) ≡ true
      → add_coordinator c host port rack p s ≡ (ok tt, moved a c p s)
  unfolding add_coordinator drop_coordinator
  add_coordinator_moves s p a c e k = rw (e, drop_coordinator, k) refl

  add_coordinator_refused :
      (s : ClusterMetadata) (q : ℕ) (a d : ℤ)
      → Dict.get s.coordinator_by_key q ≡ some a
      → Dict.get s.coordinators a ≡ none
      → (add_coordinator d host port rack q s).0 ≡ err key_error
  unfolding add_coordinator drop_coordinator
  add_coordinator_refused s q a d e k = rw (e, drop_coordinator, k) refl

-- Two purposes p and q have the same node a as their coordinator. When that of p moves to another node c, the
-- node a is forgotten, though q still has it; and when that of q moves later, the move raises KeyError.
pub add_coordinator_shared :
    (s : ClusterMetadata) (p q : ℕ) (a c d : ℤ) (host : String) (port : ℕ) (rack : Option String)
    → p ≢ q
    → c ≢ a
    → Dict.get s.coordinator_by_key p ≡ some a
    → Dict.get s.coordinator_by_key q ≡ some a
    → is_some (coordinator_metadata a s) ≡ true
    → ((add_coordinator c host port rack p s).0 ≡ ok tt)
      × (coordinator_metadata c (add_coordinator c host port rack p s).1
          ≡ some (record { node_id = node c; host = host; port = port; rack = rack }))
      × (coordinator_metadata a (add_coordinator c host port rack p s).1 ≡ none)
      × (Dict.get (add_coordinator c host port rack p s).1.coordinator_by_key q ≡ some a)
      × ((add_coordinator d host port rack q (add_coordinator c host port rack p s).1).0
          ≡ err key_error)
unfolding add_coordinator drop_coordinator coordinator_metadata
add_coordinator_shared s p q a c d host port rack n m e f k =
    let t = moved host port rack a c p s in
    let b : BrokerMetadata = record { node_id = node c; host = host; port = port; rack = rack } in
    let forgotten : Dict.get t.coordinators a ≡ none = ground (
      arith,
      get-put (Dict.remove s.coordinators a) c a b,
      get-remove s.coordinators a a,
      ==_iff c a,
      ==_iff a a,
    ) in
    let kept : Dict.get t.coordinator_by_key q ≡ some a = ground (
      arith,
      get-put (Dict.remove s.coordinator_by_key p) p q c,
      get-remove s.coordinator_by_key p q,
      ==_iff p q,
    ) in
    rw (add_coordinator_moves host port rack s p a c e k) (
      refl,
      ground (arith, get-put (Dict.remove s.coordinators a) c c b, ==_iff c c),
      forgotten,
      kept,
      add_coordinator_refused host port rack t q a d kept forgotten,
    )

call_listeners_quiet :
    (l : List ℕ) (s : ClusterMetadata) → call_listeners (λ k. pure tt) l s ≡ (ok tt, s)
unfolding call_listeners
call_listeners_quiet [] s = refl
call_listeners_quiet (k ∷ l) s = call_listeners_quiet l s

-- The state after an answer, apart from what listeners do.
abbrev refreshed : ℕ → MetadataResponse → ClusterMetadata → ClusterMetadata
refreshed now metadata s = record (read_metadata metadata s) {
  future = none;
  need_update = false;
  last_refresh_ms = now;
  last_successful_refresh_ms = now;
}

end_quiet :
    (k : Bool) (s : ClusterMetadata)
    → (if k then modify (λ s. record s { need_update = false }) else pure tt)
        (record s { need_update = false })
      ≡ (ok tt, record s { need_update = false })
end_quiet true s = refl
end_quiet false s = refl

update_metadata_quiet :
    (now : ℕ) (metadata : MetadataResponse) (s : ClusterMetadata)
    → s.future ≡ none
    → no_brokers metadata.brokers ≡ false
    → update_metadata (λ l. pure tt) now metadata s ≡ (ok tt, refreshed now metadata s)
unfolding update_metadata apply_metadata read_metadata
update_metadata_quiet now metadata s f b =
    rw (f, b, call_listeners_quiet s.listeners (refreshed now metadata s))
      (end_quiet s.need_all_topic_metadata (refreshed now metadata s))

-- With a broker in it, an answer that nobody asked for is read without an error, if the listeners do nothing.
-- After a request for an update, the same answer leaves the same state behind, apart from the count of the futures, whatever
-- the listeners would do, so none of them was called; and it raises AttributeError, as concurrent futures have
-- no method `success`. A failed update raises it before it notes the time, and a second
-- request raises it and changes nothing. The state is the tables that the answer replaces, with the times of
-- the update, and with no future and no need of another one.
pub update_metadata-request_update :
    (call : ℕ → Action (Unit {0})) (now : ℕ) (metadata : MetadataResponse) (s : ClusterMetadata)
    → s.future ≡ none
    → no_brokers metadata.brokers ≡ false
    → let asked = request_update s in
      let unasked = update_metadata (λ l. pure tt) now metadata s in
      let tables = read_metadata metadata s in
      (asked.0 ≡ ok s.next_future)
      × (unasked.0 ≡ ok tt)
      × (update_metadata call now metadata asked.1
          ≡ (err attribute_error, record unasked.1 { next_future = s.next_future + 1 }))
      × (unasked.1 ≡ record tables {
        future = none;
        need_update = false;
        last_refresh_ms = now;
        last_successful_refresh_ms = now;
      })
      × (failed_update now asked.1 ≡ (err attribute_error, record asked.1 { future = none }))
      × (request_update asked.1 ≡ (err attribute_error, asked.1))
unfolding request_update failed_update update_metadata apply_metadata read_metadata
update_metadata-request_update call now metadata s f b =
    let e = update_metadata_quiet now metadata s f b in
    let late : update_metadata call now metadata (request_update s).1 ≡ (
      err attribute_error,
      record (refreshed now metadata s) { next_future = s.next_future + 1 },
    ) =
      rw (f, b) refl in
    (
      rw f refl,
      ap (λ r. r.0) e,
      late
          ∙ ap (λ r. (err attribute_error, record r.1 { next_future = s.next_future + 1 })) (sym e),
      ap (λ r. r.1) e,
      rw f refl,
      rw f refl,
    )
