-- ===== src/Consumer/FetchResult/Paging.antt =====
-- Pages of the records of a fetch.
use aiokafka.Base.{
  ℕ, suc, zero, ◌<◌, true, false, Option, none, some, List, [], ◌∷◌, ◌++◌, length, length-append,
  eqb_ℤ_iff, ◌≡◌, refl, sym, ap, ◌∙◌, ◌⊎◌, inl, inr, Bool-cases, arith, if◌then◌else◌, ℤ, Result,
  ok, continue,
}
use mathlib.Core.List.{append_assoc, append-nil}
use mathlib.Core.Path.{subst}
use aiokafka.Consumer.PartitionState.{Held, consuming, consumed_to}
use aiokafka.Consumer.PartitionRecords.{
  Config, ConsumerRecord, PartitionRecords, next_consumer_record,
}
use aiokafka.Consumer.PartitionRecords.Running.{Gives}
use aiokafka.Consumer.FetchResult.{
  FetchResult, drop_records, check_position, getall_checked, has_more, check_assignment,
  update_position, next_message, is_full, take_records, getall,
}

abbrev pub moved_to : ℤ → Held → Held
moved_to n h = record h { it = record h.it { position = some n } }

abbrev pub holding : PartitionRecords → Held → FetchResult
holding r h = record { partition_records = some r; held = h }

update_position_lem :
    (r : PartitionRecords) (h : Held)
    → h.it.status ≡ consuming
    → update_position (holding r h) ≡ (ok tt, holding r (moved_to r.next_fetch_offset h))
unfolding update_position consumed_to
update_position_lem r h e = rw e refl

check_assignment_lem :
    (r : PartitionRecords) (h : Held)
    → h.it.paused ≡ false
    → h.it.position ≡ some r.next_fetch_offset
    → check_assignment true (holding r h) ≡ (ok true, holding r h)
unfolding check_assignment
check_assignment_lem r h p at =
    let s = holding r h in
    ap (λ k. if k then (ok false, drop_records s) else check_position s h.it.position) p
    ∙ ap (check_position s) at
    ∙ ap (λ k. if k then (ok true, s) else (ok false, drop_records s))
        ((eqb_ℤ_iff r.next_fetch_offset r.next_fetch_offset).1 refl)

module _ {K V : Type 0} (config : Config K V) where
  abbrev Out : Type 0
  Out = Result (List (ConsumerRecord K V)) × FetchResult

  -- What a call leaves: either it took all that was left, which is less than it may take, and the records
  -- are gone, or it took as many as it may, and the others follow. The position is behind what it took.
  pub record Page (max_records : Option ℕ) (h : Held) (before cs : List (ConsumerRecord K V))
      (e : PartitionRecords) (out : Out) : Type 0 where
    pub taken : List (ConsumerRecord K V)
    pub rest : List (ConsumerRecord K V)
    pub t : PartitionRecords
    pub split : cs ≡ taken ++ rest
    pub result : out.0 ≡ ok (before ++ taken)
    pub position : out.1.held ≡ moved_to t.next_fetch_offset h
    pub left :
        ((out.1.partition_records ≡ none)
          × (rest ≡ [])
          × (t ≡ e)
          × (is_full config max_records (length (before ++ taken)) ≡ false))
        ⊎ ((out.1.partition_records ≡ some t)
            × Gives config t rest e
            × (max_records ≡ some (length (before ++ taken))))

  ends_lem :
      (fuel : ℕ) (max_records : Option ℕ) (acc : List (ConsumerRecord K V)) (r e : PartitionRecords)
      (h : Held)
      → next_consumer_record config r ≡ (ok none, e)
      → h.it.status ≡ consuming
      → take_records config (suc fuel) max_records acc (holding r h)
        ≡ (ok acc, record { partition_records = none; held = moved_to e.next_fetch_offset h })
  unfolding take_records next_message
  ends_lem fuel max_records acc r e h n c = rw (n, update_position_lem e h c) refl

  gives_lem :
      (fuel : ℕ) (max_records : Option ℕ) (acc : List (ConsumerRecord K V)) (r t : PartitionRecords)
      (h : Held) (m : ConsumerRecord K V)
      → next_consumer_record config r ≡ (ok (some m), t)
      → is_full config max_records (length (acc ++ m ∷ [])) ≡ false
      → take_records config (suc fuel) max_records acc (holding r h)
        ≡ take_records config fuel max_records (acc ++ m ∷ []) (holding t h)
  unfolding take_records next_message
  gives_lem fuel max_records acc r t h m n f = rw (n, f) refl

  full_lem :
      (fuel : ℕ) (max_records : Option ℕ) (acc : List (ConsumerRecord K V)) (r t : PartitionRecords)
      (h : Held) (m : ConsumerRecord K V)
      → next_consumer_record config r ≡ (ok (some m), t)
      → is_full config max_records (length (acc ++ m ∷ [])) ≡ true
      → h.it.status ≡ consuming
      → take_records config (suc fuel) max_records acc (holding r h)
        ≡ (ok (acc ++ m ∷ []), holding t (moved_to t.next_fetch_offset h))
  unfolding take_records next_message
  full_lem fuel max_records acc r t h m n f c = rw (n, f, update_position_lem t h c) refl

  just_full :
      (max_records : Option ℕ) (acc : List (ConsumerRecord K V)) (m : ConsumerRecord K V)
      → is_full config max_records (length acc) ≡ false
      → is_full config max_records (length (acc ++ m ∷ [])) ≡ true
      → max_records ≡ some (length (acc ++ m ∷ []))
  just_full max_records acc m f g = ground (arith, f, g, length-append acc (m ∷ []))

  take_records-Page :
      (cs : List (ConsumerRecord K V)) (fuel : ℕ) (max_records : Option ℕ)
      (acc : List (ConsumerRecord K V)) (r e : PartitionRecords) (h : Held)
      → Gives config r cs e
      → h.it.status ≡ consuming
      → length cs < fuel
      → is_full config max_records (length acc) ≡ false
      → Page max_records h acc cs e (take_records config fuel max_records acc (holding r h))
  take_records-Page [] zero mx acc r e h g c lt f = absurd (omega (arith, lt))
  take_records-Page (m ∷ cs) zero mx acc r e h g c lt f = absurd (omega (arith, lt))
  take_records-Page [] (suc k) mx acc r e h g c lt f =
      subst (Page mx h acc [] e) (sym (ends_lem k mx acc r e h g c)) (record {
        taken = [];
        rest = [];
        t = e;
        split = refl;
        result = ap ok (sym (append-nil acc));
        position = refl;
        left = inl (refl, refl, refl, ap (λ l. is_full config mx (length l)) (append-nil acc) ∙ f);
      })
  take_records-Page (m ∷ cs) (suc k) mx acc r e h (t, n, g) c lt f =
      elim (Bool-cases (is_full config mx (length (acc ++ m ∷ [])))) [
        | inl full ↦
            subst (Page mx h acc (m ∷ cs) e) (sym (full_lem k mx acc r t h m n full c)) (record {
              taken = m ∷ [];
              rest = cs;
              t = t;
              split = refl;
              result = refl;
              position = refl;
              left = inr (refl, g, just_full mx acc m f full);
            })
        | inr more ↦
            let p = take_records-Page cs k mx (acc ++ m ∷ []) t e h g c (omega (arith, lt)) more in
            let out = take_records config k mx (acc ++ m ∷ []) (holding t h) in
            subst (Page mx h acc (m ∷ cs) e) (sym (gives_lem k mx acc r t h m n more)) (record {
              taken = m ∷ p.taken;
              rest = p.rest;
              t = p.t;
              split = ap (λ l. m ∷ l) p.split;
              result = p.result ∙ ap ok (append_assoc acc (m ∷ []) p.taken);
              position = p.position;
              left =
                  subst
                    (λ l.
                      ((out.1.partition_records ≡ none)
                        × (p.rest ≡ [])
                        × (p.t ≡ e)
                        × (is_full config mx (length l) ≡ false))
                      ⊎ ((out.1.partition_records ≡ some p.t)
                          × Gives config p.t p.rest e
                          × (mx ≡ some (length l))))
                    (append_assoc acc (m ∷ []) p.taken) p.left;
            })
      ]

  -- `getall` of a partition that is assigned, not paused and consuming, at the position that its records
  -- start from, when they give cs and then end with e: the call takes all of them, moves the position behind
  -- the last and drops the records, or takes as many as it may, and the others are what the records then give.
  pub getall-Gives :
      (cs : List (ConsumerRecord K V)) (fuel : ℕ) (max_records : Option ℕ) (r e : PartitionRecords)
      (h : Held)
      → Gives config r cs e
      → h.it.status ≡ consuming
      → h.it.paused ≡ false
      → h.it.position ≡ some r.next_fetch_offset
      → length cs < fuel
      → is_full config max_records 0 ≡ false
      → Page max_records h [] cs e (getall config fuel true max_records (holding r h))
  unfolding getall
  getall-Gives cs fuel mx r e h g c p at lt f =
      subst (Page mx h [] cs e)
        (sym (
          ap
            (λ x.
              continue x.0
                (λ checked s.
                  getall_checked config fuel mx (if checked then has_more s else false) s)
                x.1)
            (check_assignment_lem r h p at)))
        (take_records-Page cs fuel mx [] r e h g c lt f)
