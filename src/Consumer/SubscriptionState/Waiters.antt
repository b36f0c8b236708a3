-- ===== src/Consumer/SubscriptionState/Waiters.antt =====
-- Those who wait for a subscription or an assignment, and how long the fetcher was idle.
use aiokafka.Base.{ℕ, ◌+◌, ◌-◌, true, Option, none, some, List, [], ◌∷◌, ◌++◌, All, All-map}
use aiokafka.Base.{
  Exception, Result, ok, err, Exec, raise, gets, modify, ◌>>=◌, ◌>>◌, ◌≡◌, ◌≢◌, ◌∙◌, ◌⊎◌, inl, refl,
  arith, attribute_error, if◌then◌else◌, eqb,
}
use aiokafka.Base.Futures.{Future, Heap, pending, resolved, failed, done, alloc, write}
use aiokafka.Consumer.SubscriptionState.{
  SubscriptionState, Action, settle_all, notify_subscription_waiters, notify_assignment_waiters,
}

unfoldable pub wait_for_subscription : Exec SubscriptionState ℕ
wait_for_subscription s = (
  ok s.waiters.next,
  record s {
    waiters = alloc s.waiters;
    subscription_waiters = s.subscription_waiters ++ s.waiters.next ∷ [];
  },
)

unfoldable pub wait_for_assignment : Exec SubscriptionState ℕ
wait_for_assignment s = (
  ok s.waiters.next,
  record s {
    waiters = alloc s.waiters;
    assignment_waiters = s.assignment_waiters ++ s.waiters.next ∷ [];
  },
)

-- The list stands for the fetcher's own set, so the call also stands for each change of that set.
unfoldable pub register_fetch_waiters : List ℕ → Action
register_fetch_waiters l = modify (λ s. record s { fetch_waiters = some l })

unfoldable pub abort_fetch : Exception → Option (List ℕ) → Action
abort_fetch exc none = raise attribute_error
abort_fetch exc (some l) = modify (λ s. record s { waiters = settle_all (failed exc) l s.waiters })

-- The list that is cleared is that of the subscription's waiters, and those are not settled.
unfoldable pub abort_waiters : Exception → Action
unfolding abort_fetch
abort_waiters exc = do
  modify (λ s. record s { waiters = settle_all (failed exc) s.assignment_waiters s.waiters })
  modify (λ s. record s { subscription_waiters = [] })
  l ← gets (λ s. s.fetch_waiters)
  abort_fetch exc l

-- `fetch_context()`: what runs before the `yield` and, if the body did not raise, after it at `now`.
unfoldable pub enter_fetch : SubscriptionState → SubscriptionState
enter_fetch s = record s { fetch_count = s.fetch_count + 1 }

unfoldable pub leave_fetch : ℕ → SubscriptionState → SubscriptionState
leave_fetch now s =
    let count = s.fetch_count - 1 in
    record s {
      fetch_count = count;
      last_fetch_ended = if eqb count 0 then now else s.last_fetch_ended;
    }

-- `with self.fetch_context(): body`. The generator has no `finally`, so a body that raises skips what
-- stands behind the `yield`.
after_body : ℕ → Result (Unit {0}) × SubscriptionState → Result (Unit {0}) × SubscriptionState
after_body now (ok u, s) = (ok u, leave_fetch now s)
after_body now (err e, s) = (err e, s)

pub fetch_context : ℕ → Action → Action
unfolding after_body enter_fetch leave_fetch
fetch_context now body s = after_body now (body (enter_fetch s))

pub fetcher_idle_time : ℕ → SubscriptionState → ℕ
fetcher_idle_time now s = if eqb s.fetch_count 0 then now - s.last_fetch_ended else 0

-- What `settle_all` leaves of a future that was done.
pub at-settle_all :
    (f : Future (Unit {0})) (l : List ℕ) (h : Heap (Unit {0})) (q : ℕ)
    → done (h.at q) ≡ true
    → (settle_all f l h).at q ≡ h.at q
unfolding settle_all
at-settle_all f [] h q d = refl
at-settle_all f (w ∷ l) h q d =
    ground (arith, at-settle_all f l (if done (h.at w) then h else write h w f) q)

abbrev pub Settled : Future (Unit {0}) → Heap (Unit {0}) → Heap (Unit {0}) → ℕ → Type 0
Settled f before after q = after.at q ≡ (if done (before.at q) then before.at q else f)

pub settle_all-Settled :
    (f : Future (Unit {0})) (l : List ℕ) (h : Heap (Unit {0}))
    → done f ≡ true
    → All (Settled f h (settle_all f l h)) l
unfolding settle_all
settle_all-Settled f [] h d = tt
settle_all-Settled f (w ∷ l) h d =
    let h' : Heap (Unit {0}) = if done (h.at w) then h else write h w f in
    (
      ground (arith, at-settle_all f l h' w),
      All-map (Settled f h' (settle_all f l h')) _ (λ q a. ground (arith, at-settle_all f l h' w)) l
          (settle_all-Settled f l h' d),
    )

-- Notifying resolves every waiter that was not done before, and forgets them all.
pub notify_waiters_answered :
    (s : SubscriptionState)
    → All
        (Settled (resolved tt) s.waiters (notify_subscription_waiters s).1.waiters)
        s.subscription_waiters
      × ((notify_subscription_waiters s).1.subscription_waiters ≡ [])
      × All
          (Settled (resolved tt) s.waiters (notify_assignment_waiters s).1.waiters)
          s.assignment_waiters
      × ((notify_assignment_waiters s).1.assignment_waiters ≡ [])
unfolding notify_subscription_waiters notify_assignment_waiters
notify_waiters_answered s = (
  settle_all-Settled (resolved tt) s.subscription_waiters s.waiters refl,
  refl,
  settle_all-Settled (resolved tt) s.assignment_waiters s.waiters refl,
  refl,
)

-- What is not listed is left alone.
pub at-settle_all_other :
    (f : Future (Unit {0})) (l : List ℕ) (h : Heap (Unit {0})) (q : ℕ)
    → All (λ w. w ≢ q) l
    → (settle_all f l h).at q ≡ h.at q
unfolding settle_all
at-settle_all_other f [] h q a = refl
at-settle_all_other f (w ∷ l) h q a =
    ground (arith, at-settle_all_other f l (if done (h.at w) then h else write h w f) q a.1)

-- A waiter is settled or left alone, whatever list it is on.
settle_all_either :
    (f : Future (Unit {0})) (l : List ℕ) (h : Heap (Unit {0})) (q : ℕ)
    → ((settle_all f l h).at q ≡ h.at q) ⊎ Settled f h (settle_all f l h) q
unfolding settle_all
settle_all_either f [] h q = inl refl
settle_all_either f (w ∷ l) h q =
    ground (arith, settle_all_either f l (if done (h.at w) then h else write h w f) q)

-- Of two lists that are settled one after the other, every waiter is.
settle_all_twice :
    (f : Future (Unit {0})) (k l : List ℕ) (h : Heap (Unit {0}))
    → done f ≡ true
    → All (Settled f h (settle_all f l (settle_all f k h))) k
      × All (Settled f h (settle_all f l (settle_all f k h))) l
settle_all_twice f k l h d =
    let h' = settle_all f k h in
    let after = settle_all f l h' in
    (
      All-map (Settled f h h') (Settled f h after)
          (λ q e. ground (arith, e, d, at-settle_all f l h' q)) k (settle_all-Settled f k h d),
      All-map (Settled f h' after) (Settled f h after)
          (λ q e. ground (arith, e, d, settle_all_either f k h q)) l (settle_all-Settled f l h' d),
    )

-- An abort fails everyone who waits for an assignment or a fetch and was not done before. One who waits for
-- a subscription, and is not among those, is forgotten without an answer: the future stays pending and
-- is on no list any more, while the list of those who wait for an assignment is kept.
pub abort_waiters_drops :
    (exc : Exception) (l : List ℕ) (q : ℕ) (s : SubscriptionState)
    → s.fetch_waiters ≡ some l
    → s.waiters.at q ≡ pending
    → All (λ w. w ≢ q) s.assignment_waiters
    → All (λ w. w ≢ q) l
    → let aborted = abort_waiters exc s in
      (aborted.0 ≡ ok tt)
      × All (Settled (failed exc) s.waiters aborted.1.waiters) s.assignment_waiters
      × All (Settled (failed exc) s.waiters aborted.1.waiters) l
      × (aborted.1.waiters.at q ≡ pending)
      × (aborted.1.subscription_waiters ≡ [])
      × (aborted.1.assignment_waiters ≡ s.assignment_waiters)
unfolding abort_waiters abort_fetch
abort_waiters_drops exc l q s e p a b =
    let h : Heap (Unit {0}) = settle_all (failed exc) s.assignment_waiters s.waiters in
    let (k, w) = settle_all_twice (failed exc) s.assignment_waiters l s.waiters refl in
    rw e (
      refl,
      k,
      w,
      at-settle_all_other (failed exc) l h q b
          ∙ at-settle_all_other (failed exc) s.assignment_waiters s.waiters q a
          ∙ p,
      refl,
      refl,
    )

-- A fetch whose body returns counts itself out again, and the idle time runs from its end. A fetch
-- whose body raises stays counted, so that from then on the fetcher is never idle: the time is 0.
pub fetch_context_lem :
    (now later : ℕ) (body : Action) (s : SubscriptionState)
    → s.fetch_count ≡ 0
    → (body (enter_fetch s)).1.fetch_count ≡ 1
    → ((body (enter_fetch s)).0 ≡ ok tt
        → fetcher_idle_time later (fetch_context now body s).1 ≡ later - now)
      × ((exc : Exception)
          → (body (enter_fetch s)).0 ≡ err exc
          → ((fetch_context now body s).0 ≡ err exc)
            × (fetcher_idle_time later (fetch_context now body s).1 ≡ 0))
unfolding fetch_context fetcher_idle_time
fetch_context_lem now later body s z one =
    (λ h. ground arith, λ exc h. (ground arith, ground arith))
