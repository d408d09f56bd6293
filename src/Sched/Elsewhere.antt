-- ===== src/Sched/Elsewhere.antt =====
-- What the running thread does on other queues of proc/sched.c leaves one queue alone.
use usc_projects.Prelude.{
  ℕ, ◌<◌, ◌≡◌, ◌≢◌, refl, ◌∙◌, inl, inr, true, Option, none, some, List, arith, ◌==◌, Bool-cases,
}
use usc_projects.Kernel.{◌>>=◌, Returns, Returns-bind, Returns-mono}
use usc_projects.Sched.{
  KtState, Sched, set_state, ktqueue_enqueue, is_asleep, sched_switch, sched_sleep_on,
  sched_wakeup_on, sched_make_runnable,
}
use usc_projects.Sched.Links.{IsLinked, sched_make_runnable-MadeRunnable, ktqueue_enqueue-Enqueued}
use usc_projects.Sched.Wakeup.{Woken, sched_wakeup_on-Woken}
use usc_projects.Sched.Cancel.{IsQueued}
use usc_projects.Sched.Keeps.{Keeps, Keeps-trans, switch-Keeps, Runs, Elsewhere}

module _ (m : ℕ) where
  -- The current thread stands on the queue and the other threads there are as they were.
  pub record Joined (st : KtState) (q : ℕ) (s s' : Sched) : Type 0 where
    pub links : IsLinked s'
    pub queued : IsQueued s'
    pub joins :
        s'.threads s.curthr ≡ record (s.threads s.curthr) { kt_state = st; kt_wchan = some q }
    pub others : (u : ℕ) → s.curthr ≢ u → s'.threads u ≡ s.threads u

  pub enqueue-Joined :
      (st : KtState) (q : ℕ) (s : Sched)
      → is_asleep st ≡ true
      → 0 < q
      → IsLinked s
      → IsQueued s
      → (s.threads s.curthr).kt_wchan ≡ none
      → Returns
          (λ s'.
            Joined st q s s' × ((p : ℕ) → q ≢ p → (s'.queues p).tq_list ≡ (s.queues p).tq_list))
          (ktqueue_enqueue q s.curthr (set_state s.curthr st s))
  enqueue-Joined st q s sleeps sleepers v queued off =
      let ready : Sched = set_state s.curthr st s in
      let ready-IsLinked : IsLinked ready = record {
        linked = λ p u. ground (arith, v.linked p u);
        sized = v.sized;
        fitting = λ u. ground (arith, off, v.fitting u);
      } in
      Returns-mono
        (ktqueue_enqueue-Enqueued q s.curthr ready ready-IsLinked (ground (arith, off))
          (ground (arith, sleeps, sleepers)))
        (λ s' enq. (
          record {
            links = enq.links;
            queued = λ u. rw enq.same_threads (ground (arith, queued u));
            joins = rw enq.same_threads (ground arith);
            others = λ u other. rw enq.same_threads (ground (arith, other));
          },
          λ p other. ground (arith, other, enq.lists p),
        ))

  -- Sleeping is joining a queue and then scheduling.
  pub sleep-Joined :
      (st : KtState) (q : ℕ) (interrupts : List ℕ) (s : Sched)
      → is_asleep st ≡ true
      → 0 < q
      → 0 < m
      → IsLinked s
      → IsQueued s
      → Elsewhere m interrupts
      → (s.threads s.curthr).kt_wchan ≡ none
      → Returns
          (λ r.
            (s1 : Sched) × Joined st q s s1
            × ((p : ℕ) → q ≢ p → (s1.queues p).tq_list ≡ (s.queues p).tq_list)
            × Keeps m s1 r.1
            × Runs m r)
          (sched_sleep_on st q interrupts s)
  unfolding sched_sleep_on
  sleep-Joined st q interrupts s sleeps sleepers waitq v queued others off =
      Returns-bind (enqueue-Joined st q s sleeps sleepers v queued off) (λ s1 (joined, lists).
        Returns-mono (switch-Keeps m interrupts s1 waitq joined.links joined.queued others)
          (λ r (k, runs). (s1, joined, lists, k, runs)))

  -- Sleeping on another queue.
  slept-Keeps :
      (st : KtState) (q : ℕ) (s s1 : Sched)
      → q ≢ m
      → Joined st q s s1
      → (s.threads s.curthr).kt_wchan ≡ none
      → ((p : ℕ) → q ≢ p → (s1.queues p).tq_list ≡ (s.queues p).tq_list)
      → Keeps m s s1
  slept-Keeps st q s s1 differ joined off lists = record {
    links = joined.links;
    queued = joined.queued;
    stay = λ u on. joined.others u (λ is. cc (is, on, off));
    stood = λ u on. elim (Bool-cases (s.curthr == u)) [
      | inl is ↦ absurd (ground (arith, is, on, joined.joins, differ))
      | inr isnt ↦ rw⁻¹ (joined.others u (ground (arith, isnt))) on
    ];
    same_flags = λ u. elim (Bool-cases (s.curthr == u)) [
      | inl is ↦ ground (arith, is, joined.joins)
      | inr isnt ↦ rw (joined.others u (ground (arith, isnt))) refl
    ];
    same_list = lists m differ;
  }

  pub sleep-Keeps :
      (st : KtState) (q : ℕ) (interrupts : List ℕ) (s : Sched)
      → is_asleep st ≡ true
      → 0 < q
      → q ≢ m
      → 0 < m
      → IsLinked s
      → IsQueued s
      → Elsewhere m interrupts
      → (s.threads s.curthr).kt_wchan ≡ none
      → Returns (λ r. Keeps m s r.1 × Runs m r) (sched_sleep_on st q interrupts s)
  sleep-Keeps st q interrupts s nods sleepers differ waitq v queued others off =
      Returns-mono (sleep-Joined st q interrupts s nods sleepers waitq v queued others off)
        (λ r (s1, joined, lists, k, runs).
          (Keeps-trans m (slept-Keeps st q s s1 differ joined off lists) k, runs))

  -- Letting another thread run.
  pub yield-Keeps :
      (interrupts : List ℕ) (s : Sched)
      → 0 < m
      → IsLinked s
      → IsQueued s
      → Elsewhere m interrupts
      → (s.threads s.curthr).kt_wchan ≡ none
      → Returns
          (λ r. Keeps m s r.1 × Runs m r)
          (sched_make_runnable s.curthr s >>= sched_switch interrupts)
  yield-Keeps interrupts s waitq v queued others off =
      Returns-bind (sched_make_runnable-MadeRunnable s.curthr s v off) (λ s1 made.
        let k : Keeps m s s1 = record {
          links = made.links;
          queued = λ u. ground (arith, made.same_threads u, queued u);
          stay = λ u on. made.same_threads u ∙ ground (arith, on, off);
          stood = λ u. ground (arith, waitq, made.same_threads u);
          same_flags = λ u. ground (arith, made.same_threads u);
          same_list = ground (arith, waitq, made.lists m);
        } in
        Returns-mono (switch-Keeps m interrupts s1 waitq k.links k.queued others)
          (λ r (k', runs). (Keeps-trans m k k', runs)))

  -- Waking up another queue: the running thread goes on.
  pub wakeup-running :
      (q : ℕ) (s : Sched)
      → 0 < q
      → IsLinked s
      → (s.threads s.curthr).kt_wchan ≡ none
      → Returns (λ r. (r.1.threads r.1.curthr).kt_wchan ≡ none) (sched_wakeup_on q s)
  wakeup-running q s sleepers v off = Returns-mono (sched_wakeup_on-Woken q s sleepers v) goes_on
    where
      goes_on : (r : Option ℕ × Sched) → Woken q s r → (r.1.threads r.1.curthr).kt_wchan ≡ none
      goes_on (none, s') (e, same) = rw same off
      goes_on (some t, s') (e, moved) =
          rw moved.same_curthr (ground (arith, e, off, v.linked q t, moved.same_threads s.curthr))
