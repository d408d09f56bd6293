-- ===== src/Sched/Wakeup.antt =====
-- What waking threads up does: sched_wakeup_on of proc/sched.c
-- in Kernel Assignment 3/vm/kernel.
use usc_projects.Prelude.{ℕ, ◌<◌, ◌≡◌, ◌≢◌, ◌∙◌, true, Option, none, some, [], ◌∷◌, ◌++◌, arith}
use usc_projects.Kernel.{Returns, returns, Returns-bind, Returns-mono}
use usc_projects.Sched.{
  Sched, kt_runq, ktqueue_dequeue, sched_make_runnable, is_asleep, wake, sched_wakeup_on,
}
use usc_projects.Sched.Links.{
  IsLinked, Dequeued, ktqueue_dequeue-Dequeued, runnable, TakenOff,
  sched_make_runnable-MadeRunnable,
}

-- A thread that stood on the queue is now the last of the run queue, and the others have not moved.
pub record Moved (q t : ℕ) (s s' : Sched) : Type 0 where
  pub links : IsLinked s'
  pub run_queue : (s'.queues kt_runq).tq_list ≡ (s.queues kt_runq).tq_list ++ t ∷ []
  pub others : (p : ℕ) → q ≢ p → kt_runq ≢ p → (s'.queues p).tq_list ≡ (s.queues p).tq_list
  pub same_threads : (u : ℕ) → s'.threads u ≡ runnable t s.threads u
  pub same_curthr : s'.curthr ≡ s.curthr
  pub same_ipl : s'.ipl ≡ s.ipl

-- A thread that was taken off a queue to sleep on can be made runnable.
pub make-Moved :
    (q t : ℕ) (s s' : Sched)
    → 0 < q
    → TakenOff q t s s'
    → Returns
        (λ s''. Moved q t s s'' × ((s''.queues q).tq_list ≡ (s'.queues q).tq_list))
        (sched_make_runnable t s')
make-Moved q t s s' asleep off =
    Returns-mono
      (sched_make_runnable-MadeRunnable t s' off.links (rw off.same_threads (ground arith)))
      (λ s'' made. (
        record {
          links = made.links;
          run_queue = ground (arith, asleep, made.lists kt_runq, off.others kt_runq);
          others =
              λ p not_q not_run. ground (arith, not_q, not_run, made.lists p, off.others p not_q);
          same_threads = λ u. ground (arith, made.same_threads u, off.same_threads);
          same_curthr = made.same_curthr ∙ off.same_curthr;
          same_ipl = made.same_ipl ∙ off.same_ipl;
        },
        ground (arith, asleep, made.lists q),
      ))

-- The thread that was woken, if there was one on the queue, and what has changed.
abbrev pub Woken : ℕ → Sched → Option ℕ × Sched → Type 0
Woken q s (none, s') = ((s.queues q).tq_list ≡ []) × (s' ≡ s)
Woken q s (some t, s') = ((s.queues q).tq_list ≡ t ∷ (s'.queues q).tq_list) × Moved q t s s'

-- Waking up a queue that threads sleep on never panics, and keeps the links between the threads and
-- the queues. If the queue is empty, nothing changes. Otherwise the thread that has waited longest
-- is taken off it, with the rest left in order, is put behind the run queue with the state KT_RUN,
-- and nothing else changes.
pub sched_wakeup_on-Woken :
    (q : ℕ) (s : Sched) → 0 < q → IsLinked s → Returns (Woken q s) (sched_wakeup_on q s)
unfolding sched_wakeup_on wake
sched_wakeup_on-Woken q s asleep v = go (ktqueue_dequeue q s) (ktqueue_dequeue-Dequeued q s v)
  where
    go : (r : Option ℕ × Sched) → Dequeued q s r → Returns (Woken q s) (wake r)
    go (none, s') d = returns d
    go (some t, s') (e, off) =
        let sleeps : is_asleep (s'.threads t).kt_state ≡ true =
          rw off.same_threads (ground (arith, asleep, off.stood, v.fitting t)) in
        rw sleeps (
          Returns-bind (make-Moved q t s s' asleep off)
            (λ s'' (moved, same). returns (rw same e, moved)))
