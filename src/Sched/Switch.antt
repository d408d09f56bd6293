-- ===== src/Sched/Switch.antt =====
-- What sched_switch and the two sleeps of proc/sched.c in Kernel Assignment 3/vm/kernel do.
use usc_projects.Prelude.{
  ℕ, ◌<◌, ◌≡◌, ◌≢◌, refl, sym, ap, subst, ◌∙◌, inl, inr, true, false, Option, none, some, List, [],
  ◌∷◌, ◌++◌, arith, ◌==◌, Option-cases, All,
}
use usc_projects.Kernel.{Returns, returns, Returns-bind, Returns-mono}
use usc_projects.Sched.{
  KtState, run, Sched, kt_runq, set_state, ktqueue_dequeue, is_asleep, switch_to, switch_loop,
  sched_switch, sched_sleep_on, ipl_low,
}
use usc_projects.Sched.Links.{
  IsLinked, dequeue-linked, TakenOff, Dequeued, ktqueue_dequeue-Dequeued, ktqueue_enqueue-Enqueued,
}
use usc_projects.Sched.Wakeup.{Woken, sched_wakeup_on-Woken}
use usc_projects.Sched.Cancel.{IsQueued}

-- The thread that runs is a runnable one that was taken off the run queue, at the interrupt level
-- that was given; or the run queue is still empty and the kernel waits with interrupts on.
abbrev pub Switched : ℕ → Option (List ℕ) × Sched → Type 0
Switched level (none, s) = ((s.queues kt_runq).tq_list ≡ []) × (s.ipl ≡ ipl_low)
Switched level (some rest, s) =
    ((s.threads s.curthr).kt_state ≡ run) × ((s.threads s.curthr).kt_wchan ≡ none) × (s.ipl ≡ level)

ipl-IsLinked : (level : ℕ) (s : Sched) → IsLinked s → IsLinked (record s { ipl = level })
ipl-IsLinked level s v = record { linked = v.linked; sized = v.sized; fitting = v.fitting }

-- One try of the loop.
abbrev pub Tried : Sched → Option ℕ × Sched → Type 0
Tried s (none, s') = (s.queues kt_runq).tq_list ≡ []
Tried s (some t, s') =
    ((s.queues kt_runq).tq_list ≡ t ∷ (s'.queues kt_runq).tq_list)
    × IsLinked s'
    × IsQueued s'
    × ((s'.threads t).kt_state ≡ run)
    × ((s'.threads t).kt_wchan ≡ none)

dequeue-Tried : (s : Sched) → IsLinked s → IsQueued s → Tried s (ktqueue_dequeue kt_runq s)
dequeue-Tried s v queued = go (ktqueue_dequeue kt_runq s) (ktqueue_dequeue-Dequeued kt_runq s v)
  where
    go : (r : Option ℕ × Sched) → Dequeued kt_runq s r → Tried s r
    go (none, s') d = d.0
    go (some t, s') (e, off) = (
      e,
      off.links,
      (λ u. rw off.same_threads (ground (arith, off.stood, queued u, v.fitting t))),
      rw off.same_threads (ground (arith, off.stood, v.fitting t)),
      rw off.same_threads (ground arith),
    )

module _ (s : Sched) (v : IsLinked s) (queued : IsQueued s) where
  found-Tried :
      (t : ℕ)
      → (ktqueue_dequeue kt_runq s).0 ≡ some t
      → Tried s (some t, (ktqueue_dequeue kt_runq s).1)
  found-Tried t e =
      subst (λ o. Tried s (o, (ktqueue_dequeue kt_runq s).1)) e (dequeue-Tried s v queued)

  none-Tried : (ktqueue_dequeue kt_runq s).0 ≡ none → (s.queues kt_runq).tq_list ≡ []
  none-Tried e =
      subst (λ o. Tried s (o, (ktqueue_dequeue kt_runq s).1)) e (dequeue-Tried s v queued)

  found-Switched :
      (level t : ℕ) (rest : List ℕ)
      → (ktqueue_dequeue kt_runq s).0 ≡ some t
      → Switched level (switch_to level rest t (ktqueue_dequeue kt_runq s).1)
        × IsLinked (switch_to level rest t (ktqueue_dequeue kt_runq s).1).1
        × IsQueued (switch_to level rest t (ktqueue_dequeue kt_runq s).1).1
  unfolding switch_to
  found-Switched level t rest e =
      let (first, links, queues, runs, off) = found-Tried t e in
      (
        (runs, off, refl),
        record { linked = links.linked; sized = links.sized; fitting = links.fitting },
        queues,
      )

Woken-IsQueued :
    (q : ℕ) (s : Sched) (r : Option ℕ × Sched)
    → IsLinked s
    → IsQueued s
    → Woken q s r
    → IsLinked r.1 × IsQueued r.1
Woken-IsQueued q s (none, s') v queued (e, same) =
    subst (λ x. IsLinked x × IsQueued x) (sym same) (v, queued)
Woken-IsQueued q s (some t, s') v queued (e, moved) =
    (moved.links, λ u. ground (arith, moved.same_threads u, queued u))

loop-Switched :
    (level : ℕ) (interrupts : List ℕ) (s : Sched)
    → IsLinked s
    → IsQueued s
    → All (λ q. 0 < q) interrupts
    → Returns (λ r. Switched level r × IsLinked r.1 × IsQueued r.1) (switch_loop level interrupts s)
unfolding switch_loop
loop-Switched level [] s v queued others = elim (Option-cases (ktqueue_dequeue kt_runq s).0) [
  | inl e ↦
      rw (e, switch_loop) (returns ((none-Tried s v queued e, refl), ipl-IsLinked 0 s v, queued))
  | inr (t, e) ↦ rw (e, switch_loop) (returns (found-Switched s v queued level t [] e))
]
loop-Switched level (q ∷ rest) s v queued others =
    elim (Option-cases (ktqueue_dequeue kt_runq s).0) [
      | inl e ↦
          rw (e, switch_loop)
            (Returns-bind
              (sched_wakeup_on-Woken q (record s { ipl = 0 }) others.0 (ipl-IsLinked 0 s v))
              (λ r w.
                let (links, queues) =
                  Woken-IsQueued q (record s { ipl = 0 }) r (ipl-IsLinked 0 s v) queued w in
                loop-Switched level rest (record r.1 { ipl = 255 }) (ipl-IsLinked 255 r.1 links)
                  queues others.1))
      | inr (t, e) ↦ rw (e, switch_loop) (returns (found-Switched s v queued level t (q ∷ rest) e))
    ]

-- Where the links hold and every sleeping thread is on a queue, and whatever interrupts come, each
-- of which wakes a queue to sleep on, sched_switch never panics, and keeps both. Either the thread
-- that runs next has the state KT_RUN, is on no queue, and has the interrupt level that sched_switch
-- was called with, or the run queue is empty after the last interrupt and interrupts are let in.
pub sched_switch-Switched :
    (interrupts : List ℕ) (s : Sched)
    → IsLinked s
    → IsQueued s
    → All (λ q. 0 < q) interrupts
    → Returns (λ r. Switched s.ipl r × IsLinked r.1 × IsQueued r.1) (sched_switch interrupts s)
unfolding sched_switch
sched_switch-Switched interrupts s v queued others =
    loop-Switched s.ipl interrupts (record s { ipl = 255 }) (ipl-IsLinked 255 s v) queued others

-- The current thread sleeps: it stands last on the queue, and the other threads and queues are as
-- they were, but that the first of the run queue has left it and runs.
pub record Slept (st : KtState) (q t : ℕ) (rest : List ℕ) (s s' : Sched) : Type 0 where
  pub links : IsLinked s'
  pub waits : (s'.queues q).tq_list ≡ (s.queues q).tq_list ++ s.curthr ∷ []
  pub sleeps :
      s'.threads s.curthr ≡ record (s.threads s.curthr) { kt_state = st; kt_wchan = some q }
  pub runs : s'.curthr ≡ t
  pub picked : s'.threads t ≡ record (s.threads t) { kt_wchan = none }
  pub run_queue : (s'.queues kt_runq).tq_list ≡ rest
  pub others : (u : ℕ) → s.curthr ≢ u → t ≢ u → s'.threads u ≡ s.threads u
  pub other_queues : (p : ℕ) → q ≢ p → kt_runq ≢ p → (s'.queues p).tq_list ≡ (s.queues p).tq_list
  pub same_ipl : s'.ipl ≡ s.ipl

abbrev First : ℕ → List ℕ → Sched → Option ℕ × Sched → Type 0
First t rest s (o, s') =
    (o ≡ some t) × TakenOff kt_runq t s s' × ((s'.queues kt_runq).tq_list ≡ rest)

dequeue-First :
    (t : ℕ) (rest : List ℕ) (s : Sched)
    → IsLinked s
    → (s.queues kt_runq).tq_list ≡ t ∷ rest
    → First t rest s (ktqueue_dequeue kt_runq s)
dequeue-First t rest s v e = go (ktqueue_dequeue kt_runq s) (ktqueue_dequeue-Dequeued kt_runq s v)
  where
    go : (r : Option ℕ × Sched) → Dequeued kt_runq s r → First t rest s r
    go (none, s') d = absurd (ground (arith, e, d.0))
    go (some u, s') (first, off) =
        let is : u ≡ t = ground (arith, e, first) in
        (ap some is, subst (λ x. TakenOff kt_runq x s s') is off, ground (arith, e, first))

abbrev pub Ran : ℕ → List ℕ → List ℕ → Sched → Option (List ℕ) × Sched → Type 0
Ran t interrupts rest s (o, s') =
    (o ≡ some interrupts)
    × TakenOff kt_runq t s (record s' { curthr = s.curthr })
    × ((s'.queues kt_runq).tq_list ≡ rest)
    × (s'.curthr ≡ t)

loop-Ran :
    (t level : ℕ) (interrupts rest : List ℕ) (s : Sched)
    → First t rest s (ktqueue_dequeue kt_runq s)
    → Returns (Ran t interrupts rest (record s { ipl = level })) (switch_loop level interrupts s)
unfolding switch_loop switch_to
loop-Ran t level interrupts rest s (got, off, left) = go interrupts
  where
    ran :
        (l : List ℕ)
        → Ran t l rest
            (record s { ipl = level })
            (switch_to level l t (ktqueue_dequeue kt_runq s).1)
    ran l = (
      refl,
      record {
        links =
            ipl-IsLinked level (record (ktqueue_dequeue kt_runq s).1 { curthr = s.curthr })
              (record {
                linked = off.links.linked;
                sized = off.links.sized;
                fitting = off.links.fitting;
              });
        stood = off.stood;
        others = off.others;
        same_threads = off.same_threads;
        same_curthr = refl;
        same_ipl = refl;
      },
      left,
      refl,
    )

    go : (l : List ℕ) → Returns (Ran t l rest (record s { ipl = level })) (switch_loop level l s)
    go [] = rw (got, switch_loop) (returns (ran []))
    go (q ∷ l) = rw (got, switch_loop) (returns (ran (q ∷ l)))

pub switch-Ran :
    (t : ℕ) (interrupts rest : List ℕ) (s : Sched)
    → IsLinked s
    → (s.queues kt_runq).tq_list ≡ t ∷ rest
    → Returns (Ran t interrupts rest s) (sched_switch interrupts s)
unfolding sched_switch
switch-Ran t interrupts rest s v e =
    loop-Ran t s.ipl interrupts rest (record s { ipl = 255 })
      (dequeue-First t rest (record s { ipl = 255 }) (ipl-IsLinked 255 s v) e)

-- The running thread, on no queue, goes to sleep on a queue while others are runnable. This never
-- panics, waits for no interrupt and keeps the links. The thread stands last on the queue with the
-- state that was asked for, the thread that has been runnable longest runs next, at the same
-- interrupt level, and no other thread or queue changes.
pub sched_sleep_on-Slept :
    (st : KtState) (q t : ℕ) (interrupts rest : List ℕ) (s : Sched)
    → is_asleep st ≡ true
    → 0 < q
    → IsLinked s
    → (s.threads s.curthr).kt_wchan ≡ none
    → (s.queues kt_runq).tq_list ≡ t ∷ rest
    → Returns
        (λ (left, s'). (left ≡ some interrupts) × Slept st q t rest s s')
        (sched_sleep_on st q interrupts s)
unfolding sched_sleep_on
sched_sleep_on-Slept st q t interrupts rest s asleep sleepers v off e =
    let ready : Sched = set_state s.curthr st s in
    let ready-IsLinked : IsLinked ready = record {
      linked = λ p u. ground (arith, v.linked p u);
      sized = v.sized;
      fitting = λ u. ground (arith, off, v.fitting u);
    } in
    let ready_one : (s.threads t).kt_wchan ≡ some kt_runq = dequeue-linked kt_runq t rest s v e in
    let differ : (s.curthr == t) ≡ false = ground (arith, ready_one, off) in
    Returns-bind
      (ktqueue_enqueue-Enqueued q s.curthr ready ready-IsLinked (ground (arith, off))
        (ground (arith, asleep, sleepers)))
      (λ s1 enq.
        Returns-mono
          (switch-Ran t interrupts rest s1 enq.links
            (ground (arith, e, sleepers, enq.lists kt_runq)))
          (λ (o, s2) (all, taken, left, cur). (
            all,
            record {
              links = record {
                linked = taken.links.linked;
                sized = taken.links.sized;
                fitting = taken.links.fitting;
              };
              waits = ground (arith, sleepers, taken.others q, enq.lists q);
              sleeps = rw (taken.same_threads, enq.same_threads) (ground (arith, differ));
              runs = cur;
              picked = rw (taken.same_threads, enq.same_threads) (ground (arith, differ));
              run_queue = left;
              others = λ u not_cur not_t.
                  rw (taken.same_threads, enq.same_threads) (ground (arith, not_cur, not_t));
              other_queues =
                  λ p not_q not_run. ground (arith, not_q, not_run, taken.others p, enq.lists p);
              same_ipl = taken.same_ipl ∙ enq.same_ipl;
            },
          )))
