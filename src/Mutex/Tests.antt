-- ===== src/Mutex/Tests.antt =====
-- Runs of proc/kmutex.c of Kernel Assignment 3/vm/kernel on two threads.
use usc_projects.Prelude.{
  ℕ, ◌≡◌, refl, false, Option, none, some, List, [], ◌∷◌, ◌==◌, if◌then◌else◌, length, arith,
}
use usc_projects.Kernel.{Outcome, ok, Returns, ◌>>=◌}
use usc_projects.Sched.{
  KtState, no_state, run, sleep, Kthread, Ktqueue, Sched, ktqueue_enqueue, ktqueue_dequeue,
  sched_make_runnable, wake, sched_wakeup_on, switch_to, switch_loop, sched_switch, sched_sleep_on,
}
use usc_projects.Mutex.{Kmutex, lock_as, kmutex_lock, lock_woken, given_away, kmutex_unlock}
use usc_projects.Mutex.Handover.{HandedOver, kmutex_unlock-HandedOver}
use usc_projects.Mutex.Late.{IsStuck, cancelled_late, cancelled-holder-panics}
use usc_projects.Mutex.Step.{
  outside, waiting, inside, World, moved_on, locks, yields, waits, unlocks, woken, Steps, start,
  next, IsFresh,
}
use usc_projects.Mutex.Exclusion.{mutual_exclusion}

abbrev thread : KtState → Option ℕ → Kthread
thread st q = record { kt_state = st; kt_cancelled = false; kt_wchan = q }

abbrev queue : List ℕ → Ktqueue
queue l = record { tq_list = l; tq_size = length l }

-- Thread 1 runs and holds the mutex, and thread 2 sleeps on the mutex's queue, number 5.
abbrev held : Kmutex
held = record { km_waitq = 5; km_holder = some 1 }

abbrev contended : Sched
contended = record {
  threads = λ t.
      if t == 1
      then thread run none
      else if t == 2
      then thread sleep (some 5)
      else thread no_state none;
  queues = λ q. if q == 5 then queue (2 ∷ []) else queue [];
  curthr = 1;
  ipl = 0;
}

kmutex_unlock-HandedOver_example :
    Returns
      (λ r. HandedOver (2 ∷ []) held contended r × (r.0.km_waitq ≡ 5))
      (kmutex_unlock held contended)
kmutex_unlock-HandedOver_example =
    kmutex_unlock-HandedOver held contended (omega arith)
      (record {
        linked = λ q t. ground arith;
        sized = λ q. ground arith;
        fitting = λ t. ground arith;
      })
      refl refl

-- Thread 1 runs, and thread 2, which holds the mutex, is runnable.
abbrev held_by_other : Kmutex
held_by_other = record { km_waitq = 5; km_holder = some 2 }

abbrev ready_holder : Sched
ready_holder = record {
  threads = λ t.
      if t == 1
      then thread run none
      else if t == 2
      then thread run (some 0)
      else thread no_state none;
  queues = λ q. if q == 0 then queue (2 ∷ []) else queue [];
  curthr = 1;
  ipl = 0;
}

cancelled-holder-panics_example : Returns (IsStuck 1) (cancelled_late held_by_other ready_holder)
cancelled-holder-panics_example =
    cancelled-holder-panics 2 held_by_other ready_holder (omega arith)
      (record {
        linked = λ q t. ground arith;
        sized = λ q. ground arith;
        fitting = λ t. ground arith;
      })
      refl refl (omega arith) refl refl

-- Thread 1 runs and thread 2 is runnable; nobody has used the mutex.
abbrev fresh : World
fresh = record {
  mtx = record { km_waitq = 5; km_holder = none };
  sched = record {
    threads = λ t.
        if t == 1
        then thread run none
        else if t == 2
        then thread run (some 0)
        else thread no_state none;
    queues = λ q. if q == 0 then queue (2 ∷ []) else queue [];
    curthr = 1;
    ipl = 0;
  };
  pc = λ t. outside;
}

fresh-IsFresh : IsFresh fresh
fresh-IsFresh = record {
  links = record {
    linked = λ q t. ground arith;
    sized = λ q. ground arith;
    fitting = λ t. ground arith;
  };
  queued = λ t e. ground arith;
  waitq = omega arith;
  unheld = refl;
  empty = refl;
  unused = λ t. (refl, ground arith);
  running = refl;
}

-- The scheduler after a run that succeeds.
abbrev after : Sched → Outcome (Option (List ℕ) × Sched) → Sched
after s (ok r) = r.1
after s out = s

-- Thread 1 takes the mutex and lets thread 2 run, which has to wait. Thread 1 unlocks it, lets
-- thread 2 run again, and thread 2 is inside.
abbrev locked_1 : World
locked_1 = moved_on fresh held fresh.sched inside

abbrev running_2 : World
running_2 = record locked_1 {
  sched = after locked_1.sched (sched_make_runnable 1 locked_1.sched >>= sched_switch []);
}

abbrev waiting_2 : World
waiting_2 =
    moved_on running_2 held (after running_2.sched (sched_sleep_on sleep 5 [] running_2.sched))
      waiting

in_order : Steps fresh waiting_2
unfolding kmutex_lock lock_as ktqueue_enqueue ktqueue_dequeue sched_make_runnable switch_to
    switch_loop sched_switch sched_sleep_on
in_order =
    next
      (next (next start (locks [] held fresh.sched refl refl))
        (yields [] [] running_2.sched tt refl))
      (waits [] [] held waiting_2.sched refl tt refl)

-- The scheduler after a thread was woken.
abbrev after_wake : Sched → Outcome (Option ℕ × Sched) → Sched
after_wake s (ok r) = r.1
after_wake s out = s

abbrev held_2 : Kmutex
held_2 = record { km_waitq = 5; km_holder = some 2 }

abbrev handed_2 : World
handed_2 =
    moved_on waiting_2 held_2 (after_wake waiting_2.sched (sched_wakeup_on 5 waiting_2.sched))
      outside

abbrev back_2 : World
back_2 = record handed_2 {
  sched = after handed_2.sched (sched_make_runnable 1 handed_2.sched >>= sched_switch []);
}

abbrev inside_2 : World
inside_2 = moved_on back_2 (lock_woken back_2.mtx back_2.sched) back_2.sched inside

in_turn : Steps fresh inside_2
unfolding kmutex_unlock given_away wake sched_wakeup_on ktqueue_enqueue ktqueue_dequeue
    sched_make_runnable switch_to switch_loop sched_switch sched_sleep_on
in_turn =
    next
      (next (next in_order (unlocks held_2 handed_2.sched refl refl))
        (yields [] [] back_2.sched tt refl))
      (woken refl)

mutual_exclusion_example : (inside_2.mtx.km_holder ≡ some 2) × (◌≡◌ {A = ℕ} 2 2)
unfolding lock_woken wake sched_wakeup_on ktqueue_enqueue ktqueue_dequeue sched_make_runnable
    switch_to switch_loop sched_switch sched_sleep_on
mutual_exclusion_example = mutual_exclusion fresh inside_2 2 2 fresh-IsFresh in_turn refl refl
