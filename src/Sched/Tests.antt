-- ===== src/Sched/Tests.antt =====
-- Runs of proc/sched.c of Kernel Assignment 3/vm/kernel on four threads.
use usc_projects.Prelude.{
  ℕ, ◌≡◌, refl, false, Option, none, some, List, [], ◌∷◌, ◌==◌, if◌then◌else◌, length, arith,
}
use usc_projects.Kernel.{Returns}
use usc_projects.Sched.{
  KtState, no_state, run, sleep, sleep_cancellable, Kthread, Ktqueue, Sched, sched_wakeup_on,
  sched_broadcast_on, sched_switch, sched_sleep_on,
}
use usc_projects.Sched.Links.{IsLinked}
use usc_projects.Sched.Wakeup.{Woken, sched_wakeup_on-Woken}
use usc_projects.Sched.Broadcast.{Emptied, sched_broadcast_on-Emptied}
use usc_projects.Sched.Cancel.{IsQueued}
use usc_projects.Sched.Switch.{Switched, Slept, sched_switch-Switched, sched_sleep_on-Slept}

-- Thread 1 runs, 2 and 3 sleep on queue 5, and 4 is runnable.
abbrev thread : KtState → Option ℕ → Kthread
thread st q = record { kt_state = st; kt_cancelled = false; kt_wchan = q }

abbrev queue : List ℕ → Ktqueue
queue l = record { tq_list = l; tq_size = length l }

abbrev four : Sched
four = record {
  threads = λ t.
      if t == 1
      then thread run none
      else if t == 2
      then thread sleep (some 5)
      else if t == 3
      then thread sleep_cancellable (some 5)
      else if t == 4
      then thread run (some 0)
      else thread no_state none;
  queues = λ q. if q == 0 then queue (4 ∷ []) else if q == 5 then queue (2 ∷ 3 ∷ []) else queue [];
  curthr = 1;
  ipl = 0;
}

four-IsLinked : IsLinked four
four-IsLinked = record {
  linked = λ q t. ground arith;
  sized = λ q. ground arith;
  fitting = λ t. ground arith;
}

four-IsQueued : IsQueued four
four-IsQueued t e = ground arith

sched_wakeup_on-Woken_example : Returns (Woken 5 four) (sched_wakeup_on 5 four)
sched_wakeup_on-Woken_example = sched_wakeup_on-Woken 5 four (omega arith) four-IsLinked

sched_broadcast_on-Emptied_example :
    Returns (Emptied 5 (2 ∷ 3 ∷ []) four) (sched_broadcast_on 5 four)
sched_broadcast_on-Emptied_example = sched_broadcast_on-Emptied 5 four (omega arith) four-IsLinked

sched_switch-Switched_example :
    Returns (λ r. Switched 0 r × IsLinked r.1 × IsQueued r.1) (sched_switch (5 ∷ []) four)
sched_switch-Switched_example =
    sched_switch-Switched (5 ∷ []) four four-IsLinked four-IsQueued (omega arith, tt)

sched_sleep_on-Slept_example :
    Returns
      (λ (left, s'). (left ≡ some []) × Slept sleep 5 4 [] four s')
      (sched_sleep_on sleep 5 [] four)
sched_sleep_on-Slept_example =
    sched_sleep_on-Slept sleep 5 4 [] [] four refl (omega arith) four-IsLinked refl refl
