-- ===== src/Mutex.antt =====
-- Mutexes: proc/kmutex.c of Kernel Assignment 3/vm/kernel, over the scheduler.
pub mod Step
pub mod Handover
pub mod Late
pub mod Safe
pub mod Lock
pub mod Unlock
pub mod Interrupt
pub mod Exclusion
mod Tests
use usc_projects.Prelude.{ℕ, Bool, true, false, Option, none, some, List, ◌==◌, if◌then◌else◌}
use usc_projects.Kernel.{Code, done, fail, eintr, Outcome, ok, panic, ◌>>=◌}
use usc_projects.Sched.{
  KtState, sleep, sleep_cancellable, Kthread, Sched, sched_queue_init, sched_sleep_on,
  sched_wakeup_on, sleep_result,
}

-- `kmutex_t`: the number of the wait queue, and the holder, NULL as `none`.
pub record Kmutex : Type 0 where
  pub km_waitq : ℕ
  pub km_holder : Option ℕ

pub kmutex_init : Kmutex → Sched → Kmutex × Sched
kmutex_init mtx s = (record mtx { km_holder = none }, sched_queue_init mtx.km_waitq s)

-- `locked`: the function has returned 0. `asleep`: its thread sleeps, with what sched_switch says
-- of the thread that runs instead.
pub data Locking : Type 0 where
  locked : Locking
  asleep : Option (List ℕ) → Locking

abbrev pub is_holder : Option ℕ → ℕ → Bool
is_holder none t = false
is_holder (some h) t = h == t

-- kmutex_lock and kmutex_lock_cancellable up to the moment their thread sleeps.
pub lock_as : KtState → List ℕ → Kmutex → Sched → Outcome (Locking × Kmutex × Sched)
lock_as st interrupts mtx s =
    if is_holder mtx.km_holder s.curthr then panic else elim mtx.km_holder [
      | none ↦ ok (locked, record mtx { km_holder = some s.curthr }, s)
      | some _ ↦
          sched_sleep_on st mtx.km_waitq interrupts s >>= λ (next, s'). ok (asleep next, mtx, s')
    ]

pub kmutex_lock : List ℕ → Kmutex → Sched → Outcome (Locking × Kmutex × Sched)
unfolding lock_as
kmutex_lock = lock_as sleep

pub kmutex_lock_cancellable : List ℕ → Kmutex → Sched → Outcome (Locking × Kmutex × Sched)
unfolding lock_as
kmutex_lock_cancellable = lock_as sleep_cancellable

-- What kmutex_lock does when its thread runs again.
pub lock_woken : Kmutex → Sched → Kmutex
lock_woken mtx s = record mtx { km_holder = some s.curthr }

-- What kmutex_lock_cancellable does when its thread runs again, and what it returns.
pub after_sleep : Code → Kmutex → ℕ → Code × Kmutex
after_sleep (fail eintr) mtx t = (fail eintr, mtx)
after_sleep val mtx t = (val, record mtx { km_holder = some t })

pub lock_cancellable_woken : Kmutex → Sched → Code × Kmutex
unfolding after_sleep
lock_cancellable_woken mtx s = after_sleep (sleep_result (s.threads s.curthr)) mtx s.curthr

-- The last assertion of kmutex_unlock.
pub given_away : ℕ → Kmutex × Sched → Outcome (Kmutex × Sched)
given_away t (mtx, s) = if is_holder mtx.km_holder t then panic else ok (mtx, s)

pub kmutex_unlock : Kmutex → Sched → Outcome (Kmutex × Sched)
unfolding given_away
kmutex_unlock mtx s =
    if is_holder mtx.km_holder s.curthr
    then (elim ((s.queues mtx.km_waitq).tq_size == 0) [
      | true ↦ ok (record mtx { km_holder = none }, s)
      | false ↦ sched_wakeup_on mtx.km_waitq s >>= λ (t, s'). ok (record mtx { km_holder = t }, s')
    ]
        >>= given_away s.curthr)
    else panic
