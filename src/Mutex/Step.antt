-- ===== src/Mutex/Step.antt =====
-- Threads that use one mutex of proc/kmutex.c, switched by proc/sched.c, as a step relation.
use usc_projects.Prelude.{ℕ, ◌<◌, ◌≡◌, ◌≢◌, true, Option, none, some, List, [], update}
use usc_projects.Kernel.{done, fail, eintr, ok, ◌>>=◌}
use usc_projects.Sched.{
  KtState, Sched, is_asleep, sched_make_runnable, sched_switch, sched_sleep_on, sched_wakeup_on,
  sched_cancel,
}
use usc_projects.Sched.Links.{IsLinked}
use usc_projects.Sched.Cancel.{IsQueued}
use usc_projects.Sched.Keeps.{Elsewhere}
use usc_projects.Mutex.{
  Kmutex, locked, asleep, kmutex_lock, kmutex_lock_cancellable, lock_woken, lock_cancellable_woken,
  kmutex_unlock,
}

-- Where a thread is: outside of the section that the mutex guards, asleep in kmutex_lock or in
-- kmutex_lock_cancellable, or inside.
pub data Pc : Type 0 where
  outside waiting waiting_cancellable inside : Pc

pub record World : Type 0 where
  pub mtx : Kmutex
  pub sched : Sched
  pub pc : ℕ → Pc

abbrev pub now : World → Pc
now w = w.pc w.sched.curthr

-- The current thread has gone on.
abbrev pub moved_on : World → Kmutex → Sched → Pc → World
moved_on w mtx s p = record { mtx = mtx; sched = s; pc = update w.pc w.sched.curthr p }

-- What the current thread may do: use the mutex, cancel a thread, wake or sleep on another queue,
-- or let another thread run. Interrupts wake other queues.
pub data Step (w : World) : World → Type 0 where
  locks :
      (interrupts : List ℕ) (mtx : Kmutex) (s : Sched)
      → now w ≡ outside
      → kmutex_lock interrupts w.mtx w.sched ≡ ok (locked, mtx, s)
      → Step w (moved_on w mtx s inside)
  waits :
      (interrupts rest : List ℕ) (mtx : Kmutex) (s : Sched)
      → now w ≡ outside
      → Elsewhere w.mtx.km_waitq interrupts
      → kmutex_lock interrupts w.mtx w.sched ≡ ok (asleep (some rest), mtx, s)
      → Step w (moved_on w mtx s waiting)
  woken : now w ≡ waiting → Step w (moved_on w (lock_woken w.mtx w.sched) w.sched inside)
  locks_cancellable :
      (interrupts : List ℕ) (mtx : Kmutex) (s : Sched)
      → now w ≡ outside
      → kmutex_lock_cancellable interrupts w.mtx w.sched ≡ ok (locked, mtx, s)
      → Step w (moved_on w mtx s inside)
  waits_cancellable :
      (interrupts rest : List ℕ) (mtx : Kmutex) (s : Sched)
      → now w ≡ outside
      → Elsewhere w.mtx.km_waitq interrupts
      → kmutex_lock_cancellable interrupts w.mtx w.sched ≡ ok (asleep (some rest), mtx, s)
      → Step w (moved_on w mtx s waiting_cancellable)
  woken_cancellable :
      (mtx : Kmutex)
      → now w ≡ waiting_cancellable
      → lock_cancellable_woken w.mtx w.sched ≡ (done 0, mtx)
      → Step w (moved_on w mtx w.sched inside)
  interrupted :
      (mtx : Kmutex)
      → now w ≡ waiting_cancellable
      → lock_cancellable_woken w.mtx w.sched ≡ (fail eintr, mtx)
      → Step w (moved_on w mtx w.sched outside)
  unlocks :
      (mtx : Kmutex) (s : Sched)
      → now w ≡ inside
      → kmutex_unlock w.mtx w.sched ≡ ok (mtx, s)
      → Step w (moved_on w mtx s outside)
  cancels : (t : ℕ) (s : Sched) → sched_cancel t w.sched ≡ ok s → Step w (record w { sched = s })
  wakes :
      (q : ℕ) (t : Option ℕ) (s : Sched)
      → 0 < q
      → q ≢ w.mtx.km_waitq
      → sched_wakeup_on q w.sched ≡ ok (t, s)
      → Step w (record w { sched = s })
  sleeps :
      (st : KtState) (q : ℕ) (interrupts rest : List ℕ) (s : Sched)
      → is_asleep st ≡ true
      → 0 < q
      → q ≢ w.mtx.km_waitq
      → Elsewhere w.mtx.km_waitq interrupts
      → sched_sleep_on st q interrupts w.sched ≡ ok (some rest, s)
      → Step w (record w { sched = s })
  yields :
      (interrupts rest : List ℕ) (s : Sched)
      → Elsewhere w.mtx.km_waitq interrupts
      → (sched_make_runnable w.sched.curthr w.sched >>= sched_switch interrupts) ≡ ok (some rest, s)
      → Step w (record w { sched = s })

pub data Steps (w : World) : World → Type 0 where
  start : Steps w w
  next : {w' w'' : World} → Steps w w' → Step w' w'' → Steps w w''

-- No thread has used the mutex yet: it is free, its queue is empty, and the scheduler is in order.
pub record IsFresh (w : World) : Type 0 where
  pub links : IsLinked w.sched
  pub queued : IsQueued w.sched
  pub waitq : 0 < w.mtx.km_waitq
  pub unheld : w.mtx.km_holder ≡ none
  pub empty : (w.sched.queues w.mtx.km_waitq).tq_list ≡ []
  pub unused : (t : ℕ) → (w.pc t ≡ outside) × ((w.sched.threads t).kt_wchan ≢ some w.mtx.km_waitq)
  pub running : (w.sched.threads w.sched.curthr).kt_wchan ≡ none
