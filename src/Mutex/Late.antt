-- ===== src/Mutex/Late.antt =====
-- A thread of proc/kmutex.c that is cancelled when it has been handed the mutex and has not run yet.
use usc_projects.Prelude.{
  ℕ, ◌<◌, ◌≡◌, ◌≢◌, refl, sym, ap, subst, ◌∙◌, true, false, none, some, [], ◌∷◌, ◌++◌, arith,
}
use usc_projects.Kernel.{fail, eintr, Outcome, ok, panic, ◌>>=◌, Returns, returns, Returns-bind}
use usc_projects.Sched.{
  run, sleep_cancellable, Sched, sched_sleep_on, sched_cancel, sched_make_runnable, sched_switch,
  sleep_result,
}
use usc_projects.Sched.Links.{IsLinked, sched_make_runnable-MadeRunnable}
use usc_projects.Sched.Cancel.{flagged, flagged-IsLinked, run-flagged}
use usc_projects.Sched.Switch.{Slept, sched_sleep_on-Slept, switch-Ran}
use usc_projects.Mutex.{
  Kmutex, asleep, is_holder, kmutex_lock, kmutex_lock_cancellable, lock_cancellable_woken,
  kmutex_unlock, lock_as, after_sleep,
}
use usc_projects.Mutex.Handover.{HandedOver, kmutex_unlock-HandedOver}

-- The current thread waits for the mutex in kmutex_lock_cancellable; the next thread, its holder,
-- unlocks it, cancels the thread that waited, and lets it run.
abbrev pub cancelled_late : Kmutex → Sched → Outcome (Kmutex × Sched)
cancelled_late mtx s = kmutex_lock_cancellable [] mtx s >>= λ (_, mtx1, s1).
    kmutex_unlock mtx1 s1 >>= λ (mtx2, s2). sched_cancel s.curthr s2 >>= λ s3.
    sched_make_runnable s3.curthr s3 >>= λ s4. sched_switch [] s4 >>= λ (_, s5). ok (mtx2, s5)

-- The thread is left the holder of a mutex that it does not know to have.
abbrev pub IsStuck : ℕ → Kmutex × Sched → Type 0
IsStuck t (mtx, s) =
    (s.curthr ≡ t)
    × (mtx.km_holder ≡ some t)
    × (lock_cancellable_woken mtx s ≡ (fail eintr, mtx))
    × (kmutex_lock [] mtx s ≡ panic)
    × (kmutex_lock_cancellable [] mtx s ≡ panic)

holder-IsStuck :
    (t : ℕ) (mtx : Kmutex) (s : Sched)
    → s.curthr ≡ t
    → mtx.km_holder ≡ some t
    → (s.threads t).kt_cancelled ≡ true
    → IsStuck t (mtx, s)
unfolding lock_cancellable_woken kmutex_lock kmutex_lock_cancellable lock_as after_sleep
    sleep_result
holder-IsStuck t mtx s runs holds cancelled =
    let mine : is_holder mtx.km_holder s.curthr ≡ true = ground (arith, holds, runs) in
    let marked : (s.threads s.curthr).kt_cancelled ≡ true =
      subst (λ u. (s.threads u).kt_cancelled ≡ true) (sym runs) cancelled in
    (runs, holds, ground (arith, marked), rw mine refl, rw mine refl)

module _ (t h : ℕ) (mtx : Kmutex) (s1 : Sched) (waitq : 0 < mtx.km_waitq) (links : IsLinked s1)
    (holds : mtx.km_holder ≡ some h) (runs : s1.curthr ≡ h) (off : (s1.threads h).kt_wchan ≡ none)
    (other : h ≢ t) (waits : (s1.queues mtx.km_waitq).tq_list ≡ t ∷ [])
    (nobody : (s1.queues 0).tq_list ≡ []) where
  handed-IsStuck : Returns (IsStuck t) (
      kmutex_unlock mtx s1 >>= λ (mtx2, s2). sched_cancel t s2 >>= λ s3.
      sched_make_runnable s3.curthr s3 >>= λ s4. sched_switch [] s4 >>= λ (_, s5). ok (mtx2, s5))
  handed-IsStuck =
      Returns-bind
        (kmutex_unlock-HandedOver mtx s1 waitq links (holds ∙ ap some (sym runs)) (rw runs off))
        λ (mtx2, s2) (given, _).
          let (new_holder, _, moved) = subst (λ l. HandedOver l mtx s1 (mtx2, s2)) waits given in
          let woken : (s2.threads t).kt_state ≡ run = ground (arith, moved.same_threads t) in
          let s3 = flagged t s2 in
          let now : s3.curthr ≡ h = moved.same_curthr ∙ runs in
          let off3 : (s3.threads s3.curthr).kt_wchan ≡ none =
            rw now (ground (arith, moved.same_threads h)) in
          let queue3 : (s3.queues 0).tq_list ≡ t ∷ [] =
            moved.run_queue ∙ ap (λ l. l ++ t ∷ []) nobody in
          rw (run-flagged t s2 woken) (
            Returns-bind
              (sched_make_runnable-MadeRunnable s3.curthr s3 (flagged-IsLinked t s2 moved.links)
                off3)
              λ s4 made.
                Returns-bind
                  (switch-Ran t [] (s3.curthr ∷ []) s4 made.links
                    (made.lists 0 ∙ ap (λ l. l ++ s3.curthr ∷ []) queue3))
                  λ (_, s5) (_, taken, _, cur). returns (
                    holder-IsStuck t mtx2 s5 cur new_holder
                      (rw taken.same_threads (ground (arith, made.same_threads t)))))

-- Where the links between threads and queues hold and the current thread is on no queue: when the
-- only thread of the run queue holds a mutex for which nobody waits, and the current thread waits
-- for it in kmutex_lock_cancellable, no assertion fails while
-- the holder runs, unlocks the mutex, cancels the thread that waits and lets it run. That thread is
-- now the holder, but its kmutex_lock_cancellable returns -EINTR and leaves it the holder, and an
-- assertion fails in its next kmutex_lock or kmutex_lock_cancellable.
pub cancelled-holder-panics :
    (h : ℕ) (mtx : Kmutex) (s : Sched)
    → 0 < mtx.km_waitq
    → IsLinked s
    → (s.threads s.curthr).kt_wchan ≡ none
    → mtx.km_holder ≡ some h
    → h ≢ s.curthr
    → (s.queues mtx.km_waitq).tq_list ≡ []
    → (s.queues 0).tq_list ≡ h ∷ []
    → Returns (IsStuck s.curthr) (cancelled_late mtx s)
unfolding kmutex_lock_cancellable lock_as
cancelled-holder-panics h mtx s waitq links off holds other empty runnable_one =
    let not_mine : is_holder mtx.km_holder s.curthr ≡ false = ground (arith, holds) in
    let slept : Returns
        (λ (_, mtx1, s1). (mtx1 ≡ mtx) × Slept sleep_cancellable mtx.km_waitq h [] s s1)
        (sched_sleep_on sleep_cancellable mtx.km_waitq [] s >>= λ (next, s1).
          ok (asleep next, mtx, s1)) =
      Returns-bind
        (sched_sleep_on-Slept sleep_cancellable mtx.km_waitq h [] [] s refl waitq links off
          runnable_one)
        (λ _ (_, is). returns (refl, is)) in
    rw (not_mine, holds)
      (Returns-bind slept λ (_, mtx1, s1) (same, is).
        handed-IsStuck s.curthr h mtx1 s1 (rw same waitq) is.links (rw same holds) is.runs
          (rw is.picked refl) other
          (ap (λ (m : Kmutex). (s1.queues m.km_waitq).tq_list) same
            ∙ is.waits
            ∙ ap (λ l. l ++ s.curthr ∷ []) empty)
          is.run_queue)
