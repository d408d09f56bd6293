-- ===== src/Mutex/Exclusion.antt =====
-- At most one thread is inside the section that a mutex of proc/kmutex.c guards.
use usc_projects.Prelude.{ℕ, ◌≡◌, refl, subst, inl, inr, Bool, true, false, some, arith, Bool-cases}
use usc_projects.Kernel.{Code, done, fail, eintr, Returns, Returns-ok}
use usc_projects.Sched.{sleep, sleep_cancellable, Sched, sleep_result}
use usc_projects.Sched.Keeps.{wakeup-Keeps}
use usc_projects.Sched.Elsewhere.{sleep-Keeps, yield-Keeps, wakeup-running}
use usc_projects.Mutex.{
  Kmutex, kmutex_lock, kmutex_lock_cancellable, lock_woken, lock_cancellable_woken, after_sleep,
}
use usc_projects.Mutex.Step.{
  outside, waiting, waiting_cancellable, inside, World, now, moved_on, Step, locks, waits, woken,
  locks_cancellable, waits_cancellable, woken_cancellable, interrupted, unlocks, cancels, wakes,
  sleeps, yields, Steps, start, next, IsFresh,
}
use usc_projects.Mutex.Safe.{Place, Safe, Keeps-Safe, update-Place}
use usc_projects.Mutex.Lock.{taken-Safe, locked-Safe, asleep-Safe}
use usc_projects.Mutex.Unlock.{unlock-Safe}
use usc_projects.Mutex.Interrupt.{cancel-Safe}

-- The thread that runs is on no queue, so its place says what it has.
waiting-holds : (w : World) → Safe w → now w ≡ waiting → w.mtx.km_holder ≡ some w.sched.curthr
waiting-holds w v at =
    elim (subst
      (Place w.mtx.km_waitq w.mtx.km_holder w.sched.curthr (w.sched.threads w.sched.curthr)) at
      (v.places w.sched.curthr)) [
        | inl (on, st) ↦ absurd (cc (on, v.running))
        | inr (off, held) ↦ held
      ]

inside-holds : (w : World) → Safe w → now w ≡ inside → w.mtx.km_holder ≡ some w.sched.curthr
inside-holds w v at =
    (subst (Place w.mtx.km_waitq w.mtx.km_holder w.sched.curthr (w.sched.threads w.sched.curthr)) at
      (v.places w.sched.curthr)).1

-- What kmutex_lock_cancellable makes of the flag when it wakes.
abbrev Answer : Kmutex → Sched → Code × Kmutex → Bool → Type 0
Answer mtx s r true = r ≡ (fail eintr, mtx)
Answer mtx s r false = r ≡ (done 0, record mtx { km_holder = some s.curthr })

woken-Answer :
    (mtx : Kmutex) (s : Sched)
    → Answer mtx s (lock_cancellable_woken mtx s) (s.threads s.curthr).kt_cancelled
unfolding lock_cancellable_woken after_sleep sleep_result
woken-Answer mtx s = go (s.threads s.curthr).kt_cancelled refl
  where
    go :
        (b : Bool)
        → (s.threads s.curthr).kt_cancelled ≡ b
        → Answer mtx s (lock_cancellable_woken mtx s) b
    go true e = ground (arith, e)
    go false e = ground (arith, e)

-- A thread that is not cancelled when kmutex_lock_cancellable wakes was handed the mutex.
uncancelled-holds :
    (w : World) (mtx : Kmutex)
    → Safe w
    → now w ≡ waiting_cancellable
    → lock_cancellable_woken w.mtx w.sched ≡ (done 0, mtx)
    → (w.mtx.km_holder ≡ some w.sched.curthr)
      × (mtx ≡ record w.mtx { km_holder = some w.sched.curthr })
uncancelled-holds w mtx v at e = elim (Bool-cases (w.sched.threads w.sched.curthr).kt_cancelled) [
  | inl gone ↦ absurd (cc (e, subst (Answer w.mtx w.sched _) gone (woken-Answer w.mtx w.sched)))
  | inr stays ↦
      elim (subst
        (Place w.mtx.km_waitq w.mtx.km_holder w.sched.curthr (w.sched.threads w.sched.curthr)) at
        (v.places w.sched.curthr)) [
          | inl (on, st) ↦ absurd (cc (on, v.running))
          | inr (off, inl held) ↦
              (held, cc (e, subst (Answer w.mtx w.sched _) stays (woken-Answer w.mtx w.sched)))
          | inr (off, inr gone) ↦ absurd (cc (gone, stays))
        ]
]

-- A cancelled thread goes away with what the mutex was.
interrupted-Safe :
    (w : World) (mtx : Kmutex)
    → Safe w
    → lock_cancellable_woken w.mtx w.sched ≡ (fail eintr, mtx)
    → Safe (moved_on w mtx w.sched outside)
interrupted-Safe w mtx v e =
    let m = w.mtx.km_waitq in
    let cur = w.sched.curthr in
    let same : mtx ≡ w.mtx = elim (Bool-cases (w.sched.threads w.sched.curthr).kt_cancelled) [
      | inl gone ↦ cc (e, subst (Answer w.mtx w.sched _) gone (woken-Answer w.mtx w.sched))
      | inr stays ↦
          absurd (cc (e, subst (Answer w.mtx w.sched _) stays (woken-Answer w.mtx w.sched)))
    ] in
    rw same (record {
      links = v.links;
      queued = v.queued;
      waitq = v.waitq;
      places =
          update-Place m cur w.mtx.km_holder w.sched.threads w.pc outside
            (ground (arith, v.running)) (λ u other. v.places u);
      free = v.free;
      running = v.running;
    })

Step-Safe : {w w' : World} → Safe w → Step w w' → Safe w'
unfolding kmutex_lock kmutex_lock_cancellable lock_woken
Step-Safe {w} v (locks interrupts mtx s at e) = locked-Safe sleep interrupts w mtx s v e
Step-Safe {w} v (waits interrupts rest mtx s at others e) =
    asleep-Safe sleep waiting interrupts rest w mtx s v refl others (λ t h th on st. inl (on, st)) e
Step-Safe {w} v (woken at) =
    let held = waiting-holds w v at in
    taken-Safe w (record w.mtx { km_holder = some w.sched.curthr }) v refl
      (λ u other mine. ground (arith, held, mine, other))
Step-Safe {w} v (locks_cancellable interrupts mtx s at e) =
    locked-Safe sleep_cancellable interrupts w mtx s v e
Step-Safe {w} v (waits_cancellable interrupts rest mtx s at others e) =
    asleep-Safe sleep_cancellable waiting_cancellable interrupts rest w mtx s v refl others
      (λ t h th on st. inl (on, st)) e
Step-Safe {w} v (woken_cancellable mtx at e) =
    let (held, same) = uncancelled-holds w mtx v at e in
    taken-Safe w mtx v same (λ u other mine. ground (arith, held, mine, other))
Step-Safe {w} v (interrupted mtx at e) = interrupted-Safe w mtx v e
Step-Safe {w} v (unlocks mtx s at e) = unlock-Safe w mtx s v (inside-holds w v at) e
Step-Safe {w} v (cancels t s e) = cancel-Safe t w s v e
Step-Safe {w} v (wakes q t s sleepers other e) =
    let k = Returns-ok (
      subst (Returns _) e
        (wakeup-Keeps w.mtx.km_waitq q w.sched v.waitq sleepers other v.links v.queued)) in
    Keeps-Safe w s v k (
      Returns-ok
        (subst (Returns _) e (wakeup-running w.mtx.km_waitq q w.sched sleepers v.links v.running)))
Step-Safe {w} v (sleeps st q interrupts rest s nods sleepers other others e) =
    let (k, runs) = Returns-ok (
      subst (Returns _) e (
        sleep-Keeps w.mtx.km_waitq st q interrupts w.sched nods sleepers other v.waitq v.links
          v.queued others v.running)) in
    Keeps-Safe w s v k runs
Step-Safe {w} v (yields interrupts rest s others e) =
    let (k, runs) = Returns-ok (
      subst (Returns _) e (
        yield-Keeps w.mtx.km_waitq interrupts w.sched v.waitq v.links v.queued others v.running)) in
    Keeps-Safe w s v k runs

fresh-Safe : (w : World) → IsFresh w → Safe w
fresh-Safe w fresh = record {
  links = fresh.links;
  queued = fresh.queued;
  waitq = fresh.waitq;
  places = λ t. let (at, off) = fresh.unused t in rw at off;
  free = λ e. fresh.empty;
  running = fresh.running;
}

pub reachable-Safe : {w w' : World} → IsFresh w → Steps w w' → Safe w'
reachable-Safe fresh start = fresh-Safe _ fresh
reachable-Safe fresh (next before step) = Step-Safe (reachable-Safe fresh before) step

-- From a state where nobody has used the mutex, whatever the threads do with it, with other queues
-- and with each other, and in whatever order they are scheduled, cancelled and interrupted, no two
-- threads are ever inside the section that the mutex guards: whoever is inside is its holder.
pub mutual_exclusion :
    (w w' : World) (t u : ℕ)
    → IsFresh w
    → Steps w w'
    → w'.pc t ≡ inside
    → w'.pc u ≡ inside
    → (w'.mtx.km_holder ≡ some t) × (t ≡ u)
mutual_exclusion w w' t u fresh steps at_t at_u =
    let v = reachable-Safe fresh steps in
    let holds_t =
      (subst (Place w'.mtx.km_waitq w'.mtx.km_holder t (w'.sched.threads t)) at_t (v.places t)).1 in
    let holds_u =
      (subst (Place w'.mtx.km_waitq w'.mtx.km_holder u (w'.sched.threads u)) at_u (v.places u)).1 in
    (holds_t, cc (holds_t, holds_u))
