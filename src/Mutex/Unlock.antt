-- ===== src/Mutex/Unlock.antt =====
-- kmutex_unlock of proc/kmutex.c keeps the invariant.
use usc_projects.Prelude.{
  ℕ, ◌≡◌, ◌≢◌, refl, subst, ◌∙◌, inl, inr, Option, none, some, List, [], ◌∷◌, arith, ◌==◌,
  Bool-cases,
}
use usc_projects.Kernel.{ok, Returns, Returns-ok}
use usc_projects.Sched.{Kthread, Sched}
use usc_projects.Mutex.{Kmutex, kmutex_unlock}
use usc_projects.Mutex.Handover.{HandedOver, kmutex_unlock-HandedOver}
use usc_projects.Mutex.Step.{Pc, outside, waiting, waiting_cancellable, inside, World, moved_on}
use usc_projects.Mutex.Safe.{Place, Safe, Place-keep, update-Place}

-- The thread that the mutex is handed to was waiting for it.
chosen-Place :
    (m t : ℕ) (h : Option ℕ) (th th' : Kthread) (p : Pc)
    → th.kt_wchan ≡ some m
    → th'.kt_wchan ≢ some m
    → Place m h t th p
    → Place m (some t) t th' p
chosen-Place m t h th th' outside on off place = absurd (place on)
chosen-Place m t h th th' waiting on off place = inr (off, refl)
chosen-Place m t h th th' waiting_cancellable on off place = inr (off, inl refl)
chosen-Place m t h th th' inside on off place = absurd (place.0 on)

module _ (w : World) (v : Safe w) (holds : w.mtx.km_holder ≡ some w.sched.curthr) where
  kept-Place :
      (h : Option ℕ) (u : ℕ) (th : Kthread)
      → th ≡ w.sched.threads u
      → w.sched.curthr ≢ u
      → Place w.mtx.km_waitq h u th (w.pc u)
  kept-Place h u th same other = rw same (
      Place-keep w.mtx.km_waitq u w.mtx.km_holder h (w.sched.threads u) (w.sched.threads u) (w.pc u)
        (λ on. (on, refl)) (λ on. on) (λ c. c) (λ held. absurd (ground (arith, holds, held, other)))
        (v.places u))

  handed-Safe :
      (l : List ℕ) (mtx : Kmutex) (s : Sched)
      → (w.sched.queues w.mtx.km_waitq).tq_list ≡ l
      → HandedOver l w.mtx w.sched (mtx, s)
      → mtx.km_waitq ≡ w.mtx.km_waitq
      → Safe (moved_on w mtx s outside)
  handed-Safe [] mtx s e (nobody, same) waitq =
      rw (same, waitq, nobody)
        (record {
          links = v.links;
          queued = v.queued;
          waitq = v.waitq;
          places =
              update-Place w.mtx.km_waitq w.sched.curthr none w.sched.threads w.pc outside
                (ground (arith, v.running))
                (λ u other. kept-Place none u (w.sched.threads u) refl other);
          free = λ free. e;
          running = v.running;
        })
  handed-Safe (t ∷ rest) mtx s e (chosen, left, moved) waitq =
      let m = w.mtx.km_waitq in
      let cur = w.sched.curthr in
      let on : (w.sched.threads t).kt_wchan ≡ some m = ground (arith, e, v.links.linked m t) in
      let differ : cur ≢ t = ground (arith, on, v.running) in
      rw (waitq, chosen)
        (record {
          links = moved.links;
          queued = λ u. ground (arith, moved.same_threads u, v.queued u);
          waitq = v.waitq;
          places =
              update-Place m cur (some t) s.threads w.pc outside
                (ground (arith, v.running, differ, moved.same_threads cur))
                (λ u other. elim (Bool-cases (t == u)) [
                  | inl is ↦
                      subst (λ x. Place m (some t) x (s.threads x) (w.pc x)) (ground (arith, is))
                        (chosen-Place m t w.mtx.km_holder (w.sched.threads t) (s.threads t) (w.pc t)
                          on (ground (arith, v.waitq, moved.same_threads t)) (v.places t))
                  | inr isnt ↦
                      kept-Place (some t) u (s.threads u)
                        (moved.same_threads u ∙ ground (arith, isnt)) other
                ]);
          free = λ free. absurd (cc free);
          running =
              rw moved.same_curthr (ground (arith, v.running, differ, moved.same_threads cur));
        })

pub unlock-Safe :
    (w : World) (mtx : Kmutex) (s : Sched)
    → Safe w
    → w.mtx.km_holder ≡ some w.sched.curthr
    → kmutex_unlock w.mtx w.sched ≡ ok (mtx, s)
    → Safe (moved_on w mtx s outside)
unlock-Safe w mtx s v holds e =
    let (handed, waitq) = Returns-ok (
      subst (Returns _) e
        (kmutex_unlock-HandedOver w.mtx w.sched v.waitq v.links holds v.running)) in
    handed-Safe w v holds (w.sched.queues w.mtx.km_waitq).tq_list mtx s refl handed waitq
