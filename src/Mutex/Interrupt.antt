-- ===== src/Mutex/Interrupt.antt =====
-- sched_cancel of proc/sched.c keeps the invariant of the threads that use a mutex.
use usc_projects.Prelude.{
  ℕ, ◌≡◌, ◌≢◌, refl, subst, ◌∙◌, inl, inr, true, Option, some, arith, ◌==◌, Bool-cases,
}
use usc_projects.Kernel.{ok, Returns, Returns-ok}
use usc_projects.Sched.{
  KtState, no_state, run, exited, sleep, sleep_cancellable, Kthread, Sched, sched_cancel,
}
use usc_projects.Sched.Links.{IsLinked}
use usc_projects.Sched.Cancel.{IsQueued, flagged, Cancelled, sched_cancel-Cancelled}
use usc_projects.Mutex.Step.{Pc, outside, waiting, waiting_cancellable, inside, World}
use usc_projects.Mutex.Safe.{Place, Safe, Place-keep}

flag-Place :
    (m u t : ℕ) (h : Option ℕ) (s : Sched) (p : Pc)
    → Place m h u (s.threads u) p
    → Place m h u ((flagged t s).threads u) p
flag-Place m u t h s p =
    Place-keep m u h h (s.threads u) ((flagged t s).threads u) p
      (λ on. (ground (arith, on), ground arith)) (λ on. ground (arith, on)) (λ c. ground (arith, c))
      (λ held. held)

-- A thread in a cancellable sleep has left its queue and is marked.
cancelled-Place :
    (m t : ℕ) (h : Option ℕ) (th th' : Kthread) (p : Pc)
    → th.kt_state ≡ sleep_cancellable
    → th'.kt_wchan ≢ some m
    → th'.kt_cancelled ≡ true
    → Place m h t th p
    → Place m h t th' p
cancelled-Place m t h th th' outside st off gone place = off
cancelled-Place m t h th th' waiting st off gone (inl (on, deep)) = absurd (cc (st, deep))
cancelled-Place m t h th th' waiting st off gone (inr (was, held)) = inr (off, held)
cancelled-Place m t h th th' waiting_cancellable st off gone place = inr (off, inr gone)
cancelled-Place m t h th th' inside st off gone (was, held) = (off, held)

marked-Safe :
    (t : ℕ) (w : World) (s : Sched)
    → Safe w
    → IsLinked s
    → IsQueued s
    → s ≡ flagged t w.sched
    → Safe (record w { sched = s })
marked-Safe t w s v links queued same = record {
  links = links;
  queued = queued;
  waitq = v.waitq;
  places =
      λ u. rw same (flag-Place w.mtx.km_waitq u t w.mtx.km_holder w.sched (w.pc u) (v.places u));
  free = λ free. rw same (v.free free);
  running = rw same (ground (arith, v.running));
}

cancels-Safe :
    (t : ℕ) (st : KtState) (w : World) (s : Sched)
    → Safe w
    → (w.sched.threads t).kt_state ≡ st
    → IsLinked s
    → IsQueued s
    → (s.threads t).kt_cancelled ≡ true
    → Cancelled st t w.sched s
    → Safe (record w { sched = s })
cancels-Safe t sleep_cancellable w s v st links queued gone (q, on, moved) =
    let m = w.mtx.km_waitq in
    let here : (s.threads t).kt_wchan ≢ some m = ground (arith, v.waitq, moved.same_threads t) in
    record {
      links = links;
      queued = queued;
      waitq = v.waitq;
      places = λ u. elim (Bool-cases (t == u)) [
        | inl is ↦
            subst (λ x. Place m w.mtx.km_holder x (s.threads x) (w.pc x)) (ground (arith, is))
              (cancelled-Place m t w.mtx.km_holder (w.sched.threads t) (s.threads t) (w.pc t) st
                here gone (v.places t))
        | inr isnt ↦
            let same : s.threads u ≡ w.sched.threads u =
              moved.same_threads u ∙ ground (arith, isnt) in
            rw same (v.places u)
      ];
      free = λ free. elim (Bool-cases (q == m)) [
        | inl is ↦ absurd (ground (arith, is, on, v.free free, v.links.linked m t))
        | inr isnt ↦ moved.others m (ground (arith, isnt)) (ground (arith, v.waitq)) ∙ v.free free
      ];
      running =
          rw moved.same_curthr (ground (arith, on, v.running, moved.same_threads w.sched.curthr));
    }
cancels-Safe t no_state w s v st links queued gone same = marked-Safe t w s v links queued same
cancels-Safe t run w s v st links queued gone same = marked-Safe t w s v links queued same
cancels-Safe t sleep w s v st links queued gone same = marked-Safe t w s v links queued same
cancels-Safe t exited w s v st links queued gone same = marked-Safe t w s v links queued same

pub cancel-Safe :
    (t : ℕ) (w : World) (s : Sched)
    → Safe w
    → sched_cancel t w.sched ≡ ok s
    → Safe (record w { sched = s })
cancel-Safe t w s v e =
    let (links, queued, gone, cancelled) =
      Returns-ok (subst (Returns _) e (sched_cancel-Cancelled t w.sched v.links v.queued)) in
    cancels-Safe t (w.sched.threads t).kt_state w s v refl links queued gone cancelled
