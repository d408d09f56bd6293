-- ===== src/Sched/Cancel.antt =====
-- What sched_cancel of proc/sched.c in Kernel Assignment 3/vm/kernel does.
use usc_projects.Prelude.{
  ℕ, ◌<◌, ◌≡◌, ◌≢◌, refl, inl, inr, true, none, some, arith, update, Option-cases,
}
use usc_projects.Kernel.{ok, ◌>>=◌, Returns, returns, Returns-bind, Returns-mono}
use usc_projects.Sched.{
  KtState, no_state, run, sleep, sleep_cancellable, exited, Sched, ktqueue_remove,
  sched_make_runnable, is_asleep, sched_cancel,
}
use usc_projects.Sched.Links.{IsLinked, ktqueue_remove-TakenOff}
use usc_projects.Sched.Wakeup.{Moved, make-Moved}

-- Whoever sleeps is on a queue.
abbrev pub IsQueued : Sched → Type 0
IsQueued s = (t : ℕ) → is_asleep (s.threads t).kt_state ≡ true → (s.threads t).kt_wchan ≢ none

-- The thread with its `kt_cancelled` set.
abbrev pub flagged : ℕ → Sched → Sched
flagged t s = record s {
  threads = update s.threads t (record (s.threads t) { kt_cancelled = true });
}

-- A thread in a cancellable sleep has moved to the run queue, from the queue where it stood.
abbrev pub Cancelled : KtState → ℕ → Sched → Sched → Type 0
Cancelled sleep_cancellable t s s' =
    (q : ℕ) × ((s.threads t).kt_wchan ≡ some q) × Moved q t (flagged t s) s'
Cancelled _ t s s' = s' ≡ flagged t s

pub flagged-IsLinked : (t : ℕ) (s : Sched) → IsLinked s → IsLinked (flagged t s)
flagged-IsLinked t s v = record {
  linked = λ q u. ground (arith, v.linked q u);
  sized = v.sized;
  fitting = λ u. ground (arith, v.fitting u);
}

pub run-flagged :
    (t : ℕ) (s : Sched) → (s.threads t).kt_state ≡ run → sched_cancel t s ≡ ok (flagged t s)
unfolding sched_cancel
run-flagged t s e =
    rw (e, sched_cancel)
      λ i. ok (record s {
        threads = update s.threads t (record (s.threads t) { kt_state = e i; kt_cancelled = true });
      })

cancel-removes :
    (t q : ℕ) (s : Sched)
    → (s.threads t).kt_state ≡ sleep_cancellable
    → (s.threads t).kt_wchan ≡ some q
    → sched_cancel t s ≡ (ktqueue_remove q t (flagged t s) >>= sched_make_runnable t)
unfolding sched_cancel
cancel-removes t q s e on = rw (e, on, sched_cancel) (rw (e, on) refl)

pub sched_cancel-Cancelled :
    (t : ℕ) (s : Sched)
    → IsLinked s
    → IsQueued s
    → Returns
        (λ s'.
          IsLinked s'
          × IsQueued s'
          × ((s'.threads t).kt_cancelled ≡ true)
          × Cancelled (s.threads t).kt_state t s s')
        (sched_cancel t s)
unfolding sched_cancel
sched_cancel-Cancelled t s v queued = go (s.threads t).kt_state refl
  where
    go :
        (st : KtState)
        → (s.threads t).kt_state ≡ st
        → Returns
            (λ s'.
              IsLinked s'
              × IsQueued s'
              × ((s'.threads t).kt_cancelled ≡ true)
              × Cancelled st t s s')
            (sched_cancel t s)
    go no_state e =
        rw (e, sched_cancel)
          (returns
            (flagged-IsLinked t s v, (λ u. ground (arith, queued u)), ground arith, rw e refl))
    go run e =
        rw (e, sched_cancel)
          (returns
            (flagged-IsLinked t s v, (λ u. ground (arith, queued u)), ground arith, rw e refl))
    go sleep e =
        rw (e, sched_cancel)
          (returns
            (flagged-IsLinked t s v, (λ u. ground (arith, queued u)), ground arith, rw e refl))
    go exited e =
        rw (e, sched_cancel)
          (returns
            (flagged-IsLinked t s v, (λ u. ground (arith, queued u)), ground arith, rw e refl))
    go sleep_cancellable e = elim (Option-cases (s.threads t).kt_wchan) [
      | inl off ↦ absurd (queued t (rw e refl) off)
      | inr (q, on) ↦
          let asleep : 0 < q = ground (arith, on, e, v.fitting t) in
          rw (cancel-removes t q s e on) (
            Returns-bind
              (ktqueue_remove-TakenOff q t (flagged t s) (flagged-IsLinked t s v)
                (ground (arith, on)))
              (λ s' off.
                Returns-mono (make-Moved q t (flagged t s) s' asleep off) (λ s'' (moved, rest). (
                  moved.links,
                  (λ u. ground (arith, moved.same_threads u, queued u)),
                  ground (arith, moved.same_threads t),
                  (q, on, moved),
                ))))
    ]
