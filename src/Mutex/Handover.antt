-- ===== src/Mutex/Handover.antt =====
-- To whom kmutex_unlock of proc/kmutex.c gives the mutex.
use usc_projects.Prelude.{
  ℕ, ◌<◌, ◌≡◌, refl, ap, subst, true, false, Option, none, some, List, [], ◌∷◌, arith, ◌==◌,
}
use usc_projects.Kernel.{ok, ◌>>=◌, Returns, returns, Returns-bind, Returns-mono}
use usc_projects.Sched.{Sched, sched_wakeup_on}
use usc_projects.Sched.Links.{IsLinked}
use usc_projects.Sched.Wakeup.{Moved, Woken, sched_wakeup_on-Woken}
use usc_projects.Mutex.{Kmutex, is_holder, kmutex_unlock, given_away}

-- The new holder, given the threads that waited.
abbrev pub HandedOver : List ℕ → Kmutex → Sched → Kmutex × Sched → Type 0
HandedOver [] mtx s (mtx', s') = (mtx'.km_holder ≡ none) × (s' ≡ s)
HandedOver (t ∷ rest) mtx s (mtx', s') =
    (mtx'.km_holder ≡ some t)
    × ((s'.queues mtx.km_waitq).tq_list ≡ rest)
    × Moved mtx.km_waitq t s s'

abbrev pub First : ℕ → ℕ → List ℕ → Sched → Option ℕ × Sched → Type 0
First q t rest s (o, s') = (o ≡ some t) × ((s'.queues q).tq_list ≡ rest) × Moved q t s s'

-- Waking up a queue whose first thread is known.
pub wakeup-First :
    (q t : ℕ) (rest : List ℕ) (s : Sched)
    → 0 < q
    → IsLinked s
    → (s.queues q).tq_list ≡ t ∷ rest
    → Returns (First q t rest s) (sched_wakeup_on q s)
wakeup-First q t rest s waitq v e = Returns-mono (sched_wakeup_on-Woken q s waitq v) first
  where
    first : (r : Option ℕ × Sched) → Woken q s r → First q t rest s r
    first (none, s') w = absurd (ground (arith, e, w.0))
    first (some u, s') (l, moved) =
        let is : u ≡ t = ground (arith, e, l) in
        (ap some is, ground (arith, e, l), subst (λ x. Moved q x s s') is moved)

-- When its holder, which runs and so is on no queue, unlocks a mutex, no assertion fails and the
-- thread does not sleep. If no thread waits, the mutex is free and no queue or thread changes.
-- Otherwise the thread that has waited longest is the holder and is runnable, the others still wait
-- in their order, and the links between threads and queues hold.
pub kmutex_unlock-HandedOver :
    (mtx : Kmutex) (s : Sched)
    → 0 < mtx.km_waitq
    → IsLinked s
    → mtx.km_holder ≡ some s.curthr
    → (s.threads s.curthr).kt_wchan ≡ none
    → Returns
        (λ r. HandedOver (s.queues mtx.km_waitq).tq_list mtx s r × (r.0.km_waitq ≡ mtx.km_waitq))
        (kmutex_unlock mtx s)
unfolding kmutex_unlock given_away
kmutex_unlock-HandedOver mtx s waitq v holds off = go (s.queues mtx.km_waitq).tq_list refl
  where
    mine : is_holder mtx.km_holder s.curthr ≡ true
    mine = ground (arith, holds)

    go :
        (l : List ℕ)
        → (s.queues mtx.km_waitq).tq_list ≡ l
        → Returns (λ r. HandedOver l mtx s r × (r.0.km_waitq ≡ mtx.km_waitq)) (kmutex_unlock mtx s)
    go [] e =
        let nobody : ((s.queues mtx.km_waitq).tq_size == 0) ≡ true =
          ground (arith, e, v.sized mtx.km_waitq) in
        rw (mine, nobody, kmutex_unlock) (returns ((refl, refl), refl))
    go (t ∷ rest) e =
        let somebody : ((s.queues mtx.km_waitq).tq_size == 0) ≡ false =
          ground (arith, e, v.sized mtx.km_waitq) in
        let given : Returns (λ r. HandedOver (t ∷ rest) mtx s r × (r.0.km_waitq ≡ mtx.km_waitq))
            (sched_wakeup_on mtx.km_waitq s >>= λ (o, s'). ok (record mtx { km_holder = o }, s')) =
          Returns-bind (wakeup-First mtx.km_waitq t rest s waitq v e)
            (λ (o, s') w. returns (w, refl)) in
        rw (mine, somebody, kmutex_unlock)
          (Returns-bind given (λ (mtx', s') ((first, left, moved), same).
            let other : is_holder mtx'.km_holder s.curthr ≡ false =
              ground (arith, e, first, off, v.linked mtx.km_waitq t) in
            rw other (returns ((first, left, moved), same))))
