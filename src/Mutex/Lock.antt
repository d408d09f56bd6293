-- ===== src/Mutex/Lock.antt =====
-- kmutex_lock and kmutex_lock_cancellable of proc/kmutex.c keep the invariant.
use usc_projects.Prelude.{
  ℕ, ◌≡◌, ◌≢◌, refl, sym, subst, ◌∙◌, ◌⊎◌, inl, inr, true, Option, none, some, List, arith, ◌==◌,
  Option-cases, Bool-cases,
}
use usc_projects.Kernel.{Outcome, ok, panic, ◌>>=◌, Returns, Returns-ok, bind-ok}
use usc_projects.Sched.{KtState, Kthread, Sched, is_asleep, sched_sleep_on}
use usc_projects.Sched.Keeps.{Elsewhere}
use usc_projects.Sched.Elsewhere.{sleep-Joined}
use usc_projects.Mutex.{Kmutex, Locking, locked, asleep, lock_as}
use usc_projects.Mutex.Step.{Pc, inside, World, moved_on}
use usc_projects.Mutex.Safe.{Place, Safe, Place-keep, Keeps-Place, update-Place}

-- The ways in which locking goes.
abbrev Ways : KtState → List ℕ → Kmutex → Sched → Outcome (Locking × Kmutex × Sched) → Type 0
Ways st interrupts mtx s out =
    ((mtx.km_holder ≡ none) × (out ≡ ok (locked, record mtx { km_holder = some s.curthr }, s)))
    ⊎ (out ≡ panic)
    ⊎ ((mtx.km_holder ≢ none)
        × (out ≡ (
            sched_sleep_on st mtx.km_waitq interrupts s >>= λ (left, s').
            ok (asleep left, mtx, s'))))

lock-Ways :
    (st : KtState) (interrupts : List ℕ) (mtx : Kmutex) (s : Sched)
    → Ways st interrupts mtx s (lock_as st interrupts mtx s)
unfolding lock_as
lock-Ways st interrupts mtx s = elim (Option-cases mtx.km_holder) [
  | inl free ↦ inl (free, rw (free, lock_as) refl)
  | inr (h, held) ↦ elim (Bool-cases (h == s.curthr)) [
    | inl mine ↦ inr (inl (rw (held, mine, lock_as) refl))
    | inr other ↦ inr (inr ((λ free. cc (held, free)), simp (held, other, lock_as) refl))
  ]
]

locked-free :
    (st : KtState) (interrupts : List ℕ) (mtx mtx' : Kmutex) (s s' : Sched)
    → lock_as st interrupts mtx s ≡ ok (locked, mtx', s')
    → (mtx.km_holder ≡ none) × (mtx' ≡ record mtx { km_holder = some s.curthr }) × (s' ≡ s)
locked-free st interrupts mtx mtx' s s' e = elim (lock-Ways st interrupts mtx s) [
  | inl (free, out) ↦ (free, cc (e, out), cc (e, out))
  | inr (inl out) ↦ absurd (cc (e, out))
  | inr (inr (held, out)) ↦
      let (r, slept, ends) =
        bind-ok (sched_sleep_on st mtx.km_waitq interrupts s) _ (sym out ∙ e) in
      absurd (cc ends)
]

asleep-held :
    (st : KtState) (interrupts : List ℕ) (left : Option (List ℕ)) (mtx mtx' : Kmutex) (s s' : Sched)
    → lock_as st interrupts mtx s ≡ ok (asleep left, mtx', s')
    → (mtx.km_holder ≢ none)
      × (mtx' ≡ mtx)
      × (sched_sleep_on st mtx.km_waitq interrupts s ≡ ok (left, s'))
asleep-held st interrupts left mtx mtx' s s' e = elim (lock-Ways st interrupts mtx s) [
  | inl (free, out) ↦ absurd (cc (e, out))
  | inr (inl out) ↦ absurd (cc (e, out))
  | inr (inr (held, out)) ↦
      let (r, slept, ends) =
        bind-ok (sched_sleep_on st mtx.km_waitq interrupts s) _ (sym out ∙ e) in
      (held, cc ends, cc (slept, ends))
]

-- The current thread has the mutex and is on no queue.
pub taken-Safe :
    (w : World) (mtx : Kmutex)
    → Safe w
    → mtx ≡ record w.mtx { km_holder = some w.sched.curthr }
    → ((u : ℕ) → w.sched.curthr ≢ u → w.mtx.km_holder ≢ some u)
    → Safe (moved_on w mtx w.sched inside)
taken-Safe w mtx v mtx_is alone =
    let m = w.mtx.km_waitq in
    let cur = w.sched.curthr in
    rw mtx_is (record {
      links = v.links;
      queued = v.queued;
      waitq = v.waitq;
      places =
          update-Place m cur (some cur) w.sched.threads w.pc inside
            (ground (arith, v.running), refl)
            (λ u other.
              Place-keep m u w.mtx.km_holder (some cur) (w.sched.threads u) (w.sched.threads u)
                (w.pc u) (λ on. (on, refl)) (λ on. on) (λ c. c)
                (λ held. absurd (alone u other held)) (v.places u));
      free = λ e. absurd (cc e);
      running = v.running;
    })

-- A thread has taken the free mutex.
pub locked-Safe :
    (st : KtState) (interrupts : List ℕ) (w : World) (mtx : Kmutex) (s : Sched)
    → Safe w
    → lock_as st interrupts w.mtx w.sched ≡ ok (locked, mtx, s)
    → Safe (moved_on w mtx s inside)
locked-Safe st interrupts w mtx s v e =
    let (free, mtx_is, s_is) = locked-free st interrupts w.mtx mtx w.sched s e in
    rw s_is (taken-Safe w mtx v mtx_is (λ u other held. cc (free, held)))

-- A thread sleeps on the wait queue of the mutex, which another holds.
pub asleep-Safe :
    (st : KtState) (p : Pc) (interrupts rest : List ℕ) (w : World) (mtx : Kmutex) (s : Sched)
    → Safe w
    → is_asleep st ≡ true
    → Elsewhere w.mtx.km_waitq interrupts
    → ((t : ℕ) (h : Option ℕ) (th : Kthread)
        → th.kt_wchan ≡ some w.mtx.km_waitq
        → th.kt_state ≡ st
        → Place w.mtx.km_waitq h t th p)
    → lock_as st interrupts w.mtx w.sched ≡ ok (asleep (some rest), mtx, s)
    → Safe (moved_on w mtx s p)
asleep-Safe st p interrupts rest w mtx s v nods others there e =
    let (held, mtx_is, slept) = asleep-held st interrupts (some rest) w.mtx mtx w.sched s e in
    let m = w.mtx.km_waitq in
    let cur = w.sched.curthr in
    let (s1, joined, lists, k, runs) = Returns-ok (
      subst (Returns _) slept (
        sleep-Joined m st m interrupts w.sched nods v.waitq v.waitq v.links v.queued others
          v.running)) in
    let now_on : s.threads cur ≡ record (w.sched.threads cur) { kt_state = st; kt_wchan = some m } =
      k.stay cur (rw joined.joins refl) ∙ joined.joins in
    rw mtx_is (record {
      links = k.links;
      queued = k.queued;
      waitq = v.waitq;
      places =
          update-Place m cur w.mtx.km_holder s.threads w.pc p
            (there cur w.mtx.km_holder (s.threads cur) (ground (arith, now_on))
              (ground (arith, now_on)))
            (λ u other.
              Keeps-Place m u w.mtx.km_holder s1 s (w.pc u) k
                (rw (joined.others u other) (v.places u)));
      free = λ e. absurd (held e);
      running = runs;
    })
