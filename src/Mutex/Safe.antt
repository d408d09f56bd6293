-- ===== src/Mutex/Safe.antt =====
-- The invariant of the threads that use a mutex of proc/kmutex.c.
use usc_projects.Prelude.{
  ℕ, ◌<◌, ◌≡◌, ◌≢◌, refl, subst, ◌∙◌, ◌⊎◌, inl, inr, true, Option, none, some, [], arith, ◌==◌,
  update, Bool-cases,
}
use usc_projects.Sched.{sleep, sleep_cancellable, Kthread, Sched}
use usc_projects.Sched.Links.{IsLinked}
use usc_projects.Sched.Cancel.{IsQueued}
use usc_projects.Sched.Keeps.{Keeps}
use usc_projects.Mutex.Step.{Pc, outside, waiting, waiting_cancellable, inside, World}

-- What holds of a thread, by where it is: whoever is inside is the holder, and whoever waits stands
-- on the wait queue, or has been made the holder, or was cancelled.
abbrev pub Place : ℕ → Option ℕ → ℕ → Kthread → Pc → Type 0
Place m h t th outside = th.kt_wchan ≢ some m
Place m h t th waiting =
    ((th.kt_wchan ≡ some m) × (th.kt_state ≡ sleep)) ⊎ ((th.kt_wchan ≢ some m) × (h ≡ some t))
Place m h t th waiting_cancellable =
    ((th.kt_wchan ≡ some m) × (th.kt_state ≡ sleep_cancellable))
    ⊎ ((th.kt_wchan ≢ some m) × ((h ≡ some t) ⊎ (th.kt_cancelled ≡ true)))
Place m h t th inside = (th.kt_wchan ≢ some m) × (h ≡ some t)

-- The invariant. A free mutex has no waiting threads.
pub record Safe (w : World) : Type 0 where
  pub links : IsLinked w.sched
  pub queued : IsQueued w.sched
  pub waitq : 0 < w.mtx.km_waitq
  pub places : (t : ℕ) → Place w.mtx.km_waitq w.mtx.km_holder t (w.sched.threads t) (w.pc t)
  pub free : w.mtx.km_holder ≡ none → (w.sched.queues w.mtx.km_waitq).tq_list ≡ []
  pub running : (w.sched.threads w.sched.curthr).kt_wchan ≡ none

-- A thread that does not move on the wait queue, and does not lose the mutex, keeps its place.
pub Place-keep :
    (m t : ℕ) (h h' : Option ℕ) (th th' : Kthread) (p : Pc)
    → (th.kt_wchan ≡ some m → (th'.kt_wchan ≡ some m) × (th'.kt_state ≡ th.kt_state))
    → (th'.kt_wchan ≡ some m → th.kt_wchan ≡ some m)
    → (th.kt_cancelled ≡ true → th'.kt_cancelled ≡ true)
    → (h ≡ some t → h' ≡ some t)
    → Place m h t th p
    → Place m h' t th' p
Place-keep m t h h' th th' outside stay stood flags holds place = λ on. place (stood on)
Place-keep m t h h' th th' waiting stay stood flags holds (inl (on, st)) =
    inl ((stay on).0, (stay on).1 ∙ st)
Place-keep m t h h' th th' waiting stay stood flags holds (inr (off, held)) =
    inr ((λ on. off (stood on)), holds held)
Place-keep m t h h' th th' waiting_cancellable stay stood flags holds (inl (on, st)) =
    inl ((stay on).0, (stay on).1 ∙ st)
Place-keep m t h h' th th' waiting_cancellable stay stood flags holds (inr (off, inl held)) =
    inr ((λ on. off (stood on)), inl (holds held))
Place-keep m t h h' th th' waiting_cancellable stay stood flags holds (inr (off, inr gone)) =
    inr ((λ on. off (stood on)), inr (flags gone))
Place-keep m t h h' th th' inside stay stood flags holds (off, held) =
    ((λ on. off (stood on)), holds held)

pub Keeps-Place :
    (m u : ℕ) (h : Option ℕ) (s s' : Sched) (p : Pc)
    → Keeps m s s'
    → Place m h u (s.threads u) p
    → Place m h u (s'.threads u) p
Keeps-Place m u h s s' p k =
    Place-keep m u h h (s.threads u) (s'.threads u) p
      (λ on. (rw (k.stay u on) on, rw (k.stay u on) refl)) (k.stood u) (λ e. k.same_flags u ∙ e)
      (λ e. e)

-- Scheduling that leaves the wait queue alone.
pub Keeps-Safe :
    (w : World) (s : Sched)
    → Safe w
    → Keeps w.mtx.km_waitq w.sched s
    → (s.threads s.curthr).kt_wchan ≡ none
    → Safe (record w { sched = s })
Keeps-Safe w s v k running = record {
  links = k.links;
  queued = k.queued;
  waitq = v.waitq;
  places = λ u. Keeps-Place w.mtx.km_waitq u w.mtx.km_holder w.sched s (w.pc u) k (v.places u);
  free = λ e. k.same_list ∙ v.free e;
  running = running;
}

pub update-Place :
    (m t : ℕ) (h : Option ℕ) (threads : ℕ → Kthread) (pc : ℕ → Pc) (p : Pc)
    → Place m h t (threads t) p
    → ((u : ℕ) → t ≢ u → Place m h u (threads u) (pc u))
    → (u : ℕ) → Place m h u (threads u) (update pc t p u)
update-Place m t h threads pc p here others u = elim (Bool-cases (t == u)) [
  | inl is ↦ rw is (subst (λ x. Place m h x (threads x) p) (ground (arith, is)) here)
  | inr isnt ↦ rw isnt (others u (ground (arith, isnt)))
]
