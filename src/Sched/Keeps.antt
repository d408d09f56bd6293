-- ===== src/Sched/Keeps.antt =====
-- Scheduling by proc/sched.c that leaves the threads alone that wait on one queue, a mutex's.
use usc_projects.Prelude.{
  ℕ, ◌<◌, ◌≡◌, ◌≢◌, refl, sym, subst, ◌∙◌, inl, inr, Option, none, some, List, [], ◌∷◌, arith,
  Option-cases, All,
}
use usc_projects.Kernel.{Returns, returns, Returns-bind, Returns-mono}
use usc_projects.Sched.{
  Sched, kt_runq, ktqueue_dequeue, switch_to, switch_loop, sched_switch, sched_wakeup_on,
}
use usc_projects.Sched.Links.{IsLinked, TakenOff, Dequeued, ktqueue_dequeue-Dequeued}
use usc_projects.Sched.Wakeup.{Moved, Woken, sched_wakeup_on-Woken}
use usc_projects.Sched.Cancel.{IsQueued}

module _ (m : ℕ) where
  -- The threads on the queue and their order are as they were, and no thread was cancelled.
  pub record Keeps (s s' : Sched) : Type 0 where
    pub links : IsLinked s'
    pub queued : IsQueued s'
    pub stay : (u : ℕ) → (s.threads u).kt_wchan ≡ some m → s'.threads u ≡ s.threads u
    pub stood : (u : ℕ) → (s'.threads u).kt_wchan ≡ some m → (s.threads u).kt_wchan ≡ some m
    pub same_flags : (u : ℕ) → (s'.threads u).kt_cancelled ≡ (s.threads u).kt_cancelled
    pub same_list : (s'.queues m).tq_list ≡ (s.queues m).tq_list

module _ (m : ℕ) where
  pub Keeps-trans : {s1 s2 s3 : Sched} → Keeps m s1 s2 → Keeps m s2 s3 → Keeps m s1 s3
  Keeps-trans a b = record {
    links = b.links;
    queued = b.queued;
    stay = λ u on. b.stay u (rw (a.stay u on) on) ∙ a.stay u on;
    stood = λ u on. a.stood u (b.stood u on);
    same_flags = λ u. b.same_flags u ∙ a.same_flags u;
    same_list = b.same_list ∙ a.same_list;
  }

  pub Keeps-refl : (s : Sched) → IsLinked s → IsQueued s → Keeps m s s
  Keeps-refl s v queued = record {
    links = v;
    queued = queued;
    stay = λ u on. refl;
    stood = λ u on. on;
    same_flags = λ u. refl;
    same_list = refl;
  }

  pub Keeps-Moved :
      (q t : ℕ) (s s' : Sched)
      → 0 < m
      → q ≢ m
      → IsQueued s
      → (s.threads t).kt_wchan ≡ some q
      → Moved q t s s'
      → Keeps m s s'
  Keeps-Moved q t s s' waitq other queued on moved = record {
    links = moved.links;
    queued = λ u. ground (arith, moved.same_threads u, queued u);
    stay = λ u there. moved.same_threads u ∙ ground (arith, other, on, there);
    stood = λ u. ground (arith, waitq, moved.same_threads u);
    same_flags = λ u. ground (arith, moved.same_threads u);
    same_list = moved.others m other (ground arith);
  }

  pub wakeup-Keeps :
      (q : ℕ) (s : Sched)
      → 0 < m
      → 0 < q
      → q ≢ m
      → IsLinked s
      → IsQueued s
      → Returns (λ r. Keeps m s r.1) (sched_wakeup_on q s)
  wakeup-Keeps q s waitq sleepers other v queued =
      Returns-mono (sched_wakeup_on-Woken q s sleepers v) woken
    where
      woken : (r : Option ℕ × Sched) → Woken q s r → Keeps m s r.1
      woken (none, s') (e, same) = subst (Keeps m s) (sym same) (Keeps-refl s v queued)
      woken (some t, s') (e, moved) =
          Keeps-Moved q t s s' waitq other queued (ground (arith, e, v.linked q t)) moved

  Keeps-TakenOff :
      (t : ℕ) (s s' : Sched)
      → 0 < m
      → IsLinked s
      → IsQueued s
      → TakenOff kt_runq t s s'
      → Keeps m s s'
  Keeps-TakenOff t s s' waitq v queued off = record {
    links = off.links;
    queued = λ u. rw off.same_threads (ground (arith, off.stood, v.fitting t, queued u));
    stay = λ u there. rw off.same_threads (ground (arith, waitq, off.stood, there));
    stood = λ u. rw off.same_threads (ground arith);
    same_flags = λ u. rw off.same_threads (ground arith);
    same_list = off.others m (ground (arith, waitq));
  }

  -- The interrupt level and the current thread do not matter.
  pub Keeps-relabel :
      (level t level' t' : ℕ) (s s' : Sched)
      → Keeps m s s'
      → Keeps m (record s { ipl = level; curthr = t }) (record s' { ipl = level'; curthr = t' })
  Keeps-relabel level t level' t' s s' k = record {
    links = record { linked = k.links.linked; sized = k.links.sized; fitting = k.links.fitting };
    queued = k.queued;
    stay = k.stay;
    stood = k.stood;
    same_flags = k.same_flags;
    same_list = k.same_list;
  }

  -- If the kernel does not wait for an interrupt, the thread that runs is on no queue.
  abbrev pub Runs : Option (List ℕ) × Sched → Type 0
  Runs (none, s) = Unit
  Runs (some rest, s) = (s.threads s.curthr).kt_wchan ≡ none

  abbrev Tried : Sched → Option ℕ × Sched → Type 0
  Tried s (none, s') = Unit
  Tried s (some t, s') = Keeps m s s' × ((s'.threads t).kt_wchan ≡ none)

  dequeue-Tried :
      (s : Sched) → 0 < m → IsLinked s → IsQueued s → Tried s (ktqueue_dequeue kt_runq s)
  dequeue-Tried s waitq v queued =
      go (ktqueue_dequeue kt_runq s) (ktqueue_dequeue-Dequeued kt_runq s v)
    where
      go : (r : Option ℕ × Sched) → Dequeued kt_runq s r → Tried s r
      go (none, s') d = tt
      go (some t, s') (e, off) =
          (Keeps-TakenOff t s s' waitq v queued off, rw off.same_threads (ground arith))

  picked-Runs :
      (level t : ℕ) (rest : List ℕ) (s : Sched)
      → 0 < m
      → IsLinked s
      → IsQueued s
      → (ktqueue_dequeue kt_runq s).0 ≡ some t
      → Keeps m s (switch_to level rest t (ktqueue_dequeue kt_runq s).1).1
        × Runs (switch_to level rest t (ktqueue_dequeue kt_runq s).1)
  unfolding switch_to
  picked-Runs level t rest s waitq v queued e =
      let (keeps, off) =
        subst (λ o. Tried s (o, (ktqueue_dequeue kt_runq s).1)) e
          (dequeue-Tried s waitq v queued) in
      (Keeps-relabel s.ipl s.curthr level t s (ktqueue_dequeue kt_runq s).1 keeps, off)

  -- Interrupts that do not wake the queue.
  abbrev pub Elsewhere : List ℕ → Type 0
  Elsewhere = All (λ q. (0 < q) × (q ≢ m))

  loop-Keeps :
      (level : ℕ) (interrupts : List ℕ) (s : Sched)
      → 0 < m
      → IsLinked s
      → IsQueued s
      → Elsewhere interrupts
      → Returns (λ r. Keeps m s r.1 × Runs r) (switch_loop level interrupts s)
  unfolding switch_loop
  loop-Keeps level [] s waitq v queued others = elim (Option-cases (ktqueue_dequeue kt_runq s).0) [
    | inl e ↦
        rw (e, switch_loop)
          (returns (Keeps-relabel s.ipl s.curthr 0 s.curthr s s (Keeps-refl s v queued), tt))
    | inr (t, e) ↦ rw (e, switch_loop) (returns (picked-Runs level t [] s waitq v queued e))
  ]
  loop-Keeps level (q ∷ rest) s waitq v queued others =
      elim (Option-cases (ktqueue_dequeue kt_runq s).0) [
        | inl e ↦
            let low : Keeps m s (record s { ipl = 0 }) =
              Keeps-relabel s.ipl s.curthr 0 s.curthr s s (Keeps-refl s v queued) in
            rw (e, switch_loop)
              (Returns-bind
                (wakeup-Keeps q (record s { ipl = 0 }) waitq others.0.0 others.0.1 low.links
                  low.queued)
                (λ r k.
                  let high : Keeps m s (record r.1 { ipl = 255 }) =
                    Keeps-relabel s.ipl s.curthr 255 r.1.curthr s r.1 (Keeps-trans low k) in
                  Returns-mono
                    (loop-Keeps level rest (record r.1 { ipl = 255 }) waitq high.links high.queued
                      others.1)
                    (λ r' (k', runs). (Keeps-trans high k', runs))))
        | inr (t, e) ↦
            rw (e, switch_loop) (returns (picked-Runs level t (q ∷ rest) s waitq v queued e))
      ]

  pub switch-Keeps :
      (interrupts : List ℕ) (s : Sched)
      → 0 < m
      → IsLinked s
      → IsQueued s
      → Elsewhere interrupts
      → Returns (λ r. Keeps m s r.1 × Runs r) (sched_switch interrupts s)
  unfolding sched_switch
  switch-Keeps interrupts s waitq v queued others =
      let high : Keeps m s (record s { ipl = 255 }) =
        Keeps-relabel s.ipl s.curthr 255 s.curthr s s (Keeps-refl s v queued) in
      Returns-mono
        (loop-Keeps s.ipl interrupts (record s { ipl = 255 }) waitq high.links high.queued others)
        (λ r (k, runs). (Keeps-trans high k, runs))
