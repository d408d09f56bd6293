-- ===== src/Sched/Broadcast.antt =====
-- What sched_broadcast_on of proc/sched.c in Kernel Assignment 3/vm/kernel does.
use usc_projects.Prelude.{
  ℕ, suc, ◌<◌, ◌≡◌, ◌≢◌, refl, sym, subst, ◌∙◌, inl, inr, true, false, Option, none, some, List, [],
  ◌∷◌, ◌++◌, arith, ◌==◌, length, Bool-cases,
}
use mathlib.Core.List.{append_assoc, append-nil}
use usc_projects.Kernel.{Returns, returns, Returns-bind, Returns-mono}
use usc_projects.Sched.{run, Sched, kt_runq, broadcast_loop, sched_broadcast_on}
use usc_projects.Sched.Links.{IsLinked}
use usc_projects.Sched.Wakeup.{Moved, Woken, sched_wakeup_on-Woken}

-- The threads of a queue have moved behind the run queue.
pub record Emptied (q : ℕ) (l : List ℕ) (s s' : Sched) : Type 0 where
  pub links : IsLinked s'
  pub empty : (s'.queues q).tq_list ≡ []
  pub run_queue : (s'.queues kt_runq).tq_list ≡ (s.queues kt_runq).tq_list ++ l
  pub others : (p : ℕ) → q ≢ p → kt_runq ≢ p → (s'.queues p).tq_list ≡ (s.queues p).tq_list
  pub woken :
      (u : ℕ)
      → (s.threads u).kt_wchan ≡ some q
      → s'.threads u ≡ record (s.threads u) { kt_state = run; kt_wchan = some kt_runq }
  pub asleep : (u : ℕ) → (s.threads u).kt_wchan ≢ some q → s'.threads u ≡ s.threads u
  pub same_curthr : s'.curthr ≡ s.curthr
  pub same_ipl : s'.ipl ≡ s.ipl

nobody-waits :
    (q u : ℕ) (s : Sched) → IsLinked s → (s.queues q).tq_list ≡ [] → (s.threads u).kt_wchan ≢ some q
nobody-waits q u s v e on = ground (arith, e, on, v.linked q u)

wake-Emptied :
    (q t : ℕ) (rest : List ℕ) (s s' s'' : Sched)
    → 0 < q
    → (s.threads t).kt_wchan ≡ some q
    → Moved q t s s'
    → Emptied q rest s' s''
    → Emptied q (t ∷ rest) s s''
wake-Emptied q t rest s s' s'' sleepers on moved done = record {
  links = done.links;
  empty = done.empty;
  run_queue =
      rw (done.run_queue, moved.run_queue, append_assoc (s.queues kt_runq).tq_list (t ∷ []) rest)
        refl;
  others = λ p not_q not_run. done.others p not_q not_run ∙ moved.others p not_q not_run;
  woken = λ u waits. elim (Bool-cases (t == u)) [
    | inl is ↦
        let now : s'.threads u ≡ record (s.threads u) { kt_state = run; kt_wchan = some kt_runq } =
          moved.same_threads u ∙ ground (arith, is) in
        done.asleep u (rw now (ground (arith, sleepers))) ∙ now
    | inr isnt ↦
        let same : s'.threads u ≡ s.threads u = moved.same_threads u ∙ ground (arith, isnt) in
        rw (done.woken u (rw same waits), same) refl
  ];
  asleep = λ u off.
      let same : s'.threads u ≡ s.threads u = moved.same_threads u ∙ ground (arith, on, off) in
      done.asleep u (rw same off) ∙ same;
  same_curthr = done.same_curthr ∙ moved.same_curthr;
  same_ipl = done.same_ipl ∙ moved.same_ipl;
}

broadcast-Emptied :
    (l : List ℕ) (q : ℕ) (s : Sched)
    → 0 < q
    → IsLinked s
    → (s.queues q).tq_list ≡ l
    → Returns (Emptied q l s) (broadcast_loop (suc (length l)) q s)
unfolding broadcast_loop
broadcast-Emptied [] q s sleepers v e =
    let none_left : ((s.queues q).tq_size == 0) ≡ true = ground (arith, e, v.sized q) in
    rw (none_left, broadcast_loop)
      (returns (record {
        links = v;
        empty = e;
        run_queue = sym (append-nil (s.queues kt_runq).tq_list);
        others = λ p not_q not_run. refl;
        woken = λ u on. absurd (nobody-waits q u s v e on);
        asleep = λ u off. refl;
        same_curthr = refl;
        same_ipl = refl;
      }))
broadcast-Emptied (t ∷ rest) q s sleepers v e =
    let more : ((s.queues q).tq_size == 0) ≡ false = ground (arith, e, v.sized q) in
    rw (more, broadcast_loop)
      (Returns-bind (sched_wakeup_on-Woken q s sleepers v) (after (broadcast-Emptied rest q)))
  where
    after :
        ((s' : Sched)
          → 0 < q
          → IsLinked s'
          → (s'.queues q).tq_list ≡ rest
          → Returns (Emptied q rest s') (broadcast_loop (suc (length rest)) q s'))
        → (r : Option ℕ × Sched) → Woken q s r
        → Returns (Emptied q (t ∷ rest) s) (broadcast_loop (suc (length rest)) q r.1)
    after again (none, s') (empty, same) = absurd (ground (arith, e, empty))
    after again (some u, s') (first, moved) =
        let is : u ≡ t = ground (arith, e, first) in
        Returns-mono (again s' sleepers moved.links (ground (arith, e, first))) (λ s''.
          wake-Emptied q t rest s s' s'' sleepers (ground (arith, e, v.linked q t))
            (subst (λ x. Moved q x s s') is moved))

-- Waking up all the threads of a queue to sleep on never panics and ends. The queue is then empty,
-- its threads stand behind the run queue in the order in which they have waited, all of them with
-- the state KT_RUN, no other thread and no other queue has changed, and the links hold.
pub sched_broadcast_on-Emptied :
    (q : ℕ) (s : Sched)
    → 0 < q
    → IsLinked s
    → Returns (Emptied q (s.queues q).tq_list s) (sched_broadcast_on q s)
unfolding sched_broadcast_on
sched_broadcast_on-Emptied q s sleepers v =
    rw (v.sized q) (broadcast-Emptied (s.queues q).tq_list q s sleepers v refl)
