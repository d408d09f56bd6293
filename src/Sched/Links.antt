-- ===== src/Sched/Links.antt =====
-- The links between threads and queues, which every function of proc/sched.c keeps.
use usc_projects.Prelude.{
  ℕ, zero, suc, ◌≡◌, ◌≢◌, refl, inl, inr, Bool, true, false, Option, none, some, List, [], ◌∷◌,
  ◌++◌, arith, ◌==◌, if◌then◌else◌, update, count, count-append, count-erase, length-erase, length,
  length-append, Option-cases,
}
use usc_projects.Kernel.{Returns, returns, Returns-bind}
use usc_projects.Sched.{
  KtState, run, Kthread, Ktqueue, Sched, kt_runq, set_state, set_wchan, ktqueue_enqueue,
  ktqueue_dequeue, ktqueue_remove, sched_make_runnable, is_asleep, on_runq,
}

-- How often a thread with this `kt_wchan` stands on the queue.
abbrev pub stands_on : ℕ → Option ℕ → ℕ
stands_on q none = 0
stands_on q (some p) = if p == q then 1 else 0

-- The states that a thread may have on the queue that its `kt_wchan` names.
abbrev pub fits : Option ℕ → KtState → Bool
fits none st = true
fits (some zero) run = true
fits (some zero) _ = false
fits (some (suc q)) st = is_asleep st

-- Every thread is linked into exactly the queue that its `kt_wchan` names, once, and into none if
-- that is NULL. The sizes of the queues are right, and the state of a thread fits its queue.
pub record IsLinked (s : Sched) : Type 0 where
  pub linked : (q t : ℕ) → count t (s.queues q).tq_list ≡ stands_on q (s.threads t).kt_wchan
  pub sized : (q : ℕ) → (s.queues q).tq_size ≡ length (s.queues q).tq_list
  pub fitting : (t : ℕ) → fits (s.threads t).kt_wchan (s.threads t).kt_state ≡ true

-- The queue lists after a thread was put behind the others of a queue.
abbrev pub appended : ℕ → ℕ → (ℕ → Ktqueue) → ℕ → List ℕ
appended q t queues p = if q == p then (queues p).tq_list ++ t ∷ [] else (queues p).tq_list

-- What putting a thread on a queue leaves: the links hold, the thread stands behind the others of
-- that queue, and nothing else changes.
pub record Enqueued (q t : ℕ) (s s' : Sched) : Type 0 where
  pub links : IsLinked s'
  pub lists : (p : ℕ) → (s'.queues p).tq_list ≡ appended q t s.queues p
  pub same_threads : s'.threads ≡ set_wchan t (some q) s.threads
  pub same_curthr : s'.curthr ≡ s.curthr
  pub same_ipl : s'.ipl ≡ s.ipl

pub ktqueue_enqueue-Enqueued :
    (q t : ℕ) (s : Sched)
    → IsLinked s
    → (s.threads t).kt_wchan ≡ none
    → fits (some q) (s.threads t).kt_state ≡ true
    → Returns (Enqueued q t s) (ktqueue_enqueue q t s)
unfolding ktqueue_enqueue
ktqueue_enqueue-Enqueued q t s v off fit =
    rw (off, ktqueue_enqueue)
      (returns (record {
        links = record {
          linked = λ p u. ground (
            arith,
            off,
            v.linked p u,
            v.linked q u,
            count-append u (s.queues q).tq_list (t ∷ []),
          );
          sized = λ p.
              ground (arith, v.sized p, v.sized q, length-append (s.queues q).tq_list (t ∷ []));
          fitting = λ u. ground (arith, off, v.fitting u, fit);
        };
        lists = λ p. ground arith;
        same_threads = refl;
        same_curthr = refl;
        same_ipl = refl;
      }))

-- What taking a thread off a queue leaves: the links hold, the other queues are as they were, the
-- thread is linked nowhere, and nothing else changes.
pub record TakenOff (q t : ℕ) (s s' : Sched) : Type 0 where
  pub links : IsLinked s'
  pub stood : (s.threads t).kt_wchan ≡ some q
  pub others : (p : ℕ) → q ≢ p → (s'.queues p).tq_list ≡ (s.queues p).tq_list
  pub same_threads : s'.threads ≡ set_wchan t none s.threads
  pub same_curthr : s'.curthr ≡ s.curthr
  pub same_ipl : s'.ipl ≡ s.ipl

-- Taking the longest waiting thread off a queue: there is none exactly if the queue is empty.
abbrev pub Dequeued : ℕ → Sched → Option ℕ × Sched → Type 0
Dequeued q s (none, s') = ((s.queues q).tq_list ≡ []) × (s' ≡ s)
Dequeued q s (some t, s') = ((s.queues q).tq_list ≡ t ∷ (s'.queues q).tq_list) × TakenOff q t s s'

pub dequeue-linked :
    (q t : ℕ) (rest : List ℕ) (s : Sched)
    → IsLinked s
    → (s.queues q).tq_list ≡ t ∷ rest
    → (s.threads t).kt_wchan ≡ some q
dequeue-linked q t rest s v e = elim (Option-cases (s.threads t).kt_wchan) [
  | inl off ↦ absurd (ground (arith, off, e, v.linked q t))
  | inr (p, on) ↦ ground (arith, on, e, v.linked q t)
]

pub ktqueue_dequeue-Dequeued : (q : ℕ) (s : Sched) → IsLinked s → Dequeued q s (ktqueue_dequeue q s)
unfolding ktqueue_dequeue
ktqueue_dequeue-Dequeued q s v = go (s.queues q).tq_list refl
  where
    go : (l : List ℕ) → (s.queues q).tq_list ≡ l → Dequeued q s (ktqueue_dequeue q s)
    go [] e = rw (e, ktqueue_dequeue) (e, refl)
    go (t ∷ rest) e =
        let on = dequeue-linked q t rest s v e in
        rw (e, ktqueue_dequeue)
          (
            ground (arith, e),
            record {
              links = record {
                linked = λ p u. ground (arith, e, on, v.linked p u, v.linked q u);
                sized = λ p. ground (arith, e, v.sized p, v.sized q);
                fitting = λ u. ground (arith, v.fitting u);
              };
              stood = on;
              others = λ p other. ground (arith, other);
              same_threads = refl;
              same_curthr = refl;
              same_ipl = refl;
            },
          )

pub ktqueue_remove-TakenOff :
    (q t : ℕ) (s : Sched)
    → IsLinked s
    → (s.threads t).kt_wchan ≡ some q
    → Returns (TakenOff q t s) (ktqueue_remove q t s)
unfolding ktqueue_remove
ktqueue_remove-TakenOff q t s v on =
    let there : (count t (s.queues q).tq_list == 0) ≡ false = ground (arith, on, v.linked q t) in
    rw there (
      returns (record {
        links = record {
          linked = λ p u.
              ground (arith, on, v.linked p u, v.linked q u, count-erase u t (s.queues q).tq_list);
          sized = λ p.
              ground (
                arith,
                on,
                v.sized p,
                v.sized q,
                v.linked q t,
                length-erase t (s.queues q).tq_list,
              );
          fitting = λ u. ground (arith, v.fitting u);
        };
        stood = on;
        others = λ p other. ground (arith, other);
        same_threads = refl;
        same_curthr = refl;
        same_ipl = refl;
      }))

abbrev pub runnable : ℕ → (ℕ → Kthread) → ℕ → Kthread
runnable t threads =
    update threads t (record (threads t) { kt_state = run; kt_wchan = some kt_runq })

-- What making a thread runnable leaves: the links hold, the thread stands last on the run queue with
-- the state KT_RUN, and nothing else changes, the interrupt level included.
pub record MadeRunnable (t : ℕ) (s s' : Sched) : Type 0 where
  pub links : IsLinked s'
  pub lists : (p : ℕ) → (s'.queues p).tq_list ≡ appended kt_runq t s.queues p
  pub same_threads : (u : ℕ) → s'.threads u ≡ runnable t s.threads u
  pub same_curthr : s'.curthr ≡ s.curthr
  pub same_ipl : s'.ipl ≡ s.ipl

pub sched_make_runnable-MadeRunnable :
    (t : ℕ) (s : Sched)
    → IsLinked s
    → (s.threads t).kt_wchan ≡ none
    → Returns (MadeRunnable t s) (sched_make_runnable t s)
unfolding sched_make_runnable
sched_make_runnable-MadeRunnable t s v off =
    let ready : Sched = set_state t run (record s { ipl = 255 }) in
    let ready-IsLinked : IsLinked ready = record {
      linked = λ q u. ground (arith, v.linked q u);
      sized = v.sized;
      fitting = λ u. ground (arith, off, v.fitting u);
    } in
    let not_on : on_runq (s.threads t).kt_wchan ≡ false = ground (arith, off) in
    rw not_on (
      Returns-bind
        (ktqueue_enqueue-Enqueued kt_runq t ready ready-IsLinked (ground (arith, off))
          (ground arith))
        (λ s' e. returns (record {
          links = record {
            linked = e.links.linked;
            sized = e.links.sized;
            fitting = e.links.fitting;
          };
          lists = e.lists;
          same_threads = λ u. rw e.same_threads (ground arith);
          same_curthr = e.same_curthr;
          same_ipl = refl;
        })))
