-- ===== src/Sched.antt =====
-- The scheduler: kt_state and the queues of include/proc/kthread.h and sched.h, and proc/sched.c of
-- Kernel Assignment 3/vm/kernel. (Assignments 1 and 2 have the same file.)
pub mod Links
pub mod Wakeup
pub mod Broadcast
pub mod Cancel
pub mod Switch
pub mod Keeps
pub mod Elsewhere
mod Tests
use usc_projects.Prelude.{
  ℕ, zero, suc, ◌+◌, ◌-◌, Bool, true, false, Option, none, some, List, [], ◌∷◌, ◌++◌, ltb, ◌==◌,
  if◌then◌else◌, update, count, erase,
}
use usc_projects.Kernel.{Code, done, fail, eintr, Outcome, ok, panic, out_of_fuel, ◌>>=◌}

pub data KtState : Type 0 where
  no_state run sleep sleep_cancellable exited : KtState

-- `kthread_t`: threads and queues are known by numbers, `kt_wchan` is NULL as `none`.
pub record Kthread : Type 0 where
  pub kt_state : KtState
  pub kt_cancelled : Bool
  pub kt_wchan : Option ℕ

-- `ktqueue_t`: the threads from `l_prev` on, so the one that has waited longest first.
pub record Ktqueue : Type 0 where
  pub tq_list : List ℕ
  pub tq_size : ℕ

pub record Sched : Type 0 where
  pub threads : ℕ → Kthread
  pub queues : ℕ → Ktqueue
  pub curthr : ℕ
  pub ipl : ℕ

-- The run queue. Any other number is a queue to sleep on.
abbrev pub kt_runq : ℕ
kt_runq = 0

abbrev pub ipl_high : ℕ
ipl_high = 255

abbrev pub ipl_low : ℕ
ipl_low = 0

abbrev pub set_wchan : ℕ → Option ℕ → (ℕ → Kthread) → ℕ → Kthread
set_wchan t w threads = update threads t (record (threads t) { kt_wchan = w })

abbrev pub set_state : ℕ → KtState → Sched → Sched
set_state t st s = record s {
  threads = update s.threads t (record (s.threads t) { kt_state = st });
}

-- list_insert_head: the new thread is the last that `l_prev` leads to.
unfoldable pub ktqueue_enqueue : ℕ → ℕ → Sched → Outcome Sched
ktqueue_enqueue q t s = elim (s.threads t).kt_wchan [
  | some _ ↦ panic
  | none ↦ ok (record s {
    threads = set_wchan t (some q) s.threads;
    queues =
        update s.queues q
          (record { tq_list = (s.queues q).tq_list ++ t ∷ []; tq_size = (s.queues q).tq_size + 1 });
  })
]

unfoldable pub ktqueue_dequeue : ℕ → Sched → Option ℕ × Sched
ktqueue_dequeue q s = elim (s.queues q).tq_list [
  | [] ↦ (none, s)
  | t ∷ rest ↦ (
    some t,
    record s {
      threads = set_wchan t none s.threads;
      queues = update s.queues q (record { tq_list = rest; tq_size = (s.queues q).tq_size - 1 });
    },
  )
]

-- The assertion that the thread's links are set is that it stands on the queue.
pub ktqueue_remove : ℕ → ℕ → Sched → Outcome Sched
ktqueue_remove q t s =
    if count t (s.queues q).tq_list == 0
    then panic
    else ok (record s {
      threads = set_wchan t none s.threads;
      queues =
          update s.queues q
            (record { tq_list = erase t (s.queues q).tq_list; tq_size = (s.queues q).tq_size - 1 });
    })

pub sched_queue_init : ℕ → Sched → Sched
sched_queue_init q s = record s {
  queues = update s.queues q (record { tq_list = []; tq_size = 0 });
}

pub sched_queue_empty : ℕ → Sched → Bool
sched_queue_empty q s = elim (s.queues q).tq_list [ [] ↦ true | _ ∷ _ ↦ false ]

abbrev pub on_runq : Option ℕ → Bool
on_runq none = false
on_runq (some q) = q == kt_runq

-- The interrupt level is raised for the change of the run queue and then put back.
unfoldable pub sched_make_runnable : ℕ → Sched → Outcome Sched
sched_make_runnable t s =
    if on_runq (s.threads t).kt_wchan
    then panic
    else ktqueue_enqueue kt_runq t (set_state t run (record s { ipl = ipl_high })) >>= λ s'.
        ok (record s' { ipl = s.ipl })

abbrev pub is_asleep : KtState → Bool
is_asleep sleep = true
is_asleep sleep_cancellable = true
is_asleep _ = false

-- The part of sched_wakeup_on on the thread that was taken off the queue.
unfoldable pub wake : Option ℕ × Sched → Outcome (Option ℕ × Sched)
wake (none, s) = ok (none, s)
wake (some t, s) =
    if is_asleep (s.threads t).kt_state
    then (sched_make_runnable t s >>= λ s'. ok (some t, s'))
    else panic

unfoldable pub sched_wakeup_on : ℕ → Sched → Outcome (Option ℕ × Sched)
unfolding wake
sched_wakeup_on q s = wake (ktqueue_dequeue q s)

-- The loop of sched_broadcast_on, on fuel.
pub broadcast_loop : ℕ → ℕ → Sched → Outcome Sched
broadcast_loop zero q s = out_of_fuel
broadcast_loop (suc fuel) q s = elim ((s.queues q).tq_size == 0) [
  | true ↦ ok s
  | false ↦ sched_wakeup_on q s >>= λ (t, s'). broadcast_loop fuel q s'
]

-- One round for each thread of the queue, and one to see that it is empty.
pub sched_broadcast_on : ℕ → Sched → Outcome Sched
sched_broadcast_on q s = broadcast_loop (suc (s.queues q).tq_size) q s

-- A thread in a cancellable sleep is taken off its queue, whose number is in `kt_wchan`.
pub sched_cancel : ℕ → Sched → Outcome Sched
sched_cancel t s =
    let marked = record s {
      threads = update s.threads t (record (s.threads t) { kt_cancelled = true });
    } in
    elim (s.threads t).kt_state [
      | sleep_cancellable ↦ elim (s.threads t).kt_wchan [
        | none ↦ panic
        | some q ↦ ktqueue_remove q t marked >>= sched_make_runnable t
      ]
      | _ ↦ ok marked
    ]

-- sched_switch. `interrupts` are the queues on which the interrupts that come wake a thread, in
-- order. While the run queue is empty the kernel waits for one; `none` says that it still waits
-- after the last. Otherwise the thread that runs next is `curthr` and the rest has not come yet.
unfoldable pub switch_to : ℕ → List ℕ → ℕ → Sched → Option (List ℕ) × Sched
switch_to level rest t s = (some rest, record s { curthr = t; ipl = level })

unfoldable pub switch_loop : ℕ → List ℕ → Sched → Outcome (Option (List ℕ) × Sched)
unfolding switch_to
switch_loop level [] s = elim (ktqueue_dequeue kt_runq s).0 [
  | some t ↦ ok (switch_to level [] t (ktqueue_dequeue kt_runq s).1)
  | none ↦ ok (none, record s { ipl = ipl_low })
]
switch_loop level (q ∷ rest) s = elim (ktqueue_dequeue kt_runq s).0 [
  | some t ↦ ok (switch_to level (q ∷ rest) t (ktqueue_dequeue kt_runq s).1)
  | none ↦ sched_wakeup_on q (record s { ipl = ipl_low }) >>= λ (t, s').
      switch_loop level rest (record s' { ipl = ipl_high })
]

unfoldable pub sched_switch : List ℕ → Sched → Outcome (Option (List ℕ) × Sched)
sched_switch interrupts s = switch_loop s.ipl interrupts (record s { ipl = ipl_high })

-- sched_sleep_on and sched_cancellable_sleep_on up to the moment another thread runs.
unfoldable pub sched_sleep_on : KtState → ℕ → List ℕ → Sched → Outcome (Option (List ℕ) × Sched)
sched_sleep_on st q interrupts s =
    ktqueue_enqueue q s.curthr (set_state s.curthr st s) >>= sched_switch interrupts

-- What sched_cancellable_sleep_on returns when its thread runs again.
unfoldable pub sleep_result : Kthread → Code
sleep_result th = if th.kt_cancelled then fail eintr else done 0
