-- ===== src/Processes.antt =====
-- The process table of proc/proc.c: process ids, creation, exit and waiting. The threads, files,
-- page directory and address space of a process belong to other parts.
pub mod Ids
pub mod Create
pub mod Exit
pub mod Reaped
mod Tests
use usc_projects.Prelude.{
  ℕ, zero, suc, ◌+◌, ◌%◌, Bool, true, false, not, ◌&&◌, ◌||◌, Option, none, some, List, [], ◌∷◌,
  ◌++◌, leb, ltb, ◌==◌, if◌then◌else◌, update, erase,
}
use usc_projects.Kernel.{Outcome, ok, panic, out_of_fuel, ◌>>=◌}

-- `proc_t`. `p_pid` is the 32-bit word of a pid_t, and a pointer is an address, or `none`.
pub record Process : Type 0 where
  pub p_pid : ℕ
  pub p_pproc : Option ℕ
  pub p_children : List ℕ
  pub p_state : ℕ
  pub p_status : ℕ

-- The processes in memory, `_proc_list`, the statics, and what the slab allocator gives next.
pub record Table : Type 0 where
  pub procs : ℕ → Process
  pub proc_list : List ℕ
  pub next_pid : ℕ
  pub curproc : ℕ
  pub initproc : Option ℕ
  pub slab : List ℕ

abbrev pub proc_max_count : ℕ
proc_max_count = 65536

abbrev pub proc_running : ℕ
proc_running = 1

abbrev pub proc_dead : ℕ
proc_dead = 2

abbrev pub no_pid : ℕ
no_pid = 4294967295

-- Whether a process of the list has the id.
pub is_used : (ℕ → Process) → ℕ → List ℕ → Bool
is_used procs pid [] = false
is_used procs pid (p ∷ ps) = (procs p).p_pid == pid || is_used procs pid ps

-- _proc_getid. Its loop starts again at `failed` and makes at most one round for each id. Its result is the id, or -1, and next_pid.
getid_loop : ℕ → ℕ → Table → Outcome (ℕ × Table)
getid_loop zero pid t = out_of_fuel
getid_loop (suc fuel) pid t = elim (is_used t.procs pid t.proc_list) [
  | true ↦ elim ((pid + 1) % proc_max_count == t.next_pid) [
    | true ↦ ok (no_pid, t)
    | false ↦ getid_loop fuel ((pid + 1) % proc_max_count) t
  ]
  | false ↦ ok (pid, record t { next_pid = (pid + 1) % proc_max_count })
]

pub proc_getid : Table → Outcome (ℕ × Table)
proc_getid t = getid_loop proc_max_count t.next_pid t

-- proc_create. The result of _proc_getid is not looked at. The idle process has no parent; the
-- process with the id 1 becomes proc_initproc.
abbrev pub new_process : ℕ → Option ℕ → Process
new_process pid parent = record {
  p_pid = pid;
  p_pproc = parent;
  p_children = [];
  p_state = proc_running;
  p_status = 0;
}

abbrev pub set_children : ℕ → List ℕ → (ℕ → Process) → ℕ → Process
set_children p children procs = update procs p (record (procs p) { p_children = children })

insert_process : ℕ → ℕ → Table → Table
insert_process pid p t =
    if pid == 0
    then record t {
      procs = update t.procs p (new_process pid none);
      proc_list = t.proc_list ++ p ∷ [];
    }
    else let procs = update t.procs p (new_process pid (some t.curproc)) in
      record t {
        procs = set_children t.curproc ((procs t.curproc).p_children ++ p ∷ []) procs;
        proc_list = t.proc_list ++ p ∷ [];
        initproc = if pid == 1 then some p else t.initproc;
      }

abbrev pub is_nil : List ℕ → Bool
is_nil [] = true
is_nil (p ∷ ps) = false

allocate : ℕ → Table → List ℕ → Outcome (ℕ × Table)
allocate pid t [] = panic
allocate pid t (p ∷ rest) = ok (p, insert_process pid p (record t { slab = rest }))

pub proc_create : Table → Outcome (ℕ × Table)
unfolding allocate insert_process
proc_create t = proc_getid t >>= λ (pid, t1).
    if (not (pid == 0) || is_nil t1.proc_list)
      && (not (pid == 1) || (t1.procs t1.curproc).p_pid == 0)
    then allocate pid t1 t1.slab
    else panic

lookup_in : (ℕ → Process) → ℕ → List ℕ → Option ℕ
lookup_in procs pid [] = none
lookup_in procs pid (p ∷ ps) = if (procs p).p_pid == pid then some p else lookup_in procs pid ps

pub proc_lookup : Table → ℕ → Option ℕ
unfolding lookup_in
proc_lookup t pid = lookup_in t.procs pid t.proc_list

-- The children of a process that exits get proc_initproc as their parent.
pub reparent : ℕ → List ℕ → (ℕ → Process) → ℕ → Process
reparent init [] procs = procs
reparent init (c ∷ cs) procs =
    let adopted = update procs c (record (procs c) { p_pproc = some init }) in
    reparent init cs (set_children init ((adopted init).p_children ++ c ∷ []) adopted)

-- proc_cleanup up to sched_switch, without the files and the wake-up of the parent. The loop over
-- the children of proc_initproc itself would not end.
exit_to : ℕ → ℕ → Table → Outcome Table
exit_to status init t =
    let self = t.curproc in
    if (t.procs self).p_state == proc_dead
    then ok t
    else if self == init && not (is_nil (t.procs self).p_children)
    then out_of_fuel
    else let procs = reparent init (t.procs self).p_children t.procs in
      ok (record t {
        procs = update procs self (record (procs self) { p_state = proc_dead; p_status = status });
        proc_list = erase self t.proc_list;
      })

cleanup_with : ℕ → Table → Option ℕ → Option ℕ → Outcome Table
unfolding exit_to
cleanup_with status t none parent = panic
cleanup_with status t (some init) none = panic
cleanup_with status t (some init) (some parent) =
    if ltb 0 (t.procs t.curproc).p_pid && ltb (t.procs t.curproc).p_pid 2147483648
    then exit_to status init t
    else panic

pub proc_cleanup : ℕ → Table → Outcome Table
unfolding cleanup_with
proc_cleanup status t = cleanup_with status t t.initproc (t.procs t.curproc).p_pproc

-- What do_waitpid leads to: a child was reaped, with its id and its exit status; the process sleeps on
-- its p_wait; or it has no such child.
pub data Waited : Type 0 where
  reaped : ℕ → ℕ → Waited
  blocked : Waited
  no_child : Waited

find_dead : (ℕ → Process) → List ℕ → Option ℕ
find_dead procs [] = none
find_dead procs (c ∷ cs) = if (procs c).p_state == proc_dead then some c else find_dead procs cs

pub find_child : (ℕ → Process) → ℕ → List ℕ → Option ℕ
find_child procs pid [] = none
find_child procs pid (c ∷ cs) = if (procs c).p_pid == pid then some c else find_child procs pid cs

-- The child goes off the list of children, and its memory back to the slab. The assertions on its
-- threads and its page directory are left out. Its id is read before its memory is given back; the
-- source reads it after that.
pub reap : ℕ → Table → Waited × Table
reap c t = (
  reaped (t.procs c).p_pid (t.procs c).p_status,
  record t {
    procs = set_children t.curproc (erase c (t.procs t.curproc).p_children) t.procs;
    slab = c ∷ t.slab;
  },
)

-- One turn of the loop for any child, and of the loop for one; each starts again when woken.
pub wait_any : Table → Waited × Table
wait_any t = elim (find_dead t.procs (t.procs t.curproc).p_children) [
  | none ↦ (blocked, t)
  | some c ↦ reap c t
]

pub wait_for : ℕ → Table → Waited × Table
wait_for c t = if (t.procs c).p_state == proc_dead then reap c t else (blocked, t)

-- do_waitpid up to its first sleep. The id is the word of an int, so -1 is 2 ^ 32 - 1.
pub do_waitpid : ℕ → ℕ → Table → Outcome (Waited × Table)
do_waitpid pid options t =
    if (pid == no_pid || ltb 0 pid && ltb pid 2147483648) && options == 0
    then (if is_nil (t.procs t.curproc).p_children
        then ok (no_child, t)
        else if pid == no_pid
        then ok (wait_any t)
        else elim (find_child t.procs pid (t.procs t.curproc).p_children) [
          | none ↦ ok (no_child, t)
          | some c ↦ ok (wait_for c t)
        ])
    else panic
