-- ===== src/Processes/Tests.antt =====
-- Runs of proc/proc.c on a small process table, and the theorems at them.
use usc_projects.Prelude.{
  ℕ, ◌≡◌, refl, Option, none, some, List, [], ◌∷◌, ◌==◌, if◌then◌else◌, arith,
}
use usc_projects.Kernel.{Outcome, ok, panic, out_of_fuel, ◌>>=◌, Returns}
use usc_projects.Processes.{
  Process, Table, new_process, is_used, getid_loop, proc_getid, allocate, insert_process,
  find_child, find_dead, wait_any, proc_create, proc_cleanup, do_waitpid, Waited, blocked, no_child,
}
use usc_projects.Processes.Create.{Created, proc_create-Created}
use usc_projects.Processes.Reaped.{Reaped, cleanup-waitpid-Reaped}

-- The idle process, at 10, has the child 11, the init process, which has 12, which has 13. The
-- id 65535 comes next.
abbrev process_of : ℕ → List ℕ → Option ℕ → Process
process_of pid children parent = record (new_process pid parent) { p_children = children }

abbrev family : ℕ → Process
family p =
    if p == 10
    then process_of 0 (11 ∷ []) none
    else if p == 11
    then process_of 1 (12 ∷ []) (some 10)
    else if p == 12
    then process_of 2 (13 ∷ []) (some 11)
    else process_of 65535 [] (some 12)

abbrev table : Table
table = record {
  procs = family;
  proc_list = 10 ∷ 11 ∷ 12 ∷ 13 ∷ [];
  next_pid = 65535;
  curproc = 12;
  initproc = some 11;
  slab = 14 ∷ 15 ∷ [];
}

abbrev new_ids : Outcome (ℕ × Table) → List ℕ
new_ids (ok (p, t)) = (t.procs p).p_pid ∷ t.next_pid ∷ t.proc_list
new_ids panic = []
new_ids out_of_fuel = []

-- The search starts at an id that is used, and goes on at 0, 1 and 2.
create_wraps : new_ids (proc_create table) ≡ 3 ∷ 4 ∷ 10 ∷ 11 ∷ 12 ∷ 13 ∷ 14 ∷ []
unfolding proc_create proc_getid getid_loop is_used allocate insert_process
create_wraps = refl

abbrev waited : Outcome (Waited × Table) → Option Waited
waited (ok (w, t)) = some w
waited panic = none
waited out_of_fuel = none

wait_running : waited (do_waitpid 4294967295 0 table) ≡ some blocked
unfolding do_waitpid find_child wait_any find_dead
wait_running = refl

wait_other : waited (do_waitpid 1 0 table) ≡ some no_child
unfolding do_waitpid find_child wait_any find_dead
wait_other = refl

wait_option : waited (do_waitpid 2 1 table) ≡ none
unfolding do_waitpid find_child wait_any find_dead
wait_option = refl

proc_create-Created_example : Returns (Created table) (proc_create table)
unfolding is_used
proc_create-Created_example =
    proc_create-Created table 14 3 (15 ∷ []) (λ pid. ground arith) (omega arith) refl refl
      (omega arith) refl refl refl

cleanup-waitpid-Reaped_example :
    Returns
      (Reaped table 7 11 11 [] [])
      (proc_cleanup 7 table >>= λ t1. do_waitpid 2 0 (record t1 { curproc = 11 }))
cleanup-waitpid-Reaped_example =
    cleanup-waitpid-Reaped table 7 11 11 [] [] refl refl refl tt (omega arith) (omega arith)
      (omega arith) (omega arith) (omega arith)
