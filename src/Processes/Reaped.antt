-- ===== src/Processes/Reaped.antt =====
-- The exit status of a process of proc/proc.c gets to its parent.
use usc_projects.Prelude.{
  ℕ, ◌<◌, ◌≡◌, ◌≢◌, refl, sym, ap, subst, ◌∙◌, true, false, ◌&&◌, some, List, [], ◌∷◌, ◌++◌, ltb,
  ◌==◌, if◌then◌else◌, arith, Bool-cases, inl, inr, ==_iff, All, count, erase, update,
}
use mathlib.Core.List.{append_assoc}
use usc_projects.Kernel.{ok, ◌>>=◌, Returns, returns}
use usc_projects.Processes.{
  Process, Table, proc_dead, no_pid, is_nil, reparent, exit_to, cleanup_with, proc_cleanup, Waited,
  reaped, find_child, reap, wait_for, do_waitpid,
}
use usc_projects.Processes.Exit.{
  reparent-rest, reparent-children, reparent-parent, find_child-front, erase-front,
}

-- A parent that waits for a child that is dead reaps it.
waitpid-dead :
    (u : Table) (pid c : ℕ)
    → (0 < pid) × (pid < 2147483648)
    → is_nil (u.procs u.curproc).p_children ≡ false
    → find_child u.procs pid (u.procs u.curproc).p_children ≡ some c
    → (u.procs c).p_state ≡ proc_dead
    → do_waitpid pid 0 u ≡ ok (reap c u)
unfolding do_waitpid wait_for
waitpid-dead u pid c valid children found dead =
    let positive : (ltb 0 pid && ltb pid 2147483648) ≡ true = ground arith in
    let one : (pid == no_pid) ≡ false = ground arith in
    let is_dead : ((u.procs c).p_state == proc_dead) ≡ true = (==_iff _ _).1 dead in
    rw (one, positive, children, found, is_dead)

reap-children :
    (u : Table) (c : ℕ)
    → ((reap c u).1.procs u.curproc).p_children ≡ erase c (u.procs u.curproc).p_children
unfolding reap
reap-children u c = let here : (u.curproc == u.curproc) ≡ true = (==_iff _ _).1 refl in rw here

reap-parent : (u : Table) (c q : ℕ) → ((reap c u).1.procs q).p_pproc ≡ (u.procs q).p_pproc
unfolding reap
reap-parent u c q = elim (Bool-cases (u.curproc == q)) [
  | inl is ↦ rw is (ap (λ r. (u.procs r).p_pproc) ((==_iff u.curproc q).0 is))
  | inr is ↦ rw is
]

module _ (t : Table) (status p init : ℕ) (front back : List ℕ) where
  abbrev self : ℕ
  self = t.curproc

  abbrev pid : ℕ
  pid = (t.procs self).p_pid

  abbrev orphans : List ℕ
  orphans = (t.procs self).p_children

  -- The children of the parent behind the process that exits, and those of init.
  abbrev pub behind : List ℕ
  behind = if p == init then back ++ orphans else back

  abbrev left : ℕ → Process
  left = reparent init orphans t.procs

  abbrev cleaned : Table
  cleaned = record t {
    procs = update left self (record (left self) { p_state = proc_dead; p_status = status });
    proc_list = erase self t.proc_list;
  }

  module _ (has_init : t.initproc ≡ some init) (has_parent : (t.procs self).p_pproc ≡ some p)
      (valid : (0 < pid) × (pid < 2147483648)) (running : (t.procs self).p_state ≢ proc_dead)
      (not_init : self ≢ init) where
    cleanup_run : proc_cleanup status t ≡ ok cleaned
    unfolding proc_cleanup cleanup_with exit_to
    cleanup_run =
        let positive : (ltb 0 pid && ltb pid 2147483648) ≡ true = ground arith in
        let alive : ((t.procs self).p_state == proc_dead) ≡ false = ground arith in
        let other : (self == init) ≡ false = ground arith in
        ap (λ o. cleanup_with status t o (t.procs self).p_pproc) has_init
        ∙ ap (cleanup_with status t (some init)) has_parent
        ∙ rw (positive, alive, other)

  cleaned-pid : (q : ℕ) → (cleaned.procs q).p_pid ≡ (t.procs q).p_pid
  cleaned-pid q =
      let (same, _, _) = reparent-rest init orphans t.procs q in
      let (own, _, _) = reparent-rest init orphans t.procs self in
      elim (Bool-cases (self == q)) [
        | inl is ↦
            rw is (subst (λ r. (left self).p_pid ≡ (t.procs r).p_pid) ((==_iff self q).0 is) own)
        | inr is ↦ rw is same
      ]

  module _ (children : (t.procs p).p_children ≡ front ++ self ∷ back) (apart : p ≢ self) where
    cleaned-children : (cleaned.procs p).p_children ≡ front ++ self ∷ behind
    cleaned-children =
        let other : (self == p) ≡ false = ground arith in
        rw other (
          reparent-children init orphans t.procs p ∙ elim (Bool-cases (p == init)) [
            | inl is ↦
                rw is (ap (λ l. l ++ orphans) children ∙ append_assoc front (self ∷ back) orphans)
            | inr is ↦ rw is children
          ])

  module _ (children : (t.procs p).p_children ≡ front ++ self ∷ back) (apart : p ≢ self)
      (own_pid : All (λ q. (t.procs q).p_pid ≢ pid) front)
      (valid : (0 < pid) × (pid < 2147483648)) where
    abbrev woken : Table
    woken = record cleaned { curproc = p }

    not_nil : (l : List ℕ) → is_nil (l ++ self ∷ behind) ≡ false
    not_nil [] = refl
    not_nil (q ∷ l) = refl

    own_pid-cleaned :
        (l : List ℕ)
        → All (λ q. (t.procs q).p_pid ≢ pid) l
        → All (λ q. (cleaned.procs q).p_pid ≢ pid) l
    own_pid-cleaned [] all = all
    own_pid-cleaned (q ∷ l) (this, all) =
        ((λ eq. this (sym (cleaned-pid q) ∙ eq)), own_pid-cleaned l all)

    not_front : (l : List ℕ) → All (λ q. (t.procs q).p_pid ≢ pid) l → count self l ≡ 0
    not_front [] all = refl
    not_front (q ∷ l) (this, all) = elim (Bool-cases (q == self)) [
      | inl is ↦ absurd (this (ap (λ r. (t.procs r).p_pid) ((==_iff q self).0 is)))
      | inr is ↦ ground (arith, not_front l all)
    ]

    found : find_child cleaned.procs pid (cleaned.procs p).p_children ≡ some self
    found =
        ap (find_child cleaned.procs pid) (cleaned-children children apart)
        ∙ find_child-front cleaned.procs pid self front behind (own_pid-cleaned front own_pid)
            (cleaned-pid self)

    dead : (cleaned.procs self).p_state ≡ proc_dead
    dead = let here : (self == self) ≡ true = (==_iff self self).1 refl in rw here

    waited_run : do_waitpid pid 0 woken ≡ ok (reap self woken)
    waited_run =
        waitpid-dead woken pid self valid
          (ap is_nil (cleaned-children children apart) ∙ not_nil front) found dead

    after : Table
    after = (reap self woken).1

    after-children : (after.procs p).p_children ≡ front ++ behind
    unfolding after
    after-children =
        reap-children woken self
        ∙ ap (erase self) (cleaned-children children apart)
        ∙ erase-front self front behind (not_front front own_pid)

    after-parent :
        (q : ℕ)
        → q ≢ self
        → (after.procs q).p_pproc
          ≡ (if count q orphans == 0 then (t.procs q).p_pproc else some init)
    unfolding after
    after-parent q other =
        let there : (self == q) ≡ false = ground arith in
        reap-parent woken self q ∙ rw there (reparent-parent init orphans t.procs q)

    after-result : (reap self woken).0 ≡ reaped pid status
    unfolding reap
    after-result =
        let is : (cleaned.procs self).p_status ≡ status =
          let here : (self == self) ≡ true = (==_iff self self).1 refl in rw here in
        λ i. reaped (cleaned-pid self i) (is i)

-- What a parent that waits for a child that has just exited is left with.
abbrev pub Reaped : Table → ℕ → ℕ → ℕ → List ℕ → List ℕ → Waited × Table → Type 0
Reaped t status p init front back (w, t1) =
    let self = t.curproc in
    let orphans = (t.procs self).p_children in
    (w ≡ reaped (t.procs self).p_pid status)
    × ((t1.procs p).p_children ≡ front ++ (if p == init then back ++ orphans else back))
    × ((q : ℕ)
        → q ≢ self
        → (t1.procs q).p_pproc ≡ (if count q orphans == 0 then (t.procs q).p_pproc else some init))
    × (t1.proc_list ≡ erase self t.proc_list)
    × (t1.slab ≡ self ∷ t.slab)

-- When a process other than the init process calls proc_cleanup with an exit status, and its
-- parent, which has no earlier child with the same id, then calls do_waitpid with the id:
-- do_waitpid returns at once, with the id and exactly this status; the child, and only it, is off
-- the parent's children; each child that it had is a child of the init process, and no other
-- process has a new parent; it is off the list of all processes, and its memory is free again.
pub cleanup-waitpid-Reaped :
    (t : Table) (status p init : ℕ) (front back : List ℕ)
    → t.initproc ≡ some init
    → (t.procs t.curproc).p_pproc ≡ some p
    → (t.procs p).p_children ≡ front ++ t.curproc ∷ back
    → All (λ q. (t.procs q).p_pid ≢ (t.procs t.curproc).p_pid) front
    → 0 < (t.procs t.curproc).p_pid
    → (t.procs t.curproc).p_pid < 2147483648
    → (t.procs t.curproc).p_state ≢ proc_dead
    → t.curproc ≢ init
    → p ≢ t.curproc
    → Returns (Reaped t status p init front back) (
        proc_cleanup status t >>= λ t1.
        do_waitpid (t.procs t.curproc).p_pid 0 (record t1 { curproc = p }))
unfolding after reap
cleanup-waitpid-Reaped t status p init front back has_init has_parent children own_pid positive
      small running not_init apart =
    let valid : (0 < (t.procs t.curproc).p_pid) × ((t.procs t.curproc).p_pid < 2147483648) =
      (positive, small) in
    let exit = cleanup_run t status p init front back has_init has_parent valid running not_init in
    let wait = waited_run t status p init front back children apart own_pid valid in
    subst (Returns (Reaped t status p init front back))
      (sym (
        ap (λ o. o >>= λ t1. do_waitpid (t.procs t.curproc).p_pid 0 (record t1 { curproc = p }))
          exit
        ∙ wait))
      (returns (
        after-result t status p init front back children apart own_pid valid,
        after-children t status p init front back children apart own_pid valid,
        after-parent t status p init front back children apart own_pid valid,
        refl,
        refl,
      ))
