-- ===== src/Processes/Create.antt =====
-- proc_create of proc/proc.c adds a process with an id that no other process of _proc_list has.
use usc_projects.Prelude.{
  ℕ, ◌+◌, ◌%◌, ◌≤◌, ◌<◌, ◌≡◌, ◌≢◌, refl, sym, ap, subst, ◌∙◌, true, false, some, List, [], ◌∷◌,
  ◌++◌, ◌==◌, arith, Bool-cases, inl, inr, ==_iff, count, count-append,
}
use mathlib.Core.List.{map, map-append}
use usc_projects.Kernel.{Returns, returns, Returns-bind}
use usc_projects.Processes.{
  Process, Table, is_used, insert_process, allocate, proc_create, lookup_in, proc_lookup,
}
use usc_projects.Processes.Ids.{proc_getid-Found}

abbrev pub ids : (ℕ → Process) → List ℕ → List ℕ
ids procs = map (λ p. (procs p).p_pid)

-- No two processes of the list have the same id, and no address stands there twice.
abbrev pub UniqueIds : Table → Type 0
UniqueIds t = (pid : ℕ) → count pid (ids t.procs t.proc_list) ≤ 1

is_used-count :
    (procs : ℕ → Process) (pid : ℕ) (ps : List ℕ)
    → is_used procs pid ps ≡ false
    → count pid (ids procs ps) ≡ 0
unfolding is_used
is_used-count procs pid [] unused = refl
is_used-count procs pid (p ∷ ps) unused = ground (arith, is_used-count procs pid ps)

module _ (pid p : ℕ) (t : Table) where
  -- Inserting a process changes no other id.
  insert-pid : (q : ℕ) → q ≢ p → ((insert_process pid p t).procs q).p_pid ≡ (t.procs q).p_pid
  unfolding insert_process
  insert-pid q other = elim (Bool-cases (pid == 0)) [
    | inl idle ↦ rw idle (ground arith)
    | inr more ↦ rw more (ground arith)
  ]

  insert-new : ((insert_process pid p t).procs p).p_pid ≡ pid
  unfolding insert_process
  insert-new = elim (Bool-cases (pid == 0)) [
    | inl idle ↦ rw idle (ground arith)
    | inr more ↦ rw more (ground arith)
  ]

  insert-list : (insert_process pid p t).proc_list ≡ t.proc_list ++ p ∷ []
  unfolding insert_process
  insert-list = elim (Bool-cases (pid == 0)) [ inl idle ↦ rw idle | inr more ↦ rw more ]

  insert-next : (insert_process pid p t).next_pid ≡ t.next_pid
  unfolding insert_process
  insert-next = elim (Bool-cases (pid == 0)) [ inl idle ↦ rw idle | inr more ↦ rw more ]

  insert-child :
      pid ≢ 0
      → p ≢ t.curproc
      → (((insert_process pid p t).procs p).p_pproc ≡ some t.curproc)
        × (((insert_process pid p t).procs t.curproc).p_children
            ≡ (t.procs t.curproc).p_children ++ p ∷ [])
  unfolding insert_process
  insert-child child apart =
      let more : (pid == 0) ≡ false = ground arith in rw more (ground arith, ground arith)

  ids-insert :
      (ps : List ℕ) → count p ps ≡ 0 → ids (insert_process pid p t).procs ps ≡ ids t.procs ps
  ids-insert [] gone = refl
  ids-insert (q ∷ ps) gone = λ i. insert-pid q (ground arith) i ∷ ids-insert ps (ground arith) i

  lookup-insert :
      (ps : List ℕ)
      → count p ps ≡ 0
      → count pid (ids t.procs ps) ≡ 0
      → lookup_in (insert_process pid p t).procs pid (ps ++ p ∷ []) ≡ some p
  unfolding lookup_in
  lookup-insert [] gone unused =
      let here : (((insert_process pid p t).procs p).p_pid == pid) ≡ true =
        (==_iff _ _).1 insert-new in
      rw here
  lookup-insert (q ∷ ps) gone unused =
      let other : (((insert_process pid p t).procs q).p_pid == pid) ≡ false =
        ground (arith, insert-pid q) in
      rw other (lookup-insert ps (ground arith) (ground arith))

-- What proc_create has done: the new process `p` is the last of `_proc_list`, has an id that no
-- other process of the list has, is a child of curproc, and is found by its id.
abbrev pub Created : Table → ℕ × Table → Type 0
Created t (p, t1) =
    (t1.proc_list ≡ t.proc_list ++ p ∷ [])
    × UniqueIds t1
    × ((t1.procs p).p_pproc ≡ some t.curproc)
    × ((t1.procs t.curproc).p_children ≡ (t.procs t.curproc).p_children ++ p ∷ [])
    × ((t1.procs p).p_pid < 65536)
    × (t1.next_pid < 65536)
    × (proc_lookup t1 (t1.procs p).p_pid ≡ some p)

insert-Created :
    (pid p : ℕ) (t : Table)
    → UniqueIds t
    → pid < 65536
    → pid ≢ 0
    → p ≢ t.curproc
    → count p t.proc_list ≡ 0
    → is_used t.procs pid t.proc_list ≡ false
    → t.next_pid < 65536
    → Created t (p, insert_process pid p t)
unfolding proc_lookup
insert-Created pid p t unique fits child apart gone unused valid =
    let t1 = insert_process pid p t in
    let fresh = is_used-count t.procs pid t.proc_list unused in
    let (parent, children) = insert-child pid p t child apart in
    let all : ids t1.procs t1.proc_list ≡ ids t.procs t.proc_list ++ pid ∷ [] =
      ap (ids t1.procs) (insert-list pid p t)
      ∙ map-append (λ q. (t1.procs q).p_pid) t.proc_list (p ∷ [])
      ∙ λ i. ids-insert pid p t t.proc_list gone i ++ insert-new pid p t i ∷ [] in
    (
      insert-list pid p t,
      λ q. ground (
        arith,
        unique q,
        fresh,
        ap (count q) all,
        count-append q (ids t.procs t.proc_list) (pid ∷ []),
      ),
      parent,
      children,
      omega (arith, insert-new pid p t),
      omega (arith, insert-next pid p t),
      ap (λ n. proc_lookup t1 n) (insert-new pid p t)
          ∙ ap (lookup_in t1.procs pid) (insert-list pid p t)
          ∙ lookup-insert pid p t t.proc_list gone fresh,
    )

-- proc_create, once processes with the ids 0 and 1 are on _proc_list, no two processes of that
-- list have the same id, next_pid is below 65536, and the slab allocator gives memory of no
-- process of the list and not that of curproc: if some id is used by no process of the list, the
-- new process gets an id below 65536 that no other process of the list has, stands last on the
-- list and on the children of curproc, has curproc as its parent, and is what proc_lookup finds
-- for its id. No assertion fails, and the search for the id ends. Nothing is said of processes
-- that have exited: they are off the list, and one that its parent has not waited for may have the
-- same id.
pub proc_create-Created :
    (t : Table) (p free : ℕ) (rest : List ℕ)
    → UniqueIds t
    → t.next_pid < 65536
    → t.slab ≡ p ∷ rest
    → count p t.proc_list ≡ 0
    → p ≢ t.curproc
    → is_used t.procs 0 t.proc_list ≡ true
    → is_used t.procs 1 t.proc_list ≡ true
    → is_used t.procs (free % 65536) t.proc_list ≡ false
    → Returns (Created t) (proc_create t)
unfolding proc_create allocate
proc_create-Created t p free rest unique valid slab gone apart idle init some_free =
    Returns-bind (proc_getid-Found t valid) λ (pid, t1) found. elim found [
      | inl (none_left, same, all) ↦ cc (some_free, all free)
      | inr (fits, unused, is) ↦
          let child : pid ≢ 0 =
            λ eq. cc (unused, ap (λ n. is_used t.procs n t.proc_list) eq, idle) in
          let other : pid ≢ 1 =
            λ eq. cc (unused, ap (λ n. is_used t.procs n t.proc_list) eq, init) in
          let not_idle : (pid == 0) ≡ false = ground arith in
          let not_init : (pid == 1) ≡ false = ground arith in
          rw (not_idle, not_init)
            (subst (λ (u : Table). Returns (Created t) (allocate pid u u.slab)) (sym is)
              (subst
                (λ l.
                  Returns (Created t) (allocate pid (record t { next_pid = (pid + 1) % 65536 }) l))
                (sym slab)
                (returns (
                  insert-Created pid p (record t { next_pid = (pid + 1) % 65536; slab = rest })
                    unique fits child apart gone unused (omega arith)))))
    ]
