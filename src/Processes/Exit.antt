-- ===== src/Processes/Exit.antt =====
-- proc_cleanup and do_waitpid of proc/proc.c: a process that exits is reaped by its parent, and its
-- children go to the init process.
use usc_projects.Prelude.{
  ℕ, ◌≡◌, ◌≢◌, refl, sym, ap, subst, ◌∙◌, true, false, some, List, [], ◌∷◌, ◌++◌, ◌==◌,
  if◌then◌else◌, arith, Bool-cases, inl, inr, ==_iff, All, count, erase, update,
}
use mathlib.Core.List.{append_assoc, append-nil}
use usc_projects.Processes.{Process, set_children, reparent, find_child}

-- One child goes to `init`.
abbrev adopt : ℕ → ℕ → (ℕ → Process) → ℕ → Process
adopt init c procs =
    let adopted = update procs c (record (procs c) { p_pproc = some init }) in
    set_children init ((adopted init).p_children ++ c ∷ []) adopted

adopt-init :
    (init c : ℕ) (procs : ℕ → Process)
    → (adopt init c procs init).p_children ≡ (procs init).p_children ++ c ∷ []
adopt-init init c procs =
    let same : (adopt init c procs init).p_children
        ≡ (update procs c (record (procs c) { p_pproc = some init }) init).p_children ++ c ∷ [] =
      ground arith in
    same ∙ ap (λ l. l ++ c ∷ []) (ground arith)

adopt-other :
    (init c q : ℕ) (procs : ℕ → Process)
    → q ≢ init
    → (adopt init c procs q).p_children ≡ (procs q).p_children
adopt-other init c q procs other = ground arith

module _ (init : ℕ) where
  -- Nothing but the parent and the children changes.
  pub reparent-rest :
      (cs : List ℕ) (procs : ℕ → Process) (q : ℕ)
      → ((reparent init cs procs q).p_pid ≡ (procs q).p_pid)
        × ((reparent init cs procs q).p_state ≡ (procs q).p_state)
        × ((reparent init cs procs q).p_status ≡ (procs q).p_status)
  unfolding reparent
  reparent-rest [] procs q = (refl, refl, refl)
  reparent-rest (c ∷ cs) procs q =
      let next = adopt init c procs in
      let (pid, state, status) = reparent-rest cs next q in
      (pid ∙ ground arith, state ∙ ground arith, status ∙ ground arith)

  pub reparent-children :
      (cs : List ℕ) (procs : ℕ → Process) (q : ℕ)
      → (reparent init cs procs q).p_children
        ≡ (if q == init then (procs q).p_children ++ cs else (procs q).p_children)
  unfolding reparent
  reparent-children [] procs q = elim (Bool-cases (q == init)) [
    | inl same ↦ rw same (sym (append-nil (procs q).p_children))
    | inr other ↦ rw other
  ]
  reparent-children (c ∷ cs) procs q = elim (Bool-cases (q == init)) [
    | inl same ↦
        let is = (==_iff q init).0 same in
        let one : (adopt init c procs q).p_children ≡ (procs q).p_children ++ c ∷ [] =
          subst (λ r. (adopt init c procs r).p_children ≡ (procs r).p_children ++ c ∷ []) (sym is)
            (adopt-init init c procs) in
        rw same (
          reparent-children cs (adopt init c procs) q
          ∙ rw same (ap (λ l. l ++ cs) one ∙ append_assoc (procs q).p_children (c ∷ []) cs))
    | inr other ↦ rw other (
        reparent-children cs (adopt init c procs) q
        ∙ rw other (adopt-other init c q procs (ground arith)))
  ]

  pub reparent-parent :
      (cs : List ℕ) (procs : ℕ → Process) (q : ℕ)
      → (reparent init cs procs q).p_pproc
        ≡ (if count q cs == 0 then (procs q).p_pproc else some init)
  unfolding reparent
  reparent-parent [] procs q = refl
  reparent-parent (c ∷ cs) procs q =
      let next = adopt init c procs in reparent-parent cs next q ∙ ground arith

pub find_child-front :
    (procs : ℕ → Process) (pid c : ℕ) (front back : List ℕ)
    → All (λ q. (procs q).p_pid ≢ pid) front
    → (procs c).p_pid ≡ pid
    → find_child procs pid (front ++ c ∷ back) ≡ some c
unfolding find_child
find_child-front procs pid c [] back others is =
    let here : ((procs c).p_pid == pid) ≡ true = (==_iff _ _).1 is in rw here
find_child-front procs pid c (q ∷ front) back others is =
    let other : ((procs q).p_pid == pid) ≡ false = ground arith in
    rw other (find_child-front procs pid c front back others.1 is)

pub erase-front :
    (c : ℕ) (front back : List ℕ) → count c front ≡ 0 → erase c (front ++ c ∷ back) ≡ front ++ back
erase-front c [] back gone = ground arith
erase-front c (q ∷ front) back gone =
    let other : (q == c) ≡ false = ground arith in
    rw other (ap (λ l. q ∷ l) (erase-front c front back (ground arith)))
