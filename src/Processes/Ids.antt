-- ===== src/Processes/Ids.antt =====
-- _proc_getid of proc/proc.c finds an id that is not used, or there is none.
use usc_projects.Prelude.{
  ℕ, zero, suc, ◌+◌, ◌-◌, ◌%◌, ◌<◌, ◌≡◌, ◌⊎◌, refl, sym, subst, Bool, true, false, ◌==◌, arith,
  Bool-cases, inl, inr, ==_iff,
}
use usc_projects.Kernel.{Returns, returns}
use usc_projects.Processes.{Table, no_pid, is_used, getid_loop, proc_getid}

-- Every id is used, or the one found is not, and the search goes on behind it.
abbrev pub Found : Table → ℕ × Table → Type 0
Found t (pid, t1) =
    ((pid ≡ no_pid) × (t1 ≡ t) × ((d : ℕ) → is_used t.procs (d % 65536) t.proc_list ≡ true))
    ⊎ ((pid < 65536)
        × (is_used t.procs pid t.proc_list ≡ false)
        × (t1 ≡ record t { next_pid = (pid + 1) % 65536 }))

module _ (t : Table) (valid : t.next_pid < 65536) where
  abbrev used : ℕ → Bool
  used pid = is_used t.procs pid t.proc_list

  -- All the ids from next_pid up to `d` ids behind it are used.
  abbrev UsedSoFar : ℕ → Type 0
  UsedSoFar d = (k : ℕ) → k < d → used ((t.next_pid + k) % 65536) ≡ true

  one_more : (d : ℕ) → UsedSoFar d → used ((t.next_pid + d) % 65536) ≡ true → UsedSoFar (suc d)
  one_more d so_far this k below = elim (Bool-cases (k == d)) [
    | inl same ↦
        subst (λ n. used ((t.next_pid + n) % 65536) ≡ true) (sym ((==_iff k d).0 same)) this
    | inr other ↦ so_far k (ground arith)
  ]

  all_used : UsedSoFar 65536 → (d : ℕ) → used (d % 65536) ≡ true
  all_used so_far d =
      let k = (d % 65536 + 65536 - t.next_pid) % 65536 in
      let is : (t.next_pid + k) % 65536 ≡ d % 65536 = omega arith in
      subst (λ n. used n ≡ true) is (so_far k (omega arith))

  getid_loop-Found :
      (fuel d : ℕ)
      → fuel + d ≡ 65536
      → 0 < fuel
      → UsedSoFar d
      → Returns (Found t) (getid_loop fuel ((t.next_pid + d) % 65536) t)
  unfolding getid_loop
  getid_loop-Found zero d sum some_left so_far = absurd (omega arith)
  getid_loop-Found (suc fuel) d sum some_left so_far =
      let pid = (t.next_pid + d) % 65536 in
      elim (Bool-cases (used pid)) [
        | inr free ↦ rw (free, getid_loop) (returns (inr (omega arith, free, refl)))
        | inl taken ↦
            let more = one_more d so_far taken in
            let next : (pid + 1) % 65536 ≡ (t.next_pid + suc d) % 65536 = omega arith in
            elim (Bool-cases ((pid + 1) % 65536 == t.next_pid)) [
              | inl round ↦
                  let last : suc d ≡ 65536 = ground arith in
                  rw (taken, round, getid_loop)
                    (returns (inl (refl, refl, all_used (subst UsedSoFar last more))))
              | inr further ↦
                  rw (taken, further, getid_loop)
                    (subst (λ n. Returns (Found t) (getid_loop fuel n t)) (sym next)
                      (getid_loop-Found fuel (suc d) (omega arith) (ground arith) more))
            ]
      ]

  pub proc_getid-Found : Returns (Found t) (proc_getid t)
  unfolding proc_getid
  proc_getid-Found =
      let first : (t.next_pid + 0) % 65536 ≡ t.next_pid = omega arith in
      subst (λ n. Returns (Found t) (getid_loop 65536 n t)) first
        (getid_loop-Found 65536 0 refl (omega arith) (λ k below. absurd (omega arith)))
