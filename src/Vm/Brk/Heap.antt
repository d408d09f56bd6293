-- ===== src/Vm/Brk/Heap.antt =====
-- What do_brk of vm/kernel/vm/brk.c does to the heap of a process, and do_munmap of
-- mmap.c to its pages.
use usc_projects.Prelude.{
  ℕ, ◌+◌, ◌*◌, ◌/◌, ◌%◌, ◌≤◌, ◌<◌, ◌≡◌, ◌≢◌, refl, inl, inr, true, false, not, ◌||◌, ◌&&◌, some,
  arith, leb, ltb, ◌==◌, length, All, Bool-cases,
}
use usc_projects.Kernel.{done, fail, enomem, Returns, Returns-bind, returns}
use usc_projects.Vm.Area.{
  Vmarea, mapped, addr_to_pn, user_mem_high, page_high, page_size, add32, sub32,
}
use usc_projects.Vm.Vmmap.{vmmap_lookup}
use usc_projects.Vm.Vmmap.Ranges.{lookup-is_range_empty}
use usc_projects.Vm.Vmmap.Remove.Place.{IsRemovable}
use usc_projects.Vm.Vmmap.Remove.Step.{vmmap_remove-mapped}
use usc_projects.Vm.Brk.{Proc, do_brk, grow_brk, shrink_brk, do_munmap}

module _ (p : Proc) (a : Vmarea) (addr : ℕ) (brk_high : p.p_brk ≤ user_mem_high)
    (page : addr_to_pn addr ≤ addr_to_pn p.p_brk)
    (found : vmmap_lookup p.p_vmmap (addr_to_pn p.p_brk) ≡ some a) where
  shrink_brk-enomem : shrink_brk p addr ≡ (fail enomem, p)
  unfolding shrink_brk addr_to_pn
  shrink_brk-enomem = rw (
      lookup-is_range_empty p.p_vmmap (addr_to_pn p.p_brk) a (addr_to_pn addr)
        (add32 (sub32 (addr_to_pn p.p_brk) (addr_to_pn addr)) 1) found
        (inl (omega arith, omega arith)))

  grow_brk-enomem : p.p_brk < addr → grow_brk p addr ≡ (fail enomem, p)
  unfolding grow_brk addr_to_pn
  grow_brk-enomem up = rw (
      lookup-is_range_empty p.p_vmmap (addr_to_pn p.p_brk) a (add32 (addr_to_pn p.p_brk) 1)
        (add32 (sub32 (addr_to_pn addr) (add32 (addr_to_pn p.p_brk) 1)) 1) found
        (inr (omega arith, omega arith)))

-- The break never moves down, nor within its page: for an address from the start of the heap up to
-- the end of the page of the break, when the page of the break is mapped, do_brk returns ENOMEM and
-- leaves the process as it is.
pub do_brk-enomem :
    (p : Proc) (a : Vmarea) (addr : ℕ)
    → addr ≢ 0
    → p.p_start_brk ≤ addr
    → addr ≤ user_mem_high
    → p.p_brk ≤ user_mem_high
    → addr_to_pn addr ≤ addr_to_pn p.p_brk
    → vmmap_lookup p.p_vmmap (addr_to_pn p.p_brk) ≡ some a
    → do_brk p addr ≡ (fail enomem, p)
unfolding do_brk
do_brk-enomem p a addr ne start high brk_high page found =
    let given : (addr == 0) ≡ false = ground arith in
    let valid : (ltb addr p.p_start_brk || ltb user_mem_high addr) ≡ false = ground arith in
    elim (Bool-cases (ltb p.p_brk addr)) [
      | inl up ↦
          rw (given, valid, found, up) (grow_brk-enomem p a addr brk_high page found (ground arith))
      | inr down ↦ rw (given, valid, found, down) (shrink_brk-enomem p a addr brk_high page found)
    ]

-- Unmapping `len` bytes at a page's address in user memory returns 0 and unmaps one page more than
-- the whole pages of the length, also where the length is a number of whole pages; the other pages
-- stay as they were. The range must be one that vmmap_remove can cut out.
pub do_munmap-mapped :
    (p : Proc) (vfn len : ℕ)
    → vfn + len / page_size < page_high
    → All (IsRemovable vfn (vfn + (len / page_size + 1))) p.p_vmmap.vmm_list
    → 2 * length p.p_vmmap.vmm_list ≤ p.p_vmmap.free_areas
    → Returns
        (λ (code, q).
          (code ≡ done 0)
          × ((page : ℕ)
              → mapped q.p_vmmap.vmm_list page ≡ (
                  mapped p.p_vmmap.vmm_list page
                  && not (leb vfn page && ltb page (vfn + (len / page_size + 1))))))
        (do_munmap p (vfn * page_size) len)
unfolding do_munmap addr_to_pn
do_munmap-mapped p vfn len high sound space =
    let aligned : (vfn * page_size % page_size == 0) ≡ true = ground arith in
    let same : vfn * page_size / page_size ≡ vfn = omega arith in
    rw (aligned, same)
      (Returns-bind
        (vmmap_remove-mapped p.p_vmmap vfn (len / page_size + 1) (omega arith) (omega arith) sound
          space)
        (λ (code, m) (ended, spare, shows). returns (refl, shows)))
