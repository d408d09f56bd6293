-- ===== src/Vm/Brk.antt =====
-- The system calls brk and munmap: do_brk of vm/kernel/vm/brk.c and do_munmap of vm/kernel/vm/mmap.c.
pub mod Heap
mod Tests
use usc_projects.Prelude.{
  ℕ, ◌+◌, ◌/◌, ◌%◌, Bool, true, false, not, ◌||◌, Option, none, some, List, [], ◌∷◌, ltb, ◌==◌,
  if◌then◌else◌,
}
use usc_projects.Kernel.{Code, done, fail, eperm, enomem, einval, Outcome, ok, ◌>>=◌}
use usc_projects.Vm.Area.{Vmarea, covers, addr_to_pn, page_size, user_mem_high, add32, sub32}
use usc_projects.Vm.Vmmap.{Vmmap, vmmap_lookup, vmmap_is_range_empty}
use usc_projects.Vm.Vmmap.Remove.{vmmap_remove}

-- The fields of `proc_t` that the calls use. Addresses are numbers, and NULL is 0.
pub record Proc : Type 0 where
  pub p_start_brk : ℕ
  pub p_brk : ℕ
  pub p_vmmap : Vmmap

-- `vmarea->vma_end = end` on the area that vmmap_lookup found for the page.
pub set_end : List Vmarea → ℕ → ℕ → List Vmarea
set_end [] vfn end = []
set_end (a ∷ rest) vfn end =
    if covers a vfn then record a { vma_end = end } ∷ rest else a ∷ set_end rest vfn end

pub move_end : Proc → ℕ → Proc
move_end p end = record p {
  p_vmmap = record p.p_vmmap { vmm_list = set_end p.p_vmmap.vmm_list (addr_to_pn p.p_brk) end };
}

-- The two branches, for a break that grows and one that does not. PAGE_ALIGN_DOWN does not change
-- the page number. The new break is not stored.
grow_brk : Proc → ℕ → Code × Proc
grow_brk p addr =
    let addr_end = addr_to_pn addr in
    let addr_start = add32 (addr_to_pn p.p_brk) 1 in
    if vmmap_is_range_empty p.p_vmmap addr_start (add32 (sub32 addr_end addr_start) 1)
    then (done 0, move_end p addr_end)
    else (fail enomem, p)

shrink_brk : Proc → ℕ → Code × Proc
shrink_brk p addr =
    let addr_start = addr_to_pn addr in
    let addr_end = addr_to_pn p.p_brk in
    if vmmap_is_range_empty p.p_vmmap addr_start (add32 (sub32 addr_end addr_start) 1)
    then (done 0, move_end p addr_start)
    else (fail enomem, p)

-- do_brk. It only assigns to its own copy of `ret`, so nothing is returned through it.
pub do_brk : Proc → ℕ → Code × Proc
do_brk p addr =
    if addr == 0
    then (done 0, p)
    else if ltb addr p.p_start_brk || ltb user_mem_high addr
    then (fail enomem, p)
    else elim (vmmap_lookup p.p_vmmap (addr_to_pn p.p_brk)) [
      | none ↦ (fail eperm, p)
      | some _ ↦ if ltb p.p_brk addr then grow_brk p addr else shrink_brk p addr
    ]

-- do_munmap: the code of vmmap_remove is dropped.
pub do_munmap : Proc → ℕ → ℕ → Outcome (Code × Proc)
do_munmap p addr len =
    if not (addr % page_size == 0)
    then ok (fail einval, p)
    else vmmap_remove p.p_vmmap (addr_to_pn addr) (len / page_size + 1) >>= λ (code, m).
        ok (done 0, record p { p_vmmap = m })
