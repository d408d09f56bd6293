-- ===== src/Vm/Access.antt =====
-- addr_perm and range_perm of vm/kernel/api/access.c.
pub mod Refused
mod Tests
use usc_projects.Prelude.{
  ℕ, zero, suc, ◌/◌, ◌%◌, Bool, true, false, ◌&&◌, none, some, ltb, ◌==◌, if◌then◌else◌,
}
use usc_projects.Kernel.{Outcome, ok, out_of_fuel}
use usc_projects.Vm.Area.{Vmarea, addr_to_pn, add32}
use usc_projects.Vm.Vmmap.{Vmmap, vmmap_lookup}

-- PROT_READ, PROT_WRITE and PROT_EXEC are the three low bits; both must have the same of them.
abbrev pub same_prot : ℕ → ℕ → Bool
same_prot prot perm =
    prot % 2 == perm % 2 && prot / 2 % 2 == perm / 2 % 2 && prot / 4 % 2 == perm / 4 % 2

pub addr_perm : Vmmap → ℕ → ℕ → Bool
addr_perm map vaddr perm = elim (vmmap_lookup map (addr_to_pn vaddr)) [
  | none ↦ false
  | some a ↦ same_prot a.vma_prot perm
]

-- The loop of range_perm. Nothing changes `i`, which stays 0.
pub range_loop : ℕ → Vmmap → ℕ → ℕ → ℕ → Outcome Bool
range_loop zero map len perm vaddr = out_of_fuel
range_loop (suc fuel) map len perm vaddr =
    if ltb 0 len
    then elim (addr_perm map vaddr perm) [
      | true ↦ range_loop fuel map len perm (add32 vaddr 1)
      | false ↦ ok false
    ]
    else ok true

pub range_perm : Vmmap → ℕ → ℕ → ℕ → Outcome Bool
range_perm map vaddr len perm = range_loop 4294967296 map len perm vaddr
