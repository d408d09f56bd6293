-- ===== src/Vm/Pagefault.antt =====
-- handle_pagefault of vm/kernel/vm/pagefault.c.
pub mod Handled
mod Tests
use usc_projects.Prelude.{
  ℕ, ◌-◌, ◌/◌, ◌%◌, Bool, true, false, ◌||◌, Option, none, some, ◌==◌, if◌then◌else◌,
}
use usc_projects.Kernel.{Outcome, ok, panic}
use usc_projects.Vm.Area.{Vmarea, addr_to_pn, page_size}
use usc_projects.Vm.Vmmap.{Vmmap, vmmap_lookup}

-- The bit `b`, a power of 2, is set.
abbrev pub has : ℕ → ℕ → Bool
has flags b = flags / b % 2 == 1

abbrev pub fault_present : ℕ
fault_present = 1

abbrev pub fault_write : ℕ
fault_write = 2

abbrev pub fault_reserved : ℕ
fault_reserved = 8

abbrev pub fault_exec : ℕ
fault_exec = 16

-- The process is killed, or pt_map is called: with the address of the page, the physical address
-- and the flags for both levels of the table.
pub data Fault : Type 0 where
  killed : Fault
  pt_mapped : ℕ → ℕ → ℕ → Fault

-- The tests of the protection. `!prot & PROT_NONE` is always 0, so FAULT_RESERVED is let through.
abbrev pub is_permitted : ℕ → ℕ → Bool
is_permitted cause prot =
    if has cause fault_reserved
    then true
    else if has cause fault_exec
    then has prot 4
    else if has cause fault_write
    then has prot 2
    else if has cause fault_present
    then has prot 1
    else true

abbrev pub align_down : ℕ → ℕ
align_down a = a - a % page_size

-- The address of the frame that pframe_get finds for the object and the page, `none` when it
-- fails; its result is not looked at, and a NULL object or frame is followed.
abbrev pub find_frame : (ℕ → ℕ → Option ℕ) → ℕ → Vmarea → Option ℕ
find_frame pframe_get vaddr a =
    if has a.vma_flags 2 || has a.vma_flags 1
    then elim a.vma_obj [ none ↦ none | some obj ↦ pframe_get obj (addr_to_pn vaddr % page_size) ]
    else none

abbrev pub map_frame : (ℕ → ℕ) → ℕ → Option ℕ → Outcome Fault
map_frame virt_to_phys vaddr none = panic
map_frame virt_to_phys vaddr (some frame) =
    ok (pt_mapped (align_down vaddr) (align_down (virt_to_phys frame)) 7)

pub handle_area : (ℕ → ℕ → Option ℕ) → (ℕ → ℕ) → ℕ → ℕ → Option Vmarea → Outcome Fault
handle_area pframe_get virt_to_phys vaddr cause none = ok killed
handle_area pframe_get virt_to_phys vaddr cause (some a) =
    if is_permitted cause a.vma_prot
    then map_frame virt_to_phys vaddr (find_frame pframe_get vaddr a)
    else ok killed

pub handle_pagefault : (ℕ → ℕ → Option ℕ) → (ℕ → ℕ) → Vmmap → ℕ → ℕ → Outcome Fault
unfolding handle_area
handle_pagefault pframe_get virt_to_phys map vaddr cause =
    handle_area pframe_get virt_to_phys vaddr cause (vmmap_lookup map (addr_to_pn vaddr))
