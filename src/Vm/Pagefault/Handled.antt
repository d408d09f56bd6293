-- ===== src/Vm/Pagefault/Handled.antt =====
-- What handle_pagefault of vm/kernel/vm/pagefault.c does with a page of an area that vmmap_insert
-- put in.
use usc_projects.Prelude.{
  refl, ℕ, ◌%◌, ◌≡◌, ◌≢◌, ap, ◌∙◌, Bool, true, false, ◌||◌, not, List, [], ◌∷◌, Option, none, some,
  if◌then◌else◌, All, arith, Bool-cases, inl, inr,
}
use usc_projects.Kernel.{ok, Returns, Returns-mono}
use usc_projects.Vm.Area.{Vmarea, addr_to_pn, page_size, covers, mapped}
use usc_projects.Vm.Vmmap.{Vmmap, vmmap_lookup, vmmap_insert, insertable, lookup_area}
use usc_projects.Vm.Vmmap.Insert.{Apart, lookup-insert}
use usc_projects.Vm.Pagefault.{
  has, fault_present, fault_write, fault_reserved, fault_exec, killed, pt_mapped, is_permitted,
  align_down, find_frame, map_frame, handle_area, handle_pagefault,
}

-- The protection that the access needs: PROT_EXEC, PROT_WRITE or, for any other, PROT_READ.
abbrev pub needed : ℕ → ℕ
needed cause = if has cause fault_exec then 4 else if has cause fault_write then 2 else 1

-- The faults that are not checked: with FAULT_RESERVED, and reads of a page that is not present.
abbrev pub unchecked : ℕ → Bool
unchecked cause =
    has cause fault_reserved
    || not (has cause fault_exec || has cause fault_write || has cause fault_present)

permitted_lem :
    (cause prot : ℕ) → is_permitted cause prot ≡ (unchecked cause || has prot (needed cause))
permitted_lem cause prot = elim (Bool-cases (has cause fault_exec)) [
  | inl exec ↦ rw exec (ground arith)
  | inr not_exec ↦ elim (Bool-cases (has cause fault_write)) [
    | inl write ↦ rw (not_exec, write) (ground arith)
    | inr not_write ↦ rw (not_exec, not_write) (ground arith)
  ]
]

unmapped-lookup :
    (areas : List Vmarea) (vfn : ℕ) → mapped areas vfn ≡ false → lookup_area areas vfn ≡ none
unfolding mapped lookup_area
unmapped-lookup [] vfn nowhere = refl
unmapped-lookup (a ∷ areas) vfn nowhere =
    let outside : covers a vfn ≡ false = ground arith in
    rw outside (unmapped-lookup areas vfn (ground arith))

module _ (pframe_get : ℕ → ℕ → Option ℕ) (virt_to_phys : ℕ → ℕ) (v : Vmarea)
    (obj vaddr cause frame : ℕ) (object : v.vma_obj ≡ some obj) (shared : v.vma_flags % 4 ≢ 0)
    (found : pframe_get obj (addr_to_pn vaddr % page_size) ≡ some frame) where
  abbrev linked : Vmarea
  linked = record v { vma_vmmap = true }

  frame_of_area : find_frame pframe_get vaddr linked ≡ some frame
  frame_of_area =
      let flags : (has v.vma_flags 2 || has v.vma_flags 1) ≡ true = ground arith in
      rw flags (
        ap (λ o. elim o [ none ↦ none | some w ↦ pframe_get w (addr_to_pn vaddr % page_size) ])
          object
        ∙ found)

  handle-area : handle_area pframe_get virt_to_phys vaddr cause (some linked) ≡ (
      if unchecked cause || has v.vma_prot (needed cause)
      then ok (pt_mapped (align_down vaddr) (align_down (virt_to_phys frame)) 7)
      else ok killed)
  unfolding handle_area
  handle-area = elim (Bool-cases (unchecked cause || has v.vma_prot (needed cause))) [
    | inl is ↦
        rw (permitted_lem cause v.vma_prot ∙ is, is)
          (ap (map_frame virt_to_phys vaddr) frame_of_area)
    | inr is ↦ rw (permitted_lem cause v.vma_prot ∙ is, is)
  ]

-- When an area that meets the assertions, has a memory object and is shared or private has been
-- put by vmmap_insert into an address space with whose areas it shares no page, then for every
-- fault, if pframe_get gives a frame for the page: a fault at a page of the area maps the page to
-- the frame, for reading, writing and executing, whatever the protection of the area, if the
-- protection has what the access needs, or if the fault is not checked; otherwise it kills the
-- process. Not checked are the faults with FAULT_RESERVED and those with none of FAULT_EXEC,
-- FAULT_WRITE and FAULT_PRESENT, which are reads of a page that is not present: they are mapped
-- even if the area must not be read. A fault at a page of no area kills the process, and one at a
-- page of another area does what it did before the insertion.
pub handle_pagefault-insert :
    (pframe_get : ℕ → ℕ → Option ℕ) (virt_to_phys : ℕ → ℕ) (map : Vmmap) (v : Vmarea)
    (obj vaddr cause frame : ℕ)
    → insertable v ≡ true
    → All (Apart v) map.vmm_list
    → v.vma_obj ≡ some obj
    → v.vma_flags % 4 ≢ 0
    → pframe_get obj (addr_to_pn vaddr % page_size) ≡ some frame
    → Returns
        (λ m. handle_pagefault pframe_get virt_to_phys m vaddr cause ≡ (
          if covers v (addr_to_pn vaddr)
          then (if unchecked cause || has v.vma_prot (needed cause)
              then ok (pt_mapped (align_down vaddr) (align_down (virt_to_phys frame)) 7)
              else ok killed)
          else if mapped map.vmm_list (addr_to_pn vaddr)
          then handle_pagefault pframe_get virt_to_phys map vaddr cause
          else ok killed))
        (vmmap_insert map v)
unfolding handle_pagefault handle_area vmmap_lookup
handle_pagefault-insert pframe_get virt_to_phys map v obj vaddr cause frame fits apart object shared
      found =
    let handle = handle_area pframe_get virt_to_phys vaddr cause in
    let here = handle-area pframe_get virt_to_phys v obj vaddr cause frame object shared found in
    let vfn = addr_to_pn vaddr in
    Returns-mono (lookup-insert map v vfn fits apart) λ m (looked, _, _).
      ap handle looked ∙ elim (Bool-cases (covers v vfn)) [
        | inl inside ↦ rw inside here
        | inr outside ↦ elim (Bool-cases (mapped map.vmm_list vfn)) [
          | inl other ↦ rw (outside, other)
          | inr nowhere ↦
              rw (outside, nowhere) (ap handle (unmapped-lookup map.vmm_list vfn nowhere))
        ]
      ]
