-- ===== src/Vm/Pagefault/Tests.antt =====
-- Runs of handle_pagefault on an address space with one area.
use usc_projects.Prelude.{
  if◌then◌else◌, ℕ, ◌+◌, ◌*◌, ◌≡◌, refl, true, false, Option, some, [], ◌∷◌, inr, arith,
}
use usc_projects.Kernel.{ok, Returns}
use usc_projects.Vm.Area.{Vmarea, addr_to_pn, covers, mapped}
use usc_projects.Vm.Vmmap.{Vmmap, vmmap_lookup, vmmap_insert}
use usc_projects.Vm.Vmmap.Insert.{insertable_of_area}
use usc_projects.Vm.Pagefault.{killed, pt_mapped, handle_area, handle_pagefault}
use usc_projects.Vm.Pagefault.Handled.{handle_pagefault-insert}

abbrev area : ℕ → ℕ → ℕ → Vmarea
area start end prot = record {
  vma_start = start;
  vma_end = end;
  vma_off = 0;
  vma_prot = prot;
  vma_flags = 1;
  vma_vmmap = false;
  vma_obj = some 6;
}

abbrev space : Vmmap
space = record {
  vmm_list = record (area 1030 1040 5) { vma_vmmap = true } ∷ [];
  free_areas = 5;
  refs = [];
}

abbrev frames : ℕ → ℕ → Option ℕ
frames obj page = some (0x800000 + page * 0x1000)

-- Address 0x406123 is in page 1030. Reading and executing is allowed, writing not.
read_fault : handle_pagefault frames (λ a. a) space 0x406123 1 ≡ ok (pt_mapped 0x406000 0xc06000 7)
unfolding handle_pagefault handle_area vmmap_lookup addr_to_pn
read_fault = refl

write_fault : handle_pagefault frames (λ a. a) space 0x406123 3 ≡ ok killed
unfolding handle_pagefault handle_area vmmap_lookup addr_to_pn
write_fault = refl

no_area : handle_pagefault frames (λ a. a) space 0x123 1 ≡ ok killed
unfolding handle_pagefault handle_area vmmap_lookup addr_to_pn
no_area = refl

-- Reading a page that is not present is not checked: area 1100 to 1109 has no protection at all.
handle_pagefault-insert_example :
    Returns
      (λ m. handle_pagefault frames (λ a. a) m 0x44d123 0 ≡ (
        if covers (area 1100 1110 0) 1101
        then ok (pt_mapped 0x44d000 0xc4d000 7)
        else if mapped space.vmm_list 1101
        then handle_pagefault frames (λ a. a) space 0x44d123 0
        else ok killed))
      (vmmap_insert space (area 1100 1110 0))
unfolding addr_to_pn
handle_pagefault-insert_example =
    handle_pagefault-insert frames (λ a. a) space (area 1100 1110 0) 6 0x44d123 0 0xc4d000
      (insertable_of_area (area 1100 1110 0) (omega arith) (omega arith) (omega arith) refl)
      (inr (omega arith), tt) refl (omega arith) refl
