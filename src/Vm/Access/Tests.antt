-- ===== src/Vm/Access/Tests.antt =====
-- Runs of addr_perm and range_perm on an address space with one area.
use usc_projects.Prelude.{◌≡◌, refl, true, false, some, [], ◌∷◌, arith}
use usc_projects.Kernel.{ok}
use usc_projects.Vm.Area.{addr_to_pn}
use usc_projects.Vm.Vmmap.{Vmmap, vmmap_lookup}
use usc_projects.Vm.Access.{addr_perm, range_perm}
use usc_projects.Vm.Access.Refused.{range_perm-refused}

abbrev space : Vmmap
space = record {
  vmm_list =
      record {
        vma_start = 1030;
        vma_end = 1040;
        vma_off = 0;
        vma_prot = 3;
        vma_flags = 1;
        vma_vmmap = true;
        vma_obj = some 6;
      }
      ∷ [];
  free_areas = 5;
  refs = [];
}

same_bits : addr_perm space 0x406123 3 ≡ true
unfolding addr_perm vmmap_lookup addr_to_pn
same_bits = refl

-- An area that can be read and written does not count as one that can be read.
fewer_bits : addr_perm space 0x406123 1 ≡ false
unfolding addr_perm vmmap_lookup addr_to_pn
fewer_bits = refl

range_perm-refused_example : range_perm space 0x406123 10 3 ≡ ok false
range_perm-refused_example =
    range_perm-refused space 0x406123 10 3
      (record { nonempty = omega arith; above = omega arith; below = omega arith }, tt)
      (omega arith)
