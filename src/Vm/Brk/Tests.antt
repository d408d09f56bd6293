-- ===== src/Vm/Brk/Tests.antt =====
-- Runs of do_brk of vm/kernel/vm/brk.c and of do_munmap of vm/kernel/vm/mmap.c.
use usc_projects.Prelude.{
  ℕ, ◌+◌, ◌*◌, ◌/◌, ◌≡◌, refl, true, some, [], ◌∷◌, ltb, leb, not, ◌&&◌, arith,
}
use usc_projects.Kernel.{done, fail, enomem, Returns}
use usc_projects.Vm.Area.{Vmarea, mapped, addr_to_pn, page_size}
use usc_projects.Vm.Vmmap.{vmmap_lookup, lookup_area}
use usc_projects.Vm.Brk.{Proc, do_brk, do_munmap}
use usc_projects.Vm.Brk.Heap.{do_brk-enomem, do_munmap-mapped}

-- Pages 1024 to 1039.
abbrev heap : Vmarea
heap = record {
  vma_start = 1024;
  vma_end = 1040;
  vma_off = 0;
  vma_prot = 3;
  vma_flags = 2;
  vma_vmmap = true;
  vma_obj = some 7;
}

abbrev process : Proc
process = record {
  p_start_brk = 4194304;
  p_brk = 4251648;
  p_vmmap = record { vmm_list = heap ∷ []; free_areas = 10; refs = [] };
}

-- Give back the last page of the heap.
do_brk-enomem_example : do_brk process 4247552 ≡ (fail enomem, process)
unfolding vmmap_lookup lookup_area addr_to_pn
do_brk-enomem_example =
    do_brk-enomem process heap 4247552 (λ e. omega (arith, e)) (omega arith) (omega arith)
      (omega arith) (omega arith) refl

-- Ask for one page and lose two.
do_munmap-mapped_example :
    Returns
      (λ (code, q).
        (code ≡ done 0)
        × ((page : ℕ)
            → mapped q.p_vmmap.vmm_list page ≡ (
                mapped (heap ∷ []) page
                && not (leb 1030 page && ltb page (1030 + (4096 / page_size + 1))))))
      (do_munmap process (1030 * page_size) 4096)
do_munmap-mapped_example =
    do_munmap-mapped process 1030 4096 (omega arith)
      (
        record {
          area = record { nonempty = omega arith; above = omega arith; below = omega arith };
          object = λ e. cc e;
          not_tail = λ starts e. omega (arith, e);
        },
        tt,
      )
      (omega arith)
