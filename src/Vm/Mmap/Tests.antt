-- ===== src/Vm/Mmap/Tests.antt =====
-- Runs of do_mmap on a process with one file and one mapped area.
use usc_projects.Prelude.{
  ℕ, zero, suc, ◌≡◌, refl, inr, Option, none, some, List, [], ◌∷◌, ◌==◌, if◌then◌else◌, arith, true,
}
use usc_projects.Kernel.{Code, fail, eperm, ebadf, Outcome, ok, panic, out_of_fuel, Returns}
use usc_projects.Files.{File, Vnode, Process, load_slot}
use usc_projects.Files.Counted.{Counted}
use usc_projects.Vm.Area.{Vmarea, addr_to_pn}
use usc_projects.Vm.Vmmap.{Vmmap}
use usc_projects.Vm.Vmmap.Map.{Mapping}
use usc_projects.Vm.Mmap.{Call, Around, mmap_slot, do_mmap}
use usc_projects.Vm.Mmap.Mapped.{MmapDone, do_mmap-MmapDone}

abbrev slots_from : ℕ → List (Option ℕ)
slots_from zero = []
slots_from (suc n) = none ∷ slots_from n

abbrev quiet : Vnode
quiet = record { vn_len = 100; vn_mode = 0x800; read = none; readdir = none; write = none }

abbrev reader : File
reader = record { f_pos = 0; f_mode = 1; f_refcount = 1; f_vnode = some 3 }

-- Descriptor 0 is file 7.
abbrev process : Process
process = record {
  p_files = some 7 ∷ slots_from 31;
  files = λ f. if f == 7 then some reader else none;
  vnodes = λ n. quiet;
  vputs = [];
  slab = some 8;
}

process-Counted : Counted [] process
process-Counted = record { sized = refl; counted = λ f. ground arith; opened = λ f. ground arith }

abbrev text : Vmarea
text = record {
  vma_start = 1030;
  vma_end = 1040;
  vma_off = 0;
  vma_prot = 4;
  vma_flags = 1;
  vma_vmmap = true;
  vma_obj = some 5;
}

abbrev space : Vmmap
space = record { vmm_list = text ∷ []; free_areas = 5; refs = [] }

abbrev around : Around
around = record { head = text; blank = text; anon = none; vn_mmap = λ v a. inr 6 }

-- Three pages at page 1100.
abbrev call : ℕ → ℕ → ℕ → Call
call prot flags fd = record {
  addr = 4505600;
  len = 8192;
  prot = prot;
  flags = flags;
  fd = fd;
  off = 0;
}

abbrev code_of : Outcome (Code × Process × Mapping) → Option Code
code_of (ok (code, p, m)) = some code
code_of panic = none
code_of out_of_fuel = none

-- Readable memory is refused.
prot_read : code_of (do_mmap around (call 1 1 0) process space) ≡ some (fail eperm)
unfolding do_mmap mmap_slot load_slot
prot_read = refl

closed_slot : code_of (do_mmap around (call 4 1 2) process space) ≡ some (fail ebadf)
unfolding do_mmap mmap_slot load_slot
closed_slot = refl

do_mmap-MmapDone_example :
    Returns (MmapDone (call 4 2 0) 8 process space) (do_mmap around (call 4 2 0) process space)
unfolding addr_to_pn
do_mmap-MmapDone_example =
    do_mmap-MmapDone around (call 4 2 0) process space 7 8 3 6 reader (refl, inr (refl, refl)) refl
      refl (omega arith) (omega arith) (omega arith) refl refl refl (λ a. refl) process-Counted refl
      refl
      (
        record {
          area = record { nonempty = omega arith; above = omega arith; below = omega arith };
          object = λ e. cc e;
          not_tail = λ starts e. omega (arith, e);
        },
        tt,
      )
      (omega arith)
