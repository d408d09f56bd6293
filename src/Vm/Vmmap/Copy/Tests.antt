-- ===== src/Vm/Vmmap/Copy/Tests.antt =====
-- A run of vmmap_read over two pages of one area.
use usc_projects.Prelude.{
  ℕ, ◌+◌, ◌/◌, ◌%◌, ◌<◌, ◌≡◌, refl, true, Option, none, some, [], ◌∷◌, ltb, ◌==◌, if◌then◌else◌,
  arith, Bool-cases, ==_iff, inl, inr, subst, sym,
}
use usc_projects.Kernel.{Code, done, fail, efault, Outcome, ok, panic, out_of_fuel, Returns}
use usc_projects.Vm.Area.{addr_to_pn, page_size}
use usc_projects.Vm.Vmmap.{Vmmap, vmmap_lookup, lookup_area}
use usc_projects.Vm.Vmmap.Copy.{frame_at, read_loop, vmmap_read}
use usc_projects.Vm.Vmmap.Copy.Bytes.{vmmap_read-Filled}

abbrev space : Vmmap
space = record {
  vmm_list =
      record {
        vma_start = 1030;
        vma_end = 1032;
        vma_off = 0;
        vma_prot = 3;
        vma_flags = 1;
        vma_vmmap = true;
        vma_obj = some 6;
      }
      ∷ [];
  free_areas = 5;
  refs = [];
}

-- Page 1030 has the frame at 0x90000, any other page that at 0x50000.
abbrev frames : ℕ → ℕ → Option ℕ
frames obj page = some (if page == 1030 then 0x90000 else 0x50000)

abbrev frame_of : ℕ → ℕ
frame_of k = if k == 0 then 0x90000 else 0x50000

abbrev code_of : Outcome (Code × (ℕ → ℕ)) → Option Code
code_of (ok (code, buf)) = some code
code_of panic = none
code_of out_of_fuel = none

-- The third page has no area.
too_far : code_of (vmmap_read frames (λ a. a) space 0x406000 9000 (λ j. 0)) ≡ some (fail efault)
unfolding vmmap_read read_loop frame_at vmmap_lookup lookup_area addr_to_pn
too_far = refl

abbrev IsFound : ℕ → Type 0
IsFound k =
    frame_at frames (addr_to_pn 0x406000 + k) (vmmap_lookup space (addr_to_pn 0x406000 + k))
    ≡ ok (some (frame_of k))

both-IsFound : (k : ℕ) → k < 2 → IsFound k
unfolding addr_to_pn vmmap_lookup lookup_area frame_at
both-IsFound k below = elim (Bool-cases (k == 0)) [
  | inl start ↦ subst IsFound (sym ((==_iff k 0).0 start)) refl
  | inr other ↦ subst IsFound (let is : 1 ≡ k = ground arith in is) refl
]

vmmap_read-Filled_example :
    Returns
      (λ (code, buf1).
        (code ≡ done 0)
        × ((j : ℕ) → buf1 j ≡ (if ltb j 5000 then frame_of (j / page_size) + j % page_size else 0)))
      (vmmap_read frames (λ a. a) space 0x406000 5000 (λ j. 0))
vmmap_read-Filled_example =
    vmmap_read-Filled frames (λ a. a) space 0x406000 5000 frame_of (λ j. 0) both-IsFound
