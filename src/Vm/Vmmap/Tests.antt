-- ===== src/Vm/Vmmap/Tests.antt =====
-- Runs of vm/kernel/vm/vmmap.c and vm/kernel/vm/brk.c on small address spaces.
use usc_projects.Prelude.{
  ℕ, ◌+◌, ◌*◌, ◌<◌, ◌≤◌, ◌≡◌, ◌≢◌, refl, ◌↔◌, inl, true, false, not, ◌&&◌, ◌||◌, none, some, [],
  ◌∷◌, ltb, leb, All, arith,
}
use usc_projects.Kernel.{done, panic, Returns}
use usc_projects.Vm.Area.{Vmarea, mapped, page_low, page_high}
use usc_projects.Vm.Vmmap.{
  Vmmap, insertable, vmmap_insert, vmmap_is_range_empty, lohi, hilo, vmmap_find_range, find_range,
  find_lohi,
}
use usc_projects.Vm.Vmmap.Insert.{IsSorted, insert-not-IsSorted}
use usc_projects.Vm.Vmmap.Ranges.{IsFree, is_range_empty_iff}
use usc_projects.Vm.Vmmap.Find.{find_range-IsFree}
use usc_projects.Vm.Vmmap.Remove.{vmmap_remove}
use usc_projects.Vm.Vmmap.Remove.Step.{vmmap_remove-mapped}
use usc_projects.Vm.Vmmap.Remove.Place.{IsRemovable}
use usc_projects.Vm.Vmmap.Remove.Tail.{vmmap_remove-panic}
use usc_projects.Vm.Vmmap.Clone.{vmmap_clone, vmmap_clone-mapped}
use usc_projects.Vm.Vmmap.Map.{Request, vmmap_map, valid_request}
use usc_projects.Vm.Vmmap.Map.Pages.{vmmap_map-mapped}

abbrev area : ℕ → ℕ → Vmarea
area lo hi = record {
  vma_start = lo;
  vma_end = hi;
  vma_off = 0;
  vma_prot = 3;
  vma_flags = 2;
  vma_vmmap = true;
  vma_obj = some 7;
}

abbrev fresh_area : ℕ → ℕ → Vmarea
fresh_area lo hi = record (area lo hi) { vma_vmmap = false }

-- Pages 1024 to 1039 and 1056 to 1071.
abbrev text : Vmarea
text = area 1024 1040

abbrev data_area : Vmarea
data_area = area 1056 1072

abbrev space : Vmmap
space = record { vmm_list = text ∷ data_area ∷ []; free_areas = 10; refs = [] }

-- Memory that leaves no room when it is read as an area.
abbrev head : Vmarea
head = area 1024 786432

insert-not-IsSorted_example :
    Returns
      (λ m. (m.vmm_list ≡ text ∷ area 1080 1090 ∷ data_area ∷ []) × ¬ IsSorted m.vmm_list)
      (vmmap_insert space (fresh_area 1080 1090))
unfolding insertable
insert-not-IsSorted_example =
    insert-not-IsSorted text data_area (fresh_area 1080 1090) [] [] space refl refl tt (omega arith)
      (omega arith)

is_range_empty_iff_example :
    (vmmap_is_range_empty space 1040 16 ≡ true) ↔ IsFree (text ∷ data_area ∷ []) 1040 (1040 + 16)
is_range_empty_iff_example =
    is_range_empty_iff space 1040 16 (omega arith, (omega arith, tt)) (omega arith) (omega arith)

find_range-IsFree_example :
    (page_low ≤ 1040) × (1040 + 16 ≤ page_high) × IsFree (text ∷ data_area ∷ []) 1040 (1040 + 16)
unfolding vmmap_find_range find_range find_lohi
find_range-IsFree_example =
    find_range-IsFree head space 16 1040 lohi (refl, refl)
      (omega arith, omega arith, (omega arith, omega arith, omega arith)) refl

area-IsRemovable :
    (lo hi start end : ℕ)
    → start < end
    → page_low ≤ start
    → end ≤ page_high
    → hi ≢ end
    → IsRemovable lo hi (area start end)
area-IsRemovable lo hi start end full low high other = record {
  area = record { nonempty = full; above = low; below = high };
  object = λ e. cc e;
  not_tail = λ starts e. other (omega (arith, e));
}

-- A range that ends with neither area can be cut out.
space-IsRemovable :
    (lo hi : ℕ) → hi ≢ 1040 → hi ≢ 1072 → All (IsRemovable lo hi) (text ∷ data_area ∷ [])
space-IsRemovable lo hi not_text not_data = (
  area-IsRemovable lo hi 1024 1040 (omega arith) (omega arith) (omega arith) not_text,
  (area-IsRemovable lo hi 1056 1072 (omega arith) (omega arith) (omega arith) not_data, tt),
)

vmmap_remove-mapped_example :
    Returns
      (λ (code, m).
        (code ≡ done 0)
        × (10 ≤ m.free_areas + 2 * 2)
        × ((vfn : ℕ)
            → mapped m.vmm_list vfn
              ≡ (mapped (text ∷ data_area ∷ []) vfn && not (leb 1030 vfn && ltb vfn (1030 + 4)))))
      (vmmap_remove space 1030 4)
vmmap_remove-mapped_example =
    vmmap_remove-mapped space 1030 4 (omega arith) (omega arith)
      (space-IsRemovable 1030 1034 (λ e. omega (arith, e)) (λ e. omega (arith, e))) (omega arith)

vmmap_remove-panic_example : vmmap_remove space 1030 10 ≡ panic
vmmap_remove-panic_example =
    vmmap_remove-panic 1030 1040 (omega arith) text 7 (omega arith) (omega arith) (omega arith) refl
      refl space 10 [] (data_area ∷ []) refl refl tt (omega arith)

vmmap_clone-mapped_example :
    Returns
      (λ o.
        (c : Vmmap) × (o ≡ some c)
        × (c.free_areas + 2 ≡ 10)
        × ((vfn : ℕ) → mapped c.vmm_list vfn ≡ mapped (text ∷ data_area ∷ []) vfn))
      (vmmap_clone true text space)
vmmap_clone-mapped_example =
    vmmap_clone-mapped text space
      (
        record { nonempty = omega arith; above = omega arith; below = omega arith },
        (record { nonempty = omega arith; above = omega arith; below = omega arith }, tt),
      )
      (omega arith)

-- Map anonymous memory over the end of the first area and the gap behind it.
abbrev request : Request
request = record {
  head = head;
  blank = text;
  anon = some 9;
  file = none;
  lopage = 1036;
  npages = 10;
  prot = 3;
  flags = 1;
  off = 0;
  dir = hilo;
}

vmmap_map-mapped_example :
    Returns
      (λ (code, m).
        (code ≡ done 0)
        × ((vfn : ℕ)
            → mapped m.map.vmm_list vfn
              ≡ ((leb 1036 vfn && ltb vfn (1036 + 10)) || mapped (text ∷ data_area ∷ []) vfn)))
      (vmmap_map request space)
unfolding valid_request
vmmap_map-mapped_example =
    vmmap_map-mapped request 9 none (inl (refl, refl, refl)) refl (omega arith) (omega arith)
      (omega arith) space
      (space-IsRemovable 1036 1046 (λ e. omega (arith, e)) (λ e. omega (arith, e))) (omega arith)
