-- ===== src/Vm/Vmmap/Clone.antt =====
-- vmmap_clone of vm/kernel/vm/vmmap.c, the copy of an address space that fork makes.
use usc_projects.Prelude.{
  ℕ, ◌+◌, ◌-◌, ◌≤◌, ◌<◌, ◌≡◌, refl, ◌∙◌, ap, Bool, true, false, ◌||◌, Option, none, some, List, [],
  ◌∷◌, arith, ◌==◌, if◌then◌else◌, length, All,
}
use mathlib.Core.Bool.{or-false}
use usc_projects.Kernel.{Outcome, ok, ◌>>=◌, Returns, returns, Returns-mono}
use usc_projects.Vm.Area.{Vmarea, covers, mapped, IsArea}
use usc_projects.Vm.Vmmap.{Vmmap, insert_area, vmmap_insert}
use usc_projects.Vm.Vmmap.Insert.{mapped-insert_area, insertable_of_area}

-- The area that the clone gets for `a`. `blank` is what a fresh slab object holds: only the fields
-- below are set, so its offset and its memory object are whatever that memory held.
abbrev pub cloned : Vmarea → Vmarea → Vmarea
cloned blank a = record blank {
  vma_start = a.vma_start;
  vma_end = a.vma_end;
  vma_prot = a.vma_prot;
  vma_flags = a.vma_flags;
  vma_vmmap = false;
}

-- The loop over the areas of the map. The two address spaces share the allocator, so the clone
-- carries its state. `none` is NULL: the clone so far is lost.
pub clone_areas : Vmarea → List Vmarea → Vmmap → Outcome (Option Vmmap)
clone_areas blank [] clone = ok (some clone)
clone_areas blank (a ∷ rest) clone =
    if clone.free_areas == 0
    then ok none
    else vmmap_insert (record clone { free_areas = clone.free_areas - 1 }) (cloned blank a) >>= λ c.
        clone_areas blank rest c

-- `created` says whether the allocator had memory for the new vmmap_t.
pub vmmap_clone : Bool → Vmarea → Vmmap → Outcome (Option Vmmap)
unfolding clone_areas
vmmap_clone created blank map =
    if created then clone_areas blank map.vmm_list (record map { vmm_list = [] }) else ok none

-- The result is an address space with the same pages as the areas and the clone so far had.
Cloned : List Vmarea → Vmmap → Option Vmmap → Type 0
Cloned areas clone none = ⊥
Cloned areas clone (some c) =
    (c.free_areas + length areas ≡ clone.free_areas)
    × ((vfn : ℕ) → mapped c.vmm_list vfn ≡ (mapped areas vfn || mapped clone.vmm_list vfn))

regroup : (p q r : Bool) → (p || (q || r)) ≡ ((q || p) || r)
regroup p q r = ground arith

Cloned-cons :
    (blank a : Vmarea) (rest : List Vmarea) (clone : Vmmap) (o : Option Vmmap)
    → 0 < clone.free_areas
    → Cloned rest
        (record clone {
          vmm_list = insert_area (record (cloned blank a) { vma_vmmap = true }) clone.vmm_list;
          free_areas = clone.free_areas - 1;
        })
        o
    → Cloned (a ∷ rest) clone o
unfolding Cloned mapped
Cloned-cons blank a rest clone none some_left made = made
Cloned-cons blank a rest clone (some c) some_left (spare, shows) = (
  omega arith,
  λ vfn.
      shows vfn
      ∙ ap (λ b. mapped rest vfn || b)
          (mapped-insert_area (record (cloned blank a) { vma_vmmap = true }) vfn clone.vmm_list)
      ∙ regroup (mapped rest vfn) (covers a vfn) (mapped clone.vmm_list vfn),
)

clone_areas-Cloned :
    (blank : Vmarea) (areas : List Vmarea) (clone : Vmmap)
    → All IsArea areas
    → length areas ≤ clone.free_areas
    → Returns (Cloned areas clone) (clone_areas blank areas clone)
unfolding clone_areas Cloned mapped vmmap_insert
clone_areas-Cloned blank [] clone sound space = returns (omega arith, λ vfn. refl)
clone_areas-Cloned blank (a ∷ rest) clone sound space =
    let spare : (clone.free_areas == 0) ≡ false = ground arith in
    let fits =
      insertable_of_area (cloned blank a) sound.0.nonempty sound.0.above sound.0.below refl in
    let next : Vmmap = record clone {
      vmm_list = insert_area (record (cloned blank a) { vma_vmmap = true }) clone.vmm_list;
      free_areas = clone.free_areas - 1;
    } in
    rw (spare, fits)
      (Returns-mono (clone_areas-Cloned blank rest next sound.1 (omega arith))
        (λ o made. Cloned-cons blank a rest clone o (omega arith) made))

-- Cloning an address space whose areas all hold at least one page and lie in user memory, when the allocators have a map and
-- an area for each area, gives an address space in which the same pages are mapped, and takes one
-- area for each.
pub vmmap_clone-mapped :
    (blank : Vmarea) (map : Vmmap)
    → All IsArea map.vmm_list
    → length map.vmm_list ≤ map.free_areas
    → Returns
        (λ o.
          (c : Vmmap) × (o ≡ some c)
          × (c.free_areas + length map.vmm_list ≡ map.free_areas)
          × ((vfn : ℕ) → mapped c.vmm_list vfn ≡ mapped map.vmm_list vfn))
        (vmmap_clone true blank map)
unfolding vmmap_clone Cloned mapped
vmmap_clone-mapped blank map sound space =
    Returns-mono (clone_areas-Cloned blank map.vmm_list (record map { vmm_list = [] }) sound space)
      (found map)
  where
    found :
        (m : Vmmap) (o : Option Vmmap)
        → Cloned m.vmm_list (record m { vmm_list = [] }) o
        → (c : Vmmap) × (o ≡ some c)
          × (c.free_areas + length m.vmm_list ≡ m.free_areas)
          × ((vfn : ℕ) → mapped c.vmm_list vfn ≡ mapped m.vmm_list vfn)
    found m none made = absurd made
    found m (some c) made = (c, refl, made.0, λ vfn. made.1 vfn ∙ or-false (mapped m.vmm_list vfn))
