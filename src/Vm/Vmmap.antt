-- ===== src/Vm/Vmmap.antt =====
-- The address space of a process: vmmap_insert, vmmap_lookup, vmmap_is_range_empty and
-- vmmap_find_range of vm/kernel/vm/vmmap.c. The list is in the order of the `l_next` links.
pub mod Insert
pub mod Ranges
pub mod Find
pub mod Remove
pub mod Clone
pub mod Map
pub mod Copy
mod Tests
use mathlib.Core.Option
use usc_projects.Prelude.{
  ℕ, Bool, true, false, not, ◌&&◌, ◌||◌, Option, none, some, List, [], ◌∷◌, ltb, leb, ◌==◌,
  if◌then◌else◌,
}
use usc_projects.Kernel.{Outcome, ok, panic}
use usc_projects.Vm.Area.{Vmarea, covers, page_low, page_high, add32, sub32}

-- `vmmap_t` with the state of the two allocators and the references taken on memory objects:
-- `free_areas` is how many areas the slab can still hand out, `refs` the objects whose `ref` was
-- called, newest first.
pub record Vmmap : Type 0 where
  pub vmm_list : List Vmarea
  pub free_areas : ℕ
  pub refs : List ℕ

-- The walk of vmmap_insert: behind the first area that starts before the new one, or `none`.
pub insert_after_smaller : Vmarea → List Vmarea → Option (List Vmarea)
insert_after_smaller v [] = none
insert_after_smaller v (a ∷ rest) =
    if ltb a.vma_start v.vma_start
    then some (a ∷ v ∷ rest)
    else Option.map (λ r. a ∷ r) (insert_after_smaller v rest)

-- The list after vmmap_insert: at the head where the walk found no place.
pub insert_area : Vmarea → List Vmarea → List Vmarea
unfolding insert_after_smaller
insert_area v areas = elim (insert_after_smaller v areas) [ none ↦ v ∷ areas | some r ↦ r ]

-- The assertions of vmmap_insert on the new area.
pub insertable : Vmarea → Bool
insertable v =
    not v.vma_vmmap
    && ltb v.vma_start v.vma_end
    && leb page_low v.vma_start
    && leb v.vma_end page_high

pub vmmap_insert : Vmmap → Vmarea → Outcome Vmmap
unfolding insertable insert_area
vmmap_insert map v =
    if insertable v
    then ok (record map { vmm_list = insert_area (record v { vma_vmmap = true }) map.vmm_list })
    else panic

-- vmmap_lookup: the first area of the list that covers the page.
unfoldable pub lookup_area : List Vmarea → ℕ → Option Vmarea
lookup_area [] vfn = none
lookup_area (a ∷ rest) vfn = if covers a vfn then some a else lookup_area rest vfn

unfoldable pub vmmap_lookup : Vmmap → ℕ → Option Vmarea
unfolding lookup_area
vmmap_lookup map vfn = lookup_area map.vmm_list vfn

-- The three tests of vmmap_is_range_empty, for the range from `start` up to `end`.
pub overlaps : Vmarea → ℕ → ℕ → Bool
overlaps a start end =
    (leb a.vma_start start && ltb start a.vma_end)
    || (ltb a.vma_start end && leb end a.vma_end)
    || (leb start a.vma_start && leb a.vma_end end)

pub range_empty : List Vmarea → ℕ → ℕ → Bool
range_empty [] start end = true
range_empty (a ∷ rest) start end =
    if overlaps a start end then false else range_empty rest start end

pub vmmap_is_range_empty : Vmmap → ℕ → ℕ → Bool
unfolding range_empty overlaps
vmmap_is_range_empty map startvfn npages = range_empty map.vmm_list startvfn (add32 startvfn npages)

pub data Direction : Type 0 where
  lohi hilo : Direction

-- The loop of VMMAP_DIR_LOHI, from the gap below the area at hand. `low` is the end of the area
-- before it, or the first page of user memory. At the end of the list `link` is the list's head,
-- which is read as if it were an area: `head` is what that memory holds.
find_lohi : Vmarea → ℕ → ℕ → List Vmarea → Option ℕ
find_lohi head npages low [] =
    if leb npages (sub32 page_high head.vma_end) then some head.vma_end else none
find_lohi head npages low (a ∷ rest) =
    if leb npages (sub32 a.vma_start low) then some low else find_lohi head npages a.vma_end rest

-- The loop of VMMAP_DIR_HILO visits the areas from the last to the first and looks at the gap
-- above each; `found` is what the areas behind gave, so the recursion runs up the list.
find_hilo : ℕ → List Vmarea → Option ℕ
find_hilo npages [] = none
find_hilo npages (a ∷ []) = if leb npages (sub32 page_high a.vma_end) then some a.vma_end else none
find_hilo npages (a ∷ b ∷ rest) = elim (find_hilo npages (b ∷ rest)) [
  | some p ↦ some p
  | none ↦ if leb npages (sub32 b.vma_start a.vma_end) then some a.vma_end else none
]

-- After the loop of VMMAP_DIR_HILO the list's head is read as an area, too.
find_hilo_first : Vmarea → ℕ → Option ℕ → Option ℕ
find_hilo_first head npages (some p) = some p
find_hilo_first head npages none =
    if leb npages (sub32 head.vma_start page_low) then some head.vma_end else none

-- The two branches of vmmap_find_range. An empty address space has no range.
find_range : Vmarea → ℕ → List Vmarea → Direction → Option ℕ
unfolding find_lohi find_hilo find_hilo_first
find_range head npages [] dir = none
find_range head npages (a ∷ rest) lohi = find_lohi head npages page_low (a ∷ rest)
find_range head npages (a ∷ rest) hilo = find_hilo_first head npages (find_hilo npages (a ∷ rest))

-- vmmap_find_range: `none` is -1, and the assertion on `npages` may stop the kernel.
pub vmmap_find_range : Vmarea → Vmmap → ℕ → Direction → Outcome (Option ℕ)
unfolding find_range
vmmap_find_range head map npages dir =
    if npages == 0 then panic else ok (find_range head npages map.vmm_list dir)
