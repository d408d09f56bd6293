-- ===== src/Vm/Vmmap/Insert.antt =====
-- What vmmap_insert of vm/kernel/vm/vmmap.c does to the pages of an address space, and to its order.
use usc_projects.Prelude.{
  ℕ, ◌≤◌, ◌<◌, ◌≡◌, refl, ◌⊎◌, inl, inr, true, false, ◌||◌, ◌++◌, ap, subst, sym, ◌∙◌, none, some,
  ltb, List, [], ◌∷◌, arith, lt→ltb, if◌then◌else◌, All, Option-cases,
}
use usc_projects.Kernel.{Returns, returns}
use usc_projects.Vm.Area.{Vmarea, covers, mapped, page_low, page_high}
use usc_projects.Vm.Vmmap.{
  Vmmap, insert_after_smaller, insert_area, insertable, vmmap_insert, lookup_area, vmmap_lookup,
}

-- The two areas share no page.
abbrev pub Apart : Vmarea → Vmarea → Type 0
Apart v a = (v.vma_end ≤ a.vma_start) ⊎ (a.vma_end ≤ v.vma_start)

module _ (v : Vmarea) (vfn : ℕ) where
  abbrev pub AfterWalk : List Vmarea → Type 0
  AfterWalk areas =
      (r : List Vmarea)
      → insert_after_smaller v areas ≡ some r
      → mapped r vfn ≡ (covers v vfn || mapped areas vfn)

  pub walk-mapped : (areas : List Vmarea) → AfterWalk areas
  unfolding insert_after_smaller mapped
  walk-mapped [] r e = cc
  walk-mapped (a ∷ rest) r e = elim (Option-cases (insert_after_smaller v rest)) [
    | inl gone ↦ ground (arith, gone)
    | inr (q, got) ↦ ground (arith, got, walk-mapped rest q got)
  ]

  pub mapped-insert_area :
      (areas : List Vmarea) → mapped (insert_area v areas) vfn ≡ (covers v vfn || mapped areas vfn)
  unfolding insert_area mapped
  mapped-insert_area areas = elim (Option-cases (insert_after_smaller v areas)) [
    | inl gone ↦ rw (gone, insert_area) refl
    | inr (r, got) ↦ rw (got, insert_area) (walk-mapped areas r got)
  ]

module _ (v : Vmarea) (vfn : ℕ) where
  walk-lookup :
      (areas r : List Vmarea)
      → All (Apart v) areas
      → insert_after_smaller v areas ≡ some r
      → lookup_area r vfn ≡ (if covers v vfn then some v else lookup_area areas vfn)
  unfolding insert_after_smaller lookup_area
  walk-lookup [] r apart e = cc
  walk-lookup (a ∷ rest) r apart e = elim (Option-cases (insert_after_smaller v rest)) [
    | inl gone ↦ ground (arith, gone, apart.0)
    | inr (q, got) ↦ ground (arith, got, apart.0, walk-lookup rest q apart.1 got)
  ]

  lookup_area-insert :
      (areas : List Vmarea)
      → All (Apart v) areas
      → lookup_area (insert_area v areas) vfn
        ≡ (if covers v vfn then some v else lookup_area areas vfn)
  unfolding insert_area lookup_area
  lookup_area-insert areas apart = elim (Option-cases (insert_after_smaller v areas)) [
    | inl gone ↦ rw (gone, insert_area) refl
    | inr (r, got) ↦ rw (got, insert_area) (walk-lookup areas r apart got)
  ]

pub insertable_of_area :
    (v : Vmarea)
    → v.vma_start < v.vma_end
    → page_low ≤ v.vma_start
    → v.vma_end ≤ page_high
    → v.vma_vmmap ≡ false
    → insertable v ≡ true
unfolding insertable
insertable_of_area v full low high fresh = ground arith

-- Inserting an area that meets the assertions and shares no page with the others returns an
-- address space where a lookup of a page of the new area finds the area (now linked to its address
-- space), a lookup of any other page finds what it found before, and the allocator and the
-- references are as they were.
pub lookup-insert :
    (map : Vmmap) (v : Vmarea) (vfn : ℕ)
    → insertable v ≡ true
    → All (Apart v) map.vmm_list
    → Returns
        (λ m.
          (vmmap_lookup m vfn
            ≡ (if covers v vfn then some (record v { vma_vmmap = true }) else vmmap_lookup map vfn))
          × (m.free_areas ≡ map.free_areas)
          × (m.refs ≡ map.refs))
        (vmmap_insert map v)
unfolding vmmap_insert vmmap_lookup
lookup-insert map v vfn fits apart = rw fits (
    returns (lookup_area-insert (record v { vma_vmmap = true }) vfn map.vmm_list apart, refl, refl))

-- The areas stand in the order of their first pages.
abbrev pub IsSorted : List Vmarea → Type 0
IsSorted [] = Unit
IsSorted (a ∷ []) = Unit
IsSorted (a ∷ b ∷ rest) = (a.vma_start ≤ b.vma_start) × IsSorted (b ∷ rest)

-- Walking past areas that do not start below the new one.
insert_after_front :
    (a v : Vmarea) (front rest : List Vmarea)
    → All (λ x. v.vma_start ≤ x.vma_start) front
    → a.vma_start < v.vma_start
    → insert_after_smaller v (front ++ a ∷ rest) ≡ some (front ++ a ∷ v ∷ rest)
unfolding insert_after_smaller
insert_after_front a v [] rest above below = rw (lt→ltb a.vma_start v.vma_start below)
insert_after_front a v (x ∷ front) rest above below =
    let later : ltb x.vma_start v.vma_start ≡ false = ground (arith, above.0) in
    rw (later, insert_after_front a v front rest above.1 below)

not-IsSorted :
    (a b v : Vmarea) (front rest : List Vmarea)
    → b.vma_start < v.vma_start
    → ¬ IsSorted (front ++ a ∷ v ∷ b ∷ rest)
not-IsSorted a b v [] rest bv sorted = omega arith
not-IsSorted a b v (x ∷ []) rest bv sorted = not-IsSorted a b v [] rest bv sorted.1
not-IsSorted a b v (x ∷ y ∷ front) rest bv sorted = not-IsSorted a b v (y ∷ front) rest bv sorted.1

-- Inserting an area that meets the assertions, when the first area `a` of the list that starts below
-- it is followed by another, `b`, that starts below it, too: the new area is put between the two,
-- nothing else changes in the list, and the list is not in the order of the first pages.
pub insert-not-IsSorted :
    (a b v : Vmarea) (front rest : List Vmarea) (map : Vmmap)
    → map.vmm_list ≡ front ++ a ∷ b ∷ rest
    → insertable v ≡ true
    → All (λ x. v.vma_start ≤ x.vma_start) front
    → a.vma_start < v.vma_start
    → b.vma_start < v.vma_start
    → Returns
        (λ m.
          (m.vmm_list ≡ front ++ a ∷ record v { vma_vmmap = true } ∷ b ∷ rest)
          × ¬ IsSorted m.vmm_list)
        (vmmap_insert map v)
unfolding vmmap_insert insert_area
insert-not-IsSorted a b v front rest map e fits above below bv =
    let linked : Vmarea = record v { vma_vmmap = true } in
    let placed : insert_area linked map.vmm_list ≡ front ++ a ∷ linked ∷ b ∷ rest =
      ap (insert_area linked) e
      ∙ ap (λ o. elim o [ none ↦ linked ∷ (front ++ a ∷ b ∷ rest) | some r ↦ r ])
          (insert_after_front a linked front (b ∷ rest) above below) in
    rw fits (
      returns
        (placed, subst (λ l. ¬ IsSorted l) (sym placed) (not-IsSorted a b linked front rest bv)))
