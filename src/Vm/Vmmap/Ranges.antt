-- ===== src/Vm/Vmmap/Ranges.antt =====
-- vmmap_is_range_empty and vmmap_find_range of vm/kernel/vm/vmmap.c against the pages that are mapped.
use usc_projects.Prelude.{
  ℕ, ◌+◌, ◌^◌, ◌≤◌, ◌<◌, ◌≡◌, refl, ◌↔◌, true, false, inl, inr, List, [], ◌∷◌, arith, ltb, some,
  suc, ◌⊎◌, if◌then◌else◌, All, Bool-cases,
}
use usc_projects.Vm.Area.{Vmarea, covers, mapped, add32}
use usc_projects.Vm.Vmmap.{
  Vmmap, overlaps, range_empty, vmmap_is_range_empty, lookup_area, vmmap_lookup,
}

-- The area holds a page. (vmmap_insert asserts it, and vmmap_remove can break it.)
abbrev pub IsNonempty : Vmarea → Type 0
IsNonempty a = a.vma_start < a.vma_end

-- No page from `start` up to `end` is in an area.
abbrev pub IsFree : List Vmarea → ℕ → ℕ → Type 0
IsFree areas start end = (vfn : ℕ) → start ≤ vfn → vfn < end → mapped areas vfn ≡ false

module _ (a : Vmarea) (start end : ℕ) where
  -- The first page that the area and the range share.
  abbrev shared_page : ℕ
  shared_page = if ltb a.vma_start start then start else a.vma_start

  overlaps-shared :
      IsNonempty a
      → start < end
      → overlaps a start end ≡ true
      → (covers a shared_page ≡ true) × (start ≤ shared_page) × (shared_page < end)
  unfolding overlaps
  overlaps-shared full range hit = ground arith

  not-overlaps-covers :
      (vfn : ℕ) → overlaps a start end ≡ false → start ≤ vfn → vfn < end → covers a vfn ≡ false
  unfolding overlaps
  not-overlaps-covers vfn miss from below = ground arith

module _ (start end : ℕ) (range : start < end) where
  IsFree-of_range_empty :
      (areas : List Vmarea) → range_empty areas start end ≡ true → IsFree areas start end
  unfolding range_empty mapped
  IsFree-of_range_empty [] e vfn from below = refl
  IsFree-of_range_empty (a ∷ rest) e vfn from below = elim (Bool-cases (overlaps a start end)) [
    | inl hit ↦ ground (arith, hit)
    | inr miss ↦
        rw (not-overlaps-covers a start end vfn miss from below)
          (IsFree-of_range_empty rest (rw miss at e) vfn from below)
  ]

  range_empty_of_free :
      (areas : List Vmarea)
      → All IsNonempty areas
      → IsFree areas start end
      → range_empty areas start end ≡ true
  unfolding range_empty mapped
  range_empty_of_free [] full free = refl
  range_empty_of_free (a ∷ rest) full free = elim (Bool-cases (overlaps a start end)) [
    | inl hit ↦
        let shared = overlaps-shared a start end full.0 range hit in
        ground (arith, hit, shared, free (shared_page a start end))
    | inr miss ↦
        rw miss
          (range_empty_of_free rest full.1 (λ vfn from below. ground (arith, free vfn from below)))
  ]

-- In an address space without empty areas, vmmap_is_range_empty says yes exactly when no page of a
-- range of at least one page is mapped, for a range that does not pass the last page number.
pub is_range_empty_iff :
    (map : Vmmap) (startvfn npages : ℕ)
    → All IsNonempty map.vmm_list
    → 0 < npages
    → startvfn + npages < 2 ^ 32
    → (vmmap_is_range_empty map startvfn npages ≡ true)
      ↔ IsFree map.vmm_list startvfn (startvfn + npages)
unfolding vmmap_is_range_empty
is_range_empty_iff map startvfn npages full pos fits =
    let sum : add32 startvfn npages ≡ startvfn + npages = omega arith in
    rw sum (
      IsFree-of_range_empty startvfn (startvfn + npages) (omega arith) map.vmm_list,
      range_empty_of_free startvfn (startvfn + npages) (omega arith) map.vmm_list full,
    )

module _ (vfn : ℕ) where
  lookup-mapped :
      (areas : List Vmarea) (a : Vmarea) → lookup_area areas vfn ≡ some a → mapped areas vfn ≡ true
  unfolding lookup_area mapped
  lookup-mapped [] a e = cc
  lookup-mapped (b ∷ rest) a e = elim (Bool-cases (covers b vfn)) [
    | inl hit ↦ rw hit
    | inr miss ↦ rw miss (lookup-mapped rest a (rw miss at e))
  ]

  -- The page is in the range, or the range is empty and starts behind the page.
  abbrev pub Meets : ℕ → ℕ → Type 0
  Meets start end = ((start ≤ vfn) × (vfn < end)) ⊎ ((start ≡ suc vfn) × (end ≡ suc vfn))

  overlaps-covered :
      (a : Vmarea) (start end : ℕ)
      → covers a vfn ≡ true
      → Meets start end
      → overlaps a start end ≡ true
  unfolding overlaps
  overlaps-covered a start end hit meets = ground arith

  -- A range that meets a mapped page is found taken.
  pub lookup-range_empty :
      (areas : List Vmarea) (a : Vmarea) (start end : ℕ)
      → lookup_area areas vfn ≡ some a
      → Meets start end
      → range_empty areas start end ≡ false
  unfolding lookup_area range_empty
  lookup-range_empty [] a start end e meets = cc
  lookup-range_empty (b ∷ rest) a start end e meets = elim (Bool-cases (covers b vfn)) [
    | inl hit ↦ rw (overlaps-covered b start end hit meets)
    | inr miss ↦
        let rest_taken = lookup-range_empty rest a start end (rw miss at e) meets in
        elim (Bool-cases (overlaps b start end)) [
          | inl here ↦ rw here
          | inr there ↦ rw there rest_taken
        ]
  ]

-- vmmap_is_range_empty says no of a range that meets a mapped page.
pub lookup-is_range_empty :
    (map : Vmmap) (vfn : ℕ) (a : Vmarea) (startvfn npages : ℕ)
    → vmmap_lookup map vfn ≡ some a
    → Meets vfn startvfn (add32 startvfn npages)
    → vmmap_is_range_empty map startvfn npages ≡ false
unfolding vmmap_is_range_empty vmmap_lookup
lookup-is_range_empty map vfn a startvfn npages found meets =
    lookup-range_empty vfn map.vmm_list a startvfn (add32 startvfn npages) found meets
