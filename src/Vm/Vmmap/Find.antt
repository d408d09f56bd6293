-- ===== src/Vm/Vmmap/Find.antt =====
-- vmmap_find_range of vm/kernel/vm/vmmap.c: the range that it gives is free.
use usc_projects.Prelude.{
  ℕ, ◌+◌, ◌≤◌, ◌<◌, ◌≡◌, refl, true, false, inl, inr, Option, none, some, List, [], ◌∷◌, arith, leb,
  Bool-cases, Option-cases,
}
use usc_projects.Kernel.{ok}
use usc_projects.Vm.Area.{Vmarea, mapped, sub32, page_low, page_high}
use usc_projects.Vm.Vmmap.{
  Vmmap, Direction, lohi, hilo, find_lohi, find_hilo, find_hilo_first, find_range, vmmap_find_range,
}
use usc_projects.Vm.Vmmap.Ranges.{IsFree}

-- The areas are not empty and follow one another from `low` up to the end of user memory.
abbrev pub IsLaidOut : ℕ → List Vmarea → Type 0
IsLaidOut low [] = low ≤ page_high
IsLaidOut low (a ∷ rest) =
    (low ≤ a.vma_start) × (a.vma_start < a.vma_end) × IsLaidOut a.vma_end rest

below-free :
    (low : ℕ) (areas : List Vmarea)
    → IsLaidOut low areas
    → (vfn : ℕ) → vfn < low
    → mapped areas vfn ≡ false
unfolding mapped
below-free low [] laid vfn under = refl
below-free low (a ∷ rest) laid vfn under = ground (arith, below-free a.vma_end rest laid.2 vfn)

low-le-high : (low : ℕ) (areas : List Vmarea) → IsLaidOut low areas → low ≤ page_high
low-le-high low [] laid = laid
low-le-high low (a ∷ rest) laid = omega (arith, low-le-high a.vma_end rest laid.2)

-- A range of free pages in user memory, from `low` on.
abbrev pub Fits : ℕ → ℕ → List Vmarea → ℕ → Type 0
Fits low npages areas p = (low ≤ p) × (p + npages ≤ page_high) × IsFree areas p (p + npages)

-- Areas behind a range that fits leave it free.
Fits-cons :
    (low npages p : ℕ) (a : Vmarea) (rest : List Vmarea)
    → low ≤ a.vma_start
    → a.vma_start < a.vma_end
    → Fits a.vma_end npages rest p
    → Fits low npages (a ∷ rest) p
unfolding mapped
Fits-cons low npages p a rest from full fit =
    (omega arith, fit.1, λ vfn above below. ground (arith, fit.2 vfn above below))

-- The gap below the first area.
Fits-gap :
    (low npages : ℕ) (a : Vmarea) (rest : List Vmarea)
    → IsLaidOut low (a ∷ rest)
    → leb npages (sub32 a.vma_start low) ≡ true
    → Fits low npages (a ∷ rest) low
Fits-gap low npages a rest laid room =
    let top = low-le-high a.vma_end rest laid.2 in
    let wide : low + npages ≤ a.vma_start = ground arith in
    (
      omega arith,
      omega arith,
      λ vfn above below.
          below-free a.vma_start (a ∷ rest) (omega arith, laid.1, laid.2) vfn (omega arith),
    )

module _ (head : Vmarea) (npages p : ℕ) where
  find_lohi-Fits :
      (low : ℕ) (areas : List Vmarea)
      → leb npages (sub32 page_high head.vma_end) ≡ false
      → IsLaidOut low areas
      → find_lohi head npages low areas ≡ some p
      → Fits low npages areas p
  unfolding find_lohi
  find_lohi-Fits low [] junk laid e = ground arith
  find_lohi-Fits low (a ∷ rest) junk laid e =
      elim (Bool-cases (leb npages (sub32 a.vma_start low))) [
        | inl room ↦
            let same : low ≡ p = ground arith in rw (← same) (Fits-gap low npages a rest laid room)
        | inr tight ↦
            Fits-cons low npages p a rest laid.0 laid.1
              (find_lohi-Fits a.vma_end rest junk laid.2 (rw tight at e))
      ]

module _ (npages p : ℕ) where
  find_hilo-Fits :
      (low : ℕ) (areas : List Vmarea)
      → IsLaidOut low areas
      → find_hilo npages areas ≡ some p
      → Fits low npages areas p
  unfolding find_hilo mapped
  find_hilo-Fits low [] laid e = cc
  find_hilo-Fits low (a ∷ []) laid e =
      Fits-cons low npages p a [] laid.0 laid.1
        (ground arith, ground (arith, laid), λ vfn above below. refl)
  find_hilo-Fits low (a ∷ b ∷ rest) laid e =
      Fits-cons low npages p a (b ∷ rest) laid.0 laid.1
        (elim (Option-cases (find_hilo npages (b ∷ rest))) [
          | inl gone ↦ elim (Bool-cases (leb npages (sub32 b.vma_start a.vma_end))) [
            | inl room ↦
                let same : a.vma_end ≡ p = ground (arith, gone) in
                rw (← same) (Fits-gap a.vma_end npages b rest laid.2 room)
            | inr tight ↦ absurd (ground (arith, gone))
          ]
          | inr (q, got) ↦ find_hilo-Fits a.vma_end (b ∷ rest) laid.2 (ground (arith, got))
        ])

-- Where `head`, the memory that is read as an area at the end of the list, leaves no room of its own.
abbrev pub HasNoRoom : Vmarea → ℕ → Type 0
HasNoRoom head npages =
    (leb npages (sub32 page_high head.vma_end) ≡ false)
    × (leb npages (sub32 head.vma_start page_low) ≡ false)

find_range-Fits :
    (head : Vmarea) (npages p : ℕ) (areas : List Vmarea) (dir : Direction)
    → HasNoRoom head npages
    → IsLaidOut page_low areas
    → find_range head npages areas dir ≡ some p
    → Fits page_low npages areas p
unfolding find_range
find_range-Fits head npages p [] dir junk laid e = cc
find_range-Fits head npages p (a ∷ rest) lohi junk laid e =
    find_lohi-Fits head npages p page_low (a ∷ rest) junk.0 laid e
find_range-Fits head npages p (a ∷ rest) hilo junk laid e =
    find_hilo-Fits npages p page_low (a ∷ rest) laid (first (find_hilo npages (a ∷ rest)) e)
  where
    first : (o : Option ℕ) → find_hilo_first head npages o ≡ some p → o ≡ some p
    first none h = ground (arith, junk.1)
    first (some q) h = h

-- In an address space whose areas are laid out in order, a range that vmmap_find_range returns, in
-- either direction, lies in user memory and none of its pages is mapped, provided that the memory
-- of the list's head, which the function reads as an area, has no room for the range.
pub find_range-IsFree :
    (head : Vmarea) (map : Vmmap) (npages p : ℕ) (dir : Direction)
    → HasNoRoom head npages
    → IsLaidOut page_low map.vmm_list
    → vmmap_find_range head map npages dir ≡ ok (some p)
    → (page_low ≤ p) × (p + npages ≤ page_high) × IsFree map.vmm_list p (p + npages)
unfolding vmmap_find_range
find_range-IsFree head map npages p dir junk laid e =
    find_range-Fits head npages p map.vmm_list dir junk laid (ground arith)
