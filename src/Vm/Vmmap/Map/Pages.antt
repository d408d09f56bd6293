-- ===== src/Vm/Vmmap/Map/Pages.antt =====
-- What vmmap_map of vm/kernel/vm/vmmap.c maps when it is told where.
use usc_projects.Prelude.{
  ℕ, ◌+◌, ◌-◌, ◌*◌, ◌≤◌, ◌<◌, ◌≡◌, refl, ◌∙◌, ap, inl, inr, Bool, true, false, not, ◌&&◌, ◌||◌,
  Option, ◌⊎◌, none, some, List, leb, ltb, ◌==◌, length, All, Bool-cases, arith,
}
use usc_projects.Kernel.{
  Errno, Code, done, ok, ◌>>=◌, Returns, returns, Returns-bind, Returns-mono, bind_assoc,
}
use usc_projects.Vm.Area.{Vmarea, covers, mapped, page_low, page_high, add32}
use usc_projects.Vm.Vmmap.{Vmmap, vmmap_insert, vmmap_is_range_empty}
use usc_projects.Vm.Vmmap.Insert.{mapped-insert_area, insertable_of_area}
use usc_projects.Vm.Vmmap.Remove.{vmmap_remove}
use usc_projects.Vm.Vmmap.Remove.Place.{IsRemovable}
use usc_projects.Vm.Vmmap.Remove.Step.{vmmap_remove-mapped}
use usc_projects.Vm.Vmmap.Map.{
  Request, valid_request, chosen, at_pages, vmarea_alloc, choose_given, choose_removed, choose,
  Mapping, link_area, back_area, map_chosen, vmmap_map,
}

-- Pages of the range, or pages that were mapped.
abbrev with_range : ℕ → ℕ → List Vmarea → ℕ → Bool
with_range lo hi areas vfn = (leb lo vfn && ltb vfn hi) || mapped areas vfn

override : (c m : Bool) → (c || (m && not c)) ≡ (c || m)
override c m = ground arith

-- The request gets the memory object `obj`: it is for anonymous memory, or the mmap operation of
-- the file gives the object, which the vnode then keeps.
abbrev pub IsBacked : Request → ℕ → Option ℕ → Type 0
IsBacked r obj vn =
    ((r.file ≡ none) × (r.anon ≡ some obj) × (vn ≡ none))
    ⊎ ((mmap : Vmarea → Errno ⊎ ℕ) × (r.file ≡ some mmap)
        × ((v : Vmarea) → mmap v ≡ inr obj)
        × (vn ≡ some obj))

module _ (r : Request) (obj : ℕ) (vn : Option ℕ) (backed : IsBacked r obj vn)
    (fits : valid_request r ≡ true) (low : page_low ≤ r.lopage) (pos : 0 < r.npages)
    (high : r.lopage + r.npages ≤ page_high) where
  Done : (ℕ → Bool) → Code × Mapping → Type 0
  Done pages (code, m) = (code ≡ done 0) × ((vfn : ℕ) → mapped m.map.vmm_list vfn ≡ pages vfn)

  -- The area that is put in, before it has its object.
  abbrev fresh_area : Vmarea
  fresh_area = record (at_pages r.lopage r.npages (record r.blank { vma_vmmap = false })) {
    vma_prot = r.prot;
    vma_flags = r.flags;
    vma_off = r.off;
  }

  choose_given-ok :
      (map : Vmmap)
      → 0 < map.free_areas
      → choose_given r map
        ≡ ok (
            chosen
              (record map { free_areas = map.free_areas - 1 })
              (at_pages r.lopage r.npages (record r.blank { vma_vmmap = false })))
  unfolding choose_given vmarea_alloc
  choose_given-ok map space =
      let spare : (map.free_areas == 0) ≡ false = ground arith in
      rw (spare, vmarea_alloc, choose_given)

  back_area-link : (map : Vmmap) (v : Vmarea) → back_area r map v ≡ link_area r map v obj vn
  unfolding back_area
  back_area-link map v = elim backed [
    | inl (anon, fresh, is) ↦ rw (anon, back_area, fresh, is)
    | inr (mmap, file, gives, is) ↦ rw (file, back_area, gives v, is)
  ]

  fresh-covers :
      (vfn : ℕ) → covers fresh_area vfn ≡ (leb r.lopage vfn && ltb vfn (r.lopage + r.npages))
  fresh-covers vfn = let sum : add32 r.lopage r.npages ≡ r.lopage + r.npages = omega arith in rw sum

  link_area-Done :
      (map : Vmmap)
      → Returns
          (Done (with_range r.lopage (r.lopage + r.npages) map.vmm_list))
          (link_area r map fresh_area obj vn)
  unfolding link_area Done vmmap_insert
  link_area-Done map =
      let sum : add32 r.lopage r.npages ≡ r.lopage + r.npages = omega arith in
      let v : Vmarea = record fresh_area { vma_obj = some obj } in
      rw (insertable_of_area v (omega arith) low (omega arith) refl) (
        returns (
          refl,
          λ vfn.
              mapped-insert_area (record v { vma_vmmap = true }) vfn map.vmm_list
              ∙ ap (λ b. b || mapped map.vmm_list vfn) (fresh-covers vfn),
        ))

  map_given :
      (map : Vmmap)
      → 0 < map.free_areas
      → Returns
          (Done (with_range r.lopage (r.lopage + r.npages) map.vmm_list))
          (choose_given r map >>= map_chosen r)
  unfolding map_chosen
  map_given map space =
      rw
        (
          choose_given-ok map space,
          map_chosen,
          back_area-link (record map { free_areas = map.free_areas - 1 }) fresh_area,
        )
        (link_area-Done (record map { free_areas = map.free_areas - 1 }))

  map_removed :
      (map : Vmmap)
      → All (IsRemovable r.lopage (r.lopage + r.npages)) map.vmm_list
      → 2 * length map.vmm_list < map.free_areas
      → Returns
          (Done (with_range r.lopage (r.lopage + r.npages) map.vmm_list))
          (vmmap_remove map r.lopage r.npages >>= choose_removed r >>= map_chosen r)
  unfolding choose_removed Done
  map_removed map sound space =
      rw (bind_assoc (vmmap_remove map r.lopage r.npages) (choose_removed r) (map_chosen r)) (
        Returns-bind (vmmap_remove-mapped map r.lopage r.npages pos high sound (omega arith))
          (λ (code, m) (ended, spare, shows). rw ended (
            Returns-mono (map_given m (omega arith)) (λ (code', mapping) (ended', shows'). (
              ended',
              λ vfn.
                  shows' vfn
                  ∙ ap (λ b. (leb r.lopage vfn && ltb vfn (r.lopage + r.npages)) || b) (shows vfn)
                  ∙ override (leb r.lopage vfn && ltb vfn (r.lopage + r.npages))
                      (mapped map.vmm_list vfn),
            )))))

  -- Mapping anonymous memory, or a file whose mmap operation gives an object, at given pages of
  -- user memory, with arguments that meet the assertions, returns 0, and then exactly the pages of the range and the pages that were mapped
  -- before are mapped. The areas must be such that vmmap_remove can cut the range out, and the
  -- allocator needs two areas for each area and one more.
  pub vmmap_map-mapped :
      (map : Vmmap)
      → All (IsRemovable r.lopage (r.lopage + r.npages)) map.vmm_list
      → 2 * length map.vmm_list < map.free_areas
      → Returns
          (λ (code, m).
            (code ≡ done 0)
            × ((vfn : ℕ)
                → mapped m.map.vmm_list vfn ≡ (
                    (leb r.lopage vfn && ltb vfn (r.lopage + r.npages))
                    || mapped map.vmm_list vfn)))
          (vmmap_map r map)
  unfolding vmmap_map Done
  vmmap_map-mapped map sound space =
      let given : (r.lopage == 0) ≡ false = ground arith in
      elim (Bool-cases (vmmap_is_range_empty map r.lopage r.npages)) [
        | inl free ↦ rw (fits, choose, given, free) (map_given map (omega arith))
        | inr taken ↦ rw (fits, choose, given, taken) (map_removed map sound space)
      ]
