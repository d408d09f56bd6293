-- ===== src/Vm/Vmmap/Map.antt =====
-- vmmap_map of vm/kernel/vm/vmmap.c: put a new mapping into an address space.
pub mod Pages
use usc_projects.Prelude.{
  ℕ, zero, suc, ◌+◌, ◌-◌, ◌*◌, ◌%◌, ◌≤◌, ◌<◌, ◌≡◌, refl, ◌⊎◌, inl, inr, Bool, true, false, not,
  ◌&&◌, ◌||◌, Option, none, some, List, [], ◌∷◌, leb, ltb, ◌==◌, if◌then◌else◌,
}
use usc_projects.Kernel.{Errno, eperm, Code, done, fail, Outcome, ok, panic, ◌>>=◌}
use usc_projects.Vm.Area.{Vmarea, page_size, page_low, page_high, add32}
use usc_projects.Vm.Vmmap.{Vmmap, Direction, vmmap_insert, vmmap_is_range_empty, vmmap_find_range}
use usc_projects.Vm.Vmmap.Remove.{vmmap_remove}

-- vmarea_alloc: an area of the slab with what its memory held, not linked to an address space.
pub vmarea_alloc : Vmarea → Vmmap → Option (Vmarea × Vmmap)
vmarea_alloc blank map =
    if map.free_areas == 0
    then none
    else some (record blank { vma_vmmap = false }, record map { free_areas = map.free_areas - 1 })

-- What vmmap_map is given and calls. `head` is the memory of the list's head read as an area,
-- `blank` that of a fresh area, `anon` the result of anon_create, and `file` the mmap operation of
-- the file's vnode, `none` for a NULL file.
pub record Request : Type 0 where
  pub head : Vmarea
  pub blank : Vmarea
  pub anon : Option ℕ
  pub file : Option (Vmarea → Errno ⊎ ℕ)
  pub lopage : ℕ
  pub npages : ℕ
  pub prot : ℕ
  pub flags : ℕ
  pub off : ℕ
  pub dir : Direction

-- The assertions on the arguments. PROT_READ, PROT_WRITE and PROT_EXEC are the three low bits,
-- MAP_SHARED and MAP_PRIVATE the two low bits of the flags.
unfoldable pub valid_request : Request → Bool
valid_request r =
    not (r.npages == 0)
    && leb r.prot 7
    && not (r.flags % 4 == 0)
    && (r.lopage == 0 || leb page_low r.lopage)
    && (r.lopage == 0 || leb (add32 r.lopage r.npages) page_high)
    && r.off % page_size == 0

-- The function returns a code early, or has an area that covers the pages.
pub data Chosen : Type 0 where
  refused : Code → Vmmap → Chosen
  chosen : Vmmap → Vmarea → Chosen

abbrev pub at_pages : ℕ → ℕ → Vmarea → Vmarea
at_pages lopage npages v = record v { vma_start = lopage; vma_end = add32 lopage npages }

-- `lopage` is 0: the pages that vmmap_find_range gives.
choose_found : Request → Vmmap → Option ℕ → Outcome Chosen
choose_found r map none = ok (refused (fail eperm) map)
choose_found r map (some p) = elim (vmarea_alloc r.blank map) [
  | none ↦ ok (refused (fail eperm) map)
  | some (v, m) ↦ ok (chosen m (at_pages p r.npages v))
]

-- `lopage` is given: the result of vmarea_alloc is used without a test.
choose_given : Request → Vmmap → Outcome Chosen
choose_given r map = elim (vmarea_alloc r.blank map) [
  | none ↦ panic
  | some (v, m) ↦ ok (chosen m (at_pages r.lopage r.npages v))
]

choose_removed : Request → Code × Vmmap → Outcome Chosen
choose_removed r (done zero, m) = choose_given r m
choose_removed r (code, m) = ok (refused code m)

pub choose : Request → Vmmap → Outcome Chosen
unfolding choose_found choose_given choose_removed
choose r map =
    if r.lopage == 0
    then vmmap_find_range r.head map r.npages r.dir >>= choose_found r map
    else if vmmap_is_range_empty map r.lopage r.npages
    then choose_given r map
    else vmmap_remove map r.lopage r.npages >>= choose_removed r

-- The address space, the objects that got a shadow object, and what `file->vn_mmobj` was set to.
pub record Mapping : Type 0 where
  pub map : Vmmap
  pub shadowed : Option ℕ
  pub vn_mmobj : Option ℕ

abbrev pub unchanged : Vmmap → Mapping
unchanged map = record { map = map; shadowed = none; vn_mmobj = none }

-- The area has its object. Only a plain MAP_PRIVATE gets a shadow object.
pub link_area : Request → Vmmap → Vmarea → ℕ → Option ℕ → Outcome (Code × Mapping)
link_area r map v obj vn_mmobj = vmmap_insert map (record v { vma_obj = some obj }) >>= λ m. ok (
  done 0,
  record { map = m; shadowed = if r.flags == 2 then some obj else none; vn_mmobj = vn_mmobj },
)

-- The memory object: a new anonymous one, or what the file's mmap operation gives.
pub back_area : Request → Vmmap → Vmarea → Outcome (Code × Mapping)
unfolding link_area
back_area r map v = elim r.file [
  | none ↦ elim r.anon [
    | none ↦ ok (fail eperm, unchanged map)
    | some obj ↦ link_area r map v obj none
  ]
  | some mmap ↦ elim (mmap v) [
    | inl e ↦ ok (fail e, unchanged map)
    | inr obj ↦ link_area r map v obj (some obj)
  ]
]

pub map_chosen : Request → Chosen → Outcome (Code × Mapping)
unfolding back_area
map_chosen r (refused code map) = ok (code, unchanged map)
map_chosen r (chosen map v) =
    back_area r map (record v { vma_prot = r.prot; vma_flags = r.flags; vma_off = r.off })

pub vmmap_map : Request → Vmmap → Outcome (Code × Mapping)
unfolding valid_request choose map_chosen
vmmap_map r map = if valid_request r then choose r map >>= map_chosen r else panic
