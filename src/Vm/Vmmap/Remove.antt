-- ===== src/Vm/Vmmap/Remove.antt =====
-- vmmap_remove of vm/kernel/vm/vmmap.c: unmap the pages from `lo` up to `hi`.
pub mod Place
pub mod Step
pub mod Tail
use usc_projects.Prelude.{
  ℕ, zero, suc, ◌+◌, ◌-◌, ◌*◌, Bool, true, false, ◌&&◌, none, some, List, [], ◌∷◌, ◌++◌, ltb, leb,
  if◌then◌else◌, length,
}
use usc_projects.Kernel.{Code, done, fail, eperm, Outcome, ok, panic, out_of_fuel, ◌>>=◌}
use usc_projects.Vm.Area.{Vmarea, add32, sub32}
use usc_projects.Vm.Vmmap.{Vmmap, insert_after_smaller, insertable}

-- The list while it is walked: the areas that the walk has passed and those from `__next` on. (The
-- area at hand is in neither.) An area that the body inserts is visited if it lands among the
-- second.
pub record Cursor : Type 0 where
  pub passed : List Vmarea
  pub ahead : List Vmarea
  pub free_areas : ℕ
  pub refs : List ℕ

pub open_cursor : Vmmap → Cursor
open_cursor map = record {
  passed = [];
  ahead = map.vmm_list;
  free_areas = map.free_areas;
  refs = map.refs;
}

pub close_cursor : Cursor → Vmmap
close_cursor c = record { vmm_list = c.passed ++ c.ahead; free_areas = c.free_areas; refs = c.refs }

-- The area at hand stays in the list.
pub keep : Vmarea → Cursor → Cursor
keep a c = record c { passed = c.passed ++ a ∷ [] }

-- vmmap_insert on the list that is being walked.
pub place : Vmarea → Cursor → Cursor
place v c = elim (insert_after_smaller v c.passed) [
  | some p ↦ record c { passed = p }
  | none ↦ elim (insert_after_smaller v c.ahead) [
    | some r ↦ record c { ahead = r }
    | none ↦ record c { passed = v ∷ c.passed }
  ]
]

pub cursor_insert : Vmarea → Cursor → Outcome Cursor
unfolding place
cursor_insert v c = if insertable v then ok (place (record v { vma_vmmap = true }) c) else panic

-- The two parts of an area that the range splits. They are fresh, so not linked to an address space.
abbrev pub left_part : ℕ → Vmarea → Vmarea
left_part lo a = record a { vma_end = lo; vma_vmmap = false }

abbrev pub right_part : ℕ → Vmarea → Vmarea
right_part hi a = record a {
  vma_start = hi;
  vma_off = add32 a.vma_off (sub32 hi a.vma_start);
  vma_vmmap = false;
}

-- Case 1. With less than two free areas the function gives up, and an area that it got is lost.
-- The area that is split is taken off the list and never given back to the allocator.
pub split_area : ℕ → ℕ → Vmarea → Cursor → Outcome (Bool × Cursor)
unfolding keep cursor_insert
split_area lo hi a c =
    if leb c.free_areas 1
    then ok (false, keep a (record c { free_areas = 0 }))
    else elim a.vma_obj [
      | none ↦ panic
      | some obj ↦ do
        let taken = record c { free_areas = c.free_areas - 2; refs = obj ∷ c.refs }
        c' ← cursor_insert (left_part lo a) taken
        c'' ← cursor_insert (right_part hi a) c'
        ok (true, c'')
    ]

-- The body of the loop. `false` stops the function with -1.
pub remove_at : ℕ → ℕ → Vmarea → Cursor → Outcome (Bool × Cursor)
remove_at lo hi a c =
    if ltb a.vma_start lo && ltb lo a.vma_end
    then if ltb a.vma_start hi && leb hi a.vma_end
      then split_area lo hi a c
      else ok (true, keep (record a { vma_end = lo }) c)
    else if ltb a.vma_start hi && leb hi a.vma_end
    then ok (
      true,
      keep (record a { vma_start = hi; vma_off = add32 a.vma_off (sub32 hi a.vma_start) }) c,
    )
    else if leb lo a.vma_start && leb a.vma_end hi
    then ok (true, record c { free_areas = c.free_areas + 1 })
    else ok (true, keep a c)

remove_next : (Cursor → Outcome (Code × Vmmap)) → Bool × Cursor → Outcome (Code × Vmmap)
remove_next loop (true, c) = loop c
remove_next loop (false, c) = ok (fail eperm, close_cursor c)

pub remove_loop : ℕ → ℕ → ℕ → Cursor → Outcome (Code × Vmmap)
unfolding remove_next
remove_loop zero lo hi c = out_of_fuel
remove_loop (suc fuel) lo hi c = elim c.ahead [
  | [] ↦ ok (done 0, close_cursor c)
  | a ∷ rest ↦
      remove_at lo hi a (record c { ahead = rest })
      >>= remove_next (λ c'. remove_loop fuel lo hi c')
]

-- A split adds at most two areas to those ahead, so three rounds for each area are enough.
pub vmmap_remove : Vmmap → ℕ → ℕ → Outcome (Code × Vmmap)
vmmap_remove map lopage npages =
    remove_loop (3 * length map.vmm_list + 1) lopage (add32 lopage npages) (open_cursor map)
