-- ===== src/Vm/Vmmap/Remove/Tail.antt =====
-- vmmap_remove on a range that cuts off exactly the end of an area: the second part of the split
-- would be empty, and vmmap_insert asserts that it is not.
use usc_projects.Prelude.{
  ℕ, zero, suc, ◌+◌, ◌*◌, ◌≤◌, ◌<◌, ◌≡◌, refl, ◌⊎◌, true, false, some, List, [], ◌∷◌, ◌++◌, arith,
  leb, length, All, length-append,
}
use usc_projects.Kernel.{panic, ok}
use usc_projects.Vm.Area.{Vmarea, add32, page_low, page_high}
use usc_projects.Vm.Vmmap.{Vmmap, insertable}
use usc_projects.Vm.Vmmap.Remove.{
  Cursor, keep, left_part, right_part, cursor_insert, split_area, remove_at, remove_loop,
  open_cursor, vmmap_remove,
}

-- The area has no page of the range.
abbrev pub Untouched : ℕ → ℕ → Vmarea → Type 0
Untouched lo hi a = (a.vma_end ≤ lo) ⊎ (hi ≤ a.vma_start)

module _ (lo hi : ℕ) (range : lo < hi) (a : Vmarea) (obj : ℕ) (low : page_low ≤ a.vma_start)
    (high : a.vma_end ≤ page_high) (starts : a.vma_start < lo) (ends : a.vma_end ≡ hi)
    (has : a.vma_obj ≡ some obj) where
  left-insertable : insertable (left_part lo a) ≡ true
  unfolding insertable
  left-insertable = ground arith

  right-not-insertable : insertable (right_part hi a) ≡ false
  unfolding insertable
  right-not-insertable = ground arith

  split-panic : (c : Cursor) → 2 ≤ c.free_areas → split_area lo hi a c ≡ panic
  unfolding split_area insertable
  split-panic c space =
      let enough : leb c.free_areas 1 ≡ false = ground arith in
      rw (enough, has, cursor_insert, left-insertable, right-not-insertable)

  remove_at-panic : (c : Cursor) → 2 ≤ c.free_areas → remove_at lo hi a c ≡ panic
  unfolding remove_at
  remove_at-panic c space = ground (arith, split-panic c space)

  remove_at-keep :
      (b : Vmarea) (c : Cursor)
      → b.vma_start < b.vma_end
      → Untouched lo hi b
      → remove_at lo hi b c ≡ ok (true, keep b c)
  unfolding remove_at
  remove_at-keep b c full apart = ground arith

  loop-panic :
      (fuel : ℕ) (before after passed : List Vmarea) (free : ℕ) (refs : List ℕ)
      → All (λ b. (b.vma_start < b.vma_end) × Untouched lo hi b) before
      → length before < fuel
      → 2 ≤ free
      → remove_loop fuel lo hi
          (record { passed = passed; ahead = before ++ a ∷ after; free_areas = free; refs = refs })
        ≡ panic
  unfolding remove_loop keep
  loop-panic zero before after passed free refs apart rounds space = absurd (omega arith)
  loop-panic (suc fuel) [] after passed free refs apart rounds space =
      let c : Cursor = record { passed = passed; ahead = after; free_areas = free; refs = refs } in
      rw (remove_at-panic c space) refl
  loop-panic (suc fuel) (b ∷ before) after passed free refs apart rounds space =
      let c : Cursor = record {
        passed = passed;
        ahead = before ++ a ∷ after;
        free_areas = free;
        refs = refs;
      } in
      rw (remove_at-keep b c apart.0.0 apart.0.1)
        (loop-panic fuel before after (passed ++ b ∷ []) free refs apart.1 (omega arith) space)

  -- Unmapping the last pages of an area but not its first stops the kernel: if the range ends where
  -- an area of user memory with a memory object ends and starts behind that area's first page, the
  -- areas before it in the list have no page of the range, and the allocator has two areas, then
  -- vmmap_remove fails an assertion.
  pub vmmap_remove-panic :
      (map : Vmmap) (npages : ℕ) (before after : List Vmarea)
      → map.vmm_list ≡ before ++ a ∷ after
      → lo + npages ≡ hi
      → All (λ b. (b.vma_start < b.vma_end) × Untouched lo hi b) before
      → 2 ≤ map.free_areas
      → vmmap_remove map lo npages ≡ panic
  unfolding vmmap_remove open_cursor
  vmmap_remove-panic map npages before after e sum apart space =
      let total : add32 lo npages ≡ hi = omega arith in
      rw (total, e)
        (loop-panic (3 * length (before ++ a ∷ after) + 1) before after [] map.free_areas map.refs
          apart (omega (arith, length-append before (a ∷ after))) space)
