-- ===== src/Vm/Vmmap/Remove/Step.antt =====
-- The loop of vmmap_remove keeps what is mapped outside the range, and ends.
use usc_projects.Prelude.{
  ℕ, zero, suc, ◌+◌, ◌*◌, ◌≤◌, ◌<◌, ◌≡◌, refl, ◌∙◌, ap, ◌-◌, Bool, true, false, not, ◌&&◌, ◌||◌,
  List, [], ◌∷◌, ◌++◌, arith, ltb, leb, length, All, Option-cases, Bool-cases, inl, inr,
}
use usc_projects.Kernel.{Returns, returns, Returns-bind, Returns-mono, Code, done}
use usc_projects.Vm.Area.{Vmarea, covers, mapped, page_high, add32, sub32}
use usc_projects.Vm.Vmmap.{Vmmap, insertable}
use usc_projects.Vm.Vmmap.Remove.{
  Cursor, keep, cursor_insert, left_part, right_part, close_cursor, split_area, remove_at,
  open_cursor, remove_loop, vmmap_remove,
}
use usc_projects.Vm.Vmmap.Remove.Place.{
  outside, final, splits, count_splits, IsRemovable, IsReady, IsPlaceable, final-place,
  place-IsReady, place-spare,
}

mapped-append :
    (xs ys : List Vmarea) (vfn : ℕ) → mapped (xs ++ ys) vfn ≡ (mapped xs vfn || mapped ys vfn)
unfolding mapped
mapped-append [] ys vfn = refl
mapped-append (x ∷ xs) ys vfn = ground (arith, mapped-append xs ys vfn)

shuffle : (p q r : Bool) → ((p || (q || false)) || r) ≡ (q || (p || r))
shuffle p q r = ground arith

distribute : (c o p r : Bool) → ((c && o) || (p || (r && o))) ≡ (p || ((c || r) && o))
distribute c o p r = ground arith

count_splits-le : (lo hi : ℕ) (areas : List Vmarea) → count_splits lo hi areas ≤ length areas
count_splits-le lo hi [] = omega arith
count_splits-le lo hi (a ∷ rest) = ground (arith, count_splits-le lo hi rest)

module _ (lo hi : ℕ) where
  -- What one round does to the area at hand: it is done, enough is left for the rest, and what is
  -- mapped in the end is what the area and the areas ahead have outside the range.
  abbrev Stepped : ℕ → Vmarea → Cursor → Bool × Cursor → Type 0
  Stepped fuel a c (more, c') =
      (more ≡ true)
      × (c.free_areas + 2 * count_splits lo hi c'.ahead
          ≤ c'.free_areas + 2 * count_splits lo hi (a ∷ c.ahead))
      × IsReady lo hi fuel c'
      × ((vfn : ℕ)
          → final lo hi c' vfn ≡ ((covers a vfn && outside lo hi vfn) || final lo hi c vfn))

  insert-final :
      (v : Vmarea) (fuel : ℕ) (c : Cursor)
      → insertable v ≡ true
      → IsPlaceable lo hi (record v { vma_vmmap = true })
      → IsReady lo hi fuel c
      → Returns
          (λ c'.
            ((c'.free_areas ≡ c.free_areas)
              × (count_splits lo hi c'.ahead ≡ count_splits lo hi c.ahead))
            × IsReady lo hi (suc fuel) c'
            × ((vfn : ℕ) → final lo hi c' vfn ≡ (covers v vfn || final lo hi c vfn)))
          (cursor_insert v c)
  unfolding cursor_insert
  insert-final v fuel c fits fit ready = rw fits (
      returns (
        place-spare lo hi _ fit c,
        place-IsReady lo hi _ fit fuel c ready,
        final-place lo hi _ fit c,
      ))

  IsReady-weaken : (m n : ℕ) (c : Cursor) → m ≤ n → IsReady lo hi m c → IsReady lo hi n c
  IsReady-weaken m n c le r = record {
    removable = r.removable;
    rounds = omega arith;
    areas = r.areas;
  }

  module _ (range : lo < hi) (a : Vmarea) (fuel : ℕ) (c : Cursor)
      (ready : IsReady lo hi (suc fuel) (record c { ahead = a ∷ c.ahead })) where
    good : IsRemovable lo hi a
    good = ready.removable.0

    rest-IsReady : IsReady lo hi fuel c
    rest-IsReady = record {
      removable = ready.removable.1;
      rounds = omega (arith, ready.rounds);
      areas = omega (arith, ready.areas);
    }

    -- The area stays as it is or shortened, and then lies outside the range.
    kept :
        (b : Vmarea)
        → ((vfn : ℕ) → covers b vfn ≡ (covers a vfn && outside lo hi vfn))
        → Stepped fuel a c (true, keep b c)
    unfolding keep mapped
    kept b same = (
      refl,
      omega arith,
      record {
        removable = ready.removable.1;
        rounds = omega (arith, ready.rounds);
        areas = omega (arith, ready.areas);
      },
      λ vfn.
          rw (mapped-append c.passed (b ∷ []) vfn, same vfn)
            (shuffle (mapped c.passed vfn) (covers a vfn && outside lo hi vfn)
              (mapped c.ahead vfn && outside lo hi vfn)),
    )

    module _ (left : a.vma_start < lo) (right : hi < a.vma_end) where
      left-IsPlaceable : IsPlaceable lo hi (record (left_part lo a) { vma_vmmap = true })
      left-IsPlaceable = record {
        removable = record {
          area = record {
            nonempty = left;
            above = good.area.above;
            below = omega (arith, good.area.below);
          };
          object = good.object;
          not_tail = λ _. omega arith;
        };
        clear = λ vfn. ground arith;
        whole = ground arith;
      }

      right-IsPlaceable : IsPlaceable lo hi (record (right_part hi a) { vma_vmmap = true })
      right-IsPlaceable = record {
        removable = record {
          area = record {
            nonempty = right;
            above = omega (arith, good.area.above);
            below = good.area.below;
          };
          object = good.object;
          not_tail = λ _. omega arith;
        };
        clear = λ vfn. ground arith;
        whole = ground arith;
      }

      left-insertable : insertable (left_part lo a) ≡ true
      unfolding insertable
      left-insertable = ground (arith, good.area.above, good.area.below)

      right-insertable : insertable (right_part hi a) ≡ true
      unfolding insertable
      right-insertable = ground (arith, good.area.above, good.area.below)

      parts-cover :
          (vfn : ℕ) (rest : Bool)
          → (covers (right_part hi a) vfn || (covers (left_part lo a) vfn || rest))
            ≡ ((covers a vfn && outside lo hi vfn) || rest)
      parts-cover vfn rest = ground arith

      -- Twice the splits ahead, and the areas themselves.
      spare : ℕ
      spare = suc (length c.ahead + 2 * count_splits lo hi c.ahead)

      split-Stepped : Returns (Stepped fuel a c) (split_area lo hi a c)
      unfolding split_area spare
      split-Stepped = elim (Option-cases a.vma_obj) [
        | inl null ↦ absurd (good.object null)
        | inr (obj, got) ↦
            let one : splits lo hi a ≡ 1 = ground arith in
            let taken = record c { free_areas = c.free_areas - 2; refs = obj ∷ c.refs } in
            let enough : leb c.free_areas 1 ≡ false = ground (arith, ready.areas) in
            rw (enough, got)
              (Returns-bind
                (insert-final (left_part lo a) spare taken left-insertable left-IsPlaceable
                  (record {
                    removable = ready.removable.1;
                    rounds = omega arith;
                    areas = omega (arith, ready.areas);
                  }))
                λ c' (free', ready', f').
                  Returns-bind
                    (insert-final (right_part hi a) (suc spare) c' right-insertable
                      right-IsPlaceable ready')
                    λ c'' (free'', ready'', f''). returns (
                      refl,
                      omega arith,
                      IsReady-weaken (suc (suc spare)) fuel c'' (omega (arith, ready.rounds))
                          ready'',
                      λ vfn.
                          f'' vfn
                          ∙ ap (λ b. covers (right_part hi a) vfn || b) (f' vfn)
                          ∙ parts-cover vfn (final lo hi c vfn),
                    ))
      ]

    -- One round, whatever the area.
    remove_at-Stepped : Returns (Stepped fuel a c) (remove_at lo hi a c)
    unfolding remove_at
    remove_at-Stepped = elim (Bool-cases (ltb a.vma_start lo && ltb lo a.vma_end)) [
      | inl starts ↦ elim (Bool-cases (ltb a.vma_start hi && leb hi a.vma_end)) [
        | inl ends ↦
            rw (starts, ends) (split-Stepped (ground arith) (ground (arith, good.not_tail)))
        | inr ends ↦
            rw (starts, ends) (returns (kept (record a { vma_end = lo }) (λ vfn. ground arith)))
      ]
      | inr starts ↦ elim (Bool-cases (ltb a.vma_start hi && leb hi a.vma_end)) [
        | inl ends ↦
            rw (starts, ends)
              (returns (
                kept (record a { vma_start = hi; vma_off = add32 a.vma_off (sub32 hi a.vma_start) })
                  (λ vfn. ground arith)))
        | inr ends ↦ elim (Bool-cases (leb lo a.vma_start && leb a.vma_end hi)) [
          | inl within ↦
              rw (starts, ends, within)
                (let gone : (vfn : ℕ) → (covers a vfn && outside lo hi vfn) ≡ false =
                    λ vfn. ground arith in
                  returns (
                    refl,
                    omega arith,
                    record {
                      removable = ready.removable.1;
                      rounds = omega (arith, ready.rounds);
                      areas = omega (arith, ready.areas);
                    },
                    λ vfn. rw (gone vfn) refl,
                  ))
          | inr apart ↦ rw (starts, ends, apart) (returns (kept a (λ vfn. ground arith)))
        ]
      ]
    ]

  Finished : Cursor → Code × Vmmap → Type 0
  Finished c (code, m) =
      (code ≡ done 0)
      × (c.free_areas ≤ m.free_areas + 2 * count_splits lo hi c.ahead)
      × ((vfn : ℕ) → mapped m.vmm_list vfn ≡ final lo hi c vfn)

  -- The cursor in its parts, so that a round computes.
  remove_loop-Finished :
      (range : lo < hi) (fuel : ℕ) (ahead passed : List Vmarea) (free : ℕ) (refs : List ℕ)
      → let c : Cursor = record {
        passed = passed;
        ahead = ahead;
        free_areas = free;
        refs = refs;
      } in
        IsReady lo hi fuel c → Returns (Finished c) (remove_loop fuel lo hi c)
  unfolding remove_loop Finished close_cursor mapped
  remove_loop-Finished range zero ahead passed free refs ready =
      absurd (omega (arith, ready.rounds))
  remove_loop-Finished range (suc fuel) [] passed free refs ready =
      returns (refl, omega arith, λ vfn. mapped-append passed [] vfn)
  remove_loop-Finished range (suc fuel) (a ∷ rest) passed free refs ready =
      let c : Cursor = record { passed = passed; ahead = rest; free_areas = free; refs = refs } in
      Returns-bind (remove_at-Stepped range a fuel c ready) (λ (more, c') (on, spent, ready', same).
        rw on (
          Returns-mono
            (remove_loop-Finished range fuel c'.ahead c'.passed c'.free_areas c'.refs ready')
            (λ (code, m) (ended, kept, shows). (
              ended,
              omega arith,
              λ vfn.
                  shows vfn
                  ∙ same vfn
                  ∙ distribute (covers a vfn) (outside lo hi vfn) (mapped passed vfn)
                      (mapped rest vfn),
            ))))

-- Unmapping a range of at least one page that ends within user memory returns 0, and then exactly
-- the pages outside the range are mapped that were mapped before, if every area lies in user memory
-- and has a memory object, the range does not cut off exactly the end of an area, and the allocator
-- has two free areas for every area. At most two free areas for every area are used up.
pub vmmap_remove-mapped :
    (map : Vmmap) (lopage npages : ℕ)
    → 0 < npages
    → lopage + npages ≤ page_high
    → All (IsRemovable lopage (lopage + npages)) map.vmm_list
    → 2 * length map.vmm_list ≤ map.free_areas
    → Returns
        (λ (code, m).
          (code ≡ done 0)
          × (map.free_areas ≤ m.free_areas + 2 * length map.vmm_list)
          × ((vfn : ℕ)
              → mapped m.vmm_list vfn
                ≡ (mapped map.vmm_list vfn && not (leb lopage vfn && ltb vfn (lopage + npages)))))
        (vmmap_remove map lopage npages)
unfolding vmmap_remove open_cursor Finished mapped
vmmap_remove-mapped map lopage npages pos high sound space =
    let few = count_splits-le lopage (lopage + npages) map.vmm_list in
    let sum : add32 lopage npages ≡ lopage + npages = omega arith in
    rw sum (
      Returns-mono
        (remove_loop-Finished lopage (lopage + npages) (omega arith) (3 * length map.vmm_list + 1)
          map.vmm_list [] map.free_areas map.refs
          (record { removable = sound; rounds = omega arith; areas = omega arith }))
        (λ (code, m) (ended, spare, shows). (ended, omega arith, shows)))
