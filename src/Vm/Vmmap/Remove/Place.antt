-- ===== src/Vm/Vmmap/Remove/Place.antt =====
-- Where an area that vmmap_remove inserts can land, and what the pages then look like.
use usc_projects.Prelude.{
  ℕ, suc, ◌+◌, ◌*◌, ◌≤◌, ◌<◌, ◌≡◌, ◌≢◌, refl, ap, Bool, not, ◌&&◌, ◌||◌, none, some, List, [], ◌∷◌,
  arith, ltb, leb, if◌then◌else◌, length, All, Option-cases, Bool-cases, inl, inr,
}
use mathlib.Core.Bool.{or_assoc}
use usc_projects.Vm.Area.{Vmarea, covers, mapped, IsArea}
use usc_projects.Vm.Vmmap.{insert_after_smaller}
use usc_projects.Vm.Vmmap.Insert.{walk-mapped}
use usc_projects.Vm.Vmmap.Remove.{Cursor, place}

module _ (lo hi : ℕ) where
  -- The page is not in the range that is removed.
  abbrev pub outside : ℕ → Bool
  outside vfn = not (leb lo vfn && ltb vfn hi)

  -- What is mapped when the loop is through: the areas passed, and those ahead but for the range.
  abbrev pub final : Cursor → ℕ → Bool
  final c vfn = mapped c.passed vfn || (mapped c.ahead vfn && outside vfn)

  -- The range lies inside the area, so that the area is split.
  abbrev pub splits : Vmarea → ℕ
  splits a = if ltb a.vma_start lo && ltb hi a.vma_end then 1 else 0

  abbrev pub count_splits : List Vmarea → ℕ
  count_splits [] = 0
  count_splits (a ∷ rest) = splits a + count_splits rest

  -- The walk meets no assertion at the area: it is an area with a memory object, and the range
  -- does not cut off exactly its end.
  pub record IsRemovable (a : Vmarea) : Type 0 where
    pub area : IsArea a
    pub object : a.vma_obj ≢ none
    pub not_tail : a.vma_start < lo → a.vma_end ≢ hi

  -- Enough rounds and free areas are left for the areas ahead.
  pub record IsReady (fuel : ℕ) (c : Cursor) : Type 0 where
    pub removable : All IsRemovable c.ahead
    pub rounds : length c.ahead + 2 * count_splits c.ahead < fuel
    pub areas : 2 * count_splits c.ahead ≤ c.free_areas

  module _ (v : Vmarea) where
    abbrev Walked : List Vmarea → List Vmarea → Type 0
    Walked areas r =
        (All IsRemovable areas → All IsRemovable r)
        × (length r ≡ suc (length areas))
        × (count_splits r ≡ splits v + count_splits areas)

    walked :
        IsRemovable v
        → (areas r : List Vmarea) → insert_after_smaller v areas ≡ some r
        → Walked areas r
    unfolding insert_after_smaller
    walked good [] r e = cc
    walked good (a ∷ rest) r e = elim (Bool-cases (ltb a.vma_start v.vma_start)) [
      | inl here ↦
          let same : a ∷ v ∷ rest ≡ r = ground (arith, here) in
          rw (← same) (λ g. (g.0, (good, g.1)), refl, omega arith)
      | inr on ↦ elim (Option-cases (insert_after_smaller v rest)) [
        | inl gone ↦ absurd (ground (arith, on, gone))
        | inr (q, got) ↦
            let same : a ∷ q ≡ r = ground (arith, on, got) in
            let ih = walked good rest q got in
            rw (← same) (λ g. (g.0, ih.0 g.1), ap suc ih.1, omega (arith, ih.2))
      ]
    ]

    -- What the walk asks of an area that is inserted: it is outside the range and needs no split.
    pub record IsPlaceable : Type 0 where
      pub removable : IsRemovable v
      pub clear : (vfn : ℕ) → (covers v vfn && outside vfn) ≡ covers v vfn
      pub whole : splits v ≡ 0

    pub final-place :
        IsPlaceable → (c : Cursor) (vfn : ℕ) → final (place v c) vfn ≡ (covers v vfn || final c vfn)
    unfolding place mapped
    final-place fit c vfn = elim (Option-cases (insert_after_smaller v c.passed)) [
      | inr (p, got) ↦
          rw (got, place, walk-mapped v vfn c.passed p got)
            (or_assoc (covers v vfn) (mapped c.passed vfn) (mapped c.ahead vfn && outside vfn))
      | inl gone ↦ elim (Option-cases (insert_after_smaller v c.ahead)) [
        | inr (r, got) ↦
            rw (gone, place, got, walk-mapped v vfn c.ahead r got) (ground (arith, fit.clear vfn))
        | inl none_ahead ↦
            rw (gone, place, none_ahead)
              (or_assoc (covers v vfn) (mapped c.passed vfn) (mapped c.ahead vfn && outside vfn))
      ]
    ]

    pub place-IsReady :
        IsPlaceable → (fuel : ℕ) (c : Cursor) → IsReady fuel c → IsReady (suc fuel) (place v c)
    unfolding place
    place-IsReady fit fuel c ready = elim (Option-cases (insert_after_smaller v c.passed)) [
      | inr (p, got) ↦
          rw (got, place)
            (record { removable = ready.removable; rounds = omega arith; areas = ready.areas })
      | inl gone ↦ elim (Option-cases (insert_after_smaller v c.ahead)) [
        | inr (r, got) ↦
            rw (gone, place, got)
              (let (good, len, count) = walked fit.removable c.ahead r got in
                record {
                  removable = good ready.removable;
                  rounds = omega arith;
                  areas = omega arith;
                })
        | inl none_ahead ↦
            rw (gone, place, none_ahead)
              (record { removable = ready.removable; rounds = omega arith; areas = ready.areas })
      ]
    ]

    -- No area is taken from the allocator, and no split is added.
    pub place-spare :
        IsPlaceable
        → (c : Cursor)
        → ((place v c).free_areas ≡ c.free_areas)
          × (count_splits (place v c).ahead ≡ count_splits c.ahead)
    unfolding place
    place-spare fit c = elim (Option-cases (insert_after_smaller v c.passed)) [
      | inr (p, got) ↦ rw (got, place) (refl, refl)
      | inl gone ↦ elim (Option-cases (insert_after_smaller v c.ahead)) [
        | inr (r, got) ↦
            rw (gone, place, got)
              (refl, omega (arith, (walked fit.removable c.ahead r got).2, fit.whole))
        | inl none_ahead ↦ rw (gone, place, none_ahead) (refl, refl)
      ]
    ]
