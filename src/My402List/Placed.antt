-- ===== src/My402List/Placed.antt =====
-- Where the four inserting functions of my402list.c put an object, on every path.
use usc_projects.Prelude.{
  ℕ, ◌+◌, ◌<◌, ◌≡◌, refl, sym, subst, List, [], ◌∷◌, ◌++◌, length, count-append, false, ◌==◌, arith,
}
use mathlib.Core.List.{append-nil, append_assoc}
use usc_projects.Kernel.{Returns, returns}
use usc_projects.My402List.{
  Store, my402_list_append, my402_list_prepend, my402_list_insert_before, my402_list_insert_after,
}
use usc_projects.My402List.Holds.{Holds}
use usc_projects.My402List.Ends.{live-ne_null}
use usc_projects.My402List.Insert.{
  Inserted, malloc-none, ==-ne, append_given, prepend_given, before_given, after_given,
}

module _ (s : Store) (x : ℕ) where
  append_run :
      (supply es : List ℕ)
      → s.supply ≡ supply
      → Holds s es
      → length es + 1 < 2147483648
      → Returns (Inserted supply s x es []) (my402_list_append x s)
  unfolding my402_list_append
  append_run [] es taken h room = rw (malloc-none s taken) (returns refl)
  append_run (e ∷ rest) es taken h room =
      append_given s x e rest taken es h (subst (Holds s) (sym (append-nil es)) h)
        (rw (append-nil es) room)

  prepend_run :
      (supply es : List ℕ)
      → s.supply ≡ supply
      → Holds s es
      → length es + 1 < 2147483648
      → Returns (Inserted supply s x [] es) (my402_list_prepend x s)
  unfolding my402_list_prepend
  prepend_run [] es taken h room = rw (malloc-none s taken) (returns refl)
  prepend_run (e ∷ rest) es taken h room = prepend_given s x e rest taken es h room

  -- In a list that holds the elements `es`, fewer than an int can count, no element that is no more
  -- is touched. My402ListAppend, and My402ListInsertAfter at NULL, put the object behind all others,
  -- My402ListPrepend, and My402ListInsertBefore at NULL, in front of them. The others stay in order,
  -- num_members goes up by one, and the links hold in both directions. If malloc has no memory, the
  -- result is 0 and nothing changes.
  pub ends-Inserted :
      (es : List ℕ)
      → Holds s es
      → length es + 1 < 2147483648
      → Returns (Inserted s.supply s x es []) (my402_list_append x s)
        × Returns (Inserted s.supply s x es []) (my402_list_insert_after x 0 s)
        × Returns (Inserted s.supply s x [] es) (my402_list_prepend x s)
        × Returns (Inserted s.supply s x [] es) (my402_list_insert_before x 0 s)
  unfolding my402_list_insert_after my402_list_insert_before
  ends-Inserted es h room =
      let behind = append_run s.supply es refl h room in
      let before = prepend_run s.supply es refl h room in (behind, behind, before, before)

  at_run :
      (supply xs ys : List ℕ) (elem : ℕ)
      → s.supply ≡ supply
      → Holds s (xs ++ elem ∷ ys)
      → length (xs ++ elem ∷ ys) + 1 < 2147483648
      → Returns (Inserted supply s x xs (elem ∷ ys)) (my402_list_insert_before x elem s)
        × Returns (Inserted supply s x (xs ++ elem ∷ []) ys) (my402_list_insert_after x elem s)
  unfolding my402_list_insert_after my402_list_insert_before
  at_run [] xs ys elem taken h room =
      let not_end : (elem == 0) ≡ false =
        ==-ne elem 0 (live-ne_null s _ h elem (ground (arith, count-append elem xs (elem ∷ ys)))) in
      (
        rw (not_end, malloc-none s taken) (returns refl),
        rw (not_end, malloc-none s taken) (returns refl),
      )
  at_run (e ∷ rest) xs ys elem taken h room =
      let same = append_assoc xs (elem ∷ []) ys in
      (
        before_given s x e rest taken xs ys elem h room,
        after_given s x e rest taken xs ys elem h (subst (Holds s) (sym same) h)
            (subst (λ l. length l + 1 < 2147483648) (sym same) room),
      )

  -- At an element of such a list, My402ListInsertBefore puts the object in front of that element and
  -- My402ListInsertAfter behind it; the others stay in order, num_members goes up by one and the
  -- links hold in both directions. If malloc has no memory, the result is 0 and nothing changes.
  pub at-Inserted :
      (xs ys : List ℕ) (elem : ℕ)
      → Holds s (xs ++ elem ∷ ys)
      → length (xs ++ elem ∷ ys) + 1 < 2147483648
      → Returns (Inserted s.supply s x xs (elem ∷ ys)) (my402_list_insert_before x elem s)
        × Returns (Inserted s.supply s x (xs ++ elem ∷ []) ys) (my402_list_insert_after x elem s)
  at-Inserted xs ys elem h room = at_run s.supply xs ys elem refl h room
