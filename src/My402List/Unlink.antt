-- ===== src/My402List/Unlink.antt =====
-- My402ListUnlink and My402ListUnlinkAll of my402list.c against the elements of the list, and
-- My402ListNext, by which the second one goes on.
use usc_projects.Prelude.{
  ℕ, ◌+◌, ◌%◌, ◌≡◌, refl, ap, ◌∙◌, true, false, List, ◌∷◌, ◌++◌, length-append, count, count-append,
  update, arith,
}
use mathlib.Core.List.{map-append}
use usc_projects.Kernel.{ok, Returns, returns}
use usc_projects.My402List.{Store, free, shrunk, my402_list_empty, my402_list_unlink}
use usc_projects.My402List.Links.{
  last_or, first_or, last_or-mem, first_or-mem, Links-first, Links-last, Links-split, Links-remove,
}
use usc_projects.My402List.Holds.{Holds, contents}
use usc_projects.My402List.Steps.{step, load_next-ok, load_prev-ok, store_next-ok, store_prev-ok}
use usc_projects.My402List.Ends.{empty-Holds}

filled : (s : Store) (xs ys : List ℕ) (e : ℕ) → Holds s (xs ++ e ∷ ys) → my402_list_empty s ≡ false
filled s xs ys e h = empty-Holds s _ h ∙ ground (arith, length-append xs (e ∷ ys))

module _ (s : Store) (xs ys : List ℕ) (elem : ℕ) (h : Holds s (xs ++ elem ∷ ys)) where
  abbrev back : ℕ
  back = last_or s.anchor xs

  abbrev ahead : ℕ
  ahead = first_or s.anchor ys

  -- The list after the writes of My402ListUnlink, and free.
  abbrev unlinked : Store
  unlinked = record s {
    num_members = (s.num_members + 4294967295) % 4294967296;
    live = update s.live elem false;
    next = update s.next back ahead;
    prev = update s.prev ahead back;
    supply = elem ∷ s.supply;
  }

  live_elem : s.live elem ≡ true
  live_elem = h.alive elem (ground (arith, count-append elem xs (elem ∷ ys)))

  live_back : s.live back ≡ true
  live_back =
      h.alive back (ground (arith, count-append back xs (elem ∷ ys), last_or-mem s.anchor xs))

  live_ahead : s.live ahead ≡ true
  live_ahead =
      h.alive ahead (ground (arith, count-append ahead xs (elem ∷ ys), first_or-mem s.anchor ys))

  not_supplied : (b : ℕ) → s.live b ≡ true → count b s.supply ≡ 0
  not_supplied b live = ground (arith, h.dead b)

  unlinked-Holds : Holds unlinked (xs ++ ys)
  unlinked-Holds = record {
    linked =
        Links-remove {nx = s.next} {pv = s.prev} back elem ahead (λ b n m. ground arith)
          (λ b n m. ground arith) s.anchor xs ys refl refl h.once (ground arith) (ground arith)
          h.linked;
    once = λ b. ground (arith, h.once b, count-append b xs ys, count-append b xs (elem ∷ ys));
    alive = λ b m.
        ground (arith, h.alive b, h.once b, count-append b xs ys, count-append b xs (elem ∷ ys));
    null_dead = ground (arith, h.null_dead);
    dead = λ b m. ground (arith, h.dead b);
    null_kept = ground (arith, h.null_kept, live_elem, h.null_dead, ap s.live);
    supply_once = λ b. ground (arith, h.supply_once b, not_supplied elem live_elem);
    counted = ground (arith, h.counted, h.fits, length-append xs ys, length-append xs (elem ∷ ys));
    fits = omega (arith, h.fits, length-append xs ys, length-append xs (elem ∷ ys));
  }

  unlink_run : {P : Store → Type 0} → P unlinked → Returns P (my402_list_unlink elem s)
  unfolding my402_list_unlink free shrunk
  unlink_run p =
      let (front, rest) = Links-split s.next s.prev s.anchor elem s.anchor xs ys h.linked in
      rw (filled s xs ys elem h) (
        step _
          (load_prev-ok s elem live_elem ∙ ap ok (Links-last s.next s.prev s.anchor elem xs front))
          (step _
            (load_next-ok s elem live_elem
              ∙ ap ok (Links-first s.next s.prev elem s.anchor ys rest))
            (step _ (store_next-ok s back ahead live_back)
              (step _ (store_prev-ok _ ahead back live_ahead) (rw live_elem (returns p))))))

-- The list without `elem`, which is free.
abbrev pub Unlinked : Store → List ℕ → ℕ → List ℕ → Store → Type 0
Unlinked s xs elem ys t =
    Holds t (xs ++ ys)
    × (contents t (xs ++ ys) ≡ contents s xs ++ contents s ys)
    × (t.supply ≡ elem ∷ s.supply)
    × (t.live elem ≡ false)
    × (t.anchor ≡ s.anchor)

-- My402ListUnlink takes an element off the list that it stands in and frees it, touches no element
-- that is no more, and leaves the other elements, in order, linked in both directions and counted.
pub my402_list_unlink-Unlinked :
    (s : Store) (xs ys : List ℕ) (elem : ℕ)
    → Holds s (xs ++ elem ∷ ys)
    → Returns (Unlinked s xs elem ys) (my402_list_unlink elem s)
my402_list_unlink-Unlinked s xs ys elem h =
    unlink_run s xs ys elem h
      (unlinked-Holds s xs ys elem h, map-append s.obj xs ys, refl, ground arith, refl)
