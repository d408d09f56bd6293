-- ===== src/My402List/Ends.antt =====
-- What My402ListEmpty, My402ListFirst and My402ListLast of my402list.c find.
use usc_projects.Prelude.{
  ℕ, ◌<◌, ◌≡◌, ◌≢◌, ap, ◌∙◌, false, List, [], ◌∷◌, length, count, ◌==◌, arith,
}
use usc_projects.My402List.{Store, my402_list_empty, my402_list_first, my402_list_last}
use usc_projects.My402List.Links.{last_or, first_or, Links-first, Links-last}
use usc_projects.My402List.Holds.{Holds}

-- NULL for an empty list.
abbrev pub unless_empty : List ℕ → ℕ → ℕ
unless_empty [] v = 0
unless_empty (e ∷ es) v = v

-- The ends of the list, as the functions read them.
module _ (s : Store) where
  pub empty-Holds : (es : List ℕ) → Holds s es → my402_list_empty s ≡ (length es == 0)
  unfolding my402_list_empty
  empty-Holds es h = ground (arith, h.counted, h.fits)

  pub last-Holds :
      (es : List ℕ) → Holds s es → my402_list_last s ≡ unless_empty es (last_or s.anchor es)
  unfolding my402_list_last
  last-Holds [] h = rw (empty-Holds [] h)
  last-Holds (e ∷ es) h =
      let filled : my402_list_empty s ≡ false = empty-Holds (e ∷ es) h ∙ ground arith in
      rw filled (Links-last s.next s.prev s.anchor s.anchor (e ∷ es) h.linked)

  pub first-Holds :
      (es : List ℕ) → Holds s es → my402_list_first s ≡ unless_empty es (first_or s.anchor es)
  unfolding my402_list_first
  first-Holds [] h = rw (empty-Holds [] h)
  first-Holds (e ∷ es) h =
      let filled : my402_list_empty s ≡ false = empty-Holds (e ∷ es) h ∙ ground arith in
      rw filled (Links-first s.next s.prev s.anchor s.anchor (e ∷ es) h.linked)

  pub live-ne_null : (es : List ℕ) → Holds s es → (b : ℕ) → 0 < count b (s.anchor ∷ es) → b ≢ 0
  live-ne_null es h b m eq = cc (ap s.live eq, h.alive b m, h.null_dead)
