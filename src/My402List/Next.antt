-- ===== src/My402List/Next.antt =====
-- My402ListNext and My402ListPrev of my402list.c lead to the neighbours of an element.
use usc_projects.Prelude.{
  ℕ, ◌≡◌, ◌≢◌, refl, ap, ◌∙◌, true, List, [], ◌∷◌, ◌++◌, count, count-append, arith, ==_iff,
}
use usc_projects.Kernel.{ok}
use usc_projects.My402List.{Store, my402_list_first, my402_list_last, my402_list_next}
use usc_projects.My402List.Links.{last_or, first_or, last_or-mem, Links-split}
use usc_projects.My402List.Holds.{Holds}
use usc_projects.My402List.Steps.{load_next-ok}
use usc_projects.My402List.Ends.{unless_empty, last-Holds, first-Holds}
use usc_projects.My402List.Insert.{==-ne}

last_or-behind : (p e : ℕ) (xs ys : List ℕ) → last_or p (xs ++ e ∷ ys) ≡ last_or e ys
last_or-behind p e [] ys = refl
last_or-behind p e (x ∷ xs) ys = last_or-behind x e xs ys

first_or-behind : (q e : ℕ) (xs ys : List ℕ) → first_or q (xs ++ e ∷ ys) ≡ first_or e xs
first_or-behind q e [] ys = refl
first_or-behind q e (x ∷ xs) ys = refl

unless_empty-behind : (xs ys : List ℕ) (e v : ℕ) → unless_empty (xs ++ e ∷ ys) v ≡ v
unless_empty-behind [] ys e v = refl
unless_empty-behind (x ∷ xs) ys e v = refl

module _ (s : Store) (xs : List ℕ) (e : ℕ) where
  abbrev Stands : List ℕ → Type 0
  Stands ys = Holds s (xs ++ e ∷ ys)

  live_here : (ys : List ℕ) → Stands ys → s.live e ≡ true
  live_here ys h = h.alive e (ground (arith, count-append e xs (e ∷ ys)))

  last_here : (ys : List ℕ) → Stands ys → my402_list_last s ≡ last_or e ys
  last_here ys h =
      last-Holds s (xs ++ e ∷ ys) h
      ∙ unless_empty-behind xs ys e (last_or s.anchor (xs ++ e ∷ ys))
      ∙ last_or-behind s.anchor e xs ys

  first_here : (ys : List ℕ) → Stands ys → my402_list_first s ≡ first_or e xs
  first_here ys h =
      first-Holds s (xs ++ e ∷ ys) h
      ∙ unless_empty-behind xs ys e (first_or s.anchor (xs ++ e ∷ ys))
      ∙ first_or-behind s.anchor e xs ys

  pub next-Holds :
      (ys : List ℕ) → Stands ys → my402_list_next e s ≡ ok (unless_empty ys (first_or s.anchor ys))
  unfolding my402_list_next
  next-Holds [] h = rw (last_here [] h, (==_iff e e).1 refl)
  next-Holds (y ∷ ys) h =
      let (_, rest) = Links-split s.next s.prev s.anchor e s.anchor xs (y ∷ ys) h.linked in
      let l = last_or y ys in
      let other : e ≢ l = λ eq. absurd (
        ground (
          arith,
          ap (λ c. count c (y ∷ ys)) eq,
          last_or-mem y ys,
          h.once e,
          count-append e xs (e ∷ y ∷ ys),
        )) in
      rw (last_here (y ∷ ys) h, ==-ne e l other)
        (load_next-ok s e (live_here (y ∷ ys) h) ∙ ap ok rest.0)
