-- ===== src/My402List/Search.antt =====
-- My402ListFind of my402list.c, which goes through the list by My402ListNext.
use usc_projects.Prelude.{
  ℕ, zero, suc, ◌<◌, ◌≡◌, ◌≢◌, ◌⊎◌, refl, sym, ap, subst, List, [], ◌∷◌, ◌++◌, length, count,
  count-append, ◌==◌, arith, Bool-cases, inl, inr, ==_iff,
}
use mathlib.Core.List.{append_assoc}
use usc_projects.Kernel.{Returns, returns, Returns-mono}
use usc_projects.My402List.{Store, find_loop, my402_list_find}
use usc_projects.My402List.Links.{first_or}
use usc_projects.My402List.Holds.{Holds, contents}
use usc_projects.My402List.Steps.{step, load_obj-ok}
use usc_projects.My402List.Ends.{unless_empty, first-Holds, live-ne_null}
use usc_projects.My402List.Insert.{==-ne}
use usc_projects.My402List.Next.{next-Holds}

-- NULL if no element of `es` holds `x`, and else the first that does.
abbrev pub Finds : Store → ℕ → List ℕ → ℕ → Type 0
Finds s x es r =
    ((r ≡ 0) × (count x (contents s es) ≡ 0))
    ⊎ ((xs : List ℕ) × (ys : List ℕ) × (es ≡ xs ++ r ∷ ys)
        × (s.obj r ≡ x)
        × (count x (contents s xs) ≡ 0))

Finds-behind :
    (s : Store) (x e r : ℕ) (es : List ℕ) → s.obj e ≢ x → Finds s x es r → Finds s x (e ∷ es) r
Finds-behind s x e r es n (inl (null, gone)) = inl (null, ground arith)
Finds-behind s x e r es n (inr (xs, ys, is, has, first)) =
    inr (e ∷ xs, ys, ap (λ l. e ∷ l) is, has, ground arith)

module _ (s : Store) (x : ℕ) where
  find_loop-Finds :
      (fuel : ℕ) (zs es : List ℕ)
      → Holds s (zs ++ es)
      → length es < fuel
      → Returns (Finds s x es) (find_loop fuel x (unless_empty es (first_or s.anchor es)) s)
  unfolding find_loop
  find_loop-Finds zero zs es h enough = absurd (omega arith)
  find_loop-Finds (suc fuel) zs [] h enough = returns (inl (refl, refl))
  find_loop-Finds (suc fuel) zs (e ∷ es) h enough =
      let here : 0 < count e (s.anchor ∷ zs ++ e ∷ es) =
        ground (arith, count-append e zs (e ∷ es)) in
      let rest =
        find_loop-Finds fuel (zs ++ e ∷ []) es
          (subst (Holds s) (sym (append_assoc zs (e ∷ []) es)) h) (omega arith) in
      rw (==-ne e 0 (live-ne_null s (zs ++ e ∷ es) h e here), find_loop)
        (step _ (load_obj-ok s e (h.alive e here)) (elim (Bool-cases (s.obj e == x)) [
          | inl found ↦
              rw (found, find_loop) (returns (inr ([], es, refl, (==_iff _ x).0 found, refl)))
          | inr other ↦
              rw (other, find_loop)
                (step _ (next-Holds s zs e es h)
                  (Returns-mono rest (λ r f. Finds-behind s x e r es (ground arith) f)))
        ]))

  -- My402ListFind ends, and returns the first element of the list that holds the object, or NULL if
  -- none does.
  pub my402_list_find-Finds :
      (es : List ℕ) → Holds s es → Returns (Finds s x es) (my402_list_find x s)
  unfolding my402_list_find
  my402_list_find-Finds es h =
      rw (first-Holds s es h)
        (find_loop-Finds (suc s.num_members) [] es h (omega (arith, h.counted)))
