-- ===== src/Warmup1/Sorted.antt =====
-- The transactions of warmup1.c, inserted one after another, stand in the order of their timestamps.
use usc_projects.Prelude.{
  ℕ, suc, ◌+◌, ◌≤◌, ◌<◌, ◌≡◌, ◌⊎◌, refl, sym, ap, subst, ◌∙◌, Bool, Option, none, some, List, [],
  ◌∷◌, ◌++◌, length, length-append, count, count-append, All, arith, inl, inr,
}
use mathlib.Core.List.{map, map-append}
use usc_projects.Kernel.{Returns, returns, Returns-mono, Returns-value}
use usc_projects.My402List.{Store}
use usc_projects.My402List.Holds.{Holds, contents}
use usc_projects.My402List.Insert.{Inserted}
use usc_projects.Warmup1.{TransData, insert_list, insert_all}
use usc_projects.Warmup1.Insert.{Ascending, stamps, stamps-append, Placed, insert_list-Placed}

Ascending-between :
    (now : ℕ) (ts us : List ℕ)
    → Ascending (ts ++ us)
    → All (λ u. u < now) ts
    → All (λ u. now < u) us
    → Ascending (ts ++ now ∷ us)
Ascending-between now [] us sorted below above = (above, sorted)
Ascending-between now (t ∷ ts) us sorted below above =
    (between t ts us below.0 sorted.0, Ascending-between now ts us sorted.1 below.1 above)
  where
    between :
        (t : ℕ) (ts us : List ℕ)
        → t < now
        → All (λ u. t < u) (ts ++ us)
        → All (λ u. t < u) (ts ++ now ∷ us)
    between t [] us lt low = (lt, low)
    between t (v ∷ ts) us lt low = (low.0, between t ts us lt low.1)

module _ (trans : ℕ → TransData) where
  -- Two of the transactions have the same timestamp.
  abbrev pub Twice : List ℕ → Type 0
  Twice objs = (time : ℕ) × (1 < count time (stamps trans objs))

  -- `x` has been put somewhere into the list, which is sorted.
  abbrev pub SortedIn : Store → ℕ → List ℕ → List ℕ → Store → Type 0
  SortedIn s x rest es t =
      (es' : List ℕ) × (front : List ℕ) × (back : List ℕ) × Holds t es'
      × Ascending (stamps trans (contents t es'))
      × (contents s es ≡ front ++ back)
      × (contents t es' ≡ front ++ x ∷ back)
      × (t.supply ≡ rest)

  -- With no memory the transaction is dropped.
  abbrev pub InOrder : List ℕ → Store → ℕ → List ℕ → Option Store → Type 0
  InOrder [] s x es r = ((r ≡ none) × Twice (x ∷ contents s es)) ⊎ (r ≡ some s)
  InOrder (e ∷ rest) s x es r =
      ((r ≡ none) × Twice (x ∷ contents s es))
      ⊎ ((t : Store) × (r ≡ some t) × SortedIn s x rest es t)

  module _ (s : Store) (x : ℕ) (es : List ℕ)
      (sorted : Ascending (stamps trans (contents s es))) where
    Placed-InOrder :
        (supply : List ℕ) (r : Option Store)
        → s.supply ≡ supply
        → Placed trans s x es r
        → InOrder supply s x es r
    Placed-InOrder [] r taken (inl (is, dup)) = inl (is, ((trans x).timestamp, ground arith))
    Placed-InOrder (e ∷ rest) r taken (inl (is, dup)) =
        inl (is, ((trans x).timestamp, ground arith))
    Placed-InOrder [] r taken (inr (t, made, xs, ys, is, split, put, below, above)) =
        let lost = subst (λ l. Inserted l s x xs ys (t, made)) taken put in
        inr (is ∙ ap (λ (p : Store × Bool). some p.0) lost)
    Placed-InOrder (e ∷ rest) r taken (inr (t, made, xs, ys, is, split, put, below, above)) =
        let (_, holds, objs, left) = subst (λ l. Inserted l s x xs ys (t, made)) taken put in
        let front = contents s xs in
        let back = contents s ys in
        let old : Ascending (stamps trans front ++ stamps trans back) =
          subst Ascending
            (ap (λ l. stamps trans (contents s l)) split ∙ stamps-append trans s xs ys) sorted in
        inr (
          t,
          is,
          (
            xs ++ e ∷ ys,
            front,
            back,
            holds,
            subst Ascending
                (sym
                  (ap (stamps trans) objs ∙ map-append (λ o. (trans o).timestamp) front (x ∷ back)))
                (Ascending-between _ (stamps trans front) (stamps trans back) old below above),
            ap (contents s) split ∙ map-append s.obj xs ys,
            objs,
            left,
          ),
        )

  -- insert_list on a list that is sorted by strictly ascending timestamps, of fewer elements than an
  -- int can count. If the list has the timestamp of the new transaction, the program ends with an
  -- error; if not, the transaction is put in so that the list stays sorted, and the others stay in
  -- their order. Without memory nothing is put in and no error is reported.
  insert_list-InOrder :
      (s : Store) (x : ℕ) (es : List ℕ)
      → Holds s es
      → length es + 1 < 2147483648
      → Ascending (stamps trans (contents s es))
      → Returns (InOrder s.supply s x es) (insert_list trans x s)
  insert_list-InOrder s x es h room sorted =
      Returns-mono (insert_list-Placed trans s x es h room sorted)
        λ r p. Placed-InOrder s x es sorted s.supply r refl p

  -- Putting `x` behind `front` first or last makes no difference to how often a value stands there.
  count-moved :
      (f : ℕ → ℕ) (a x : ℕ) (xs front back : List ℕ)
      → count a (map f (xs ++ (front ++ x ∷ back))) ≡ count a (map f (x ∷ xs ++ (front ++ back)))
  count-moved f a x [] [] back = refl
  count-moved f a x [] (b ∷ front) back = ground (arith, count-moved f a x [] front back)
  count-moved f a x (y ∷ xs) front back = ground (arith, count-moved f a x xs front back)

  count-behind :
      (f : ℕ → ℕ) (a : ℕ) (xs ys : List ℕ) → count a (map f ys) ≤ count a (map f (xs ++ ys))
  count-behind f a [] ys = omega arith
  count-behind f a (x ∷ xs) ys = omega (arith, count-behind f a xs ys)

  count-first :
      (f : ℕ → ℕ) (a x : ℕ) (xs ys : List ℕ)
      → count a (map f (x ∷ ys)) ≤ count a (map f (x ∷ xs ++ ys))
  count-first f a x xs ys = omega (arith, count-behind f a xs ys)

  supplied : (supply : List ℕ) → 0 < length supply → (e : ℕ) × (rest : List ℕ) × (supply ≡ e ∷ rest)
  supplied [] some_left = absurd (omega arith)
  supplied (e ∷ rest) some_left = (e, rest, refl)

  length-contents : (s : Store) (es : List ℕ) → length (contents s es) ≡ length es
  length-contents s [] = refl
  length-contents s (e ∷ es) = ap suc (length-contents s es)

  -- The same transactions, as often.
  abbrev pub SameItems : List ℕ → List ℕ → Type 0
  SameItems xs ys = (a : ℕ) → count a xs ≡ count a ys

  abbrev pub AllSorted : List ℕ → Option Store → Type 0
  AllSorted objs r =
      ((r ≡ none) × Twice objs)
      ⊎ ((t : Store) × (es : List ℕ) × (r ≡ some t)
          × Holds t es
          × Ascending (stamps trans (contents t es))
          × SameItems (contents t es) objs)

  AllSorted-moved :
      (x : ℕ) (xs front back : List ℕ) (r : Option Store) (old new : List ℕ)
      → old ≡ front ++ back
      → new ≡ front ++ x ∷ back
      → AllSorted (xs ++ new) r
      → AllSorted (x ∷ xs ++ old) r
  AllSorted-moved x xs front back r old new before after (inl (is, (time, twice))) = inl (
    is,
    (
      time,
      subst (λ l. 1 < count time (stamps trans (x ∷ xs ++ l))) (sym before)
          (subst (λ n. 1 < n) (count-moved (λ o. (trans o).timestamp) time x xs front back)
            (subst (λ l. 1 < count time (stamps trans (xs ++ l))) after twice)),
    ),
  )
  AllSorted-moved x xs front back r old new before after (inr (t, es, is, h, sorted, same)) = inr (
    t,
    es,
    is,
    h,
    sorted,
    λ a. omega (
      arith,
      same a,
      ap (λ l. count a l) before,
      ap (λ l. count a l) after,
      count-append a xs new,
      count-append a xs old,
      count-append a front back,
      count-append a front (x ∷ back),
    ),
  )

  -- Inserting all the transactions, with memory for each of them: either two have the same
  -- timestamp, and the program ends with an error, or the list has exactly these transactions and
  -- those that it had before, sorted by strictly ascending timestamps.
  pub insert_all-AllSorted :
      (xs : List ℕ) (s : Store) (es : List ℕ)
      → Holds s es
      → Ascending (stamps trans (contents s es))
      → length xs + length es < 2147483648
      → length xs ≤ length s.supply
      → Returns (AllSorted (xs ++ contents s es)) (insert_all trans xs s)
  unfolding insert_all
  insert_all-AllSorted [] s es h sorted room memory =
      returns (inr (s, es, refl, h, sorted, λ a. refl))
  insert_all-AllSorted (x ∷ xs) s es h sorted room memory =
      let (e, rest, taken) = supplied s.supply (omega arith) in
      let (r, is, placed) = Returns-value (insert_list-InOrder s x es h (omega arith) sorted) in
      rw (is, insert_all)
        (elim (subst (λ l. InOrder l s x es r) taken placed) [
          | inl (none_left, (time, twice)) ↦
              rw (none_left, insert_all)
                (returns (
                  inl (
                    refl,
                    (
                      time,
                      omega (
                        arith,
                        twice,
                        count-first (λ o. (trans o).timestamp) time x xs (contents s es),
                      ),
                    ),
                  )))
          | inr (t, is_t, (es', front, back, holds, sorted', before, after, left)) ↦
              rw (is_t, insert_all)
                (Returns-mono
                  (insert_all-AllSorted xs t es' holds sorted'
                    (omega (
                      arith,
                      length-contents t es',
                      length-contents s es,
                      ap (λ l. length l) before,
                      ap (λ l. length l) after,
                      length-append front back,
                      length-append front (x ∷ back),
                    ))
                    (omega (arith, ap (λ l. length l) left, ap (λ l. length l) taken)))
                  λ r' all.
                    AllSorted-moved x xs front back r' (contents s es) (contents t es') before after
                      all)
        ])
