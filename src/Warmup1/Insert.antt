-- ===== src/Warmup1/Insert.antt =====
-- insert_list of warmup1.c keeps the list of transactions in the order of their timestamps.
use usc_projects.Prelude.{
  ℕ, zero, suc, ◌+◌, ◌<◌, ◌≡◌, ◌⊎◌, refl, sym, ap, subst, ◌∙◌, Bool, false, Option, none, some,
  List, [], ◌∷◌, ◌++◌, length, count, count-append, All, All-append, ltb, ltb→lt, ◌==◌,
  if◌then◌else◌, arith, Bool-cases, inl, inr,
}
use mathlib.Core.List.{map, map-append, append-nil, append_assoc}
use usc_projects.Kernel.{ok, ◌>>=◌, Outcome, Returns, returns, Returns-bind, Returns-value}
use usc_projects.My402List.{Store, my402_list_empty, my402_list_append}
use usc_projects.My402List.Holds.{Holds, contents}
use usc_projects.My402List.Insert.{Inserted}
use usc_projects.My402List.Reads.{
  step, load_obj-ok, unless_empty, next-Holds, empty-Holds, first-Holds, live-ne_null, first_or,
  ==-ne,
}
use usc_projects.My402List.Placed.{ends-Inserted, at-Inserted}
use usc_projects.Warmup1.{TransData, insert_loop, insert_list}

-- Each timestamp is below those that follow.
abbrev pub Ascending : List ℕ → Type 0
Ascending [] = Unit
Ascending (t ∷ ts) = All (λ u. t < u) ts × Ascending ts

Ascending-middle : (ts us : List ℕ) (t : ℕ) → Ascending (ts ++ t ∷ us) → All (λ u. t < u) us
Ascending-middle [] us t a = a.0
Ascending-middle (v ∷ ts) us t a = Ascending-middle ts us t a.1

All-above : (now t : ℕ) (us : List ℕ) → now < t → All (λ u. t < u) us → All (λ u. now < u) us
All-above now t [] lt above = tt
All-above now t (u ∷ us) lt above = (omega arith, All-above now t us lt above.1)

module _ (trans : ℕ → TransData) where
  -- The timestamps of the transactions, in order.
  abbrev pub stamps : List ℕ → List ℕ
  stamps = map (λ o. (trans o).timestamp)

  pub stamps-append :
      (s : Store) (xs ys : List ℕ)
      → stamps (contents s (xs ++ ys)) ≡ stamps (contents s xs) ++ stamps (contents s ys)
  stamps-append s xs ys =
      ap stamps (map-append s.obj xs ys)
      ∙ map-append (λ o. (trans o).timestamp) (contents s xs) (contents s ys)

  module _ (s : Store) (x : ℕ) where
    abbrev pub now : ℕ
    now = (trans x).timestamp

    -- Either the timestamp is one of the list's, and the program ends, or `x` is put where those
    -- before are below it and those behind above.
    abbrev pub Placed : List ℕ → Option Store → Type 0
    Placed es r =
        ((r ≡ none) × (0 < count now (stamps (contents s es))))
        ⊎ ((t : Store) × (made : Bool) × (xs : List ℕ) × (ys : List ℕ) × (r ≡ some t)
            × (es ≡ xs ++ ys)
            × Inserted s.supply s x xs ys (t, made)
            × All (λ u. u < now) (stamps (contents s xs))
            × All (λ u. now < u) (stamps (contents s ys)))

    insert_end : (fuel : ℕ) (t : Store) → 0 < fuel → insert_loop trans x fuel 0 t ≡ ok (some t)
    unfolding insert_loop
    insert_end zero t enough = absurd (omega arith)
    insert_end (suc fuel) t enough = refl

    module _ (zs ys : List ℕ) (e : ℕ) (h : Holds s (zs ++ e ∷ ys)) where
      here : 0 < count e (s.anchor ∷ zs ++ e ∷ ys)
      here = ground (arith, count-append e zs (e ∷ ys))

      duplicate : (trans (s.obj e)).timestamp ≡ now → Placed (zs ++ e ∷ ys) none
      duplicate same = inl (
        refl,
        rw (stamps-append s zs (e ∷ ys)) (
            ground
              (arith, count-append now (stamps (contents s zs)) (stamps (contents s (e ∷ ys))))),
      )

      in_front :
          Ascending (stamps (contents s (zs ++ e ∷ ys)))
          → All (λ u. u < now) (stamps (contents s zs))
          → now < (trans (s.obj e)).timestamp
          → (r : Store × Bool) → Inserted s.supply s x zs (e ∷ ys) r
          → Placed (zs ++ e ∷ ys) (some r.0)
      in_front sorted below lt r made = inr (
        r.0,
        r.1,
        zs,
        e ∷ ys,
        refl,
        refl,
        made,
        below,
        (
          lt,
          All-above now _ _ lt (
              Ascending-middle (stamps (contents s zs)) (stamps (contents s ys)) _
                (subst Ascending (stamps-append s zs (e ∷ ys)) sorted)),
        ),
      )

    behind-All :
        (zs : List ℕ) (e : ℕ)
        → All (λ u. u < now) (stamps (contents s zs))
        → (trans (s.obj e)).timestamp < now
        → All (λ u. u < now) (stamps (contents s (zs ++ e ∷ [])))
    behind-All zs e below lt =
        rw (stamps-append s zs (e ∷ [])) (All-append _ (stamps (contents s zs)) _ below (lt, tt))

    -- What the loop does behind an element with a lower timestamp.
    abbrev go_on : ℕ → ℕ → Outcome (Option Store)
    go_on fuel next =
        (if next == 0 then (my402_list_append x s >>= λ (s1, _). ok s1) else ok s) >>= λ s1.
        insert_loop trans x fuel next s1

    at_element :
        (fuel : ℕ) (zs ys : List ℕ) (e : ℕ)
        → Holds s (zs ++ e ∷ ys)
        → length (zs ++ e ∷ ys) + 1 < 2147483648
        → Ascending (stamps (contents s (zs ++ e ∷ ys)))
        → All (λ u. u < now) (stamps (contents s zs))
        → ((trans (s.obj e)).timestamp < now
            → Returns (Placed (zs ++ e ∷ ys)) (go_on fuel (unless_empty ys (first_or s.anchor ys))))
        → Returns (Placed (zs ++ e ∷ ys)) (insert_loop trans x (suc fuel) e s)
    unfolding insert_loop
    at_element fuel zs ys e h room sorted below further =
        rw (==-ne e 0 (live-ne_null s (zs ++ e ∷ ys) h e (here zs ys e h)), insert_loop)
          (step _ (load_obj-ok s e (h.alive e (here zs ys e h)))
            (elim (Bool-cases (ltb (trans (s.obj e)).timestamp now)) [
              | inl lt ↦
                  rw (lt, insert_loop) (step _ (next-Holds s zs e ys h) (further (ltb→lt _ _ lt)))
              | inr ge ↦
                  rw (ge, insert_loop)
                    (elim (Bool-cases (ltb now (trans (s.obj e)).timestamp)) [
                      | inl gt ↦ rw gt (
                          Returns-bind (at-Inserted s x zs ys e h room).0 λ r made.
                            returns (in_front zs ys e h sorted below (ltb→lt _ _ gt) r made))
                      | inr le ↦ rw le (returns (duplicate zs ys e h (ground arith)))
                    ])
            ]))

    insert_loop-Placed :
        (fuel : ℕ) (zs ys : List ℕ) (e : ℕ)
        → Holds s (zs ++ e ∷ ys)
        → length (zs ++ e ∷ ys) + 1 < 2147483648
        → Ascending (stamps (contents s (zs ++ e ∷ ys)))
        → All (λ u. u < now) (stamps (contents s zs))
        → length ys + 1 < fuel
        → Returns (Placed (zs ++ e ∷ ys)) (insert_loop trans x fuel e s)
    insert_loop-Placed zero zs ys e h room sorted below enough = absurd (omega arith)
    insert_loop-Placed (suc fuel) zs [] e h room sorted below enough =
        at_element fuel zs [] e h room sorted below λ lt.
          let (r, is, made) = Returns-value (ends-Inserted s x (zs ++ e ∷ []) h room).0 in
          rw is (
            rw (insert_end fuel r.0 (omega arith)) (
              returns (
                inr (
                  r.0,
                  r.1,
                  zs ++ e ∷ [],
                  [],
                  refl,
                  sym (append-nil (zs ++ e ∷ [])),
                  made,
                  behind-All zs e below lt,
                  tt,
                ))))
    insert_loop-Placed (suc fuel) zs (y ∷ rest) e h room sorted below enough =
        at_element fuel zs (y ∷ rest) e h room sorted below λ lt.
          let same = append_assoc zs (e ∷ []) (y ∷ rest) in
          rw
            (==-ne y 0 (
              live-ne_null s (zs ++ e ∷ y ∷ rest) h y
                (ground (arith, count-append y zs (e ∷ y ∷ rest)))))
            (subst (λ l. Returns (Placed l) (insert_loop trans x fuel y s)) same
              (insert_loop-Placed fuel (zs ++ e ∷ []) rest y (subst (Holds s) (sym same) h)
                (subst (λ l. length l + 1 < 2147483648) (sym same) room)
                (subst (λ l. Ascending (stamps (contents s l))) (sym same) sorted)
                (behind-All zs e below lt) (omega arith)))

    pub insert_list-Placed :
        (es : List ℕ)
        → Holds s es
        → length es + 1 < 2147483648
        → Ascending (stamps (contents s es))
        → Returns (Placed es) (insert_list trans x s)
    unfolding insert_list
    insert_list-Placed [] h room sorted = rw (empty-Holds s [] h) (
        Returns-bind (ends-Inserted s x [] h room).0
          λ r made. returns (inr (r.0, r.1, [], [], refl, refl, made, tt, tt)))
    insert_list-Placed (e ∷ es) h room sorted =
        let filled : my402_list_empty s ≡ false = empty-Holds s (e ∷ es) h ∙ ground arith in
        rw (filled, first-Holds s (e ∷ es) h)
          (insert_loop-Placed (suc (suc s.num_members)) [] es e h room sorted tt
            (omega (arith, h.counted)))
