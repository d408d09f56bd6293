-- ===== src/My402List/Links.antt =====
-- Chains of elements that are linked in both directions, as in my402list.c, and what linking an
-- element in or out does to them.
use usc_projects.Prelude.{
  ℕ, ◌≤◌, ◌<◌, ◌≡◌, ◌≢◌, refl, sym, ap, subst, ◌∙◌, List, [], ◌∷◌, ◌++◌, count, count-append, arith,
}
use mathlib.Core.List.{append-nil}

-- `es` leads from `p` to `q`, and back.
abbrev pub Links : (ℕ → ℕ) → (ℕ → ℕ) → ℕ → List ℕ → ℕ → Type 0
Links nx pv p [] q = (nx p ≡ q) × (pv q ≡ p)
Links nx pv p (a ∷ es) q = (nx p ≡ a) × (pv a ≡ p) × Links nx pv a es q

-- The last element, or `p`; the first, or `q`.
abbrev pub last_or : ℕ → List ℕ → ℕ
last_or p [] = p
last_or p (a ∷ es) = last_or a es

abbrev pub first_or : ℕ → List ℕ → ℕ
first_or q [] = q
first_or q (a ∷ es) = a

pub last_or-mem : (p : ℕ) (es : List ℕ) → 0 < count (last_or p es) (p ∷ es)
last_or-mem p [] = ground arith
last_or-mem p (a ∷ es) = ground (arith, last_or-mem a es)

pub first_or-mem : (q : ℕ) (es : List ℕ) → 0 < count (first_or q es) (q ∷ es)
first_or-mem q [] = ground arith
first_or-mem q (a ∷ es) = ground arith

pub last_or-append : (p a : ℕ) (xs : List ℕ) → last_or p (xs ++ a ∷ []) ≡ a
last_or-append p a [] = refl
last_or-append p a (x ∷ xs) = last_or-append x a xs

-- What stands in a list is not what does not.
apart : (b c : ℕ) (es : List ℕ) → 0 < count b es → count c es ≡ 0 → b ≢ c
apart b c es here gone eq = absurd (omega (arith, ap (λ d. count d es) eq))

module _ (nx pv : ℕ → ℕ) where
  pub Links-first : (p q : ℕ) (es : List ℕ) → Links nx pv p es q → nx p ≡ first_or q es
  Links-first p q [] l = l.0
  Links-first p q (a ∷ es) l = l.0

  pub Links-last : (p q : ℕ) (es : List ℕ) → Links nx pv p es q → pv q ≡ last_or p es
  Links-last p q [] l = l.1
  Links-last p q (a ∷ es) l = Links-last a q es l.2

  -- A chain through `e` is one up to it, and one from it.
  pub Links-split :
      (p e q : ℕ) (xs ys : List ℕ)
      → Links nx pv p (xs ++ e ∷ ys) q
      → Links nx pv p xs e × Links nx pv e ys q
  Links-split p e q [] ys l = ((l.0, l.1), l.2)
  Links-split p e q (x ∷ xs) ys l =
      let (front, back) = Links-split x e q xs ys l.2 in ((l.0, l.1, front), back)

  pub Links-join :
      (p e q : ℕ) (xs ys : List ℕ)
      → Links nx pv p xs e
      → Links nx pv e ys q
      → Links nx pv p (xs ++ e ∷ ys) q
  Links-join p e q [] ys front back = (front.0, front.1, back)
  Links-join p e q (x ∷ xs) ys front back = (front.0, front.1, Links-join x e q xs ys front.2 back)

-- A chain has one `next` for each element but the end, and one `prev` for each but the start.
module _ {nx pv nx' pv' : ℕ → ℕ} where
  pub Links-same :
      (p q : ℕ) (es : List ℕ)
      → ((b : ℕ) → 0 < count b (p ∷ es) → nx' b ≡ nx b)
      → ((b : ℕ) → 0 < count b (q ∷ es) → pv' b ≡ pv b)
      → Links nx pv p es q
      → Links nx' pv' p es q
  Links-same p q [] forth back l = (forth p (ground arith) ∙ l.0, back q (ground arith) ∙ l.1)
  Links-same p q (a ∷ es) forth back l = (
    forth p (ground arith) ∙ l.0,
    back a (ground arith) ∙ l.1,
    Links-same a q es (λ b m. forth b (ground arith)) (λ b m. back b (ground arith)) l.2,
  )

-- `nx'` differs from `nx` at `u` and `e` only, and `pv'` from `pv` at `v` and `e`.
module _ {nx pv nx' pv' : ℕ → ℕ} (u e v : ℕ) (forth : (b : ℕ) → b ≢ u → b ≢ e → nx' b ≡ nx b)
    (back : (b : ℕ) → b ≢ v → b ≢ e → pv' b ≡ pv b) where
  -- The chain up to `u` can be led on to `r'`.
  Links-redirect :
      (p r r' : ℕ) (xs : List ℕ)
      → u ≡ last_or p xs
      → ((b : ℕ) → count b (p ∷ xs) ≤ 1)
      → count e (p ∷ xs) ≡ 0
      → count v xs ≡ 0
      → nx' u ≡ r'
      → pv' r' ≡ u
      → Links nx pv p xs r
      → Links nx' pv' p xs r'
  Links-redirect p r r' [] is once new end to from l = rw (← is) (to, from)
  Links-redirect p r r' (x ∷ xs) is once new end to from l = (
    forth p (ground (arith, once p, last_or-mem x xs)) (ground arith) ∙ l.0,
    back x (ground arith) (ground arith) ∙ l.1,
    Links-redirect x r r' xs is (λ b. ground (arith, once b)) (ground arith) (ground arith) to from
        l.2,
  )

  -- The part behind is es it was.
  rest-Links :
      (y q : ℕ) (ys : List ℕ)
      → count u (y ∷ ys) ≡ 0
      → count e (q ∷ y ∷ ys) ≡ 0
      → count v (q ∷ ys) ≡ 0
      → Links nx pv y ys q
      → Links nx' pv' y ys q
  rest-Links y q ys gone new once =
      Links-same y q ys
        (λ b m. forth b (apart b u (y ∷ ys) m gone) (apart b e (y ∷ ys) m (ground arith)))
        (λ b m. back b (apart b v (q ∷ ys) m once) (apart b e (q ∷ ys) m (ground arith)))

  -- Into a circle of different elements, between `u` and `v`.
  pub Links-insert :
      (a : ℕ) (xs ys : List ℕ)
      → u ≡ last_or a xs
      → v ≡ first_or a ys
      → ((b : ℕ) → count b (a ∷ xs ++ ys) ≤ 1)
      → count e (a ∷ xs ++ ys) ≡ 0
      → nx' u ≡ e
      → nx' e ≡ v
      → pv' v ≡ e
      → pv' e ≡ u
      → Links nx pv a (xs ++ ys) a
      → Links nx' pv' a (xs ++ e ∷ ys) a
  Links-insert a xs [] last first once new ue ev ve eu l =
      Links-join nx' pv' a e a xs []
        (Links-redirect a a e xs last (λ b. omega (arith, once b, count-append b xs []))
          (omega (arith, count-append e xs []))
          (subst (λ w. count w xs ≡ 0) (sym first) (ground (arith, once a, count-append a xs [])))
          ue eu (subst (λ zs. Links nx pv a zs a) (append-nil xs) l))
        (ev ∙ first, ap pv' (sym first) ∙ ve)
  Links-insert a xs (y ∷ ys) last first once new ue ev ve eu l =
      let (front, rest) = Links-split nx pv a y a xs ys l in
      Links-join nx' pv' a e a xs (y ∷ ys)
        (Links-redirect a y e xs last (λ b. omega (arith, once b, count-append b xs (y ∷ ys)))
          (omega (arith, count-append e xs (y ∷ ys)))
          (subst (λ w. count w xs ≡ 0) (sym first)
            (ground (arith, once y, count-append y xs (y ∷ ys))))
          ue eu front)
        (
          ev ∙ first,
          ap pv' (sym first) ∙ ve,
          rest-Links y a ys
              (subst (λ w. count w (y ∷ ys) ≡ 0) (sym last)
                (ground (
                  arith,
                  once (last_or a xs),
                  last_or-mem a xs,
                  count-append (last_or a xs) xs (y ∷ ys),
                )))
              (omega (arith, count-append e xs (y ∷ ys)))
              (subst (λ w. count w (a ∷ ys) ≡ 0) (sym first)
                (ground (arith, once y, count-append y xs (y ∷ ys))))
              rest,
        )

  -- And out of it.
  pub Links-remove :
      (a : ℕ) (xs ys : List ℕ)
      → u ≡ last_or a xs
      → v ≡ first_or a ys
      → ((b : ℕ) → count b (a ∷ xs ++ e ∷ ys) ≤ 1)
      → nx' u ≡ v
      → pv' v ≡ u
      → Links nx pv a (xs ++ e ∷ ys) a
      → Links nx' pv' a (xs ++ ys) a
  Links-remove a xs [] last first once uv vu l =
      let (front, rest) = Links-split nx pv a e a xs [] l in
      subst (λ zs. Links nx' pv' a zs a) (sym (append-nil xs))
        (Links-redirect a e a xs last (λ b. omega (arith, once b, count-append b xs (e ∷ [])))
          (ground (arith, once e, count-append e xs (e ∷ [])))
          (subst (λ w. count w xs ≡ 0) (sym first)
            (ground (arith, once a, count-append a xs (e ∷ []))))
          (uv ∙ first) (ap pv' (sym first) ∙ vu) front)
  Links-remove a xs (y ∷ ys) last first once uv vu l =
      let (front, rest) = Links-split nx pv a e a xs (y ∷ ys) l in
      Links-join nx' pv' a y a xs ys
        (Links-redirect a e y xs last (λ b. omega (arith, once b, count-append b xs (e ∷ y ∷ ys)))
          (ground (arith, once e, count-append e xs (e ∷ y ∷ ys)))
          (subst (λ w. count w xs ≡ 0) (sym first)
            (ground (arith, once y, count-append y xs (e ∷ y ∷ ys))))
          (uv ∙ first) (ap pv' (sym first) ∙ vu) front)
        (rest-Links y a ys
          (subst (λ w. count w (y ∷ ys) ≡ 0) (sym last)
            (ground (
              arith,
              once (last_or a xs),
              last_or-mem a xs,
              count-append (last_or a xs) xs (e ∷ y ∷ ys),
            )))
          (ground (arith, once e, count-append e xs (e ∷ y ∷ ys)))
          (subst (λ w. count w (a ∷ ys) ≡ 0) (sym first)
            (ground (arith, once y, count-append y xs (e ∷ y ∷ ys))))
          rest.2)
