-- ===== src/Prelude/Maps.antt =====
-- Total maps from numbers, and how often a number stands in a list.
use Prim.Native.Nat.{ℕ, ◌+◌, ◌-◌}
use mathlib.Core.Path.{◌≡◌}
use mathlib.Core.List.{List, [], ◌∷◌, ◌++◌}
use native.Mathlib.Omega.{arith}
use usc_projects.Prelude.Lists.{length}
use usc_projects.Prelude.Tests.{◌==◌, if◌then◌else◌}

abbrev pub update {ℓ} : {A : Type ℓ} → (ℕ → A) → ℕ → A → ℕ → A
update f k v j = if k == j then v else f j

abbrev pub count : ℕ → List ℕ → ℕ
count a [] = 0
count a (x ∷ xs) = (if x == a then 1 else 0) + count a xs

-- Without the first occurrence.
abbrev pub erase : ℕ → List ℕ → List ℕ
erase a [] = []
erase a (x ∷ xs) = if x == a then xs else x ∷ erase a xs

pub count-append :
    (t : ℕ) (front back : List ℕ) → count t (front ++ back) ≡ count t front + count t back
count-append t [] back = omega arith
count-append t (first ∷ front) back = omega (arith, count-append t front back)

pub count-erase :
    (a b : ℕ) (xs : List ℕ) → count a (erase b xs) ≡ count a xs - (if b == a then 1 else 0)
count-erase a b [] = omega arith
count-erase a b (x ∷ xs) = ground (arith, count-erase a b xs)

pub length-erase :
    (b : ℕ) (xs : List ℕ) → length (erase b xs) + (if count b xs == 0 then 0 else 1) ≡ length xs
length-erase b [] = omega arith
length-erase b (x ∷ xs) = ground (arith, length-erase b xs)
