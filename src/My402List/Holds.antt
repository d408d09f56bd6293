-- ===== src/My402List/Holds.antt =====
-- The invariant of a list of my402list.c: which elements it has, in order.
use usc_projects.Prelude.{
  ℕ, ◌+◌, ◌%◌, ◌≤◌, ◌<◌, ◌≡◌, ◌≢◌, refl, sym, ap, subst, ◌∙◌, true, false, List, [], ◌∷◌, ◌++◌,
  length, length-append, count, count-append, ◌==◌, arith, Bool-cases, inl, inr, ==_iff,
}
use mathlib.Core.List.{map, map-append}
use usc_projects.My402List.{Store}
use usc_projects.My402List.Links.{Links, last_or, first_or, Links-insert}

-- The elements of the list are `es`, in order: different, live, and linked to a circle with the
-- anchor, and `num_members` counts them. What malloc hands out is no element in use, and not NULL.
pub record Holds (s : Store) (es : List ℕ) : Type 0 where
  pub linked : Links s.next s.prev s.anchor es s.anchor
  pub once : (b : ℕ) → count b (s.anchor ∷ es) ≤ 1
  pub alive : (b : ℕ) → 0 < count b (s.anchor ∷ es) → s.live b ≡ true
  pub null_dead : s.live 0 ≡ false
  pub dead : (b : ℕ) → 0 < count b s.supply → s.live b ≡ false
  pub null_kept : count 0 s.supply ≡ 0
  pub supply_once : (b : ℕ) → count b s.supply ≤ 1
  pub counted : s.num_members ≡ length es
  pub fits : length es < 2147483648

-- What the list holds, which is all that a user of it sees.
abbrev pub contents : Store → List ℕ → List ℕ
contents s es = map s.obj es

pub map-same :
    (f g : ℕ → ℕ) (es : List ℕ) → ((b : ℕ) → 0 < count b es → g b ≡ f b) → map g es ≡ map f es
map-same f g [] same = refl
map-same f g (e ∷ es) same =
    λ i. same e (ground arith) i ∷ map-same f g es (λ b m. same b (ground arith)) i

-- `g` is `f` but that `w` leads to `e`, and `e` to `y`: the fields of one direction.
pub record Leads (f g : ℕ → ℕ) (w e y : ℕ) : Type 0 where
  pub to_new : g w ≡ e
  pub from_new : g e ≡ y
  pub same : (b : ℕ) → b ≢ w → b ≢ e → g b ≡ f b

-- `t` is `s` with the new element `e` between the neighbours `u` and `v`, which holds `x`.
pub record Spliced (s t : Store) (u e v x : ℕ) : Type 0 where
  pub num : t.num_members ≡ (s.num_members + 1) % 4294967296
  pub same_anchor : t.anchor ≡ s.anchor
  pub taken : s.supply ≡ e ∷ t.supply
  pub live_new : t.live e ≡ true
  pub live_same : (b : ℕ) → b ≢ e → t.live b ≡ s.live b
  pub obj_new : t.obj e ≡ x
  pub obj_same : (b : ℕ) → b ≢ e → t.obj b ≡ s.obj b
  pub forth : Leads s.next t.next u e v
  pub back : Leads s.prev t.prev v e u

-- An element that malloc hands out is not in use.
pub malloc_dead :
    {s : Store} {es : List ℕ} (e : ℕ) (rest : List ℕ)
    → Holds s es
    → s.supply ≡ e ∷ rest
    → (s.live e ≡ false) × (e ≢ 0) × (count e rest ≡ 0)
malloc_dead e rest h taken =
    let here = ap (count e) taken in
    let null = ap (count 0) taken in
    (h.dead e (ground arith), ground (arith, h.null_kept), ground (arith, h.supply_once e))

pub live-ne : (s : Store) (b e : ℕ) → s.live b ≡ true → s.live e ≡ false → b ≢ e
live-ne s b e live dead eq = cc (ap s.live eq)

module _ {s t : Store} {u e v x : ℕ} (xs ys : List ℕ) (h : Holds s (xs ++ ys))
    (j : Spliced s t u e v x) where
  new_count : count e (s.anchor ∷ xs ++ ys) ≡ 0
  new_count = let (dead, _, _) = malloc_dead e t.supply h j.taken in ground (arith, h.alive e)

  Spliced-alive : (b : ℕ) → 0 < count b (s.anchor ∷ xs ++ e ∷ ys) → t.live b ≡ true
  Spliced-alive b m = elim (Bool-cases (b == e)) [
    | inl same ↦ subst (λ c. t.live c ≡ true) (sym ((==_iff b e).0 same)) j.live_new
    | inr other ↦
        j.live_same b (ground arith)
        ∙ h.alive b (ground (arith, count-append b xs ys, count-append b xs (e ∷ ys)))
  ]

  Spliced-dead : (b : ℕ) → 0 < count b t.supply → t.live b ≡ false
  Spliced-dead b m =
      let (dead, _, gone) = malloc_dead e t.supply h j.taken in
      j.live_same b (λ eq. absurd (omega (arith, ap (λ c. count c t.supply) eq)))
      ∙ h.dead b (let here = ap (count b) j.taken in ground arith)

  pub Spliced-Holds :
      u ≡ last_or s.anchor xs
      → v ≡ first_or s.anchor ys
      → length (xs ++ ys) + 1 < 2147483648
      → Holds t (xs ++ e ∷ ys)
  Spliced-Holds last first room =
      let (dead, null, gone) = malloc_dead e t.supply h j.taken in
      record {
        linked = rw j.same_anchor (
            Links-insert {nx = s.next} {pv = s.prev} u e v j.forth.same j.back.same s.anchor xs ys
              last first h.once new_count j.forth.to_new j.forth.from_new j.back.to_new
              j.back.from_new h.linked);
        once = λ b.
            rw j.same_anchor (
              ground
                (arith, h.once b, new_count, count-append b xs ys, count-append b xs (e ∷ ys)));
        alive = rw j.same_anchor Spliced-alive;
        null_dead = j.live_same 0 (λ eq. null (sym eq)) ∙ h.null_dead;
        dead = Spliced-dead;
        null_kept = let here = ap (count 0) j.taken in ground (arith, h.null_kept);
        supply_once = λ b. let here = ap (count b) j.taken in ground (arith, h.supply_once b);
        counted = ground (arith, h.counted, j.num, length-append xs ys, length-append xs (e ∷ ys));
        fits = omega (arith, length-append xs ys, length-append xs (e ∷ ys));
      }

  pub Spliced-contents : contents t (xs ++ e ∷ ys) ≡ contents s xs ++ x ∷ contents s ys
  Spliced-contents = map-append t.obj xs (e ∷ ys) ∙ λ i.
      map-same s.obj t.obj xs (λ b m. j.obj_same b (old b (omega (arith, count-append b xs ys)))) i
      ++ j.obj_new i
        ∷ map-same s.obj t.obj ys
            (λ b m. j.obj_same b (old b (omega (arith, count-append b xs ys)))) i
    where
      old : (b : ℕ) → 0 < count b (xs ++ ys) → b ≢ e
      old b m = live-ne s b e (h.alive b (ground arith)) (malloc_dead e t.supply h j.taken).0
