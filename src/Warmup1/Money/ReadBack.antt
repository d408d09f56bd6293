-- ===== src/Warmup1/Money/ReadBack.antt =====
-- The text that format_money of warmup1.c makes has the digits of the amount.
use usc_projects.Prelude.{
  ℕ, zero, suc, ◌+◌, ◌-◌, ◌*◌, ◌/◌, ◌%◌, ◌<◌, ◌≡◌, refl, sym, ap, subst, ◌∙◌, Bool, true, ◌&&◌,
  List, [], ◌∷◌, ◌++◌, ltb, leb, ◌==◌, if◌then◌else◌, length, length-append, set, arith, Bool-cases,
  inl, inr,
}
use usc_projects.Kernel.{ok, Returns, returns, Returns-bind}
use usc_projects.Warmup1.Money.{put_char, put_separator, put_digit}

-- Reading a text from the left, by its digits alone.
abbrev pub read : ℕ → List ℕ → ℕ
read acc [] = acc
read acc (c ∷ cs) = read (if leb b'0' c && leb c b'9' then acc * 10 + (c - b'0') else acc) cs

abbrev pub spaces : ℕ → List ℕ
spaces zero = []
spaces (suc n) = b' ' ∷ spaces n

pub length-spaces : (n : ℕ) → length (spaces n) ≡ n
length-spaces zero = refl
length-spaces (suc n) = ap suc (length-spaces n)

-- A write to the last of the blanks puts a character before the others.
pub put-spaces : (n c : ℕ) (cs : List ℕ) → set (spaces (suc n) ++ cs) n c ≡ spaces n ++ c ∷ cs
put-spaces zero c cs = refl
put-spaces (suc n) c cs = ap (λ l. b' ' ∷ l) (put-spaces n c cs)

pub put_char-spaces :
    (n c : ℕ) (cs : List ℕ) → put_char (suc n) c (spaces (suc n) ++ cs) ≡ ok (spaces n ++ c ∷ cs)
unfolding put_char
put_char-spaces n c cs =
    let fits : ltb n (length (spaces (suc n) ++ cs)) ≡ true =
      ground (arith, length-append (spaces (suc n)) cs, length-spaces (suc n)) in
    rw fits (ap ok (put-spaces n c cs))

pub read-spaces : (n : ℕ) (cs : List ℕ) → read 0 (spaces n ++ cs) ≡ read 0 cs
read-spaces zero cs = refl
read-spaces (suc n) cs = read-spaces n cs

-- A digit in front takes the last digit off what is read before it.
read-digit : (m : ℕ) (cs : List ℕ) → read (m / 10) ((b'0' + m % 10) ∷ cs) ≡ read m cs
read-digit m cs = ap (λ n. read n cs) (ground arith)

-- The state of the loop: blanks, and behind them characters that, read on from the money that is
-- left, give the amount.
abbrev pub Written : ℕ → ℕ → ℕ → List ℕ → Type 0
Written total money k to =
    (cs : List ℕ) × (to ≡ spaces k ++ (cs ++ b' ' ∷ 0 ∷ []))
    × (k + length cs ≡ 13)
    × (read money (cs ++ b' ' ∷ 0 ∷ []) ≡ total)

abbrev is_digit : ℕ → Bool
is_digit c = leb b'0' c && leb c b'9'

-- The blank at the end of `spaces k` becomes `c`.
module _ (total money : ℕ) where
  put-Written :
      (k c rest : ℕ) (to : List ℕ)
      → ((cs : List ℕ) → read rest (c ∷ cs) ≡ read money cs)
      → 0 < k
      → Written total money k to
      → Returns (Written total rest (k - 1)) (put_char k c to)
  put-Written zero c rest to reads some_left w = absurd (omega arith)
  put-Written (suc n) c rest to reads some_left (cs, is, fill, value) =
      let back : n ≡ suc n - 1 = omega arith in
      subst (λ n'. Returns (Written total rest n') (put_char (suc n) c to)) back
        (subst (Returns (Written total rest n))
          (sym (put_char-spaces n c (cs ++ b' ' ∷ 0 ∷ [])) ∙ ap (put_char (suc n) c) (sym is))
          (returns (c ∷ cs, refl, omega (arith, fill), reads (cs ++ b' ' ∷ 0 ∷ []) ∙ value)))

  put_separator-Written :
      (k j : ℕ) (to : List ℕ)
      → k + (j - 1) + (j - 1) / 3 ≡ 13
      → 0 < j
      → j < 11
      → Written total money k to
      → Returns
          (λ (k1, to1). Written total money k1 to1 × (0 < k1) × (k1 + (j - 1) + j / 3 ≡ 13))
          (put_separator j k to)
  unfolding put_separator
  put_separator-Written k j to place first last w = elim (Bool-cases (j == 3)) [
    | inl third ↦ rw third (
        Returns-bind (put-Written k b'.' money to (λ cs. refl) (ground arith) w)
          λ to1 w1. returns (w1, ground arith, ground arith))
    | inr other ↦ elim (Bool-cases (ltb 3 j && (j - 3) % 3 == 0)) [
      | inl group ↦
          rw (other, group)
            (Returns-bind (put-Written k b',' money to (λ cs. refl) (ground arith) w)
              λ to1 w1. returns (w1, ground arith, ground arith))
      | inr within ↦ rw (other, within) (returns (w, ground arith, ground arith))
    ]
  ]

  pub put_digit-Written :
      (k j : ℕ) (to : List ℕ)
      → k + (j - 1) + (j - 1) / 3 ≡ 13
      → 0 < j
      → j < 11
      → Written total money k to
      → Returns
          (λ (k1, to1). Written total (money / 10) k1 to1 × (k1 + j + j / 3 ≡ 13))
          (put_digit money k j to)
  unfolding put_digit
  put_digit-Written k j to place first last w =
      Returns-bind (put_separator-Written k j to place first last w)
        λ (k1, to1) (w1, some_left, place1).
          Returns-bind
            (put-Written k1 (b'0' + money % 10) (money / 10) to1 (read-digit money) some_left w1)
            λ to2 w2. returns (w2, omega arith)
