-- ===== src/Warmup1/Money/Digits.antt =====
-- format_money of warmup1.c: how far the loop over the digits goes, and the text that results.
use usc_projects.Prelude.{
  ℕ, zero, suc, ◌+◌, ◌-◌, ◌*◌, ◌/◌, ◌≤◌, ◌<◌, ◌≡◌, subst, true, false, ◌&&◌, ◌||◌, List, ltb, leb,
  arith, Bool-cases, inl, inr,
}
use usc_projects.Kernel.{Returns, returns, Returns-bind}
use usc_projects.Warmup1.Money.{digit_loop}
use usc_projects.Warmup1.Money.ReadBack.{Written, put_digit-Written}

abbrev pub tens : ℕ → ℕ
tens zero = 1
tens (suc n) = 10 * tens n

tens-pos : (n : ℕ) → 0 < tens n
tens-pos zero = omega arith
tens-pos (suc n) = omega (arith, tens-pos n)

-- An amount of `n` digits more ends the loop before `j` is 11.
pub digit_loop-short :
    (n fuel total money k j : ℕ) (to : List ℕ)
    → money < tens n
    → n + j ≡ 10
    → 0 < j
    → n + 1 < fuel
    → k + (j - 1) + (j - 1) / 3 ≡ 13
    → Written total money k to
    → Returns
        (λ (j1, k1, to1). (j1 < 11) × (0 < k1) × Written total 0 k1 to1)
        (digit_loop fuel money k j to)
unfolding digit_loop
digit_loop-short n zero total money k j to small sum first enough place w = absurd (omega arith)
digit_loop-short zero (suc fuel) total money k j to small sum first enough place w =
    let over : ((ltb 0 money || leb j 3) && ltb j 11) ≡ false = ground arith in
    rw (over, digit_loop)
      (returns (omega arith, omega arith, subst (λ m. Written total m k to) (omega arith) w))
digit_loop-short (suc n) (suc fuel) total money k j to small sum first enough place w =
    elim (Bool-cases ((ltb 0 money || leb j 3) && ltb j 11)) [
      | inl more ↦
          rw (more, digit_loop)
            (Returns-bind (put_digit-Written total money k j to place first (omega arith) w)
              λ (k1, to1) (w1, place1).
                digit_loop-short n fuel total (money / 10) k1 (j + 1) to1 (omega arith)
                  (omega arith) (omega arith) (omega arith) (omega arith) w1)
      | inr over ↦
          rw (over, digit_loop)
            (returns (omega arith, omega arith, subst (λ m. Written total m k to) (ground arith) w))
    ]

-- An amount of more digits does not.
pub digit_loop-long :
    (n fuel total money k j : ℕ) (to : List ℕ)
    → tens n ≤ money
    → n + j ≡ 10
    → 0 < j
    → n + 1 < fuel
    → k + (j - 1) + (j - 1) / 3 ≡ 13
    → Written total money k to
    → Returns (λ (j1, k1, to1). j1 ≡ 11) (digit_loop fuel money k j to)
unfolding digit_loop
digit_loop-long n zero total money k j to large sum first enough place w = absurd (omega arith)
digit_loop-long n (suc zero) total money k j to large sum first enough place w =
    absurd (omega arith)
digit_loop-long zero (suc (suc fuel)) total money k j to large sum first enough place w =
    let more : ((ltb 0 money || leb j 3) && ltb j 11) ≡ true = ground arith in
    rw (more, digit_loop)
      (Returns-bind (put_digit-Written total money k j to place first (omega arith) w)
        λ (k1, to1) (w1, place1).
          let over : ((ltb 0 (money / 10) || leb (j + 1) 3) && ltb (j + 1) 11) ≡ false =
            ground arith in
          rw (over, digit_loop) (returns (omega arith)))
digit_loop-long (suc n) (suc (suc fuel)) total money k j to large sum first enough place w =
    let more : ((ltb 0 money || leb j 3) && ltb j 11) ≡ true = ground (arith, tens-pos n) in
    rw (more, digit_loop)
      (Returns-bind (put_digit-Written total money k j to place first (omega arith) w)
        λ (k1, to1) (w1, place1).
          digit_loop-long n (suc fuel) total (money / 10) k1 (j + 1) to1 (omega arith) (omega arith)
            (omega arith) (omega arith) (omega arith) w1)
