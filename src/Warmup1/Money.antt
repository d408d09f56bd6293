-- ===== src/Warmup1/Money.antt =====
-- format_money, cal_amount and cal_balance of warmup1.c: an amount of cents as text.
pub mod ReadBack
pub mod Digits
pub mod Text
mod Tests
use usc_projects.Prelude.{
  ℕ, zero, suc, ◌+◌, ◌-◌, ◌/◌, ◌%◌, Bool, true, false, ◌&&◌, ◌||◌, List, [], ◌∷◌, ltb, leb, ◌==◌,
  if◌then◌else◌, length, set,
}
use usc_projects.Kernel.{Outcome, ok, panic, out_of_fuel, ◌>>=◌}

-- `to[i] = c`, where `k` is i + 1: writing outside of the buffer is `panic`.
pub put_char : ℕ → ℕ → List ℕ → Outcome (List ℕ)
put_char zero c to = panic
put_char (suc i) c to = if ltb i (length to) then ok (set to i c) else panic

-- snprintf of 14 blanks, and of the text for an amount that is too long.
abbrev pub blanks : List ℕ
blanks =
    b' ' ∷ b' ' ∷ b' ' ∷ b' ' ∷ b' ' ∷ b' ' ∷ b' ' ∷ b' ' ∷ b' ' ∷ b' ' ∷ b' ' ∷ b' ' ∷ b' ' ∷ b' '
    ∷ 0 ∷ []

abbrev pub too_long : List ℕ
too_long =
    b' ' ∷ b'?' ∷ b',' ∷ b'?' ∷ b'?' ∷ b'?' ∷ b',' ∷ b'?' ∷ b'?' ∷ b'?' ∷ b'.' ∷ b'?' ∷ b'?' ∷ b' '
    ∷ 0 ∷ []

-- The separator in front of digit `j`, and the new i + 1.
pub put_separator : ℕ → ℕ → List ℕ → Outcome (ℕ × List ℕ)
put_separator j k to =
    if j == 3
    then (put_char k b'.' to >>= λ to1. ok (k - 1, to1))
    else if ltb 3 j && (j - 3) % 3 == 0
    then (put_char k b',' to >>= λ to1. ok (k - 1, to1))
    else ok (k, to)

-- One digit with its separator, and the new i + 1.
pub put_digit : ℕ → ℕ → ℕ → List ℕ → Outcome (ℕ × List ℕ)
put_digit money k j to = put_separator j k to >>= λ (k1, to1).
    put_char k1 (b'0' + money % 10) to1 >>= λ to2. ok (k1 - 1, to2)

-- The loop over the digits, from the last one on. Its result is `j`, i + 1 and the buffer.
pub digit_loop : ℕ → ℕ → ℕ → ℕ → List ℕ → Outcome (ℕ × ℕ × List ℕ)
digit_loop zero money k j to = out_of_fuel
digit_loop (suc fuel) money k j to = elim ((ltb 0 money || leb j 3) && ltb j 11) [
  | true ↦ put_digit money k j to >>= λ (k1, to1). digit_loop fuel (money / 10) k1 (j + 1) to1
  | false ↦ ok (j, k, to)
]

-- The loop that fills up with blanks.
pub fill_loop : ℕ → List ℕ → Outcome (List ℕ)
fill_loop zero to = ok to
fill_loop (suc zero) to = ok to
fill_loop (suc (suc i)) to = put_char (suc (suc i)) b' ' to >>= λ to1. fill_loop (suc i) to1

-- The text of an amount that is not negative.
pub format_positive : ℕ → Outcome (List ℕ)
format_positive money = digit_loop 11 money 13 1 blanks >>= λ (j, k, to).
    if ltb 10 j then ok too_long else fill_loop k to

-- format_money, for the 32-bit word of an int. The negative of the least int overflows: `panic`.
pub format_money : ℕ → Outcome (List ℕ)
format_money money =
    if ltb money 2147483648
    then format_positive money
    else if money == 2147483648
    then panic
    else (format_positive (4294967296 - money) >>= λ to.
        put_char 1 b'(' to >>= λ to1. put_char 14 b')' to1)

-- cal_amount and cal_balance, on words. `b'-'` is the type of a withdrawal.
pub cal_amount : ℕ → ℕ → ℕ
cal_amount amount type = if type == b'-' then (4294967296 - amount) % 4294967296 else amount

pub cal_balance : ℕ → ℕ → ℕ → ℕ
cal_balance balance amount type =
    if type == b'+'
    then (balance + amount) % 4294967296
    else (balance + 4294967296 - amount) % 4294967296
