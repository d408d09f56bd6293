-- ===== src/Warmup1/Money/Tests.antt =====
-- Amounts that format_money of warmup1.c shows.
use usc_projects.Prelude.{◌≡◌, refl, [], ◌∷◌}
use usc_projects.Kernel.{ok}
use usc_projects.Warmup1.Money.{
  put_char, put_separator, put_digit, digit_loop, fill_loop, format_positive, format_money,
  cal_balance, too_long,
}

-- -1,234.57
negative_text :
    format_money 4294843839
    ≡ ok (
        b'(' ∷ b' ' ∷ b' ' ∷ b' ' ∷ b' ' ∷ b'1' ∷ b',' ∷ b'2' ∷ b'3' ∷ b'4' ∷ b'.' ∷ b'5' ∷ b'7'
        ∷ b')' ∷ 0 ∷ [])
unfolding format_money format_positive digit_loop put_digit put_separator put_char fill_loop
negative_text = refl

-- Ten digits are too many.
long_text : format_money 1000000000 ≡ ok too_long
unfolding format_money format_positive digit_loop put_digit put_separator put_char fill_loop
long_text = refl

-- Three deposits of 9,999,999.99 make a negative balance.
balance_wraps :
    cal_balance (cal_balance (cal_balance 0 999999999 b'+') 999999999 b'+') 999999999 b'+'
    ≡ 2999999997
unfolding cal_balance
balance_wraps = refl
