-- ===== src/Warmup1/Money/Text.antt =====
-- The text that format_money of warmup1.c makes of any amount.
use usc_projects.Prelude.{
  ℕ, ◌-◌, ◌≤◌, ◌<◌, ◌≡◌, List, [], ◌∷◌, ◌++◌, ltb, if◌then◌else◌, length, get_elem?, some, ◌⊎◌,
}
use usc_projects.Kernel.{Outcome, ◌>>=◌}
use usc_projects.Warmup1.Money.{put_char, too_long}
use usc_projects.Warmup1.Money.ReadBack.{read}

-- Fourteen characters and the final NUL: `a`, the twelve of `mid`, and `z`.
abbrev framed : ℕ → List ℕ → ℕ → List ℕ
framed a mid z = a ∷ (mid ++ z ∷ 0 ∷ [])

abbrev Blank : List ℕ → List ℕ → Type 0
Blank mid to = (to ≡ framed b' ' mid b' ') × (length mid ≡ 12)

-- The text of an amount that is not negative.
abbrev Shown : ℕ → List ℕ → Type 0
Shown money to =
    (mid : List ℕ) × Blank mid to
    × (((money < 1000000000) × (read 0 to ≡ money)) ⊎ ((1000000000 ≤ money) × (to ≡ too_long)))

-- The amount that an int stands for, without its sign.
abbrev pub magnitude : ℕ → ℕ
magnitude money = if ltb money 2147483648 then money else 4294967296 - money

abbrev pub when_negative : ℕ → ℕ → ℕ
when_negative money c = if ltb money 2147483648 then b' ' else c

-- The text for an int: in parentheses if it is negative.
abbrev pub IsMoneyText : ℕ → List ℕ → Type 0
IsMoneyText money to =
    (length to ≡ 15)
    × (get_elem? to 0 ≡ some (when_negative money b'('))
    × (get_elem? to 13 ≡ some (when_negative money b')'))
    × (get_elem? to 14 ≡ some 0)
    × (((magnitude money < 1000000000) × (read 0 to ≡ magnitude money))
        ⊎ ((1000000000 ≤ magnitude money) × (get_elem? to 1 ≡ some b'?') × (read 0 to ≡ 0)))

wrap : List ℕ → Outcome (List ℕ)
wrap to = put_char 1 b'(' to >>= λ to1. put_char 14 b')' to1
