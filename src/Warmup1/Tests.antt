-- ===== src/Warmup1/Tests.antt =====
-- The theorems on the transactions of warmup1.c at concrete lists.
use usc_projects.Prelude.{ℕ, refl, true, [], ◌∷◌, ◌==◌, if◌then◌else◌, arith}
use usc_projects.Kernel.{Returns}
use usc_projects.My402List.{Store}
use usc_projects.My402List.Holds.{Holds}
use usc_projects.Warmup1.{TransData, insert_all}
use usc_projects.Warmup1.Sorted.{AllSorted, insert_all-AllSorted}

-- The transaction at a pointer has the pointer as its timestamp.
abbrev stamped : ℕ → TransData
stamped o = record { type = b'+'; timestamp = o; amount = 100; description = [] }

-- A list of one element, which holds 20, and memory for two more.
abbrev one : Store
one = record {
  num_members = 1;
  anchor = 9;
  live = λ a. if a == 1 then true else a == 9;
  obj = λ a. 20;
  next = λ a. if a == 9 then 1 else 9;
  prev = λ a. if a == 9 then 1 else 9;
  supply = 3 ∷ 4 ∷ [];
}

one-Holds : Holds one (1 ∷ [])
one-Holds = record {
  linked = (refl, refl, (refl, refl));
  once = λ b. ground arith;
  alive = λ b m. ground arith;
  null_dead = refl;
  dead = λ b m. ground arith;
  null_kept = refl;
  supply_once = λ b. ground arith;
  counted = refl;
  fits = omega arith;
}

insert_all-AllSorted_example :
    Returns (AllSorted stamped (30 ∷ 10 ∷ 20 ∷ [])) (insert_all stamped (30 ∷ 10 ∷ []) one)
insert_all-AllSorted_example =
    insert_all-AllSorted stamped (30 ∷ 10 ∷ []) one (1 ∷ []) one-Holds (tt, tt) (omega arith)
      (omega arith)
