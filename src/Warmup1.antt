-- ===== src/Warmup1.antt =====
-- The transaction sorter of Operating Systems/Warmup Assignment/Warmup Assignment 1: warmup1.c and
-- my402data.h, over the list of my402list.c.
pub mod Insert
pub mod Sorted
pub mod Money
mod Tests
use usc_projects.Prelude.{
  ℕ, zero, suc, ◌+◌, true, false, Option, none, some, List, [], ◌∷◌, ltb, ◌==◌, if◌then◌else◌,
}
use usc_projects.Kernel.{Outcome, ok, out_of_fuel, ◌>>=◌}
use usc_projects.My402List.{
  Store, load_obj, my402_list_empty, my402_list_first, my402_list_next, my402_list_append,
  my402_list_insert_before,
}

-- `My402TransData`. The `type` is a character, the `timestamp` a 32-bit word, and the `amount` is
-- positive.
pub record TransData : Type 0 where
  pub type : ℕ
  pub timestamp : ℕ
  pub amount : ℕ
  pub description : List ℕ

-- insert_list, where `trans` has the transaction at each pointer. `none`: print_error ends the
-- program. The result of the inserting functions is dropped.
insert_loop : (ℕ → TransData) → ℕ → ℕ → ℕ → Store → Outcome (Option Store)
insert_loop trans x zero elem s = out_of_fuel
insert_loop trans x (suc fuel) elem s = elim (elem == 0) [
  | true ↦ ok (some s)
  | false ↦ load_obj elem s >>= λ temp. elim (ltb (trans temp).timestamp (trans x).timestamp) [
    | true ↦ my402_list_next elem s >>= λ next.
        (if next == 0 then (my402_list_append x s >>= λ (s1, _). ok s1) else ok s) >>= λ s1.
        insert_loop trans x fuel next s1
    | false ↦
        if ltb (trans x).timestamp (trans temp).timestamp
        then (my402_list_insert_before x elem s >>= λ (s1, _). ok (some s1))
        else ok none
  ]
]

pub insert_list : (ℕ → TransData) → ℕ → Store → Outcome (Option Store)
insert_list trans x s =
    if my402_list_empty s
    then (my402_list_append x s >>= λ (s1, _). ok (some s1))
    else insert_loop trans x (suc (suc s.num_members)) (my402_list_first s) s

-- The loop of `process`: the transactions that parse_file gives for the lines, one after another.
pub insert_all : (ℕ → TransData) → List ℕ → Store → Outcome (Option Store)
insert_all trans [] s = ok (some s)
insert_all trans (x ∷ xs) s = insert_list trans x s >>= λ found. elim found [
  | none ↦ ok none
  | some s1 ↦ insert_all trans xs s1
]
