-- ===== src/My402List/Tests.antt =====
-- The theorems on the list of my402list.c at a list of two elements, and runs on it.
use usc_projects.Prelude.{ℕ, ◌≡◌, refl, ◌||◌, [], List, ◌∷◌, ◌==◌, if◌then◌else◌, length, arith}
use usc_projects.Kernel.{Outcome, ok, ◌>>=◌, Returns}
use usc_projects.My402List.{
  Store, take_from, malloc, load_next, load_obj, store_next, store_prev, store_obj, grown,
  my402_list_empty, my402_list_first, my402_list_last, my402_list_next, link_only, my402_list_init,
  my402_list_append, my402_list_prepend, my402_list_insert_before, my402_list_insert_after,
  my402_list_unlink, my402_list_unlink_all, find_loop, my402_list_find,
}
use usc_projects.My402List.Holds.{Holds}
use usc_projects.My402List.Insert.{Inserted}
use usc_projects.My402List.Placed.{ends-Inserted, at-Inserted}
use usc_projects.My402List.Unlink.{Unlinked, my402_list_unlink-Unlinked}
use usc_projects.My402List.UnlinkAll.{my402_list_unlink_all-Emptied}
use usc_projects.My402List.Search.{Finds, my402_list_find-Finds}

-- The elements 1 and 2, with the objects 10 and 20, and memory for one more.
abbrev two : Store
two = record {
  num_members = 2;
  anchor = 9;
  live = λ a. a == 1 || a == 2 || a == 9;
  obj = λ a. if a == 1 then 10 else 20;
  next = λ a. if a == 9 then 1 else if a == 1 then 2 else 9;
  prev = λ a. if a == 9 then 2 else if a == 2 then 1 else 9;
  supply = 3 ∷ [];
}

two-Holds : Holds two (1 ∷ 2 ∷ [])
two-Holds = record {
  linked = (refl, refl, (refl, refl, (refl, refl)));
  once = λ b. ground arith;
  alive = λ b m. ground arith;
  null_dead = refl;
  dead = λ b m. ground arith;
  null_kept = refl;
  supply_once = λ b. ground arith;
  counted = refl;
  fits = omega arith;
}

ends-Inserted_example :
    Returns (Inserted (3 ∷ []) two 30 (1 ∷ 2 ∷ []) []) (my402_list_append 30 two)
    × Returns (Inserted (3 ∷ []) two 30 (1 ∷ 2 ∷ []) []) (my402_list_insert_after 30 0 two)
    × Returns (Inserted (3 ∷ []) two 30 [] (1 ∷ 2 ∷ [])) (my402_list_prepend 30 two)
    × Returns (Inserted (3 ∷ []) two 30 [] (1 ∷ 2 ∷ [])) (my402_list_insert_before 30 0 two)
ends-Inserted_example = ends-Inserted two 30 (1 ∷ 2 ∷ []) two-Holds (omega arith)

at-Inserted_example :
    Returns (Inserted (3 ∷ []) two 30 (1 ∷ []) (2 ∷ [])) (my402_list_insert_before 30 2 two)
    × Returns (Inserted (3 ∷ []) two 30 (1 ∷ 2 ∷ []) []) (my402_list_insert_after 30 2 two)
at-Inserted_example = at-Inserted two 30 (1 ∷ []) [] 2 two-Holds (omega arith)

my402_list_unlink-Unlinked_example : Returns (Unlinked two [] 1 (2 ∷ [])) (my402_list_unlink 1 two)
my402_list_unlink-Unlinked_example = my402_list_unlink-Unlinked two [] (2 ∷ []) 1 two-Holds

my402_list_unlink_all-Emptied_example :
    Returns (λ t. Holds t [] × (length t.supply ≡ 3)) (my402_list_unlink_all two)
my402_list_unlink_all-Emptied_example = my402_list_unlink_all-Emptied two (1 ∷ 2 ∷ []) two-Holds

my402_list_find-Finds_example : Returns (Finds two 20 (1 ∷ 2 ∷ [])) (my402_list_find 20 two)
my402_list_find-Finds_example = my402_list_find-Finds two 20 (1 ∷ 2 ∷ []) two-Holds

find_second : my402_list_find 20 two ≡ ok 2
unfolding my402_list_find find_loop my402_list_first my402_list_empty my402_list_next
    my402_list_last load_obj load_next
find_second = refl

-- After My402ListInit the list is empty whatever the memory held.
abbrev append_to_new : Outcome (List ℕ)
append_to_new = my402_list_append 5 (my402_list_init two) >>= λ (s, made).
    ok (s.num_members ∷ s.next 9 ∷ s.obj 3 ∷ [])

append_to_new_lem : append_to_new ≡ ok (1 ∷ 3 ∷ 5 ∷ [])
unfolding my402_list_append my402_list_init malloc take_from store_obj my402_list_last
    my402_list_empty link_only store_next store_prev grown
append_to_new_lem = refl
