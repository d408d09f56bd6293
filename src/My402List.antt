-- ===== src/My402List.antt =====
-- The circular doubly linked list of Operating Systems/Warmup Assignment/Warmup Assignment 1:
-- my402list.c and my402list.h, which Warmup Assignment 2 has a copy of.
mod Links
mod Steps
mod Linking
mod Ends
pub mod Holds
pub mod Insert
pub mod Placed
mod Next
pub mod Unlink
pub mod UnlinkAll
pub mod Reads
mod Tests
pub mod Search
use usc_projects.Prelude.{
  ℕ, zero, suc, ◌+◌, ◌%◌, Bool, true, false, ◌||◌, List, [], ◌∷◌, leb, ◌==◌, if◌then◌else◌, update,
}
use usc_projects.Kernel.{Outcome, ok, panic, out_of_fuel, ◌>>=◌}

-- One `My402List` and the memory of the elements. `obj`, `next` and `prev` are the fields of the
-- `My402ListElem` at an address; the list's own `anchor` is the one at the address `anchor`, and NULL
-- is 0. An element is `live` between malloc and free. `supply` has the addresses that malloc hands
-- out, in order; NULL when there is none. `num_members` is the 32-bit word of the int.
pub record Store : Type 0 where
  pub num_members : ℕ
  pub anchor : ℕ
  pub live : ℕ → Bool
  pub obj : ℕ → ℕ
  pub next : ℕ → ℕ
  pub prev : ℕ → ℕ
  pub supply : List ℕ

-- malloc, and free, which may be called on a live element only.
take_from : Store → List ℕ → ℕ × Store
take_from s [] = (0, s)
take_from s (e ∷ rest) = (e, record s { live = update s.live e true; supply = rest })

pub malloc : Store → ℕ × Store
unfolding take_from
malloc s = take_from s s.supply

pub free : ℕ → Store → Outcome Store
free e s =
    if s.live e
    then ok (record s { live = update s.live e false; supply = e ∷ s.supply })
    else panic

-- Reading and writing a field of an element that is no more, or of NULL, is `panic`.
pub load_next : ℕ → Store → Outcome ℕ
load_next p s = if s.live p then ok (s.next p) else panic

pub load_prev : ℕ → Store → Outcome ℕ
load_prev p s = if s.live p then ok (s.prev p) else panic

pub load_obj : ℕ → Store → Outcome ℕ
load_obj p s = if s.live p then ok (s.obj p) else panic

pub store_next : ℕ → ℕ → Store → Outcome Store
store_next p v s = if s.live p then ok (record s { next = update s.next p v }) else panic

pub store_prev : ℕ → ℕ → Store → Outcome Store
store_prev p v s = if s.live p then ok (record s { prev = update s.prev p v }) else panic

pub store_obj : ℕ → ℕ → Store → Outcome Store
store_obj p v s = if s.live p then ok (record s { obj = update s.obj p v }) else panic

-- `num_members++` and `num_members--`.
pub grown : Store → Store
grown s = record s { num_members = (s.num_members + 1) % 4294967296 }

pub shrunk : Store → Store
shrunk s = record s { num_members = (s.num_members + 4294967295) % 4294967296 }

-- My402ListEmpty: the int is 0, or negative.
pub my402_list_empty : Store → Bool
my402_list_empty s = s.num_members == 0 || leb 2147483648 s.num_members

pub my402_list_length : Store → ℕ
my402_list_length s = s.num_members

pub my402_list_first : Store → ℕ
my402_list_first s = if my402_list_empty s then 0 else s.next s.anchor

pub my402_list_last : Store → ℕ
my402_list_last s = if my402_list_empty s then 0 else s.prev s.anchor

pub my402_list_next : ℕ → Store → Outcome ℕ
my402_list_next cur s = if cur == my402_list_last s then ok 0 else load_next cur s

pub my402_list_prev : ℕ → Store → Outcome ℕ
my402_list_prev cur s = if cur == my402_list_first s then ok 0 else load_prev cur s

-- My402ListInit: the anchor's `obj` is NULL.
pub my402_list_init : Store → Store
my402_list_init s = record s {
  num_members = 0;
  obj = update s.obj s.anchor 0;
  next = update s.next s.anchor s.anchor;
  prev = update s.prev s.anchor s.anchor;
}

-- The two ways to link an element `e` that My402ListAppend and My402ListPrepend have.
pub link_last : ℕ → ℕ → Store → Outcome Store
link_last e last_elem s0 = do
  s1 ← store_next e s0.anchor s0
  s2 ← store_prev e last_elem s1
  s3 ← store_prev s2.anchor e s2
  s4 ← store_next last_elem e s3
  ok (grown s4)

pub link_first : ℕ → ℕ → Store → Outcome Store
link_first e first_elem s0 = do
  s1 ← store_prev e s0.anchor s0
  s2 ← store_next e first_elem s1
  s3 ← store_next s2.anchor e s2
  s4 ← store_prev first_elem e s3
  ok (grown s4)

pub link_only : ℕ → Store → Outcome Store
link_only e s0 = do
  s1 ← store_next e s0.anchor s0
  s2 ← store_prev e s1.anchor s1
  s3 ← store_next s2.anchor e s2
  s4 ← store_prev s3.anchor e s3
  ok (grown s4)

-- The functions that allocate return whether they could.
pub my402_list_append : ℕ → Store → Outcome (Store × Bool)
my402_list_append data_obj s =
    let (e, s0) = malloc s in
    if e == 0 then ok (s0, false) else do
      s1 ← store_obj e data_obj s0
      s2 ← if my402_list_last s1 == 0 then link_only e s1 else link_last e (my402_list_last s1) s1
      ok (s2, true)

pub my402_list_prepend : ℕ → Store → Outcome (Store × Bool)
my402_list_prepend data_obj s =
    let (e, s0) = malloc s in
    if e == 0 then ok (s0, false) else do
      s1 ← store_obj e data_obj s0
      s2 ←
          if my402_list_first s1 == 0 then link_only e s1 else link_first e (my402_list_first s1) s1
      ok (s2, true)

-- The `else` parts of My402ListInsertBefore and My402ListInsertAfter once malloc has given `e`.
pub link_before : ℕ → ℕ → ℕ → Store → Outcome (Store × Bool)
link_before e data_obj elem s0 = do
  prev ← load_prev elem s0
  s1 ← store_obj e data_obj s0
  s2 ← store_next prev e s1
  s3 ← store_prev elem e s2
  s4 ← store_next e elem s3
  s5 ← store_prev e prev s4
  ok (grown s5, true)

pub link_after : ℕ → ℕ → ℕ → Store → Outcome (Store × Bool)
link_after e data_obj elem s0 = do
  next ← load_next elem s0
  s1 ← store_obj e data_obj s0
  s2 ← store_prev next e s1
  s3 ← store_next elem e s2
  s4 ← store_next e next s3
  s5 ← store_prev e elem s4
  ok (grown s5, true)

pub my402_list_insert_before : ℕ → ℕ → Store → Outcome (Store × Bool)
my402_list_insert_before data_obj elem s =
    if elem == 0
    then my402_list_prepend data_obj s
    else let (e, s0) = malloc s in if e == 0 then ok (s0, false) else link_before e data_obj elem s0

pub my402_list_insert_after : ℕ → ℕ → Store → Outcome (Store × Bool)
my402_list_insert_after data_obj elem s =
    if elem == 0
    then my402_list_append data_obj s
    else let (e, s0) = malloc s in if e == 0 then ok (s0, false) else link_after e data_obj elem s0

pub my402_list_unlink : ℕ → Store → Outcome Store
my402_list_unlink elem s = if my402_list_empty s then ok s else do
  prev ← load_prev elem s
  next ← load_next elem s
  s1 ← store_next prev next s
  s2 ← store_prev next prev s1
  free elem (shrunk s2)

-- The loop of My402ListUnlinkAll. It makes a round for each element, and one to see the end.
unlink_loop : ℕ → ℕ → Store → Outcome Store
unlink_loop zero cur s = out_of_fuel
unlink_loop (suc fuel) cur s = elim (cur == 0) [
  | true ↦ ok s
  | false ↦
      my402_list_next cur s >>= λ next. my402_list_unlink cur s >>= λ s1. unlink_loop fuel next s1
]

pub my402_list_unlink_all : Store → Outcome Store
my402_list_unlink_all s = if my402_list_empty s then ok s else do
  s1 ← unlink_loop (suc s.num_members) (my402_list_first s) s
  ok (record s1 {
    next = update s1.next s1.anchor s1.anchor;
    prev = update s1.prev s1.anchor s1.anchor;
  })

-- The loop of My402ListFind, and its result, which is NULL when there is no such element.
find_loop : ℕ → ℕ → ℕ → Store → Outcome ℕ
find_loop zero data_obj elem s = out_of_fuel
find_loop (suc fuel) data_obj elem s = elim (elem == 0) [
  | true ↦ ok 0
  | false ↦ load_obj elem s >>= λ found. elim (found == data_obj) [
    | true ↦ ok elem
    | false ↦ my402_list_next elem s >>= λ next. find_loop fuel data_obj next s
  ]
]

pub my402_list_find : ℕ → Store → Outcome ℕ
my402_list_find data_obj s = find_loop (suc s.num_members) data_obj (my402_list_first s) s
