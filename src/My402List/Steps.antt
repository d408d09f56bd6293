-- ===== src/My402List/Steps.antt =====
-- Running a function of my402list.c: each read and write of a live element succeeds.
use usc_projects.Prelude.{ℕ, ◌≡◌, sym, subst, true, update, arith}
use usc_projects.Kernel.{Outcome, ok, ◌>>=◌, Returns}
use usc_projects.My402List.{
  Store, load_next, load_prev, load_obj, store_next, store_prev, store_obj,
}

-- One step of a run.
pub step :
    {A B : Type 0} {P : B → Type 0} {m : Outcome A} (f : A → Outcome B) {a : A}
    → m ≡ ok a
    → Returns P (f a)
    → Returns P (m >>= f)
step {P} f runs rest = subst (λ m. Returns P (m >>= f)) (sym runs) rest

module _ (s : Store) (p v : ℕ) (live : s.live p ≡ true) where
  pub store_next-ok : store_next p v s ≡ ok (record s { next = update s.next p v })
  unfolding store_next
  store_next-ok = ground arith

  pub store_prev-ok : store_prev p v s ≡ ok (record s { prev = update s.prev p v })
  unfolding store_prev
  store_prev-ok = ground arith

  pub store_obj-ok : store_obj p v s ≡ ok (record s { obj = update s.obj p v })
  unfolding store_obj
  store_obj-ok = ground arith

module _ (s : Store) (p : ℕ) (live : s.live p ≡ true) where
  pub load_next-ok : load_next p s ≡ ok (s.next p)
  unfolding load_next
  load_next-ok = ground arith

  pub load_prev-ok : load_prev p s ≡ ok (s.prev p)
  unfolding load_prev
  load_prev-ok = ground arith

  pub load_obj-ok : load_obj p s ≡ ok (s.obj p)
  unfolding load_obj
  load_obj-ok = ground arith
