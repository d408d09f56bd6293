-- ===== src/Files/Close.antt =====
-- What do_close of fs/vfs_syscall.c does to the descriptors and the open files of a process.
use usc_projects.Prelude.{
  ℕ, ◌+◌, ◌-◌, ◌<◌, ◌≡◌, ◌≢◌, refl, ap, subst, ◌∙◌, false, Option, none, some, List, ◌∷◌, ◌==◌,
  if◌then◌else◌, length, set, length-set, arith, Option-cases, Bool-cases, inl, inr,
}
use usc_projects.Kernel.{Code, done, fail, ebadf, ok, Returns, returns, Returns-bind}
use usc_projects.Files.{
  File, Process, nfiles, put_file, fput, put_back, bad_fd, close_got, do_close,
}
use usc_projects.Files.Counted.{
  slots-set, slot, get-slot, refcount, Counted, fput-put_back, put_back-Counted, Got, fget-Got,
  slot-below, store_slot-set,
}

-- The vnodes on which vput was called when a reference to the file was given back.
abbrev pub vputs_after : Option File → List ℕ → List ℕ
vputs_after none l = l
vputs_after (some x) l =
    if x.f_refcount == 1 then (elim x.f_vnode [ none ↦ l | some v ↦ v ∷ l ]) else l

-- The descriptor is empty, one reference to its file is given back, and nothing else changes.
pub record Emptied (fd f : ℕ) (held : List ℕ) (p p' : Process) : Type 0 where
  pub counts : Counted held p'
  pub table : p'.p_files ≡ set p.p_files fd none
  pub dropped : refcount (p'.files f) + 1 ≡ refcount (p.files f)
  pub others : (g : ℕ) → f ≢ g → p'.files g ≡ p.files g
  pub put : p'.vputs ≡ vputs_after (p.files f) p.vputs

abbrev pub Closed : ℕ → Option ℕ → List ℕ → Process → Code × Process → Type 0
Closed fd none held p (code, p') = (code ≡ fail ebadf) × (p' ≡ p)
Closed fd (some f) held p (code, p') = (code ≡ done 0) × Emptied fd f held p p'

-- Giving back a reference does not depend on the table.
put_back-table :
    (f : ℕ) (x : File) (p : Process) (l : List (Option ℕ))
    → put_back f x (record p { p_files = l }) ≡ record (put_back f x p) { p_files = l }
put_back-table f x p l = elim (Bool-cases (x.f_refcount == 1)) [
  | inl last ↦ elim (Option-cases x.f_vnode) [
    | inl gone ↦ rw (last, gone) refl
    | inr (v, has) ↦ rw (last, has) refl
  ]
  | inr more ↦ rw more refl
]

put_back-p_files : (f : ℕ) (x : File) (p : Process) → (put_back f x p).p_files ≡ p.p_files
put_back-p_files f x p = ap (λ q. q.p_files) (put_back-table f x p p.p_files)

-- Emptying the table's entry makes its reference one that is held.
take-Counted :
    (fd f : ℕ) (held : List ℕ) (p : Process)
    → Counted held p
    → fd < nfiles
    → slot fd p.p_files ≡ some f
    → Counted (f ∷ held) (record p { p_files = set p.p_files fd none })
take-Counted fd f held p v below e = record {
  sized = length-set p.p_files fd none ∙ v.sized;
  counted = λ g. omega (
    arith,
    v.counted g,
    slots-set g fd p.p_files (some f) none
        (get-slot fd p.p_files (omega (arith, v.sized)) ∙ ap some e),
  );
  opened = v.opened;
}

-- fget and fput on a file leave every file as it was.
abbrev pub touched : ℕ → File → Process → Process
touched f x p =
    put_file f (some x) (put_file f (some (record x { f_refcount = x.f_refcount + 1 })) p)

pub touched-Counted :
    (f : ℕ) (x : File) (held : List ℕ) (p : Process)
    → Counted held p
    → p.files f ≡ some x
    → Counted held (touched f x p)
touched-Counted f x held p v e = record {
  sized = v.sized;
  counted = λ g. ground (arith, e, v.counted g);
  opened = λ g. ground (arith, e, v.opened g, v.opened f);
}

pub fput-touched :
    (f : ℕ) (x : File) (held : List ℕ) (p : Process)
    → Counted held p
    → p.files f ≡ some x
    → Counted (f ∷ held) (put_file f (some (record x { f_refcount = x.f_refcount + 1 })) p)
    → fput f (put_file f (some (record x { f_refcount = x.f_refcount + 1 })) p) ≡ ok (touched f x p)
fput-touched f x held p v e v' =
    let more : (x.f_refcount + 1 == 1) ≡ false = ground (arith, e, v.opened f) in
    let back : x.f_refcount + 1 - 1 ≡ x.f_refcount = omega arith in
    fput-put_back f (f ∷ held) (put_file f (some (record x { f_refcount = x.f_refcount + 1 })) p)
      (record x { f_refcount = x.f_refcount + 1 }) v' (ground arith)
    ∙ rw (more, back) refl

put_back-Emptied :
    (fd f : ℕ) (x : File) (held : List ℕ) (p : Process)
    → Counted held p
    → p.files f ≡ some x
    → fd < nfiles
    → slot fd p.p_files ≡ some f
    → Emptied fd f held p
        (record (put_back f x (touched f x p)) { p_files = set p.p_files fd none })
put_back-Emptied fd f x held p v e below at =
    let q : Process = touched f x p in
    let taken = take-Counted fd f held q (touched-Counted f x held p v e) below at in
    let counts : Counted held (put_back f x (record q { p_files = set p.p_files fd none })) =
      put_back-Counted f held (record q { p_files = set p.p_files fd none }) x taken
        (ground arith) in
    elim (Bool-cases (x.f_refcount == 1)) [
      | inl last ↦ elim (Option-cases x.f_vnode) [
        | inl gone ↦ record {
          counts = subst (Counted held) (put_back-table f x q (set p.p_files fd none)) counts;
          table = refl;
          dropped = rw (e, last, gone) (ground (arith, e, last, v.opened f));
          others = λ g other. rw (last, gone) (ground (arith, other));
          put = rw (e, last, gone) refl;
        }
        | inr (n, has) ↦ record {
          counts = subst (Counted held) (put_back-table f x q (set p.p_files fd none)) counts;
          table = refl;
          dropped = rw (e, last, has) (ground (arith, e, last, v.opened f));
          others = λ g other. rw (last, has) (ground (arith, other));
          put = rw (e, last, has) refl;
        }
      ]
      | inr more ↦ record {
        counts = subst (Counted held) (put_back-table f x q (set p.p_files fd none)) counts;
        table = refl;
        dropped = rw (e, more) (ground (arith, e, v.opened f));
        others = λ g other. rw more (ground (arith, other));
        put = rw (e, more) refl;
      }
    ]

-- Closing a descriptor of a process whose reference counts are right, where `held` are references
-- that the kernel holds elsewhere, never panics. A descriptor that is out of range or empty gives
-- EBADF and changes nothing. Otherwise the result is 0, the descriptor is empty, the file has one
-- reference less, is freed and its vnode put if that was the last, the other files and descriptors
-- are as they were, and the reference counts are right.
pub do_close-Closed :
    (fd : ℕ) (held : List ℕ) (p : Process)
    → Counted held p
    → Returns
        (λ r. Closed fd (if bad_fd fd then none else slot fd p.p_files) held p r)
        (do_close fd p)
unfolding do_close close_got
do_close-Closed fd held p v = elim (Bool-cases (bad_fd fd)) [
  | inl bad ↦ rw bad (returns (refl, refl))
  | inr good ↦ rw good (Returns-bind (fget-Got fd held p v good) closes)
]
  where
    closes :
        (r : Option ℕ × Process)
        → Got fd held p r
        → Returns (λ r'. Closed fd (slot fd p.p_files) held p r') (close_got fd r)
    closes (none, p') (e, same) = rw (e, same) (returns (refl, refl))
    closes (some f, p') (x, at, e, v', same) =
        let q : Process = touched f x p in
        let below : fd < length p.p_files = slot-below f fd p.p_files at in
        let stays = put_back-p_files f x q in
        rw
          (
            at,
            same,
            fput-touched f x held p v e (subst (Counted (f ∷ held)) same v'),
            fput-put_back f held q x (touched-Counted f x held p v e) (ground arith),
            store_slot-set fd none (put_back f x q) (rw stays below),
            stays,
          )
          (returns (refl, put_back-Emptied fd f x held p v e (omega (arith, v.sized)) at))
