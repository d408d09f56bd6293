-- ===== src/Files/Dup.antt =====
-- What get_empty_fd of fs/open.c and do_dup and do_dup2 of fs/vfs_syscall.c do to the
-- descriptors of a process.
use usc_projects.Prelude.{
  ℕ, zero, suc, ◌+◌, ◌<◌, ◌≡◌, ◌≢◌, refl, ap, subst, ◌∙◌, Option, none, some, List, [], ◌∷◌,
  if◌then◌else◌, length, set, length-set, arith, Bool-cases, inl, inr,
}
use usc_projects.Kernel.{
  Code, done, fail, ebadf, emfile, ok, panic, ◌>>=◌, Returns, returns, Returns-bind, Returns-mono,
}
use usc_projects.Files.{
  File, Process, nfiles, put_file, fput, bad_fd, first_empty, get_empty_fd, point_to, dup_got,
  do_dup,
}
use usc_projects.Files.Counted.{
  slots-set, slot, get-slot, refcount, Counted, Got, fget-Got, store_slot-set,
}
use usc_projects.Files.Close.{touched-Counted, fput-touched}

-- The lowest empty descriptor, counted from `fd` on, or that there is none.
abbrev pub Lowest : ℕ → List (Option ℕ) → Option ℕ → Type 0
Lowest fd l none = (i : ℕ) → i < length l → slot i l ≢ none
Lowest fd l (some n) =
    (m : ℕ) × (n ≡ fd + m)
    × (m < length l)
    × (slot m l ≡ none)
    × ((i : ℕ) → i < m → slot i l ≢ none)

first_empty-Lowest : (fd : ℕ) (l : List (Option ℕ)) → Lowest fd l (first_empty fd l)
unfolding first_empty
first_empty-Lowest fd [] = λ i below. absurd (omega arith)
first_empty-Lowest fd (none ∷ rest) =
    (0, omega arith, omega arith, refl, λ i below. absurd (omega arith))
first_empty-Lowest fd (some f ∷ rest) =
    behind (first_empty (suc fd) rest) (first_empty-Lowest (suc fd) rest)
  where
    full :
        (m : ℕ)
        → ((i : ℕ) → i < m → slot i rest ≢ none)
        → (i : ℕ) → i < suc m
        → slot i (some f ∷ rest) ≢ none
    full m others zero below = λ e. cc e
    full m others (suc i) below = others i (omega arith)

    behind : (o : Option ℕ) → Lowest (suc fd) rest o → Lowest fd (some f ∷ rest) o
    behind none others = full (length rest) others
    behind (some n) (m, is, below, empty, others) =
        (suc m, omega (arith, is), omega arith, empty, full m others)

pub slot-set :
    (fd : ℕ) (l : List (Option ℕ)) (o : Option ℕ) → fd < length l → slot fd (set l fd o) ≡ o
slot-set fd [] o below = absurd (omega arith)
slot-set zero (x ∷ rest) o below = refl
slot-set (suc fd) (x ∷ rest) o below = slot-set fd rest o (omega arith)

-- A held reference becomes that of an empty descriptor.
give-Counted :
    (fd f : ℕ) (held : List ℕ) (p : Process)
    → Counted (f ∷ held) p
    → fd < nfiles
    → slot fd p.p_files ≡ none
    → Counted held (record p { p_files = set p.p_files fd (some f) })
give-Counted fd f held p v below e = record {
  sized = length-set p.p_files fd (some f) ∙ v.sized;
  counted = λ g. omega (
    arith,
    v.counted g,
    slots-set g fd p.p_files none (some f)
        (get-slot fd p.p_files (omega (arith, v.sized)) ∙ ap some e),
  );
  opened = v.opened;
}

-- The descriptor points to the file and the files are as they were.
pub record Pointed (fd f : ℕ) (held : List ℕ) (p p' : Process) : Type 0 where
  pub counts : Counted held p'
  pub table : p'.p_files ≡ set p.p_files fd (some f)
  pub same_files : (g : ℕ) → p'.files g ≡ p.files g
  pub same_vputs : p'.vputs ≡ p.vputs

pub point_to-Pointed :
    (fd f : ℕ) (held : List ℕ) (p : Process)
    → Counted (f ∷ held) p
    → fd < nfiles
    → slot fd p.p_files ≡ none
    → Returns (λ (code, p'). (code ≡ done fd) × Pointed fd f held p p') (point_to fd f p)
unfolding point_to
point_to-Pointed fd f held p v below e =
    rw (store_slot-set fd (some f) p (omega (arith, v.sized)))
      (Returns-bind (fget-Got fd held q given (ground arith)) points_on)
  where
    q : Process
    q = record p { p_files = set p.p_files fd (some f) }

    given : Counted held q
    given = give-Counted fd f held p v below e

    here : slot fd q.p_files ≡ some f
    here = slot-set fd p.p_files (some f) (omega (arith, v.sized))

    points_on :
        (r : Option ℕ × Process)
        → Got fd held q r
        → Returns
            (λ (code, p'). (code ≡ done fd) × Pointed fd f held p p')
            (elim (r.0) [ none ↦ panic | some g ↦ fput g r.1 >>= λ p3. ok (done fd, p3) ])
    points_on (none, q') (gone, same) = absurd (cc (here, gone))
    points_on (some g, q') (x, at, found, v', same) =
        rw (same, fput-touched g x held q given found (subst (Counted (g ∷ held)) same v'))
          (returns (
            refl,
            record {
              counts = touched-Counted g x held q given found;
              table = refl;
              same_files = λ u. ground (arith, found);
              same_vputs = refl;
            },
          ))

-- One reference more to the file, and the other files as they were.
pub record Shared (f : ℕ) (p p' : Process) : Type 0 where
  pub added : refcount (p'.files f) ≡ refcount (p.files f) + 1
  pub others : (g : ℕ) → f ≢ g → p'.files g ≡ p.files g
  pub same_vputs : p'.vputs ≡ p.vputs

-- The result of do_dup, given the file of the descriptor and the lowest empty descriptor.
abbrev pub Dupped : Option ℕ → Option ℕ → List ℕ → Process → Code × Process → Type 0
Dupped none empty held p (code, p') = (code ≡ fail ebadf) × (p' ≡ p)
Dupped (some f) none held p (code, p') =
    (code ≡ fail emfile)
    × Counted held p'
    × (p'.p_files ≡ p.p_files)
    × ((g : ℕ) → p'.files g ≡ p.files g)
Dupped (some f) (some n) held p (code, p') =
    (code ≡ done n) × Counted held p' × (p'.p_files ≡ set p.p_files n (some f)) × Shared f p p'

-- Duplicating a descriptor of a process whose reference counts are right never panics and keeps
-- them right. A descriptor that is out of range or empty gives EBADF and changes nothing. If no
-- descriptor is empty, the result is EMFILE and the descriptors and files are as they were.
-- Otherwise the result is the lowest empty descriptor, which then points to the same file; the file
-- has one reference more, and the other files and descriptors are as they were.
pub do_dup-Dupped :
    (fd : ℕ) (held : List ℕ) (p : Process)
    → Counted held p
    → Returns
        (λ r.
          (empty : Option ℕ) × Lowest 0 p.p_files empty
          × Dupped (if bad_fd fd then none else slot fd p.p_files) empty held p r)
        (do_dup fd p)
unfolding do_dup dup_got get_empty_fd
do_dup-Dupped fd held p v = elim (Bool-cases (bad_fd fd)) [
  | inl bad ↦
      rw bad (returns (first_empty 0 p.p_files, first_empty-Lowest 0 p.p_files, (refl, refl)))
  | inr good ↦ rw good (Returns-bind (fget-Got fd held p v good) dups)
]
  where
    filled :
        (f : ℕ) (p' : Process) (x : File) (o : Option ℕ)
        → slot fd p.p_files ≡ some f
        → p.files f ≡ some x
        → Counted (f ∷ held) p'
        → p' ≡ put_file f (some (record x { f_refcount = x.f_refcount + 1 })) p
        → first_empty 0 p.p_files ≡ o
        → Lowest 0 p.p_files o
        → Returns
            (λ r. (empty : Option ℕ) × Lowest 0 p.p_files empty × Dupped (some f) empty held p r)
            (dup_got (some f, p'))
    filled f p' x none at found v' same e low = rw same (
        rw (e, dup_got, fput-touched f x held p v found (subst (Counted (f ∷ held)) same v'))
          (returns (
            none,
            low,
            (refl, touched-Counted f x held p v found, refl, λ g. ground (arith, found)),
          )))
    filled f p' x (some n) at found v' same e low =
        let (m, is, below, empty, others) = low in
        let p1 : Process = put_file f (some (record x { f_refcount = x.f_refcount + 1 })) p in
        let same_n : n ≡ m = omega (arith, is) in
        rw same (
          rw (e, dup_got)
            (Returns-mono
              (point_to-Pointed n f held p1 (subst (Counted (f ∷ held)) same v')
                (omega (arith, v.sized)) (rw same_n empty))
              (λ (code, p2) (ended, to). (
                some n,
                low,
                (
                  ended,
                  to.counts,
                  to.table,
                  record {
                    added = rw (to.same_files f) (ground (arith, found));
                    others = λ g other. to.same_files g ∙ ground (arith, other);
                    same_vputs = to.same_vputs;
                  },
                ),
              ))))

    dups :
        (r : Option ℕ × Process)
        → Got fd held p r
        → Returns
            (λ r'.
              (empty : Option ℕ) × Lowest 0 p.p_files empty
              × Dupped (slot fd p.p_files) empty held p r')
            (dup_got r)
    dups (none, p') (e, same) =
        rw (e, same)
          (returns (first_empty 0 p.p_files, first_empty-Lowest 0 p.p_files, (refl, refl)))
    dups (some f, p') (x, at, found, v', same) = rw at (
        filled f p' x (first_empty 0 p.p_files) at found v' same refl
          (first_empty-Lowest 0 p.p_files))
