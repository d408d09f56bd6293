-- ===== src/Files/Io/Seek.antt =====
-- What do_lseek of fs/vfs_syscall.c does to the position of a file.
use usc_projects.Prelude.{
  ℕ, ◌+◌, ◌-◌, ◌≡◌, ◌≢◌, refl, sym, ap, subst, ◌∙◌, Bool, true, false, Option, none, some, List,
  ◌∷◌, ltb, ◌==◌, if◌then◌else◌, arith, Option-cases, Bool-cases, inl, inr,
}
use usc_projects.Kernel.{
  Code, done, fail, ebadf, einval, ok, ◌>>=◌, Returns, returns, Returns-bind, Returns-mono,
}
use usc_projects.Vm.Area.{add32}
use usc_projects.Files.{File, Process, is_negative, put_file, fput, bad_fd}
use usc_projects.Files.Counted.{slot, Counted, Got, fget-Got, fput-put_back}
use usc_projects.Files.Close.{touched-Counted, fput-touched}
use usc_projects.Files.Io.{
  seek_set, seek_cur, seek_end, load_file, sought, seek_to, seek_got, do_lseek,
}

-- The position that is asked for, with 32-bit arithmetic.
abbrev pub target : ℕ → ℕ → File → Process → ℕ
target offset whence x p =
    if whence == seek_set
    then offset
    else if whence == seek_cur
    then add32 x.f_pos offset
    else elim x.f_vnode [ none ↦ 0 | some v ↦ add32 (p.vnodes v).vn_len offset ]

-- The descriptors, the vnodes and all files are as they were, but that one file may be another.
pub record SameBut (f : ℕ) (x : File) (p p' : Process) : Type 0 where
  pub file : p'.files f ≡ some x
  pub others : (g : ℕ) → f ≢ g → p'.files g ≡ p.files g
  pub table : p'.p_files ≡ p.p_files
  pub same_vnodes : p'.vnodes ≡ p.vnodes
  pub same_vputs : p'.vputs ≡ p.vputs

-- The result, given whether the new position is negative.
abbrev pub Moved : Bool → ℕ → ℕ → File → Process → Code × Process → Type 0
Moved true pos f x p (code, p') = (code ≡ fail einval) × SameBut f x p p'
Moved false pos f x p (code, p') = (code ≡ done pos) × SameBut f (record x { f_pos = pos }) p p'

-- The result of do_lseek, given the file of the descriptor.
abbrev pub Sought : ℕ → ℕ → Option ℕ → Process → Code × Process → Type 0
Sought offset whence none p (code, p') = (code ≡ fail ebadf) × (p' ≡ p)
Sought offset whence (some f) p (code, p') =
    (x : File) × (p.files f ≡ some x)
    × Moved (is_negative (target offset whence x p)) (target offset whence x p) f x p (code, p')

pub load-put : (f : ℕ) (x : File) (p : Process) → load_file f (put_file f (some x) p) ≡ ok x
load-put f x p = let self : (f == f) ≡ true = ground arith in rw (self, load_file) refl

module _ (f : ℕ) (x : File) (held : List ℕ) (p : Process) (v : Counted held p)
    (found : p.files f ≡ some x) where
  -- The process while the call holds its reference.
  abbrev got : Process
  got = put_file f (some (record x { f_refcount = x.f_refcount + 1 })) p

  got-Counted : Counted (f ∷ held) got
  got-Counted = record {
    sized = v.sized;
    counted = λ g. ground (arith, found, v.counted g);
    opened = λ g. ground (arith, found, v.opened g, v.opened f);
  }

  -- The position is set, and the reference given back.
  abbrev at_pos : ℕ → Process
  at_pos pos = put_file f (some (record x { f_pos = pos; f_refcount = x.f_refcount + 1 })) got

  at_pos-Counted : (pos : ℕ) → is_negative pos ≡ false → Counted (f ∷ held) (at_pos pos)
  at_pos-Counted pos ok_pos = record {
    sized = v.sized;
    counted = λ g. ground (arith, found, v.counted g);
    opened = λ g. ground (arith, found, ok_pos, v.opened g, v.opened f);
  }

  abbrev moved : ℕ → Process
  moved pos = put_file f (some (record x { f_pos = pos })) (at_pos pos)

  moved-Counted : (pos : ℕ) → is_negative pos ≡ false → Counted held (moved pos)
  moved-Counted pos ok_pos = record {
    sized = v.sized;
    counted = λ g. ground (arith, found, v.counted g);
    opened = λ g. ground (arith, found, ok_pos, v.opened g, v.opened f);
  }

  fput-moved : (pos : ℕ) → is_negative pos ≡ false → fput f (at_pos pos) ≡ ok (moved pos)
  fput-moved pos ok_pos =
      let more : (x.f_refcount + 1 == 1) ≡ false = ground (arith, found, v.opened f) in
      let back : x.f_refcount + 1 - 1 ≡ x.f_refcount = omega arith in
      fput-put_back f (f ∷ held) (at_pos pos)
        (record x { f_pos = pos; f_refcount = x.f_refcount + 1 }) (at_pos-Counted pos ok_pos)
        (ground arith)
      ∙ rw (more, back) refl

  abbrev Seeks : ℕ → Code × Process → Type 0
  Seeks pos r = Counted held r.1 × Moved (is_negative pos) pos f x p r

  seek_to-Seeks : (pos : ℕ) → Returns (Seeks pos) (seek_to pos f got)
  unfolding seek_to
  seek_to-Seeks pos = elim (Bool-cases (is_negative pos)) [
    | inl neg ↦
        rw (neg, fput-touched f x held p v found got-Counted)
          (returns (
            touched-Counted f x held p v found,
            rw neg (
              refl,
              record {
                file = ground arith;
                others = λ g other. ground (arith, other);
                table = refl;
                same_vnodes = refl;
                same_vputs = refl;
              },
            ),
          ))
    | inr good ↦
        rw
          (
            good,
            load-put f (record x { f_refcount = x.f_refcount + 1 }) p,
            fput-moved pos good,
            load-put f (record x { f_pos = pos }) (at_pos pos),
          )
          (returns (
            moved-Counted pos good,
            rw good (
              refl,
              record {
                file = ground arith;
                others = λ g other. ground (arith, other);
                table = refl;
                same_vnodes = refl;
                same_vputs = refl;
              },
            ),
          ))
  ]

  sought-target :
      (offset whence : ℕ)
      → sought offset whence (record x { f_refcount = x.f_refcount + 1 }) got
        ≡ ok (target offset whence x p)
  unfolding sought
  sought-target offset whence = elim (Option-cases x.f_vnode) [
    | inl gone ↦ absurd (ground (arith, found, gone, v.opened f))
    | inr (n, has) ↦ ground (arith, has)
  ]

  pub seek_got-Seeks :
      (offset whence : ℕ)
      → Returns (Seeks (target offset whence x p)) (seek_got offset whence (some f, got))
  unfolding seek_got
  seek_got-Seeks offset whence =
      let steps : seek_got offset whence (some f, got) ≡ seek_to (target offset whence x p) f got =
        ap (λ o. o >>= λ y. sought offset whence y got >>= λ pos. seek_to pos f got)
          (load-put f (record x { f_refcount = x.f_refcount + 1 }) p)
        ∙ ap (λ o. o >>= λ pos. seek_to pos f got) (sought-target offset whence) in
      subst (Returns (Seeks (target offset whence x p))) (sym steps)
        (seek_to-Seeks (target offset whence x p))

-- Seeking on a descriptor of a process whose reference counts are right never panics and keeps them
-- right, for any 32-bit offset and any whence. A descriptor that is out of range or empty gives
-- EBADF and changes nothing, and a descriptor in range with a whence above SEEK_END gives EINVAL and
-- changes nothing. Otherwise the position asked for is the offset, or the offset added to the
-- position or to the length of the file. If it is negative, the result is EINVAL and every file is
-- as it was; if not, it is the result and the file's new position, and nothing else has changed.
pub do_lseek-Sought :
    (fd offset whence : ℕ) (held : List ℕ) (p : Process)
    → Counted held p
    → Returns
        (λ r.
          Counted held r.1
          × (if bad_fd fd
              then (r ≡ (fail ebadf, p))
              else if ltb seek_end whence
              then (r ≡ (fail einval, p))
              else Sought offset whence (slot fd p.p_files) p r))
        (do_lseek fd offset whence p)
unfolding do_lseek
do_lseek-Sought fd offset whence held p v = elim (Bool-cases (bad_fd fd)) [
  | inl bad ↦ rw bad (returns (v, refl))
  | inr good ↦ elim (Bool-cases (ltb seek_end whence)) [
    | inl wrong ↦ rw (good, wrong) (returns (v, refl))
    | inr right ↦ rw (good, right) (Returns-bind (fget-Got fd held p v good) seeks)
  ]
]
  where
    seeks :
        (r : Option ℕ × Process)
        → Got fd held p r
        → Returns
            (λ r'. Counted held r'.1 × Sought offset whence (slot fd p.p_files) p r')
            (seek_got offset whence r)
    seeks (none, p') (e, same) = rw (e, same) (returns (v, (refl, refl)))
    seeks (some f, p') (x, at, found, v', same) =
        rw (at, same)
          (Returns-mono (seek_got-Seeks f x held p v found offset whence)
            (λ r (counts, m). (counts, (x, found, m))))
