-- ===== src/Files/Io/Read.antt =====
-- What do_read of fs/vfs_syscall.c returns, and what it does to the position of a file.
use usc_projects.Prelude.{
  ℕ, ◌+◌, ◌-◌, ◌<◌, ◌≡◌, refl, subst, ◌∙◌, Bool, true, false, Option, none, some, List, ◌∷◌, ltb,
  ◌==◌, if◌then◌else◌, arith, Option-cases, Bool-cases, inl, inr,
}
use usc_projects.Kernel.{
  Code, done, fail, ebadf, eisdir, ok, ◌>>=◌, Returns, returns, Returns-bind, Returns-mono,
}
use usc_projects.Files.{File, Vnode, Process, is_negative, put_file, fput, bad_fd, nfiles}
use usc_projects.Files.Counted.{slot, slot-below, Counted, Got, fget-Got, fput-Counted}
use usc_projects.Files.Io.{
  seek_cur, seek_end, is_dir, can_read, load_vnode, do_lseek, read_at, read_vnode, read_got,
  do_read,
}
use usc_projects.Files.Io.Seek.{target, SameBut, Moved, do_lseek-Sought, load-put}

-- The position after a read of `bytes` bytes where `nbytes` were asked for.
abbrev pub next_pos : ℕ → ℕ → File → Process → ℕ
next_pos nbytes bytes x p =
    if bytes == nbytes then target bytes seek_cur x p else target 0 seek_end x p

-- What do_read returns and leaves, given the vnode's operation.
abbrev pub ReadBy : Option (ℕ → ℕ → ℕ) → ℕ → ℕ → File → Process → Code × Process → Type 0
ReadBy none nbytes f x p (code, p') = (code ≡ fail eisdir) × SameBut f x p p'
ReadBy (some op) nbytes f x p (code, p') =
    if nbytes == 0
    then ((code ≡ done 0) × SameBut f x p p')
    else ((code ≡ done (op x.f_pos nbytes))
        × SameBut f
            (record x {
              f_pos =
                  if is_negative (next_pos nbytes (op x.f_pos nbytes) x p)
                  then x.f_pos
                  else next_pos nbytes (op x.f_pos nbytes) x p;
            })
            p p')

pub Moved-SameBut :
    (b : Bool) (pos f : ℕ) (x : File) (p : Process) (r : Code × Process)
    → Moved b pos f x p r
    → SameBut f (record x { f_pos = if b then x.f_pos else pos }) p r.1
Moved-SameBut true pos f x p r m = m.1
Moved-SameBut false pos f x p r m = m.1

-- Giving back a reference that is not the last.
pub release :
    (f : ℕ) (y : File) (held : List ℕ) (p : Process)
    → Counted (f ∷ held) p
    → p.files f ≡ some (record y { f_refcount = y.f_refcount + 1 })
    → 0 < y.f_refcount
    → Returns (λ p'. Counted held p' × SameBut f y p p') (fput f p)
release f y held p v e pos =
    let more : (y.f_refcount + 1 == 1) ≡ false = ground arith in
    let back : y.f_refcount + 1 - 1 ≡ y.f_refcount = omega arith in
    Returns-mono (fput-Counted f held p (record y { f_refcount = y.f_refcount + 1 }) v e)
      (λ p' (v', same). (
        v',
        rw same (
            rw (more, back)
              (record {
                file = ground arith;
                others = λ g other. ground (arith, other);
                table = refl;
                same_vnodes = refl;
                same_vputs = refl;
              })),
      ))

pub SameBut-trans :
    (f : ℕ) (x y : File) (p1 p2 p3 : Process)
    → SameBut f x p1 p2
    → SameBut f y p2 p3
    → SameBut f y p1 p3
SameBut-trans f x y p1 p2 p3 a b = record {
  file = b.file;
  others = λ g other. b.others g other ∙ a.others g other;
  table = b.table ∙ a.table;
  same_vnodes = b.same_vnodes ∙ a.same_vnodes;
  same_vputs = b.same_vputs ∙ a.same_vputs;
}

module _ (fd f : ℕ) (x : File) (held : List ℕ) (p : Process) (v : Counted held p)
    (at : slot fd p.p_files ≡ some f) (found : p.files f ≡ some x) where
  abbrev got : Process
  got = put_file f (some (record x { f_refcount = x.f_refcount + 1 })) p

  module _ (v' : Counted (f ∷ held) got) where
    took : SameBut f (record x { f_refcount = x.f_refcount + 1 }) p got
    took = record {
      file = ground arith;
      others = λ g other. ground (arith, other);
      table = refl;
      same_vnodes = refl;
      same_vputs = refl;
    }

    some-refs : 0 < x.f_refcount
    some-refs = ground (arith, found, v.opened f)

    -- The call ends early.
    pub gives_up :
        (code : Code)
        → Returns
            (λ (c, p'). Counted held p' × ((c ≡ code) × SameBut f x p p'))
            (fput f got >>= λ p1. ok (code, p1))
    gives_up code =
        Returns-bind (release f x held got v' took.file some-refs)
          (λ p1 (v1, same). returns (v1, (refl, SameBut-trans f _ x p got p1 took same)))

    seeks :
        (offset whence : ℕ)
        → ltb seek_end whence ≡ false
        → Returns
            (λ r.
              Counted (f ∷ held) r.1
              × SameBut f
                  (record x {
                    f_pos =
                        if is_negative (target offset whence x p)
                        then x.f_pos
                        else target offset whence x p;
                    f_refcount = x.f_refcount + 1;
                  })
                  got
                  r.1)
            (do_lseek fd offset whence got)
    seeks offset whence right =
        let below : fd < nfiles = omega (arith, slot-below f fd p.p_files at, v.sized) in
        let good : bad_fd fd ≡ false = ground arith in
        Returns-mono (do_lseek-Sought fd offset whence (f ∷ held) got v') (λ r (counts, s).
          let (y, is, m) = rw (good, right, at) at s in
          let same : y ≡ record x { f_refcount = x.f_refcount + 1 } = cc (is, took.file) in
          (
            counts,
            Moved-SameBut (is_negative (target offset whence x p)) (target offset whence x p) f
                (record x { f_refcount = x.f_refcount + 1 }) got r
                (subst
                  (λ z.
                    Moved (is_negative (target offset whence z got)) (target offset whence z got) f
                      z got r)
                  same m),
          ))

    -- A seek and then the reference given back.
    reads :
        (offset whence n : ℕ)
        → ltb seek_end whence ≡ false
        → Returns
            (λ (c, p').
              Counted held p'
              × ((c ≡ done n)
                  × SameBut f
                      (record x {
                        f_pos =
                            if is_negative (target offset whence x p)
                            then x.f_pos
                            else target offset whence x p;
                      })
                      p
                      p'))
            (do_lseek fd offset whence got >>= λ (code, p1). fput f p1 >>= λ p2. ok (done n, p2))
    reads offset whence n right =
        Returns-bind (seeks offset whence right) (λ (code, p1) (counts, moved).
          Returns-bind (release f _ held p1 counts moved.file some-refs) (λ p2 (v2, same). returns (
            v2,
            (refl, SameBut-trans f _ _ p p1 p2 (SameBut-trans f _ _ p got p1 took moved) same),
          )))

    read_at-ReadBy :
        (nbytes bytes : ℕ)
        → Returns
            (λ (c, p').
              Counted held p'
              × ((c ≡ done bytes)
                  × SameBut f
                      (record x {
                        f_pos =
                            if is_negative (next_pos nbytes bytes x p)
                            then x.f_pos
                            else next_pos nbytes bytes x p;
                      })
                      p
                      p'))
            (read_at fd nbytes bytes f got)
    unfolding read_at
    read_at-ReadBy nbytes bytes = elim (Bool-cases (bytes == nbytes)) [
      | inl all ↦ rw all (reads bytes seek_cur bytes refl)
      | inr short ↦ rw short (reads 0 seek_end bytes refl)
    ]

    read_vnode-ReadBy :
        (nbytes : ℕ) (vn : Vnode)
        → Returns
            (λ r.
              Counted held r.1
              × ReadBy (if is_dir vn.vn_mode then none else vn.read) nbytes f x p r)
            (read_vnode fd nbytes f (record x { f_refcount = x.f_refcount + 1 }) got vn)
    unfolding read_vnode
    read_vnode-ReadBy nbytes vn = elim (Option-cases vn.read) [
      | inl gone ↦ elim (Bool-cases (is_dir vn.vn_mode)) [
        | inl dir ↦ rw (gone, dir, read_vnode) (gives_up (fail eisdir))
        | inr file ↦ rw (file, gone, read_vnode) (gives_up (fail eisdir))
      ]
      | inr (op, has) ↦ elim (Bool-cases (is_dir vn.vn_mode)) [
        | inl dir ↦ rw (has, dir, read_vnode) (gives_up (fail eisdir))
        | inr file ↦ elim (Bool-cases (nbytes == 0)) [
          | inl zero_bytes ↦ rw (has, file, zero_bytes, read_vnode) (gives_up (done 0))
          | inr more ↦ rw (has, file, more, read_vnode) (read_at-ReadBy nbytes (op x.f_pos nbytes))
        ]
      ]
    ]

pub load_vnode-some :
    (y : File) (p : Process) (n : ℕ) → y.f_vnode ≡ some n → load_vnode y p ≡ ok (p.vnodes n)
load_vnode-some y p n e = rw (e, load_vnode) refl

-- What do_read returns and leaves, given the file of the descriptor.
abbrev pub Read : ℕ → Option ℕ → Process → Code × Process → Type 0
Read nbytes none p (code, p') = (code ≡ fail ebadf) × (p' ≡ p)
Read nbytes (some f) p (code, p') =
    (x : File) × (n : ℕ) × (p.files f ≡ some x)
    × (x.f_vnode ≡ some n)
    × (if can_read x.f_mode
        then ReadBy (if is_dir (p.vnodes n).vn_mode then none else (p.vnodes n).read) nbytes f x p
            (code, p')
        else ((code ≡ fail ebadf) × SameBut f x p p'))

-- Reading from a descriptor of a process whose reference counts are right never panics and keeps
-- them right on every path. A descriptor that is out of range, empty or not open for reading gives
-- EBADF, a directory or a vnode without the operation EISDIR, and 0 bytes give 0, and the files are
-- as they were. Otherwise the result is that of the vnode's operation at the position of the file. If
-- it is the number of bytes asked for, the position goes on by it, and if not, an error included,
-- the position is the end of the file, where a position that would be negative is not taken.
pub do_read-Read :
    (fd nbytes : ℕ) (held : List ℕ) (p : Process)
    → Counted held p
    → Returns
        (λ r. Counted held r.1 × Read nbytes (if bad_fd fd then none else slot fd p.p_files) p r)
        (do_read fd nbytes p)
unfolding do_read read_got
do_read-Read fd nbytes held p v = elim (Bool-cases (bad_fd fd)) [
  | inl bad ↦ rw bad (returns (v, (refl, refl)))
  | inr good ↦ rw good (Returns-bind (fget-Got fd held p v good) reads_from)
]
  where
    reads_from :
        (r : Option ℕ × Process)
        → Got fd held p r
        → Returns
            (λ r'. Counted held r'.1 × Read nbytes (slot fd p.p_files) p r')
            (read_got fd nbytes r)
    reads_from (none, p') (e, same) = rw (e, same) (returns (v, (refl, refl)))
    reads_from (some f, p') (x, at, found, v', same) =
        let v1 : Counted (f ∷ held)
            (put_file f (some (record x { f_refcount = x.f_refcount + 1 })) p) =
          subst (Counted (f ∷ held)) same v' in
        elim (Option-cases x.f_vnode) [
          | inl gone ↦ absurd (ground (arith, found, gone, v.opened f))
          | inr (n, has) ↦ elim (Bool-cases (can_read x.f_mode)) [
            | inl readable ↦
                rw
                  (
                    at,
                    same,
                    load-put f (record x { f_refcount = x.f_refcount + 1 }) p,
                    readable,
                    load_vnode-some (record x { f_refcount = x.f_refcount + 1 })
                        (put_file f (some (record x { f_refcount = x.f_refcount + 1 })) p) n has,
                  )
                  (Returns-mono (read_vnode-ReadBy fd f x held p v at found v1 nbytes (p.vnodes n))
                    (λ r (counts, by). (counts, (x, n, found, has, rw readable by))))
            | inr closed ↦
                rw (at, same, load-put f (record x { f_refcount = x.f_refcount + 1 }) p, closed)
                  (Returns-mono (gives_up fd f x held p v at found v1 (fail ebadf))
                    (λ r (counts, (code, left)).
                      (counts, (x, n, found, has, rw closed (code, left)))))
          ]
        ]
