-- ===== src/Files/Io/Getdent.antt =====
-- What do_getdent of fs/vfs_syscall.c returns, and what it does to the position of a directory.
use usc_projects.Prelude.{
  ℕ, ◌+◌, ◌<◌, ◌≡◌, refl, subst, false, Option, none, some, List, ◌∷◌, ltb, ◌==◌, if◌then◌else◌,
  arith, Option-cases, Bool-cases, inl, inr,
}
use usc_projects.Kernel.{
  Code, done, fail, ebadf, enotdir, ok, ◌>>=◌, Returns, returns, Returns-bind, Returns-mono,
}
use usc_projects.Files.{File, Vnode, Process, is_negative, put_file, bad_fd, nfiles}
use usc_projects.Files.Counted.{slot, slot-below, Counted, Got, fget-Got}
use usc_projects.Files.Close.{touched, touched-Counted, fput-touched}
use usc_projects.Files.Io.{
  seek_cur, seek_end, is_dir, do_lseek, dirent_size, getdent_at, getdent_vnode, getdent_got,
  do_getdent,
}
use usc_projects.Files.Io.Seek.{target, SameBut, Moved, do_lseek-Sought, load-put}
use usc_projects.Files.Io.Read.{Moved-SameBut, SameBut-trans, gives_up, load_vnode-some}

-- The position that is asked for after readdir has returned `bytes`.
abbrev pub entry_pos : ℕ → File → Process → ℕ
entry_pos bytes x p = if bytes == 0 then target 0 seek_end x p else target bytes seek_cur x p

-- What do_getdent returns and leaves, given the vnode's operation.
abbrev pub EntryBy : Option (ℕ → ℕ) → ℕ → File → Process → Code × Process → Type 0
EntryBy none f x p (code, p') = (code ≡ fail enotdir) × SameBut f x p p'
EntryBy (some op) f x p (code, p') =
    (code ≡ done (if op x.f_pos == 0 then 0 else dirent_size))
    × SameBut f
        (record x {
          f_pos =
              if is_negative (entry_pos (op x.f_pos) x p)
              then x.f_pos
              else entry_pos (op x.f_pos) x p;
        })
        p p'

module _ (fd f : ℕ) (x : File) (held : List ℕ) (p : Process) (v : Counted held p)
    (at : slot fd p.p_files ≡ some f) (found : p.files f ≡ some x) where
  abbrev got : Process
  got = put_file f (some (record x { f_refcount = x.f_refcount + 1 })) p

  -- A seek after the reference was given back.
  seeks :
      (offset whence n : ℕ)
      → ltb seek_end whence ≡ false
      → Returns
          (λ (c, p').
            Counted held p'
            × ((c ≡ done n)
                × SameBut f
                    (record x {
                      f_pos =
                          if is_negative (target offset whence x p)
                          then x.f_pos
                          else target offset whence x p;
                    })
                    p
                    p'))
          (do_lseek fd offset whence (touched f x p) >>= λ (code, p2). ok (done n, p2))
  seeks offset whence n right =
      let below : fd < nfiles = omega (arith, slot-below f fd p.p_files at, v.sized) in
      let good : bad_fd fd ≡ false = ground arith in
      let same : SameBut f x p (touched f x p) = record {
        file = ground arith;
        others = λ g other. ground (arith, other);
        table = refl;
        same_vnodes = refl;
        same_vputs = refl;
      } in
      Returns-bind
        (do_lseek-Sought fd offset whence held (touched f x p) (touched-Counted f x held p v found))
        (λ r (counts, s).
          let (y, is, m) = rw (good, right, at) at s in
          let is_x : y ≡ x = cc (is, same.file) in
          returns (
            counts,
            (
              refl,
              SameBut-trans f _ _ p (touched f x p) r.1 same (
                  Moved-SameBut (is_negative (target offset whence x p)) (target offset whence x p)
                    f x (touched f x p) r
                    (subst
                      (λ z.
                        Moved (is_negative (target offset whence z (touched f x p)))
                          (target offset whence z (touched f x p)) f z (touched f x p) r)
                      is_x m)),
            ),
          ))

  module _ (v' : Counted (f ∷ held) got) where
    getdent_at-EntryBy :
        (op : ℕ → ℕ)
        → Returns
            (λ r. Counted held r.1 × EntryBy (some op) f x p r)
            (getdent_at fd (op x.f_pos) f got)
    unfolding getdent_at
    getdent_at-EntryBy op = elim (Bool-cases (op x.f_pos == 0)) [
      | inl end ↦ rw (end, fput-touched f x held p v found v') (seeks 0 seek_end 0 refl)
      | inr entry ↦
          rw (entry, fput-touched f x held p v found v')
            (seeks (op x.f_pos) seek_cur dirent_size refl)
    ]

    pub getdent_vnode-EntryBy :
        (vn : Vnode)
        → Returns
            (λ r.
              Counted held r.1 × EntryBy (if is_dir vn.vn_mode then vn.readdir else none) f x p r)
            (getdent_vnode fd f (record x { f_refcount = x.f_refcount + 1 }) got vn)
    unfolding getdent_vnode
    getdent_vnode-EntryBy vn = elim (Option-cases vn.readdir) [
      | inl gone ↦ elim (Bool-cases (is_dir vn.vn_mode)) [
        | inl dir ↦
            rw (dir, gone, getdent_vnode) (gives_up fd f x held p v at found v' (fail enotdir))
        | inr file ↦
            rw (gone, file, getdent_vnode) (gives_up fd f x held p v at found v' (fail enotdir))
      ]
      | inr (op, has) ↦ elim (Bool-cases (is_dir vn.vn_mode)) [
        | inl dir ↦ rw (has, dir, getdent_vnode) (getdent_at-EntryBy op)
        | inr file ↦
            rw (has, file, getdent_vnode) (gives_up fd f x held p v at found v' (fail enotdir))
      ]
    ]

-- What do_getdent returns and leaves, given the file of the descriptor.
abbrev pub Entry : Option ℕ → Process → Code × Process → Type 0
Entry none p (code, p') = (code ≡ fail ebadf) × (p' ≡ p)
Entry (some f) p (code, p') =
    (x : File) × (n : ℕ) × (p.files f ≡ some x)
    × (x.f_vnode ≡ some n)
    × EntryBy (if is_dir (p.vnodes n).vn_mode then (p.vnodes n).readdir else none) f x p (code, p')

-- Getting a directory entry in a process whose reference counts are right never panics and keeps
-- them right on every path. A descriptor that is out of range or empty gives EBADF, and a vnode that
-- is no directory or has no readdir ENOTDIR, and the files are as they were. If readdir returns 0 at
-- the position of the file, the result is 0 and the position is the end. For any other result, an
-- error included, do_getdent returns the size of an entry and adds the result to the position, unless
-- the sum is negative.
pub do_getdent-Entry :
    (fd : ℕ) (held : List ℕ) (p : Process)
    → Counted held p
    → Returns
        (λ r. Counted held r.1 × Entry (if bad_fd fd then none else slot fd p.p_files) p r)
        (do_getdent fd p)
unfolding do_getdent getdent_got
do_getdent-Entry fd held p v = elim (Bool-cases (bad_fd fd)) [
  | inl bad ↦ rw bad (returns (v, (refl, refl)))
  | inr good ↦ rw good (Returns-bind (fget-Got fd held p v good) gets_from)
]
  where
    gets_from :
        (r : Option ℕ × Process)
        → Got fd held p r
        → Returns (λ r'. Counted held r'.1 × Entry (slot fd p.p_files) p r') (getdent_got fd r)
    gets_from (none, p') (e, same) = rw (e, same) (returns (v, (refl, refl)))
    gets_from (some f, p') (x, at, found, v', same) =
        let v1 : Counted (f ∷ held)
            (put_file f (some (record x { f_refcount = x.f_refcount + 1 })) p) =
          subst (Counted (f ∷ held)) same v' in
        elim (Option-cases x.f_vnode) [
          | inl gone ↦ absurd (ground (arith, found, gone, v.opened f))
          | inr (n, has) ↦
              rw
                (
                  at,
                  same,
                  load-put f (record x { f_refcount = x.f_refcount + 1 }) p,
                  load_vnode-some (record x { f_refcount = x.f_refcount + 1 })
                      (put_file f (some (record x { f_refcount = x.f_refcount + 1 })) p) n has,
                )
                (Returns-mono (getdent_vnode-EntryBy fd f x held p v at found v1 (p.vnodes n))
                  (λ r (counts, by). (counts, (x, n, found, has, by))))
        ]
