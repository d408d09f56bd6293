-- ===== src/Files/Write/Position.antt =====
-- Where do_write of fs/vfs_syscall.c writes, and where it leaves the position.
use usc_projects.Prelude.{
  ℕ, ◌+◌, ◌^◌, ◌≤◌, ◌<◌, ◌≡◌, ◌≢◌, refl, sym, ap, subst, ◌∙◌, true, false, ◌||◌, Option, none, some,
  List, ◌∷◌, ltb, if◌then◌else◌, arith, Bool-cases, inl, inr,
}
use usc_projects.Kernel.{Code, done, ok, ◌>>=◌, Returns, returns, Returns-bind, Returns-mono}
use usc_projects.Files.{File, Process, is_negative, put_file, fput, bad_fd, nfiles}
use usc_projects.Files.Counted.{slot, slot-below, Counted, Got, fget-Got}
use usc_projects.Files.Io.{seek_cur, seek_end, is_dir, load_file, do_lseek}
use usc_projects.Files.Io.Seek.{target, SameBut, Moved, do_lseek-Sought, load-put}
use usc_projects.Files.Io.Read.{release}
use usc_projects.Files.Write.{
  can_write, appends, has_type, is_writable, set_len, append_at, write_at, write_vnode, write_got,
  do_write,
}

-- The position of the file and the length of its vnode after a write; the descriptors, the other
-- files and the other vnodes are as they were.
pub record Wrote (f n end len : ℕ) (x : File) (p p' : Process) : Type 0 where
  pub file : p'.files f ≡ some (record x { f_pos = end })
  pub others : (g : ℕ) → f ≢ g → p'.files g ≡ p.files g
  pub table : p'.p_files ≡ p.p_files
  pub longer : (p'.vnodes n) ≡ record (p.vnodes n) { vn_len = len }
  pub other_vnodes : (m : ℕ) → n ≢ m → p'.vnodes m ≡ p.vnodes m

end-target :
    (n len : ℕ) (y : File) (q : Process)
    → y.f_vnode ≡ some n
    → (q.vnodes n).vn_len ≡ len
    → len < 2 ^ 31
    → target 0 seek_end y q ≡ len
end-target n len y q has is small = rw has (omega (arith, is))

load-from : (f : ℕ) (x : File) (p : Process) → p.files f ≡ some x → load_file f p ≡ ok x
load-from f x p e = rw (e, load_file) refl

set_len-Counted :
    (held : List ℕ) (n len : ℕ) (p : Process) → Counted held p → Counted held (set_len n len p)
set_len-Counted held n len p v = record { sized = v.sized; counted = v.counted; opened = v.opened }

-- A seek by a call that holds a reference to the file, to a position that is not negative.
held-seek :
    (fd f offset whence pos : ℕ) (y : File) (held : List ℕ) (p : Process)
    → Counted (f ∷ held) p
    → slot fd p.p_files ≡ some f
    → p.files f ≡ some y
    → ltb seek_end whence ≡ false
    → target offset whence y p ≡ pos
    → is_negative pos ≡ false
    → Returns
        (λ r. Counted (f ∷ held) r.1 × SameBut f (record y { f_pos = pos }) p r.1)
        (do_lseek fd offset whence p)
held-seek fd f offset whence pos y held p v at found right aims up =
    let below : fd < nfiles = omega (arith, slot-below f fd p.p_files at, v.sized) in
    let good : bad_fd fd ≡ false = ground arith in
    Returns-mono (do_lseek-Sought fd offset whence (f ∷ held) p v) (λ r (counts, s).
      let (z, is, m) = rw (good, right, at) at s in
      let same : z ≡ y = cc (is, found) in
      let m1 =
        subst
          (λ u. Moved (is_negative (target offset whence u p)) (target offset whence u p) f u p r)
          same m in
      let m2 = subst (λ t. Moved (is_negative t) t f y p r) aims m1 in
      (counts, (subst (λ b. Moved b pos f y p r) up m2).1))

module _ (fd f n nbytes b l : ℕ) (x : File) (op : ℕ → ℕ → ℕ × ℕ) (held : List ℕ) (p : Process)
    (v : Counted held p) (at : slot fd p.p_files ≡ some f) (found : p.files f ≡ some x)
    (vnode : x.f_vnode ≡ some n) (regular : has_type 8 (p.vnodes n).vn_mode ≡ true)
    (short : l < 2 ^ 31) where
  abbrev got : Process
  got = put_file f (some (record x { f_refcount = x.f_refcount + 1 })) p

  abbrev Result : ℕ → Code × Process → Type 0
  Result end r = Counted held r.1 × ((r.0 ≡ done b) × Wrote f n end l x p r.1)

  refs : 0 < x.f_refcount
  refs = ground (arith, found, v.opened f)

  finish :
      (end : ℕ) (p1 p2 : Process)
      → SameBut f (record x { f_refcount = x.f_refcount + 1; f_pos = end }) (set_len n l p1) p2
      → (y : File) → SameBut f y got p1
      → Counted (f ∷ held) p2
      → Returns (Result end) (fput f p2 >>= λ p3. ok (done b, p3))
  finish end p1 p2 moved y before counts =
      Returns-bind (release f (record x { f_pos = end }) held p2 counts moved.file refs)
        (λ p3 (v3, same). returns (
          v3,
          (
            refl,
            record {
              file = same.file;
              others = λ g other.
                  same.others g other
                  ∙ moved.others g other
                  ∙ before.others g other
                  ∙ ground (arith, other);
              table = same.table ∙ moved.table ∙ before.table;
              longer = rw (same.same_vnodes, moved.same_vnodes, before.same_vnodes) (ground arith);
              other_vnodes = λ m other.
                  rw (same.same_vnodes, moved.same_vnodes, before.same_vnodes)
                    (ground (arith, other));
            },
          ),
        ))

  append_at-Result :
      (v' : Counted (f ∷ held) got)
      → (p.vnodes n).vn_len < 2 ^ 31
      → op (p.vnodes n).vn_len nbytes ≡ (b, l)
      → Returns (Result l) (append_at fd nbytes f n op got)
  unfolding append_at
  append_at-Result v' small writes =
      Returns-bind
        (held-seek fd f 0 seek_end (p.vnodes n).vn_len (record x { f_refcount = x.f_refcount + 1 })
          held got v' at (ground arith) refl
          (end-target n (p.vnodes n).vn_len (record x { f_refcount = x.f_refcount + 1 }) got vnode
            refl small)
          (ground arith))
        (λ (code, p1) (v1, m1).
          let writable : is_writable (p.vnodes n).vn_len (p1.vnodes n) ≡ true =
            rw m1.same_vnodes (ground (arith, regular)) in
          rw (load-from f _ p1 m1.file, writable, writes)
            (Returns-bind
              (held-seek fd f 0 seek_end l
                (record x { f_refcount = x.f_refcount + 1; f_pos = (p.vnodes n).vn_len }) held
                (set_len n l p1) (set_len-Counted (f ∷ held) n l p1 v1) (rw m1.table at) m1.file
                refl
                (end-target n l
                  (record x { f_refcount = x.f_refcount + 1; f_pos = (p.vnodes n).vn_len })
                  (set_len n l p1) vnode (ground arith) short)
                (ground arith))
              (λ (code2, p2) (v2, m2). finish l p1 p2 m2 _ m1 v2)))

  write_at-Result :
      (v' : Counted (f ∷ held) got)
      → x.f_pos + b ≤ l
      → op x.f_pos nbytes ≡ (b, l)
      → Returns (Result (x.f_pos + b)) (write_at fd nbytes f n op got)
  unfolding write_at
  write_at-Result v' within writes =
      rw (load-put f (record x { f_refcount = x.f_refcount + 1 }) p, writes)
        (Returns-bind
          (held-seek fd f b seek_cur (x.f_pos + b) (record x { f_refcount = x.f_refcount + 1 }) held
            (set_len n l got) (set_len-Counted (f ∷ held) n l got v') at (ground arith) refl
            (omega arith) (ground arith))
          (λ (code, p1) (v1, m1).
            let writable : is_writable (x.f_pos + b) (p1.vnodes n) ≡ true =
              rw m1.same_vnodes (ground (arith, regular)) in
            rw (load-from f _ p1 m1.file, writable)
              (finish (x.f_pos + b) got p1 m1 (record x { f_refcount = x.f_refcount + 1 })
                (record {
                  file = ground arith;
                  others = λ g other. refl;
                  table = refl;
                  same_vnodes = refl;
                  same_vputs = refl;
                })
                v1)))

write_got-write_vnode :
    (fd nbytes f n : ℕ) (z : File) (p : Process)
    → p.files f ≡ some z
    → z.f_vnode ≡ some n
    → (can_write z.f_mode || appends z.f_mode) ≡ true
    → write_got fd nbytes (some f, p) ≡ write_vnode fd nbytes f z n p
unfolding write_got
write_got-write_vnode fd nbytes f n z p e has opened =
    rw (load-from f z p e, opened) (simp (has) refl)

-- Where a write starts.
abbrev pub start : ℕ → File → Process → ℕ
start n x p = if appends x.f_mode then (p.vnodes n).vn_len else x.f_pos

-- Writing to a regular file through a descriptor that is open for writing or appending, in a process
-- whose reference counts are right, where the vnode's operation returns `b` bytes and leaves a length
-- of `l` that reaches behind them and fits an int: the write starts at the end of the file if the
-- descriptor appends and at its position if not, no assertion fails, the result is `b`, the position
-- is the new end of the file or has moved on by `b`, the vnode has the length `l`, and the reference
-- counts, the descriptors, the other files and the other vnodes are as they were.
pub do_write-Wrote :
    (fd f n nbytes b l : ℕ) (x : File) (op : ℕ → ℕ → ℕ × ℕ) (held : List ℕ) (p : Process)
    → Counted held p
    → slot fd p.p_files ≡ some f
    → p.files f ≡ some x
    → x.f_vnode ≡ some n
    → (can_write x.f_mode || appends x.f_mode) ≡ true
    → (p.vnodes n).write ≡ some op
    → has_type 8 (p.vnodes n).vn_mode ≡ true
    → start n x p < 2 ^ 31
    → op (start n x p) nbytes ≡ (b, l)
    → start n x p + b ≤ l
    → l < 2 ^ 31
    → Returns
        (λ r.
          Counted held r.1
          × ((r.0 ≡ done b) × Wrote f n (if appends x.f_mode then l else x.f_pos + b) l x p r.1))
        (do_write fd nbytes p)
unfolding do_write write_vnode
do_write-Wrote fd f n nbytes b l x op held p v at found vnode opened has regular small writes within
      short =
    let below : fd < nfiles = omega (arith, slot-below f fd p.p_files at, v.sized) in
    let good : bad_fd fd ≡ false = ground arith in
    rw good (Returns-bind (fget-Got fd held p v good) writes_to)
  where
    file : is_dir (p.vnodes n).vn_mode ≡ false
    file = ground (arith, regular)

    by_mode :
        (v' : Counted (f ∷ held) (put_file f (some (record x { f_refcount = x.f_refcount + 1 })) p))
        → Returns
            (λ r.
              Counted held r.1
              × ((r.0 ≡ done b)
                  × Wrote f n (if appends x.f_mode then l else x.f_pos + b) l x p r.1))
            (write_vnode fd nbytes f
              (record x { f_refcount = x.f_refcount + 1 })
              n
              (put_file f (some (record x { f_refcount = x.f_refcount + 1 })) p))
    by_mode v' = elim (Bool-cases (appends x.f_mode)) [
      | inl adds ↦
          rw (has, file, adds, write_vnode)
            (append_at-Result fd f n nbytes b l x op held p v at found vnode regular short v'
              (rw adds at small) (rw adds at writes))
      | inr over ↦
          rw (has, file, over, write_vnode)
            (write_at-Result fd f n nbytes b l x op held p v at found vnode regular short v'
              (rw over at within) (rw over at writes))
    ]

    writes_to :
        (r : Option ℕ × Process)
        → Got fd held p r
        → Returns
            (λ r'.
              Counted held r'.1
              × ((r'.0 ≡ done b)
                  × Wrote f n (if appends x.f_mode then l else x.f_pos + b) l x p r'.1))
            (write_got fd nbytes r)
    writes_to (none, p') (e, same) = absurd (cc (at, e))
    writes_to (some g, p') (y, here, is, v', same) =
        let is_f : g ≡ f = cc (at, here) in
        let is_x : y ≡ x = cc (is_f, is, found) in
        let same_x : p' ≡ put_file f (some (record x { f_refcount = x.f_refcount + 1 })) p =
          subst (λ h. p' ≡ put_file h (some (record x { f_refcount = x.f_refcount + 1 })) p) is_f
            (subst (λ z. p' ≡ put_file g (some (record z { f_refcount = z.f_refcount + 1 })) p) is_x
              same) in
        let v1 : Counted (f ∷ held)
            (put_file f (some (record x { f_refcount = x.f_refcount + 1 })) p) =
          subst (Counted (f ∷ held)) same_x (subst (λ h. Counted (h ∷ held) p') is_f v') in
        let steps : write_got fd nbytes (some g, p')
            ≡ write_vnode fd nbytes f (record x { f_refcount = x.f_refcount + 1 }) n
                (put_file f (some (record x { f_refcount = x.f_refcount + 1 })) p) =
          ap (λ h. write_got fd nbytes (some h, p')) is_f
          ∙ ap (λ q. write_got fd nbytes (some f, q)) same_x
          ∙ write_got-write_vnode fd nbytes f n (record x { f_refcount = x.f_refcount + 1 })
              (put_file f (some (record x { f_refcount = x.f_refcount + 1 })) p) (ground arith)
              vnode opened in
        subst (Returns _) (sym steps) (by_mode v1)
