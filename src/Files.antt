-- ===== src/Files.antt =====
-- The file descriptors of a process: fs/file.c of weenix/kernel, get_empty_fd of fs/open.c, and the
-- calls on descriptors of fs/vfs_syscall.c.
pub mod Counted
pub mod Fresh
pub mod Close
pub mod Dup
pub mod Dup2
pub mod Io
pub mod Write
mod Tests
use usc_projects.Prelude.{
  ℕ, zero, suc, ◌+◌, ◌-◌, ◌/◌, ◌%◌, ◌^◌, Bool, true, false, not, ◌&&◌, ◌||◌, Option, none, some,
  List, [], ◌∷◌, ltb, leb, ◌==◌, if◌then◌else◌, update, length, get_elem?, set,
}
use usc_projects.Kernel.{Code, done, fail, ebadf, eisdir, einval, emfile, Outcome, ok, panic, ◌>>=◌}
use usc_projects.Vm.Area.{word, add32}

-- `file_t`. An `int` or `off_t` is its 32-bit word, so a negative one is 2 ^ 31 or more. The vnode
-- is NULL as `none`.
pub record File : Type 0 where
  pub f_pos : ℕ
  pub f_mode : ℕ
  pub f_refcount : ℕ
  pub f_vnode : Option ℕ

-- The fields of `vnode_t` that the calls read. `read`, `readdir` and `write` are the operations,
-- `none` for a NULL pointer; they get the position, `read` and `write` the number of bytes, too, and
-- give the word that they return, `write` also the length of the file then.
pub record Vnode : Type 0 where
  pub vn_len : ℕ
  pub vn_mode : ℕ
  pub read : Option (ℕ → ℕ → ℕ)
  pub readdir : Option (ℕ → ℕ)
  pub write : Option (ℕ → ℕ → ℕ × ℕ)

-- The descriptor table, the files that are allocated, the vnodes, the vnodes on which vput was
-- called, newest first, and the object that the slab gives next.
pub record Process : Type 0 where
  pub p_files : List (Option ℕ)
  pub files : ℕ → Option File
  pub vnodes : ℕ → Vnode
  pub vputs : List ℕ
  pub slab : Option ℕ

abbrev pub nfiles : ℕ
nfiles = 32

abbrev pub is_negative : ℕ → Bool
is_negative w = leb (2 ^ 31) w

abbrev pub minus_one : ℕ
minus_one = 2 ^ 32 - 1

-- The assertions on `f_mode` and `f_pos` in fref and fput.
abbrev pub is_sound : File → Bool
is_sound x = ltb x.f_mode 8 && (not (is_negative x.f_pos) || x.f_pos == minus_one)

abbrev pub has_vnode : File → Bool
has_vnode x = elim x.f_vnode [ none ↦ false | some _ ↦ true ]

abbrev pub put_file : ℕ → Option File → Process → Process
put_file f x p = record p { files = update p.files f x }

pub fref : ℕ → Process → Outcome Process
fref f p = elim (p.files f) [
  | none ↦ panic
  | some x ↦
      if is_sound x && (x.f_refcount == 0 || has_vnode x)
      then ok (put_file f (some (record x { f_refcount = x.f_refcount + 1 })) p)
      else panic
]

-- vput on the vnode of a file that is freed.
abbrev pub drop_vnode : Option ℕ → Process → Process
drop_vnode none p = p
drop_vnode (some v) p = record p { vputs = v ∷ p.vputs }

-- fput past its assertions: a file with no reference left is freed.
abbrev pub put_back : ℕ → File → Process → Process
put_back f x p =
    if x.f_refcount == 1
    then drop_vnode x.f_vnode (put_file f none p)
    else put_file f (some (record x { f_refcount = x.f_refcount - 1 })) p

pub fput : ℕ → Process → Outcome Process
fput f p = elim (p.files f) [
  | none ↦ panic
  | some x ↦
      if is_sound x && not (x.f_refcount == 0) && (x.f_refcount == 1 || has_vnode x)
      then ok (put_back f x p)
      else panic
]

-- A read or a write outside of the table stops the model.
unfoldable pub load_slot : ℕ → Process → Outcome (Option ℕ)
load_slot fd p = elim (get_elem? p.p_files fd) [ none ↦ panic | some o ↦ ok o ]

pub store_slot : ℕ → Option ℕ → Process → Outcome Process
store_slot fd o p =
    if ltb fd (length p.p_files) then ok (record p { p_files = set p.p_files fd o }) else panic

-- The last lines of fget.
abbrev pub take_ref : Process → Option ℕ → Outcome (Option ℕ × Process)
take_ref p none = ok (none, p)
take_ref p (some f) = fref f p >>= λ p'. ok (some f, p')

-- A fresh file has all fields 0.
abbrev pub clear_file : Process → Process
clear_file p = elim p.slab [
  | none ↦ p
  | some f ↦ put_file f (some (record { f_pos = 0; f_mode = 0; f_refcount = 0; f_vnode = none })) p
]

pub fget : ℕ → Process → Outcome (Option ℕ × Process)
fget fd p =
    if fd == minus_one
    then take_ref (clear_file p) p.slab
    else if is_negative fd || leb nfiles fd
    then ok (none, p)
    else load_slot fd p >>= take_ref p

-- The loop of get_empty_fd from one slot on; `none` is -EMFILE.
pub first_empty : ℕ → List (Option ℕ) → Option ℕ
first_empty fd [] = none
first_empty fd (none ∷ rest) = some fd
first_empty fd (some _ ∷ rest) = first_empty (suc fd) rest

pub get_empty_fd : Process → Option ℕ
unfolding first_empty
get_empty_fd p = first_empty 0 p.p_files

-- The first test of every call on a descriptor.
abbrev pub bad_fd : ℕ → Bool
bad_fd fd = is_negative fd || ltb nfiles fd

pub close_got : ℕ → Option ℕ × Process → Outcome (Code × Process)
close_got fd (none, p) = ok (fail ebadf, p)
close_got fd (some f, p) = do
  p1 ← fput f p
  p2 ← fput f p1
  p3 ← store_slot fd none p2
  ok (done 0, p3)

pub do_close : ℕ → Process → Outcome (Code × Process)
unfolding close_got
do_close fd p = if bad_fd fd then ok (fail ebadf, p) else fget fd p >>= close_got fd

-- The descriptor points to the file, and fget and fput are called on it once more.
pub point_to : ℕ → ℕ → Process → Outcome (Code × Process)
point_to fd f p = do
  p1 ← store_slot fd (some f) p
  (nfile, p2) ← fget fd p1
  elim nfile [ none ↦ panic | some g ↦ fput g p2 >>= λ p3. ok (done fd, p3) ]

pub dup_got : Option ℕ × Process → Outcome (Code × Process)
unfolding point_to
dup_got (none, p) = ok (fail ebadf, p)
dup_got (some f, p) = elim (get_empty_fd p) [
  | none ↦ fput f p >>= λ p1. ok (fail emfile, p1)
  | some new_fd ↦ point_to new_fd f p
]

pub do_dup : ℕ → Process → Outcome (Code × Process)
unfolding dup_got
do_dup fd p = if bad_fd fd then ok (fail ebadf, p) else fget fd p >>= dup_got

-- do_dup2 from the test whether `nfd` is in use.
pub dup2_into : ℕ → ℕ → ℕ → Process → Option ℕ → Outcome (Code × Process)
unfolding point_to
dup2_into ofd nfd f p o = if nfd == ofd then (fput f p >>= λ p1. ok (done nfd, p1)) else elim o [
  | none ↦ point_to nfd f p
  | some _ ↦ do_close nfd p >>= λ (code, p1). point_to nfd f p1
]

pub dup2_got : ℕ → ℕ → Option ℕ × Process → Outcome (Code × Process)
unfolding dup2_into
dup2_got ofd nfd (none, p) = ok (fail ebadf, p)
dup2_got ofd nfd (some f, p) =
    if bad_fd nfd
    then (fput f p >>= λ p1. ok (fail ebadf, p1))
    else load_slot nfd p >>= dup2_into ofd nfd f p

pub do_dup2 : ℕ → ℕ → Process → Outcome (Code × Process)
unfolding dup2_got
do_dup2 ofd nfd p = if bad_fd ofd then ok (fail ebadf, p) else fget ofd p >>= dup2_got ofd nfd
