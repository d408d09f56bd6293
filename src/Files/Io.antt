-- ===== src/Files/Io.antt =====
-- Positions of open files: do_lseek, do_read and do_getdent of fs/vfs_syscall.c.
pub mod Seek
pub mod Read
pub mod Getdent
use usc_projects.Prelude.{
  ℕ, ◌+◌, ◌-◌, ◌/◌, ◌%◌, ◌^◌, Bool, true, false, not, ◌&&◌, ◌||◌, Option, none, some, List, ltb,
  leb, ◌==◌, if◌then◌else◌,
}
use usc_projects.Kernel.{
  Code, done, fail, ebadf, eisdir, enotdir, einval, Outcome, ok, panic, ◌>>=◌,
}
use usc_projects.Vm.Area.{add32}
use usc_projects.Files.{File, Vnode, Process, is_negative, put_file, fput, fget, bad_fd}

abbrev pub seek_set : ℕ
seek_set = 0

abbrev pub seek_cur : ℕ
seek_cur = 1

abbrev pub seek_end : ℕ
seek_end = 2

-- S_ISDIR
abbrev pub is_dir : ℕ → Bool
is_dir mode = mode / 2 ^ 8 % 2 ^ 8 == 2

-- FMODE_READ
abbrev pub can_read : ℕ → Bool
can_read mode = mode % 2 == 1

-- Following the pointers to a file and to its vnode.
abbrev pub load_file : ℕ → Process → Outcome File
load_file f p = elim (p.files f) [ none ↦ panic | some x ↦ ok x ]

abbrev pub load_vnode : File → Process → Outcome Vnode
load_vnode x p = elim x.f_vnode [ none ↦ panic | some v ↦ ok (p.vnodes v) ]

-- The position that do_lseek computes, before its test that it is not negative.
pub sought : ℕ → ℕ → File → Process → Outcome ℕ
sought offset whence x p =
    if whence == seek_set
    then ok offset
    else if whence == seek_cur
    then ok (add32 x.f_pos offset)
    else load_vnode x p >>= λ vn. ok (add32 vn.vn_len offset)

-- The end of do_lseek: the position that it returns is read when the reference is given back.
pub seek_to : ℕ → ℕ → Process → Outcome (Code × Process)
seek_to pos f p = if is_negative pos then (fput f p >>= λ p1. ok (fail einval, p1)) else do
  x ← load_file f p
  p1 ← fput f (put_file f (some (record x { f_pos = pos })) p)
  y ← load_file f p1
  ok (done y.f_pos, p1)

pub seek_got : ℕ → ℕ → Option ℕ × Process → Outcome (Code × Process)
unfolding sought seek_to
seek_got offset whence (none, p) = ok (fail ebadf, p)
seek_got offset whence (some f, p) = do
  x ← load_file f p
  pos ← sought offset whence x p
  seek_to pos f p

pub do_lseek : ℕ → ℕ → ℕ → Process → Outcome (Code × Process)
unfolding seek_got
do_lseek fd offset whence p =
    if bad_fd fd
    then ok (fail ebadf, p)
    else if ltb seek_end whence
    then ok (fail einval, p)
    else fget fd p >>= seek_got offset whence

-- do_read from the call of the vnode's operation on: its result is an unsigned word, which is also
-- what the function returns, so a result of 2 ^ 31 or more is a negated error number.
pub read_at : ℕ → ℕ → ℕ → ℕ → Process → Outcome (Code × Process)
read_at fd nbytes bytes f p = do
  (code, p1) ← if bytes == nbytes then do_lseek fd bytes seek_cur p else do_lseek fd 0 seek_end p
  p2 ← fput f p1
  ok (done bytes, p2)

pub read_vnode : ℕ → ℕ → ℕ → File → Process → Vnode → Outcome (Code × Process)
unfolding read_at
read_vnode fd nbytes f x p vn = elim vn.read [
  | none ↦ fput f p >>= λ p1. ok (fail eisdir, p1)
  | some op ↦
      if is_dir vn.vn_mode
      then (fput f p >>= λ p1. ok (fail eisdir, p1))
      else if nbytes == 0
      then (fput f p >>= λ p1. ok (done 0, p1))
      else read_at fd nbytes (op x.f_pos nbytes) f p
]

pub read_got : ℕ → ℕ → Option ℕ × Process → Outcome (Code × Process)
unfolding read_vnode
read_got fd nbytes (none, p) = ok (fail ebadf, p)
read_got fd nbytes (some f, p) = load_file f p >>= λ x.
    if can_read x.f_mode
    then (load_vnode x p >>= read_vnode fd nbytes f x p)
    else (fput f p >>= λ p1. ok (fail ebadf, p1))

pub do_read : ℕ → ℕ → Process → Outcome (Code × Process)
unfolding read_got
do_read fd nbytes p = if bad_fd fd then ok (fail ebadf, p) else fget fd p >>= read_got fd nbytes

-- sizeof(dirent_t): two words, 29 characters and the padding.
abbrev pub dirent_size : ℕ
dirent_size = 40

-- do_getdent from the call of readdir on. Any result but 0, an error included, counts as an entry.
pub getdent_at : ℕ → ℕ → ℕ → Process → Outcome (Code × Process)
getdent_at fd bytes f p = do
  p1 ← fput f p
  if bytes == 0
      then (do_lseek fd 0 seek_end p1 >>= λ (code, p2). ok (done 0, p2))
      else (do_lseek fd bytes seek_cur p1 >>= λ (code, p2). ok (done dirent_size, p2))

pub getdent_vnode : ℕ → ℕ → File → Process → Vnode → Outcome (Code × Process)
unfolding getdent_at
getdent_vnode fd f x p vn = elim vn.readdir [
  | none ↦ fput f p >>= λ p1. ok (fail enotdir, p1)
  | some op ↦
      if is_dir vn.vn_mode
      then getdent_at fd (op x.f_pos) f p
      else (fput f p >>= λ p1. ok (fail enotdir, p1))
]

pub getdent_got : ℕ → Option ℕ × Process → Outcome (Code × Process)
unfolding getdent_vnode
getdent_got fd (none, p) = ok (fail ebadf, p)
getdent_got fd (some f, p) = load_file f p >>= λ x. load_vnode x p >>= getdent_vnode fd f x p

pub do_getdent : ℕ → Process → Outcome (Code × Process)
unfolding getdent_got
do_getdent fd p = if bad_fd fd then ok (fail ebadf, p) else fget fd p >>= getdent_got fd
