-- ===== src/Files/Write.antt =====
-- do_write of fs/vfs_syscall.c.
pub mod Position
use usc_projects.Prelude.{
  ℕ, ◌+◌, ◌/◌, ◌%◌, ◌^◌, Bool, true, false, ◌&&◌, ◌||◌, Option, none, some, List, leb, ◌==◌,
  if◌then◌else◌, update,
}
use usc_projects.Kernel.{Code, done, fail, ebadf, eisdir, Outcome, ok, panic, ◌>>=◌}
use usc_projects.Vm.Area.{add32}
use usc_projects.Files.{File, Vnode, Process, fput, fget, bad_fd}
use usc_projects.Files.Io.{seek_cur, seek_end, is_dir, load_file, do_lseek}

-- FMODE_WRITE and FMODE_APPEND
abbrev pub can_write : ℕ → Bool
can_write mode = mode / 2 % 2 == 1

abbrev pub appends : ℕ → Bool
appends mode = mode / 4 % 2 == 1

-- S_ISCHR, S_ISBLK and S_ISREG
abbrev pub has_type : ℕ → ℕ → Bool
has_type type mode = mode / 2 ^ 8 % 2 ^ 8 == type

-- `a <= b` on two's complement words.
abbrev pub le_int : ℕ → ℕ → Bool
le_int a b = leb (add32 a (2 ^ 31)) (add32 b (2 ^ 31))

-- The assertion on the kind of the vnode and on the position.
abbrev pub is_writable : ℕ → Vnode → Bool
is_writable pos vn =
    has_type 1 vn.vn_mode
    || has_type 4 vn.vn_mode
    || (has_type 8 vn.vn_mode && le_int pos vn.vn_len)

abbrev pub set_len : ℕ → ℕ → Process → Process
set_len n len p = record p { vnodes = update p.vnodes n (record (p.vnodes n) { vn_len = len }) }

-- The two ways to write, past the tests. `n` is the vnode and `op` its operation.
pub append_at : ℕ → ℕ → ℕ → ℕ → (ℕ → ℕ → ℕ × ℕ) → Process → Outcome (Code × Process)
append_at fd nbytes f n op p = do
  (code, p1) ← do_lseek fd 0 seek_end p
  x ← load_file f p1
  if is_writable x.f_pos (p1.vnodes n)
      then (do
        (code2, p2) ← do_lseek fd 0 seek_end (set_len n (op x.f_pos nbytes).1 p1)
        p3 ← fput f p2
        ok (done (op x.f_pos nbytes).0, p3))
      else panic

pub write_at : ℕ → ℕ → ℕ → ℕ → (ℕ → ℕ → ℕ × ℕ) → Process → Outcome (Code × Process)
write_at fd nbytes f n op p = do
  x ← load_file f p
  (code, p1) ← do_lseek fd (op x.f_pos nbytes).0 seek_cur (set_len n (op x.f_pos nbytes).1 p)
  y ← load_file f p1
  if is_writable y.f_pos (p1.vnodes n)
      then (fput f p1 >>= λ p2. ok (done (op x.f_pos nbytes).0, p2))
      else panic

pub write_vnode : ℕ → ℕ → ℕ → File → ℕ → Process → Outcome (Code × Process)
unfolding append_at write_at
write_vnode fd nbytes f x n p = elim (p.vnodes n).write [
  | none ↦ fput f p >>= λ p1. ok (fail eisdir, p1)
  | some op ↦
      if is_dir (p.vnodes n).vn_mode
      then (fput f p >>= λ p1. ok (fail eisdir, p1))
      else if appends x.f_mode
      then append_at fd nbytes f n op p
      else write_at fd nbytes f n op p
]

pub write_got : ℕ → ℕ → Option ℕ × Process → Outcome (Code × Process)
unfolding write_vnode
write_got fd nbytes (none, p) = ok (fail ebadf, p)
write_got fd nbytes (some f, p) = load_file f p >>= λ x.
    if can_write x.f_mode || appends x.f_mode
    then elim x.f_vnode [ none ↦ panic | some n ↦ write_vnode fd nbytes f x n p ]
    else (fput f p >>= λ p1. ok (fail ebadf, p1))

pub do_write : ℕ → ℕ → Process → Outcome (Code × Process)
unfolding write_got
do_write fd nbytes p = if bad_fd fd then ok (fail ebadf, p) else fget fd p >>= write_got fd nbytes
