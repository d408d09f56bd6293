-- ===== src/Vm/Mmap.antt =====
-- do_mmap of vm/kernel/vm/mmap.c: a file of the process is mapped into its address space.
pub mod Mapped
mod Tests
use usc_projects.Prelude.{
  ℕ, ◌+◌, ◌/◌, ◌%◌, Bool, true, false, not, ◌&&◌, ◌||◌, ◌⊎◌, Option, none, some, leb, ◌==◌,
  if◌then◌else◌,
}
use usc_projects.Kernel.{
  Errno, Code, done, fail, eperm, ebadf, eacces, einval, Outcome, ok, panic, ◌>>=◌,
}
use usc_projects.Files.{File, Process, nfiles, is_negative, minus_one, load_slot, fget}
use usc_projects.Vm.Area.{Vmarea, addr_to_pn, page_size}
use usc_projects.Vm.Vmmap.{Vmmap, hilo}
use usc_projects.Vm.Vmmap.Map.{Request, Mapping, unchanged, vmmap_map}

-- The arguments; each is the 32-bit word of its type.
pub record Call : Type 0 where
  pub addr : ℕ
  pub len : ℕ
  pub prot : ℕ
  pub flags : ℕ
  pub fd : ℕ
  pub off : ℕ

-- What vmmap_map finds around it, and the mmap operation of each vnode.
pub record Around : Type 0 where
  pub head : Vmarea
  pub blank : Vmarea
  pub anon : Option ℕ
  pub vn_mmap : ℕ → Vmarea → Errno ⊎ ℕ

-- MAP_SHARED, MAP_PRIVATE, MAP_FIXED and MAP_ANON are 1, 2, 4 and 8, and must stand alone.
abbrev pub is_flag : ℕ → Bool
is_flag flags = flags == 1 || flags == 2 || flags == 4 || flags == 8

-- The three tests of the mode. `FMODE_READ || FMODE_WRITE` is 1, PROT_WRITE 2 and FMODE_APPEND 4.
abbrev pub is_denied : Call → File → Bool
is_denied c x =
    c.flags == 2 && not (x.f_mode == 1)
    || c.flags == 1 && c.prot == 2 && not (x.f_mode == 1)
    || c.flags == 1 && c.prot == 2 && not (x.f_mode == 4)

abbrev pub request_of : Around → Call → File → Request
request_of around c x = record {
  head = around.head;
  blank = around.blank;
  anon = around.anon;
  file = elim x.f_vnode [ none ↦ none | some v ↦ some (around.vn_mmap v) ];
  lopage = addr_to_pn c.addr;
  npages = c.len / page_size + 1;
  prot = c.prot;
  flags = c.flags;
  off = c.off;
  dir = hilo;
}

-- The code of vmmap_map is dropped.
pub mmap_file : Around → Call → Vmmap → Process → Option File → Outcome (Code × Process × Mapping)
mmap_file around c map p none = panic
mmap_file around c map p (some x) =
    if is_denied c x
    then ok (fail eacces, p, unchanged map)
    else (vmmap_map (request_of around c x) map >>= λ (code, m). ok (done 0, p, m))

-- The file that `fget(-1)` makes is not used. Without memory for it, fput gets NULL.
pub mmap_fresh : Around → Call → ℕ → Vmmap → Option ℕ × Process → Outcome (Code × Process × Mapping)
mmap_fresh around c f map (none, p) = panic
mmap_fresh around c f map (some fresh, p) = mmap_file around c map p (p.files f)

-- The tests behind that of the descriptor.
pub mmap_slot : Around → Call → Process → Vmmap → Option ℕ → Outcome (Code × Process × Mapping)
mmap_slot around c p map none = ok (fail ebadf, p, unchanged map)
mmap_slot around c p map (some f) =
    if not (c.prot == 4)
    then ok (fail eperm, p, unchanged map)
    else if not (c.addr % page_size == 0)
    then ok (fail einval, p, unchanged map)
    else fget minus_one p >>= mmap_fresh around c f map

-- do_mmap. The tests of `sizeof` and of -EMFILE never hold. Wrong flags give 22, EINVAL without
-- its sign.
pub do_mmap : Around → Call → Process → Vmmap → Outcome (Code × Process × Mapping)
unfolding mmap_slot
do_mmap around c p map =
    if not (is_flag c.flags)
    then ok (done 22, p, unchanged map)
    else if is_negative c.fd || leb nfiles c.fd
    then ok (fail ebadf, p, unchanged map)
    else load_slot c.fd p >>= mmap_slot around c p map
