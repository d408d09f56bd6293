-- ===== src/Vm/Vmmap/Copy.antt =====
-- vmmap_read of vm/kernel/vm/vmmap.c: bytes of an address space are copied out.
pub mod Bytes
mod Tests
use usc_projects.Prelude.{
  ℕ, zero, suc, ◌+◌, ◌-◌, ◌*◌, ◌/◌, ◌%◌, Bool, ◌&&◌, Option, none, some, leb, ltb, ◌==◌,
  if◌then◌else◌,
}
use usc_projects.Kernel.{Code, done, fail, efault, Outcome, ok, panic, ◌>>=◌}
use usc_projects.Vm.Area.{Vmarea, addr_to_pn, page_size}
use usc_projects.Vm.Vmmap.{Vmmap, vmmap_lookup}

-- The frame that pframe_get finds for a page, `none` without an area or when it fails. A NULL
-- object is followed.
pub frame_at : (ℕ → ℕ → Option ℕ) → ℕ → Option Vmarea → Outcome (Option ℕ)
frame_at pframe_get vfn none = ok none
frame_at pframe_get vfn (some a) = elim a.vma_obj [
  | none ↦ panic
  | some obj ↦ ok (pframe_get obj vfn)
]

-- memcpy of `n` bytes of the memory from `from` on to the place `to` of the buffer.
abbrev pub memcpy : (ℕ → ℕ) → ℕ → ℕ → ℕ → (ℕ → ℕ) → ℕ → ℕ
memcpy memory to from n buf j =
    if leb to j && ltb j (to + n) then memory (from + (j - to)) else buf j

-- The loop, with `size` rounds left. The buffer is a function of the distance from `buf`.
pub read_loop :
    (ℕ → ℕ → Option ℕ) → (ℕ → ℕ) → Vmmap → ℕ → ℕ → ℕ → ℕ → (ℕ → ℕ) → Outcome (Code × (ℕ → ℕ))
read_loop pframe_get memory map count zero i vfn buf = ok (done 0, buf)
read_loop pframe_get memory map count (suc size) i vfn buf =
    frame_at pframe_get vfn (vmmap_lookup map vfn) >>= λ found. elim found [
      | none ↦ ok (fail efault, buf)
      | some frame ↦
          read_loop pframe_get memory map count size (i + 1) (vfn + 1)
            (memcpy memory (i * page_size) frame (count - i * page_size) buf)
    ]

abbrev pub pages_of : ℕ → ℕ
pages_of count =
    if count / page_size == 0
    then 1
    else if count % page_size == 0
    then count / page_size
    else count / page_size + 1

pub vmmap_read : (ℕ → ℕ → Option ℕ) → (ℕ → ℕ) → Vmmap → ℕ → ℕ → (ℕ → ℕ) → Outcome (Code × (ℕ → ℕ))
vmmap_read pframe_get memory map vaddr count buf =
    read_loop pframe_get memory map count (pages_of count) 0 (addr_to_pn vaddr) buf
