-- ===== src/Vm/Mmap/Mapped.antt =====
-- What do_mmap of vm/kernel/vm/mmap.c does with the address space and the files of the process.
use usc_projects.Prelude.{
  ℕ, ◌+◌, ◌*◌, ◌/◌, ◌%◌, ◌≤◌, ◌<◌, ◌≡◌, ◌⊎◌, refl, ap, inl, inr, true, false, not, ◌&&◌, ◌||◌, none,
  some, [], leb, ltb, ◌==◌, length, get_elem?, All, Bool-cases, ==_iff, arith,
}
use usc_projects.Kernel.{Code, done, Returns, returns, Returns-bind}
use usc_projects.Files.{File, Process, nfiles, is_negative, put_file}
use usc_projects.Files.Counted.{Counted}
use usc_projects.Files.Fresh.{stray, load_slot-elem, fget-stray, stray-not-Counted}
use usc_projects.Vm.Area.{Vmarea, mapped, addr_to_pn, page_size, page_low, page_high}
use usc_projects.Vm.Vmmap.{Vmmap}
use usc_projects.Vm.Vmmap.Remove.Place.{IsRemovable}
use usc_projects.Vm.Vmmap.Map.{Mapping, valid_request}
use usc_projects.Vm.Vmmap.Map.Pages.{vmmap_map-mapped}
use usc_projects.Vm.Mmap.{
  Call, Around, is_flag, is_denied, request_of, mmap_file, mmap_fresh, mmap_slot, do_mmap,
}

-- The two ways in which a mapping is allowed: MAP_SHARED, and MAP_PRIVATE of a file that is open
-- for reading only.
abbrev pub IsAllowed : Call → File → Type 0
IsAllowed c x = (c.prot ≡ 4) × ((c.flags ≡ 1) ⊎ ((c.flags ≡ 2) × (x.f_mode ≡ 1)))

allowed-tests :
    (c : Call) (x : File)
    → IsAllowed c x
    → (is_flag c.flags ≡ true) × (is_denied c x ≡ false) × ((c.prot == 4) ≡ true)
allowed-tests c x (prot, inl flags) = (ground arith, ground arith, ground arith)
allowed-tests c x (prot, inr (flags, mode)) = (ground arith, ground arith, ground arith)

fits_request :
    (around : Around) (c : Call) (x : File)
    → IsAllowed c x
    → c.off % page_size ≡ 0
    → page_low ≤ addr_to_pn c.addr
    → addr_to_pn c.addr + (c.len / page_size + 1) ≤ page_high
    → valid_request (request_of around c x) ≡ true
unfolding valid_request
fits_request around c x (prot, allowed) off low high =
    let flags : not (c.flags % 4 == 0) ≡ true = elim allowed [
      | inl shared ↦ ground arith
      | inr (private, mode) ↦ ground arith
    ] in
    ground arith

-- What a call that maps leads to.
abbrev pub MmapDone : Call → ℕ → Process → Vmmap → Code × Process × Mapping → Type 0
MmapDone c g p map (code, p1, m) =
    (code ≡ done 0)
    × (p1 ≡ put_file g (some stray) p)
    × ¬ Counted [] p1
    × ((vfn : ℕ)
        → mapped m.map.vmm_list vfn ≡ (
            (leb (addr_to_pn c.addr) vfn && ltb vfn (addr_to_pn c.addr + (c.len / page_size + 1)))
            || mapped map.vmm_list vfn))

-- When do_mmap maps a file that a descriptor points to, with MAP_SHARED, or with MAP_PRIVATE if
-- the file is open for reading only, with PROT_EXEC, at page aligned addresses and offsets and
-- over pages of user memory, and the vnode's mmap operation gives an object; when each area that
-- is already there holds a page, lies in user memory, has a memory object and does not start below
-- the new range and end exactly where the range ends; and when a file can be allocated, and more
-- than two areas for each area that is there; and when the reference counts of the files are
-- right: it returns 0, and then exactly the pages of the range and the pages that were mapped
-- before are mapped. No descriptor changes, but the file that its `fget(-1)` made stays allocated
-- with a reference that nobody holds, so the reference counts are not right any more.
pub do_mmap-MmapDone :
    (around : Around) (c : Call) (p : Process) (map : Vmmap) (f g v obj : ℕ) (x : File)
    → IsAllowed c x
    → c.addr % page_size ≡ 0
    → c.off % page_size ≡ 0
    → page_low ≤ addr_to_pn c.addr
    → addr_to_pn c.addr + (c.len / page_size + 1) ≤ page_high
    → c.fd < 32
    → get_elem? p.p_files c.fd ≡ some (some f)
    → p.files f ≡ some x
    → x.f_vnode ≡ some v
    → ((a : Vmarea) → around.vn_mmap v a ≡ inr obj)
    → Counted [] p
    → p.slab ≡ some g
    → p.files g ≡ none
    → All
        (IsRemovable (addr_to_pn c.addr) (addr_to_pn c.addr + (c.len / page_size + 1)))
        map.vmm_list
    → 2 * length map.vmm_list < map.free_areas
    → Returns (MmapDone c g p map) (do_mmap around c p map)
unfolding do_mmap mmap_slot mmap_fresh mmap_file
do_mmap-MmapDone around c p map f g v obj x allowed aligned off low high fd slot file vnode gives
      counts slab free sound space =
    let (flag, granted, exec) = allowed-tests c x allowed in
    let in_table : (is_negative c.fd || leb nfiles c.fd) ≡ false = ground arith in
    let page : (c.addr % page_size == 0) ≡ true = ground arith in
    let p1 = put_file g (some stray) p in
    let still : p1.files f ≡ some x = elim (Bool-cases (g == f)) [
      | inl same ↦ cc (file, free, ap p.files ((==_iff g f).0 same))
      | inr other ↦ rw other file
    ] in
    let r = request_of around c x in
    let run =
      vmmap_map-mapped r obj (some obj)
        (inr (
          around.vn_mmap v,
          ap (λ o. elim o [ none ↦ none | some w ↦ some (around.vn_mmap w) ]) vnode,
          gives,
          refl,
        ))
        (fits_request around c x allowed off low high) low (omega arith) high map sound space in
    rw
      (
        flag,
        in_table,
        load_slot-elem c.fd p (some f) slot,
        exec,
        page,
        fget-stray p g slab,
        still,
        granted,
      )
      (Returns-bind run
        λ (code, m) (ended, shows). returns (refl, refl, stray-not-Counted p g counts free, shows))
