-- ===== src/Files/Fresh.antt =====
-- `fget(-1)` of fs/file.c makes a file that no descriptor points to.
use usc_projects.Prelude.{
  ℕ, ◌≡◌, refl, ap, ◌∙◌, true, none, some, ◌==◌, if◌then◌else◌, get_elem?, ==_iff, arith, [],
  update, Option,
}
use usc_projects.Kernel.{ok, ◌>>=◌}
use usc_projects.Files.{File, Process, minus_one, put_file, load_slot, fget, fref, take_ref}
use usc_projects.Files.Counted.{Counted, refcount}

-- The file that `fget(-1)` leaves.
abbrev pub stray : File
stray = record { f_pos = 0; f_mode = 0; f_refcount = 1; f_vnode = none }

abbrev blank_file : File
blank_file = record { f_pos = 0; f_mode = 0; f_refcount = 0; f_vnode = none }

pub load_slot-elem :
    (fd : ℕ) (p : Process) (o : Option ℕ) → get_elem? p.p_files fd ≡ some o → load_slot fd p ≡ ok o
unfolding load_slot
load_slot-elem fd p o is = rw (is, load_slot)

update_twice :
    (files : ℕ → Option File) (g f : ℕ)
    → update (update files g (some blank_file)) g (some stray) f ≡ update files g (some stray) f
update_twice files g f = ground arith

fref-fresh :
    (p : Process) (g : ℕ) → fref g (put_file g (some blank_file) p) ≡ ok (put_file g (some stray) p)
unfolding fref
fref-fresh p g =
    let here : (g == g) ≡ true = (==_iff g g).1 refl in
    rw (here, fref) (λ i. ok (record p { files = λ f. update_twice p.files g f i }))

pub fget-stray :
    (p : Process) (g : ℕ)
    → p.slab ≡ some g
    → fget minus_one p ≡ ok (some g, put_file g (some stray) p)
unfolding fget
fget-stray p g slab =
    ap (λ o. take_ref (elim o [ none ↦ p | some f ↦ put_file f (some blank_file) p ]) o) slab
    ∙ ap (λ r. r >>= λ p1. ok (some g, p1)) (fref-fresh p g)

-- No descriptor points to it, so the counts are wrong from then on.
pub stray-not-Counted :
    (p : Process) (g : ℕ)
    → Counted [] p
    → p.files g ≡ none
    → ¬ Counted [] (put_file g (some stray) p)
stray-not-Counted p g v free w =
    let here : (g == g) ≡ true = (==_iff g g).1 refl in
    omega (
      arith,
      w.counted g,
      v.counted g,
      ap refcount free,
      ap (λ b. refcount (if b then some stray else p.files g)) here,
    )
