-- ===== src/Files/Dup2.antt =====
-- What do_dup2 of fs/vfs_syscall.c does to the descriptors of a process.
use usc_projects.Prelude.{
  ℕ, zero, suc, ◌+◌, ◌<◌, ◌≡◌, ◌≢◌, refl, sym, ap, subst, ◌∙◌, false, Option, none, some, List, [],
  ◌∷◌, ◌==◌, if◌then◌else◌, set, arith, Bool-cases, inl, inr,
}
use usc_projects.Kernel.{
  Code, done, fail, ebadf, panic, ◌>>=◌, Returns, returns, Returns-bind, Returns-mono,
  Returns-value,
}
use usc_projects.Files.{
  File, Process, nfiles, put_file, bad_fd, point_to, dup2_into, dup2_got, do_dup2, do_close,
}
use usc_projects.Files.Counted.{
  slot, Counted, Got, fget-Got, slot-below, load_slot-slot, load_slot-panic,
}
use usc_projects.Files.Close.{touched-Counted, fput-touched, Closed, do_close-Closed}
use usc_projects.Files.Dup.{slot-set, point_to-Pointed}

set-same : (fd f : ℕ) (l : List (Option ℕ)) → slot fd l ≡ some f → set l fd (some f) ≡ l
set-same fd f [] e = refl
set-same zero f (o ∷ rest) e = rw e refl
set-same (suc fd) f (o ∷ rest) e = ap (λ r. o ∷ r) (set-same fd f rest e)

set-set : (fd : ℕ) (l : List (Option ℕ)) (a b : Option ℕ) → set (set l fd a) fd b ≡ set l fd b
set-set fd [] a b = refl
set-set zero (o ∷ rest) a b = refl
set-set (suc fd) (o ∷ rest) a b = ap (λ r. o ∷ r) (set-set fd rest a b)

-- The result of do_dup2, given the file of the old descriptor.
abbrev pub Dupped2 : ℕ → Option ℕ → List ℕ → Process → Code × Process → Type 0
Dupped2 nfd none held p (code, p') = (code ≡ fail ebadf) × (p' ≡ p)
Dupped2 nfd (some f) held p (code, p') =
    (code ≡ (if bad_fd nfd then fail ebadf else done nfd))
    × (p'.p_files ≡ (if bad_fd nfd then p.p_files else set p.p_files nfd (some f)))

module _ (ofd nfd f : ℕ) (x : File) (held : List ℕ) (p : Process) (v : Counted held p)
    (at : slot ofd p.p_files ≡ some f) (found : p.files f ≡ some x) where
  -- The process after fget on the old descriptor.
  abbrev got : Process
  got = put_file f (some (record x { f_refcount = x.f_refcount + 1 })) p

  into-table :
      (v' : Counted (f ∷ held) got)
      → nfd < nfiles
      → (o : Option ℕ) → slot nfd p.p_files ≡ o
      → Returns
          (λ (code, p').
            Counted held p' × (code ≡ done nfd) × (p'.p_files ≡ set p.p_files nfd (some f)))
          (dup2_into ofd nfd f got o)
  unfolding dup2_into
  into-table v' below o e = elim (Bool-cases (nfd == ofd)) [
    | inl same ↦
        let is : ofd ≡ nfd = ground (arith, same) in
        rw (same, fput-touched f x held p v found v')
          (returns
            (touched-Counted f x held p v found, refl, sym (set-same nfd f p.p_files (rw⁻¹ is at))))
    | inr other ↦ rw other (filled o e)
  ]
    where
      filled :
          (o : Option ℕ)
          → slot nfd p.p_files ≡ o
          → Returns
              (λ (code, p').
                Counted held p' × (code ≡ done nfd) × (p'.p_files ≡ set p.p_files nfd (some f)))
              (elim o [
                | none ↦ point_to nfd f got
                | some _ ↦ do_close nfd got >>= λ (code, p1). point_to nfd f p1
              ])
      filled none e =
          Returns-mono (point_to-Pointed nfd f held got v' below e)
            (λ (code, p') (ended, to). (to.counts, ended, to.table))
      filled (some g) e =
          let good : bad_fd nfd ≡ false = ground arith in
          let closed : Returns (Closed nfd (some g) (f ∷ held) got) (do_close nfd got) =
            subst (λ s. Returns (Closed nfd s (f ∷ held) got) (do_close nfd got)) e
              (subst
                (λ b.
                  Returns (Closed nfd (if b then none else slot nfd p.p_files) (f ∷ held) got)
                    (do_close nfd got))
                good (do_close-Closed nfd (f ∷ held) got v')) in
          Returns-bind closed (λ (code, p1) (ended, emptied).
            let free : slot nfd p1.p_files ≡ none =
              rw emptied.table (slot-set nfd p.p_files none (omega (arith, v.sized))) in
            Returns-mono (point_to-Pointed nfd f held p1 emptied.counts below free)
              (λ (code', p2) (ended', to). (
                to.counts,
                ended',
                to.table
                    ∙ ap (λ l. set l nfd (some f)) emptied.table
                    ∙ set-set nfd p.p_files none (some f),
              )))

-- Duplicating a descriptor to another number than 32, in a process whose reference counts are right,
-- never panics and keeps them right. If the old descriptor is out of range or empty, the result is
-- EBADF and nothing changes. If the new one is out of range, the result is EBADF and the descriptors
-- are as they were. Otherwise the result is the new one, it points to the file of the old one, and
-- the other descriptors are as they were, whether or not the new one was in use.
pub do_dup2-Dupped2 :
    (ofd nfd : ℕ) (held : List ℕ) (p : Process)
    → Counted held p
    → nfd ≢ nfiles
    → Returns
        (λ r.
          Counted held r.1 × Dupped2 nfd (if bad_fd ofd then none else slot ofd p.p_files) held p r)
        (do_dup2 ofd nfd p)
unfolding do_dup2 dup2_got
do_dup2-Dupped2 ofd nfd held p v in_range = elim (Bool-cases (bad_fd ofd)) [
  | inl bad ↦ rw bad (returns (v, (refl, refl)))
  | inr good ↦ rw good (Returns-bind (fget-Got ofd held p v good) dups)
]
  where
    dups :
        (r : Option ℕ × Process)
        → Got ofd held p r
        → Returns
            (λ r'. Counted held r'.1 × Dupped2 nfd (slot ofd p.p_files) held p r')
            (dup2_got ofd nfd r)
    dups (none, p') (e, same) = rw (e, same) (returns (v, (refl, refl)))
    dups (some f, p') (x, at, found, v', same) =
        let v1 : Counted (f ∷ held)
            (put_file f (some (record x { f_refcount = x.f_refcount + 1 })) p) =
          subst (Counted (f ∷ held)) same v' in
        elim (Bool-cases (bad_fd nfd)) [
          | inl bad ↦
              rw (at, same, bad, fput-touched f x held p v found v1)
                (returns (touched-Counted f x held p v found, (refl, refl)))
          | inr good ↦
              let below : nfd < nfiles = ground (arith, in_range) in
              rw
                (
                  at,
                  same,
                  good,
                  load_slot-slot nfd
                      (put_file f (some (record x { f_refcount = x.f_refcount + 1 })) p)
                      (omega (arith, v.sized)),
                )
                (Returns-mono
                  (into-table ofd nfd f x held p v at found v1 below (slot nfd p.p_files) refl)
                  (λ r (counts, ended, table). (counts, (ended, table))))
        ]

-- Descriptor 32 passes the test of do_dup2 on the new descriptor although the table ends at 31: for
-- an old descriptor that is open, in a process whose reference counts are right, do_dup2 reads
-- outside of the table.
do_dup2-panic :
    (ofd f : ℕ) (held : List ℕ) (p : Process)
    → Counted held p
    → slot ofd p.p_files ≡ some f
    → do_dup2 ofd nfiles p ≡ panic
unfolding do_dup2 dup2_got
do_dup2-panic ofd f held p v at =
    let below : ofd < nfiles = omega (arith, slot-below f ofd p.p_files at, v.sized) in
    let good : bad_fd ofd ≡ false = ground arith in
    let (r, gets, got_is) = Returns-value (fget-Got ofd held p v good) in
    rw (good, gets) (stops r got_is)
  where
    stops : (r : Option ℕ × Process) → Got ofd held p r → dup2_got ofd nfiles r ≡ panic
    stops (none, p') (gone, same) = absurd (cc (at, gone))
    stops (some g, p') (x, here, found, v', same) =
        rw (load_slot-panic nfiles p' (omega (arith, v'.sized))) refl
