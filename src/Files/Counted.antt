-- ===== src/Files/Counted.antt =====
-- The reference counts of open files, which fs/file.c and fs/vfs_syscall.c keep.
use usc_projects.Prelude.{
  ℕ, zero, suc, ◌+◌, ◌≤◌, ◌<◌, ◌≡◌, refl, Bool, true, false, not, ◌&&◌, ◌||◌, Option, none, some,
  List, [], ◌∷◌, ltb, leb, ◌==◌, if◌then◌else◌, length, get_elem?, set, arith, Option-cases,
  Bool-cases, count, inl, inr,
}
use usc_projects.Kernel.{ok, panic, Returns, returns, Returns-bind}
use usc_projects.Files.{
  File, Process, nfiles, is_negative, minus_one, is_sound, has_vnode, put_file, fref, fput,
  drop_vnode, load_slot, store_slot, take_ref, fget, put_back, bad_fd,
}

-- How many descriptors point to the file.
abbrev pub points : ℕ → Option ℕ → ℕ
points f none = 0
points f (some g) = if g == f then 1 else 0

abbrev pub slots : ℕ → List (Option ℕ) → ℕ
slots f [] = 0
slots f (o ∷ rest) = points f o + slots f rest

abbrev pub refcount : Option File → ℕ
refcount none = 0
refcount (some x) = x.f_refcount

-- An allocated file has a reference, meets the assertions and has a vnode.
abbrev pub is_open : Option File → Bool
is_open none = true
is_open (some x) = not (x.f_refcount == 0) && is_sound x && has_vnode x

-- The table has its length, and the count of every file is the number of descriptors that point to
-- it and of the references that the running call holds.
pub record Counted (held : List ℕ) (p : Process) : Type 0 where
  pub sized : length p.p_files ≡ nfiles
  pub counted : (f : ℕ) → refcount (p.files f) ≡ slots f p.p_files + count f held
  pub opened : (f : ℕ) → is_open (p.files f) ≡ true

pub slots-set :
    (f i : ℕ) (l : List (Option ℕ)) (old new : Option ℕ)
    → get_elem? l i ≡ some old
    → slots f (set l i new) + points f old ≡ slots f l + points f new
slots-set f i [] old new e = cc
slots-set f zero (o ∷ rest) old new e = let same : o ≡ old = cc e in rw same (omega arith)
slots-set f (suc i) (o ∷ rest) old new e = omega (arith, slots-set f i rest old new e)

-- What one more reference does.
pub fref-Counted :
    (f : ℕ) (held : List ℕ) (p : Process) (x : File)
    → Counted held p
    → p.files f ≡ some x
    → Returns
        (λ p'.
          Counted (f ∷ held) p'
          × (p' ≡ put_file f (some (record x { f_refcount = x.f_refcount + 1 })) p))
        (fref f p)
unfolding fref
fref-Counted f held p x v e =
    let sound : (is_sound x && (x.f_refcount == 0 || has_vnode x)) ≡ true =
      ground (arith, e, v.opened f) in
    rw (e, fref, sound)
      (returns (
        record {
          sized = v.sized;
          counted = λ g. ground (arith, e, v.counted g);
          opened = λ g. ground (arith, e, v.opened g, v.opened f);
        },
        refl,
      ))

drop_vnode-Counted :
    (held : List ℕ) (o : Option ℕ) (p : Process) → Counted held p → Counted held (drop_vnode o p)
drop_vnode-Counted held none p v = v
drop_vnode-Counted held (some n) p v = record {
  sized = v.sized;
  counted = v.counted;
  opened = v.opened;
}

pub put_back-Counted :
    (f : ℕ) (held : List ℕ) (p : Process) (x : File)
    → Counted (f ∷ held) p
    → p.files f ≡ some x
    → Counted held (put_back f x p)
put_back-Counted f held p x v e = elim (Bool-cases (x.f_refcount == 1)) [
  | inl last ↦ rw last (
      drop_vnode-Counted held x.f_vnode (put_file f none p) (record {
        sized = v.sized;
        counted = λ g. ground (arith, e, last, v.counted g);
        opened = λ g. ground (arith, v.opened g);
      }))
  | inr more ↦ rw more (record {
    sized = v.sized;
    counted = λ g. ground (arith, e, v.counted g);
    opened = λ g. ground (arith, e, more, v.opened g, v.opened f);
  })
]

-- fput meets its assertions on an allocated file.
pub fput-put_back :
    (f : ℕ) (held : List ℕ) (p : Process) (x : File)
    → Counted held p
    → p.files f ≡ some x
    → fput f p ≡ ok (put_back f x p)
unfolding fput
fput-put_back f held p x v e =
    let sound : (is_sound x && not (x.f_refcount == 0) && (x.f_refcount == 1 || has_vnode x))
        ≡ true =
      ground (arith, e, v.opened f) in
    rw (e, fput, sound) refl

pub fput-Counted :
    (f : ℕ) (held : List ℕ) (p : Process) (x : File)
    → Counted (f ∷ held) p
    → p.files f ≡ some x
    → Returns (λ p'. Counted held p' × (p' ≡ put_back f x p)) (fput f p)
fput-Counted f held p x v e =
    rw (fput-put_back f (f ∷ held) p x v e) (returns (put_back-Counted f held p x v e, refl))

-- The file that a descriptor points to: none out of range.
abbrev pub slot : ℕ → List (Option ℕ) → Option ℕ
slot fd l = elim (get_elem? l fd) [ none ↦ none | some o ↦ o ]

pub get-slot : (fd : ℕ) (l : List (Option ℕ)) → fd < length l → get_elem? l fd ≡ some (slot fd l)
get-slot fd [] below = absurd (omega arith)
get-slot zero (o ∷ rest) below = refl
get-slot (suc fd) (o ∷ rest) below = get-slot fd rest (omega arith)

pub load_slot-slot :
    (fd : ℕ) (p : Process) → fd < length p.p_files → load_slot fd p ≡ ok (slot fd p.p_files)
unfolding load_slot
load_slot-slot fd p below = go (slot fd p.p_files) (get-slot fd p.p_files below)
  where
    go : (o : Option ℕ) → get_elem? p.p_files fd ≡ some o → load_slot fd p ≡ ok o
    go o e = rw (e, load_slot) refl

slots-slot : (f fd : ℕ) (l : List (Option ℕ)) → slot fd l ≡ some f → 0 < slots f l
slots-slot f fd [] e = cc
slots-slot f zero (o ∷ rest) e = ground (arith, e)
slots-slot f (suc fd) (o ∷ rest) e = omega (arith, slots-slot f fd rest e)

slot-above : (fd : ℕ) (l : List (Option ℕ)) → length l ≤ fd → slot fd l ≡ none
slot-above fd [] above = refl
slot-above zero (o ∷ rest) above = absurd (omega arith)
slot-above (suc fd) (o ∷ rest) above = slot-above fd rest (omega arith)

pub slot-below : (f fd : ℕ) (l : List (Option ℕ)) → slot fd l ≡ some f → fd < length l
slot-below f fd [] e = cc
slot-below f zero (o ∷ rest) e = omega arith
slot-below f (suc fd) (o ∷ rest) e = omega (arith, slot-below f fd rest e)

pub store_slot-set :
    (fd : ℕ) (o : Option ℕ) (p : Process)
    → fd < length p.p_files
    → store_slot fd o p ≡ ok (record p { p_files = set p.p_files fd o })
unfolding store_slot
store_slot-set fd o p below =
    let there : ltb fd (length p.p_files) ≡ true = ground arith in rw there refl

get-above : (fd : ℕ) (l : List (Option ℕ)) → length l ≤ fd → get_elem? l fd ≡ none
get-above fd [] above = refl
get-above zero (o ∷ rest) above = absurd (omega arith)
get-above (suc fd) (o ∷ rest) above = get-above fd rest (omega arith)

pub load_slot-panic : (fd : ℕ) (p : Process) → length p.p_files ≤ fd → load_slot fd p ≡ panic
unfolding load_slot
load_slot-panic fd p above = rw (get-above fd p.p_files above, load_slot) refl

-- A file that a descriptor points to is allocated.
pub pointed-open :
    (held : List ℕ) (p : Process) (f fd : ℕ)
    → Counted held p
    → slot fd p.p_files ≡ some f
    → (x : File) × (p.files f ≡ some x)
pointed-open held p f fd v e = elim (Option-cases (p.files f)) [
  | inl gone ↦ absurd (ground (arith, gone, v.counted f, slots-slot f fd p.p_files e))
  | inr found ↦ found
]

-- What fget on a descriptor gives, and the reference that is taken.
abbrev pub Got : ℕ → List ℕ → Process → Option ℕ × Process → Type 0
Got fd held p (none, p') = (slot fd p.p_files ≡ none) × (p' ≡ p)
Got fd held p (some f, p') =
    (x : File) × (slot fd p.p_files ≡ some f)
    × (p.files f ≡ some x)
    × Counted (f ∷ held) p'
    × (p' ≡ put_file f (some (record x { f_refcount = x.f_refcount + 1 })) p)

pub fget-Got :
    (fd : ℕ) (held : List ℕ) (p : Process)
    → Counted held p
    → bad_fd fd ≡ false
    → Returns (Got fd held p) (fget fd p)
unfolding fget
fget-Got fd held p v good = elim (Bool-cases (ltb fd nfiles)) [
  | inl below ↦
      let table : (is_negative fd || leb nfiles fd) ≡ false = ground arith in
      let old : (fd == minus_one) ≡ false = ground arith in
      rw (old, table, load_slot-slot fd p (ground (arith, v.sized)))
        (taken (slot fd p.p_files) refl)
  | inr above ↦
      let table : (is_negative fd || leb nfiles fd) ≡ true = ground arith in
      let old : (fd == minus_one) ≡ false = ground arith in
      rw (old, table) (returns (slot-above fd p.p_files (ground (arith, v.sized)), refl))
]
  where
    taken : (o : Option ℕ) → slot fd p.p_files ≡ o → Returns (Got fd held p) (take_ref p o)
    taken none e = returns (e, refl)
    taken (some f) e =
        let (x, found) = pointed-open held p f fd v e in
        Returns-bind (fref-Counted f held p x v found)
          (λ p' (v', same). returns (x, e, found, v', same))
