-- ===== src/Vm/Access/Refused.antt =====
-- What range_perm of vm/kernel/api/access.c answers.
use usc_projects.Prelude.{
  ℕ, zero, suc, ◌+◌, ◌≡◌, ◌≢◌, ◌<◌, ◌⊎◌, inl, inr, refl, ap, true, false, none, List, [], ◌∷◌, ltb,
  ◌==◌, All, Bool-cases, arith,
}
use usc_projects.Kernel.{ok}
use usc_projects.Vm.Area.{Vmarea, IsArea, covers, addr_to_pn, add32}
use usc_projects.Vm.Vmmap.{Vmmap, lookup_area, vmmap_lookup}
use usc_projects.Vm.Access.{addr_perm, range_loop, range_perm}

-- No area has the page 0.
lookup_area-zero : (areas : List Vmarea) → All IsArea areas → lookup_area areas 0 ≡ none
unfolding lookup_area
lookup_area-zero [] sound = refl
lookup_area-zero (a ∷ areas) (this, sound) =
    let outside : covers a 0 ≡ false = ground (arith, this.above) in
    rw outside (lookup_area-zero areas sound)

-- Behind an address that is not the last one the loop has as much way left, and behind the last
-- one it is at 0.
next_round :
    (vaddr fuel : ℕ)
    → vaddr < 4294967296
    → 4294967296 < vaddr + suc fuel
    → ((add32 vaddr 1 ≡ 0) × (0 < fuel)) ⊎ (4294967296 < add32 vaddr 1 + fuel)
next_round vaddr fuel word more = elim (Bool-cases (vaddr == 4294967295)) [
  | inl last ↦ inl (ground arith, ground arith)
  | inr before ↦ inr (ground arith)
]

range_loop-empty :
    (fuel : ℕ) (map : Vmmap) (len perm vaddr : ℕ)
    → len ≡ 0
    → 0 < fuel
    → range_loop fuel map len perm vaddr ≡ ok true
unfolding range_loop
range_loop-empty zero map len perm vaddr empty rounds = absurd (omega arith)
range_loop-empty (suc fuel) map len perm vaddr empty rounds =
    let nothing : ltb 0 len ≡ false = ground arith in rw (nothing, range_loop)

module _ (map : Vmmap) (sound : All IsArea map.vmm_list) (perm : ℕ) where
  addr_perm-zero : addr_perm map 0 perm ≡ false
  unfolding addr_perm vmmap_lookup addr_to_pn
  addr_perm-zero = rw (lookup_area-zero map.vmm_list sound, addr_perm)

  -- The loop comes to the address 0 if nothing stops it before.
  range_loop-refused :
      (fuel len vaddr : ℕ)
      → len ≢ 0
      → vaddr < 4294967296
      → ((vaddr ≡ 0) × (0 < fuel)) ⊎ (4294967296 < vaddr + fuel)
      → range_loop fuel map len perm vaddr ≡ ok false
  unfolding range_loop
  range_loop-refused zero len vaddr some_len word rounds = elim rounds [
    | inl (start, none_left) ↦ absurd (omega arith)
    | inr more ↦ absurd (omega arith)
  ]
  range_loop-refused (suc fuel) len vaddr some_len word rounds =
      let some_left : ltb 0 len ≡ true = ground arith in
      elim (Bool-cases (addr_perm map vaddr perm)) [
        | inr refused ↦ rw (some_left, refused, range_loop)
        | inl allowed ↦
            let not_zero : vaddr ≢ 0 =
              λ is. cc (allowed, ap (λ a. addr_perm map a perm) is, addr_perm-zero) in
            let more : 4294967296 < vaddr + suc fuel = elim rounds [
              | inl (start, one) ↦ absurd (not_zero start)
              | inr far ↦ far
            ] in
            rw (some_left, allowed, range_loop)
              (range_loop-refused fuel len (add32 vaddr 1) some_len (omega arith)
                (next_round vaddr fuel word more))
      ]

-- In an address space all of whose areas lie in user memory, range_perm ends and answers 0 for
-- every range that is not empty, whatever the protections of the areas, and 1 for an empty range.
pub range_perm-refused :
    (map : Vmmap) (vaddr len perm : ℕ)
    → All IsArea map.vmm_list
    → vaddr < 4294967296
    → range_perm map vaddr len perm ≡ ok (len == 0)
unfolding range_perm
range_perm-refused map vaddr len perm sound word = elim (Bool-cases (len == 0)) [
  | inl empty ↦
      rw empty (range_loop-empty 4294967296 map len perm vaddr (ground arith) (omega arith))
  | inr full ↦
      let start : ((vaddr ≡ 0) × (0 < 4294967296)) ⊎ (4294967296 < vaddr + 4294967296) =
        elim (Bool-cases (vaddr == 0)) [
          | inl is ↦ inl (ground arith, omega arith)
          | inr other ↦ inr (ground arith)
        ] in
      rw full (range_loop-refused map sound perm 4294967296 len vaddr (ground arith) word start)
]
