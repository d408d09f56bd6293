-- ===== src/My402List/UnlinkAll.antt =====
-- My402ListUnlinkAll of my402list.c takes every element off the list.
use usc_projects.Prelude.{
  ℕ, zero, suc, ◌+◌, ◌<◌, ◌≡◌, refl, ap, ◌∙◌, false, List, [], ◌∷◌, length, arith,
}
use usc_projects.Kernel.{Returns, returns, Returns-bind, Returns-mono}
use usc_projects.My402List.{Store, my402_list_empty, unlink_loop, my402_list_unlink_all}
use usc_projects.My402List.Links.{first_or}
use usc_projects.My402List.Holds.{Holds}
use usc_projects.My402List.Steps.{step}
use usc_projects.My402List.Ends.{unless_empty, empty-Holds, first-Holds, live-ne_null}
use usc_projects.My402List.Insert.{==-ne}
use usc_projects.My402List.Next.{next-Holds}
use usc_projects.My402List.Unlink.{my402_list_unlink-Unlinked}

-- `fuel` rounds are enough for fewer elements.
unlink_loop-Emptied :
    (fuel : ℕ) (s : Store) (es : List ℕ)
    → Holds s es
    → length es < fuel
    → Returns
        (λ t. Holds t [] × (t.anchor ≡ s.anchor) × (length t.supply ≡ length s.supply + length es))
        (unlink_loop fuel (unless_empty es (first_or s.anchor es)) s)
unfolding unlink_loop
unlink_loop-Emptied zero s es h enough = absurd (omega arith)
unlink_loop-Emptied (suc fuel) s [] h enough = returns (h, refl, omega arith)
unlink_loop-Emptied (suc fuel) s (e ∷ es) h enough =
    rw (==-ne e 0 (live-ne_null s (e ∷ es) h e (ground arith)), unlink_loop)
      (step _ (next-Holds s [] e es h) (
        Returns-bind (my402_list_unlink-Unlinked s [] es e h) λ t (kept, _, freed, _, same).
          rw (← same) (
            Returns-mono (unlink_loop-Emptied fuel t es kept (omega arith))
              λ u (empty, same', given).
                (empty, same', omega (arith, given, ap (λ l. length l) freed)))))

-- My402ListUnlinkAll ends, takes every element off the list and frees it, and touches none after
-- that. What is left is an empty list.
pub my402_list_unlink_all-Emptied :
    (s : Store) (es : List ℕ)
    → Holds s es
    → Returns
        (λ t. Holds t [] × (length t.supply ≡ length s.supply + length es))
        (my402_list_unlink_all s)
unfolding my402_list_unlink_all
my402_list_unlink_all-Emptied s [] h = rw (empty-Holds s [] h) (returns (h, omega arith))
my402_list_unlink_all-Emptied s (e ∷ es) h =
    let filled : my402_list_empty s ≡ false = empty-Holds s (e ∷ es) h ∙ ground arith in
    rw (filled, first-Holds s (e ∷ es) h)
      (Returns-bind
        (unlink_loop-Emptied (suc s.num_members) s (e ∷ es) h (omega (arith, h.counted)))
        λ t (empty, _, freed). returns (
          record {
            linked = (ground arith, ground arith);
            once = empty.once;
            alive = empty.alive;
            null_dead = empty.null_dead;
            dead = empty.dead;
            null_kept = empty.null_kept;
            supply_once = empty.supply_once;
            counted = empty.counted;
            fits = empty.fits;
          },
          freed,
        ))
