-- ===== src/My402List/Linking.antt =====
-- The writes of my402list.c that link a new element between two neighbours, in each of their orders.
use usc_projects.Prelude.{ℕ, ◌+◌, ◌%◌, ◌≡◌, ◌≢◌, refl, ap, ◌∙◌, true, update, arith}
use usc_projects.Kernel.{ok, Returns, returns}
use usc_projects.My402List.{Store, grown, link_last, link_first, link_only, link_before, link_after}
use usc_projects.My402List.Steps.{
  step, store_next-ok, store_prev-ok, store_obj-ok, load_next-ok, load_prev-ok,
}
use usc_projects.My402List.Holds.{Leads}

-- What linking `e` between `u` and `v` does, once malloc has handed it out.
pub record Linked (s t : Store) (u e v x : ℕ) : Type 0 where
  pub num : t.num_members ≡ (s.num_members + 1) % 4294967296
  pub same_anchor : t.anchor ≡ s.anchor
  pub live : t.live ≡ s.live
  pub supply : t.supply ≡ s.supply
  pub obj_new : t.obj e ≡ x
  pub obj_same : (b : ℕ) → b ≢ e → t.obj b ≡ s.obj b
  pub forth : Leads s.next t.next u e v
  pub back : Leads s.prev t.prev v e u

-- Both directions, in either order of the writes.
Leads-first : (f : ℕ → ℕ) (w e y : ℕ) → e ≢ w → Leads f (update (update f e y) w e) w e y
Leads-first f w e y n = record {
  to_new = ground arith;
  from_new = ground arith;
  same = λ b o m. ground arith;
}

Leads-last : (f : ℕ → ℕ) (w e y : ℕ) → e ≢ w → Leads f (update (update f w e) e y) w e y
Leads-last f w e y n = record {
  to_new = ground arith;
  from_new = ground arith;
  same = λ b o m. ground arith;
}

module _ (s : Store) (e x : ℕ) (live_e : s.live e ≡ true) where
  -- Between any neighbours `u` and `v`, what is left is to set both directions.
  linked :
      (u v : ℕ) {nx pv : ℕ → ℕ} (ob : ℕ → ℕ)
      → ob e ≡ x
      → ((b : ℕ) → b ≢ e → ob b ≡ s.obj b)
      → Leads s.next nx u e v
      → Leads s.prev pv v e u
      → Linked s
          (record s {
            num_members = (s.num_members + 1) % 4294967296;
            obj = ob;
            next = nx;
            prev = pv;
          })
          u
          e
          v
          x
  linked u v ob new same forth back = record {
    num = refl;
    same_anchor = refl;
    live = refl;
    supply = refl;
    obj_new = new;
    obj_same = same;
    forth = forth;
    back = back;
  }

  module _ (obj : s.obj e ≡ x) (live_a : s.live s.anchor ≡ true) (e_a : e ≢ s.anchor) where
    pub link_last-Linked :
        (u : ℕ)
        → s.live u ≡ true
        → e ≢ u
        → Returns (λ t. Linked s t u e s.anchor x) (link_last e u s)
    unfolding link_last grown
    link_last-Linked u live_u e_u = step _ (store_next-ok s e _ live_e) (
        step _ (store_prev-ok _ e u live_e) (
          step _ (store_prev-ok _ s.anchor e live_a) (
            step _ (store_next-ok _ u e live_u) (
              returns (
                linked u s.anchor s.obj obj (λ b n. refl) (Leads-first s.next u e _ e_u)
                  (Leads-first s.prev _ e u e_a))))))

    pub link_first-Linked :
        (v : ℕ)
        → s.live v ≡ true
        → e ≢ v
        → Returns (λ t. Linked s t s.anchor e v x) (link_first e v s)
    unfolding link_first grown
    link_first-Linked v live_v e_v = step _ (store_prev-ok s e _ live_e) (
        step _ (store_next-ok _ e v live_e) (
          step _ (store_next-ok _ s.anchor e live_a) (
            step _ (store_prev-ok _ v e live_v) (
              returns (
                linked s.anchor v s.obj obj (λ b n. refl) (Leads-first s.next _ e v e_a)
                  (Leads-first s.prev v e _ e_v))))))

    pub link_only-Linked : Returns (λ t. Linked s t s.anchor e s.anchor x) (link_only e s)
    unfolding link_only grown
    link_only-Linked = step _ (store_next-ok s e _ live_e) (
        step _ (store_prev-ok _ e _ live_e) (
          step _ (store_next-ok _ s.anchor e live_a) (
            step _ (store_prev-ok _ s.anchor e live_a) (
              returns (
                linked s.anchor s.anchor s.obj obj (λ b n. refl) (Leads-first s.next _ e _ e_a)
                  (Leads-first s.prev _ e _ e_a))))))

  module _ (elem w : ℕ) (live_elem : s.live elem ≡ true) (live_w : s.live w ≡ true)
      (e_elem : e ≢ elem) (e_w : e ≢ w) where
    pub link_before-Linked :
        s.prev elem ≡ w
        → Returns (λ r. (r.1 ≡ true) × Linked s r.0 w e elem x) (link_before e x elem s)
    unfolding link_before grown
    link_before-Linked is = step _ (load_prev-ok s elem live_elem ∙ ap ok is) (
        step _ (store_obj-ok s e x live_e) (
          step _ (store_next-ok _ w e live_w) (
            step _ (store_prev-ok _ elem e live_elem) (
              step _ (store_next-ok _ e elem live_e) (
                step _ (store_prev-ok _ e w live_e) (
                  returns (
                    refl,
                    linked w elem (update s.obj e x) (ground arith) (λ b n. ground arith)
                        (Leads-last s.next w e elem e_w) (Leads-last s.prev elem e w e_elem),
                  )))))))

    pub link_after-Linked :
        s.next elem ≡ w
        → Returns (λ r. (r.1 ≡ true) × Linked s r.0 elem e w x) (link_after e x elem s)
    unfolding link_after grown
    link_after-Linked is = step _ (load_next-ok s elem live_elem ∙ ap ok is) (
        step _ (store_obj-ok s e x live_e) (
          step _ (store_prev-ok _ w e live_w) (
            step _ (store_next-ok _ elem e live_elem) (
              step _ (store_next-ok _ e w live_e) (
                step _ (store_prev-ok _ e elem live_e) (
                  returns (
                    refl,
                    linked elem w (update s.obj e x) (ground arith) (λ b n. ground arith)
                        (Leads-last s.next elem e w e_elem) (Leads-last s.prev w e elem e_w),
                  )))))))
