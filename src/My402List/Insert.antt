-- ===== src/My402List/Insert.antt =====
-- My402ListAppend, My402ListPrepend, My402ListInsertBefore and My402ListInsertAfter of my402list.c
-- put a new element at its place, or change nothing when there is no memory.
use usc_projects.Prelude.{
  ℕ, ◌+◌, ◌<◌, ◌≡◌, ◌≢◌, refl, sym, ap, subst, ◌∙◌, Bool, true, false, List, [], ◌∷◌, ◌++◌, length,
  count, count-append, update, ◌==◌, arith,
}
use usc_projects.Kernel.{Returns, returns, Returns-bind, Returns-mono}
use usc_projects.My402List.{
  Store, take_from, malloc, my402_list_empty, my402_list_first, my402_list_last, my402_list_append,
  my402_list_prepend, my402_list_insert_before, my402_list_insert_after,
}
use usc_projects.My402List.Linking.{
  Linked, link_last-Linked, link_first-Linked, link_only-Linked, link_before-Linked,
  link_after-Linked,
}
use usc_projects.My402List.Ends.{unless_empty, last-Holds, first-Holds, live-ne_null}
use usc_projects.My402List.Steps.{step, store_obj-ok}
use usc_projects.My402List.Links.{
  last_or, first_or, last_or-mem, first_or-mem, last_or-append, Links-first, Links-last,
  Links-split,
}
use usc_projects.My402List.Holds.{
  Holds, contents, Spliced, Spliced-Holds, Spliced-contents, malloc_dead, live-ne,
}

-- With `xs` before the place and `ys` behind it: if malloc has no memory, nothing changes and the
-- result is 0; else the list has a new element there that holds `x`, and the result is 1.
abbrev pub Inserted : List ℕ → Store → ℕ → List ℕ → List ℕ → Store × Bool → Type 0
Inserted [] s x xs ys r = r ≡ (s, false)
Inserted (e ∷ rest) s x xs ys r =
    (r.1 ≡ true)
    × Holds r.0 (xs ++ e ∷ ys)
    × (contents r.0 (xs ++ e ∷ ys) ≡ contents s xs ++ x ∷ contents s ys)
    × (r.0.supply ≡ rest)

pub malloc-none : (s : Store) → s.supply ≡ [] → malloc s ≡ (0, s)
unfolding malloc take_from
malloc-none s taken = ap (take_from s) taken

malloc-some :
    (s : Store) (e : ℕ) (rest : List ℕ)
    → s.supply ≡ e ∷ rest
    → malloc s ≡ (e, record s { live = update s.live e true; supply = rest })
unfolding malloc take_from
malloc-some s e rest taken = ap (take_from s) taken

module _ (s : Store) (x : ℕ) (xs ys : List ℕ) (h : Holds s (xs ++ ys))
    (room : length (xs ++ ys) + 1 < 2147483648) (e : ℕ) (rest : List ℕ)
    (taken : s.supply ≡ e ∷ rest) where
  abbrev given : (ℕ → ℕ) → Store
  given ob = record s { live = update s.live e true; supply = rest; obj = ob }

  Linked-Inserted :
      (ob : ℕ → ℕ) {t : Store}
      → ((b : ℕ) → b ≢ e → ob b ≡ s.obj b)
      → Linked (given ob) t (last_or s.anchor xs) e (first_or s.anchor ys) x
      → Inserted (e ∷ rest) s x xs ys (t, true)
  Linked-Inserted ob {t} same j =
      let spliced : Spliced s t (last_or s.anchor xs) e (first_or s.anchor ys) x = record {
        num = j.num;
        same_anchor = j.same_anchor;
        taken = taken ∙ ap (λ l. e ∷ l) (sym j.supply);
        live_new = ap (λ f. f e) j.live ∙ ground arith;
        live_same = λ b n. ap (λ f. f b) j.live ∙ ground arith;
        obj_new = j.obj_new;
        obj_same = λ b n. j.obj_same b n ∙ same b n;
        forth = j.forth;
        back = j.back;
      } in
      (
        refl,
        Spliced-Holds xs ys h spliced refl refl room,
        Spliced-contents xs ys h spliced,
        j.supply,
      )

  -- The new element is not one of the circle, and not NULL.
  new-ne : (b : ℕ) → 0 < count b (s.anchor ∷ xs ++ ys) → (s.live b ≡ true) × (e ≢ b)
  new-ne b m =
      (h.alive b m, λ eq. live-ne s b e (h.alive b m) (malloc_dead e rest h taken).0 (sym eq))

  given-live : (b : ℕ) → s.live b ≡ true → update s.live e true b ≡ true
  given-live b live = ground arith

  malloc-given : malloc s ≡ (e, given s.obj)
  malloc-given = malloc-some s e rest taken

  not_null : (e == 0) ≡ false
  not_null = let (_, n, _) = malloc_dead e rest h taken in ground arith

-- The same once malloc has been called and the object is stored.
module _ (s : Store) (es : List ℕ) (h : Holds s es) (lv : ℕ → Bool) (ob : ℕ → ℕ)
    (sup : List ℕ) where
  last-given :
      my402_list_last (record s { live = lv; obj = ob; supply = sup })
      ≡ unless_empty es (last_or s.anchor es)
  unfolding my402_list_last my402_list_empty
  last-given = last-Holds s es h

  first-given :
      my402_list_first (record s { live = lv; obj = ob; supply = sup })
      ≡ unless_empty es (first_or s.anchor es)
  unfolding my402_list_first my402_list_empty
  first-given = first-Holds s es h

pub ==-ne : (a b : ℕ) → a ≢ b → (a == b) ≡ false
==-ne a b n = ground arith

pub update-same : {A : Type 0} (f : ℕ → A) (a : ℕ) (v : A) → update f a v a ≡ v
update-same f a v = ground arith

pub update-other : (f : ℕ → ℕ) (a v b : ℕ) → b ≢ a → update f a v b ≡ f b
update-other f a v b n = ground arith

module _ (s : Store) (x e : ℕ) (rest : List ℕ) (taken : s.supply ≡ e ∷ rest) where
  pub append_given :
      (es : List ℕ)
      → Holds s es
      → Holds s (es ++ [])
      → length (es ++ []) + 1 < 2147483648
      → Returns (Inserted (e ∷ rest) s x es []) (my402_list_append x s)
  unfolding my402_list_append
  append_given [] h h' room =
      let (live, n) = new-ne s x [] [] h room e rest taken s.anchor (ground arith) in
      rw (malloc-given s x [] [] h room e rest taken, not_null s x [] [] h room e rest taken)
        (step _ (store_obj-ok _ e x (update-same s.live e true)) (
          rw (last-given s [] h (update s.live e true) (update s.obj e x) rest) (
            Returns-bind
              (link_only-Linked _ e x (update-same s.live e true) (update-same s.obj e x)
                (given-live s x [] [] h room e rest taken s.anchor live) n)
              λ t j. returns (
                Linked-Inserted s x [] [] h room e rest taken (update s.obj e x)
                  (update-other s.obj e x) j))))
  append_given (e' ∷ es) h h' room =
      let es' : List ℕ = e' ∷ es in
      let last = last_or s.anchor es' in
      let (live, _) = new-ne s x es' [] h' room e rest taken s.anchor (ground arith) in
      let m : 0 < count last (s.anchor ∷ es') = last_or-mem s.anchor es' in
      let (live_l, n_l) =
        new-ne s x es' [] h' room e rest taken last (omega (arith, count-append last es' [])) in
      let (_, n) = new-ne s x es' [] h' room e rest taken s.anchor (ground arith) in
      rw (malloc-given s x es' [] h' room e rest taken, not_null s x es' [] h' room e rest taken)
        (step _ (store_obj-ok _ e x (update-same s.live e true)) (
          rw
            (
              last-given s es' h (update s.live e true) (update s.obj e x) rest,
              ==-ne last 0 (live-ne_null s es' h last m),
            )
            (Returns-bind
              (link_last-Linked _ e x (update-same s.live e true) (update-same s.obj e x)
                (given-live s x es' [] h' room e rest taken s.anchor live) n last
                (given-live s x es' [] h' room e rest taken last live_l) n_l)
              λ t j. returns (
                Linked-Inserted s x es' [] h' room e rest taken (update s.obj e x)
                  (update-other s.obj e x) j))))

  pub prepend_given :
      (es : List ℕ)
      → Holds s es
      → length es + 1 < 2147483648
      → Returns (Inserted (e ∷ rest) s x [] es) (my402_list_prepend x s)
  unfolding my402_list_prepend
  prepend_given [] h room =
      let (live, n) = new-ne s x [] [] h room e rest taken s.anchor (ground arith) in
      rw (malloc-given s x [] [] h room e rest taken, not_null s x [] [] h room e rest taken)
        (step _ (store_obj-ok _ e x (update-same s.live e true)) (
          rw (first-given s [] h (update s.live e true) (update s.obj e x) rest) (
            Returns-bind
              (link_only-Linked _ e x (update-same s.live e true) (update-same s.obj e x)
                (given-live s x [] [] h room e rest taken s.anchor live) n)
              λ t j. returns (
                Linked-Inserted s x [] [] h room e rest taken (update s.obj e x)
                  (update-other s.obj e x) j))))
  prepend_given (e' ∷ es) h room =
      let es' : List ℕ = e' ∷ es in
      let (live, n) = new-ne s x [] es' h room e rest taken s.anchor (ground arith) in
      let (live_f, n_f) = new-ne s x [] es' h room e rest taken e' (ground arith) in
      rw (malloc-given s x [] es' h room e rest taken, not_null s x [] es' h room e rest taken)
        (step _ (store_obj-ok _ e x (update-same s.live e true)) (
          rw
            (
              first-given s es' h (update s.live e true) (update s.obj e x) rest,
              ==-ne e' 0 (live-ne_null s es' h e' (ground arith)),
            )
            (Returns-bind
              (link_first-Linked _ e x (update-same s.live e true) (update-same s.obj e x)
                (given-live s x [] es' h room e rest taken s.anchor live) n e'
                (given-live s x [] es' h room e rest taken e' live_f) n_f)
              λ t j. returns (
                Linked-Inserted s x [] es' h room e rest taken (update s.obj e x)
                  (update-other s.obj e x) j))))

  module _ (xs ys : List ℕ) (elem : ℕ) where
    pub before_given :
        (h : Holds s (xs ++ elem ∷ ys))
        → length (xs ++ elem ∷ ys) + 1 < 2147483648
        → Returns (Inserted (e ∷ rest) s x xs (elem ∷ ys)) (my402_list_insert_before x elem s)
    unfolding my402_list_insert_before
    before_given h room =
        let (front, _) = Links-split s.next s.prev s.anchor elem s.anchor xs ys h.linked in
        let w = last_or s.anchor xs in
        let (live, n) =
          new-ne s x xs (elem ∷ ys) h room e rest taken elem
            (ground (arith, count-append elem xs (elem ∷ ys))) in
        let (live_w, n_w) =
          new-ne s x xs (elem ∷ ys) h room e rest taken w
            (ground (arith, count-append w xs (elem ∷ ys), last_or-mem s.anchor xs)) in
        let not_end = ==-ne elem 0 (λ eq. cc (ap s.live eq, live, h.null_dead)) in
        rw
          (
            not_end,
            malloc-given s x xs (elem ∷ ys) h room e rest taken,
            not_null s x xs (elem ∷ ys) h room e rest taken,
          )
          (Returns-mono
            (link_before-Linked _ e x (update-same s.live e true) elem w
              (given-live s x xs (elem ∷ ys) h room e rest taken elem live)
              (given-live s x xs (elem ∷ ys) h room e rest taken w live_w) n n_w
              (Links-last s.next s.prev s.anchor elem xs front))
            λ (t, made) (is, j).
              rw is (Linked-Inserted s x xs (elem ∷ ys) h room e rest taken s.obj (λ b m. refl) j))

    pub after_given :
        Holds s (xs ++ elem ∷ ys)
        → (h : Holds s ((xs ++ elem ∷ []) ++ ys))
        → length ((xs ++ elem ∷ []) ++ ys) + 1 < 2147483648
        → Returns (Inserted (e ∷ rest) s x (xs ++ elem ∷ []) ys) (my402_list_insert_after x elem s)
    unfolding my402_list_insert_after
    after_given h' h room =
        let (_, back) = Links-split s.next s.prev s.anchor elem s.anchor xs ys h'.linked in
        let zs : List ℕ = xs ++ elem ∷ [] in
        let w = first_or s.anchor ys in
        let (live, n) =
          new-ne s x zs ys h room e rest taken elem
            (ground (arith, count-append elem zs ys, count-append elem xs (elem ∷ []))) in
        let (live_w, n_w) =
          new-ne s x zs ys h room e rest taken w
            (ground (arith, count-append w zs ys, first_or-mem s.anchor ys)) in
        let not_end = ==-ne elem 0 (λ eq. cc (ap s.live eq, live, h.null_dead)) in
        rw
          (
            not_end,
            malloc-given s x zs ys h room e rest taken,
            not_null s x zs ys h room e rest taken,
          )
          (Returns-mono
            (link_after-Linked _ e x (update-same s.live e true) elem w
              (given-live s x zs ys h room e rest taken elem live)
              (given-live s x zs ys h room e rest taken w live_w) n n_w
              (Links-first s.next s.prev elem s.anchor ys back))
            λ (t, made) (is, j). rw is (
              Linked-Inserted s x zs ys h room e rest taken s.obj (λ b m. refl)
                (subst
                  (λ u. Linked (record s { live = update s.live e true; supply = rest }) t u e w x)
                  (sym (last_or-append s.anchor elem xs)) j)))
