-- ===== src/TokenBucket/Enter.antt =====
-- A packet that pays its tokens and goes from Q1 to Q2 in warmup2.c.
use usc_projects.Prelude.{
  ℕ, ◌+◌, ◌-◌, ◌≤◌, ◌≡◌, ◌≢◌, refl, sym, ap, subst, ◌∙◌, Bool, true, false, List, [], ◌∷◌, ◌++◌,
  if◌then◌else◌, length, length-append, arith, Bool-cases, inl, inr,
}
use mathlib.Core.List.{append_assoc}
use usc_projects.TokenBucket.{
  Emulation, ServerAt, ready, waiting, serving, ended, is_empty, broadcast, woken, enter_q2,
}
use usc_projects.TokenBucket.Good.{
  in_service, departed, arrived, tokens, admitted, AtServer, AtToken, AtReport, Good, collected,
}

pub tokens-append :
    (need : ℕ → ℕ) (ps qs : List ℕ) → tokens need (ps ++ qs) ≡ tokens need ps + tokens need qs
tokens-append need [] qs = omega arith
tokens-append need (p ∷ ps) qs = omega (arith, tokens-append need ps qs)

pub in_service-woken :
    (c : Bool) (at : ServerAt) → in_service (if c then woken at else at) ≡ in_service at
in_service-woken true ready = refl
in_service-woken true waiting = refl
in_service-woken true (serving p) = refl
in_service-woken true ended = refl
in_service-woken false at = refl

pub woken-AtReport :
    (c : Bool) (at : ServerAt) (cs : List ℕ)
    → AtReport at cs
    → AtReport (if c then woken at else at) cs
woken-AtReport true ready cs ok_at = tt
woken-AtReport true waiting cs ok_at = tt
woken-AtReport true (serving p) cs ok_at = tt
woken-AtReport true ended cs ok_at = ok_at
woken-AtReport false at cs ok_at = ok_at

not_empty : {p : ℕ} {rest qs : List ℕ} → qs ≡ p ∷ rest → qs ≢ []
not_empty is none_left = cc (is, none_left)

module _ {p : ℕ} {rest q1 : List ℕ} (first : q1 ≡ p ∷ rest) where
  woken-AtServer :
      (c : Bool) (at : ServerAt) (ps q2 q1' q2' : List ℕ) (runs : Bool)
      → is_empty q2 ≡ c
      → AtServer at ps q1 q2 runs
      → AtServer (if c then woken at else at) ps q1' q2' runs
  woken-AtServer true ready ps q2 q1' q2' runs is ok_at = tt
  woken-AtServer true waiting ps q2 q1' q2' runs is ok_at = tt
  woken-AtServer true (serving q) ps q2 q1' q2' runs is ok_at = tt
  woken-AtServer true ended ps q2 q1' q2' runs is ok_at = absurd (not_empty first ok_at.1)
  woken-AtServer false ready ps q2 q1' q2' runs is ok_at = tt
  woken-AtServer false waiting ps q2 q1' q2' runs is ok_at = cc (is, ap is_empty ok_at.0)
  woken-AtServer false (serving q) ps q2 q1' q2' runs is ok_at = tt
  woken-AtServer false ended ps q2 q1' q2' runs is ok_at = absurd (not_empty first ok_at.1)

  running : (runs : Bool) (ps : List ℕ) → AtToken runs ps q1 → runs ≡ true
  running true ps ok_at = refl
  running false ps ok_at = absurd (not_empty first ok_at.1)

abbrev entered : (ℕ → ℕ) → ℕ → List ℕ → Emulation → Emulation
entered need p rest e = record e {
  bucket = e.bucket - need p;
  q1 = rest;
  q2 = e.q2 ++ p ∷ [];
  queue_amount_guard = e.queue_amount_guard + 1;
  server_at = if is_empty e.q2 then woken e.server_at else e.server_at;
}

pub enter_q2-entered :
    (need : ℕ → ℕ) (p : ℕ) (rest : List ℕ) (e : Emulation)
    → enter_q2 need p rest e ≡ entered need p rest e
unfolding enter_q2 broadcast
enter_q2-entered need p rest e = elim (Bool-cases (is_empty e.q2)) [ inl c ↦ rw c | inr c ↦ rw c ]

module _ (need : ℕ → ℕ) (b : ℕ) (packets : List ℕ) (p : ℕ) (rest : List ℕ) (e : Emulation) where
  departed-entered : departed (entered need p rest e) ≡ departed e
  departed-entered = ap (λ l. collected e ++ l) (in_service-woken (is_empty e.q2) e.server_at)

  arrived-entered : e.q1 ≡ p ∷ rest → arrived (entered need p rest e) ≡ arrived e
  arrived-entered first =
      ap (λ l. l ++ ((e.q2 ++ p ∷ []) ++ rest)) departed-entered
      ∙ ap (λ l. departed e ++ l)
          (append_assoc e.q2 (p ∷ []) rest ∙ ap (λ l. e.q2 ++ l) (sym first))

  pub enter_q2-Good :
      Good need b packets e
      → e.q1 ≡ p ∷ rest
      → need p ≤ e.bucket
      → Good need b packets (enter_q2 need p rest e)
  enter_q2-Good g first enough =
      let runs = running first e.token_runs e.packet_list g.at_token in
      let same = arrived-entered first in
      let cost =
        ap (λ l. tokens need (l ++ (e.q2 ++ p ∷ []))) departed-entered
        ∙ tokens-append need (departed e) (e.q2 ++ p ∷ []) in
      rw (enter_q2-entered need p rest e) (record {
        capacity = omega (arith, g.capacity);
        guard = omega (arith, g.guard, length-append e.q2 (p ∷ []));
        paid = omega (
          arith,
          g.paid,
          cost,
          tokens-append need e.q2 (p ∷ []),
          tokens-append need (departed e) e.q2,
        );
        order = ap (λ l. l ++ admitted need b e.packet_list) same ∙ g.order;
        all_counted = omega (arith, g.all_counted, ap (λ l. length l) same);
        at_arrival = g.at_arrival;
        at_server =
            woken-AtServer first (is_empty e.q2) e.server_at e.packet_list e.q2 rest
              (e.q2 ++ p ∷ []) e.token_runs refl g.at_server;
        at_report = woken-AtReport (is_empty e.q2) e.server_at e.collect_list g.at_report;
        at_token = subst (λ r. AtToken r e.packet_list rest) (sym runs) tt;
        not_stopped = g.not_stopped;
      })
