-- ===== src/TokenBucket/Serve.antt =====
-- The turns of token_arrival and of server in warmup2.c keep what holds at all times.
use usc_projects.Prelude.{
  ℕ, ◌+◌, ◌<◌, ◌≡◌, refl, sym, ap, subst, ◌∙◌, Bool, true, false, List, [], ◌∷◌, ◌++◌, ltb, leb,
  ltb→lt, leb→le, if◌then◌else◌, length, ◌&&◌, ◌||◌, arith, Bool-cases, inl, inr,
}
use mathlib.Core.List.{append_assoc, append-nil}
use usc_projects.Kernel.{ok, Returns, returns}
use usc_projects.TokenBucket.{
  Emulation, ServerAt, ready, waiting, serving, ended, is_empty, broadcast, woken, add_token,
  move_first, token_turn, take_packet, packet_statistics, server_turn, server_done,
}
use usc_projects.TokenBucket.Good.{
  in_service, departed, arrived, tokens, admitted, AtServer, AtToken, AtReport, collected, Good,
}
use usc_projects.TokenBucket.Report.{packet_statistics-empty}
use usc_projects.TokenBucket.Enter.{in_service-woken, woken-AtReport, enter_q2-Good}

is_empty→nil : (ps : List ℕ) → is_empty ps ≡ true → ps ≡ []
is_empty→nil [] empty = refl
is_empty→nil (p ∷ ps) empty = cc empty

abbrev counted_token : Emulation → Emulation
counted_token e = record e { total_token = e.total_token + 1 }

module _ (need : ℕ → ℕ) (b : ℕ) (packets : List ℕ) (e : Emulation) (g : Good need b packets e) where
  -- A token has been counted and is in the bucket, or dropped.
  add_token-Good : e.token_runs ≡ true → Good need b packets (add_token b (counted_token e))
  unfolding add_token
  add_token-Good runs = elim (Bool-cases (ltb e.bucket b)) [
    | inl room ↦ rw room (record {
      capacity = omega (arith, ltb→lt e.bucket b room);
      guard = g.guard;
      paid = omega (arith, g.paid);
      order = g.order;
      all_counted = g.all_counted;
      at_arrival = g.at_arrival;
      at_server = g.at_server;
      at_report = g.at_report;
      at_token = g.at_token;
      not_stopped = g.not_stopped;
    })
    | inr full ↦ rw full (record {
      capacity = g.capacity;
      guard = g.guard;
      paid = omega (arith, g.paid);
      order = g.order;
      all_counted = g.all_counted;
      at_arrival = g.at_arrival;
      at_server = g.at_server;
      at_report = g.at_report;
      at_token = g.at_token;
      not_stopped = g.not_stopped;
    })
  ]

module _ (need : ℕ → ℕ) (b : ℕ) (packets : List ℕ) where
  move_first-Good :
      (e : Emulation) (q1 : List ℕ)
      → e.q1 ≡ q1
      → Good need b packets e
      → Good need b packets (move_first need q1 e)
  unfolding move_first
  move_first-Good e [] is g = g
  move_first-Good e (p ∷ rest) is g = elim (Bool-cases (leb (need p) e.bucket)) [
    | inl enough ↦ rw enough (enter_q2-Good need b packets p rest e g is (leb→le _ _ enough))
    | inr short ↦ rw short g
  ]

  add_token-q1 : (e : Emulation) → (add_token b e).q1 ≡ e.q1
  unfolding add_token
  add_token-q1 e = ground arith

  module _ (e : Emulation) (g : Good need b packets e) (runs : e.token_runs ≡ true) where
    -- The token thread leaves its loop when no packet is left to wait for.
    leave-AtServer :
        (at : ServerAt) (c : Bool)
        → is_empty e.q2 ≡ c
        → AtServer at e.packet_list e.q1 e.q2 true
        → AtServer (if c then woken at else at) e.packet_list e.q1 e.q2 false
    leave-AtServer ready true is ok_at = tt
    leave-AtServer ready false is ok_at = tt
    leave-AtServer waiting true is ok_at = tt
    leave-AtServer waiting false is ok_at = cc (is, ap is_empty ok_at.0)
    leave-AtServer (serving p) true is ok_at = tt
    leave-AtServer (serving p) false is ok_at = tt
    leave-AtServer ended true is ok_at = ok_at
    leave-AtServer ended false is ok_at = ok_at

    abbrev leaving : Emulation
    leaving = record e {
      total_token = e.total_token + 1;
      server_at = if is_empty e.q2 then woken e.server_at else e.server_at;
      token_runs = false;
    }

    leaving-Good :
        is_empty e.packet_list ≡ true → is_empty e.q1 ≡ true → Good need b packets leaving
    leaving-Good no_packet no_q1 =
        let same : departed leaving ≡ departed e =
          ap (λ l. collected e ++ l) (in_service-woken (is_empty e.q2) e.server_at) in
        record {
          capacity = g.capacity;
          guard = g.guard;
          paid = omega (
            arith,
            g.paid,
            ap (λ l. tokens need (l ++ e.q2)) same,
            ap {B = ℕ} (λ r. if r then 0 else 1) runs,
          );
          order = ap (λ l. l ++ (e.q2 ++ e.q1) ++ admitted need b e.packet_list) same ∙ g.order;
          all_counted = omega (arith, g.all_counted, ap (λ l. length (l ++ (e.q2 ++ e.q1))) same);
          at_arrival = g.at_arrival;
          at_server =
              leave-AtServer e.server_at (is_empty e.q2) refl
                (subst (AtServer e.server_at e.packet_list e.q1 e.q2) runs g.at_server);
          at_report = woken-AtReport (is_empty e.q2) e.server_at e.collect_list g.at_report;
          at_token = (is_empty→nil _ no_packet, is_empty→nil _ no_q1);
          not_stopped = g.not_stopped;
        }

    leaving_lem :
        record (if is_empty e.q2 then broadcast (counted_token e) else counted_token e) {
          token_runs = false;
        }
        ≡ leaving
    unfolding broadcast
    leaving_lem = elim (Bool-cases (is_empty e.q2)) [
      | inl none_left ↦ rw none_left
      | inr some_left ↦ rw some_left
    ]

    pub token_turn-Good : Good need b packets (token_turn need b e)
    unfolding token_turn
    token_turn-Good = elim (Bool-cases (is_empty e.packet_list && is_empty e.q1)) [
      | inl over ↦ rw over (
          subst (Good need b packets) (sym leaving_lem)
            (leaving-Good (ground arith) (ground arith)))
      | inr more ↦ rw more (
          move_first-Good (add_token b (counted_token e)) e.q1 (add_token-q1 (counted_token e))
            (add_token-Good need b packets e g runs))
    ]

  module _ (e : Emulation) (g : Good need b packets e)
      (none_now : in_service e.server_at ≡ []) where
    -- The server does something else, with what it had served in other lists.
    settled-Good :
        (next : ServerAt) (collect report : List ℕ)
        → in_service next ≡ []
        → report ++ collect ≡ collected e
        → AtServer next e.packet_list e.q1 e.q2 e.token_runs
        → AtReport next collect
        → Good need b packets
            (record e { server_at = next; collect_list = collect; reported = report })
    settled-Good next collect report none_left served ok_at ok_report =
        let same : (report ++ collect) ++ in_service next ≡ departed e =
          λ i. served i ++ (none_left ∙ sym none_now) i in
        record {
          capacity = g.capacity;
          guard = g.guard;
          paid = omega (arith, g.paid, ap (λ l. tokens need (l ++ e.q2)) same);
          order = ap (λ l. l ++ (e.q2 ++ e.q1) ++ admitted need b e.packet_list) same ∙ g.order;
          all_counted = omega (arith, g.all_counted, ap (λ l. length (l ++ (e.q2 ++ e.q1))) same);
          at_arrival = g.at_arrival;
          at_server = ok_at;
          at_report = ok_report;
          at_token = g.at_token;
          not_stopped = g.not_stopped;
        }

    pub ready-Good : Good need b packets (record e { server_at = ready })
    ready-Good = settled-Good ready e.collect_list e.reported refl refl tt tt

    -- packet_statistics moves Collect_List as it stands.
    finished-Good :
        e.packet_list ≡ [] → e.q1 ≡ [] → e.q2 ≡ [] → Good need b packets (packet_statistics e)
    finished-Good no_packet no_q1 no_q2 =
        subst (Good need b packets)
          (sym (packet_statistics-empty e no_q2 (g.guard ∙ ap (λ l. length l) no_q2)))
          (settled-Good ended [] (collected e) refl (append-nil (collected e))
            (no_packet, no_q1, no_q2) refl)

  -- The server takes the first packet of Q2, which is there, or waits, or ends.
  module _ (e : Emulation) (g : Good need b packets e) (at : e.server_at ≡ ready) where
    no_service : in_service e.server_at ≡ []
    no_service = ap in_service at

    taken-Good :
        (q2 : List ℕ)
        → e.q2 ≡ q2
        → 0 < e.queue_amount_guard
        → Returns (Good need b packets) (take_packet e q2)
    unfolding take_packet
    taken-Good [] is some_left = absurd (omega (arith, g.guard, ap (λ l. length l) is))
    taken-Good (p ∷ rest) is some_left =
        let same : (collected e ++ p ∷ []) ++ rest ≡ departed e ++ e.q2 =
          append_assoc (collected e) (p ∷ []) rest
          ∙ ap (λ l. collected e ++ l) (sym is)
          ∙ ap (λ l. l ++ e.q2)
              (sym (append-nil (collected e)) ∙ ap (λ l. collected e ++ l) (sym no_service)) in
        let moved : (collected e ++ p ∷ []) ++ (rest ++ e.q1) ≡ arrived e =
          sym (append_assoc (collected e ++ p ∷ []) rest e.q1)
          ∙ ap (λ l. l ++ e.q1) same
          ∙ append_assoc (departed e) e.q2 e.q1 in
        returns (record {
          capacity = g.capacity;
          guard = omega (arith, g.guard, ap (λ l. length l) is);
          paid = omega (arith, g.paid, ap (tokens need) same);
          order = ap (λ l. l ++ admitted need b e.packet_list) moved ∙ g.order;
          all_counted = omega (arith, g.all_counted, ap (λ l. length l) moved);
          at_arrival = g.at_arrival;
          at_server = tt;
          at_report = tt;
          at_token = g.at_token;
          not_stopped = g.not_stopped;
        })

    -- A server with an empty Q2 that does not end waits for packets, so the token thread runs.
    still_running :
        (runs : Bool)
        → AtToken runs e.packet_list e.q1
        → (is_empty e.packet_list && (is_empty e.q1 && is_empty e.q2)) ≡ false
        → e.q2 ≡ []
        → runs ≡ true
    still_running true ok_at more none_left = refl
    still_running false ok_at more none_left =
        cc (more, ap is_empty ok_at.0, ap is_empty ok_at.1, ap is_empty none_left)

    nothing : (q2 : List ℕ) → length q2 ≡ 0 → q2 ≡ []
    nothing [] none_left = refl
    nothing (p ∷ ps) none_left = absurd (omega arith)

    idle-Good :
        e.q2 ≡ []
        → Returns (Good need b packets) (
            if is_empty e.packet_list && (is_empty e.q1 && is_empty e.q2)
            then ok (packet_statistics e)
            else ok (record e { server_at = waiting }))
    idle-Good q2_empty =
        elim (Bool-cases (is_empty e.packet_list && (is_empty e.q1 && is_empty e.q2))) [
          | inl over ↦ rw over (
              returns (
                finished-Good e g no_service (is_empty→nil _ (ground arith))
                  (is_empty→nil _ (ground arith)) q2_empty))
          | inr more ↦ rw more (
              returns (
                settled-Good e g no_service waiting e.collect_list e.reported refl refl
                  (q2_empty, still_running e.token_runs g.at_token more q2_empty) tt))
        ]

    pub server_turn-Good : Returns (Good need b packets) (server_turn e)
    unfolding server_turn
    server_turn-Good = elim (Bool-cases (ltb 0 e.queue_amount_guard)) [
      | inl some_left ↦ rw some_left (
          subst
            (λ c.
              Returns (Good need b packets)
                (if c then ok (packet_statistics e) else take_packet e e.q2))
            (sym g.not_stopped) (taken-Good e.q2 refl (ltb→lt _ _ some_left)))
      | inr none_left ↦ rw none_left (
          subst
            (λ c. Returns (Good need b packets) (
              if c || is_empty e.packet_list && (is_empty e.q1 && is_empty e.q2)
              then ok (packet_statistics e)
              else ok (record e { server_at = waiting })))
            (sym g.not_stopped) (idle-Good (nothing e.q2 (ground (arith, g.guard)))))
    ]

  taken-Returns :
      (e : Emulation) (q2 : List ℕ) → 0 < length q2 → Returns (λ f. Unit {0}) (take_packet e q2)
  unfolding take_packet
  taken-Returns e [] some_left = absurd (omega arith)
  taken-Returns e (p ∷ rest) some_left = returns tt

  -- Whenever the server looks, the packet that the guard counts is there.
  pub server_turn-Returns :
      (e : Emulation) → Good need b packets e → Returns (λ f. Unit {0}) (server_turn e)
  unfolding server_turn
  server_turn-Returns e g = elim (Bool-cases (ltb 0 e.queue_amount_guard)) [
    | inl some_left ↦ rw some_left (elim (Bool-cases e.server_stop) [
      | inl over ↦ cc (over, g.not_stopped)
      | inr more ↦
          subst
            (λ c.
              Returns (λ f. Unit {0}) (if c then ok (packet_statistics e) else take_packet e e.q2))
            (sym more) (taken-Returns e e.q2 (omega (arith, g.guard, ltb→lt _ _ some_left)))
    ])
    | inr none_left ↦
        rw none_left
          (elim (Bool-cases
            (e.server_stop || is_empty e.packet_list && (is_empty e.q1 && is_empty e.q2))) [
              | inl over ↦ rw over (returns tt)
              | inr more ↦ rw more (returns tt)
            ])
  ]

  pub server_done-Good :
      (e : Emulation) (p : ℕ)
      → Good need b packets e
      → e.server_at ≡ serving p
      → Good need b packets (server_done p e)
  unfolding server_done
  server_done-Good e p g at =
      let same : (e.reported ++ (e.collect_list ++ p ∷ [])) ++ [] ≡ departed e =
        append-nil (e.reported ++ (e.collect_list ++ p ∷ []))
        ∙ sym (append_assoc e.reported e.collect_list (p ∷ []))
        ∙ ap (λ a. collected e ++ in_service a) (sym at) in
      record {
        capacity = g.capacity;
        guard = g.guard;
        paid = omega (arith, g.paid, ap (λ l. tokens need (l ++ e.q2)) same);
        order = ap (λ l. l ++ (e.q2 ++ e.q1) ++ admitted need b e.packet_list) same ∙ g.order;
        all_counted = omega (arith, g.all_counted, ap (λ l. length (l ++ (e.q2 ++ e.q1))) same);
        at_arrival = g.at_arrival;
        at_server = tt;
        at_report = tt;
        at_token = g.at_token;
        not_stopped = g.not_stopped;
      }
