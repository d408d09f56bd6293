-- ===== src/TokenBucket/Arrive.antt =====
-- The turns of packet_arrival in warmup2.c keep what holds at all times.
use usc_projects.Prelude.{
  ℕ, ◌+◌, ◌≡◌, refl, sym, ap, subst, ◌∙◌, Bool, true, false, List, [], ◌∷◌, ◌++◌, ltb, leb, ◌==◌,
  if◌then◌else◌, length, length-append, erase, update, ◌&&◌, arith, Bool-cases, inl, inr,
}
use mathlib.Core.List.{append_assoc}
use usc_projects.TokenBucket.{
  Emulation, idle, sleeping, ServerAt, ready, waiting, serving, ended, is_empty, broadcast,
  enter_q2, packet_first, find_packet, unlink_first, enqueue, packet_second,
}
use usc_projects.TokenBucket.Good.{
  departed, arrived, admitted, AtArrival, counted_ahead, AtServer, AtToken, Good,
}
use usc_projects.TokenBucket.Enter.{enter_q2-Good}

module _ (need : ℕ → ℕ) (b : ℕ) (packets : List ℕ) (e : Emulation) where
  find_packet-Good :
      (ps : List ℕ)
      → e.packet_list ≡ ps
      → e.arrival ≡ idle
      → Good need b packets e
      → Good need b packets (find_packet e ps)
  unfolding find_packet
  find_packet-Good [] is at g = record {
    capacity = g.capacity;
    guard = g.guard;
    paid = g.paid;
    order = g.order;
    all_counted = omega (arith, g.all_counted, ap counted_ahead at);
    at_arrival = is;
    at_server = g.at_server;
    at_report = g.at_report;
    at_token = g.at_token;
    not_stopped = g.not_stopped;
  }
  find_packet-Good (p ∷ ps) is at g = record {
    capacity = g.capacity;
    guard = g.guard;
    paid = g.paid;
    order = g.order;
    all_counted = omega (arith, g.all_counted, ap counted_ahead at);
    at_arrival = (ps, is);
    at_server = g.at_server;
    at_report = g.at_report;
    at_token = g.at_token;
    not_stopped = g.not_stopped;
  }

  pub packet_first-Good :
      e.arrival ≡ idle → Good need b packets e → Good need b packets (packet_first e)
  unfolding packet_first
  packet_first-Good at g = find_packet-Good e.packet_list refl at g

  module _ (p : ℕ) (at : e.arrival ≡ sleeping p) (g : Good need b packets e) where
    first_packet : (rest : List ℕ) × (e.packet_list ≡ p ∷ rest)
    first_packet = subst (λ a. AtArrival a e.packet_list) at g.at_arrival

    erased : (rest : List ℕ) → e.packet_list ≡ p ∷ rest → erase p e.packet_list ≡ rest
    erased rest is = ap (erase p) is ∙ ground arith

    -- Packet_List is not empty, so the token thread runs and the server has not ended.
    running : (runs : Bool) → AtToken runs e.packet_list e.q1 → runs ≡ true
    running true ok_at = refl
    running false ok_at = cc (ok_at.0, first_packet.1)

    moved-AtServer :
        (at : ServerAt) (q1 ps : List ℕ)
        → AtServer at e.packet_list e.q1 e.q2 e.token_runs
        → AtServer at ps q1 e.q2 e.token_runs
    moved-AtServer ready q1 ps ok_at = tt
    moved-AtServer waiting q1 ps ok_at = ok_at
    moved-AtServer (serving q) q1 ps ok_at = tt
    moved-AtServer ended q1 ps ok_at = cc (ok_at.0, first_packet.1)

    drop-Good :
        ltb b (need p) ≡ true
        → Good need b packets (record e {
          packet_list = erase p e.packet_list;
          discard_packet = e.discard_packet + 1;
          arrival = idle;
        })
    drop-Good large =
        let (rest, is) = first_packet in
        record {
          capacity = g.capacity;
          guard = g.guard;
          paid = g.paid;
          order =
              ap (λ l. arrived e ++ admitted need b l) (erased rest is)
              ∙ ap (λ l. arrived e ++ l) (ground arith)
              ∙ ap (λ l. arrived e ++ admitted need b l) (sym is)
              ∙ g.order;
          all_counted = omega (arith, g.all_counted, ap counted_ahead at);
          at_arrival = tt;
          at_server = moved-AtServer e.server_at e.q1 (erase p e.packet_list) g.at_server;
          at_report = g.at_report;
          at_token =
              subst (λ r. AtToken r (erase p e.packet_list) e.q1)
                (sym (running e.token_runs g.at_token)) tt;
          not_stopped = g.not_stopped;
        }

    -- Behind the packets of Q1, before it may go on to Q2.
    abbrev queued : Emulation
    queued = record e {
      packet_list = erase p e.packet_list;
      q1 = e.q1 ++ p ∷ [];
      packet_num = update e.packet_num p e.total_packet;
      arrival = idle;
    }

    arrived-queued : arrived queued ≡ arrived e ++ p ∷ []
    arrived-queued =
        ap (λ l. departed e ++ l) (sym (append_assoc e.q2 e.q1 (p ∷ [])))
        ∙ sym (append_assoc (departed e) (e.q2 ++ e.q1) (p ∷ []))

    queued-Good : ltb b (need p) ≡ false → Good need b packets queued
    queued-Good small =
        let (rest, is) = first_packet in
        record {
          capacity = g.capacity;
          guard = g.guard;
          paid = g.paid;
          order =
              ap (λ l. arrived queued ++ admitted need b l) (erased rest is)
              ∙ ap (λ l. l ++ admitted need b rest) arrived-queued
              ∙ append_assoc (arrived e) (p ∷ []) (admitted need b rest)
              ∙ ap (λ l. arrived e ++ l) (ground arith)
              ∙ ap (λ l. arrived e ++ admitted need b l) (sym is)
              ∙ g.order;
          all_counted = omega (
            arith,
            g.all_counted,
            ap counted_ahead at,
            ap (λ l. length l) arrived-queued,
            length-append (arrived e) (p ∷ []),
          );
          at_arrival = tt;
          at_server =
              moved-AtServer e.server_at (e.q1 ++ p ∷ []) (erase p e.packet_list) g.at_server;
          at_report = g.at_report;
          at_token =
              subst (λ r. AtToken r (erase p e.packet_list) (e.q1 ++ p ∷ []))
                (sym (running e.token_runs g.at_token)) tt;
          not_stopped = g.not_stopped;
        }

    enqueue-queued : enqueue need p e ≡ (
        if leb (need p) e.bucket && length (e.q1 ++ p ∷ []) == 1
        then enter_q2 need p (unlink_first (e.q1 ++ p ∷ [])) queued
        else queued)
    unfolding enqueue enter_q2 broadcast
    enqueue-queued = elim (Bool-cases (leb (need p) e.bucket && length (e.q1 ++ p ∷ []) == 1)) [
      | inl move ↦ elim (Bool-cases (is_empty e.q2)) [
        | inl none_left ↦ rw (move, none_left)
        | inr some_left ↦ rw (move, some_left)
      ]
      | inr stay ↦ rw stay
    ]

    only_one :
        (q1 : List ℕ) → length (q1 ++ p ∷ []) ≡ 1 → q1 ++ p ∷ [] ≡ p ∷ unlink_first (q1 ++ p ∷ [])
    only_one [] one = refl
    only_one (q ∷ q1) one = absurd (omega (arith, length-append q1 (p ∷ [])))

    move_on :
        Good need b packets queued
        → (leb (need p) e.bucket && length (e.q1 ++ p ∷ []) == 1) ≡ true
        → Good need b packets (enter_q2 need p (unlink_first (e.q1 ++ p ∷ [])) queued)
    move_on good move =
        enter_q2-Good need b packets p (unlink_first (e.q1 ++ p ∷ [])) queued good
          (only_one e.q1 (ground arith)) (ground arith)

    pub packet_second-Good : Good need b packets (packet_second need b p e)
    unfolding packet_second
    packet_second-Good = elim (Bool-cases (ltb b (need p))) [
      | inl large ↦ rw large (drop-Good large)
      | inr small ↦
          rw (small, enqueue-queued)
            (elim (Bool-cases (leb (need p) e.bucket && length (e.q1 ++ p ∷ []) == 1)) [
              | inl move ↦ rw move (move_on (queued-Good small) move)
              | inr stay ↦ rw stay (queued-Good small)
            ])
    ]
