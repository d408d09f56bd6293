-- ===== src/TokenBucket.antt =====
-- The token bucket emulation of Operating Systems/Warmup Assignment/Warmup Assignment 2: the
-- threads of warmup2.c, up to <Ctrl+C>, with the packets that prepare_packet puts into Packet_List.
pub mod Good
mod Enter
mod Arrive
mod Report
mod Serve
pub mod Step
pub mod Conserved
pub mod Waiting
mod Tests
use usc_projects.Prelude.{
  ℕ, suc, ◌+◌, ◌-◌, Bool, true, false, ◌&&◌, ◌||◌, List, [], ◌∷◌, ◌++◌, ltb, leb, ◌==◌,
  if◌then◌else◌, length, update, erase,
}
use usc_projects.Kernel.{Outcome, ok, panic}

-- Where the thread of packet_arrival is: before it locks the mutex, asleep until the packet
-- arrives, or past its loop.
pub data ArrivalAt : Type 0 where
  idle : ArrivalAt
  sleeping : ℕ → ArrivalAt
  stopped : ArrivalAt

-- Where the thread of server is: about to lock the mutex, or woken with it; waiting for the
-- condition; serving a packet; or past packet_statistics, which ends it.
pub data ServerAt : Type 0 where
  ready : ServerAt
  waiting : ServerAt
  serving : ℕ → ServerAt
  ended : ServerAt

-- The globals. A list is what it holds, in order: the addresses of `My402Packet`s. `packet_num` is
-- that field of each. `reported` are the packets that packet_statistics has taken from Collect_List
-- and given back with `free`. `token_runs`: token_arrival has not left its loop. The times are not
-- kept.
pub record Emulation : Type 0 where
  pub packet_list : List ℕ
  pub q1 : List ℕ
  pub q2 : List ℕ
  pub collect_list : List ℕ
  pub reported : List ℕ
  pub bucket : ℕ
  pub total_token : ℕ
  pub discard_token : ℕ
  pub total_packet : ℕ
  pub discard_packet : ℕ
  pub queue_amount_guard : ℕ
  pub packet_num : ℕ → ℕ
  pub server_stop : Bool
  pub arrival : ArrivalAt
  pub token_runs : Bool
  pub server_at : ServerAt

abbrev pub is_empty : List ℕ → Bool
is_empty [] = true
is_empty (p ∷ ps) = false

-- pthread_cond_broadcast, for the one thread that waits.
abbrev pub woken : ServerAt → ServerAt
woken ready = ready
woken waiting = ready
woken (serving p) = serving p
woken ended = ended

pub broadcast : Emulation → Emulation
broadcast e = record e { server_at = woken e.server_at }

-- Behind `packet`, which both threads have just taken off Q1, whose rest is `q1`: it pays its
-- tokens and enters Q2, and the server is woken if Q2 was empty.
pub enter_q2 : (ℕ → ℕ) → ℕ → List ℕ → Emulation → Emulation
enter_q2 need packet q1 e =
    let moved = record e {
      bucket = e.bucket - need packet;
      q1 = q1;
      q2 = e.q2 ++ packet ∷ [];
      queue_amount_guard = e.queue_amount_guard + 1;
    } in
    if is_empty e.q2 then broadcast moved else moved

-- packet_arrival up to the sleep.
find_packet : Emulation → List ℕ → Emulation
find_packet e [] = record e { arrival = stopped }
find_packet e (packet ∷ rest) = record e {
  arrival = sleeping packet;
  total_packet = e.total_packet + 1;
}

pub packet_first : Emulation → Emulation
unfolding find_packet
packet_first e = find_packet e e.packet_list

-- My402ListUnlink of My402ListFirst.
abbrev pub unlink_first : List ℕ → List ℕ
unlink_first [] = []
unlink_first (p ∷ ps) = ps

-- packet_arrival from the sleep on: a packet that needs more tokens than the bucket can have is
-- dropped. `need` is `tokens_need` of each packet, and `b` the capacity B.
enqueue : (ℕ → ℕ) → ℕ → Emulation → Emulation
enqueue need packet e =
    let q1 = e.q1 ++ packet ∷ [] in
    let e1 = record e { q1 = q1; packet_num = update e.packet_num packet e.total_packet } in
    let e2 =
      if leb (need packet) e.bucket && length q1 == 1
      then enter_q2 need packet (unlink_first q1) e1
      else e1 in
    record e2 { packet_list = erase packet e2.packet_list; arrival = idle }

pub packet_second : (ℕ → ℕ) → ℕ → ℕ → Emulation → Emulation
unfolding enqueue
packet_second need b packet e =
    if ltb b (need packet)
    then record e {
      packet_list = erase packet e.packet_list;
      discard_packet = e.discard_packet + 1;
      arrival = idle;
    }
    else enqueue need packet e

-- One turn of token_arrival.
add_token : ℕ → Emulation → Emulation
add_token b e =
    if ltb e.bucket b
    then record e { bucket = e.bucket + 1 }
    else record e { discard_token = e.discard_token + 1 }

move_first : (ℕ → ℕ) → List ℕ → Emulation → Emulation
move_first need [] e = e
move_first need (packet ∷ rest) e =
    if leb (need packet) e.bucket then enter_q2 need packet rest e else e

pub token_turn : (ℕ → ℕ) → ℕ → Emulation → Emulation
unfolding add_token move_first
token_turn need b e0 =
    let e = record e0 { total_token = e0.total_token + 1 } in
    if is_empty e.packet_list && is_empty e.q1
    then record (if is_empty e.q2 then broadcast e else e) { token_runs = false }
    else move_first need e.q1 (add_token b e)

-- packet_statistics, without the sums of times that it prints. Its loop over Collect_List runs when
-- the mutex is free again, but no other thread uses that list.
free_collected : List ℕ → Emulation → Emulation
free_collected [] e = e
free_collected (packet ∷ rest) e =
    free_collected rest (record e { collect_list = rest; reported = e.reported ++ packet ∷ [] })

pub packet_statistics : Emulation → Emulation
unfolding free_collected
packet_statistics e0 =
    let e = if is_empty e0.q2 then record e0 { q2 = []; queue_amount_guard = 0 } else e0 in
    record (free_collected e.collect_list e) { server_at = ended }

-- server from where it has the mutex to where it gives it back: by serving the first packet of Q2,
-- which must be there, by waiting, or by ending in packet_statistics.
take_packet : Emulation → List ℕ → Outcome Emulation
take_packet e [] = panic
take_packet e (packet ∷ rest) = ok (record e {
  q2 = rest;
  queue_amount_guard = e.queue_amount_guard - 1;
  server_at = serving packet;
})

pub server_turn : Emulation → Outcome Emulation
unfolding take_packet packet_statistics
server_turn e =
    if ltb 0 e.queue_amount_guard
    then (if e.server_stop then ok (packet_statistics e) else take_packet e e.q2)
    else if e.server_stop || is_empty e.packet_list && (is_empty e.q1 && is_empty e.q2)
    then ok (packet_statistics e)
    else ok (record e { server_at = waiting })

-- server once the packet has been served.
pub server_done : ℕ → Emulation → Emulation
server_done packet e = record e { collect_list = e.collect_list ++ packet ∷ []; server_at = ready }

-- What `process` starts with, after prepare_packet.
pub start : List ℕ → Emulation
start packets = record {
  packet_list = packets;
  q1 = [];
  q2 = [];
  collect_list = [];
  reported = [];
  bucket = 0;
  total_token = 0;
  discard_token = 0;
  total_packet = 0;
  discard_packet = 0;
  queue_amount_guard = 0;
  packet_num = λ p. 0;
  server_stop = false;
  arrival = idle;
  token_runs = true;
  server_at = ready;
}
