-- ===== src/TokenBucket/Tests.antt =====
-- Runs of the emulation of warmup2.c, and the theorems at them.
use usc_projects.Prelude.{ℕ, ◌≡◌, refl, List, [], ◌∷◌, ◌==◌, if◌then◌else◌}
use usc_projects.TokenBucket.{
  Emulation, serving, packet_first, find_packet, packet_second, packet_statistics, server_done,
  start,
}

-- Packet 1 needs no token, packet 9 more than the bucket can have, all others two.
abbrev need : ℕ → ℕ
need p = if p == 1 then 0 else if p == 9 then 100 else 2

abbrev looked : List ℕ → Emulation
looked ps = packet_first (start ps)

abbrev came : ℕ → List ℕ → Emulation
came p ps = packet_second need 10 p (looked ps)

-- Packet 1 goes through at once, and packet 9 is dropped.
abbrev served_one : Emulation
served_one =
    server_done 1
      (record (came 1 (1 ∷ [])) { q2 = []; queue_amount_guard = 0; server_at = serving 1 })

abbrev over : Emulation
over = packet_statistics served_one

-- Packet 5 waits for its two tokens.
abbrev waits_five : Emulation
waits_five = came 5 (5 ∷ [])

too_large : (came 9 (9 ∷ [])).discard_packet ≡ 1
unfolding start packet_first find_packet packet_second
too_large = refl
