-- ===== src/TokenBucket/Good.antt =====
-- What holds at all times in the emulation of warmup2.c.
use usc_projects.Prelude.{
  ℕ, ◌+◌, ◌≤◌, ◌≡◌, refl, Bool, true, false, List, [], ◌∷◌, ◌++◌, ltb, if◌then◌else◌, length, arith,
}
use usc_projects.TokenBucket.{
  Emulation, ArrivalAt, idle, sleeping, stopped, ServerAt, ready, waiting, serving, ended, start,
}

abbrev pub in_service : ServerAt → List ℕ
in_service ready = []
in_service waiting = []
in_service (serving p) = p ∷ []
in_service ended = []

-- The packets that have been served, in Collect_List or already taken from it.
abbrev pub collected : Emulation → List ℕ
collected e = e.reported ++ e.collect_list

-- The packets that have left Q2, that are in it, and that are in Q1, in the order of arrival.
abbrev pub departed : Emulation → List ℕ
departed e = collected e ++ in_service e.server_at

abbrev pub arrived : Emulation → List ℕ
arrived e = departed e ++ (e.q2 ++ e.q1)

abbrev pub tokens : (ℕ → ℕ) → List ℕ → ℕ
tokens need [] = 0
tokens need (p ∷ ps) = need p + tokens need ps

-- Without the packets that need more tokens than the bucket can have.
abbrev pub admitted : (ℕ → ℕ) → ℕ → List ℕ → List ℕ
admitted need b [] = []
admitted need b (p ∷ ps) =
    let rest = admitted need b ps in if ltb b (need p) then rest else p ∷ rest

-- The packet that is about to arrive is the first of Packet_List.
abbrev pub AtArrival : ArrivalAt → List ℕ → Type 0
AtArrival idle ps = Unit
AtArrival (sleeping p) ps = (rest : List ℕ) × (ps ≡ p ∷ rest)
AtArrival stopped ps = ps ≡ []

abbrev pub counted_ahead : ArrivalAt → ℕ
counted_ahead idle = 0
counted_ahead (sleeping p) = 1
counted_ahead stopped = 0

-- A server that waits has nothing to do, and will be woken: the token thread runs. One that has
-- ended has nothing left to do.
abbrev pub AtServer : ServerAt → List ℕ → List ℕ → List ℕ → Bool → Type 0
AtServer ready ps q1 q2 runs = Unit
AtServer waiting ps q1 q2 runs = (q2 ≡ []) × (runs ≡ true)
AtServer (serving p) ps q1 q2 runs = Unit
AtServer ended ps q1 q2 runs = (ps ≡ []) × (q1 ≡ []) × (q2 ≡ [])

-- A server that has ended has emptied Collect_List.
abbrev pub AtReport : ServerAt → List ℕ → Type 0
AtReport ready cs = Unit
AtReport waiting cs = Unit
AtReport (serving p) cs = Unit
AtReport ended cs = cs ≡ []

abbrev pub AtToken : Bool → List ℕ → List ℕ → Type 0
AtToken true ps q1 = Unit
AtToken false ps q1 = (ps ≡ []) × (q1 ≡ [])

pub record Good (need : ℕ → ℕ) (b : ℕ) (packets : List ℕ) (e : Emulation) : Type 0 where
  pub capacity : e.bucket ≤ b
  pub guard : e.queue_amount_guard ≡ length e.q2
  pub paid :
      e.total_token
      ≡ e.discard_token
        + e.bucket
        + tokens need (departed e ++ e.q2)
        + (if e.token_runs then 0 else 1)
  pub order : arrived e ++ admitted need b e.packet_list ≡ admitted need b packets
  pub all_counted : e.total_packet ≡ e.discard_packet + length (arrived e) + counted_ahead e.arrival
  pub at_arrival : AtArrival e.arrival e.packet_list
  pub at_server : AtServer e.server_at e.packet_list e.q1 e.q2 e.token_runs
  pub at_report : AtReport e.server_at e.collect_list
  pub at_token : AtToken e.token_runs e.packet_list e.q1
  pub not_stopped : e.server_stop ≡ false

module _ (need : ℕ → ℕ) (b : ℕ) (packets : List ℕ) where
  pub start-Good : Good need b packets (start packets)
  unfolding start
  start-Good = record {
    capacity = omega arith;
    guard = refl;
    paid = refl;
    order = refl;
    all_counted = refl;
    at_arrival = tt;
    at_server = tt;
    at_report = tt;
    at_token = tt;
    not_stopped = refl;
  }
