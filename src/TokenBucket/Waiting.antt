-- ===== src/TokenBucket/Waiting.antt =====
-- How long the first packet of Q1 waits for its tokens in warmup2.c.
use usc_projects.Prelude.{ℕ, ◌+◌, ◌≡◌, List, ◌∷◌}
use usc_projects.TokenBucket.{Emulation}
use usc_projects.TokenBucket.Good.{Good}
use usc_projects.TokenBucket.Step.{Step, look, arrive, token, serve, wake_up, depart}

abbrev pub token_turns : {need : ℕ → ℕ} {b : ℕ} {e f : Emulation} → Step need b e f → ℕ
token_turns (look at) = 0
token_turns (arrive p at) = 0
token_turns (token runs) = 1
token_turns (serve at runs) = 0
token_turns (wake_up at) = 0
token_turns (depart p at) = 0

-- A run with `k` turns of the token thread, all along which `p` is the first packet of Q1.
pub data Waits (need : ℕ → ℕ) (b p : ℕ) (e : Emulation) : ℕ → Emulation → Type 0 where
  first : (rest : List ℕ) → e.q1 ≡ p ∷ rest → Waits need b p e 0 e
  longer :
      {k : ℕ} {f g : Emulation} (rest : List ℕ)
      → Waits need b p e k f
      → (st : Step need b f g) → g.q1 ≡ p ∷ rest
      → Waits need b p e (k + token_turns st) g

module _ (need : ℕ → ℕ) (b : ℕ) where
  abbrev counted_token : Emulation → Emulation
  counted_token e = record e { total_token = e.total_token + 1 }
