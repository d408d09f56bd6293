-- ===== src/TokenBucket/Step.antt =====
-- The threads of warmup2.c in any interleaving of their turns, in which each holds the mutex.
use usc_projects.Prelude.{ℕ, ◌≡◌, subst, ap, true, List}
use usc_projects.Kernel.{ok, Returns, Returns-ok}
use usc_projects.TokenBucket.{
  Emulation, idle, sleeping, ready, waiting, serving, packet_first, packet_second, token_turn,
  server_turn, server_done,
}
use usc_projects.TokenBucket.Good.{Good, in_service}
use usc_projects.TokenBucket.Arrive.{packet_first-Good, packet_second-Good}
use usc_projects.TokenBucket.Serve.{ready-Good, token_turn-Good, server_turn-Good, server_done-Good}

-- Sleeping and serving take any time, so any turn may come next that its thread has come to.
-- pthread_cond_wait may also return without a signal. malloc gives memory for every list element.
pub data Step (need : ℕ → ℕ) (b : ℕ) (e : Emulation) : Emulation → Type 0 where
  look : e.arrival ≡ idle → Step need b e (packet_first e)
  arrive : (p : ℕ) → e.arrival ≡ sleeping p → Step need b e (packet_second need b p e)
  token : e.token_runs ≡ true → Step need b e (token_turn need b e)
  serve : {e' : Emulation} → e.server_at ≡ ready → server_turn e ≡ ok e' → Step need b e e'
  wake_up : e.server_at ≡ waiting → Step need b e (record e { server_at = ready })
  depart : (p : ℕ) → e.server_at ≡ serving p → Step need b e (server_done p e)

pub data Reach (need : ℕ → ℕ) (b : ℕ) (e : Emulation) : Emulation → Type 0 where
  here : Reach need b e e
  then_step : {f g : Emulation} → Reach need b e f → Step need b f g → Reach need b e g

module _ (need : ℕ → ℕ) (b : ℕ) (packets : List ℕ) where
  pub Step-Good :
      {e f : Emulation} → Step need b e f → Good need b packets e → Good need b packets f
  Step-Good {e} (look at) g = packet_first-Good need b packets e at g
  Step-Good {e} (arrive p at) g = packet_second-Good need b packets e p at g
  Step-Good {e} (token runs) g = token_turn-Good need b packets e g runs
  Step-Good {e} (serve at runs) g =
      Returns-ok
        (subst (Returns (Good need b packets)) runs (server_turn-Good need b packets e g at))
  Step-Good {e} (wake_up at) g = ready-Good need b packets e g (ap in_service at)
  Step-Good {e} (depart p at) g = server_done-Good need b packets e p g at

  pub Reach-Good :
      {e f : Emulation} → Reach need b e f → Good need b packets e → Good need b packets f
  Reach-Good here g = g
  Reach-Good (then_step r st) g = Step-Good st (Reach-Good r g)
