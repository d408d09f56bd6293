-- ===== src/TokenBucket/Report.antt =====
-- packet_statistics of warmup2.c takes all packets from Collect_List.
use usc_projects.Prelude.{
  ℕ, ◌≡◌, refl, sym, ap, ◌∙◌, true, List, [], ◌∷◌, ◌++◌, Bool-cases, inl, inr,
}
use mathlib.Core.List.{append_assoc, append-nil}
use usc_projects.TokenBucket.{Emulation, ended, is_empty, free_collected, packet_statistics}
use usc_projects.TokenBucket.Good.{collected}

free_collected-empty :
    (cs : List ℕ) (e : Emulation)
    → e.collect_list ≡ cs
    → free_collected cs e ≡ record e { collect_list = []; reported = e.reported ++ cs }
unfolding free_collected
free_collected-empty [] e is =
    λ i. record e { collect_list = is i; reported = sym (append-nil e.reported) i }
free_collected-empty (p ∷ rest) e is =
    free_collected-empty rest (record e { collect_list = rest; reported = e.reported ++ p ∷ [] })
      refl
    ∙ λ i. record e { collect_list = []; reported = append_assoc e.reported (p ∷ []) rest i }

-- With an empty Q2.
pub packet_statistics-empty :
    (e : Emulation)
    → e.q2 ≡ []
    → e.queue_amount_guard ≡ 0
    → packet_statistics e
      ≡ record e { server_at = ended; collect_list = []; reported = collected e }
unfolding packet_statistics
packet_statistics-empty e no_q2 no_guard =
    let none_left : is_empty e.q2 ≡ true = ap is_empty no_q2 in
    rw none_left (
      ap (λ (f : Emulation). record f { server_at = ended })
        (free_collected-empty e.collect_list (record e { q2 = []; queue_amount_guard = 0 }) refl)
      ∙ λ i. record e {
        server_at = ended;
        collect_list = [];
        reported = collected e;
        q2 = sym no_q2 i;
        queue_amount_guard = sym no_guard i;
      })

free_collected-bucket : (cs : List ℕ) (e : Emulation) → (free_collected cs e).bucket ≡ e.bucket
unfolding free_collected
free_collected-bucket [] e = refl
free_collected-bucket (p ∷ cs) e = free_collected-bucket cs _

pub statistics-bucket : (e : Emulation) → (packet_statistics e).bucket ≡ e.bucket
unfolding packet_statistics
statistics-bucket e = elim (Bool-cases (is_empty e.q2)) [
  | inl none_left ↦ rw none_left (free_collected-bucket e.collect_list _)
  | inr some_left ↦ rw some_left (free_collected-bucket e.collect_list e)
]
