-- ===== src/Measure/Quiet.antt =====
-- The parts of a copy of service/metrics/metrics.go that leave the counters alone.
use outline_ss_server.Prelude.{
  ℕ, zero, suc, ◌≡◌, refl, sym, ap, ◌∙◌, inl, inr, ◌⊎◌, Option, none, some, List, length,
  Bool-cases, ◌==◌,
}
use outline_ss_server.Net.GoError.{GoError}
use outline_ss_server.Measure.Copy.{
  Read, Write, Verdict, goes_on, stops, write_turn, turn, copy_loop,
}
use outline_ss_server.Measure.{Process}
use outline_ss_server.Measure.Fast.{Drinks}

pub verdict_cases : (v : Verdict) → (v ≡ goes_on) ⊎ ((e : Option GoError) × (v ≡ stops e))
verdict_cases goes_on = inl refl
verdict_cases (stops e) = inr (e, refl)

module _ {Outside : Type 0} where
  -- A call that leaves the counters alone.
  abbrev pub Quiet : {A : Type 0} → (Process Outside → A × Process Outside) → Type 0
  Quiet f = (p : Process Outside) → (f p).1.metrics ≡ p.metrics

  pub Drinks-metrics :
      {read : Read (Process Outside)} {write : Write (Process Outside)} {n : ℕ}
      {p q : Process Outside}
      → ((b : ℕ) → Quiet (read b))
      → ((bs : List ℕ) → Quiet (write bs))
      → Drinks read write n p q
      → q.metrics ≡ p.metrics
  Drinks-metrics r w Drinks.stop = refl
  Drinks-metrics r w (Drinks.reads b d) = Drinks-metrics r w d ∙ r b _
  Drinks-metrics r w (Drinks.writes bs d) = Drinks-metrics r w d ∙ w bs _

  turn-Quiet :
      (write : Write (Process Outside)) (read : Read (Process Outside))
      → ((b : ℕ) → Quiet (read b))
      → ((bs : List ℕ) → Quiet (write bs))
      → Quiet (turn write read)
  unfolding turn write_turn
  turn-Quiet write read r w p =
      let bs = (read 32_768 p).0.0 in
      elim (Bool-cases (length bs == 0)) [
        | inl empty ↦ rw (empty, turn, write_turn) (r 32_768 p)
        | inr some_bytes ↦ rw (some_bytes, turn, write_turn) (w bs (read 32_768 p).1 ∙ r 32_768 p)
      ]

  pub loop-metrics :
      (fuel : ℕ) (write : Write (Process Outside)) (read : Read (Process Outside)) (k n : ℕ)
      (err : Option GoError) (p q : Process Outside)
      → ((b : ℕ) → Quiet (read b))
      → ((bs : List ℕ) → Quiet (write bs))
      → copy_loop fuel write read k p ≡ some ((n, err), q)
      → q.metrics ≡ p.metrics
  unfolding copy_loop
  loop-metrics zero write read k n err p q r w h = cc
  loop-metrics (suc fuel) write read k n err p q r w h =
      elim (verdict_cases (turn write read p).0.1) [
        | inl go ↦
            loop-metrics fuel write read _ n err _ q r w (rw (go, copy_loop) at h)
            ∙ turn-Quiet write read r w p
        | inr (e, stop) ↦
            let same : (turn write read p).1 ≡ q =
              ap (λ o. elim o [ none ↦ q | some x ↦ x.1 ]) (rw (stop, copy_loop) at h) in
            sym (ap (λ (x : Process Outside). x.metrics) same) ∙ turn-Quiet write read r w p
      ]
