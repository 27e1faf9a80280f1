-- ===== src/Intel/Worker/Laws.antt =====
-- The bound on the enrichments in flight, and where each accepted cluster is, in every interleaving
-- (native/threat_intel/worker.py).
use swarm_kill_chain_medium.Prelude.{
  ℕ, zero, suc, ◌≤◌, ◌≡◌, refl, Bool, Option, none, some, List, [], ◌∷◌, ◌++◌, leb, arith, by_if,
}
use swarm_kill_chain_medium.Intel.Worker.{
  Phase, enriching, leaving, Worker, return_thread, end_thread, decrement, put_result, Action,
  submit, return, report, drain, perform, run,
}

module _ {C R : Type 0} where
  abbrev pub enriching_count : List (C × Phase R) → ℕ
  enriching_count [] = 0
  enriching_count ((c, enriching) ∷ ts) = suc (enriching_count ts)
  enriching_count ((c, leaving r) ∷ ts) = enriching_count ts

  -- The counter counts the threads in the broker's call, and does not pass its bound.
  abbrev pub IsValid : Worker C R → Type 0
  IsValid w = (w.inflight ≡ enriching_count w.threads) × (w.inflight ≤ w.max_inflight)

  abbrev Decided : Option (List (C × Phase R)) → List (C × Phase R) → Type 0
  Decided none ts = Unit
  Decided (some ts') ts = suc (enriching_count ts') ≡ enriching_count ts

  return_thread-count :
      (i : ℕ) (r : R) (ts : List (C × Phase R)) → Decided (return_thread i r ts) ts
  unfolding return_thread
  return_thread-count zero r [] = tt
  return_thread-count (suc i) r [] = tt
  return_thread-count zero r ((c, enriching) ∷ ts) = refl
  return_thread-count zero r ((c, leaving s) ∷ ts) = tt
  return_thread-count (suc i) r ((c, enriching) ∷ ts) = ground (arith, return_thread-count i r ts)
  return_thread-count (suc i) r ((c, leaving s) ∷ ts) = ground (arith, return_thread-count i r ts)

  enriching_count-append :
      (ts : List (C × Phase R)) (c : C)
      → enriching_count (ts ++ (c, enriching) ∷ []) ≡ suc (enriching_count ts)
  enriching_count-append [] c = refl
  enriching_count-append ((d, enriching) ∷ ts) c = omega (arith, enriching_count-append ts c)
  enriching_count-append ((d, leaving r) ∷ ts) c = enriching_count-append ts c

  abbrev Ended : Option ((C × R) × List (C × Phase R)) → List (C × Phase R) → Type 0
  Ended none ts = Unit
  Ended (some (r, ts')) ts = enriching_count ts' ≡ enriching_count ts

  end_thread-count : (i : ℕ) (ts : List (C × Phase R)) → Ended (end_thread i ts) ts
  unfolding end_thread
  end_thread-count zero [] = tt
  end_thread-count (suc i) [] = tt
  end_thread-count zero ((c, enriching) ∷ ts) = tt
  end_thread-count zero ((c, leaving s) ∷ ts) = refl
  end_thread-count (suc i) ((c, enriching) ∷ ts) = ground (arith, end_thread-count i ts)
  end_thread-count (suc i) ((c, leaving s) ∷ ts) = ground (arith, end_thread-count i ts)

  decrement-IsValid :
      (o : Option (List (C × Phase R))) (w : Worker C R)
      → Decided o w.threads
      → IsValid w
      → IsValid (decrement o w)
  unfolding decrement
  decrement-IsValid none w h v = v
  decrement-IsValid (some ts) w h (a, b) = (omega (arith, a, h), omega (arith, b))

  put_result-IsValid :
      (o : Option ((C × R) × List (C × Phase R))) (w : Worker C R)
      → Ended o w.threads
      → IsValid w
      → IsValid (put_result o w)
  unfolding put_result
  put_result-IsValid none w h v = v
  put_result-IsValid (some (r, ts)) w h (a, b) = (omega (arith, a, h), b)

  perform-IsValid : (a : Action C R) (w : Worker C R) → IsValid w → IsValid (perform a w).2
  unfolding perform
  perform-IsValid (submit c) w (a, b) =
      by_if (λ (x : Bool × Worker C R). IsValid x.1) (leb w.max_inflight w.inflight) (λ e. (a, b))
        (λ e. (omega (arith, a, enriching_count-append w.threads c), ground (arith, e)))
  perform-IsValid (return i r) w v =
      decrement-IsValid (return_thread i r w.threads) w (return_thread-count i r w.threads) v
  perform-IsValid (report i) w v =
      put_result-IsValid (end_thread i w.threads) w (end_thread-count i w.threads) v
  perform-IsValid drain w v = v

  -- In every interleaving the counter is the number of threads in the broker's call, and no more than
  -- the bound.
  pub run-IsValid :
      (actions : List (Action C R)) (w : Worker C R) → IsValid w → IsValid (run actions w).2
  unfolding run
  run-IsValid [] w v = v
  run-IsValid (a ∷ actions) w v = run-IsValid actions (perform a w).2 (perform-IsValid a w v)
