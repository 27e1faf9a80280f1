-- ===== src/Intel/Worker/Delivery.antt =====
-- No accepted cluster is lost or handed out twice (native/threat_intel/worker.py).
use swarm_kill_chain_medium.Prelude.{
  ℕ, zero, suc, ◌+◌, ◌≡◌, refl, Bool, Option, none, some, List, [], ◌∷◌, ◌++◌, leb, arith,
  if◌then◌else◌, by_if,
}
use swarm_kill_chain_medium.Intel.Worker.{
  Phase, enriching, leaving, Worker, return_thread, end_thread, decrement, put_result, Action,
  submit, return, report, drain, perform, run,
}

module _ {C : Type 0} (p : C → Bool) where
  -- How many of the clusters pass the test.
  abbrev pub tally : List C → ℕ
  tally [] = 0
  tally (c ∷ cs) = if p c then suc (tally cs) else tally cs

  -- The same for pairs of a cluster and something else.
  abbrev pub tally_pairs {ℓ} : {B : Type ℓ} → List (C × B) → ℕ
  tally_pairs [] = 0
  tally_pairs ((c, b) ∷ cs) = if p c then suc (tally_pairs cs) else tally_pairs cs

  tally-append : (xs ys : List C) → tally (xs ++ ys) ≡ tally xs + tally ys
  tally-append [] ys = omega arith
  tally-append (x ∷ xs) ys = ground (arith, tally-append xs ys)

  tally_pairs-append :
      {B : Type 0} (xs ys : List (C × B)) → tally_pairs (xs ++ ys) ≡ tally_pairs xs + tally_pairs ys
  tally_pairs-append [] ys = omega arith
  tally_pairs-append ((x, b) ∷ xs) ys = ground (arith, tally_pairs-append xs ys)

  module _ {R : Type 0} where
    -- How many of the clusters that the worker has in hand pass the test.
    abbrev pub held : Worker C R → ℕ
    held w = tally_pairs w.threads + tally_pairs w.results

    abbrev Kept : Option (List (C × Phase R)) → List (C × Phase R) → Type 0
    Kept none ts = Unit
    Kept (some ts') ts = tally_pairs ts' ≡ tally_pairs ts

    return_thread-Kept : (i : ℕ) (r : R) (ts : List (C × Phase R)) → Kept (return_thread i r ts) ts
    unfolding return_thread
    return_thread-Kept zero r [] = tt
    return_thread-Kept (suc i) r [] = tt
    return_thread-Kept zero r ((c, enriching) ∷ ts) = refl
    return_thread-Kept zero r ((c, leaving s) ∷ ts) = tt
    return_thread-Kept (suc i) r ((c, f) ∷ ts) = ground (arith, return_thread-Kept i r ts)

    abbrev Moved : Option ((C × R) × List (C × Phase R)) → List (C × Phase R) → Type 0
    Moved none ts = Unit
    Moved (some (r, ts')) ts = tally_pairs (r ∷ []) + tally_pairs ts' ≡ tally_pairs ts

    end_thread-Moved : (i : ℕ) (ts : List (C × Phase R)) → Moved (end_thread i ts) ts
    unfolding end_thread
    end_thread-Moved zero [] = tt
    end_thread-Moved (suc i) [] = tt
    end_thread-Moved zero ((c, enriching) ∷ ts) = tt
    end_thread-Moved zero ((c, leaving s) ∷ ts) = ground arith
    end_thread-Moved (suc i) ((c, f) ∷ ts) = ground (arith, end_thread-Moved i ts)

    held-decrement :
        (o : Option (List (C × Phase R))) (w : Worker C R)
        → Kept o w.threads
        → held (decrement o w) ≡ held w
    unfolding decrement
    held-decrement none w h = refl
    held-decrement (some ts) w h = omega (arith, h)

    held-put_result :
        (o : Option ((C × R) × List (C × Phase R))) (w : Worker C R)
        → Moved o w.threads
        → held (put_result o w) ≡ held w
    unfolding put_result
    held-put_result none w h = refl
    held-put_result (some (r, ts)) w h = omega (arith, h, tally_pairs-append w.results (r ∷ []))

    perform-held :
        (a : Action C R) (w : Worker C R)
        → tally (perform a w).0 + held w ≡ tally_pairs (perform a w).1 + held (perform a w).2
    unfolding perform
    perform-held (submit c) w =
        by_if
          (λ (x : Bool × Worker C R). tally (if x.0 then c ∷ [] else []) + held w ≡ 0 + held x.1)
          (leb w.max_inflight w.inflight) (λ e. refl)
          (λ e. ground (arith, tally_pairs-append w.threads ((c, enriching) ∷ [])))
    perform-held (return i r) w =
        ground
          (arith, held-decrement (return_thread i r w.threads) w (return_thread-Kept i r w.threads))
    perform-held (report i) w =
        ground (arith, held-put_result (end_thread i w.threads) w (end_thread-Moved i w.threads))
    perform-held drain w = omega arith

    -- In every interleaving the clusters accepted are those handed out and those still in hand, counted
    -- with how often each occurs, whatever clusters are counted; what the worker had at the start is
    -- counted with the accepted ones.
    pub run_conserves :
        (actions : List (Action C R)) (w : Worker C R)
        → tally (run actions w).0 + held w ≡ tally_pairs (run actions w).1 + held (run actions w).2
    unfolding run
    run_conserves [] w = refl
    run_conserves (a ∷ actions) w =
        let w' = (perform a w).2 in
        omega (
          arith,
          perform-held a w,
          run_conserves actions w',
          tally-append (perform a w).0 (run actions w').0,
          tally_pairs-append (perform a w).1 (run actions w').1,
        )
