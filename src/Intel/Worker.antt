-- ===== src/Intel/Worker.antt =====
-- `ThreatIntelWorker` of native/threat_intel/worker.py. `C` is the type of the clusters and `R` that of
-- what the broker returns (`None` is one of its values). The polling loop and the threads interleave:
-- an action is one step of either, under the lock where the code takes it. The executor may hold a
-- submitted call back for as long as it likes, which is an interleaving too; a broker that raises is one
-- that returns `None`.
pub mod Laws
pub mod Delivery
use swarm_kill_chain_medium.Prelude.{
  ℕ, zero, suc, ◌+◌, ◌-◌, Bool, true, false, Option, none, some, List, [], ◌∷◌, ◌++◌, leb,
  if◌then◌else◌,
}

-- Where `_run` stands: in the broker's call, or past the `finally` block and before `put`.
pub data Phase (R : Type 0) : Type 0 where
  enriching : Phase R
  leaving : R → Phase R

module _ (C R : Type 0) where
  pub record Worker : Type 0 where
    pub max_inflight : ℕ
    pub inflight : ℕ
    pub threads : List (C × Phase R)
    pub results : List (C × R)

module _ {C R : Type 0} where
  abbrev pub new_worker : ℕ → Worker C R
  new_worker max_inflight = record {
    max_inflight = max_inflight;
    inflight = 0;
    threads = [];
    results = [];
  }

  unfoldable pub try_submit : C → Worker C R → Bool × Worker C R
  try_submit cluster w = if leb w.max_inflight w.inflight then (false, w) else (
    true,
    record w { inflight = w.inflight + 1; threads = w.threads ++ (cluster, enriching) ∷ [] },
  )

  -- The thread number `i` returns from the broker.
  unfoldable pub return_thread : ℕ → R → List (C × Phase R) → Option (List (C × Phase R))
  return_thread i enrichment [] = none
  return_thread zero enrichment ((c, enriching) ∷ ts) = some ((c, leaving enrichment) ∷ ts)
  return_thread zero enrichment ((c, leaving r) ∷ ts) = none
  return_thread (suc i) enrichment (t ∷ ts) = elim (return_thread i enrichment ts) [
    | none ↦ none
    | some ts' ↦ some (t ∷ ts')
  ]

  -- The thread number `i` reports and ends.
  unfoldable pub end_thread : ℕ → List (C × Phase R) → Option ((C × R) × List (C × Phase R))
  end_thread i [] = none
  end_thread zero ((c, enriching) ∷ ts) = none
  end_thread zero ((c, leaving r) ∷ ts) = some ((c, r), ts)
  end_thread (suc i) (t ∷ ts) = elim (end_thread i ts) [
    | none ↦ none
    | some (r, ts') ↦ some (r, t ∷ ts')
  ]

  unfoldable pub decrement : Option (List (C × Phase R)) → Worker C R → Worker C R
  decrement none w = w
  decrement (some ts) w = record w { inflight = w.inflight - 1; threads = ts }

  unfoldable pub put_result : Option ((C × R) × List (C × Phase R)) → Worker C R → Worker C R
  put_result none w = w
  put_result (some (r, ts)) w = record w { threads = ts; results = w.results ++ r ∷ [] }

  unfoldable pub drain_completed : Worker C R → List (C × R) × Worker C R
  drain_completed w = (w.results, record w { results = [] })

-- An action of a thread that does not stand where the action needs it changes nothing.
pub data Action (C R : Type 0) : Type 0 where
  submit : C → Action C R
  return : ℕ → R → Action C R
  report : ℕ → Action C R
  drain : Action C R

module _ {C R : Type 0} where
  -- What an action accepts, what it hands out, and the worker that it leaves.
  unfoldable pub perform : Action C R → Worker C R → List C × List (C × R) × Worker C R
  unfolding try_submit return_thread end_thread decrement put_result drain_completed
  perform (submit cluster) w =
      let (accepted, w') = try_submit cluster w in (if accepted then cluster ∷ [] else [], [], w')
  perform (return i enrichment) w = ([], [], decrement (return_thread i enrichment w.threads) w)
  perform (report i) w = ([], [], put_result (end_thread i w.threads) w)
  perform drain w = let (completed, w') = drain_completed w in ([], completed, w')

  unfoldable pub run : List (Action C R) → Worker C R → List C × List (C × R) × Worker C R
  unfolding perform
  run [] w = ([], [], w)
  run (a ∷ rest) w =
      let (accepted, out, w') = perform a w in
      let (accepted', out', last) = run rest w' in (accepted ++ accepted', out ++ out', last)
