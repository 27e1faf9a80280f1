-- ===== src/Tests/Intel.antt =====
-- The worker and the cache on small inputs.
use swarm_kill_chain_medium.Prelude.{
  ℕ, ◌+◌, ◌≡◌, refl, none, List, [], ◌∷◌, arith, ◌==◌, string_equality,
}
use swarm_kill_chain_medium.Json.{str}
use swarm_kill_chain_medium.Intel.Worker.{
  Worker, new_worker, Action, submit, return, report, drain, run,
}
use swarm_kill_chain_medium.Intel.Worker.Laws as WorkerLaws
use swarm_kill_chain_medium.Intel.Worker.Laws.{run-IsValid}
use swarm_kill_chain_medium.Intel.Worker.Delivery.{tally, tally_pairs, held, run_conserves}
use swarm_kill_chain_medium.Intel.Cache.{Cache, Entry}

-- The third submission is refused; the second cluster's lookup ends first.
abbrev actions : List (Action ℕ ℕ)
actions =
    submit 1
    ∷ submit 2
    ∷ submit 3
    ∷ return 1 20
    ∷ submit 4
    ∷ report 1
    ∷ drain
    ∷ return 0 10
    ∷ report 0
    ∷ []

abbrev worker : Worker ℕ ℕ
worker = new_worker 2

actions_end : ((run actions worker).0 ≡ 1 ∷ 2 ∷ 4 ∷ []) × ((run actions worker).1 ≡ (2, 20) ∷ [])
unfolding run
actions_end = (refl, refl)

run-IsValid_example : WorkerLaws.IsValid (run actions worker).2
run-IsValid_example = run-IsValid actions worker (refl, omega arith)

run_conserves_example :
    tally (λ c. c == 2) (run actions worker).0 + held (λ c. c == 2) worker
    ≡ tally_pairs (λ c. c == 2) (run actions worker).1 + held (λ c. c == 2) (run actions worker).2
run_conserves_example = run_conserves (λ c. c == 2) actions worker

abbrev cache : Cache
cache = record { max_entries = 2; entries = [] }

abbrev answer : Entry
answer = record { content = ("status", str "ok") ∷ []; expires_at_epoch = none }
