-- ===== src/Intel/Parameters/Laws.antt =====
-- How often a parameter is fetched, and what a failed fetch leaves (native/threat_intel/parameter_store.py).
use swarm_kill_chain_medium.Prelude.{
  ℕ, ◌+◌, ◌≤◌, ◌<◌, ◌≡◌, refl, String, Bool, true, false, not, ◌&&◌, none, ltb, lt→ltb, arith,
  by_if,
}
use swarm_kill_chain_medium.Json.{Python}
use swarm_kill_chain_medium.Intel.Parameters.{
  Ran, not_run, exited, Parameter, Got, stripped, is_value, keep_candidate, refreshed, get_value,
}

module _ (python : Python) where
  keep_candidate-next :
      (candidate : String) (c : Parameter)
      → (keep_candidate candidate c).cache.next_refresh ≡ c.next_refresh
  unfolding keep_candidate
  keep_candidate-next candidate c =
      by_if (λ (g : Got). g.cache.next_refresh ≡ c.next_refresh) (is_value candidate) (λ e. refl)
        (λ e. refl)

  refreshed-next :
      (ran : Ran) (c : Parameter) → (refreshed python ran c).cache.next_refresh ≡ c.next_refresh
  refreshed-next not_run c = refl
  refreshed-next (exited code stdout) c =
      keep_candidate-next (stripped python (exited code stdout)) c

  -- A call that runs the command sets the next time.
  called-next :
      (now : ℕ) (ran : Ran) (c : Parameter)
      → (get_value python false now ran c).called ≡ true
      → (c.next_refresh ≤ now)
        × ((get_value python false now ran c).cache.next_refresh ≡ now + c.refresh_seconds)
  unfolding get_value
  called-next now ran c =
      by_if
        (λ (g : Got).
          g.called ≡ true
          → (c.next_refresh ≤ now) × (g.cache.next_refresh ≡ now + c.refresh_seconds))
        (ltb now c.next_refresh) (λ e h. absurd (ground arith))
        (λ e h. (ground (arith, e), refreshed-next ran _))

  -- Unless it is forced, a fetch is not repeated before its time is over, whatever it gave: two fetches
  -- by successive calls lie apart by the refresh time at least.
  pub get_value-Spaced :
      (now later : ℕ) (ran again : Ran) (c : Parameter)
      → (get_value python false now ran c).called ≡ true
      → (get_value python false later again (get_value python false now ran c).cache).called ≡ true
      → now + c.refresh_seconds ≤ later
  get_value-Spaced now later ran again c first second = omega (
    arith,
    (called-next now ran c first).1,
    (called-next later again (get_value python false now ran c).cache second).0,
  )

  -- A fetch that does not run the command returns no value, but leaves the value of before in the cache:
  -- every call within the refresh time returns that value again, without running the command.
  pub get_value-stale :
      (force : Bool) (now later : ℕ) (ran : Ran) (c : Parameter)
      → (not force && ltb now c.next_refresh) ≡ false
      → later < now + c.refresh_seconds
      → ((get_value python force now not_run c).value ≡ none)
        × ((get_value python false later ran (get_value python force now not_run c).cache).value
            ≡ c.value)
        × ((get_value python false later ran (get_value python force now not_run c).cache).called
            ≡ false)
  unfolding get_value
  get_value-stale force now later ran c due soon =
      rw (due, lt→ltb later (now + c.refresh_seconds) soon) (refl, refl, refl)
