-- ===== src/Monitor/Flush.antt =====
-- Flushed clusters on their way to the intel queue: `_flush_item_id`, `_enqueue_summary`,
-- `flush_expired_clusters` and `_recover_flushed_awaiting_enrichment` of native/discord-monitor.py. The
-- state is what these functions read and change of the state file, with the clusters in memory and the
-- worker. A function that raises leaves what it has done.
pub mod Laws
pub mod Accounts
pub mod Each
pub mod Recovery
use swarm_kill_chain_medium.Prelude.{
  String, Bool, true, false, Option, none, some, List, [], ◌∷◌, ◌++◌, string_equality,
  if◌then◌else◌,
}
use swarm_kill_chain_medium.Float.{Float}
use swarm_kill_chain_medium.Dict.{Dict, put, remove, keys, elem}
use swarm_kill_chain_medium.Json.{Json, Python}
use swarm_kill_chain_medium.Cluster.Text.{append}
use swarm_kill_chain_medium.Cluster.Session.{Cluster}
use swarm_kill_chain_medium.Cluster.Manager.{Manager, flush_expired, evict_overflow}
use swarm_kill_chain_medium.Cluster.Saved.{
  Read, got, unreadable, overflow, to_dict, from_dict, to_state,
}
use swarm_kill_chain_medium.Cluster.Summary.{build_session_summary_payload}
use swarm_kill_chain_medium.Intel.Worker.{Worker, try_submit, drain_completed}
use swarm_kill_chain_medium.Monitor.Queue.{State, enqueue_pending}

-- What the broker gives for a cluster.
abbrev pub Enrichment : Type 0
Enrichment = Option (Dict String Json)

-- `queue` is the intel channel's; `snapshot` is `state["clusters"]`.
pub record Flushing : Type 0 where
  pub queue : State
  pub awaiting : Dict String Json
  pub snapshot : Dict String Json
  pub manager : Manager
  pub worker : Option (Worker Cluster Enrichment)

-- The state, what was written to the state file on the way, and whether no exception was raised.
pub record Flushed : Type 0 where
  pub state : Flushing
  pub saves : List Flushing
  pub returned : Bool

abbrev pub quiet : Flushing → Flushed
quiet m = record { state = m; saves = []; returned = true }

abbrev pub raised_in : Flushing → Flushed
raised_in m = record { state = m; saves = []; returned = false }

abbrev pub saving : Flushing → Flushed
saving m = record { state = m; saves = m ∷ []; returned = true }

-- What comes after a part that has raised is not done.
unfoldable pub and_then : Flushed → (Flushing → Flushed) → Flushed
and_then r f =
    let next = f r.state in if r.returned then record next { saves = r.saves ++ next.saves } else r

abbrev pub submit :
    Option (Worker Cluster Enrichment) → Cluster → Bool × Option (Worker Cluster Enrichment)
submit none c = (false, none)
submit (some worker) c = let (submitted, worker') = try_submit c worker in (submitted, some worker')

abbrev pub is_empty {ℓ} : {A : Type ℓ} → List A → Bool
is_empty [] = true
is_empty (x ∷ xs) = false

module _ (python : Python) (sha256 : String → String) where
  unfoldable pub flush_item_id : Cluster → String
  unfolding append
  flush_item_id c = sha256 (
      append (python.str_of c.key) (
        append ":" (
          append (python.str_of_float c.created_at) (
            append ":" (
              append (python.str_of_float c.last_activity_at)
                (append ":" (python.str_of_int c.raw_event_count)))))))

  abbrev pub enqueue_payload : Option Json → String → Flushing → Flushed
  enqueue_payload none flush_id m = raised_in m
  enqueue_payload (some payload) flush_id m = quiet (record m {
    queue = enqueue_pending m.queue flush_id payload;
    awaiting = remove m.awaiting flush_id;
  })

  unfoldable pub enqueue_summary : Cluster → Enrichment → String → Flushing → Flushed
  enqueue_summary c enrichment flush_id m =
      enqueue_payload (build_session_summary_payload python c enrichment) flush_id m

  -- One flushed cluster: it is noted before it is submitted.
  unfoldable pub flush_one : Cluster → Flushing → Flushed
  flush_one c m =
      let flush_id = flush_item_id c in
      let (submitted, worker) = submit m.worker c in
      let noted : Flushing = record m {
        awaiting = put m.awaiting flush_id (to_dict c);
        worker = worker;
      } in
      if submitted then quiet noted else enqueue_summary c none flush_id noted

  unfoldable pub flush_each : List Cluster → Flushing → Flushed
  flush_each [] m = quiet m
  flush_each (c ∷ cs) m = and_then (flush_one c m) (flush_each cs)

  -- The clusters that have left the manager.
  unfoldable pub flush_clusters : List Cluster → Flushing → Flushed
  unfolding to_state
  flush_clusters to_flush m =
      if is_empty to_flush
      then quiet m
      else and_then (flush_each to_flush m)
          λ flushed. saving (record flushed { snapshot = to_state flushed.manager.clusters })

  -- One enriched cluster, unless its summary has been queued already.
  unfoldable pub complete_one : Cluster → Enrichment → Flushing → Flushed
  complete_one c enrichment m =
      let flush_id = flush_item_id c in
      if elem flush_id (keys m.awaiting) then enqueue_summary c enrichment flush_id m else quiet m

  unfoldable pub complete_each : List (Cluster × Enrichment) → Flushing → Flushed
  complete_each [] m = quiet m
  complete_each ((c, enrichment) ∷ rest) m =
      and_then (complete_one c enrichment m) (complete_each rest)

  unfoldable pub complete_clusters : Option (Worker Cluster Enrichment) → Flushing → Flushed
  unfolding drain_completed
  complete_clusters none m = quiet m
  complete_clusters (some worker) m =
      let (completed, worker') = drain_completed worker in
      let drained : Flushing = record m { worker = some worker' } in
      if is_empty completed
      then quiet drained
      else and_then (complete_each completed drained) saving

  -- The clusters that leave, and the manager without them.
  unfoldable pub leaving : Manager → Float → List Cluster × Manager
  leaving manager now =
      let (expired, manager') = flush_expired manager now in
      let (evicted, manager'') = evict_overflow manager' in (expired ++ evicted, manager'')

  unfoldable pub flush_expired_clusters : Float → Flushing → Flushed
  flush_expired_clusters now m =
      let (to_flush, manager) = leaving m.manager now in
      and_then (flush_clusters to_flush (record m { manager = manager }))
        λ flushed. complete_clusters flushed.worker flushed

  -- One entry of `flushed_awaiting_enrichment` at startup.
  unfoldable pub recover_one : String → Read Cluster → Flushing → Flushed
  recover_one flush_id (got c) m = enqueue_summary c none flush_id m
  recover_one flush_id unreadable m = quiet (record m { awaiting = remove m.awaiting flush_id })
  recover_one flush_id overflow m = raised_in m

  unfoldable pub recover_each : Dict String Json → Flushing → Flushed
  recover_each [] m = quiet m
  recover_each ((flush_id, cluster_data) ∷ rest) m =
      and_then (recover_one flush_id (from_dict python cluster_data) m) (recover_each rest)

  unfoldable pub recover_flushed_awaiting_enrichment : Flushing → Flushed
  recover_flushed_awaiting_enrichment m =
      if is_empty m.awaiting then quiet m else and_then (recover_each m.awaiting m) saving
