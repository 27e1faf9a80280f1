-- ===== src/Cluster/Manager.antt =====
-- `SessionClusterManager` of native/session_cluster.py: the active clusters, keyed by session or by
-- address.
pub mod Laws
pub mod Observe
use swarm_kill_chain_medium.Prelude.{
  ℕ, ◌-◌, String, Bool, true, false, not, ◌&&◌, ◌||◌, Option, none, some, List, [], ◌∷◌, ltb,
  length, take, string_equality, if◌then◌else◌,
}
use swarm_kill_chain_medium.Float.{Float, ticks, flt, fsub}
use swarm_kill_chain_medium.Dict.{Dict, get, put, remove_all, keys, values}
use swarm_kill_chain_medium.Dict.Sorting.{sort_items}
use swarm_kill_chain_medium.Json.{Json, str, truthy, or_default, Python}
use swarm_kill_chain_medium.Cluster.Text.{append}
use swarm_kill_chain_medium.Cluster.Session.{Event, at, Cluster, new_cluster, record_event}

pub record Manager : Type 0 where
  pub window_seconds : ℕ
  pub max_cluster_age_seconds : ℕ
  pub max_commands : ℕ
  pub max_active_clusters : ℕ
  pub clusters : Dict String Cluster

-- `SessionClusterManager(window_seconds, max_cluster_age_seconds)`, in milliseconds.
abbrev pub new_manager : ℕ → ℕ → Manager
new_manager window age = record {
  window_seconds = window;
  max_cluster_age_seconds = age;
  max_commands = 50;
  max_active_clusters = 500;
  clusters = [];
}

-- `now - then_ > span`
unfoldable pub is_past : Float → Float → ℕ → Bool
unfolding flt fsub
is_past now before span = flt (ticks span) (fsub now before)

unfoldable pub is_expired : Manager → Float → Cluster → Bool
unfolding is_past
is_expired m now c =
    is_past now c.last_activity_at m.window_seconds
    || is_past now c.created_at m.max_cluster_age_seconds

-- The items of the clusters that pass a test, in order.
unfoldable pub items_where : (Cluster → Bool) → Dict String Cluster → Dict String Cluster
items_where p [] = []
items_where p ((k, c) ∷ d) = if p c then (k, c) ∷ items_where p d else items_where p d

-- The clusters that leave, and the manager without them.
unfoldable pub flush_expired : Manager → Float → List Cluster × Manager
unfolding is_expired items_where
flush_expired m now =
    let expired = items_where (is_expired m now) m.clusters in
    (values expired, record m { clusters = remove_all m.clusters (keys expired) })

unfoldable pub flush_all : Manager → List Cluster × Manager
flush_all m = (values m.clusters, record m { clusters = [] })

abbrev pub less_recent : Cluster → Cluster → Bool
less_recent a b = flt a.last_activity_at b.last_activity_at

-- `overflow <= 0` is `overflow` 0 here, where the difference stops at 0.
unfoldable pub evict_overflow : Manager → List Cluster × Manager
unfolding sort_items flt
evict_overflow m =
    let overflow = length m.clusters - m.max_active_clusters in
    let evicted = take overflow (sort_items less_recent m.clusters) in
    (values evicted, record m { clusters = remove_all m.clusters (keys evicted) })

abbrev pub active_count : Manager → ℕ
active_count m = length m.clusters

module _ (python : Python) where
  unfoldable pub cluster_key_for : Event → String
  unfolding truthy append
  cluster_key_for event =
      if truthy (at event "session")
      then append "session:" (python.str_of (at event "session"))
      else append "ip:" (python.str_of (or_default (get event "src_ip") (str "unknown")))

  -- The cluster that the event continues, unless it is one by address that has gone quiet.
  unfoldable pub continued : Manager → Event → Float → Option Cluster
  unfolding cluster_key_for is_past
  continued m event now = elim (get m.clusters (cluster_key_for event)) [
    | none ↦ none
    | some c ↦
        if not (truthy (at event "session")) && is_past now c.last_activity_at m.window_seconds
        then none
        else some c
  ]

  abbrev pub opened : Event → Float → Cluster
  opened event now =
      new_cluster (str (cluster_key_for event)) (or_default (get event "src_ip") (str "unknown"))
        (at event "session") now

  abbrev pub continued_or : Option Cluster → Cluster → Cluster
  continued_or none c = c
  continued_or (some c) _ = c

  abbrev pub is_none : Option Cluster → Bool
  is_none none = true
  is_none (some c) = false

  -- The key, the cluster with the event recorded, whether it is new, and the manager. The manager's
  -- dictionary holds the cluster itself, so that the record shows there too.
  unfoldable pub observe : Manager → Event → Float → String × Cluster × Bool × Manager
  observe m event now =
      let key = cluster_key_for event in
      let old = continued m event now in
      let c = record_event python event now m.max_commands (continued_or old (opened event now)) in
      (key, c, is_none old, record m { clusters = put m.clusters key c })
