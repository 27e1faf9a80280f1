-- ===== src/Tests/Cluster.antt =====
-- Clusters of a few events, with the values that Python's functions have on them.
use swarm_kill_chain_medium.Prelude.{
  ◌≤◌, ◌≡◌, refl, String, none, some, [], ◌∷◌, arith, string_equality, if◌then◌else◌,
}
use swarm_kill_chain_medium.Float.{ticks}
use swarm_kill_chain_medium.Dict.{Dict, get}
use swarm_kill_chain_medium.Json.{Json, null, str, Python}
use swarm_kill_chain_medium.Cluster.Text.{len, sanitize_display}
use swarm_kill_chain_medium.Cluster.Text.Laws.{AllChars, is_banned, sanitize_display-IsSafe}
use swarm_kill_chain_medium.Cluster.Session.{Event, Cluster, new_cluster}
use swarm_kill_chain_medium.Cluster.Manager.{
  Manager, new_manager, evict_overflow, cluster_key_for, observe,
}
use swarm_kill_chain_medium.Cluster.Manager.Laws.{IsValid, Evicts, evict_overflow_exact}
use swarm_kill_chain_medium.Cluster.Manager.Observe.{Observed, observe-Observed}

abbrev text_of : Json → String
text_of (str s) = s
text_of _ = "None"

-- Parameters that agree with Python on lower-case texts.
abbrev python : Python
python = record {
  str_of = text_of;
  lower = λ s. s;
  float_of_text = λ s. none;
  int_of_text = λ s. none;
  str_of_int = λ n. "0";
  str_of_float = λ x. "0.0";
  strip = λ s. s;
  sorted = some;
  distinct = some;
}

abbrev event : Event
event =
    ("eventid", str "cowrie.command.input")
    ∷ ("src_ip", str "192.0.2.1")
    ∷ ("session", str "a1b2")
    ∷ ("input", str "wget `x`")
    ∷ []

abbrev cluster : Cluster
cluster = new_cluster (str "session:a1b2") (str "192.0.2.1") (str "a1b2") (ticks 1000)

abbrev cleaned : String
cleaned = sanitize_display python (str "wget `x`") 6

cleaned_run : cleaned ≡ "wget …"
unfolding sanitize_display
cleaned_run = refl

sanitize_display-IsSafe_example : (len cleaned ≤ 6) × AllChars is_banned cleaned
sanitize_display-IsSafe_example = sanitize_display-IsSafe python (str "wget `x`") 6 (omega arith)

abbrev manager : Manager
manager = record (new_manager 45000 1800000) {
  max_active_clusters = 1;
  clusters =
      ("session:a1b2", cluster)
      ∷ ("ip:192.0.2.7", new_cluster (str "ip:192.0.2.7") (str "192.0.2.7") null (ticks 500))
      ∷ [];
}

distinct : IsValid manager
distinct = (refl, (refl, tt))

evict_overflow_exact_example :
    ((out : Dict String Cluster) × Evicts manager (evict_overflow manager) out)
    × IsValid (evict_overflow manager).1
evict_overflow_exact_example = evict_overflow_exact manager distinct

-- An event of the address, which has been quiet for longer than the window.
abbrev address_event : Event
address_event = ("eventid", str "cowrie.session.connect") ∷ ("src_ip", str "192.0.2.7") ∷ []

observe-Observed_example :
    Observed python manager address_event
      (ticks 50000)
      (get manager.clusters (cluster_key_for python address_event))
      (observe python manager address_event (ticks 50000))
    × (get (observe python manager address_event (ticks 50000)).3.clusters "ip:192.0.2.7" ≡ (
        if string_equality.equal (cluster_key_for python address_event) "ip:192.0.2.7"
        then some (observe python manager address_event (ticks 50000)).1
        else get manager.clusters "ip:192.0.2.7"))
observe-Observed_example =
    observe-Observed python manager address_event (ticks 50000) "ip:192.0.2.7" distinct
