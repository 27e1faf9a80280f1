-- ===== src/Monitor/Intake.antt =====
-- `queue_line` of native/discord-monitor.py: one line of the log. Its state is that of the legacy
-- channel, the clusters and the snapshot of them in the state file.
pub mod Laws
use swarm_kill_chain_medium.Prelude.{
  ℕ, String, Bool, true, false, ◌&&◌, not, Option, none, some, List, [], ◌∷◌, ◌++◌, string_equality,
  if◌then◌else◌,
}
use swarm_kill_chain_medium.Prelude.Text.{Bytes}
use swarm_kill_chain_medium.Float.{Float}
use swarm_kill_chain_medium.Dict.{Dict, put, elem}
use swarm_kill_chain_medium.Json.{Json, as_object, Python}
use swarm_kill_chain_medium.Cluster.Text.{append}
use swarm_kill_chain_medium.Cluster.Session.{Event, at, Cluster, is_priority_event}
use swarm_kill_chain_medium.Cluster.Manager.{Manager, observe}
use swarm_kill_chain_medium.Cluster.Saved.{to_state}
use swarm_kill_chain_medium.Monitor.Queue.{State, append_bounded, enqueue_pending, max_seen}
use swarm_kill_chain_medium.Monitor.Alert.{format_alert}

pub record Intake : Type 0 where
  pub queue : State
  pub snapshot : Dict String Json
  pub manager : Manager

-- `append_bounded(seen, digest, MAX_SEEN)`
unfoldable pub mark_seen : State → String → State
unfolding append_bounded
mark_seen s digest = record s { seen = append_bounded s.seen digest max_seen }

-- `json.loads` of the decoded line, with `None` for a line that is no JSON text.
abbrev pub event_of : Option Json → Option Event
event_of none = none
event_of (some value) = as_object value

module _ (python : Python) (sha256 : Bytes → String) (json_of : Bytes → Option Json) where
  abbrev pub queue_alert : State → String → Option Json → State
  queue_alert s digest none = s
  queue_alert s digest (some payload) = enqueue_pending s (append digest ":immediate") payload

  -- The immediate alert of a priority event: the kind is noted in the cluster, which the manager holds,
  -- after the snapshot was taken.
  unfoldable pub alert_now : Bool → String → String → Event → String → Cluster → Intake → Intake
  unfolding is_priority_event enqueue_pending format_alert append
  alert_now enabled timestamp digest event key c i =
      let kind = python.str_of (at event "eventid") in
      let noted : Cluster = record c { alerted_event_kinds = c.alerted_event_kinds ++ kind ∷ [] } in
      if (enabled && is_priority_event event) && not (elem kind c.alerted_event_kinds)
      then record {
        queue = queue_alert i.queue digest (format_alert python event timestamp);
        snapshot = i.snapshot;
        manager = record i.manager { clusters = put i.manager.clusters key noted };
      }
      else i

  -- A line that is an event.
  unfoldable pub absorb : Bool → Float → String → String → Event → Intake → Intake
  unfolding observe alert_now mark_seen to_state
  absorb enabled now timestamp digest event i =
      let (key, c, is_new, manager) = observe python i.manager event now in
      alert_now enabled timestamp digest event key c (record {
        queue = mark_seen i.queue digest;
        snapshot = to_state manager.clusters;
        manager = manager;
      })

  abbrev pub take_line : Bool → Float → String → String → Option Event → Intake → Intake
  take_line enabled now timestamp digest none i = record i { queue = mark_seen i.queue digest }
  take_line enabled now timestamp digest (some event) i =
      absorb enabled now timestamp digest event i

  -- `enabled` is IMMEDIATE_ALERTS_ENABLED; `now` and `timestamp` are the readings of the clock.
  unfoldable pub queue_line : Bool → Float → String → Bytes → Intake → Intake
  unfolding absorb mark_seen
  queue_line enabled now timestamp raw_line i =
      if elem (sha256 raw_line) i.queue.seen
      then i
      else take_line enabled now timestamp (sha256 raw_line) (event_of (json_of raw_line)) i
