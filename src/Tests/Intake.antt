-- ===== src/Tests/Intake.antt =====
-- One line of the log with an alert, and the same line again.
use swarm_kill_chain_medium.Prelude.{
  ◌≡◌, refl, String, true, false, Option, none, some, [], ◌∷◌, ◌++◌, string_equality,
}
use swarm_kill_chain_medium.Prelude.Text.{Bytes}
use swarm_kill_chain_medium.Float.{ticks}
use swarm_kill_chain_medium.Dict.{get, elem}
use swarm_kill_chain_medium.Json.{Json, str, obj, to_fields, Python}
use swarm_kill_chain_medium.Cluster.Text.{len}
use swarm_kill_chain_medium.Cluster.Session.{
  Event, is_priority_event, record_event, note_login, note_activity,
}
use swarm_kill_chain_medium.Cluster.Manager.{new_manager, observe, continued}
use swarm_kill_chain_medium.Cluster.Saved.{to_dict}
use swarm_kill_chain_medium.Monitor.Intake.{Intake, absorb, queue_line}
use swarm_kill_chain_medium.Monitor.Intake.Laws.{queue_line_once, alert_not_in_snapshot}

selector_kept : len "⚠\u{fe0f}" ≡ 2
unfolding len
selector_kept = refl

abbrev text_of : Json → String
text_of (str s) = s
text_of _ = "None"

abbrev python : Python
python = record {
  str_of = text_of;
  lower = λ s. s;
  float_of_text = λ s. none;
  int_of_text = λ s. none;
  str_of_int = λ n. "0";
  str_of_float = λ x. "0.0";
  strip = λ s. s;
  sorted = some;
  distinct = some;
}

abbrev event : Event
event = ("eventid", str "cowrie.login.success") ∷ ("src_ip", str "192.0.2.1") ∷ []

abbrev sha256 : Bytes → String
sha256 line = "5f70bf18"

abbrev json_of : Bytes → Option Json
json_of line = some (obj (to_fields event))

abbrev intake : Intake
intake = record {
  queue = record { pending = []; seen = []; dead_letters = [] };
  snapshot = [];
  manager = new_manager 45000 1800000;
}

queue_line_once_example :
    (elem "5f70bf18"
        (queue_line python sha256 json_of true (ticks 1000) "t1" (1 ∷ []) intake).queue.seen
      ≡ true)
    × (queue_line python sha256 json_of true
          (ticks 9000)
          "t2"
          (1 ∷ [])
          (queue_line python sha256 json_of true (ticks 1000) "t1" (1 ∷ []) intake)
        ≡ queue_line python sha256 json_of true (ticks 1000) "t1" (1 ∷ []) intake)
queue_line_once_example =
    queue_line_once python sha256 json_of true (ticks 1000) (ticks 9000) "t1" "t2" (1 ∷ []) intake

priority : is_priority_event event ≡ true
unfolding is_priority_event get
priority = refl

fresh :
    elem "cowrie.login.success"
      (observe python intake.manager event (ticks 1000)).1.alerted_event_kinds
    ≡ false
unfolding observe record_event get note_login note_activity continued
fresh = refl

alert_not_in_snapshot_example :
    (get
        (absorb python sha256 json_of true (ticks 1000) "t1" "5f70bf18" event intake).snapshot
        (observe python intake.manager event (ticks 1000)).0
      ≡ some (to_dict (observe python intake.manager event (ticks 1000)).1))
    × (get
          (absorb python sha256 json_of true
            (ticks 1000)
            "t1"
            "5f70bf18"
            event
            intake).manager.clusters
          (observe python intake.manager event (ticks 1000)).0
        ≡ some (record (observe python intake.manager event (ticks 1000)).1 {
          alerted_event_kinds =
              (observe python intake.manager event (ticks 1000)).1.alerted_event_kinds
              ++ "cowrie.login.success" ∷ [];
        }))
unfolding get
alert_not_in_snapshot_example =
    alert_not_in_snapshot python sha256 json_of (ticks 1000) "t1" "5f70bf18" event intake priority
      fresh
