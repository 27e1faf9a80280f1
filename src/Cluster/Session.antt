-- ===== src/Cluster/Session.antt =====
-- `SessionCluster` of native/session_cluster.py. Values that the class keeps as the event or the state
-- file gave them are JSON values.
pub mod Laws
use swarm_kill_chain_medium.Prelude.{
  ℕ, ◌+◌, String, Bool, true, false, Option, none, some, List, [], ◌∷◌, ◌++◌, ltb, length, map,
  string_equality, if◌then◌else◌,
}
use swarm_kill_chain_medium.Prelude.Int.{ℤ, pos, ◌+ℤ◌}
use swarm_kill_chain_medium.Float.{Float, finite, ticks}
use swarm_kill_chain_medium.Dict.{Dict, get, elem}
use swarm_kill_chain_medium.Json.{
  Json, null, bool, num, str, arr, truthy, or_else, or_null, or_default, is_text, to_items,
  items_of, Python,
}
use swarm_kill_chain_medium.Cluster.Text.{sanitize_display, is_suspicious_command}

abbrev pub Event : Type 0
Event = Dict String Json

-- `event.get(k)`
abbrev pub at : Event → String → Json
at event k = or_null (get event k)

pub record Cluster : Type 0 where
  pub key : Json
  pub src_ip : Json
  pub session_id : Json
  pub created_at : Float
  pub last_activity_at : Float
  pub first_seen_iso : Json
  pub last_seen_iso : Json
  pub raw_event_count : ℤ
  pub authenticated : Bool
  pub username : Json
  pub password : Json
  pub commands : List Json
  pub suspicious_commands : List Json
  pub files_downloaded : List Json
  pub files_uploaded : List Json
  pub alerted_event_kinds : List String

-- `SessionCluster(key, src_ip, session_id, created_at)`
abbrev pub new_cluster : Json → Json → Json → Float → Cluster
new_cluster key src_ip session_id created_at = record {
  key = key;
  src_ip = src_ip;
  session_id = session_id;
  created_at = created_at;
  last_activity_at = created_at;
  first_seen_iso = null;
  last_seen_iso = null;
  raw_event_count = pos 0;
  authenticated = false;
  username = null;
  password = null;
  commands = [];
  suspicious_commands = [];
  files_downloaded = [];
  files_uploaded = [];
  alerted_event_kinds = [];
}

-- `if len(xs) < limit: xs.append(x)`
unfoldable pub push_below : ℕ → List Json → Json → List Json
push_below limit xs x = if ltb (length xs) limit then xs ++ x ∷ [] else xs

abbrev pub max_command_display_length : ℕ
max_command_display_length = 120

abbrev pub max_notable_commands : ℕ
max_notable_commands = 8

abbrev pub priority_event_ids : List String
priority_event_ids =
    "cowrie.login.success" ∷ "cowrie.session.file_upload" ∷ "cowrie.session.file_download" ∷ []

-- `event.get("eventid") in PRIORITY_EVENT_IDS`
abbrev in_ids : Json → Bool
in_ids (str s) = elem s priority_event_ids
in_ids _ = false

unfoldable pub is_priority_event : Event → Bool
is_priority_event event = in_ids (at event "eventid")

module _ (python : Python) where
  -- The activity and the time stamps of an event.
  unfoldable pub note_activity : Event → Float → Cluster → Cluster
  unfolding truthy ◌+ℤ◌
  note_activity event now c =
      let timestamp = at event "timestamp" in
      let c' : Cluster = record c {
        last_activity_at = now;
        raw_event_count = c.raw_event_count +ℤ pos 1;
      } in
      if truthy timestamp
      then record c' {
        first_seen_iso = elim c'.first_seen_iso [
          | null ↦ str (python.str_of timestamp)
          | seen ↦ seen
        ];
        last_seen_iso = str (python.str_of timestamp);
      }
      else c'

  unfoldable pub note_login : Event → Cluster → Cluster
  note_login event c = record c {
    authenticated = true;
    username = str (sanitize_display python (at event "username") 64);
    password = str (sanitize_display python (at event "password") 64);
  }

  unfoldable pub note_command : Event → ℕ → Cluster → Cluster
  note_command event max_commands c =
      let command = sanitize_display python (at event "input") max_command_display_length in
      if ltb (length c.commands) max_commands
      then record c {
        commands = c.commands ++ str command ∷ [];
        suspicious_commands =
            if is_suspicious_command python command
            then push_below max_notable_commands c.suspicious_commands (str command)
            else c.suspicious_commands;
      }
      else c

  unfoldable pub note_download : Event → ℕ → Cluster → Cluster
  unfolding truthy
  note_download event max_commands c = record c {
    files_downloaded = push_below max_commands c.files_downloaded (
        str (
          sanitize_display python (or_else (at event "url") (at event "filename"))
            max_command_display_length));
  }

  unfoldable pub note_upload : Event → ℕ → Cluster → Cluster
  note_upload event max_commands c = record c {
    files_uploaded =
        push_below max_commands c.files_uploaded
          (str (sanitize_display python (at event "filename") max_command_display_length));
  }

  unfoldable pub record_event : Event → Float → ℕ → Cluster → Cluster
  record_event event now max_commands c =
      let eventid = or_default (get event "eventid") (str "") in
      let c' = note_activity event now c in
      if is_text eventid "cowrie.login.success"
      then note_login event c'
      else if is_text eventid "cowrie.command.input"
      then note_command event max_commands c'
      else if is_text eventid "cowrie.session.file_download"
      then note_download event max_commands c'
      else if is_text eventid "cowrie.session.file_upload"
      then note_upload event max_commands c'
      else c'
