-- ===== src/Monitor/Alert.antt =====
-- `safe_value` and `format_alert` of native/discord-monitor.py: the message for a single event.
use Prim.Native.Char.{code}
use swarm_kill_chain_medium.Prelude.{
  ℕ, ◌*◌, ◌==◌, String, Option, none, some, List, [], ◌∷◌, any_of, string_equality, if◌then◌else◌,
}
use swarm_kill_chain_medium.Float.{ticks}
use swarm_kill_chain_medium.Json.{Json, null, num, str, arr, obj, to_items, to_fields, Python}
use swarm_kill_chain_medium.Cluster.Text.{append, prefix, contains, interesting_commands}
use swarm_kill_chain_medium.Cluster.Session.{Event, at}

-- `text.replace("\x00", "")`
unfoldable pub strip_nul : String → String
strip_nul String.[] = String.[]
strip_nul (String.◌∷◌ c s) = if code c == 0 then strip_nul s else String.◌∷◌ c (strip_nul s)

abbrev or_default_text : String → String → String
or_default_text text default = if string_equality.equal text "" then default else prefix 1024 text

-- The parts of a text, one after the other.
unfoldable pub concat : List String → String
unfolding append
concat [] = ""
concat (s ∷ rest) = append s (concat rest)

pub record Alert : Type 0 where
  pub title : String
  pub description : String
  pub color : ℕ

module _ (python : Python) where
  unfoldable pub safe_value : Json → String → String
  unfolding strip_nul prefix
  safe_value null default = default
  safe_value value default = or_default_text (strip_nul (python.str_of value)) default

  unfoldable pub login_alert : Event → String → Alert
  unfolding safe_value concat
  login_alert event source_ip = record {
    title = "🚨 SUCCESSFUL LOGIN!";
    description = concat (
        "**Attacker logged in!**\n\nIP: `"
        ∷ source_ip
        ∷ "`\nUser: `"
        ∷ safe_value (at event "username") "unknown"
        ∷ "`\nPass: `"
        ∷ safe_value (at event "password") "unknown"
        ∷ "`"
        ∷ []);
    color = 0xff0000;
  }

  unfoldable pub command_alert : Event → String → Alert
  unfolding safe_value concat contains
  command_alert event source_ip =
      let command = safe_value (at event "input") "unknown" in
      if any_of (λ candidate. contains (python.lower command) candidate) interesting_commands
      then record {
        title = "⚠\u{fe0f} SUSPICIOUS COMMAND!";
        description = concat ("**Command:** `" ∷ command ∷ "`\n**IP:** `" ∷ source_ip ∷ "`" ∷ []);
        color = 0xff6600;
      }
      else record {
        title = "💻 Command Executed";
        description = concat ("Command: `" ∷ command ∷ "`\nIP: `" ∷ source_ip ∷ "`" ∷ []);
        color = 0x0099ff;
      }

  unfoldable pub upload_alert : Event → String → Alert
  unfolding safe_value concat
  upload_alert event source_ip = record {
    title = "📤 FILE UPLOAD!";
    description = concat (
        "**File:** `"
        ∷ safe_value (at event "filename") "unknown"
        ∷ "`\n**IP:** `"
        ∷ source_ip
        ∷ "`"
        ∷ []);
    color = 0xff3300;
  }

  unfoldable pub download_alert : Event → String → Alert
  unfolding safe_value concat
  download_alert event source_ip = record {
    title = "📥 File Download";
    description = concat (
        "File: `" ∷ safe_value (at event "filename") "unknown" ∷ "`\nIP: `" ∷ source_ip ∷ "`" ∷ []);
    color = 0xff9900;
  }

  -- `none` is the exception for an event of another class.
  unfoldable pub alert_for : Event → Option Alert
  unfolding safe_value contains login_alert command_alert upload_alert download_alert
  alert_for event =
      let eventid = safe_value (at event "eventid") "unknown" in
      let source_ip = safe_value (at event "src_ip") "unknown" in
      if string_equality.equal eventid "cowrie.login.success"
      then some (login_alert event source_ip)
      else if string_equality.equal eventid "cowrie.command.input"
      then some (command_alert event source_ip)
      else if contains eventid "file_upload"
      then some (upload_alert event source_ip)
      else if contains eventid "file_download"
      then some (download_alert event source_ip)
      else none

  abbrev embed : String → Alert → Json
  embed timestamp a = obj (
      to_fields (
        ("title", str a.title)
        ∷ ("description", str a.description)
        ∷ ("color", num (ticks (a.color * 1000)))
        ∷ ("timestamp", str timestamp)
        ∷ ("footer", obj (to_fields (("text", str "Cowrie Honeypot Alert") ∷ [])))
        ∷ []))

  abbrev payload_of : String → Option Alert → Option Json
  payload_of timestamp none = none
  payload_of timestamp (some a) =
      some (obj (to_fields (("embeds", arr (to_items (embed timestamp a ∷ []))) ∷ [])))

  unfoldable pub format_alert : Event → String → Option Json
  unfolding alert_for
  format_alert event timestamp = payload_of timestamp (alert_for event)
