-- ===== src/Cluster/Summary.antt =====
-- The Discord payload of a cluster: `build_session_summary_payload` of native/session_cluster.py and its
-- helpers. `none` is an exception. Durations are whole milliseconds, as the clocks are.
pub mod Laws
pub mod Total
use swarm_kill_chain_medium.Prelude.{
  ℕ, String, Bool, true, false, Option, none, some, List, [], ◌∷◌, map, take, length,
  string_equality, if◌then◌else◌,
}
use swarm_kill_chain_medium.Prelude.Int.{ℤ, pos}
use swarm_kill_chain_medium.Float.{
  Float, finite, inf, minus_inf, nan, ticks, flt, fsub, fmax, second,
}
use swarm_kill_chain_medium.Dict.{Dict, get}
use swarm_kill_chain_medium.Json.{
  Json, null, bool, str, arr, obj, end, truthy, or_else, or_default, is_text, as_object, to_fields,
  fields_of, to_items, Python,
}
use swarm_kill_chain_medium.Cluster.Text.{append, truncate, sanitize_display}
use swarm_kill_chain_medium.Cluster.Session.{at, Cluster, max_notable_commands}
use swarm_kill_chain_medium.Cluster.Format.{
  ◌>>=◌, join, lines, format_greynoise, format_virustotal, format_shodan,
}
use swarm_kill_chain_medium.Cluster.Saved.{Read, got, unreadable, overflow, number, whole, list_of}

abbrev pub max_field_value_length : ℕ
max_field_value_length = 1000

unfoldable pub truncate_field : String → String
unfolding truncate
truncate_field text = truncate max_field_value_length text

unfoldable pub duration_seconds : Cluster → Float
unfolding fmax fsub
duration_seconds c = fmax (ticks 0) (fsub c.last_activity_at c.created_at)

pub record Field : Type 0 where
  pub name : String
  pub value : String
  pub inline : Bool

pub record Summary : Type 0 where
  pub description : String
  pub color : ℕ
  pub fields : List Field

abbrev field_json : Field → Json
field_json f =
    obj (to_fields (("name", str f.name) ∷ ("value", str f.value) ∷ ("inline", bool f.inline) ∷ []))

unfoldable pub payload_of : Summary → Json
unfolding to_fields to_items number
payload_of s = obj (
    to_fields (
      (
        "embeds",
        arr (
            to_items (
              obj (
                to_fields (
                  ("title", str "🚨 ATTACK SESSION SUMMARY")
                  ∷ ("description", str s.description)
                  ∷ ("color", number (pos s.color))
                  ∷ ("fields", arr (to_items (map field_json s.fields)))
                  ∷ ("footer", obj (to_fields (("text", str "PatriotPot H2 session summary") ∷ [])))
                  ∷ []))
              ∷ [])),
      )
      ∷ []))

module _ (python : Python) where
  -- `int` of an infinity or of not-a-number raises.
  unfoldable pub format_seconds : Float → Option String
  unfolding whole append
  format_seconds (finite z) = some (append (python.str_of_int (whole z)) "s")
  format_seconds _ = none

  -- `f"{seconds * 1000:.2f}ms"`
  unfoldable pub format_milliseconds : Float → String
  unfolding append
  format_milliseconds (finite z) = append (python.str_of_int z) ".00ms"
  format_milliseconds inf = "infms"
  format_milliseconds minus_inf = "-infms"
  format_milliseconds nan = "nanms"

  unfoldable pub format_duration : Float → Option String
  unfolding flt format_seconds format_milliseconds
  format_duration seconds =
      if flt seconds (ticks second)
      then some (format_milliseconds seconds)
      else format_seconds seconds

  abbrev shown : Json → String
  shown value = python.str_of (or_else value (str "unknown"))

  unfoldable pub auth_lines : Cluster → List String
  unfolding append truthy
  auth_lines c =
      if c.authenticated
      then "Successful login"
        ∷ append "Username: " (shown c.username)
        ∷ append "Password: " (shown c.password)
        ∷ []
      else "No successful login observed" ∷ []

  abbrev count_of : List Json → String
  count_of xs = python.str_of_int (pos (length xs))

  unfoldable pub activity_lines : Cluster → List String
  unfolding append
  activity_lines c =
      append "Commands: " (count_of c.commands)
      ∷ append "Suspicious Commands: " (count_of c.suspicious_commands)
      ∷ append "Files Downloaded: " (count_of c.files_downloaded)
      ∷ append "Files Uploaded: " (count_of c.files_uploaded)
      ∷ []

  abbrev or_none_observed : List Json → List Json
  or_none_observed [] = str "none observed" ∷ []
  or_none_observed (x ∷ xs) = x ∷ xs

  unfoldable pub notable_lines : Cluster → List String
  unfolding append
  notable_lines c =
      map (λ command. append "`" (append (python.str_of command) "`"))
        (or_none_observed (take max_notable_commands c.suspicious_commands))

  unfoldable pub description_of : Cluster → String → String
  unfolding append join sanitize_display truthy
  description_of c duration = lines (
      append "IP: `" (append (sanitize_display python c.src_ip 64) "`")
      ∷ append "Session: `"
          (append (sanitize_display python (or_else c.session_id (str "n/a")) 64) "`")
      ∷ append "Duration: " duration
      ∷ append "Raw Events: " (python.str_of_int c.raw_event_count)
      ∷ append "First Seen: " (shown c.first_seen_iso)
      ∷ append "Last Seen: " (shown c.last_seen_iso)
      ∷ [])

  abbrev text_field : String → Bool → String → Field
  text_field name inline text = record { name = name; value = truncate_field text; inline = inline }

  -- The summary of the formatted parts.
  unfoldable pub summary_with : Cluster → String → String → String → String → Summary
  summary_with c greynoise virustotal shodan duration = record {
    description = truncate_field (description_of c duration);
    color = if c.authenticated then 0xFF0000 else 0xFF6600;
    fields = take 25 (
        text_field "Authentication" false (lines (auth_lines c))
        ∷ text_field "Activity" false (lines (activity_lines c))
        ∷ text_field "Notable Commands" false (lines (notable_lines c))
        ∷ text_field "GreyNoise" true greynoise
        ∷ text_field "VirusTotal" true virustotal
        ∷ text_field "Shodan" true shodan
        ∷ []);
  }

  -- The first part that raises ends the function.
  abbrev pub combined :
      Cluster → Option String → Option String → Option String → Option String → Option Summary
  combined c greynoise virustotal shodan duration = do
    greynoise_text ← greynoise
    virustotal_text ← virustotal
    shodan_text ← shodan
    duration_text ← duration
    some (summary_with c greynoise_text virustotal_text shodan_text duration_text)

  -- The providers' fields are formatted first, then the duration.
  unfoldable pub summary_of : Cluster → Dict String Json → Option Summary
  summary_of c enrichment =
      combined c (format_greynoise python (at enrichment "greynoise"))
        (format_virustotal python (at enrichment "virustotal"))
        (format_shodan python (at enrichment "shodan")) (format_duration (duration_seconds c))

  -- A missing enrichment is an empty one.
  abbrev or_empty : Option (Dict String Json) → Dict String Json
  or_empty none = []
  or_empty (some enrichment) = enrichment

  unfoldable pub build_session_summary_payload : Cluster → Option (Dict String Json) → Option Json
  build_session_summary_payload c enrichment =
      summary_of c (or_empty enrichment) >>= λ s. some (payload_of s)
