-- ===== src/Monitor/Post.antt =====
-- One post to a webhook (`post_payload`, `_parse_retry_after`), the credential of a channel
-- (`CredentialCache`), and the two payloads of the service itself, of native/discord-monitor.py.
pub mod Laws
use Prim.Native.Char.{code}
use swarm_kill_chain_medium.Prelude.{
  ℕ, zero, suc, ◌+◌, ◌*◌, String, Bool, true, false, not, ◌&&◌, ◌||◌, Option, none, some, List, [],
  ◌∷◌, ltb, leb, ◌==◌, string_equality, if◌then◌else◌,
}
use swarm_kill_chain_medium.Prelude.Int.{pos}
use swarm_kill_chain_medium.Prelude.Text.{Bytes}
use swarm_kill_chain_medium.Float.{Float}
use swarm_kill_chain_medium.Dict.{Dict, get, put}
use swarm_kill_chain_medium.Json.{
  Json, null, str, arr, obj, fields_of, to_fields, to_items, or_null, Python,
}
use swarm_kill_chain_medium.Cluster.Text.{append}
use swarm_kill_chain_medium.Cluster.Saved.{number}
use swarm_kill_chain_medium.Intel.Http.{number_of}
use swarm_kill_chain_medium.Intel.Parameters.{Ran, not_run, exited, stripped}
use swarm_kill_chain_medium.Monitor.Drain.{Posted}

-- `allowed_mentions` that mention nobody.
abbrev pub no_mentions : Json
no_mentions = obj (to_fields (("parse", arr (to_items [])) ∷ []))

-- The payload that is sent.
unfoldable pub outbound : Dict String Json → Dict String Json
unfolding to_fields to_items
outbound payload = put payload "allowed_mentions" no_mentions

-- What `urlopen` does: it answers with a status, raises `HTTPError` with a code, a body (`none` when
-- reading it raises) and the header `Retry-After`, or raises for another failure of the network.
pub data Sent : Type 0 where
  answered : ℕ → Sent
  refused : ℕ → Option Bytes → Option String → Sent
  unreachable : Sent

module _ (python : Python) (json_of : Bytes → Option Json) where
  abbrev retry_header : Option String → Option Float
  retry_header none = none
  retry_header (some header) = python.float_of_text header

  abbrev body_value : Option Json → Option Float
  body_value (some (obj fields)) = number_of (or_null (get (fields_of fields) "retry_after"))
  body_value _ = none

  abbrev body_retry : Option Bytes → Option Float
  body_retry none = none
  body_retry (some []) = none
  body_retry (some (b ∷ body)) = body_value (json_of (b ∷ body))

  abbrev or_header : Option Float → Option String → Option Float
  or_header (some seconds) header = some seconds
  or_header none header = retry_header header

  -- The number in the body goes before the header.
  unfoldable pub parse_retry_after : Option Bytes → Option String → Option Float
  parse_retry_after body header = or_header (body_retry body) header

  unfoldable pub post_payload : Sent → Posted
  unfolding parse_retry_after
  post_payload (answered status) = record {
    success = leb 200 status && ltb status 300;
    status_code = some status;
    retry_after = none;
  }
  post_payload (refused code body header) = record {
    success = false;
    status_code = some code;
    retry_after = parse_retry_after body header;
  }
  post_payload unreachable = record { success = false; status_code = none; retry_after = none }

-- The rest of a text behind a prefix.
unfoldable pub behind : String → String → Option String
behind String.[] s = some s
behind (String.◌∷◌ c p) String.[] = none
behind (String.◌∷◌ c p) (String.◌∷◌ d s) = if code c == code d then behind p s else none

abbrev is_digit : ℕ → Bool
is_digit c = leb b'0' c && leb c b'9'

abbrev is_letter : ℕ → Bool
is_letter c = (leb b'a' c && leb c b'z') || (leb b'A' c && leb c b'Z')

-- `[A-Za-z0-9._-]`
abbrev is_token : ℕ → Bool
is_token c = is_letter c || is_digit c || (c == b'.') || (c == b'_') || (c == b'-')

-- `[A-Za-z0-9._-]*` up to the end, and with one at least.
unfoldable pub all_token : String → Bool
all_token String.[] = true
all_token (String.◌∷◌ c s) = is_token (code c) && all_token s

abbrev some_token : String → Bool
some_token String.[] = false
some_token s = all_token s

-- `[0-9]+/` and the token; `seen` tells whether there was a digit.
unfoldable pub webhook_path : Bool → String → Bool
unfolding all_token
webhook_path seen String.[] = false
webhook_path seen (String.◌∷◌ c s) =
    let more = webhook_path true s in
    if is_digit (code c) then more else if code c == b'/' then seen && some_token s else false

abbrev path_of : Option String → Bool
path_of none = false
path_of (some s) = webhook_path false s

-- `WEBHOOK_RE.fullmatch`
unfoldable pub is_webhook : String → Bool
unfolding behind webhook_path
is_webhook s =
    path_of (behind "https://discord.com/api/webhooks/" s)
    || path_of (behind "https://discordapp.com/api/webhooks/" s)

-- The state of a `CredentialCache`, in milliseconds.
pub record Credential : Type 0 where
  pub parameter_name : String
  pub value : Option String
  pub next_refresh : ℕ

abbrev pub new_credential : String → Credential
new_credential parameter_name = record {
  parameter_name = parameter_name;
  value = none;
  next_refresh = 0;
}

-- The value, the cache after the call, and whether it returned: `subprocess.run` can raise here.
pub record Fetched : Type 0 where
  pub value : Option String
  pub cache : Credential
  pub returned : Bool

module _ (python : Python) where
  abbrev checked : String → Option String
  checked candidate =
      if not (string_equality.equal candidate "") && is_webhook candidate
      then some candidate
      else none

  abbrev pub refreshed : Ran → Credential → Fetched
  refreshed not_run c = record { value = none; cache = c; returned = false }
  refreshed (exited status stdout) c =
      let value = checked (stripped python (exited status stdout)) in
      record { value = value; cache = record c { value = value }; returned = true }

  unfoldable pub get_credential : Bool → ℕ → Ran → Credential → Fetched
  unfolding is_webhook
  get_credential force now ran c =
      if not force && ltb now c.next_refresh
      then record { value = c.value; cache = c; returned = true }
      else refreshed ran (record c { next_refresh = now + 300000 })

  abbrev embed : String → String → ℕ → String → String → Json
  embed title description color timestamp footer = obj (
      to_fields (
        (
          "embeds",
          arr (
              to_items (
                obj (
                  to_fields (
                    ("title", str title)
                    ∷ ("description", str description)
                    ∷ ("color", number (pos color))
                    ∷ ("timestamp", str timestamp)
                    ∷ ("footer", obj (to_fields (("text", str footer) ∷ [])))
                    ∷ []))
                ∷ [])),
        )
        ∷ []))

  unfoldable pub monitor_started_payload : String → Json
  unfolding to_fields to_items number
  monitor_started_payload timestamp =
      embed "🟢 Monitor Started" "Discord alerts are now active!" 0x00FF00 timestamp
        "Cowrie Honeypot Alert"

  unfoldable pub recovery_digest_payload : ℕ → String → Json
  unfolding to_fields to_items number append
  recovery_digest_payload suppressed_count timestamp =
      embed "✅ Discord delivery recovered"
        (append "~" (
          append (python.str_of_int (pos suppressed_count))
            " items were held back on this channel during a Discord rate-limit window and were not individually replayed. Raw Cowrie telemetry and the S3 archive were not affected."))
        0x00FF00 timestamp "PatriotPot rate governor"
