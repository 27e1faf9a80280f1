-- ===== src/Intel/Http.antt =====
-- native/threat_intel/http_client.py and provider_result.py: one GET, classified. What the network does
-- is an argument, and the decoding of a body as JSON is a parameter.
pub mod Laws
use swarm_kill_chain_medium.Prelude.{
  ℕ, String, Bool, true, false, ◌||◌, Option, none, some, List, [], ◌∷◌, ◌==◌, if◌then◌else◌,
  string_equality,
}
use swarm_kill_chain_medium.Prelude.Text.{Bytes}
use swarm_kill_chain_medium.Float.{Float, ticks, second}
use swarm_kill_chain_medium.Dict.{get}
use swarm_kill_chain_medium.Json.{Json, null, bool, num, obj, fields_of, or_null, Python}

pub data Status : Type 0 where
  status_ok status_not_found status_unauthorized status_rate_limited status_error status_timeout
        status_malformed status_missing_credential status_invalid_observable status_unavailable :
      Status

-- What `urlopen` does: it answers, raises `HTTPError` with a status, a body and the header
-- `Retry-After`, or raises for another failure of the network.
pub data Opened : Type 0 where
  answered : ℕ → Bytes → Opened
  http_error : ℕ → Bytes → Option String → Opened
  unreachable : Opened

pub record Fetched : Type 0 where
  pub status : Status
  pub http_status : Option ℕ
  pub parsed : Json
  pub raw_body : Option Bytes
  pub retry_after : Option Float

-- `float(value)` of an `int`, a `float` or a `bool`; other types are passed over.
abbrev pub number_of : Json → Option Float
number_of (num x) = some x
number_of (bool true) = some (ticks second)
number_of (bool false) = some (ticks 0)
number_of _ = none

abbrev pub is_null : Json → Bool
is_null null = true
is_null _ = false

module _ (python : Python) (json_of : Bytes → Option Json) where
  -- `None` is `null`, which a body can hold too.
  unfoldable pub try_json : Bytes → Json
  try_json [] = null
  try_json (b ∷ body) = or_null (json_of (b ∷ body))

  abbrev pub body_retry_after : Json → Option Float
  body_retry_after (obj fields) = number_of (or_null (get (fields_of fields) "retry_after"))
  body_retry_after _ = none

  abbrev pub or_body : Option Float → Bytes → Option Float
  or_body (some x) body = some x
  or_body none body = body_retry_after (try_json body)

  unfoldable pub retry_after_of : Option String → Bytes → Option Float
  unfolding try_json
  retry_after_of none body = or_body none body
  retry_after_of (some header) body = or_body (python.float_of_text header) body

  abbrev pub fetched : Status → ℕ → Json → Bytes → Option Float → Fetched
  fetched status code parsed body retry = record {
    status = status;
    http_status = some code;
    parsed = parsed;
    raw_body = some body;
    retry_after = retry;
  }

  unfoldable pub get_json : Opened → Fetched
  unfolding try_json retry_after_of
  get_json (answered code body) =
      if is_null (try_json body)
      then fetched status_malformed code null body none
      else fetched status_ok code (try_json body) body none
  get_json (http_error code body header) =
      if code == 404
      then fetched status_not_found code (try_json body) body none
      else if (code == 401) || (code == 403)
      then fetched status_unauthorized code null body none
      else if code == 429
      then fetched status_rate_limited code null body (retry_after_of header body)
      else fetched status_error code null body none
  get_json unreachable = record {
    status = status_timeout;
    http_status = none;
    parsed = null;
    raw_body = none;
    retry_after = none;
  }
