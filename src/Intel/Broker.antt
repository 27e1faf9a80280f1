-- ===== src/Intel/Broker.antt =====
-- `ThreatIntelBroker._lookup_one` of native/threat_intel/broker.py, for one provider: its cache, its
-- governor and one call of its module. The clocks are read by the calls that take the time. Lookups run on
-- several threads, and each method of the cache and of the governor is one step under its lock: a lookup
-- takes what each of its steps finds there, and gives what the step leaves.
pub mod Laws
pub mod Enrich
use swarm_kill_chain_medium.Prelude.{
  ℕ, ◌+◌, ◌*◌, String, Bool, true, false, not, ◌&&◌, Option, none, some, List, [], ◌∷◌,
  if◌then◌else◌, string_equality,
}
use swarm_kill_chain_medium.Prelude.Text.{Bytes}
use swarm_kill_chain_medium.Float.{Float, ticks}
use swarm_kill_chain_medium.Dict.{Dict, put}
use swarm_kill_chain_medium.Json.{Json, null, bool, num, str, obj, to_fields}
use swarm_kill_chain_medium.Intel.Http.{
  Status, status_ok, status_not_found, status_unauthorized, status_rate_limited, status_error,
  status_timeout, status_malformed, status_missing_credential, status_invalid_observable,
  status_unavailable,
}
use swarm_kill_chain_medium.Intel.Cache.{Entry, Cache, cache_key, lookup, set}
use swarm_kill_chain_medium.Governor.Provider.{
  Governor, can_call, note_call_attempt, note_success, note_rate_limited,
}

unfoldable pub status_text : Status → String
status_text status_ok = "ok"
status_text status_not_found = "not_found"
status_text status_unauthorized = "unauthorized"
status_text status_rate_limited = "rate_limited"
status_text status_error = "error"
status_text status_timeout = "timeout"
status_text status_malformed = "malformed"
status_text status_missing_credential = "missing_credential"
status_text status_invalid_observable = "invalid_observable"
status_text status_unavailable = "unavailable"

-- `ProviderResponse`
pub record Response : Type 0 where
  pub status : Status
  pub http_status : Option ℕ
  pub normalized : Dict String Json
  pub raw_body : Option Bytes
  pub retry_after_seconds : Option Float

abbrev pub bare : Status → Response
bare status = record {
  status = status;
  http_status = none;
  normalized = [];
  raw_body = none;
  retry_after_seconds = none;
}

-- What `module.lookup_ip` does.
pub data Reply : Type 0 where
  returned : Response → Reply
  raises : Reply

-- The readings of the clocks, and the time stamp of the envelope.
pub record Readings : Type 0 where
  pub looked_at : ℕ
  pub checked_at : ℕ
  pub attempted_at : ℕ
  pub refused_at : ℕ
  pub queried_at : String
  pub stored_at : ℕ

pub record Provider : Type 0 where
  pub name : String
  pub api_version : String
  pub ttl_seconds : ℕ

-- What the steps of a lookup find: `_cache.get`, `can_call`, `note_call_attempt`, the note of the reply, and
-- `_cache.set`. Other threads can have changed the cache or the governor between any two of them.
pub record Shared : Type 0 where
  pub looked_in : Cache
  pub checked : Governor
  pub attempted : Governor
  pub replied : Governor
  pub stored_in : Cache

-- What the steps that were taken leave; `none` for the envelope is an exception.
pub record Looked : Type 0 where
  pub envelope : Option (Dict String Json)
  pub attempted : Option Governor
  pub replied : Option Governor
  pub cache : Option Cache
  pub called : Bool

abbrev number : ℕ → Json
number n = num (ticks (n * 1000))

abbrev or_none : Option ℕ → Json
or_none none = null
or_none (some n) = number n

-- A status that is cached, with its time to live in milliseconds.
abbrev pub ttl_of : ℕ → Status → Option ℕ
ttl_of ttl status_ok = some ttl
ttl_of ttl status_not_found = some ttl
ttl_of ttl status_rate_limited = some 300000
ttl_of ttl status_error = some 300000
ttl_of ttl status_malformed = some 300000
ttl_of ttl status_timeout = some 300000
ttl_of ttl status_unauthorized = some 300000
ttl_of ttl _ = none

abbrev pub has_key : Option String → Bool
has_key none = false
has_key (some api_key) = not (string_equality.equal api_key "")

abbrev pub is_refusal : Status → Bool
is_refusal status_rate_limited = true
is_refusal _ = false

abbrev pub response_of : Reply → Response
response_of (returned r) = r
response_of raises = bare status_unavailable

-- A hit without the time of expiry, which the envelope of an entry does not have.
unfoldable pub hit : Entry → Dict String Json
hit entry = put entry.content "cache_hit" (bool true)

-- `_cache.set` for a status that is cached.
unfoldable pub stored : Option ℕ → Cache → String → Dict String Json → ℕ → Option Cache
unfolding set
stored none cache key envelope now = none
stored (some ttl) cache key envelope now =
    some (set cache key (record { content = envelope; expires_at_epoch = none }) (ticks ttl) now)

module _ (sha256 : Bytes → String) where
  abbrev body_hash : Option Bytes → Json
  body_hash none = null
  body_hash (some []) = null
  body_hash (some (b ∷ body)) = str (sha256 (b ∷ body))

  unfoldable pub envelope_of : String → Provider → String → String → Response → Dict String Json
  unfolding status_text
  envelope_of api_version provider observable queried_at r =
      ("provider", str provider.name)
      ∷ ("api_version", str api_version)
      ∷ ("observable_type", str "ip")
      ∷ ("observable", str observable)
      ∷ ("queried_at", str queried_at)
      ∷ ("status", str (status_text r.status))
      ∷ ("cache_hit", bool false)
      ∷ ("http_status", or_none r.http_status)
      ∷ ("response_sha256", body_hash r.raw_body)
      ∷ ("normalized", obj (to_fields r.normalized))
      ∷ []

  module _ (provider : Provider) (observable : String) (readings : Readings) (shared : Shared) where
    -- The governor after the reply, and whether its method returned.
    unfoldable pub governed : Response → Governor × Bool
    governed r =
        if is_refusal r.status
        then note_rate_limited shared.replied readings.refused_at r.retry_after_seconds
        else (note_success shared.replied, true)

    unfoldable pub after_call : Response → Looked
    unfolding governed envelope_of stored
    after_call r =
        let (governor, went_on) = governed r in
        let envelope = envelope_of provider.api_version provider observable readings.queried_at r in
        record {
          envelope = if went_on then some envelope else none;
          attempted = some (note_call_attempt shared.attempted readings.attempted_at);
          replied = some governor;
          cache =
              if went_on
              then stored (ttl_of provider.ttl_seconds r.status) shared.stored_in
                  (cache_key provider.name "ip" observable) envelope readings.stored_at
              else none;
          called = true;
        }

    -- Without a network call.
    abbrev pub uncalled : Dict String Json → Looked
    uncalled envelope = record {
      envelope = some envelope;
      attempted = none;
      replied = none;
      cache = none;
      called = false;
    }

    unfoldable pub lookup_missed : Option String → Reply → Looked
    unfolding after_call can_call
    lookup_missed api_key reply =
        if has_key api_key
        then if can_call shared.checked readings.checked_at
          then after_call (response_of reply)
          else uncalled (
              envelope_of "unknown" provider observable readings.queried_at
                (bare status_rate_limited))
        else uncalled (
            envelope_of "unknown" provider observable readings.queried_at
              (bare status_missing_credential))

    abbrev pub on_lookup : Option Entry → Option String → Reply → Looked
    on_lookup none api_key reply = lookup_missed api_key reply
    on_lookup (some entry) api_key reply = uncalled (hit entry)

    unfoldable pub lookup_one : Option String → Reply → Looked
    unfolding lookup_missed hit
    lookup_one api_key reply =
        on_lookup
          (lookup shared.looked_in (cache_key provider.name "ip" observable) readings.looked_at)
          api_key reply
