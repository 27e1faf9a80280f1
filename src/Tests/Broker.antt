-- ===== src/Tests/Broker.antt =====
-- Lookups of one provider, and the classification of a GET.
use swarm_kill_chain_medium.Prelude.{
  ℕ, ◌≡◌, refl, String, true, false, Option, none, some, [], ◌∷◌, arith, string_equality,
}
use swarm_kill_chain_medium.Prelude.Text.{Bytes}
use swarm_kill_chain_medium.Float.{ticks}
use swarm_kill_chain_medium.Dict.{Dict, get, put}
use swarm_kill_chain_medium.Json.{Json, bool, str, Python}
use swarm_kill_chain_medium.Intel.Http.{status_ok, status_rate_limited}
use swarm_kill_chain_medium.Intel.Cache.{Cache, cache_key, lookup, set}
use swarm_kill_chain_medium.Governor.Provider.{Governor, new_governor, note_rate_limited}
use swarm_kill_chain_medium.Intel.Broker.{
  Response, returned, raises, Readings, Shared, Provider, envelope_of, lookup_one,
}
use swarm_kill_chain_medium.Intel.Broker.Laws.{refusal_holds, lookup_one_reused}

-- A hash and a decoder that are constant.
abbrev sha256 : Bytes → String
sha256 body = "5f70bf18"

abbrev json_of : Bytes → Option Json
json_of body = some (str "body")

abbrev python : Python
python = record {
  str_of = λ x. "";
  lower = λ s. s;
  float_of_text = λ s. some (ticks 7000);
  int_of_text = λ s. none;
  str_of_int = λ n. "0";
  str_of_float = λ x. "0.0";
  strip = λ s. s;
  sorted = some;
  distinct = some;
}

abbrev provider : Provider
provider = record { name = "shodan"; api_version = "v1"; ttl_seconds = 64800000 }

abbrev readings : ℕ → Readings
readings t = record {
  looked_at = t;
  checked_at = t;
  attempted_at = t;
  refused_at = t;
  queried_at = "2026-09-23T00:00:00Z";
  stored_at = t;
}

abbrev cache : Cache
cache = record { max_entries = 2; entries = [] }

abbrev success : Response
success = record {
  status = status_ok;
  http_status = some 200;
  normalized = [];
  raw_body = some (1 ∷ []);
  retry_after_seconds = none;
}

abbrev refusal : Response
refusal = record success { status = status_rate_limited; retry_after_seconds = some (ticks 7000) }

abbrev looked : String
looked = "203.0.113.9"

-- The two caches and the governors that the steps of a lookup find.
abbrev shared : Shared
shared = record {
  looked_in = cache;
  checked = new_governor;
  attempted = new_governor;
  replied = new_governor;
  stored_in = cache;
}

first_called :
    (lookup_one sha256 provider looked (readings 5000) shared (some "k") (returned refusal)).called
    ≡ true
unfolding lookup_one lookup get note_rate_limited
first_called = refl

abbrev closed : Governor
closed = (note_rate_limited new_governor 5000 (some (ticks 7000))).0

leaves_closed :
    (lookup_one sha256 provider looked (readings 5000) shared (some "k") (returned refusal)).replied
    ≡ some closed
unfolding lookup_one lookup get note_rate_limited
leaves_closed = refl

-- Another thread has called in between.
abbrev later_shared : Shared
later_shared = record shared { checked = record closed { next_allowed_at = ticks 8000 } }

refusal_holds_example :
    (lookup_one sha256 provider "203.0.113.10"
      (readings 9000)
      later_shared
      (some "k")
      raises).called
    ≡ false
refusal_holds_example =
    refusal_holds sha256 provider looked "203.0.113.10" (readings 5000) (readings 9000) shared
      later_shared (some "k") (some "k") refusal raises closed 7000 first_called refl refl
      leaves_closed refl (omega arith)

abbrev envelope : Dict String Json
envelope = envelope_of sha256 "v1" provider looked "2026-09-23T00:00:00Z" success

success_called :
    (lookup_one sha256 provider looked (readings 5000) shared (some "k") (returned success)).called
    ≡ true
unfolding lookup_one lookup get
success_called = refl

success_envelope :
    (lookup_one sha256 provider looked
      (readings 5000)
      shared
      (some "k")
      (returned success)).envelope
    ≡ some envelope
unfolding lookup_one lookup get
success_envelope = refl

abbrev filled : Cache
filled =
    set cache (cache_key "shodan" "ip" looked)
      (record { content = envelope; expires_at_epoch = none }) (ticks 64800000) 5000

success_stored :
    (lookup_one sha256 provider looked (readings 5000) shared (some "k") (returned success)).cache
    ≡ some filled
unfolding lookup_one lookup get
success_stored = refl

abbrev filled_shared : Shared
filled_shared = record shared { looked_in = filled }

lookup_one_reused_example :
    ((lookup_one sha256 provider looked (readings 90000) filled_shared none raises).called ≡ false)
    × ((lookup_one sha256 provider looked (readings 90000) filled_shared none raises).envelope
        ≡ some (put envelope "cache_hit" (bool true)))
lookup_one_reused_example =
    lookup_one_reused sha256 provider looked (readings 5000) (readings 90000) shared filled_shared
      (some "k") none (returned success) raises envelope filled 64800000 success_called
      success_envelope success_stored refl (omega arith) refl (omega arith)
