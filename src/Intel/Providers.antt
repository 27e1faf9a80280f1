-- ===== src/Intel/Providers.antt =====
-- native/threat_intel/greynoise.py, shodan.py and virustotal.py: one lookup of each provider, from what
-- `get_json` gives. A `_normalize` that raises makes the lookup raise.
pub mod Laws
pub mod Shown
use swarm_kill_chain_medium.Prelude.{
  String, Bool, true, false, ◌||◌, not, Option, none, some, List, [], ◌∷◌, string_equality,
  if◌then◌else◌,
}
use swarm_kill_chain_medium.Prelude.Int.{pos}
use swarm_kill_chain_medium.Dict.{Dict, get}
use swarm_kill_chain_medium.Json.{
  Json, bool, arr, obj, end, truthy, or_else, or_default, as_object, to_fields, to_items, Python,
}
use swarm_kill_chain_medium.Cluster.Session.{at}
use swarm_kill_chain_medium.Cluster.Saved.{number}
use swarm_kill_chain_medium.Cluster.Format.{◌>>=◌, elements}
use swarm_kill_chain_medium.Intel.Http.{
  Status, status_ok, status_missing_credential, Fetched, is_null,
}
use swarm_kill_chain_medium.Intel.Broker.{Response, bare, Reply, returned, raises}

abbrev pub is_ok : Status → Bool
is_ok status_ok = true
is_ok _ = false

abbrev pub refused : Fetched → Response
refused f = record {
  status = f.status;
  http_status = f.http_status;
  normalized = [];
  raw_body = f.raw_body;
  retry_after_seconds = f.retry_after;
}

abbrev pub normalized_to : Fetched → Option (Dict String Json) → Reply
normalized_to f none = raises
normalized_to f (some normalized) = returned (record {
  status = status_ok;
  http_status = f.http_status;
  normalized = normalized;
  raw_body = f.raw_body;
  retry_after_seconds = none;
})

-- What the lookups share: the key, the GET and its failures. `payload.get` of a value that is no
-- dictionary raises.
unfoldable pub lookup_with :
    (Dict String Json → Option (Dict String Json)) → String → Fetched → Reply
lookup_with normalize api_key f =
    if string_equality.equal api_key ""
    then returned (bare status_missing_credential)
    else if not (is_ok f.status) || is_null f.parsed
    then returned (refused f)
    else normalized_to f (as_object f.parsed >>= normalize)

abbrev empty_object : Json
empty_object = obj end

abbrev no_items : Json
no_items = arr (to_items [])

-- `d.get(k) or []` and `d.get(k) or {}`
abbrev pub or_no_items : Dict String Json → String → Json
or_no_items d k = or_else (at d k) no_items

abbrev pub object_at : Dict String Json → String → Option (Dict String Json)
object_at d k = as_object (or_else (at d k) empty_object)

-- `bool(payload.get(k, False))`
abbrev flag_at : Dict String Json → String → Json
flag_at d k = bool (truthy (or_default (get d k) (bool false)))

unfoldable pub normalize_greynoise : Dict String Json → Option (Dict String Json)
unfolding truthy to_items
normalize_greynoise payload = some (
    ("classification", at payload "classification")
    ∷ ("noise", flag_at payload "noise")
    ∷ ("riot", flag_at payload "riot")
    ∷ ("actor", at payload "actor")
    ∷ ("tags", or_no_items payload "tags")
    ∷ ("name", at payload "name")
    ∷ ("last_seen", at payload "last_seen")
    ∷ ("link", at payload "link")
    ∷ [])

-- The statistics of the engines, with 0 for those that are missing.
abbrev stats_of : Dict String Json → Json
stats_of stats = obj (
    to_fields (
      ("malicious", or_default (get stats "malicious") (number (pos 0)))
      ∷ ("suspicious", or_default (get stats "suspicious") (number (pos 0)))
      ∷ ("harmless", or_default (get stats "harmless") (number (pos 0)))
      ∷ ("undetected", or_default (get stats "undetected") (number (pos 0)))
      ∷ []))

-- `(payload.get("data") or {}).get("attributes") or {}`
unfoldable pub attributes_of : Dict String Json → Option (Dict String Json)
unfolding truthy
attributes_of payload = do outer ← object_at payload "data"; object_at outer "attributes"

unfoldable pub ip_fields : Dict String Json → Dict String Json → Dict String Json
unfolding to_fields number
ip_fields attributes stats =
    ("reputation", at attributes "reputation")
    ∷ ("country", at attributes "country")
    ∷ ("asn", at attributes "asn")
    ∷ ("as_owner", at attributes "as_owner")
    ∷ ("last_analysis_stats", stats_of stats)
    ∷ []

unfoldable pub normalize_ip : Dict String Json → Option (Dict String Json)
unfolding truthy
normalize_ip payload = do
  attributes ← attributes_of payload
  stats ← object_at attributes "last_analysis_stats"
  some (ip_fields attributes stats)

unfoldable pub file_fields : Dict String Json → Dict String Json → Dict String Json
unfolding to_fields number
file_fields attributes stats =
    ("sha256", at attributes "sha256")
    ∷ ("type_description", at attributes "type_description")
    ∷ ("last_analysis_stats", stats_of stats)
    ∷ []

unfoldable pub normalize_file : Dict String Json → Option (Dict String Json)
unfolding truthy
normalize_file payload = do
  attributes ← attributes_of payload
  stats ← object_at attributes "last_analysis_stats"
  some (file_fields attributes stats)

-- `entry[k] for entry in services if entry.get(k)`
unfoldable pub values_of : String → List Json → Option (List Json)
unfolding truthy
values_of k [] = some []
values_of k (entry ∷ rest) = do
  fields ← as_object entry
  later ← values_of k rest
  some (if truthy (at fields k) then at fields k ∷ later else later)

module _ (python : Python) where
  -- `sorted({...})`
  abbrev pub sorted_set : List Json → Option (List Json)
  sorted_set xs = python.distinct xs >>= python.sorted

  abbrev pub sorted_at : Dict String Json → String → Option (List Json)
  sorted_at payload k = elements (or_no_items payload k) >>= python.sorted

  unfoldable pub shodan_fields :
      Dict String Json → List Json → List Json → List Json → List Json → Dict String Json
  unfolding truthy to_items
  shodan_fields payload products transports ports vulns =
      ("org", at payload "org")
      ∷ ("isp", at payload "isp")
      ∷ ("asn", at payload "asn")
      ∷ ("country", at payload "country_name")
      ∷ ("hostnames", or_no_items payload "hostnames")
      ∷ ("domains", or_no_items payload "domains")
      ∷ ("ports", arr (to_items ports))
      ∷ ("products", arr (to_items products))
      ∷ ("transport", arr (to_items transports))
      ∷ ("last_update", at payload "last_update")
      ∷ ("vulns", arr (to_items vulns))
      ∷ ("tags", or_no_items payload "tags")
      ∷ []

  -- The four lists, each of which can raise.
  abbrev pub shodan_from :
      Dict String Json
      → Option (List Json)
      → Option (List Json)
      → Option (List Json)
      → Option (List Json)
      → Option (Dict String Json)
  shodan_from payload products transports ports vulns = do
    product_list ← products
    transport_list ← transports
    port_list ← ports
    vuln_list ← vulns
    some (shodan_fields payload product_list transport_list port_list vuln_list)

  unfoldable pub normalize_shodan : Dict String Json → Option (Dict String Json)
  normalize_shodan payload =
      let services = elements (or_no_items payload "data") in
      shodan_from payload (services >>= values_of "product" >>= sorted_set)
        (services >>= values_of "transport" >>= sorted_set) (sorted_at payload "ports")
        (sorted_at payload "vulns")

  unfoldable pub lookup_shodan : String → Fetched → Reply
  lookup_shodan = lookup_with normalize_shodan

unfoldable pub lookup_greynoise : String → Fetched → Reply
lookup_greynoise = lookup_with normalize_greynoise

unfoldable pub lookup_virustotal : String → Fetched → Reply
lookup_virustotal = lookup_with normalize_ip

unfoldable pub lookup_file_hash : String → Fetched → Reply
lookup_file_hash = lookup_with normalize_file
