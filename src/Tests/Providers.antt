-- ===== src/Tests/Providers.antt =====
-- The providers' answers, and the parameters that they need.
use swarm_kill_chain_medium.Prelude.{
  ◌≡◌, refl, String, true, false, Option, none, some, arith, All, string_equality,
}
use swarm_kill_chain_medium.Float.{ticks}
use swarm_kill_chain_medium.Dict.{Dict, keys, get}
use swarm_kill_chain_medium.Json.{Json, num, str, obj, truthy, Fields, end, field, fields_of}
use swarm_kill_chain_medium.Cluster.Session.{Cluster, new_cluster, at}
use swarm_kill_chain_medium.Cluster.Format.{scalars}
use swarm_kill_chain_medium.Cluster.Summary.{build_session_summary_payload}
use swarm_kill_chain_medium.Cluster.Summary.Total.{IsSome, IsTimed}
use swarm_kill_chain_medium.Prelude.Int.{pos}
use swarm_kill_chain_medium.Intel.Http.{Fetched, status_ok, status_timeout}
use swarm_kill_chain_medium.Intel.Broker.{Response, bare, response_of}
use swarm_kill_chain_medium.Intel.Broker.Enrich.{
  provider_names, enrich_ip, IsPublic, enrich_ip-IsGuarded,
}
use swarm_kill_chain_medium.Intel.Observables.{Address}
use swarm_kill_chain_medium.Intel.Providers.{lookup_greynoise, lookup_shodan, lookup_virustotal}
use swarm_kill_chain_medium.Intel.Providers.Shown.{
  enrichment_of, build-providers-IsSome, build-tags_number,
}
use swarm_kill_chain_medium.Intel.Parameters.{
  not_run, exited, Parameter, new_parameter, get_value, keep_candidate,
}
use swarm_kill_chain_medium.Intel.Parameters.Laws.{get_value-stale}
use swarm_kill_chain_medium.Tests.Python.{python, sha256}

abbrev cluster : Cluster
cluster = new_cluster (str "session:a1b2") (str "192.0.2.1") (str "a1b2") (ticks 1000)

timed : IsTimed cluster
timed = (pos 1000, pos 1000, refl, refl)

-- `{"tags": 5}`
abbrev fields : Fields
fields = field "tags" (num (ticks 5000)) end

abbrev answer : Fetched
answer = record {
  status = status_ok;
  http_status = some 200;
  parsed = obj fields;
  raw_body = none;
  retry_after = none;
}

abbrev silent : Response
silent = bare status_timeout

abbrev version : String → String
version name = "v1"

no_tags : IsSome (scalars python (at silent.normalized "tags") ", ")
unfolding get scalars truthy
no_tags = ("none", refl)

build-providers-IsSome_example : IsSome (
    build_session_summary_payload python cluster (
      some (
        enrichment_of python sha256 "8.8.8.8" "t1" version silent
          (response_of (lookup_virustotal "k" answer))
          (response_of (lookup_shodan python "k" answer)))))
build-providers-IsSome_example =
    build-providers-IsSome python sha256 "8.8.8.8" "t1" version cluster silent "k" "k" answer answer
      timed no_tags

tags : at (fields_of fields) "tags" ≡ num (ticks 5000)
unfolding get fields_of
tags = refl

nonzero : truthy (num (ticks 5000)) ≡ true
unfolding truthy
nonzero = refl

build-tags_number_example :
    ((response_of (lookup_greynoise "k" answer)).status ≡ status_ok)
    × (build_session_summary_payload python cluster (
          some (
            enrichment_of python sha256 "8.8.8.8" "t1" version
              (response_of (lookup_greynoise "k" answer))
              silent
              silent))
        ≡ none)
build-tags_number_example =
    build-tags_number python sha256 "8.8.8.8" "t1" version cluster "k" answer fields (ticks 5000)
      silent silent refl refl refl tags nonzero

abbrev address : Address
address = record {
  text = "8.8.8.8";
  is_private = false;
  is_reserved = false;
  is_loopback = false;
  is_link_local = false;
  is_multicast = false;
  is_unspecified = false;
}

abbrev ip_address : String → Option Address
ip_address s = some address

abbrev lookup : String → String → Option (Dict String Json)
lookup name observable = none

enrich_ip-IsGuarded_example :
    (keys (enrich_ip python ip_address sha256 "8.8.8.8" "t1" lookup).results ≡ provider_names)
    × All
        (λ (call : String × String). IsPublic python ip_address sha256 "8.8.8.8" call.1)
        (enrich_ip python ip_address sha256 "8.8.8.8" "t1" lookup).asked
enrich_ip-IsGuarded_example = enrich_ip-IsGuarded python ip_address sha256 "8.8.8.8" "t1" lookup

abbrev parameter : Parameter
parameter = record (new_parameter "/patriotpot/2026-control/shodan-api-key") { value = some "k1" }

first : (get_value python false 1000 (exited 0 "k2") parameter).called ≡ true
unfolding get_value keep_candidate
first = refl

second :
    (get_value python false 301000 not_run
      (get_value python false 1000 (exited 0 "k2") parameter).cache).called
    ≡ true
unfolding get_value keep_candidate
second = refl

get_value-stale_example :
    ((get_value python false 1000 not_run parameter).value ≡ none)
    × ((get_value python false 2000
          (exited 0 "k2")
          (get_value python false 1000 not_run parameter).cache).value
        ≡ parameter.value)
    × ((get_value python false 2000
          (exited 0 "k2")
          (get_value python false 1000 not_run parameter).cache).called
        ≡ false)
get_value-stale_example =
    get_value-stale python false 1000 2000 (exited 0 "k2") parameter refl (omega arith)
