-- ===== src/Intel/Providers/Shown.antt =====
-- The summary of a cluster with what the broker made of the providers' answers (native/threat_intel and
-- native/session_cluster.py).
use swarm_kill_chain_medium.Prelude.{
  ◌≡◌, refl, ◌∙◌, String, true, false, none, some, [], ◌∷◌, arith, string_equality,
}
use swarm_kill_chain_medium.Prelude.Text.{Bytes}
use swarm_kill_chain_medium.Float.{Float}
use swarm_kill_chain_medium.Dict.{Dict, get}
use swarm_kill_chain_medium.Json.{Json, num, obj, truthy, fields_of, Fields, to_fields, Python}
use swarm_kill_chain_medium.Cluster.Session.{at, Cluster}
use swarm_kill_chain_medium.Cluster.Saved.{list_of}
use swarm_kill_chain_medium.Cluster.Format.{
  scalars, format_envelope, greynoise_text, virustotal_text, shodan_text, format_shodan,
  format_virustotal, format_greynoise,
}
use swarm_kill_chain_medium.Cluster.Summary.{build_session_summary_payload, summary_of}
use swarm_kill_chain_medium.Cluster.Summary.Total.{IsSome, IsTimed, build-IsSome}
use swarm_kill_chain_medium.Intel.Http.{Fetched, status_ok}
use swarm_kill_chain_medium.Intel.Broker.{Response, response_of, envelope_of, status_text}
use swarm_kill_chain_medium.Intel.Providers.{
  or_no_items, lookup_with, normalize_greynoise, lookup_greynoise, lookup_shodan, lookup_virustotal,
}
use swarm_kill_chain_medium.Intel.Providers.Laws.{
  fields_of-to_fields, envelope-IsSome, greynoise-IsSome, virustotal-IsSome, shodan-IsSome,
}

module _ (python : Python) (sha256 : Bytes → String) (observable queried_at : String)
    (version : String → String) where
  -- The envelope that `_envelope` makes of a provider's response; `version` is what the broker enters as
  -- the provider's API version.
  abbrev pub envelope : String → Response → Json
  envelope name r = obj (
      to_fields (
        envelope_of sha256 (version name)
          (record { name = name; api_version = version name; ttl_seconds = 0 }) observable
          queried_at r))

  -- What `enrich_ip` gives for the three responses.
  abbrev pub enrichment_of : Response → Response → Response → Dict String Json
  enrichment_of greynoise virustotal shodan =
      ("greynoise", envelope "greynoise" greynoise)
      ∷ ("virustotal", envelope "virustotal" virustotal)
      ∷ ("shodan", envelope "shodan" shodan)
      ∷ []

  -- Whatever VirusTotal and Shodan answer or fail to answer, the summary of a cluster whose times are
  -- numbers is built, when the tags of GreyNoise's answer can be iterated.
  pub build-providers-IsSome :
      (c : Cluster) (greynoise : Response) (key key' : String) (f f' : Fetched)
      → IsTimed c
      → IsSome (scalars python (at greynoise.normalized "tags") ", ")
      → IsSome (
          build_session_summary_payload python c (
            some (
              enrichment_of greynoise
                (response_of (lookup_virustotal key f))
                (response_of (lookup_shodan python key' f')))))
  unfolding format_greynoise format_virustotal format_shodan get
  build-providers-IsSome c greynoise key key' f f' timed tags =
      build-IsSome python c _ timed
        (envelope-IsSome python sha256 (greynoise_text python) _ _ observable queried_at greynoise
          (greynoise-IsSome python greynoise.normalized tags))
        (envelope-IsSome python sha256 (virustotal_text python) _ _ observable queried_at _
          (virustotal-IsSome python key f))
        (envelope-IsSome python sha256 (shodan_text python) _ _ observable queried_at _
          (shodan-IsSome python key' f'))

  scalars-number :
      (x : Float) (separator : String)
      → truthy (num x) ≡ true
      → scalars python (num x) separator ≡ none
  unfolding scalars list_of
  scalars-number x separator nonzero = rw nonzero refl

  greynoise_text-number :
      (n : Dict String Json) (x : Float)
      → at n "tags" ≡ num x
      → truthy (num x) ≡ true
      → greynoise_text python n ≡ none
  unfolding greynoise_text
  greynoise_text-number n x tags nonzero = rw (tags, scalars-number x ", " nonzero) refl

  envelope-none :
      (name : String) (r : Response)
      → r.status ≡ status_ok
      → greynoise_text python r.normalized ≡ none
      → format_greynoise python (envelope name r) ≡ none
  unfolding format_greynoise format_envelope envelope_of get status_text
  envelope-none name r ok h =
      rw
        (
          fields_of-to_fields (
              envelope_of sha256 (version name)
                (record { name = name; api_version = version name; ttl_seconds = 0 }) observable
                queried_at r),
          ok,
          fields_of-to_fields r.normalized,
          h,
        )
        refl

  build-none :
      (c : Cluster) (enrichment : Dict String Json)
      → format_greynoise python (at enrichment "greynoise") ≡ none
      → build_session_summary_payload python c (some enrichment) ≡ none
  unfolding build_session_summary_payload summary_of
  build-none c enrichment h = rw h refl

  -- An object as an answer.
  looked_up :
      (key : String) (f : Fetched) (fields : Fields)
      → string_equality.equal key "" ≡ false
      → f.status ≡ status_ok
      → f.parsed ≡ obj fields
      → ((response_of (lookup_greynoise key f)).status ≡ status_ok)
        × (at (response_of (lookup_greynoise key f)).normalized "tags"
            ≡ or_no_items (fields_of fields) "tags")
  unfolding lookup_greynoise lookup_with normalize_greynoise get
  looked_up key f fields has_key ok parsed = rw (has_key, ok, parsed) (refl, refl)

  or_no_items-number :
      (fields : Dict String Json) (x : Float)
      → at fields "tags" ≡ num x
      → truthy (num x) ≡ true
      → or_no_items fields "tags" ≡ num x
  or_no_items-number fields x tags nonzero = rw tags (ground (arith, nonzero))

  -- When GreyNoise answers with an object whose tags are a number other than 0, the lookup succeeds, and
  -- building the summary raises, whatever the cluster and the other providers' responses are.
  pub build-tags_number :
      (c : Cluster) (key : String) (f : Fetched) (fields : Fields) (x : Float)
      (virustotal shodan : Response)
      → string_equality.equal key "" ≡ false
      → f.status ≡ status_ok
      → f.parsed ≡ obj fields
      → at (fields_of fields) "tags" ≡ num x
      → truthy (num x) ≡ true
      → ((response_of (lookup_greynoise key f)).status ≡ status_ok)
        × (build_session_summary_payload python c
              (some (enrichment_of (response_of (lookup_greynoise key f)) virustotal shodan))
            ≡ none)
  unfolding get
  build-tags_number c key f fields x virustotal shodan has_key ok parsed tags nonzero =
      let (status, shown) = looked_up key f fields has_key ok parsed in
      let raised =
        greynoise_text-number (response_of (lookup_greynoise key f)).normalized x
          (shown ∙ or_no_items-number (fields_of fields) x tags nonzero) nonzero in
      (
        status,
        build-none c (enrichment_of (response_of (lookup_greynoise key f)) virustotal shodan)
            (envelope-none "greynoise" (response_of (lookup_greynoise key f)) status raised),
      )
