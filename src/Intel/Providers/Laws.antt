-- ===== src/Intel/Providers/Laws.antt =====
-- Which answers of the providers the summary of a cluster can show (native/threat_intel and
-- native/session_cluster.py).
use swarm_kill_chain_medium.Prelude.{
  ◌≡◌, refl, ap, String, not, ◌||◌, Option, none, some, List, [], ◌∷◌, map, by_if, string_equality,
}
use swarm_kill_chain_medium.Prelude.Text.{Bytes}
use swarm_kill_chain_medium.Dict.{Dict, get}
use swarm_kill_chain_medium.Json.{
  Json, arr, obj, str, truthy, or_else, as_object, fields_of, to_fields, to_items, Python,
}
use swarm_kill_chain_medium.Cluster.Session.{at}
use swarm_kill_chain_medium.Cluster.Saved.{list_of}
use swarm_kill_chain_medium.Cluster.Format.{
  ◌>>=◌, elements, scalars, format_envelope, greynoise_text, virustotal_text, shodan_text,
}
use swarm_kill_chain_medium.Cluster.Summary.Total.{IsSome}
use swarm_kill_chain_medium.Intel.Http.{Fetched, is_null}
use swarm_kill_chain_medium.Intel.Broker.{
  Provider, Response, Reply, response_of, envelope_of, status_text,
}
use swarm_kill_chain_medium.Intel.Providers.{
  or_no_items, sorted_set, sorted_at, values_of, is_ok, object_at, attributes_of, ip_fields,
  lookup_with, shodan_fields, shodan_from, normalize_shodan, normalize_ip, normalized_to,
  lookup_shodan, lookup_virustotal,
}

pub fields_of-to_fields : (d : Dict String Json) → fields_of (to_fields d) ≡ d
unfolding fields_of to_fields
fields_of-to_fields [] = refl
fields_of-to_fields ((k, v) ∷ d) = ap (◌∷◌ (k, v)) (fields_of-to_fields d)

module _ (python : Python) where
  scalars-IsSome :
      (xs : List Json) (separator : String) → IsSome (scalars python (arr (to_items xs)) separator)
  unfolding scalars list_of
  scalars-IsSome xs separator =
      by_if (λ (o : Option String). IsSome o) (truthy (arr (to_items xs))) (λ e. (_, refl))
        (λ e. (_, refl))

  elements-IsSome :
      (xs : List Json) → IsSome (elements (or_else (arr (to_items xs)) (arr (to_items []))))
  unfolding truthy to_items list_of
  elements-IsSome [] = (_, refl)
  elements-IsSome (x ∷ xs) = (_, refl)

  shodan_text-IsSome :
      (payload : Dict String Json) (products transports ports vulns : List Json)
      → IsSome (shodan_text python (shodan_fields python payload products transports ports vulns))
  unfolding shodan_text shodan_fields get
  shodan_text-IsSome payload products transports ports vulns =
      let (numbers, e) = elements-IsSome ports in
      let (p, f) = scalars-IsSome (map (λ port. str (python.str_of port)) numbers) "," in
      let (q, g) = scalars-IsSome products ", " in
      let (v, h) = scalars-IsSome vulns ", " in rw (e, f, g, h) (_, refl)

  -- An envelope of the broker, for a response whose content the format takes.
  pub envelope-IsSome :
      (sha256 : Bytes → String) (format : Dict String Json → Option String) (version : String)
      (provider : Provider) (observable queried_at : String) (r : Response)
      → IsSome (format r.normalized)
      → IsSome (
          format_envelope python format
            (obj (to_fields (envelope_of sha256 version provider observable queried_at r))))
  unfolding format_envelope envelope_of get
  envelope-IsSome sha256 format version provider observable queried_at r (text, h) =
      rw (fields_of-to_fields (envelope_of sha256 version provider observable queried_at r)) (
        by_if (λ (o : Option String). IsSome o) (string_equality.equal (status_text r.status) "ok")
          (λ e. rw (fields_of-to_fields r.normalized) (text, h)) (λ e. (_, refl)))

abbrev WhenSome : (Dict String Json → Type 0) → Option (Dict String Json) → Type 0
WhenSome P none = Unit
WhenSome P (some n) = P n

bind-WhenSome :
    (P : Dict String Json → Type 0) {A : Type 0} (o : Option A) (f : A → Option (Dict String Json))
    → ((a : A) → WhenSome P (f a))
    → WhenSome P (o >>= f)
bind-WhenSome P none f h = tt
bind-WhenSome P (some a) f h = h a

-- What a lookup returns as its normalised content: nothing, or what `normalize` gives.
normalized-lookup_with :
    (P : Dict String Json → Type 0) (normalize : Dict String Json → Option (Dict String Json))
    (api_key : String) (f : Fetched)
    → P []
    → ((payload : Dict String Json) → WhenSome P (normalize payload))
    → P (response_of (lookup_with normalize api_key f)).normalized
unfolding lookup_with
normalized-lookup_with P normalize api_key f empty each =
    by_if (λ (r : Reply). P (response_of r).normalized) (string_equality.equal api_key "")
      (λ e. empty)
      (λ e.
        by_if (λ (r : Reply). P (response_of r).normalized)
          (not (is_ok f.status) || is_null f.parsed) (λ e'. empty)
          (λ e'.
            of_payload (as_object f.parsed >>= normalize)
              (bind-WhenSome P (as_object f.parsed) normalize each)))
  where
    of_payload :
        (o : Option (Dict String Json))
        → WhenSome P o
        → P (response_of (normalized_to f o)).normalized
    of_payload none h = empty
    of_payload (some n) h = h

module _ (python : Python) where
  shodan_from-IsSome :
      (payload : Dict String Json) (products transports ports vulns : Option (List Json))
      → WhenSome
          (λ n. IsSome (shodan_text python n))
          (shodan_from python payload products transports ports vulns)
  shodan_from-IsSome payload none _ _ _ = tt
  shodan_from-IsSome payload (some p) none _ _ = tt
  shodan_from-IsSome payload (some p) (some t) none _ = tt
  shodan_from-IsSome payload (some p) (some t) (some o) none = tt
  shodan_from-IsSome payload (some p) (some t) (some o) (some v) =
      shodan_text-IsSome python payload p t o v

  normalize_shodan-IsSome :
      (payload : Dict String Json)
      → WhenSome (λ n. IsSome (shodan_text python n)) (normalize_shodan python payload)
  unfolding normalize_shodan
  normalize_shodan-IsSome payload =
      let services = elements (or_no_items payload "data") in
      shodan_from-IsSome payload (services >>= values_of "product" >>= sorted_set python)
        (services >>= values_of "transport" >>= sorted_set python)
        (sorted_at python payload "ports") (sorted_at python payload "vulns")

  pub shodan-IsSome :
      (api_key : String) (f : Fetched)
      → IsSome (shodan_text python (response_of (lookup_shodan python api_key f)).normalized)
  unfolding lookup_shodan shodan_text get
  shodan-IsSome api_key f =
      normalized-lookup_with (λ n. IsSome (shodan_text python n)) (normalize_shodan python) api_key
        f (_, refl) normalize_shodan-IsSome

  pub virustotal-IsSome :
      (api_key : String) (f : Fetched)
      → IsSome (virustotal_text python (response_of (lookup_virustotal api_key f)).normalized)
  unfolding lookup_virustotal virustotal_text get normalize_ip ip_fields
  virustotal-IsSome api_key f =
      let P : Dict String Json → Type 0 = λ n. IsSome (virustotal_text python n) in
      normalized-lookup_with P normalize_ip api_key f (_, refl)
        (λ payload. bind-WhenSome P (attributes_of payload) _ (λ attributes.
          bind-WhenSome P (object_at attributes "last_analysis_stats") _ (λ stats. (_, refl))))

  pub greynoise-IsSome :
      (n : Dict String Json)
      → IsSome (scalars python (at n "tags") ", ")
      → IsSome (greynoise_text python n)
  unfolding greynoise_text
  greynoise-IsSome n (tags, e) = rw e (_, refl)
