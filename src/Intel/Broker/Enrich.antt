-- ===== src/Intel/Broker/Enrich.antt =====
-- `ThreatIntelBroker.enrich_ip` of native/threat_intel/broker.py: the three lookups of one address. The
-- pool runs them at once; each has its own cache key, governor and credential.
use swarm_kill_chain_medium.Prelude.{
  ◌≡◌, refl, String, false, ◌||◌, All, map, by_if, Option, none, some, List, [], ◌∷◌,
}
use swarm_kill_chain_medium.Prelude.Text.{Bytes}
use swarm_kill_chain_medium.Dict.{Dict, keys}
use swarm_kill_chain_medium.Json.{Json, str, Python}
use swarm_kill_chain_medium.Intel.Http.{status_invalid_observable, status_unavailable}
use swarm_kill_chain_medium.Intel.Broker.{Provider, bare, envelope_of}
use swarm_kill_chain_medium.Intel.Observables.{
  Address, is_blank, is_excluded, public_only, parse_public_ip,
}

abbrev pub provider_names : List String
provider_names = "greynoise" ∷ "virustotal" ∷ "shodan" ∷ []

abbrev named : String → Provider
named name = record { name = name; api_version = "unknown"; ttl_seconds = 0 }

-- The envelopes by provider, and the lookups that were submitted to the pool.
pub record Enriched : Type 0 where
  pub results : Dict String (Dict String Json)
  pub asked : List (String × String)

module _ (python : Python) (ip_address : String → Option Address) (sha256 : Bytes → String) where
  -- What `future.result` gives, with `none` for an exception and for the timeout.
  abbrev outcome_or : String → String → String → Option (Dict String Json) → Dict String Json
  outcome_or name observable queried_at none =
      envelope_of sha256 "unknown" (named name) observable queried_at (bare status_unavailable)
  outcome_or name observable queried_at (some envelope) = envelope

  abbrev invalid : String → String → String → Dict String Json
  invalid ip_str queried_at name =
      envelope_of sha256 "unknown" (named name) ip_str queried_at (bare status_invalid_observable)

  -- `lookup` is the outcome of `_lookup_one` for a provider and an observable.
  abbrev enrich_address :
      String → String → (String → String → Option (Dict String Json)) → Option Address → Enriched
  enrich_address ip_str queried_at lookup none = record {
    results = map (λ name. (name, invalid ip_str queried_at name)) provider_names;
    asked = [];
  }
  enrich_address ip_str queried_at lookup (some address) = record {
    results =
        map (λ name. (name, outcome_or name address.text queried_at (lookup name address.text)))
          provider_names;
    asked = map (λ name. (name, address.text)) provider_names;
  }

  unfoldable pub enrich_ip :
      String → String → (String → String → Option (Dict String Json)) → Enriched
  unfolding parse_public_ip envelope_of
  enrich_ip ip_str queried_at lookup =
      enrich_address ip_str queried_at lookup (parse_public_ip python ip_address (str ip_str))

  -- An address that `ipaddress` reads from the text, and that is not excluded.
  abbrev pub IsPublic : String → String → Type 0
  IsPublic ip_str observable =
      (address : Address) × (ip_address (python.strip ip_str) ≡ some address)
      × (is_excluded address ≡ false)
      × (observable ≡ address.text)

  abbrev PublicIf : String → Option Address → Type 0
  PublicIf ip_str none = Unit
  PublicIf ip_str (some address) =
      (ip_address (python.strip ip_str) ≡ some address) × (is_excluded address ≡ false)

  parse_public_ip-PublicIf :
      (ip_str : String) → PublicIf ip_str (parse_public_ip python ip_address (str ip_str))
  unfolding parse_public_ip
  parse_public_ip-PublicIf ip_str =
      by_if (PublicIf ip_str) (is_blank ip_str || is_blank (python.strip ip_str)) {x = none}
        (λ e. tt) (λ e. checked (ip_address (python.strip ip_str)) refl)
    where
      checked :
          (o : Option Address)
          → ip_address (python.strip ip_str) ≡ o
          → PublicIf ip_str (public_only o)
      checked none e = tt
      checked (some address) e =
          by_if (PublicIf ip_str) (is_excluded address) {x = none} (λ f. tt) (λ f. (e, f))

  -- Every result has the three providers, whatever the lookups do; and a provider is asked only for an
  -- address that `ipaddress` reads from the text and that is neither private nor otherwise excluded.
  pub enrich_ip-IsGuarded :
      (ip_str queried_at : String) (lookup : String → String → Option (Dict String Json))
      → (keys (enrich_ip ip_str queried_at lookup).results ≡ provider_names)
        × All
            (λ (call : String × String). IsPublic ip_str call.1)
            (enrich_ip ip_str queried_at lookup).asked
  unfolding enrich_ip
  enrich_ip-IsGuarded ip_str queried_at lookup =
      guarded (parse_public_ip python ip_address (str ip_str)) (parse_public_ip-PublicIf ip_str)
    where
      guarded :
          (o : Option Address)
          → PublicIf ip_str o
          → (keys (enrich_address ip_str queried_at lookup o).results ≡ provider_names)
            × All
                (λ (call : String × String). IsPublic ip_str call.1)
                (enrich_address ip_str queried_at lookup o).asked
      guarded none h = (refl, tt)
      guarded (some address) (e, f) =
          let public : IsPublic ip_str address.text = (address, e, f, refl) in
          (refl, (public, (public, (public, tt))))
