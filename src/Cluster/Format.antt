-- ===== src/Cluster/Format.antt =====
-- The texts of the providers' answers in a summary: `_p`, `_p_list`, `_format_greynoise`,
-- `_format_virustotal` and `_format_shodan` of native/session_cluster.py. `none` is an exception.
use swarm_kill_chain_medium.Prelude.{
  ℕ, String, Option, none, some, List, [], ◌∷◌, map, string_equality, if◌then◌else◌,
}
use swarm_kill_chain_medium.Prelude.Int.{pos}
use swarm_kill_chain_medium.Dict.{Dict, get}
use swarm_kill_chain_medium.Json.{
  Json, null, str, arr, obj, end, truthy, or_else, or_default, is_text, as_object, fields_of,
  to_items, Python,
}
use swarm_kill_chain_medium.Cluster.Text.{append, sanitize_display}
use swarm_kill_chain_medium.Cluster.Session.{at}
use swarm_kill_chain_medium.Cluster.Saved.{got, unreadable, overflow, number, list_of}

infixl 5 ◌>>=◌
abbrev pub ◌>>=◌ : {A B : Type 0} → Option A → (A → Option B) → Option B
none >>= f = none
some a >>= f = f a

abbrev pub max_provider_field_length : ℕ
max_provider_field_length = 200

-- `separator.join(texts)`
unfoldable pub join : String → List String → String
unfolding append
join separator [] = ""
join separator (s ∷ []) = s
join separator (s ∷ t ∷ rest) = append s (append separator (join separator (t ∷ rest)))

abbrev pub lines : List String → String
lines = join "\n"

-- `for v in values`
abbrev pub elements : Json → Option (List Json)
elements values = elim (list_of values) [ got xs ↦ some xs | unreadable ↦ none | overflow ↦ none ]

module _ (python : Python) where
  -- `_p(value, default)`
  unfoldable pub scalar : Json → String → String
  unfolding sanitize_display
  scalar null default = default
  scalar value default =
      if is_text value "" then default else sanitize_display python value max_provider_field_length

  -- `_p_list(values, separator)`
  unfoldable pub scalars : Json → String → Option String
  unfolding sanitize_display join list_of truthy
  scalars values separator =
      if truthy values
      then (do
        xs ← elements values
        some (
            sanitize_display python
              (str (join separator (map (λ v. sanitize_display python v 64) xs)))
              max_provider_field_length))
      else some "none"

  -- What the three formats share: an envelope that is missing or whose status is not `ok`.
  unfoldable pub format_envelope : (Dict String Json → Option String) → Json → Option String
  unfolding scalar fields_of
  format_envelope format_normalized null = some "unavailable"
  format_envelope format_normalized (obj fs) =
      let envelope = fields_of fs in
      if is_text (at envelope "status") "ok"
      then as_object (or_default (get envelope "normalized") (obj end)) >>= format_normalized
      else some (scalar (at envelope "status") "unavailable")
  format_envelope format_normalized _ = none

  unfoldable pub greynoise_text : Dict String Json → Option String
  unfolding scalars
  greynoise_text normalized = do
    tags ← scalars (at normalized "tags") ", "
    some (
        lines (
          append "Classification: " (scalar (at normalized "classification") "unknown")
          ∷ append "Actor: " (scalar (at normalized "actor") "unknown")
          ∷ append "Tags: " tags
          ∷ []))

  unfoldable pub format_greynoise : Json → Option String
  unfolding format_envelope greynoise_text
  format_greynoise = format_envelope greynoise_text

  unfoldable pub virustotal_text : Dict String Json → Option String
  unfolding truthy number
  virustotal_text normalized = do
    stats ←
        as_object (or_else (or_default (get normalized "last_analysis_stats") (obj end)) (obj end))
    some (
        lines (
          append "Malicious: " (scalar (or_default (get stats "malicious") (number (pos 0))) "0")
          ∷ append "Suspicious: "
              (scalar (or_default (get stats "suspicious") (number (pos 0))) "0")
          ∷ append "ASN: " (scalar (at normalized "asn") "unknown")
          ∷ append "Owner: " (scalar (at normalized "as_owner") "unknown")
          ∷ []))

  unfoldable pub format_virustotal : Json → Option String
  unfolding format_envelope virustotal_text
  format_virustotal = format_envelope virustotal_text

  unfoldable pub shodan_text : Dict String Json → Option String
  unfolding scalars truthy to_items
  shodan_text normalized = do
    numbers ← elements (or_else (at normalized "ports") (arr (to_items [])))
    ports ← scalars (arr (to_items (map (λ port. str (python.str_of port)) numbers))) ","
    products ← scalars (at normalized "products") ", "
    vulns ← scalars (at normalized "vulns") ", "
    some (
        lines (
          append "Org: " (scalar (at normalized "org") "unknown")
          ∷ append "Ports: " ports
          ∷ append "Products: " products
          ∷ append "Vulns: " vulns
          ∷ []))

  unfoldable pub format_shodan : Json → Option String
  unfolding format_envelope shodan_text
  format_shodan = format_envelope shodan_text
