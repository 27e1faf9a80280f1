-- ===== src/Cluster/Summary/Laws.antt =====
-- The bounds of a summary, whatever the attacker and the providers send
-- (`build_session_summary_payload` of native/session_cluster.py).
use mathlib.Core.Path.{subst}
use swarm_kill_chain_medium.Prelude.{◌≤◌, ◌≡◌, refl, String, Option, none, some, arith, All, length}
use swarm_kill_chain_medium.Dict.{Dict}
use swarm_kill_chain_medium.Json.{Json, Python}
use swarm_kill_chain_medium.Cluster.Text.{len}
use swarm_kill_chain_medium.Cluster.Text.Laws.{len-truncate}
use swarm_kill_chain_medium.Cluster.Session.{at, Cluster}
use swarm_kill_chain_medium.Cluster.Format.{
  lines, ◌>>=◌, format_greynoise, format_virustotal, format_shodan,
}
use swarm_kill_chain_medium.Cluster.Summary.{
  Field, Summary, truncate_field, payload_of, auth_lines, activity_lines, notable_lines,
  summary_with, combined, format_duration, duration_seconds, or_empty, summary_of,
  build_session_summary_payload,
}

-- Within the limits that the service keeps to: Discord takes 25 fields, of 1024 characters each.
abbrev pub IsBounded : Summary → Type 0
IsBounded s =
    (length s.fields ≤ 25)
    × (len s.description ≤ 1000)
    × All (λ (f : Field). len f.value ≤ 1000) s.fields

len-truncate_field : (s : String) → len (truncate_field s) ≤ 1000
unfolding truncate_field
len-truncate_field s = len-truncate 1000 s (omega arith)

-- The values of the six fields, as `All` wants them.
values :
    (a b c d e f : String)
    → (len (truncate_field a) ≤ 1000)
      × ((len (truncate_field b) ≤ 1000)
          × ((len (truncate_field c) ≤ 1000)
              × ((len (truncate_field d) ≤ 1000)
                  × ((len (truncate_field e) ≤ 1000)
                      × ((len (truncate_field f) ≤ 1000) × Unit {0})))))
values a b c d e f = (
  len-truncate_field a,
  (
    len-truncate_field b,
    (
      len-truncate_field c,
      (len-truncate_field d, (len-truncate_field e, (len-truncate_field f, tt))),
    ),
  ),
)

module _ (python : Python) where
  summary_with-IsBounded :
      (c : Cluster) (greynoise virustotal shodan duration : String)
      → IsBounded (summary_with python c greynoise virustotal shodan duration)
  unfolding summary_with
  summary_with-IsBounded c greynoise virustotal shodan duration = (
    omega arith,
    len-truncate_field _,
    values (lines (auth_lines python c)) (lines (activity_lines python c))
        (lines (notable_lines python c)) greynoise virustotal shodan,
  )

  abbrev BoundedIf : Option Summary → Type 0
  BoundedIf none = Unit
  BoundedIf (some s) = IsBounded s

  combined-BoundedIf :
      (c : Cluster) (greynoise virustotal shodan duration : Option String)
      → BoundedIf (combined python c greynoise virustotal shodan duration)
  combined-BoundedIf c none _ _ _ = tt
  combined-BoundedIf c (some g) none _ _ = tt
  combined-BoundedIf c (some g) (some v) none _ = tt
  combined-BoundedIf c (some g) (some v) (some s) none = tt
  combined-BoundedIf c (some g) (some v) (some s) (some d) = summary_with-IsBounded c g v s d

  summary_of-BoundedIf :
      (c : Cluster) (enrichment : Dict String Json) → BoundedIf (summary_of python c enrichment)
  unfolding summary_of
  summary_of-BoundedIf c enrichment =
      combined-BoundedIf c (format_greynoise python (at enrichment "greynoise"))
        (format_virustotal python (at enrichment "virustotal"))
        (format_shodan python (at enrichment "shodan"))
        (format_duration python (duration_seconds c))

  abbrev Payload : Option Json → Type 0
  Payload none = Unit
  Payload (some payload) = (s : Summary) × (payload ≡ payload_of s) × IsBounded s

  of_summary : (o : Option Summary) → BoundedIf o → Payload (o >>= λ s. some (payload_of s))
  of_summary none h = tt
  of_summary (some s) h = (s, refl, h)

  -- Whatever the events, the state file and the providers' answers hold, a payload that is built is that
  -- of a summary with at most 25 fields, whose description and values have at most 1000 characters each.
  pub build_session_summary_payload-IsBounded :
      (c : Cluster) (enrichment : Option (Dict String Json)) (payload : Json)
      → build_session_summary_payload python c enrichment ≡ some payload
      → (s : Summary) × (payload ≡ payload_of s) × IsBounded s
  unfolding build_session_summary_payload
  build_session_summary_payload-IsBounded c enrichment payload h =
      subst Payload h (of_summary _ (summary_of-BoundedIf c (or_empty python enrichment)))
