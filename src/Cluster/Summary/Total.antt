-- ===== src/Cluster/Summary/Total.antt =====
-- When a summary is built at all (native/session_cluster.py): a duration of not-a-number or infinity
-- and a provider's answer of another shape raise.
use swarm_kill_chain_medium.Prelude.{◌≡◌, refl, String, Option, none, some, by_if}
use swarm_kill_chain_medium.Prelude.Int.{ℤ, pos}
use swarm_kill_chain_medium.Float.{Float, finite, ticks, second, fmax, fsub, fadd, fneg, flt}
use swarm_kill_chain_medium.Dict.{Dict, get}
use swarm_kill_chain_medium.Json.{Json, Python}
use swarm_kill_chain_medium.Cluster.Session.{at, Cluster}
use swarm_kill_chain_medium.Cluster.Format.{
  format_envelope, format_greynoise, format_virustotal, format_shodan,
}
use swarm_kill_chain_medium.Cluster.Summary.{
  duration_seconds, format_duration, format_seconds, summary_of, or_empty, combined,
  build_session_summary_payload,
}

-- Its times are numbers, as `time.time()` gives them.
abbrev pub IsTimed : Cluster → Type 0
IsTimed c =
    (created : ℤ) × (active : ℤ) × (c.created_at ≡ finite created)
    × (c.last_activity_at ≡ finite active)

-- No exception is raised.
abbrev pub IsSome : {A : Type 0} → Option A → Type 0
IsSome {A = A} o = (a : A) × (o ≡ some a)

fmax_finite : (a b : ℤ) → (z : ℤ) × (fmax (finite a) (finite b) ≡ finite z)
unfolding fmax
fmax_finite a b =
    by_if (λ (x : Float). (z : ℤ) × (x ≡ finite z)) (flt (finite a) (finite b)) {x = finite b}
      {y = finite a} (λ h. (b, refl)) (λ h. (a, refl))

duration_finite : (c : Cluster) → IsTimed c → (z : ℤ) × (duration_seconds c ≡ finite z)
unfolding duration_seconds fsub fadd fneg
duration_finite c (created, active, e, f) = rw (e, f) (fmax_finite (pos 0) _)

module _ (python : Python) where
  format_finite : (z : ℤ) → IsSome (format_duration python (finite z))
  unfolding format_duration format_seconds
  format_finite z =
      by_if (λ (o : Option String). IsSome o) (flt (finite z) (ticks second)) (λ h. (_, refl))
        (λ h. (_, refl))

  pub format_duration-IsSome :
      (c : Cluster) → IsTimed c → IsSome (format_duration python (duration_seconds c))
  format_duration-IsSome c h = let (z, e) = duration_finite c h in rw e (format_finite z)

  combined-IsSome :
      (c : Cluster) (greynoise virustotal shodan duration : Option String)
      → IsSome greynoise
      → IsSome virustotal
      → IsSome shodan
      → IsSome duration
      → IsSome (combined python c greynoise virustotal shodan duration)
  combined-IsSome c greynoise virustotal shodan duration (g, e) (v, f) (s, h) (d, k) =
      rw (e, f, h, k) (_, refl)

  -- An enrichment that the three formats take, and a missing one.
  pub build-IsSome :
      (c : Cluster) (enrichment : Option (Dict String Json))
      → IsTimed c
      → IsSome (format_greynoise python (at (or_empty python enrichment) "greynoise"))
      → IsSome (format_virustotal python (at (or_empty python enrichment) "virustotal"))
      → IsSome (format_shodan python (at (or_empty python enrichment) "shodan"))
      → IsSome (build_session_summary_payload python c enrichment)
  unfolding build_session_summary_payload summary_of
  build-IsSome c enrichment t g v s =
      let (summary, e) = combined-IsSome c _ _ _ _ g v s (format_duration-IsSome c t) in
      rw e (_, refl)

  pub build-IsSome_none :
      (c : Cluster) → IsTimed c → IsSome (build_session_summary_payload python c none)
  unfolding get format_greynoise format_virustotal format_shodan format_envelope
  build-IsSome_none c t = build-IsSome c none t (_, refl) (_, refl) (_, refl)
