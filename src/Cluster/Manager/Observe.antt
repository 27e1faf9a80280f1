-- ===== src/Cluster/Manager/Observe.antt =====
-- What `observe` does with an event (`SessionClusterManager` of native/session_cluster.py).
use mathlib.Core.Path.{subst}
use swarm_kill_chain_medium.Prelude.{
  sym, ℕ, ◌+◌, ◌≤◌, ◌≡◌, refl, ltb, ◌∙◌, ◌⊎◌, inl, inr, String, Bool, true, false, not, ◌&&◌,
  Option, none, some, arith, length, by_if, Bool-cases, string_equality, if◌then◌else◌,
}
use swarm_kill_chain_medium.Prelude.Int.{ℤ, pos, ◌+ℤ◌}
use swarm_kill_chain_medium.Float.{Float}
use swarm_kill_chain_medium.Dict.{get, put}
use swarm_kill_chain_medium.Dict.Laws.{get-put, put-Distinct, length-put}
use swarm_kill_chain_medium.Json.{str, or_default, is_text, Python, truthy}
use swarm_kill_chain_medium.Cluster.Session.{
  Event, at, Cluster, note_activity, note_login, note_command, note_download, note_upload,
  record_event,
}
use swarm_kill_chain_medium.Cluster.Manager.{
  Manager, is_past, is_expired, flush_expired, cluster_key_for, continued, continued_or, is_none,
  opened, observe,
}
use swarm_kill_chain_medium.Cluster.Manager.Laws.{IsValid, get-flush_expired}

module _ (python : Python) (m : Manager) (event : Event) (now : Float) where
  -- The event is counted, the activity is now, and the cluster keeps the time of its creation.
  abbrev pub Counted : ℤ → Float → Cluster → Type 0
  Counted before created c =
      (c.raw_event_count ≡ before +ℤ pos 1) × (c.created_at ≡ created) × (c.last_activity_at ≡ now)

  note_activity-Counted :
      (c : Cluster) → Counted c.raw_event_count c.created_at (note_activity python event now c)
  unfolding note_activity
  note_activity-Counted c =
      by_if (Counted c.raw_event_count c.created_at) (truthy (at event "timestamp"))
        (λ _. (refl, refl, refl)) (λ _. (refl, refl, refl))

  record_event-Counted :
      (n : ℕ) (c : Cluster)
      → Counted c.raw_event_count c.created_at (record_event python event now n c)
  unfolding record_event note_login note_command note_download note_upload
  record_event-Counted n c =
      let h = note_activity-Counted c in
      let eventid = or_default (get event "eventid") (str "") in
      by_if P (is_text eventid "cowrie.login.success") (λ _. h)
        (λ _.
          by_if P (is_text eventid "cowrie.command.input")
            (λ _.
              by_if P (ltb (length (note_activity python event now c).commands) n) (λ _. h)
                (λ _. h))
            (λ _.
              by_if P (is_text eventid "cowrie.session.file_download") (λ _. h)
                (λ _. by_if P (is_text eventid "cowrie.session.file_upload") (λ _. h) (λ _. h))))
    where
      P : Cluster → Type 0
      P = Counted c.raw_event_count c.created_at

  abbrev is_quiet : Cluster → Bool
  is_quiet c = not (truthy (at event "session")) && is_past now c.last_activity_at m.window_seconds

  abbrev Outcome : Type 0
  Outcome = String × Cluster × Bool × Manager

  -- A new cluster, with this event alone.
  abbrev Starts : Outcome → Type 0
  Starts r = (r.2 ≡ true) × Counted (pos 0) now r.1

  -- What the manager held by the key of the event, and what it returns: a new cluster where there was none,
  -- the same cluster with the event, or, for an address that has been quiet for longer than the window, a new
  -- cluster in place of the old one, which a flush at this time would have taken out.
  abbrev pub Observed : Option Cluster → Outcome → Type 0
  Observed none r = Starts r
  Observed (some c) r =
      ((is_quiet c ≡ false) × (r.2 ≡ false) × Counted c.raw_event_count c.created_at r.1)
      ⊎ ((is_quiet c ≡ true) × Starts r × (get (flush_expired m now).1.clusters r.0 ≡ none))

  abbrev recorded : Cluster
  recorded =
      record_event python event now m.max_commands
        (continued_or python (continued python m event now) (opened python event now))

  -- The manager holds the cluster that `observe` returns, by the same key, and every other cluster as
  -- it was; so an event changes one cluster at most.
  pub get-observe :
      (k : String)
      → get (observe python m event now).3.clusters k ≡ (
          if string_equality.equal (observe python m event now).0 k
          then some (observe python m event now).1
          else get m.clusters k)
  unfolding observe
  get-observe k = get-put m.clusters (cluster_key_for python event) k recorded

  -- An observed event leaves the keys of the clusters distinct, and adds one cluster at most.
  pub observe-IsValid :
      IsValid m
      → IsValid (observe python m event now).3
        × (length (observe python m event now).3.clusters ≤ length m.clusters + 1)
  unfolding observe
  observe-IsValid s = (
    put-Distinct m.clusters _ _ s,
    ground (arith, length-put m.clusters (cluster_key_for python event) recorded),
  )

  is_quiet-is_expired : (c : Cluster) → is_quiet c ≡ true → is_expired m now c ≡ true
  unfolding is_expired
  is_quiet-is_expired c h = ground (arith, h)

  abbrev key : String
  key = cluster_key_for python event

  -- The outcome, from the cluster that the event continues.
  abbrev outcome : Option Cluster → Outcome
  outcome old =
      let c =
        record_event python event now m.max_commands
          (continued_or python old (opened python event now)) in
      (key, c, is_none python old, record m { clusters = put m.clusters key c })

  continued-none : get m.clusters key ≡ none → continued python m event now ≡ none
  unfolding continued
  continued-none h = rw (h, continued) refl

  continued_quiet :
      (c : Cluster)
      → get m.clusters key ≡ some c
      → is_quiet c ≡ true
      → continued python m event now ≡ none
  unfolding continued
  continued_quiet c h q = rw (h, continued) (ground (arith, q))

  continued_active :
      (c : Cluster)
      → get m.clusters key ≡ some c
      → is_quiet c ≡ false
      → continued python m event now ≡ some c
  unfolding continued
  continued_active c h q = rw (h, continued) (ground (arith, q))

  fresh :
      Counted (pos 0) now (record_event python event now m.max_commands (opened python event now))
  fresh = record_event-Counted m.max_commands (opened python event now)

  taken_out :
      (c : Cluster)
      → IsValid m
      → get m.clusters key ≡ some c
      → is_quiet c ≡ true
      → get (flush_expired m now).1.clusters key ≡ none
  taken_out c s h q = get-flush_expired m now key s ∙ rw (h, is_quiet-is_expired c q) refl

  by_held :
      (o : Option Cluster)
      → IsValid m
      → get m.clusters key ≡ o
      → Observed o (outcome (continued python m event now))
  by_held none s h =
      subst (λ old. Observed none (outcome old)) (sym (continued-none h)) (refl, fresh)
  by_held (some c) s h = elim (Bool-cases (is_quiet c)) [
    | inl q ↦
        subst (λ old. Observed (some c) (outcome old)) (sym (continued_quiet c h q))
          (inr (q, (refl, fresh), taken_out c s h q))
    | inr q ↦
        subst (λ old. Observed (some c) (outcome old)) (sym (continued_active c h q))
          (inl (q, refl, record_event-Counted m.max_commands c))
  ]

  -- An event is counted in one cluster, and the manager holds that cluster by the key of the event and every
  -- other one as it was. An event of a session, and one of an address within the window, continues the
  -- cluster that is held; where none is held, a new cluster has this event alone; and when an address has
  -- been quiet for longer than the window, such a new cluster replaces the old one, which is then in no
  -- key of the manager, although a flush at this time would have handed it out.
  pub observe-Observed :
      (k : String)
      → IsValid m
      → Observed (get m.clusters (cluster_key_for python event)) (observe python m event now)
        × (get (observe python m event now).3.clusters k ≡ (
            if string_equality.equal (cluster_key_for python event) k
            then some (observe python m event now).1
            else get m.clusters k))
  unfolding observe
  observe-Observed k s = (by_held (get m.clusters key) s refl, get-observe k)
