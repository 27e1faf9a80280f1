-- ===== src/Intel/Broker/Laws.antt =====
-- When a lookup goes to the network, and what it leaves behind (native/threat_intel/broker.py).
use swarm_kill_chain_medium.Prelude.{
  ℕ, ◌+◌, ◌≤◌, ◌<◌, ◌≡◌, refl, sym, ap, ◌∙◌, String, Bool, true, false, ◌&&◌, Option, none, some,
  some-injective, arith, min, max, length, Bool-cases, inl, inr, string_equality,
}
use swarm_kill_chain_medium.Prelude.Text.{Bytes}
use swarm_kill_chain_medium.Float.{ticks, second}
use swarm_kill_chain_medium.Dict.{Dict, get, put}
use swarm_kill_chain_medium.Json.{Json, bool}
use swarm_kill_chain_medium.Intel.Http.{status_rate_limited}
use swarm_kill_chain_medium.Intel.Cache.{Entry, Cache, cache_key, unexpired, lookup, set}
use swarm_kill_chain_medium.Intel.Cache.Laws.{lookup-set}
use swarm_kill_chain_medium.Governor.Provider.{Governor, can_call, note_rate_limited}
use swarm_kill_chain_medium.Intel.Broker.{
  Response, Reply, returned, Readings, Provider, Shared, Looked, ttl_of, has_key, response_of, hit,
  stored, governed, after_call, lookup_missed, on_lookup, lookup_one,
}

abbrev pub is_missing : Option Entry → Bool
is_missing none = true
is_missing (some entry) = false

module _ (sha256 : Bytes → String) (provider : Provider) (observable : String) (readings : Readings)
    (shared : Shared) where
  called-on_lookup :
      (o : Option Entry) (api_key : Option String) (reply : Reply)
      → (on_lookup sha256 provider observable readings shared o api_key reply).called
        ≡ (is_missing o && (has_key api_key && can_call shared.checked readings.checked_at))
  unfolding lookup_missed after_call
  called-on_lookup none api_key reply = ground arith
  called-on_lookup (some entry) api_key reply = refl

  -- The provider is called exactly when the cache has no live entry for the observable, there is a key
  -- and the governor of the provider is open, each when the lookup comes to it.
  pub called-lookup_one :
      (api_key : Option String) (reply : Reply)
      → (lookup_one sha256 provider observable readings shared api_key reply).called ≡ (
          is_missing
            (lookup shared.looked_in (cache_key provider.name "ip" observable) readings.looked_at)
          && (has_key api_key && can_call shared.checked readings.checked_at))
  unfolding lookup_one
  called-lookup_one api_key reply =
      called-on_lookup
        (lookup shared.looked_in (cache_key provider.name "ip" observable) readings.looked_at)
        api_key reply

  on_lookup_called :
      (o : Option Entry) (api_key : Option String) (reply : Reply)
      → (on_lookup sha256 provider observable readings shared o api_key reply).called ≡ true
      → on_lookup sha256 provider observable readings shared o api_key reply
        ≡ after_call sha256 provider observable readings shared (response_of reply)
  unfolding lookup_missed
  on_lookup_called none api_key reply h = ground (arith, h)
  on_lookup_called (some entry) api_key reply h = absurd (cc)

  -- A lookup that called comes out as its call did.
  lookup_one_called :
      (api_key : Option String) (reply : Reply)
      → (lookup_one sha256 provider observable readings shared api_key reply).called ≡ true
      → lookup_one sha256 provider observable readings shared api_key reply
        ≡ after_call sha256 provider observable readings shared (response_of reply)
  unfolding lookup_one
  lookup_one_called api_key reply h =
      on_lookup_called
        (lookup shared.looked_in (cache_key provider.name "ip" observable) readings.looked_at)
        api_key reply h

  replied-after_call :
      (r : Response)
      → (after_call sha256 provider observable readings shared r).replied
        ≡ some (governed sha256 provider observable readings shared r).0
  unfolding after_call
  replied-after_call r = refl

  cache-after_call :
      (r : Response) (envelope : Dict String Json)
      → (after_call sha256 provider observable readings shared r).envelope ≡ some envelope
      → (after_call sha256 provider observable readings shared r).cache
        ≡ stored
            (ttl_of provider.ttl_seconds r.status)
            shared.stored_in
            (cache_key provider.name "ip" observable)
            envelope
            readings.stored_at
  unfolding after_call
  cache-after_call r envelope h =
      elim (Bool-cases (governed sha256 provider observable readings shared r).1) [
        | inl e ↦ ground (arith, e, h)
        | inr e ↦ absurd (ground (arith, e, h))
      ]

lookup_same :
    (c d : Cache) (k : String) (now : ℕ)
    → get c.entries k ≡ get d.entries k
    → lookup c k now ≡ lookup d k now
unfolding lookup
lookup_same c d k now e = ap (unexpired now) e

closed_until :
    (g h : Governor) (now t r : ℕ)
    → h.cooldown_until ≡ (note_rate_limited g now (some (ticks r))).0.cooldown_until
    → t < now + min (max r second) g.max_cooldown
    → can_call h t ≡ false
unfolding can_call note_rate_limited
closed_until g h now t r same early = ground (arith, same, early)

module _ (sha256 : Bytes → String) (provider : Provider) where
  -- When the provider has refused a call and named a delay, the lookup leaves its governor closed for the
  -- delay, clamped between a second and the maximum cooldown: a lookup of any observable that finds the
  -- cooldown that this one left does not call the provider before the delay is over, whatever the cache
  -- holds and whatever other threads have done to the rest of the governor. (A call that another thread
  -- has under way, or a later refusal, which sets a cooldown of its own, is not held up by it.)
  pub refusal_holds :
      (observable other : String) (readings next : Readings) (shared shared' : Shared)
      (api_key key : Option String) (response : Response) (reply : Reply) (left : Governor)
      (retry : ℕ)
      → (lookup_one sha256 provider observable readings shared api_key (returned response)).called
        ≡ true
      → response.status ≡ status_rate_limited
      → response.retry_after_seconds ≡ some (ticks retry)
      → (lookup_one sha256 provider observable readings shared api_key (returned response)).replied
        ≡ some left
      → shared'.checked.cooldown_until ≡ left.cooldown_until
      → next.checked_at < readings.refused_at + min (max retry second) shared.replied.max_cooldown
      → (lookup_one sha256 provider other next shared' key reply).called ≡ false
  refusal_holds observable other readings next shared shared' api_key key response reply left retry
        h limited delay leaves found early =
      let e =
        lookup_one_called sha256 provider observable readings shared api_key (returned response)
          h in
      let refused : governed sha256 provider observable readings shared response
          ≡ note_rate_limited shared.replied readings.refused_at (some (ticks retry)) =
        unfold governed in rw (limited, delay) refl in
      let is_left : some (governed sha256 provider observable readings shared response).0
          ≡ some left =
        sym (replied-after_call sha256 provider observable readings shared response)
        ∙ sym (ap (λ (l : Looked). l.replied) e)
        ∙ leaves in
      let same : shared'.checked.cooldown_until
          ≡ (note_rate_limited shared.replied readings.refused_at
              (some (ticks retry))).0.cooldown_until =
        found
        ∙ ap (λ (g : Governor). g.cooldown_until) (sym (some-injective is_left))
        ∙ ap (λ (x : Governor × Bool). x.0.cooldown_until) refused in
      called-lookup_one sha256 provider other next shared' key reply
      ∙ ground (
        arith,
        closed_until shared.replied shared'.checked readings.refused_at next.checked_at retry same
            early,
      )

  -- What a call brought is reused. Take a call whose status is cached and that was stored where the cache had
  -- room. A lookup of the observable that finds, in its cache, the entry that this one left under its
  -- key, before the time to live is over, is answered by it without a call and marked as a hit, whatever
  -- happened to the other entries, and whatever the key, the governor and the provider do.
  pub lookup_one_reused :
      (observable : String) (readings next : Readings) (shared shared' : Shared)
      (api_key key : Option String) (reply reply' : Reply) (envelope : Dict String Json)
      (left : Cache) (ttl : ℕ)
      → (lookup_one sha256 provider observable readings shared api_key reply).called ≡ true
      → (lookup_one sha256 provider observable readings shared api_key reply).envelope
        ≡ some envelope
      → (lookup_one sha256 provider observable readings shared api_key reply).cache ≡ some left
      → ttl_of provider.ttl_seconds (response_of reply).status ≡ some ttl
      → length shared.stored_in.entries + 1 ≤ shared.stored_in.max_entries
      → get shared'.looked_in.entries (cache_key provider.name "ip" observable)
        ≡ get left.entries (cache_key provider.name "ip" observable)
      → next.looked_at < readings.stored_at + ttl
      → ((lookup_one sha256 provider observable next shared' key reply').called ≡ false)
        × ((lookup_one sha256 provider observable next shared' key reply').envelope
            ≡ some (put envelope "cache_hit" (bool true)))
  lookup_one_reused observable readings next shared shared' api_key key reply reply' envelope left
        ttl h shown leaves lasting room found early =
      let e = lookup_one_called sha256 provider observable readings shared api_key reply h in
      let k = cache_key provider.name "ip" observable in
      let bare_entry : Entry = record { content = envelope; expires_at_epoch = none } in
      let kept : some left
          ≡ some (set shared.stored_in k bare_entry (ticks ttl) readings.stored_at) =
        sym leaves
        ∙ ap (λ (l : Looked). l.cache) e
        ∙ cache-after_call sha256 provider observable readings shared (response_of reply) envelope
            (sym (ap (λ (l : Looked). l.envelope) e) ∙ shown)
        ∙ (unfold stored in rw lasting refl) in
      let hits : lookup shared'.looked_in k next.looked_at
          ≡ some
              (record bare_entry { expires_at_epoch = some (ticks (readings.stored_at + ttl)) }) =
        lookup_same shared'.looked_in left k next.looked_at found
        ∙ ap (λ c. lookup c k next.looked_at) (some-injective kept)
        ∙ lookup-set shared.stored_in k bare_entry ttl readings.stored_at next.looked_at k room
        ∙ ground (arith, early, (string_equality.equal_iff k k).1 refl) in
      unfold lookup_one hit in rw hits (refl, refl)
