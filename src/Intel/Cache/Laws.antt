-- ===== src/Intel/Cache/Laws.antt =====
-- The cache's bound, and what a lookup gives back (native/threat_intel/cache.py).
use swarm_kill_chain_medium.Prelude.{
  ℕ, ◌+◌, ◌-◌, ◌≤◌, ◌≡◌, String, true, none, some, arith, length, leb, string_equality,
  if◌then◌else◌, by_if,
}
use swarm_kill_chain_medium.Float.{Float, ticks, fadd}
use swarm_kill_chain_medium.Dict.{put, keys, Distinct}
use swarm_kill_chain_medium.Dict.Laws.{get-put, put-Distinct, length-put}
use swarm_kill_chain_medium.Dict.Sorting.{length-remove_sorted, remove_all-Distinct}
use swarm_kill_chain_medium.Intel.Cache.{Entry, Cache, expires_before, lookup, evict_if_needed, set}

-- No key occurs twice, and there are no more entries than the bound.
abbrev pub IsValid : Cache → Type 0
IsValid c = Distinct (keys c.entries) × (length c.entries ≤ c.max_entries)

evict_if_needed-IsValid : (c : Cache) → Distinct (keys c.entries) → IsValid (evict_if_needed c)
unfolding evict_if_needed
evict_if_needed-IsValid c s =
    by_if IsValid (leb (length c.entries) c.max_entries) (λ e. (s, ground (arith, e)))
      (λ e.
        let overflow = length c.entries - c.max_entries in
        (
          remove_all-Distinct c.entries _ s,
          omega (arith, length-remove_sorted expires_before overflow c.entries s (omega arith)),
        ))

-- Storing keeps the cache within its bound and its keys distinct.
pub set-IsValid :
    (c : Cache) (key : String) (entry : Entry) (ttl : Float) (now : ℕ)
    → IsValid c
    → IsValid (set c key entry ttl now)
unfolding set
set-IsValid c key entry ttl now (s, b) =
    let stored : Entry = record entry { expires_at_epoch = some (fadd (ticks now) ttl) } in
    evict_if_needed-IsValid (record c { entries = put c.entries key stored })
      (put-Distinct c.entries key stored s)

-- What a lookup at the time `later` gives after a store that found room: of the key that was stored,
-- the entry until its time to live is over and nothing from then on; of any other key, what it gave
-- before.
pub lookup-set :
    (c : Cache) (key : String) (entry : Entry) (ttl now later : ℕ) (k : String)
    → length c.entries + 1 ≤ c.max_entries
    → lookup (set c key entry (ticks ttl) now) k later ≡ (
        if string_equality.equal key k
        then (if leb (now + ttl) later
            then none
            else some (record entry { expires_at_epoch = some (ticks (now + ttl)) }))
        else lookup c k later)
unfolding set evict_if_needed lookup
lookup-set c key entry ttl now later k h =
    let stored : Entry = record entry { expires_at_epoch = some (ticks (now + ttl)) } in
    let small : leb (length (put c.entries key stored)) c.max_entries ≡ true =
      ground (arith, length-put c.entries key stored) in
    ground (arith, small, get-put c.entries key k stored)
