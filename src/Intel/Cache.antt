-- ===== src/Intel/Cache.antt =====
-- `EnrichmentCache` of native/threat_intel/cache.py, its entries in memory. The file is not modelled; an
-- entry is a dictionary as the class itself writes it, where `expires_at_epoch` is a number or missing.
pub mod Laws
use swarm_kill_chain_medium.Prelude.{
  ℕ, ◌-◌, String, Bool, true, false, Option, none, some, List, [], ◌∷◌, length, take, leb,
  string_equality, if◌then◌else◌,
}
use swarm_kill_chain_medium.Float.{Float, ticks, flt, fle, fadd}
use swarm_kill_chain_medium.Dict.{Dict, get, put, remove_all, keys}
use swarm_kill_chain_medium.Dict.Sorting.{sort_items}
use swarm_kill_chain_medium.Json.{Json}
use swarm_kill_chain_medium.Cluster.Text.{append}

pub record Entry : Type 0 where
  pub content : Dict String Json
  pub expires_at_epoch : Option Float

pub record Cache : Type 0 where
  pub max_entries : ℕ
  pub entries : Dict String Entry

unfoldable pub cache_key : String → String → String → String
unfolding append
cache_key provider observable_type observable =
    append provider (append ":" (append observable_type (append ":" observable)))

-- `entry.get("expires_at_epoch", 0)`
abbrev pub expiry_or_zero : Option Float → Float
expiry_or_zero none = ticks 0
expiry_or_zero (some t) = t

abbrev pub expires_before : Entry → Entry → Bool
expires_before a b = flt (expiry_or_zero a.expires_at_epoch) (expiry_or_zero b.expires_at_epoch)

abbrev pub unexpired : ℕ → Option Entry → Option Entry
unexpired now none = none
unexpired now (some entry) =
    if fle (expiry_or_zero entry.expires_at_epoch) (ticks now) then none else some entry

-- `get(key)`, when the clock reads `now`.
unfoldable pub lookup : Cache → String → ℕ → Option Entry
unfolding fle
lookup c key now = unexpired now (get c.entries key)

-- The entries that expire first leave, where there are too many.
unfoldable pub evict_if_needed : Cache → Cache
unfolding sort_items flt
evict_if_needed c =
    if leb (length c.entries) c.max_entries
    then c
    else let overflow = length c.entries - c.max_entries in
      record c {
        entries = remove_all c.entries (keys (take overflow (sort_items expires_before c.entries)));
      }

-- `set(key, entry, ttl_seconds)`, when the clock reads `now`, without the file.
unfoldable pub set : Cache → String → Entry → Float → ℕ → Cache
unfolding fadd evict_if_needed
set c key entry ttl_seconds now =
    let stored : Entry = record entry { expires_at_epoch = some (fadd (ticks now) ttl_seconds) } in
    evict_if_needed (record c { entries = put c.entries key stored })
