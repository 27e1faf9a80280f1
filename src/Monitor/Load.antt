-- ===== src/Monitor/Load.antt =====
-- `load_state` of native/discord-monitor.py with its migrations, on the object that the state file holds,
-- and `require_read_only_source`. `none` is an exception.
use swarm_kill_chain_medium.Prelude.{
  ℕ, ◌*◌, String, Bool, true, false, ◌&&◌, ◌||◌, Option, none, some, List, [], ◌∷◌, length, ◌==◌,
  string_equality, if◌then◌else◌,
}
use swarm_kill_chain_medium.Prelude.Int.{pos, ◌+ℤ◌}
use swarm_kill_chain_medium.Float.{finite}
use swarm_kill_chain_medium.Dict.{Dict, get, put, remove}
use swarm_kill_chain_medium.Json.{
  Json, null, bool, num, str, arr, obj, or_null, or_default, as_object, to_fields, items_of,
  to_items, Python,
}
use swarm_kill_chain_medium.Cluster.Saved.{Read, got, unreadable, overflow, number, int_of}
use swarm_kill_chain_medium.Cluster.Format.{◌>>=◌}
use swarm_kill_chain_medium.Monitor.Queue.{append_bounded, max_seen, max_dead}

-- What opening the source for writing does: it succeeds, or fails with one of the error numbers.
pub data OpenedForWrite : Type 0 where
  writable : OpenedForWrite
  eacces eperm erofs enoent : OpenedForWrite
  other_error : OpenedForWrite

-- Whether the function returns.
unfoldable pub require_read_only_source : OpenedForWrite → Bool
require_read_only_source eacces = true
require_read_only_source eperm = true
require_read_only_source erofs = true
require_read_only_source enoent = true
require_read_only_source writable = false
require_read_only_source other_error = false

abbrev pub no_items : Json
no_items = arr (to_items [])

abbrev pub no_entries : Json
no_entries = obj (to_fields [])

unfoldable pub default_state : Dict String Json
unfolding to_items to_fields number
default_state =
    ("version", number (pos 4))
    ∷ ("source", null)
    ∷ ("seen", no_items)
    ∷ ("pending_legacy", no_items)
    ∷ ("pending_intel", no_items)
    ∷ ("dead_letters", no_items)
    ∷ ("replay_suppressed", number (pos 0))
    ∷ ("initialized_at", null)
    ∷ ("updated_at", null)
    ∷ ("clusters", no_entries)
    ∷ ("flushed_awaiting_enrichment", no_entries)
    ∷ []

-- `value == n`, which a float and, for 1, `True` can be too.
unfoldable pub equals_int : Json → ℕ → Bool
equals_int (num (finite (pos m))) n = m == n * 1000
equals_int (bool b) n = if b then n == 1 else n == 0
equals_int _ n = false

abbrev pub has_version : Dict String Json → ℕ → Bool
has_version d n = equals_int (or_null (get d "version")) n

abbrev is_list : Json → Bool
is_list (arr xs) = true
is_list _ = false

abbrev is_dict : Json → Bool
is_dict (obj fs) = true
is_dict _ = false

abbrev has_list : Dict String Json → String → Bool
has_list d k = is_list (or_null (get d k))

-- The checks of the format.
unfoldable pub is_supported : Dict String Json → Bool
unfolding equals_int
is_supported d =
    let old = has_version d 1 || has_version d 2 || has_version d 3 in
    (old || has_version d 4)
    && has_list d "seen"
    && has_list d "dead_letters"
    && (if old
        then has_list d "pending"
        else has_list d "pending_legacy" && has_list d "pending_intel")

-- `d.setdefault(k, default)`
abbrev set_default : Dict String Json → String → Json → Dict String Json
set_default d k default = elim (get d k) [ none ↦ put d k default | some value ↦ d ]

unfoldable pub from_1 : Dict String Json → Dict String Json
unfolding number equals_int
from_1 d =
    if has_version d 1
    then set_default (put d "version" (number (pos 2))) "replay_suppressed" (number (pos 0))
    else d

unfoldable pub from_2 : Dict String Json → Dict String Json
unfolding number equals_int
from_2 d = if has_version d 2 then put d "version" (number (pos 3)) else d

-- A value that is no dictionary is replaced.
unfoldable pub ensure_dict : String → Dict String Json → Dict String Json
unfolding to_fields
ensure_dict k d = if is_dict (or_null (get d k)) then d else put d k no_entries

unfoldable pub from_3 : Dict String Json → Dict String Json
unfolding number to_items equals_int
from_3 d =
    if has_version d 3
    then put
        (put (put (remove d "pending") "pending_legacy" (or_default (get d "pending") no_items))
          "pending_intel" no_items)
        "version" (number (pos 4))
    else d

unfoldable pub migrate : Dict String Json → Dict String Json
unfolding from_1 from_2 from_3 ensure_dict
migrate d =
    from_3 (ensure_dict "flushed_awaiting_enrichment" (ensure_dict "clusters" (from_2 (from_1 d))))

abbrev array_at : Dict String Json → String → Option (List Json)
array_at d k = elim (or_null (get d k)) [ arr xs ↦ some (items_of xs) | other ↦ none ]

abbrev pub or_raise : {A : Type 0} → Read A → Option A
or_raise (got a) = some a
or_raise unreadable = none
or_raise overflow = none

-- The loop over the pending items, with the dead letters and `seen`; `item.get` of a value that is no
-- dictionary raises.
unfoldable pub bury_items : List Json → List Json × List Json → Option (List Json × List Json)
unfolding append_bounded to_fields
bury_items [] (dead_letters, seen) = some (dead_letters, seen)
bury_items (item ∷ rest) (dead_letters, seen) = do
  fields ← as_object item
  bury_items rest (
    append_bounded dead_letters
        (obj (
          to_fields
            (("id", or_null (get fields "id")) ∷ ("reason", str "restart_replay_suppressed") ∷ [])))
        max_dead,
    append_bounded seen (or_null (get fields "id")) max_seen,
  )

module _ (python : Python) where
  -- The channel's items, which are not empty.
  unfoldable pub bury_channel : String → List Json → Dict String Json → Option (Dict String Json)
  unfolding items_of bury_items int_of number to_items ◌+ℤ◌
  bury_channel key pending d = do
    dead_letters ← array_at d "dead_letters"
    seen ← array_at d "seen"
    buried ← bury_items pending (dead_letters, seen)
    count ← or_raise (int_of python (or_default (get d "replay_suppressed") (number (pos 0))))
    some (
        put
          (put
            (put (put d "dead_letters" (arr (to_items buried.0))) "seen" (arr (to_items buried.1)))
            "replay_suppressed" (number (count +ℤ pos (length pending))))
          key no_items)

  abbrev suppress_items : String → List Json → Dict String Json → Option (Dict String Json)
  suppress_items key [] d = some d
  suppress_items key (item ∷ rest) d = bury_channel key (item ∷ rest) d

  unfoldable pub suppress_channel : String → Dict String Json → Option (Dict String Json)
  unfolding bury_channel items_of
  suppress_channel key d = array_at d key >>= λ pending. suppress_items key pending d

  unfoldable pub load_object : Dict String Json → Option (Dict String Json)
  load_object d =
      if is_supported d
      then suppress_channel "pending_legacy" (migrate d) >>= suppress_channel "pending_intel"
      else none

  -- What the file gives: it is missing, it cannot be read or is no JSON text, or it holds a value.
  abbrev pub load_state : Option (Option Json) → Option (Dict String Json)
  load_state none = some default_state
  load_state (some none) = none
  load_state (some (some value)) = as_object value >>= load_object
