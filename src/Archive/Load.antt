-- ===== src/Archive/Load.antt =====
-- `load_state` of native/s3-archive.py with its migrations, on the object that the state file holds.
-- `none` is an exception.
use swarm_kill_chain_medium.Prelude.{
  ◌-◌, String, Bool, true, false, ◌||◌, Option, none, some, [], ◌∷◌, string_equality, if◌then◌else◌,
}
use swarm_kill_chain_medium.Prelude.Int.{ℤ, pos, pos_part}
use swarm_kill_chain_medium.Dict.{Dict, get, put}
use swarm_kill_chain_medium.Json.{
  Json, null, str, obj, or_default, as_object, fields_of, to_fields, Python,
}
use swarm_kill_chain_medium.Cluster.Text.{append}
use swarm_kill_chain_medium.Cluster.Session.{at}
use swarm_kill_chain_medium.Cluster.Saved.{number, int_of}
use swarm_kill_chain_medium.Cluster.Format.{◌>>=◌}
use swarm_kill_chain_medium.Archive.Anchor.{anchor_bytes}
use swarm_kill_chain_medium.Monitor.Load.{has_version, no_entries, or_raise}

unfoldable pub default_state : Dict String Json
unfolding to_fields number
default_state =
    ("version", number (pos 3))
    ∷ ("current", null)
    ∷ ("lineages", no_entries)
    ∷ ("rotated", no_entries)
    ∷ ("uploaded_objects", number (pos 0))
    ∷ ("updated_at", null)
    ∷ []

abbrev demand : {A : Type 0} → Bool → A → Option A
demand test a = if test then some a else none

-- `d[k]`
abbrev item : Dict String Json → String → Option Json
item = get

module _ (python : Python) where
  abbrev int_or_raise : Json → Option ℤ
  int_or_raise value = or_raise (int_of python value)

  -- The lineage of the current file of version 1.
  unfoldable pub lineages_of_current : Json → Option (Dict String Json)
  unfolding number to_fields append int_of
  lineages_of_current (obj fields) = do
    device ← item (fields_of fields) "device"
    device_number ← int_or_raise device
    inode ← item (fields_of fields) "inode"
    inode_number ← int_or_raise inode
    offset ← int_or_raise (or_default (get (fields_of fields) "offset") (number (pos 0)))
    some (
        (
          append (python.str_of_int device_number) (append ":" (python.str_of_int inode_number)),
          obj (
              to_fields (
                ("generation", number (pos 0))
                ∷ ("offset", number offset)
                ∷ ("anchor", null)
                ∷ [])),
        )
        ∷ [])
  lineages_of_current _ = some []

  unfoldable pub from_1 : Dict String Json → Option (Dict String Json)
  unfolding number to_fields
  from_1 state =
      if has_version state 1
      then (do
        lineages ← lineages_of_current (at state "current")
        some (put (put state "version" (number (pos 2))) "lineages" (obj (to_fields lineages))))
      else some state

  -- The anchor of a digest, with the window that ends at the offset.
  abbrev pub anchor_of : String → ℤ → Json
  anchor_of digest offset = obj (
      to_fields (
        ("schema", str "patriotpot-archive-anchor/v1")
        ∷ ("offset", number offset)
        ∷ ("window_start", number (pos (pos_part offset - anchor_bytes)))
        ∷ ("sha256", str digest)
        ∷ []))

  abbrev pub with_anchor : Dict String Json → Json → Option Json
  with_anchor lineage (str digest) = do
    offset ← int_or_raise (or_default (get lineage "offset") (number (pos 0)))
    some (obj (to_fields (put lineage "anchor" (anchor_of digest offset))))
  with_anchor lineage null = some (obj (to_fields lineage))
  with_anchor lineage (obj fields) = some (obj (to_fields lineage))
  with_anchor lineage _ = none

  unfoldable pub upgrade_lineages : Dict String Json → Option (Dict String Json)
  unfolding number to_fields int_of
  upgrade_lineages [] = some []
  upgrade_lineages ((base, value) ∷ rest) = do
    lineage ← as_object value
    upgraded ← with_anchor lineage (at lineage "anchor")
    others ← upgrade_lineages rest
    some ((base, upgraded) ∷ others)

  -- The rest of `load_state`, which knows whether the version is 2.
  abbrev pub with_version_3 : Dict String Json → Dict String Json → Bool → Option (Dict String Json)
  with_version_3 state lineages true = do
    upgraded ← upgrade_lineages lineages
    some (put (put state "lineages" (obj (to_fields upgraded))) "version" (number (pos 3)))
  with_version_3 state lineages false = some state

  unfoldable pub from_2 : Dict String Json → Option (Dict String Json)
  unfolding number to_fields
  from_2 state = do
    lineages ← as_object (at state "lineages")
    with_version_3 state lineages (has_version state 2)

  unfoldable pub load_object : Dict String Json → Option (Dict String Json)
  unfolding to_fields
  load_object state = do
    supported ← demand (has_version state 1 || has_version state 2 || has_version state 3) state
    rotated ← as_object (or_default (get state "rotated") no_entries)
    second ← from_1 supported
    from_2 second

  -- What the file gives: it is missing, it cannot be read or is no JSON text, or it holds a value.
  abbrev pub load_state : Option (Option Json) → Option (Dict String Json)
  load_state none = some default_state
  load_state (some none) = none
  load_state (some (some value)) = as_object value >>= load_object
