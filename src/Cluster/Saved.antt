-- ===== src/Cluster/Saved.antt =====
-- Clusters as values of the state file: `to_dict` and `from_dict` of `SessionCluster`, `to_state` and
-- `restore_state` of its manager (native/session_cluster.py). A count is a number of whole units.
pub mod Laws
use swarm_kill_chain_medium.Prelude.{
  ℕ, zero, suc, ◌+◌, ◌-◌, ◌*◌, ◌/◌, String, Bool, true, false, Option, none, some, List, [], ◌∷◌,
  ◌++◌, map, string_equality, if◌then◌else◌,
}
use swarm_kill_chain_medium.Prelude.Int.{ℤ, pos, negsuc, sub_ℕ}
use swarm_kill_chain_medium.Float.{Float, finite, inf, minus_inf, nan, ticks}
use swarm_kill_chain_medium.Dict.{Dict, get, put, keys, elem}
use swarm_kill_chain_medium.Dict.Texts.{sort_texts}
use swarm_kill_chain_medium.Json.{
  Json, null, bool, num, str, arr, obj, truthy, or_null, or_default, as_object, fields_of,
  to_fields, items_of, to_items, Python,
}
use swarm_kill_chain_medium.Cluster.Session.{Cluster}

-- What a conversion gives, and the exceptions: `KeyError`, `TypeError` and `ValueError`, which the
-- callers catch, and `OverflowError`, which they do not.
pub data Read (A : Type 0) : Type 0 where
  got : A → Read A
  unreadable : Read A
  overflow : Read A

infixl 5 ◌>>=◌
abbrev pub ◌>>=◌ : {A B : Type 0} → Read A → (A → Read B) → Read B
got a >>= f = f a
unreadable >>= f = unreadable
overflow >>= f = overflow

abbrev or_unreadable : {A : Type 0} → Option A → Read A
or_unreadable none = unreadable
or_unreadable (some a) = got a

-- An integer as a value of the file, and back: `int` of a number leaves out its fraction.
unfoldable pub number : ℤ → Json
number (pos n) = num (finite (pos (n * 1000)))
number (negsuc n) = num (finite (negsuc (suc n * 1000 - 1)))

unfoldable pub whole : ℤ → ℤ
whole (pos n) = pos (n / 1000)
whole (negsuc n) = sub_ℕ 0 (suc n / 1000)

abbrev pub texts : List String → List Json
texts = map str

-- Python's sets of texts, without an order.
unfoldable pub set_of : List String → List String
set_of [] = []
set_of (k ∷ ks) = let rest = set_of ks in if elem k rest then rest else k ∷ rest

unfoldable pub to_dict : Cluster → Json
unfolding to_fields to_items number sort_texts
to_dict c = obj (
    to_fields (
      ("key", c.key)
      ∷ ("src_ip", c.src_ip)
      ∷ ("session_id", c.session_id)
      ∷ ("created_at", num c.created_at)
      ∷ ("last_activity_at", num c.last_activity_at)
      ∷ ("first_seen_iso", c.first_seen_iso)
      ∷ ("last_seen_iso", c.last_seen_iso)
      ∷ ("raw_event_count", number c.raw_event_count)
      ∷ ("authenticated", bool c.authenticated)
      ∷ ("username", c.username)
      ∷ ("password", c.password)
      ∷ ("commands", arr (to_items c.commands))
      ∷ ("suspicious_commands", arr (to_items c.suspicious_commands))
      ∷ ("files_downloaded", arr (to_items c.files_downloaded))
      ∷ ("files_uploaded", arr (to_items c.files_uploaded))
      ∷ ("alerted_event_kinds", arr (to_items (texts (sort_texts c.alerted_event_kinds))))
      ∷ []))

unfoldable pub characters : String → List Json
characters String.[] = []
characters (String.◌∷◌ c s) = str (String.◌∷◌ c String.[]) ∷ characters s

-- `list(x)`
unfoldable pub list_of : Json → Read (List Json)
unfolding items_of characters fields_of
list_of (arr xs) = got (items_of xs)
list_of (str s) = got (characters s)
list_of (obj fs) = got (texts (keys (fields_of fs)))
list_of _ = unreadable

-- `set(x)`: a list or a dictionary is no element of a set. Elements that are no texts, which `to_dict` never
-- writes, are left out, since they equal no kind of event; Python keeps them, and its next `to_dict` can
-- raise when it sorts them.
unfoldable pub kinds_of : List Json → Read (List String)
kinds_of [] = got []
kinds_of (str s ∷ xs) = kinds_of xs >>= λ ks. got (s ∷ ks)
kinds_of (arr ys ∷ xs) = unreadable
kinds_of (obj fs ∷ xs) = unreadable
kinds_of (x ∷ xs) = kinds_of xs

abbrev list_at : Dict String Json → String → Read (List Json)
list_at d k = list_of (or_default (get d k) (arr (to_items [])))

module _ (python : Python) where
  -- `float(x)`
  unfoldable pub float_of : Json → Read Float
  float_of (num x) = got x
  float_of (bool b) = got (if b then ticks 1000 else ticks 0)
  float_of (str s) = or_unreadable (python.float_of_text s)
  float_of _ = unreadable

  -- `int(x)`
  unfoldable pub int_of : Json → Read ℤ
  unfolding whole
  int_of (num (finite z)) = got (whole z)
  int_of (num nan) = unreadable
  int_of (num x) = overflow
  int_of (bool b) = got (if b then pos 1 else pos 0)
  int_of (str s) = or_unreadable (python.int_of_text s)
  int_of _ = unreadable

  unfoldable pub cluster_of : Dict String Json → Read Cluster
  unfolding float_of int_of list_of kinds_of truthy set_of to_items
  cluster_of d = do
    key ← or_unreadable (get d "key")
    created_at ← float_of (or_default (get d "created_at") (num (ticks 0)))
    last_activity_at ← float_of (or_default (get d "last_activity_at") (num created_at))
    raw_event_count ← int_of (or_default (get d "raw_event_count") (num (ticks 0)))
    commands ← list_at d "commands"
    suspicious_commands ← list_at d "suspicious_commands"
    files_downloaded ← list_at d "files_downloaded"
    files_uploaded ← list_at d "files_uploaded"
    alerted ← list_at d "alerted_event_kinds"
    alerted_event_kinds ← kinds_of alerted
    got (record {
      key = key;
      src_ip = or_default (get d "src_ip") (str "unknown");
      session_id = or_null (get d "session_id");
      created_at = created_at;
      last_activity_at = last_activity_at;
      first_seen_iso = or_null (get d "first_seen_iso");
      last_seen_iso = or_null (get d "last_seen_iso");
      raw_event_count = raw_event_count;
      authenticated = truthy (or_default (get d "authenticated") (bool false));
      username = or_null (get d "username");
      password = or_null (get d "password");
      commands = commands;
      suspicious_commands = suspicious_commands;
      files_downloaded = files_downloaded;
      files_uploaded = files_uploaded;
      alerted_event_kinds = set_of alerted_event_kinds;
    })

  -- `data["key"]` of a value that is no dictionary raises `TypeError`.
  unfoldable pub from_dict : Json → Read Cluster
  unfolding cluster_of
  from_dict saved = or_unreadable (as_object saved) >>= cluster_of

  -- One entry: one that is unreadable is left out.
  unfoldable pub keep_entry :
      Dict String Cluster → String → Read Cluster → Read (Dict String Cluster)
  keep_entry clusters key (got c) = got (put clusters key c)
  keep_entry clusters key unreadable = got clusters
  keep_entry clusters key overflow = overflow

  -- The clusters so far, and the entries to come.
  unfoldable pub restore_onto : Dict String Cluster → Dict String Json → Read (Dict String Cluster)
  restore_onto clusters [] = got clusters
  restore_onto clusters ((key, saved) ∷ rest) =
      keep_entry clusters key (from_dict saved) >>= λ more. restore_onto more rest

  unfoldable pub restore_state : Dict String Json → Read (Dict String Cluster)
  unfolding restore_onto
  restore_state persisted = restore_onto [] persisted

unfoldable pub to_state : Dict String Cluster → Dict String Json
unfolding to_dict
to_state [] = []
to_state ((key, c) ∷ clusters) = (key, to_dict c) ∷ to_state clusters
