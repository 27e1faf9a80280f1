-- ===== src/Intel/Parameters.antt =====
-- native/threat_intel/parameter_store.py: the cached parameters of the providers. What the `aws` command
-- does is an argument; the log is left out, with the flag that limits it.
pub mod Laws
use swarm_kill_chain_medium.Prelude.{
  ℕ, ◌+◌, String, Bool, true, false, not, ◌&&◌, ◌||◌, Option, none, some, List, [], ◌∷◌, ltb, ◌==◌,
  string_equality, if◌then◌else◌,
}
use swarm_kill_chain_medium.Dict.{Dict, get, put, keys}
use swarm_kill_chain_medium.Dict.Texts.{sort_texts}
use swarm_kill_chain_medium.Json.{Python}

-- `subprocess.run`: it raises `OSError` or `TimeoutExpired`, or gives a return code and a text.
pub data Ran : Type 0 where
  not_run : Ran
  exited : ℕ → String → Ran

-- Times are in milliseconds. `warned_unavailable` is kept for the log.
pub record Parameter : Type 0 where
  pub parameter_name : String
  pub refresh_seconds : ℕ
  pub value : Option String
  pub next_refresh : ℕ
  pub warned_unavailable : Bool

abbrev pub new_parameter : String → Parameter
new_parameter name = record {
  parameter_name = name;
  refresh_seconds = 300000;
  value = none;
  next_refresh = 0;
  warned_unavailable = false;
}

-- The value that `get` returns, the cache after it, and whether the command was run.
pub record Got : Type 0 where
  pub value : Option String
  pub cache : Parameter
  pub called : Bool

abbrev pub stripped : Python → Ran → String
stripped python not_run = ""
stripped python (exited code stdout) = if code == 0 then python.strip stdout else ""

abbrev pub is_value : String → Bool
is_value candidate =
    not (string_equality.equal candidate "") && not (string_equality.equal candidate "None")

-- The end of `get` for a command that was run.
unfoldable pub keep_candidate : String → Parameter → Got
keep_candidate candidate c =
    if is_value candidate
    then record {
      value = some candidate;
      cache = record c { value = some candidate; warned_unavailable = false };
      called = true;
    }
    else record {
      value = none;
      cache = record c { value = none; warned_unavailable = true };
      called = true;
    }

module _ (python : Python) where
  abbrev pub refreshed : Ran → Parameter → Got
  refreshed not_run c = record {
    value = none;
    cache = record c { warned_unavailable = true };
    called = true;
  }
  refreshed (exited code stdout) c = keep_candidate (stripped python (exited code stdout)) c

  unfoldable pub get_value : Bool → ℕ → Ran → Parameter → Got
  unfolding keep_candidate
  get_value force now ran c =
      if not force && ltb now c.next_refresh
      then record { value = c.value; cache = c; called = false }
      else refreshed ran (record c { next_refresh = now + c.refresh_seconds })

-- `ParameterRegistry`
abbrev pub Registry : Type 0
Registry = Dict String Parameter

-- A provider with an empty parameter name has no cache.
unfoldable pub new_registry : Dict String String → Registry
new_registry [] = []
new_registry ((provider, name) ∷ rest) =
    let caches = new_registry rest in
    if string_equality.equal name "" then caches else (provider, new_parameter name) ∷ caches

module _ (python : Python) where
  abbrev registered : Registry → String → ℕ → Ran → Option Parameter → Option String × Registry
  registered caches provider now ran none = (none, caches)
  registered caches provider now ran (some cache) =
      let got = get_value python false now ran cache in (got.value, put caches provider got.cache)

  unfoldable pub get_registered : Registry → String → ℕ → Ran → Option String × Registry
  get_registered caches provider now ran = registered caches provider now ran (get caches provider)

unfoldable pub configured_providers : Registry → List String
unfolding sort_texts
configured_providers caches = sort_texts (keys caches)
