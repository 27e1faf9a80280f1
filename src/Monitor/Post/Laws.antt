-- ===== src/Monitor/Post/Laws.antt =====
-- What every post has, and which credentials are used (native/discord-monitor.py).
use swarm_kill_chain_medium.Prelude.{
  ◌+◌, ◌≤◌, ◌<◌, ◌⊎◌, ℕ, ◌≡◌, refl, ◌∙◌, String, Bool, true, false, not, ◌&&◌, Option, none, some,
  string_equality,
}
use swarm_kill_chain_medium.Dict.{Dict, get}
use swarm_kill_chain_medium.Dict.Laws.{get-put, get-put_self}
use swarm_kill_chain_medium.Json.{Json, Python}
use swarm_kill_chain_medium.Intel.Parameters.{Ran, not_run, stripped}
use swarm_kill_chain_medium.Monitor.Post.{outbound, no_mentions, is_webhook, Credential, Fetched}

-- Every payload that is sent forbids all mentions, whatever the payload says itself, and has every
-- other key as the payload has it.
pub outbound-mentions :
    (payload : Dict String Json) (k : String)
    → string_equality.equal "allowed_mentions" k ≡ false
    → (get (outbound payload) "allowed_mentions" ≡ some no_mentions)
      × (get (outbound payload) k ≡ get payload k)
unfolding outbound
outbound-mentions payload k other = (
  get-put_self payload "allowed_mentions" _,
  get-put payload "allowed_mentions" k _ ∙ rw other refl,
)

-- A value that is there is the address of a webhook.
abbrev pub IsChecked : Option String → Type 0
IsChecked none = Unit
IsChecked (some url) = is_webhook url ≡ true

-- The two values after a call that found this text: the text, where it is the address of a webhook, and
-- nothing otherwise.
abbrev pub IsResult : String → Option String → Type 0
IsResult candidate value =
    ((is_webhook candidate ≡ true) × (value ≡ some candidate))
    ⊎ (((not (string_equality.equal candidate "") && is_webhook candidate) ≡ false)
        × (value ≡ none))

module _ (python : Python) where
  -- How a call can go: the value that is still fresh is handed out and nothing changes; the command raises
  -- and the value stays, to be read again after five minutes; or the value is what the command gave.
  abbrev pub Gets : Bool → ℕ → Ran → Credential → Fetched → Type 0
  Gets force now ran c f =
      ((force ≡ false) × (now < c.next_refresh) × (f.value ≡ c.value) × (f.cache ≡ c))
      ⊎ (((force ≡ true) ⊎ (c.next_refresh ≤ now))
          × (f.cache.next_refresh ≡ now + 300000)
          × (((ran ≡ not_run) × (f.returned ≡ false) × (f.cache.value ≡ c.value))
              ⊎ ((f.returned ≡ true)
                  × (f.cache.value ≡ f.value)
                  × IsResult (stripped python ran) f.value)))
