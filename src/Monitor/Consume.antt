-- ===== src/Monitor/Consume.antt =====
-- `consume` of native/discord-monitor.py: the complete lines of a log file from an offset on.
pub mod Laws
use swarm_kill_chain_medium.Prelude.{
  ℕ, zero, suc, ◌+◌, String, Bool, true, false, Option, none, some, List, [], ◌∷◌, ◌++◌, take, drop,
  length,
}
use swarm_kill_chain_medium.Prelude.Text.{Bytes}
use swarm_kill_chain_medium.Float.{Float}
use swarm_kill_chain_medium.Json.{Json, Python}
use swarm_kill_chain_medium.Archive.Records.{find_lf}
use swarm_kill_chain_medium.Monitor.Drain.{Turn, drain_pending}
use swarm_kill_chain_medium.Monitor.Intake.{queue_line}
use swarm_kill_chain_medium.Monitor.State.{
  Source, Monitor, Effect, saved, legacy, with_legacy, intake, with_intake, drain_effects,
}

-- What a round of the loop meets: the file's content, the clocks, the credential and the deliveries.
pub record Round : Type 0 where
  pub content : Bytes
  pub now : Float
  pub timestamp : String
  pub webhook : Option String
  pub turns : ℕ → Turn

-- `lines` are the lines that were taken, each with the offset behind it; `ended` tells whether the loop
-- came to its end within the fuel.
pub record Consumed : Type 0 where
  pub offset : ℕ
  pub monitor : Monitor
  pub effects : List Effect
  pub lines : List (ℕ × Bytes)
  pub ended : Bool

-- `handle.readline()` at the offset, when it ends with LF.
unfoldable pub line_at : Bytes → ℕ → Option Bytes
unfolding find_lf
line_at content offset = elim (find_lf (drop offset content)) [
  | none ↦ none
  | some newline ↦ some (take (suc newline) (drop offset content))
]

-- `state["source"]["offset"] = offset`; the callers have set the source.
abbrev pub moved_to : ℕ → Option Source → Option Source
moved_to offset none = none
moved_to offset (some source) = some (record source { offset = offset })

module _ (python : Python) (sha256 : Bytes → String) (json_of : Bytes → Option Json)
    (enabled : Bool) where
  -- The line is absorbed, and the offset behind it saved with it.
  unfoldable pub take_in : Round → Bytes → ℕ → Monitor → Monitor
  take_in round line offset m =
      let taken =
        with_intake m
          (queue_line python sha256 json_of enabled round.now round.timestamp line (intake m)) in
      record taken { source = moved_to offset taken.source }

  abbrev pub deliver : Round → Monitor → Monitor × List Effect
  deliver round m =
      let drained = drain_pending round.turns round.webhook (legacy m) m.legacy_governor in
      (
        record (with_legacy m drained.state) { legacy_governor = drained.governor },
        drain_effects (with_legacy m) drained.effects,
      )

  -- A round with the line that it reads; `go_on` is the loop after it.
  unfoldable pub on_line : Round → ℕ → Monitor → (ℕ → Monitor → Consumed) → Option Bytes → Consumed
  on_line round offset m go_on none = record {
    offset = offset;
    monitor = m;
    effects = [];
    lines = [];
    ended = true;
  }
  on_line round offset m go_on (some line) =
      let next = offset + length line in
      let absorbed = take_in round line next m in
      let (delivered, posts) = deliver round absorbed in
      let rest = go_on next delivered in
      record rest {
        effects = saved absorbed ∷ (posts ++ rest.effects);
        lines = (next, line) ∷ rest.lines;
      }

  unfoldable pub consume_loop : ℕ → (ℕ → Round) → ℕ → ℕ → Monitor → Consumed
  consume_loop zero world n offset m = record {
    offset = offset;
    monitor = m;
    effects = [];
    lines = [];
    ended = false;
  }
  consume_loop (suc fuel) world n offset m =
      on_line (world n) offset m (λ next delivered. consume_loop fuel world (suc n) next delivered)
        (line_at (world n).content offset)

  -- A round consumes a byte at least.
  unfoldable pub consume : ℕ → (ℕ → Round) → ℕ → Monitor → Consumed
  unfolding consume_loop
  consume fuel world start m = consume_loop fuel world 0 start m
