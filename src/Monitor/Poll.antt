-- ===== src/Monitor/Poll.antt =====
-- `poll_once` of native/discord-monitor.py, with `regular_stat` and `locate_inode`: one round of the
-- monitor over the log, the clusters and both channels. Opening a file that was just found succeeds
-- here, and so does every save.
pub mod Laws
use swarm_kill_chain_medium.Prelude.{
  ℕ, String, Bool, true, false, not, ◌&&◌, ◌||◌, Option, none, some, List, [], ◌∷◌, ◌++◌, ltb, ◌==◌,
  if◌then◌else◌,
}
use swarm_kill_chain_medium.Prelude.Text.{Bytes}
use swarm_kill_chain_medium.Float.{Float}
use swarm_kill_chain_medium.Json.{Json, Python}
use swarm_kill_chain_medium.Monitor.Drain.{Turn, drain_pending}
use swarm_kill_chain_medium.Monitor.Flush.{flush_expired_clusters}
use swarm_kill_chain_medium.Monitor.State.{
  Source, Monitor, Effect, saved, legacy, intel, with_legacy, with_intel, flushing, with_flushing,
  drain_effects, flush_effects,
}
use swarm_kill_chain_medium.Monitor.Consume.{Round, Consumed, consume}

pub record Stat : Type 0 where
  pub device : ℕ
  pub inode : ℕ
  pub size : ℕ

-- What a path names: `lstat`, `is_file`, which follows a symbolic link, and `is_symlink`.
pub data Entry : Type 0 where
  missing : Entry
  present : Stat → Bool → Bool → Entry

unfoldable pub regular_stat : Entry → Option Stat
regular_stat missing = none
regular_stat (present stat is_file is_symlink) =
    if not is_file || is_symlink then none else some stat

-- A path that the pattern `LOG_PATH.name + "*"` matches, and what reading it would give.
pub record Candidate : Type 0 where
  pub entry : Entry
  pub rounds : ℕ → Round

abbrev is_inode : ℕ → ℕ → Option Stat → Bool
is_inode device inode none = false
is_inode device inode (some stat) = (stat.device == device) && (stat.inode == inode)

unfoldable pub locate_inode : ℕ → ℕ → List Candidate → Option Candidate
unfolding regular_stat
locate_inode device inode [] = none
locate_inode device inode (candidate ∷ rest) =
    if is_inode device inode (regular_stat candidate.entry)
    then some candidate
    else locate_inode device inode rest

-- What one round meets: the log, its candidates, what is read of it, the clock of the flush, and the
-- credentials and deliveries of the two channels.
pub record World : Type 0 where
  pub log : Entry
  pub candidates : List Candidate
  pub rounds : ℕ → Round
  pub flushed_at : Float
  pub legacy_webhook : Option String
  pub legacy_turns : ℕ → Turn
  pub intel_webhook : Option String
  pub intel_turns : ℕ → Turn

-- The lines taken of the prior file and of the current one, and whether no exception was raised.
pub record Polled : Type 0 where
  pub monitor : Monitor
  pub effects : List Effect
  pub prior_lines : List (ℕ × Bytes)
  pub lines : List (ℕ × Bytes)
  pub returned : Bool

-- `state["source"]` of the file with this stat, from its start.
abbrev pub from_start : Stat → Source
from_start stat = record { device = stat.device; inode = stat.inode; offset = 0 }

abbrev pub same_file : Source → Stat → Bool
same_file source stat = (source.device == stat.device) && (source.inode == stat.inode)

-- The source of the file, saved.
abbrev pub saving_source : Source → Monitor → Consumed
saving_source source m =
    let m' : Monitor = record m { source = some source } in
    record {
      offset = source.offset;
      monitor = m';
      effects = saved m' ∷ [];
      lines = [];
      ended = true;
    }

-- What comes after, with the effects before it.
abbrev pub before : List Effect → List (ℕ × Bytes) → Polled → Polled
before effects prior p = record p {
  effects = effects ++ p.effects;
  prior_lines = prior ++ p.prior_lines;
}

module _ (python : Python) (sha256 : Bytes → String) (sha256_text : String → String)
    (json_of : Bytes → Option Json) (enabled : Bool) (fuel : ℕ) where
  abbrev drain_legacy : World → Monitor → Monitor × List Effect
  drain_legacy world m =
      let drained =
        drain_pending world.legacy_turns world.legacy_webhook (legacy m) m.legacy_governor in
      (
        record (with_legacy m drained.state) { legacy_governor = drained.governor },
        drain_effects (with_legacy m) drained.effects,
      )

  abbrev drain_intel : World → Monitor → Monitor × List Effect
  drain_intel world m =
      let drained =
        drain_pending world.intel_turns world.intel_webhook (intel m) m.intel_governor in
      (
        record (with_intel m drained.state) { intel_governor = drained.governor },
        drain_effects (with_intel m) drained.effects,
      )

  -- The flush, and the two channels when it returned.
  unfoldable pub flush_and_drain : World → List (ℕ × Bytes) → Monitor → Polled
  flush_and_drain world lines m =
      let flushed = flush_expired_clusters python sha256_text world.flushed_at (flushing m) in
      let m' = with_flushing m flushed.state in
      let (m'', first) = drain_legacy world m' in
      let (last, second) = drain_intel world m'' in
      let events = flush_effects (with_flushing m) flushed.saves in
      if flushed.returned
      then record {
        monitor = last;
        effects = events ++ first ++ second;
        prior_lines = [];
        lines = lines;
        returned = true;
      }
      else record {
        monitor = m';
        effects = events;
        prior_lines = [];
        lines = lines;
        returned = false;
      }

  -- The current file from its source's offset.
  unfoldable pub consume_current : World → Source → Monitor → Polled
  consume_current world source m =
      let consumed = consume python sha256 json_of enabled fuel world.rounds source.offset m in
      before consumed.effects [] (flush_and_drain world consumed.lines consumed.monitor)

  -- The rest of a file that was rotated away, when it is found.
  abbrev pub consume_prior : Option Candidate → Source → Monitor → Consumed
  consume_prior none source m = record {
    offset = source.offset;
    monitor = m;
    effects = [];
    lines = [];
    ended = true;
  }
  consume_prior (some prior) source m =
      consume python sha256 json_of enabled fuel prior.rounds source.offset m

  unfoldable pub poll_file : World → Stat → Source → Monitor → Polled
  unfolding locate_inode
  poll_file world stat source m =
      let prior =
        consume_prior (locate_inode source.device source.inode world.candidates) source m in
      let rotated = saving_source (from_start stat) prior.monitor in
      let truncated = saving_source (record source { offset = 0 }) m in
      if same_file source stat
      then if ltb stat.size source.offset
        then before truncated.effects []
            (consume_current world (record source { offset = 0 }) truncated.monitor)
        else consume_current world source m
      else before (prior.effects ++ rotated.effects) prior.lines
          (consume_current world (from_start stat) rotated.monitor)

  abbrev poll_source : World → Stat → Option Source → Monitor → Polled
  poll_source world stat none m =
      let initial = saving_source (from_start stat) m in
      before initial.effects [] (poll_file world stat (from_start stat) initial.monitor)
  poll_source world stat (some source) m = poll_file world stat source m

  abbrev poll_stat : World → Option Stat → Monitor → Polled
  poll_stat world none m = flush_and_drain world [] m
  poll_stat world (some stat) m = poll_source world stat m.source m

  unfoldable pub poll_once : World → Monitor → Polled
  unfolding regular_stat
  poll_once world m = poll_stat world (regular_stat world.log) m
