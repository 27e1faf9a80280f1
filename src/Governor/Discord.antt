-- ===== src/Governor/Discord.antt =====
-- native/discord_rate_governor.py: pacing and cooldown of one Discord webhook. The reading of the
-- clock that a method takes is its argument `now`.
pub mod Pacing
pub mod Episode
use swarm_kill_chain_medium.Prelude.{
  ℕ, Bool, true, false, not, ◌&&◌, Option, none, some, max, if◌then◌else◌,
}
use swarm_kill_chain_medium.Float.{Float, ticks, second, fle, fmax, fmin, fadd}

pub record Governor : Type 0 where
  pub min_interval : ℕ
  pub default_cooldown : ℕ
  pub max_cooldown : ℕ
  pub next_allowed_at : Float
  pub cooldown_until : Float
  pub degraded : Bool
  pub suppressed : ℕ

-- `DiscordRateGovernor(min_interval_seconds=...)` with the module's default cooldowns.
abbrev pub new_governor : ℕ → Governor
new_governor interval = record {
  min_interval = interval;
  default_cooldown = 30000;
  max_cooldown = 300000;
  next_allowed_at = ticks 0;
  cooldown_until = ticks 0;
  degraded = false;
  suppressed = 0;
}

unfoldable pub can_send : Governor → ℕ → Bool
unfolding fle
can_send g now = fle g.cooldown_until (ticks now) && fle g.next_allowed_at (ticks now)

unfoldable pub note_send_attempt : Governor → ℕ → Governor
unfolding fadd
note_send_attempt g now = record g { next_allowed_at = fadd (ticks now) (ticks g.min_interval) }

-- The largest backlog seen while degraded stands for the number held back.
unfoldable pub note_blocked : Governor → ℕ → Governor
note_blocked g queue_depth =
    if g.degraded then record g { suppressed = max g.suppressed queue_depth } else g

-- The new state, whether delivery has just recovered, and the number held back.
unfoldable pub note_success : Governor → Governor × Bool × ℕ
note_success g =
    if g.degraded
    then (record g { degraded = false; suppressed = 0 }, true, g.suppressed)
    else (g, false, 0)

-- The cooldown asked for, clamped between one second and the maximum.
unfoldable pub backoff : Governor → Option Float → Float
unfolding fmax fmin
backoff g none = fmin (fmax (ticks g.default_cooldown) (ticks second)) (ticks g.max_cooldown)
backoff g (some retry_after) = fmin (fmax retry_after (ticks second)) (ticks g.max_cooldown)

-- How a send that was let through can end, in `drain_pending`.
pub data Outcome : Type 0 where
  delivered : Outcome
  refused : ℕ → Option Float → Outcome
  abandoned : Outcome

-- The flag says that degraded mode was newly entered.
unfoldable pub note_rate_limited : Governor → ℕ → Option Float → Governor × Bool
unfolding fadd
note_rate_limited g now retry_after = (
  record g { cooldown_until = fadd (ticks now) (backoff g retry_after); degraded = true },
  not g.degraded,
)

-- The calls that `drain_pending` makes after an attempt, by its outcome.
unfoldable pub settle : Governor → Outcome → Governor
unfolding note_success note_rate_limited
settle g delivered = (note_success g).0
settle g (refused now retry_after) = (note_rate_limited g now retry_after).0
settle g abandoned = g
