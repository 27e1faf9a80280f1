-- ===== src/Governor/Provider.antt =====
-- native/threat_intel/rate_governor.py: one governor for a threat-intelligence service, whatever
-- the observable. The reading of the clock that a method takes is its argument `now`.
pub mod Backoff
use swarm_kill_chain_medium.Prelude.{
  ℕ, ◌+◌, ◌-◌, ◌*◌, ◌^◌, Bool, true, false, ◌&&◌, Option, none, some, leb, if◌then◌else◌,
}
use swarm_kill_chain_medium.Float.{Float, ticks, second, fle, fmax, fmin, fadd}

pub record Governor : Type 0 where
  pub min_interval : ℕ
  pub default_cooldown : ℕ
  pub max_cooldown : ℕ
  pub next_allowed_at : Float
  pub cooldown_until : Float
  pub unretriable : ℕ

abbrev pub new_governor : Governor
new_governor = record {
  min_interval = 200;
  default_cooldown = 30000;
  max_cooldown = 600000;
  next_allowed_at = ticks 0;
  cooldown_until = ticks 0;
  unretriable = 0;
}

unfoldable pub can_call : Governor → ℕ → Bool
unfolding fle
can_call g now = fle g.cooldown_until (ticks now) && fle g.next_allowed_at (ticks now)

unfoldable pub note_call_attempt : Governor → ℕ → Governor
unfolding fadd
note_call_attempt g now = record g { next_allowed_at = fadd (ticks now) (ticks g.min_interval) }

unfoldable pub note_success : Governor → Governor
note_success g = record g { unretriable = 0 }

-- Python converts the integer 2 ** e to a float to multiply it: from e = 1024 on that raises
-- OverflowError, here `none`.
unfoldable pub exponential : ℕ → ℕ → Option ℕ
exponential cooldown e = if leb 1024 e then none else some (cooldown * 2 ^ e)

-- The new state, and whether the call returned: the counter has been raised by the time that the
-- multiplication overflows, and the cooldown has not been set.
unfoldable pub back_off : Governor → ℕ → Option ℕ → Governor × Bool
unfolding fmin fadd
back_off g now none = (g, false)
back_off g now (some b) =
    (record g { cooldown_until = fadd (ticks now) (fmin (ticks b) (ticks g.max_cooldown)) }, true)

unfoldable pub note_rate_limited : Governor → ℕ → Option Float → Governor × Bool
unfolding exponential back_off fmin fmax fadd
note_rate_limited g now (some retry_after) = (
  record g {
    cooldown_until =
        fadd (ticks now) (fmin (fmax retry_after (ticks second)) (ticks g.max_cooldown));
    unretriable = 0;
  },
  true,
)
note_rate_limited g now none =
    let counted : Governor = record g { unretriable = g.unretriable + 1 } in
    back_off counted now (exponential g.default_cooldown (counted.unretriable - 1))
