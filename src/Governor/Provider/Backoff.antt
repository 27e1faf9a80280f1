-- ===== src/Governor/Provider/Backoff.antt =====
-- The back-off of a provider that refuses calls (native/threat_intel/rate_governor.py).
use mathlib.Core.List.{foldl}
use swarm_kill_chain_medium.Prelude.{
  ℕ, ◌+◌, ◌-◌, ◌*◌, ◌^◌, ◌≤◌, ◌<◌, ◌≡◌, refl, ◌∙◌, true, false, ◌&&◌, none, List, [], ◌∷◌, arith,
  min, leb, length,
}
use swarm_kill_chain_medium.Float.{ticks, fle, fmin}
use swarm_kill_chain_medium.Governor.Provider.{
  Governor, can_call, note_success, exponential, note_rate_limited,
}

-- Refusals at the given times, none of which names a delay.
unfoldable pub refusals : Governor → List ℕ → Governor
refusals g = foldl (λ h now. (note_rate_limited h now none).0) g

counter-refusal :
    (g : Governor) (now : ℕ) → (note_rate_limited g now none).0.unretriable ≡ g.unretriable + 1
unfolding note_rate_limited
counter-refusal g now = ground arith

pub refusals_count :
    (g : Governor) (times : List ℕ) → (refusals g times).unretriable ≡ g.unretriable + length times
unfolding refusals
refusals_count g [] = omega arith
refusals_count g (t ∷ ts) =
    let ih = refusals_count (note_rate_limited g t none).0 ts in
    omega (arith, ih, counter-refusal g t)

refusals_config :
    (g : Governor) (times : List ℕ)
    → ((refusals g times).default_cooldown ≡ g.default_cooldown)
      × ((refusals g times).max_cooldown ≡ g.max_cooldown)
      × ((refusals g times).next_allowed_at ≡ g.next_allowed_at)
unfolding refusals
refusals_config g [] = (refl, refl, refl)
refusals_config g (t ∷ ts) =
    let ih = refusals_config (note_rate_limited g t none).0 ts in
    (ih.0 ∙ default_kept, ih.1 ∙ max_kept, ih.2 ∙ next_kept)
  where
    default_kept : (note_rate_limited g t none).0.default_cooldown ≡ g.default_cooldown
    default_kept = unfold note_rate_limited in ground arith

    max_kept : (note_rate_limited g t none).0.max_cooldown ≡ g.max_cooldown
    max_kept = unfold note_rate_limited in ground arith

    next_kept : (note_rate_limited g t none).0.next_allowed_at ≡ g.next_allowed_at
    next_kept = unfold note_rate_limited in ground arith

closes_until :
    (g : Governor) (now t n : ℕ)
    → g.unretriable ≡ n
    → n < 1024
    → can_call (note_rate_limited g now none).0 t ≡ (
        leb (now + min (g.default_cooldown * 2 ^ n) g.max_cooldown) t
        && fle g.next_allowed_at (ticks t))
unfolding note_rate_limited can_call
closes_until g now t n e short =
    let counted : g.unretriable + 1 - 1 ≡ n = omega arith in
    let room : leb 1024 n ≡ false = ground arith in
    let cap : fmin (ticks (g.default_cooldown * 2 ^ n)) (ticks g.max_cooldown)
        ≡ ticks (min (g.default_cooldown * 2 ^ n) g.max_cooldown) =
      ground arith in
    rw (counted, exponential) (rw room (rw cap (ground arith)))

overflows_at :
    (g : Governor) (now n : ℕ)
    → g.unretriable ≡ n
    → 1024 ≤ n
    → ((note_rate_limited g now none).1 ≡ false)
      × ((note_rate_limited g now none).0.cooldown_until ≡ g.cooldown_until)
unfolding note_rate_limited
overflows_at g now n e long =
    let counted : g.unretriable + 1 - 1 ≡ n = omega arith in
    let room : leb 1024 n ≡ true = ground arith in
    (rw (counted, exponential) (rw room), rw (counted, exponential) (rw room))

-- After a success and `n` refusals in a row that name no delay, for `n` below 1024, another such
-- refusal lets no call through until the default cooldown times 2 ^ n has passed, or the maximum
-- cooldown if that is less, and from then on only the pacing interval holds calls back.
pub exponential_cooldown :
    (g : Governor) (times : List ℕ) (now t : ℕ)
    → length times < 1024
    → can_call (note_rate_limited (refusals (note_success g) times) now none).0 t ≡ (
        leb (now + min (g.default_cooldown * 2 ^ length times) g.max_cooldown) t
        && fle g.next_allowed_at (ticks t))
unfolding refusals
exponential_cooldown g times now t short =
    let (d, m, k) = refusals_config (note_success g) times in
    let n : (refusals (note_success g) times).unretriable ≡ length times =
      unfold note_success in omega (arith, refusals_count (note_success g) times) in
    let closed = closes_until (refusals (note_success g) times) now t (length times) n short in
    unfold note_success in (rw (d, m, k) at closed)

-- The refusal after 1024 or more unannounced ones in a row raises OverflowError instead: it leaves
-- the cooldown as the earlier refusals set it.
pub exponential_overflow :
    (g : Governor) (times : List ℕ) (now : ℕ)
    → 1024 ≤ length times
    → ((note_rate_limited (refusals (note_success g) times) now none).1 ≡ false)
      × ((note_rate_limited (refusals (note_success g) times) now none).0.cooldown_until
          ≡ (refusals (note_success g) times).cooldown_until)
exponential_overflow g times now long =
    let n : (refusals (note_success g) times).unretriable ≡ length times =
      unfold note_success in omega (arith, refusals_count (note_success g) times) in
    overflows_at (refusals (note_success g) times) now (length times) n long
