-- ===== src/Governor/Discord/Pacing.antt =====
-- When the Discord governor lets a message through (native/discord_rate_governor.py).
use swarm_kill_chain_medium.Prelude.{
  ℕ, ◌+◌, ◌≤◌, ◌≡◌, ◌≢◌, refl, true, false, Option, none, some, List, [], ◌∷◌, arith, min, max,
}
use swarm_kill_chain_medium.Prelude.Int.{pos, negsuc}
use swarm_kill_chain_medium.Float.{Float, finite, inf, minus_inf, nan, ticks, second, fle}
use swarm_kill_chain_medium.Governor.Discord.{
  Governor, Outcome, delivered, refused, abandoned, can_send, note_send_attempt, note_blocked,
  backoff, note_rate_limited, settle,
}

clamp_range :
    (n cap : ℕ) → second ≤ cap → (second ≤ min (max n second) cap) × (min (max n second) cap ≤ cap)
clamp_range n cap h = omega arith

-- The back-off, whatever the server asks for, unless it asks for not-a-number.
pub backoff_range :
    (g : Governor) (retry : Option Float)
    → second ≤ g.max_cooldown
    → retry ≢ some nan
    → (b : ℕ) × (backoff g retry ≡ ticks b) × (second ≤ b) × (b ≤ g.max_cooldown)
unfolding backoff
backoff_range g none h real =
    let (low, high) = clamp_range g.default_cooldown g.max_cooldown h in
    (min (max g.default_cooldown second) g.max_cooldown, ground arith, low, high)
backoff_range g (some (finite (pos n))) h real =
    let (low, high) = clamp_range n g.max_cooldown h in
    (min (max n second) g.max_cooldown, ground arith, low, high)
backoff_range g (some (finite (negsuc n))) h real = (second, ground arith, omega arith, h)
backoff_range g (some inf) h real = (g.max_cooldown, ground arith, h, omega arith)
backoff_range g (some minus_inf) h real = (second, ground arith, omega arith, h)
backoff_range g (some nan) h real = absurd (real refl)

cooldown_window :
    (g : Governor) (now t : ℕ) (retry : Option Float)
    → second ≤ g.max_cooldown
    → retry ≢ some nan
    → (can_send (note_rate_limited g now retry).0 t ≡ true → now + second ≤ t)
      × (now + g.max_cooldown ≤ t
          → fle g.next_allowed_at (ticks t) ≡ true
          → can_send (note_rate_limited g now retry).0 t ≡ true)
unfolding can_send note_rate_limited
cooldown_window g now t retry h real =
    let (b, e, low, high) = backoff_range g retry h real in
    rw e ((λ s. ground arith), (λ late paced. ground arith))

-- After a rate limit whose delay is not not-a-number, nothing is sent for a second, if the maximum
-- cooldown is at least that.
pub cooldown_holds :
    (g : Governor) (now t : ℕ) (retry : Option Float)
    → second ≤ g.max_cooldown
    → retry ≢ some nan
    → can_send (note_rate_limited g now retry).0 t ≡ true
    → now + second ≤ t
cooldown_holds g now t retry h real = (cooldown_window g now t retry h real).0

-- After such a rate limit sending resumes once the longest cooldown is over and the pacing interval
-- allows it.
pub cooldown_ends :
    (g : Governor) (now t : ℕ) (retry : Option Float)
    → second ≤ g.max_cooldown
    → retry ≢ some nan
    → now + g.max_cooldown ≤ t
    → fle g.next_allowed_at (ticks t) ≡ true
    → can_send (note_rate_limited g now retry).0 t ≡ true
cooldown_ends g now t retry h real = (cooldown_window g now t retry h real).1

-- Runs of the protocol that `drain_pending` follows: it asks `can_send` first, notes a refusal, and
-- settles each attempt. The clock is read by the check and again by the attempt. The list holds the times
-- of the attempts at items, the latest first; the digest that follows a recovery is posted without them.
pub data Run (g : Governor) : List ℕ → Governor → Type 0 where
  start : Run g [] g
  wait :
      {sent : List ℕ} {h : Governor}
      → Run g sent h
      → (t depth : ℕ) → can_send h t ≡ false
      → Run g sent (note_blocked h depth)
  send :
      {sent : List ℕ} {h : Governor}
      → Run g sent h
      → (t : ℕ) → can_send h t ≡ true
      → (u : ℕ) → t ≤ u
      → (o : Outcome) → Run g (u ∷ sent) (settle (note_send_attempt h u) o)

-- Each time is at least `d` after the one before it.
abbrev pub Spaced : ℕ → List ℕ → Type 0
Spaced d [] = Unit
Spaced d (t ∷ []) = Unit
Spaced d (t ∷ u ∷ ts) = (u + d ≤ t) × Spaced d (u ∷ ts)

-- What a run keeps of the governor: its interval, and the time set by the latest attempt.
record Paced (d : ℕ) (sent : List ℕ) (h : Governor) : Type 0 where
  interval : h.min_interval ≡ d
  latest : (t : ℕ) (ts : List ℕ) → sent ≡ t ∷ ts → h.next_allowed_at ≡ ticks (t + d)

min_interval-settle : (h : Governor) (o : Outcome) → (settle h o).min_interval ≡ h.min_interval
unfolding settle
min_interval-settle h delivered = ground arith
min_interval-settle h (refused t r) = refl
min_interval-settle h abandoned = refl

next_allowed_at-settle :
    (h : Governor) (o : Outcome) → (settle h o).next_allowed_at ≡ h.next_allowed_at
unfolding settle
next_allowed_at-settle h delivered = ground arith
next_allowed_at-settle h (refused t r) = refl
next_allowed_at-settle h abandoned = refl

next_allowed_at-attempt :
    (h : Governor) (t : ℕ) → (note_send_attempt h t).next_allowed_at ≡ ticks (t + h.min_interval)
unfolding note_send_attempt
next_allowed_at-attempt h t = ground arith

can_send-paced :
    (h : Governor) (t u : ℕ) → h.next_allowed_at ≡ ticks u → can_send h t ≡ true → u ≤ t
unfolding can_send
can_send-paced h t u e s = ground arith

Paced-start : (g : Governor) → Paced g.min_interval [] g
Paced-start g = record { interval = refl; latest = λ t ts e. absurd (cc) }

Paced-blocked :
    {d : ℕ} {sent : List ℕ} (h : Governor) (depth : ℕ)
    → Paced d sent h
    → Paced d sent (note_blocked h depth)
unfolding note_blocked
Paced-blocked h depth p = record {
  interval = ground (arith, p.interval);
  latest = λ t ts e. ground (arith, p.latest t ts e);
}

Paced-attempt :
    {d : ℕ} {sent : List ℕ} (h : Governor) (t : ℕ) (o : Outcome)
    → Paced d sent h
    → Paced d (t ∷ sent) (settle (note_send_attempt h t) o)
Paced-attempt {d} h t o p =
    let paced = next_allowed_at-attempt h t in
    let keeps = next_allowed_at-settle (note_send_attempt h t) o in
    record {
      interval = rw min_interval-settle (unfold note_send_attempt in p.interval);
      latest = λ u ts e. ground (arith, paced, keeps, p.interval);
    }

Spaced-cons :
    (d t : ℕ) (sent : List ℕ)
    → ((u : ℕ) (ts : List ℕ) → sent ≡ u ∷ ts → u + d ≤ t)
    → Spaced d sent
    → Spaced d (t ∷ sent)
Spaced-cons d t [] gap s = tt
Spaced-cons d t (u ∷ ts) gap s = (gap u ts refl, s)

Run-Paced :
    {g h : Governor} {sent : List ℕ}
    → Run g sent h
    → Paced g.min_interval sent h × Spaced g.min_interval sent
Run-Paced {g} start = (Paced-start g, tt)
Run-Paced (wait {h = h} r t depth s) =
    let (p, gaps) = Run-Paced r in (Paced-blocked h depth p, gaps)
Run-Paced {g} (send {sent = ts} {h = h} r t s u after o) =
    let (p, gaps) = Run-Paced r in
    (
      Paced-attempt h u o p,
      Spaced-cons g.min_interval u ts
          (λ v vs e.
            omega (arith, after, can_send-paced h t (v + g.min_interval) (p.latest v vs e) s))
          gaps,
    )

-- In every run of the protocol, whatever Discord answers, each attempt at an item comes at least the
-- minimum interval after the one before it.
pub attempts-Spaced : {g h : Governor} {sent : List ℕ} → Run g sent h → Spaced g.min_interval sent
attempts-Spaced r = (Run-Paced r).1

stays_closed :
    {g h : Governor} {sent : List ℕ}
    → g.cooldown_until ≡ nan
    → Run g sent h
    → (sent ≡ []) × (h.cooldown_until ≡ nan)
unfolding can_send note_blocked
stays_closed e start = (refl, e)
stays_closed e (wait {h = h} r t depth s) =
    let (none_sent, closed) = stays_closed e r in (none_sent, ground arith)
stays_closed e (send {h = h} r t s u after o) =
    let (none_sent, closed) = stays_closed e r in absurd (ground arith)

-- A refusal whose delay is not-a-number stops the channel for good: from there no run makes another
-- attempt, and the governor is closed at every later time.
pub nan_refusal_blocks :
    (g : Governor) {h : Governor} {sent : List ℕ} (now t : ℕ)
    → Run (note_rate_limited g now (some nan)).0 sent h
    → (sent ≡ []) × (can_send h t ≡ false)
unfolding note_rate_limited backoff can_send
nan_refusal_blocks g now t r =
    let (none_sent, closed) = stays_closed refl r in (none_sent, ground arith)
