-- ===== src/Monitor/Drain.antt =====
-- `drain_pending` of native/discord-monitor.py: the delivery of one channel's queue. Saving the state
-- file and posting are effects, in the order in which the code has them.
pub mod Laws
use swarm_kill_chain_medium.Prelude.{
  ℕ, suc, ◌+◌, ◌≡◌, String, Bool, true, false, Option, none, some, List, [], ◌∷◌, ◌++◌, length, ltb,
  ◌==◌, if◌then◌else◌,
}
use swarm_kill_chain_medium.Float.{Float}
use swarm_kill_chain_medium.Governor.Discord.{
  Governor, can_send, note_send_attempt, note_blocked, note_success, note_rate_limited,
}
use swarm_kill_chain_medium.Monitor.Queue.{
  Item, State, Reason, credential_unavailable, delivery_uncertain_no_replay, append_bounded, bury,
  max_seen, max_pending,
}

-- What `post_payload` returns: whether the status was one of success, the status and `Retry-After`.
pub record Posted : Type 0 where
  pub success : Bool
  pub status_code : Option ℕ
  pub retry_after : Option Float

-- One turn of the loop as it meets the clock and the network: the readings of the clock by
-- `can_send`, `note_send_attempt` and `note_rate_limited`, and what the post returns.
pub record Turn : Type 0 where
  pub checked_at : ℕ
  pub attempted_at : ℕ
  pub reply : Posted
  pub refused_at : ℕ

pub data Effect : Type 0 where
  saved : State → Effect
  posted : Item → Effect
  posted_digest : ℕ → Effect

pub record Drained : Type 0 where
  pub state : State
  pub governor : Governor
  pub effects : List Effect

-- The `while pending` loop without a credential.
unfoldable pub bury_all : List Item → State → State
unfolding bury
bury_all [] s = record s { pending = [] }
bury_all (item ∷ rest) s =
    bury_all rest (bury item credential_unavailable (record s { pending = rest }))

abbrev is_429 : Option ℕ → Bool
is_429 none = false
is_429 (some code) = code == 429

-- The recovery digest is posted when delivery has recovered and something was held back.
abbrev pub digest : Bool → ℕ → List Effect
digest recovered suppressed =
    if recovered then if ltb 0 suppressed then posted_digest suppressed ∷ [] else [] else []

-- The effects of a turn go before those of the turns that follow.
abbrev pub after : List Effect → Drained → Drained
after es d = record d { effects = es ++ d.effects }

-- The state with the first item out and in `seen`.
unfoldable pub finish : Item → List Item → State → State
unfolding append_bounded
finish item rest s = record s { seen = append_bounded s.seen item.id max_seen; pending = rest }

-- The `while pending` loop from the turn with number `n`; the list is the state's pending list, and
-- each turn that goes on takes its first item out.
unfoldable pub drain_loop : (ℕ → Turn) → ℕ → List Item → State → Governor → Drained
unfolding bury finish
drain_loop world n [] s g = record { state = s; governor = g; effects = [] }
drain_loop world n (item ∷ rest) s g =
    let turn = world n in
    let attempted = note_send_attempt g turn.attempted_at in
    let (recovered_g, recovered, suppressed) = note_success attempted in
    let delivered = finish item rest s in
    let abandoned = bury item delivery_uncertain_no_replay (record s { pending = rest }) in
    let on_success = drain_loop world (suc n) rest delivered recovered_g in
    let on_failure = drain_loop world (suc n) rest abandoned attempted in
    if can_send g turn.checked_at
    then if turn.reply.success
      then after (saved s ∷ posted item ∷ (digest recovered suppressed ++ saved delivered ∷ []))
          on_success
      else if is_429 turn.reply.status_code
      then record {
        state = s;
        governor = (note_rate_limited attempted turn.refused_at turn.reply.retry_after).0;
        effects = saved s ∷ posted item ∷ [];
      }
      else after (saved s ∷ posted item ∷ saved abandoned ∷ []) on_failure
    else record { state = s; governor = note_blocked g (length (item ∷ rest)); effects = [] }

abbrev pub is_empty : List Item → Bool
is_empty [] = true
is_empty (item ∷ rest) = false

abbrev pub idle : State → Governor → Drained
idle s g = record { state = s; governor = g; effects = [] }

-- The loop for what the credential cache gives.
unfoldable pub drain_with : (ℕ → Turn) → Option String → State → Governor → Drained
unfolding bury_all drain_loop
drain_with world none s g =
    let buried = bury_all s.pending s in
    record { state = buried; governor = g; effects = saved buried ∷ [] }
drain_with world (some url) s g = drain_loop world 0 s.pending s g

unfoldable pub drain_pending : (ℕ → Turn) → Option String → State → Governor → Drained
unfolding drain_with
drain_pending world webhook s g =
    if is_empty s.pending then idle s g else drain_with world webhook s g
