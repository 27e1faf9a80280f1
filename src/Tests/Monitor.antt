-- ===== src/Tests/Monitor.antt =====
-- The queues and their delivery on a few items.
use swarm_kill_chain_medium.Prelude.{
  ℕ, zero, suc, ◌+◌, ◌*◌, ◌≡◌, refl, String, true, false, none, some, [], ◌∷◌, arith,
}
use swarm_kill_chain_medium.Float.{ticks}
use swarm_kill_chain_medium.Json.{str}
use swarm_kill_chain_medium.Governor.Discord.{
  Governor, new_governor, can_send, note_send_attempt, note_success,
}
use swarm_kill_chain_medium.Monitor.Queue.{Item, State, enqueue_pending}
use swarm_kill_chain_medium.Monitor.Restart.{suppress_replay}
use swarm_kill_chain_medium.Monitor.Restart.Laws.{suppress_replay_settles}
use swarm_kill_chain_medium.Prelude.{length}
use swarm_kill_chain_medium.Monitor.Drain.{Posted, Turn, drain_pending}
use swarm_kill_chain_medium.Monitor.Drain.Laws.{
  posts, WriteAhead, Accounted, drain_pending-Accounted, drain_pending-WriteAhead,
}

abbrev item : String → Item
item i = record { id = i; payload = str "summary" }

abbrev state : State
state = record { pending = item "a" ∷ item "b" ∷ item "c" ∷ []; seen = "z" ∷ []; dead_letters = [] }

abbrev accepted : Posted
accepted = record { success = true; status_code = some 204; retry_after = none }

abbrev rejected : Posted
rejected = record { success = false; status_code = some 429; retry_after = some (ticks 2000) }

-- The first post is accepted and the second one refused.
abbrev replies : ℕ → Posted
replies zero = accepted
replies (suc n) = rejected

abbrev world : ℕ → Turn
world n = record {
  checked_at = 5000 + (n + n) * 1000;
  attempted_at = 5000 + (n + n) * 1000;
  reply = replies n;
  refused_at = 5100 + (n + n) * 1000;
}

abbrev governor : Governor
governor = new_governor 1000

drain_pending_run :
    ((drain_pending world (some "https://discord.com") state governor).state.pending
      ≡ item "b" ∷ item "c" ∷ [])
    × (posts (drain_pending world (some "https://discord.com") state governor).effects
        ≡ item "a" ∷ item "b" ∷ [])
unfolding drain_pending can_send note_send_attempt note_success
drain_pending_run = (refl, refl)

drain_pending-Accounted_example :
    Accounted state.pending state (drain_pending world (some "https://discord.com") state governor)
drain_pending-Accounted_example = drain_pending-Accounted world "https://discord.com" state governor

drain_pending-WriteAhead_example :
    WriteAhead state (drain_pending world (some "https://discord.com") state governor).effects
drain_pending-WriteAhead_example =
    drain_pending-WriteAhead world (some "https://discord.com") state state governor

suppress_replay_settles_example :
    ((suppress_replay state 5).0.pending ≡ [])
    × ((suppress_replay state 5).1 ≡ 5 + length state.pending)
    × (enqueue_pending (suppress_replay state 5).0 "b" (str "again") ≡ (suppress_replay state 5).0)
suppress_replay_settles_example =
    suppress_replay_settles state 5 "b" (str "again") (omega arith) refl
