-- ===== src/Monitor/Restart.antt =====
-- The restart in `load_state` of native/discord-monitor.py, for one channel: what is still pending in
-- the saved state is never sent. Monitor/Load has the reading of the file and the migration of older
-- formats.
pub mod Laws
use swarm_kill_chain_medium.Prelude.{ℕ, ◌+◌, String, Bool, true, false, List, [], ◌∷◌, length}
use swarm_kill_chain_medium.Monitor.Queue.{Item, State, restart_replay_suppressed, bury}

-- The loop over the pending items, which stay in the list.
unfoldable pub suppress_items : List Item → State → State
unfolding bury
suppress_items [] s = s
suppress_items (item ∷ rest) s = suppress_items rest (bury item restart_replay_suppressed s)

-- The state and the counter `replay_suppressed`. A channel with nothing pending is left as it is.
unfoldable pub suppress_replay : State → ℕ → State × ℕ
unfolding suppress_items
suppress_replay s replay_suppressed =
    (record (suppress_items s.pending s) { pending = [] }, replay_suppressed + length s.pending)
