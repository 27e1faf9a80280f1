-- ===== src/Monitor/Restart/Laws.antt =====
-- Nothing that was posted is queued again after a restart (native/discord-monitor.py).
use swarm_kill_chain_medium.Prelude.{
  ℕ, ◌+◌, ◌-◌, ◌≤◌, ◌<◌, ◌≡◌, refl, String, true, List, [], ◌∷◌, arith, length, drop,
  string_equality, Bool-cases, inl, inr,
}
use swarm_kill_chain_medium.Dict.{elem}
use swarm_kill_chain_medium.Json.{Json}
use swarm_kill_chain_medium.Monitor.Queue.{
  Item, State, bury, restart_replay_suppressed, is_known, enqueue_pending, max_pending,
}
use swarm_kill_chain_medium.Monitor.Queue.Laws.{append_bounded_newest, is_pending}
use swarm_kill_chain_medium.Monitor.Queue.Kept.{Within, Within-append, elem-Within}
use swarm_kill_chain_medium.Monitor.Restart.{suppress_items, suppress_replay}

later_items :
    (k : String) (items : List Item) (s : State) (m : ℕ)
    → m + length items < 2048
    → Within k m s.seen
    → elem k (suppress_items items s).seen ≡ true
unfolding suppress_items bury
later_items k [] s m h w = elem-Within k m s.seen w
later_items k (item ∷ items) s m h w =
    later_items k items (bury item restart_replay_suppressed s) (m + 1) (omega arith)
      (Within-append k item.id m s.seen (omega arith) w)

pending_seen :
    (k : String) (items : List Item) (s : State)
    → length items ≤ max_pending
    → is_pending items k ≡ true
    → elem k (suppress_items items s).seen ≡ true
unfolding suppress_items bury
pending_seen k [] s h p = absurd (ground arith)
pending_seen k (item ∷ items) s h p = elim (Bool-cases (string_equality.equal item.id k)) [
  | inl same ↦ rw ((string_equality.equal_iff item.id k).0 same) (
      later_items k items _ 0 (omega arith)
        (drop (length s.seen - 2047) s.seen, [], append_bounded_newest s.seen k 2047, omega arith))
  | inr other ↦
      pending_seen k items (bury item restart_replay_suppressed s) (omega arith) (ground arith)
]

-- A restart from a state whose queue is within its bound leaves nothing to send, counts what it
-- suppressed, and has an item that was pending in `seen`, so that queueing it again changes nothing.
pub suppress_replay_settles :
    (s : State) (n : ℕ) (k : String) (payload : Json)
    → length s.pending ≤ max_pending
    → is_pending s.pending k ≡ true
    → ((suppress_replay s n).0.pending ≡ [])
      × ((suppress_replay s n).1 ≡ n + length s.pending)
      × (enqueue_pending (suppress_replay s n).0 k payload ≡ (suppress_replay s n).0)
unfolding suppress_replay
suppress_replay_settles s n k payload h p = (refl, refl, known _ (pending_seen k s.pending s h p))
  where
    known : (t : State) → elem k t.seen ≡ true → enqueue_pending t k payload ≡ t
    known t e =
        let k' : is_known t k ≡ true = unfold is_known in ground (arith, e) in
        unfold enqueue_pending in rw k' refl
