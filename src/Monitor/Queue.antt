-- ===== src/Monitor/Queue.antt =====
-- The bounded queues of native/discord-monitor.py: `append_bounded` and `enqueue_pending`. The state
-- here is what these functions read and change of the state file for one channel: its pending list,
-- and the lists `seen` and `dead_letters` that the channels share.
pub mod Laws
pub mod Kept
pub mod Room
use swarm_kill_chain_medium.Prelude.{
  ℕ, ◌-◌, String, Bool, true, false, ◌||◌, List, [], ◌∷◌, ◌++◌, leb, any_of, length, drop,
  string_equality, if◌then◌else◌,
}
use swarm_kill_chain_medium.Dict.{elem}
use swarm_kill_chain_medium.Json.{Json}

abbrev pub max_seen : ℕ
max_seen = 2048

abbrev pub max_pending : ℕ
max_pending = 256

abbrev pub max_dead : ℕ
max_dead = 128

pub data Reason : Type 0 where
  queue_limit : Reason
  credential_unavailable : Reason
  delivery_uncertain_no_replay : Reason
  restart_replay_suppressed : Reason

pub record Item : Type 0 where
  pub id : String
  pub payload : Json

pub record State : Type 0 where
  pub pending : List Item
  pub seen : List String
  pub dead_letters : List (String × Reason)

-- `del items[: len(items) - limit]` deletes nothing unless the list is longer than the limit; the
-- difference on ℕ is 0 there.
unfoldable pub append_bounded {ℓ} : {A : Type ℓ} → List A → A → ℕ → List A
append_bounded items value limit = drop (length (items ++ value ∷ []) - limit) (items ++ value ∷ [])

-- The item has left the queue undelivered.
unfoldable pub bury : Item → Reason → State → State
unfolding append_bounded
bury item reason s = record s {
  dead_letters = append_bounded s.dead_letters (item.id, reason) max_dead;
  seen = append_bounded s.seen item.id max_seen;
}

unfoldable pub is_known : State → String → Bool
is_known s item_id =
    elem item_id s.seen || any_of (λ existing. string_equality.equal existing.id item_id) s.pending

-- `pending.pop(0)` of a list that is given, and the record of the item.
unfoldable pub drop_oldest : State → List Item → State
unfolding bury
drop_oldest s [] = s
drop_oldest s (item ∷ rest) = bury item queue_limit (record s { pending = rest })

-- The oldest item leaves a full queue.
unfoldable pub make_room : State → State
unfolding drop_oldest
make_room s = if leb max_pending (length s.pending) then drop_oldest s s.pending else s

unfoldable pub enqueue_pending : State → String → Json → State
unfolding is_known make_room
enqueue_pending s item_id payload =
    if is_known s item_id
    then s
    else let room = make_room s in
      record room { pending = room.pending ++ record { id = item_id; payload = payload } ∷ [] }
