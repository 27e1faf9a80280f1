-- ===== src/Monitor/Queue/Room.antt =====
-- Queueing a new item while there is room (`enqueue_pending` of native/discord-monitor.py).
use swarm_kill_chain_medium.Prelude.{
  ◌<◌, ◌≡◌, String, false, List, [], ◌∷◌, ◌++◌, arith, length, All, string_equality,
}
use swarm_kill_chain_medium.Dict.{elem}
use swarm_kill_chain_medium.Json.{Json}
use swarm_kill_chain_medium.Monitor.Queue.{
  Item, State, is_known, make_room, enqueue_pending, max_pending,
}
use swarm_kill_chain_medium.Monitor.Queue.Laws.{is_pending}

-- The state with a further pending item.
abbrev pub with_item : State → Item → State
with_item s item = record s { pending = s.pending ++ item ∷ [] }

pub enqueue_pending_room :
    (s : State) (k : String) (payload : Json)
    → is_known s k ≡ false
    → length s.pending < max_pending
    → enqueue_pending s k payload ≡ with_item s (record { id = k; payload = payload })
unfolding enqueue_pending make_room
enqueue_pending_room s k payload h room = ground (arith, h, room)

is_pending-last_other :
    (items : List Item) (x : Item) (k : String)
    → string_equality.equal x.id k ≡ false
    → is_pending (items ++ x ∷ []) k ≡ is_pending items k
is_pending-last_other [] x k h = ground (arith, h)
is_pending-last_other (y ∷ items) x k h = ground (arith, is_pending-last_other items x k h)

abbrev pub AllNew : State → List String → Type 0
AllNew s ks = All (λ k. is_known s k ≡ false) ks

-- The other new identities stay new.
pub with_item-AllNew :
    (s : State) (item : Item) (ks : List String)
    → elem item.id ks ≡ false
    → AllNew s ks
    → AllNew (with_item s item) ks
unfolding is_known
with_item-AllNew s item [] h a = tt
with_item-AllNew s item (k ∷ ks) h (new, a) = (
  ground (
    arith,
    new,
    h,
    string_equality.equal_iff k item.id,
    string_equality.equal_iff item.id k,
    is_pending-last_other s.pending item k,
  ),
  with_item-AllNew s item ks (ground (arith, h)) a,
)
