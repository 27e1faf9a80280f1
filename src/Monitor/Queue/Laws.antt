-- ===== src/Monitor/Queue/Laws.antt =====
-- The bounds of the queues, and what queueing does with an item (`append_bounded` and
-- `enqueue_pending` of native/discord-monitor.py).
use swarm_kill_chain_medium.Prelude.{
  ℕ, zero, suc, ◌+◌, ◌-◌, ◌≤◌, ◌≡◌, ◌⊎◌, inl, inr, refl, ap, min, String, Bool, true, List, [], ◌∷◌,
  ◌++◌, arith, length, drop, leb, any_of, length-append, length-drop, string_equality, by_if,
  Bool-cases,
}
use swarm_kill_chain_medium.Dict.{elem}
use swarm_kill_chain_medium.Json.{Json}
use swarm_kill_chain_medium.Monitor.Queue.{
  Item, State, Reason, queue_limit, append_bounded, bury, is_known, drop_oldest, make_room,
  enqueue_pending, max_seen, max_pending, max_dead,
}

pub length-append_bounded {ℓ} :
    {A : Type ℓ} (items : List A) (value : A) (limit : ℕ)
    → length (append_bounded items value limit) ≡ min (length items + 1) limit
unfolding append_bounded
length-append_bounded items value limit = omega (
  arith,
  length-drop (length (items ++ value ∷ []) - limit) (items ++ value ∷ []),
  length-append items (value ∷ []),
)

drop_before_last {ℓ} :
    {A : Type ℓ} (n : ℕ) (items : List A) (value : A)
    → n ≤ length items
    → drop n (items ++ value ∷ []) ≡ drop n items ++ value ∷ []
drop_before_last zero items value h = refl
drop_before_last (suc n) [] value h = absurd (omega arith)
drop_before_last (suc n) (x ∷ items) value h = drop_before_last n items value (omega arith)

-- The new value is kept, last, behind the newest of the old ones.
pub append_bounded_newest {ℓ} :
    {A : Type ℓ} (items : List A) (value : A) (limit : ℕ)
    → append_bounded items value (suc limit) ≡ drop (length items - limit) items ++ value ∷ []
unfolding append_bounded
append_bounded_newest items value limit =
    let e : length (items ++ value ∷ []) - suc limit ≡ length items - limit =
      omega (arith, length-append items (value ∷ [])) in
    rw e (drop_before_last (length items - limit) items value (omega arith))

elem_last : (k : String) (ks : List String) → elem k (ks ++ k ∷ []) ≡ true
elem_last k [] = ground (arith, (string_equality.equal_iff k k).1 refl)
elem_last k (j ∷ ks) = ground (arith, elem_last k ks)

pub elem-append_bounded :
    (ks : List String) (k : String) (limit : ℕ) → elem k (append_bounded ks k (suc limit)) ≡ true
elem-append_bounded ks k limit =
    rw (append_bounded_newest ks k limit) (elem_last k (drop (length ks - limit) ks))

-- Each list keeps to its bound.
abbrev pub IsBounded : State → Type 0
IsBounded s =
    (length s.pending ≤ max_pending)
    × (length s.seen ≤ max_seen)
    × (length s.dead_letters ≤ max_dead)

bury-IsBounded :
    (item : Item) (reason : Reason) (s : State)
    → length s.pending ≤ max_pending
    → IsBounded (bury item reason s)
unfolding bury
bury-IsBounded item reason s h = (
  h,
  omega (arith, length-append_bounded s.seen item.id max_seen),
  omega (arith, length-append_bounded s.dead_letters (item.id, reason) max_dead),
)

make_room-IsBounded :
    (s : State)
    → IsBounded s
    → IsBounded (make_room s) × (length (make_room s).pending + 1 ≤ max_pending)
unfolding make_room drop_oldest
make_room-IsBounded s (p, q, r) =
    by_if (λ t. IsBounded t × (length t.pending + 1 ≤ max_pending))
      (leb max_pending (length s.pending)) (λ full. oldest s.pending refl)
      (λ e. ((p, q, r), ground (arith, e)))
  where
    oldest :
        (items : List Item)
        → s.pending ≡ items
        → IsBounded (drop_oldest s items) × (length (drop_oldest s items).pending + 1 ≤ max_pending)
    oldest [] e = ((p, q, r), rw e (omega arith))
    oldest (item ∷ rest) e =
        let h : length rest + 1 ≤ max_pending = omega (arith, p, ap length e) in
        (
          bury-IsBounded item queue_limit (record s { pending = rest }) (omega (arith, h)),
          unfold bury in h,
        )

-- Queueing keeps the pending items, `seen` and the dead letters within their bounds.
pub enqueue_pending-IsBounded :
    (s : State) (item_id : String) (payload : Json)
    → IsBounded s
    → IsBounded (enqueue_pending s item_id payload)
unfolding enqueue_pending
enqueue_pending-IsBounded s item_id payload b =
    by_if IsBounded (is_known s item_id) (λ e. b)
      (λ e.
        let ((p, q, r), room) = make_room-IsBounded s b in
        (
          omega (
            arith,
            room,
            length-append (make_room s).pending (record { id = item_id; payload = payload } ∷ []),
          ),
          q,
          r,
        ))

abbrev pub is_pending : List Item → String → Bool
is_pending items k = any_of (λ existing. string_equality.equal existing.id k) items

pub is_pending_before :
    (items more : List Item) (k : String)
    → is_pending items k ≡ true
    → is_pending (items ++ more) k ≡ true
is_pending_before [] more k h = ground arith
is_pending_before (x ∷ items) more k h = ground (arith, is_pending_before items more k)

pub is_pending_last : (items : List Item) (x : Item) → is_pending (items ++ x ∷ []) x.id ≡ true
is_pending_last [] x = ground (arith, (string_equality.equal_iff x.id x.id).1 refl)
is_pending_last (y ∷ items) x = ground (arith, is_pending_last items x)

make_room-is_known :
    (s : State) (k : String)
    → is_pending s.pending k ≡ true
    → (is_pending (make_room s).pending k ≡ true) ⊎ (elem k (make_room s).seen ≡ true)
unfolding make_room drop_oldest bury
make_room-is_known s k h =
    by_if (λ (t : State). (is_pending t.pending k ≡ true) ⊎ (elem k t.seen ≡ true))
      (leb max_pending (length s.pending)) (λ full. oldest s.pending h) (λ e. inl h)
  where
    oldest :
        (items : List Item)
        → is_pending items k ≡ true
        → (is_pending (drop_oldest s items).pending k ≡ true)
          ⊎ (elem k (drop_oldest s items).seen ≡ true)
    oldest [] e = absurd (ground arith)
    oldest (item ∷ rest) e = elim (Bool-cases (string_equality.equal item.id k)) [
      | inl same ↦
          inr
            (rw ((string_equality.equal_iff item.id k).0 same) (elem-append_bounded s.seen k 2047))
      | inr other ↦ inl (ground arith)
    ]

enqueue_pending_known :
    (t : State) (i : String) (payload : Json)
    → is_known t i ≡ true
    → enqueue_pending t i payload ≡ t
unfolding enqueue_pending
enqueue_pending_known t i payload h = rw h refl

is_known-enqueue_pending :
    (s : State) (item_id : String) (payload : Json)
    → is_known (enqueue_pending s item_id payload) item_id ≡ true
unfolding enqueue_pending is_known
is_known-enqueue_pending s item_id payload =
    let item : Item = record { id = item_id; payload = payload } in
    by_if (λ (t : State). is_known t item_id ≡ true) (is_known s item_id) (λ e. e)
      (λ e. ground (arith, is_pending_last (make_room s).pending item))

is_known-enqueue_pending_other :
    (s : State) (item_id k : String) (payload : Json)
    → is_pending s.pending k ≡ true
    → is_known (enqueue_pending s item_id payload) k ≡ true
unfolding enqueue_pending is_known
is_known-enqueue_pending_other s item_id k payload h =
    let item : Item = record { id = item_id; payload = payload } in
    by_if (λ (t : State). is_known t k ≡ true) (is_known s item_id) (λ e. ground arith)
      (λ e.
        ground
          (arith, make_room-is_known s k h, is_pending_before (make_room s).pending (item ∷ []) k))

-- What queueing settles: the item is known afterwards, so that it is not queued again, and an item
-- that was pending is still pending or is in `seen`.
pub enqueue_pending_settles :
    (s : State) (item_id k : String) (payload again : Json)
    → is_pending s.pending k ≡ true
    → (is_known (enqueue_pending s item_id payload) item_id ≡ true)
      × (enqueue_pending (enqueue_pending s item_id payload) item_id again
          ≡ enqueue_pending s item_id payload)
      × (is_known (enqueue_pending s item_id payload) k ≡ true)
enqueue_pending_settles s item_id k payload again h =
    let known = is_known-enqueue_pending s item_id payload in
    (
      known,
      enqueue_pending_known (enqueue_pending s item_id payload) item_id again known,
      is_known-enqueue_pending_other s item_id k payload h,
    )
