-- ===== src/Monitor/Queue/Kept.antt =====
-- Which identities the queue still knows after further items were queued: `seen` forgets the oldest of
-- its 2048 entries (`enqueue_pending` of native/discord-monitor.py).
use swarm_kill_chain_medium.Prelude.{
  ℕ, zero, suc, ◌+◌, ◌-◌, ◌≤◌, ◌<◌, ◌≡◌, ◌⊎◌, inl, inr, refl, ap, ◌∙◌, String, true, false, List,
  [], ◌∷◌, ◌++◌, arith, length, drop, leb, length-append, string_equality, Bool-cases, by_if,
}
use mathlib.Core.List.{append_assoc}
use mathlib.Core.Path.{subst}
use swarm_kill_chain_medium.Dict.{elem}
use swarm_kill_chain_medium.Json.{Json}
use swarm_kill_chain_medium.Monitor.Queue.{
  Item, State, append_bounded, bury, is_known, drop_oldest, make_room, enqueue_pending, max_pending,
}
use swarm_kill_chain_medium.Monitor.Queue.Laws.{
  append_bounded_newest, is_pending, is_pending_before, is_pending_last,
}

-- The identity has at most `m` newer ones behind it.
abbrev pub Within : String → ℕ → List String → Type 0
Within k m seen =
    (older : List String) × (newer : List String) × (seen ≡ older ++ k ∷ newer) × (length newer ≤ m)

drop_older :
    (n : ℕ) (older rest : List String)
    → n ≤ length older
    → drop n (older ++ rest) ≡ drop n older ++ rest
drop_older zero older rest h = refl
drop_older (suc n) [] rest h = absurd (omega arith)
drop_older (suc n) (x ∷ older) rest h = drop_older n older rest (omega arith)

pub Within-append :
    (k j : String) (m : ℕ) (seen : List String)
    → m < 2047
    → Within k m seen
    → Within k (m + 1) (append_bounded seen j 2048)
Within-append k j m seen small (older, newer, e, few) =
    let n = length seen - 2047 in
    let size : length seen ≡ length older + (length newer + 1) =
      omega (arith, ap length e, length-append older (k ∷ newer)) in
    let kept : drop n seen ≡ drop n older ++ k ∷ newer =
      ap (drop n) e ∙ drop_older n older (k ∷ newer) (omega (arith, size, few)) in
    (
      drop n older,
      newer ++ j ∷ [],
      append_bounded_newest seen j 2047
          ∙ ap (λ (xs : List String). xs ++ j ∷ []) kept
          ∙ append_assoc (drop n older) (k ∷ newer) (j ∷ []),
      omega (arith, few, length-append newer (j ∷ [])),
    )

pub elem-Within : (k : String) (m : ℕ) (seen : List String) → Within k m seen → elem k seen ≡ true
elem-Within k m seen (older, newer, e, few) = rw e (go older)
  where
    go : (xs : List String) → elem k (xs ++ k ∷ newer) ≡ true
    go [] = ground (arith, (string_equality.equal_iff k k).1 refl)
    go (x ∷ xs) = ground (arith, go xs)

Within-more : (k : String) (m : ℕ) (seen : List String) → Within k m seen → Within k (m + 1) seen
Within-more k m seen (older, newer, e, few) = (older, newer, e, omega (arith, few))

append_bounded-Within :
    (k : String) (m : ℕ) (seen : List String) → Within k m (append_bounded seen k 2048)
append_bounded-Within k m seen =
    (drop (length seen - 2047) seen, [], append_bounded_newest seen k 2047, omega arith)

-- The item is pending, or has left the queue with at most `m` others behind it.
abbrev pub InQueue : String → ℕ → State → Type 0
InQueue k m s = (is_pending s.pending k ≡ true) ⊎ Within k m s.seen

-- The item is in the queue, or it has not left it.
abbrev pub Ready : String → ℕ → State → Type 0
Ready k m s = InQueue k m s ⊎ (elem k s.seen ≡ false)

pub InQueue-is_known : (k : String) (m : ℕ) (s : State) → InQueue k m s → is_known s k ≡ true
unfolding is_known
InQueue-is_known k m s (inl p) = ground (arith, p)
InQueue-is_known k m s (inr w) = ground (arith, elem-Within k m s.seen w)

pub InQueue-le : (k : String) (m n : ℕ) (s : State) → m ≤ n → InQueue k m s → InQueue k n s
InQueue-le k m n s h (inl p) = inl p
InQueue-le k m n s h (inr (older, newer, e, few)) = inr (older, newer, e, omega (arith, few))

InQueue-more : (k : String) (m : ℕ) (s : State) → InQueue k m s → InQueue k (m + 1) s
InQueue-more k m s (inl p) = inl p
InQueue-more k m s (inr w) = inr (Within-more k m s.seen w)

pub Ready-more : (k : String) (m : ℕ) (s : State) → Ready k m s → Ready k (m + 1) s
Ready-more k m s (inl q) = inl (InQueue-more k m s q)
Ready-more k m s (inr h) = inr h

-- The oldest item is entered in `seen`.
module _ (k : String) (m : ℕ) (small : m < 2047) where
  drop_oldest-InQueue :
      (items : List Item) (s : State)
      → s.pending ≡ items
      → InQueue k m s
      → InQueue k (m + 1) (drop_oldest s items)
  unfolding drop_oldest bury
  drop_oldest-InQueue [] s e q = InQueue-more k m s q
  drop_oldest-InQueue (x ∷ rest) s e (inr w) = inr (Within-append k x.id m s.seen small w)
  drop_oldest-InQueue (x ∷ rest) s e (inl p) =
      let there : is_pending (x ∷ rest) k ≡ true =
        subst (λ (items : List Item). is_pending items k ≡ true) e p in
      elim (Bool-cases (string_equality.equal x.id k)) [
        | inl same ↦ inr (
            rw ((string_equality.equal_iff x.id k).0 same) (append_bounded-Within k (m + 1) s.seen))
        | inr other ↦ inl (ground (arith, other, there))
      ]

  elem-drop : (n : ℕ) (ks : List String) → elem k ks ≡ false → elem k (drop n ks) ≡ false
  elem-drop zero ks h = h
  elem-drop (suc n) [] h = refl
  elem-drop (suc n) (j ∷ ks) h = elem-drop n ks (ground (arith, h))

  elem-last_other :
      (ks : List String) (j : String)
      → string_equality.equal j k ≡ false
      → elem k ks ≡ false
      → elem k (ks ++ j ∷ []) ≡ false
  elem-last_other [] j o h = ground (arith, o)
  elem-last_other (i ∷ ks) j o h = ground (arith, h, elem-last_other ks j o)

  drop_oldest-Ready :
      (items : List Item) (s : State)
      → s.pending ≡ items
      → Ready k m s
      → Ready k (m + 1) (drop_oldest s items)
  unfolding drop_oldest bury
  drop_oldest-Ready items s e (inl q) = inl (drop_oldest-InQueue items s e q)
  drop_oldest-Ready [] s e (inr h) = inr h
  drop_oldest-Ready (x ∷ rest) s e (inr h) = elim (Bool-cases (string_equality.equal x.id k)) [
    | inl same ↦ inl (
        inr
          (rw ((string_equality.equal_iff x.id k).0 same) (append_bounded-Within k (m + 1) s.seen)))
    | inr other ↦ inr (
        rw (append_bounded_newest s.seen x.id 2047) (
          elem-last_other (drop (length s.seen - 2047) s.seen) x.id other
            (elem-drop (length s.seen - 2047) s.seen h)))
  ]

  make_room-InQueue : (s : State) → InQueue k m s → InQueue k (m + 1) (make_room s)
  unfolding make_room
  make_room-InQueue s q =
      by_if (InQueue k (m + 1)) (leb max_pending (length s.pending))
        (λ e. drop_oldest-InQueue s.pending s refl q) (λ e. InQueue-more k m s q)

  make_room-Ready : (s : State) → Ready k m s → Ready k (m + 1) (make_room s)
  unfolding make_room
  make_room-Ready s q =
      by_if (Ready k (m + 1)) (leb max_pending (length s.pending))
        (λ e. drop_oldest-Ready s.pending s refl q) (λ e. Ready-more k m s q)

  with_item-InQueue :
      (n : ℕ) (s : State) (more : List Item)
      → InQueue k n s
      → InQueue k n (record s { pending = s.pending ++ more })
  with_item-InQueue n s more (inl p) = inl (is_pending_before s.pending more k p)
  with_item-InQueue n s more (inr w) = inr w

  with_item-Ready :
      (n : ℕ) (s : State) (more : List Item)
      → Ready k n s
      → Ready k n (record s { pending = s.pending ++ more })
  with_item-Ready n s more (inl q) = inl (with_item-InQueue n s more q)
  with_item-Ready n s more (inr h) = inr h

  -- An item that is in the queue stays known when another one is queued.
  pub enqueue_pending-InQueue :
      (s : State) (j : String) (payload : Json)
      → InQueue k m s
      → InQueue k (m + 1) (enqueue_pending s j payload)
  unfolding enqueue_pending
  enqueue_pending-InQueue s j payload q =
      by_if (InQueue k (m + 1)) (is_known s j) (λ e. InQueue-more k m s q)
        (λ e. with_item-InQueue (m + 1) (make_room s) _ (make_room-InQueue s q))

  pub enqueue_pending-Ready :
      (s : State) (j : String) (payload : Json)
      → Ready k m s
      → Ready k (m + 1) (enqueue_pending s j payload)
  unfolding enqueue_pending
  enqueue_pending-Ready s j payload q =
      by_if (Ready k (m + 1)) (is_known s j) (λ e. Ready-more k m s q)
        (λ e. with_item-Ready (m + 1) (make_room s) _ (make_room-Ready s q))

  -- An item that is queued itself is in the queue.
  pub enqueue_pending_own :
      (s : State) (payload : Json) → Ready k m s → InQueue k (m + 1) (enqueue_pending s k payload)
  unfolding enqueue_pending is_known
  enqueue_pending_own s payload q =
      by_if (InQueue k (m + 1)) (is_known s k) (λ e. known q e)
        (λ e. inl (is_pending_last (make_room s).pending (record { id = k; payload = payload })))
    where
      known : Ready k m s → is_known s k ≡ true → InQueue k (m + 1) s
      known (inl there) e = InQueue-more k m s there
      known (inr h) e = inl (ground (arith, h, e))
