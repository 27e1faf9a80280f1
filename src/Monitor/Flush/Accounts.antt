-- ===== src/Monitor/Flush/Accounts.antt =====
-- What a part of a flush keeps of the identity of a summary, and how parts compose
-- (native/discord-monitor.py).
use swarm_kill_chain_medium.Prelude.{
  ℕ, ◌+◌, ◌<◌, ◌≤◌, ◌≡◌, ◌⊎◌, inl, inr, String, true, false, ◌||◌, [], arith, by_if, All,
  All-append, string_equality,
}
use swarm_kill_chain_medium.Dict.{keys, elem}
use swarm_kill_chain_medium.Monitor.Queue.{is_known}
use swarm_kill_chain_medium.Monitor.Queue.Kept.{InQueue, InQueue-le, Ready, InQueue-is_known}
use swarm_kill_chain_medium.Monitor.Flush.{Flushing, Flushed, and_then}

-- The intel queue knows the identity, as that of an item that is pending or in `seen`, or it is noted as
-- awaited.
abbrev pub IsKept : String → Flushing → Type 0
IsKept k m = (is_known m.queue k || elem k (keys m.awaiting)) ≡ true

-- The item is in the queue, with at most `n` behind it in `seen`, or it has not left the queue and is
-- noted as awaited.
abbrev pub Held : String → ℕ → Flushing → Type 0
Held k n m =
    InQueue k n m.queue ⊎ ((elem k m.queue.seen ≡ false) × (elem k (keys m.awaiting) ≡ true))

pub Held-IsKept : (k : String) (n : ℕ) (m : Flushing) → Held k n m → IsKept k m
Held-IsKept k n m (inl q) = ground (arith, InQueue-is_known k n m.queue q)
Held-IsKept k n m (inr (h, a)) = ground (arith, a)

pub Held-Ready : (k : String) (n : ℕ) (m : Flushing) → Held k n m → Ready k n m.queue
Held-Ready k n m (inl q) = inl q
Held-Ready k n m (inr (h, a)) = inr h

-- The identity is held at the end, and it is kept in every state that was saved.
abbrev pub Keeps : String → ℕ → Flushed → Type 0
Keeps k n r = Held k n r.state × All (IsKept k) r.saves

-- A part that queues at most `cost` summaries keeps what is held, whenever it starts.
abbrev pub KeepsAll : String → ℕ → (Flushing → Flushed) → Type 0
KeepsAll k cost f = (n : ℕ) (m : Flushing) → n + cost < 2048 → Held k n m → Keeps k (n + cost) (f m)

pub Held-le : (k : String) (n p : ℕ) (m : Flushing) → n ≤ p → Held k n m → Held k p m
Held-le k n p m h (inl q) = inl (InQueue-le k n p m.queue h q)
Held-le k n p m h (inr a) = inr a

pub Keeps-le : (k : String) (n p : ℕ) (r : Flushed) → n ≤ p → Keeps k n r → Keeps k p r
Keeps-le k n p r h (held, saves) = (Held-le k n p r.state h held, saves)

pub and_then-Keeps :
    (k : String) (q p : ℕ) (r : Flushed) (f : Flushing → Flushed)
    → q ≤ p
    → Keeps k q r
    → (Held k q r.state → Keeps k p (f r.state))
    → Keeps k p (and_then r f)
unfolding and_then
and_then-Keeps k q p r f le (held, saves) g =
    by_if (Keeps k p) r.returned
      (λ e.
        let (held', saves') = g held in
        (held', All-append (IsKept k) r.saves (f r.state).saves saves saves'))
      (λ e. (Held-le k q p r.state le held, saves))

-- A later part that holds the identity when it returns, after one that saves nothing.
pub and_then-Covers :
    (k : String) (n : ℕ) (r : Flushed) (f : Flushing → Flushed)
    → r.saves ≡ []
    → ((f r.state).returned ≡ true → Keeps k n (f r.state))
    → (and_then r f).returned ≡ true
    → Keeps k n (and_then r f)
unfolding and_then
and_then-Covers k n r f unsaved g =
    by_if (λ (x : Flushed). x.returned ≡ true → Keeps k n x) r.returned
      (λ e ret.
        let (held, saves) = g ret in
        (held, All-append (IsKept k) r.saves (f r.state).saves (rw unsaved tt) saves))
      (λ e ret. absurd (ground (arith, e, ret)))

pub and_then-returned :
    (r : Flushed) (f : Flushing → Flushed) → (and_then r f).returned ≡ true → r.returned ≡ true
unfolding and_then
and_then-returned r f =
    by_if (λ (x : Flushed). x.returned ≡ true → r.returned ≡ true) r.returned (λ e ret. e)
      (λ e ret. ret)
