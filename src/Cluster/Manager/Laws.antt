-- ===== src/Cluster/Manager/Laws.antt =====
-- What the manager keeps, and which clusters leave it (`SessionClusterManager` of
-- native/session_cluster.py).
use swarm_kill_chain_medium.Prelude.{
  ℕ, zero, suc, ◌-◌, ◌≤◌, ◌≡◌, min, refl, String, Bool, true, false, List, ◌⊎◌, inl, inr, ◌∙◌,
  Bool-cases, Option, none, some, [], ◌∷◌, arith, length, take, string_equality, if◌then◌else◌,
}
use swarm_kill_chain_medium.Float.{Float, flt}
use swarm_kill_chain_medium.Float.Laws.{flt_asym, flt_chain}
use swarm_kill_chain_medium.Dict.{Dict, get, remove_all, keys, values, elem, Distinct}
use swarm_kill_chain_medium.Dict.Laws.{get_of_not-elem}
use swarm_kill_chain_medium.Dict.Sorting.{
  get-sort_items, sort_items-Distinct, get-take, keys-take-Distinct, sort_items, length-sort_items,
  length-remove_sorted, remove_all-Distinct, get-remove_all,
}
use swarm_kill_chain_medium.Dict.Ordered.{take-Ordered, sort_items-Ordered}
use swarm_kill_chain_medium.Cluster.Session.{Cluster}
use swarm_kill_chain_medium.Cluster.Manager.{
  Manager, is_expired, items_where, flush_expired, less_recent, evict_overflow,
}

-- No key of the dictionary occurs twice.
abbrev pub IsValid : Manager → Type 0
IsValid m = Distinct (keys m.clusters)

pub length-values : (d : Dict String Cluster) → length (values d) ≡ length d
length-values [] = refl
length-values ((k, c) ∷ d) = omega (arith, length-values d)

length-take_items : (n : ℕ) (d : Dict String Cluster) → n ≤ length d → length (take n d) ≡ n
length-take_items zero d h = refl
length-take_items (suc n) [] h = absurd (omega arith)
length-take_items (suc n) (x ∷ d) h = omega (arith, length-take_items n d (omega arith))

less_recent_asym : (v w : Cluster) → less_recent v w ≡ true → less_recent w v ≡ false
unfolding flt
less_recent_asym v w h = flt_asym v.last_activity_at w.last_activity_at h

less_recent_chain :
    (v w x : Cluster) → less_recent v w ≡ true → less_recent x w ≡ false → less_recent x v ≡ false
less_recent_chain v w x = flt_chain v.last_activity_at w.last_activity_at x.last_activity_at

-- What a key held is with the clusters that left, or still in the manager, and nowhere else.
abbrev pub Splits : Option Cluster → Option Cluster → Option Cluster → Type 0
Splits before left stays = ((left ≡ before) × (stays ≡ none)) ⊎ ((left ≡ none) × (stays ≡ before))

-- The second cluster's last activity is not before that of the first, where both are there.
abbrev pub NotBefore : Option Cluster → Option Cluster → Type 0
NotBefore (some c) (some d) = less_recent d c ≡ false
NotBefore _ _ = Unit

-- Eviction of `out`: these are the clusters that are returned, as many as exceed the bound; every key holds
-- what it held, in `out` or in the manager; and none that stays is less recently active than one that left.
abbrev pub Evicts : Manager → List Cluster × Manager → Dict String Cluster → Type 0
Evicts m (evicted, left) out =
    (evicted ≡ values out)
    × (length out ≡ length m.clusters - m.max_active_clusters)
    × (length left.clusters ≡ min (length m.clusters) m.max_active_clusters)
    × Distinct (keys out)
    × ((k : String) → Splits (get m.clusters k) (get out k) (get left.clusters k))
    × ((j k : String) → NotBefore (get out k) (get left.clusters j))

-- Eviction returns as many clusters as exceed the bound, none if none does. None is lost: each key's cluster
-- is among those returned or stays in the manager, and not both. No cluster that stays has its last
-- activity before that of one that left. The keys of the manager stay distinct.
pub evict_overflow_exact :
    (m : Manager)
    → IsValid m
    → ((out : Dict String Cluster) × Evicts m (evict_overflow m) out) × IsValid (evict_overflow m).1
unfolding evict_overflow
evict_overflow_exact m s =
    let many =
      length-take_items overflow sorted (omega (arith, length-sort_items less_recent m.clusters)) in
    let left = length-remove_sorted less_recent overflow m.clusters s (omega arith) in
    (
      (
        out,
        (
          refl,
          many,
          omega (arith, left),
          keys-take-Distinct overflow sorted sorted_distinct,
          splits,
          order,
        ),
      ),
      remove_all-Distinct m.clusters _ s,
    )
  where
    overflow : ℕ
    overflow = length m.clusters - m.max_active_clusters

    sorted : Dict String Cluster
    sorted = sort_items less_recent m.clusters

    out : Dict String Cluster
    out = take overflow sorted

    sorted_distinct : Distinct (keys sorted)
    sorted_distinct = sort_items-Distinct less_recent m.clusters s

    by_key :
        {o : Option Cluster} (b : Bool) → Splits o (if b then o else none) (if b then none else o)
    by_key true = inl (refl, refl)
    by_key false = inr (refl, refl)

    splits :
        (k : String)
        → Splits (get m.clusters k) (get out k) (get (remove_all m.clusters (keys out)) k)
    splits k =
        rw
          (
            get-take overflow sorted k sorted_distinct,
            get-remove_all m.clusters (keys out) k s,
            get-sort_items less_recent m.clusters k s,
          )
          (by_key (elem k (keys out)))

    later :
        (j k : String) (c d : Cluster)
        → get out k ≡ some c
        → get (remove_all m.clusters (keys out)) j ≡ some d
        → less_recent d c ≡ false
    later j k c d first stays = elim (Bool-cases (elem j (keys out))) [
      | inl gone ↦ absurd (ground (arith, gone, stays, get-remove_all m.clusters (keys out) j s))
      | inr apart ↦
          take-Ordered less_recent overflow sorted k j c d
            (sort_items-Ordered less_recent less_recent_asym less_recent_chain m.clusters) first
            apart
            (get-sort_items less_recent m.clusters j s
              ∙ ground (arith, apart, stays, get-remove_all m.clusters (keys out) j s))
    ]

    order : (j k : String) → NotBefore (get out k) (get (remove_all m.clusters (keys out)) j)
    order j k = by_cases (get out k) (get (remove_all m.clusters (keys out)) j) refl refl
      where
        by_cases :
            (o p : Option Cluster)
            → get out k ≡ o
            → get (remove_all m.clusters (keys out)) j ≡ p
            → NotBefore o p
        by_cases none p f g = tt
        by_cases (some c) none f g = tt
        by_cases (some c) (some d) f g = later j k c d f g

abbrev passes : (Cluster → Bool) → Option Cluster → Bool
passes p none = false
passes p (some c) = p c

elem-items_where-false :
    (p : Cluster → Bool) (d : Dict String Cluster) (k : String)
    → elem k (keys d) ≡ false
    → elem k (keys (items_where p d)) ≡ false
unfolding items_where
elem-items_where-false p [] k h = refl
elem-items_where-false p ((j, c) ∷ d) k h = ground (arith, elem-items_where-false p d k)

elem-items_where :
    (p : Cluster → Bool) (d : Dict String Cluster) (k : String)
    → Distinct (keys d)
    → elem k (keys (items_where p d)) ≡ passes p (get d k)
unfolding items_where get
elem-items_where p [] k s = refl
elem-items_where p ((j, c) ∷ d) k s = ground (
  arith,
  elem-items_where p d k s.1,
  elem-items_where-false p d j s.0,
  string_equality.equal_iff j k,
  get_of_not-elem d j s.0,
)

-- What a key holds after the expired clusters were flushed.
abbrev pub kept : Manager → Float → Option Cluster → Option Cluster
kept m now none = none
kept m now (some c) = if is_expired m now c then none else some c

-- Flushing takes out exactly the clusters that are idle for longer than the window or older than the
-- maximum age, and leaves every other one as it is.
pub get-flush_expired :
    (m : Manager) (now : Float) (k : String)
    → IsValid m
    → get (flush_expired m now).1.clusters k ≡ kept m now (get m.clusters k)
unfolding flush_expired
get-flush_expired m now k s = ground (
  arith,
  get-remove_all m.clusters (keys (items_where (is_expired m now) m.clusters)) k s,
  elem-items_where (is_expired m now) m.clusters k s,
)
