-- ===== src/Dict/Ordered.antt =====
-- The order of the sorted items of a dictionary, and of those that are taken first.
use mathlib.Core.Path.{subst}
use swarm_kill_chain_medium.Prelude.{
  ℕ, zero, suc, ◌≡◌, Bool, true, false, some, [], ◌∷◌, arith, take, All, Equality, some-injective,
  by_if, if◌then◌else◌,
}
use swarm_kill_chain_medium.Dict.{Dict, get, keys, elem}
use swarm_kill_chain_medium.Dict.Sorting.{insert_item, sort_onto, sort_items}

module _ {K V : Type 0} (lt : V → V → Bool) where
  -- No later item is less than an earlier one.
  abbrev pub Ordered : Dict K V → Type 0
  Ordered [] = Unit
  Ordered ((k, v) ∷ d) = All (λ (x : K × V). lt x.1 v ≡ false) d × Ordered d

  -- The two laws of the comparison of the sort keys.
  module _ (asym : (v w : V) → lt v w ≡ true → lt w v ≡ false)
      (chain : (v w x : V) → lt v w ≡ true → lt x w ≡ false → lt x v ≡ false) where
    All-chain :
        (v w : V) (d : Dict K V)
        → lt v w ≡ true
        → All (λ (x : K × V). lt x.1 w ≡ false) d
        → All (λ (x : K × V). lt x.1 v ≡ false) d
    All-chain v w [] h a = tt
    All-chain v w (x ∷ d) h a = (chain v w x.1 h a.0, All-chain v w d h a.1)

    All-insert :
        (w : V) (item : K × V) (d : Dict K V)
        → lt item.1 w ≡ false
        → All (λ (x : K × V). lt x.1 w ≡ false) d
        → All (λ (x : K × V). lt x.1 w ≡ false) (insert_item lt item d)
    unfolding insert_item
    All-insert w (k, v) [] h a = (h, tt)
    All-insert w (k, v) ((j, u) ∷ d) h a =
        by_if (All (λ (x : K × V). lt x.1 w ≡ false)) (lt v u) (λ _. (h, a))
          (λ _. (a.0, All-insert w (k, v) d h a.1))

    insert-Ordered : (item : K × V) (d : Dict K V) → Ordered d → Ordered (insert_item lt item d)
    unfolding insert_item
    insert-Ordered (k, v) [] o = (tt, tt)
    insert-Ordered (k, v) ((j, w) ∷ d) o =
        by_if Ordered (lt v w) (λ h. ((asym v w h, All-chain v w d h o.0), o))
          (λ h. (All-insert w (k, v) d h o.0, insert-Ordered (k, v) d o.1))

    sort_onto-Ordered : (sorted d : Dict K V) → Ordered sorted → Ordered (sort_onto lt sorted d)
    unfolding sort_onto
    sort_onto-Ordered sorted [] o = o
    sort_onto-Ordered sorted (item ∷ d) o =
        sort_onto-Ordered (insert_item lt item sorted) d (insert-Ordered item sorted o)

    pub sort_items-Ordered : (d : Dict K V) → Ordered (sort_items lt d)
    unfolding sort_items
    sort_items-Ordered d = sort_onto-Ordered [] d tt

  module _ ⦃e : Equality K⦄ where
    All-get :
        (P : V → Type 0) (d : Dict K V) (j : K) (v : V)
        → All (λ (x : K × V). P x.1) d
        → get d j ≡ some v
        → P v
    unfolding get
    All-get P [] j v a h = absurd (cc)
    All-get P ((i, w) ∷ d) j v a h = found (e.equal i j) (All-get P d j v a.1) h
      where
        found :
            (b : Bool) → (get d j ≡ some v → P v) → (if b then some w else get d j) ≡ some v → P v
        found true later g = subst P (some-injective g) a.0
        found false later g = later g

    -- What is not among the first items is not less than one of them.
    pub take-Ordered :
        (n : ℕ) (d : Dict K V) (k j : K) (v w : V)
        → Ordered d
        → get (take n d) k ≡ some v
        → elem j (keys (take n d)) ≡ false
        → get d j ≡ some w
        → lt w v ≡ false
    unfolding get
    take-Ordered zero d k j v w o first apart h = absurd (cc)
    take-Ordered (suc n) [] k j v w o first apart h = absurd (cc)
    take-Ordered (suc n) ((i, u) ∷ d) k j v w o first apart h =
        at (e.equal i k) (λ g. take-Ordered n d k j v w o.1 g (ground (arith, apart)) rest) first
      where
        rest : get d j ≡ some w
        rest = ground (arith, apart, h)

        at :
            (b : Bool)
            → (get (take n d) k ≡ some v → lt w v ≡ false)
            → (if b then some u else get (take n d) k) ≡ some v
            → lt w v ≡ false
        at true later g =
            All-get (λ x. lt x v ≡ false) d j w
              (subst (λ x. All (λ (y : K × V). lt y.1 x ≡ false) d) (some-injective g) o.0) rest
        at false later g = later g
