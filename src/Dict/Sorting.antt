-- ===== src/Dict/Sorting.antt =====
-- `sorted(d.items(), key=...)` as a stable insertion sort, and the removal of the first entries, which
-- the clusters and the lookup cache both use to stay within their bounds.
use swarm_kill_chain_medium.Prelude.{
  ℕ, zero, suc, ◌+◌, ◌≤◌, ◌≡◌, refl, ◌∙◌, ap, Bool, true, false, none, List, [], ◌∷◌, arith, length,
  take, All, All-take, Equality, length-take, some, sym, by_if, Bool-cases, inl, inr, if◌then◌else◌,
}
use swarm_kill_chain_medium.Dict.{Dict, get, remove, remove_all, keys, elem, Distinct}
use swarm_kill_chain_medium.Dict.Laws.{get_of_not-elem, get-remove, length-remove, remove-Distinct}

module _ {K V : Type 0} (lt : V → V → Bool) where
  -- `lt` compares the sort keys: an entry goes behind those that it is not less than.
  unfoldable pub insert_item : K × V → Dict K V → Dict K V
  insert_item (k, v) [] = (k, v) ∷ []
  insert_item (k, v) ((j, w) ∷ d) =
      if lt v w then (k, v) ∷ (j, w) ∷ d else (j, w) ∷ insert_item (k, v) d

  -- The items so far, sorted, and those to come; later ones go behind equal ones.
  unfoldable pub sort_onto : Dict K V → Dict K V → Dict K V
  unfolding insert_item
  sort_onto sorted [] = sorted
  sort_onto sorted (item ∷ d) = sort_onto (insert_item item sorted) d

  unfoldable pub sort_items : Dict K V → Dict K V
  unfolding sort_onto
  sort_items d = sort_onto [] d

  module _ ⦃e : Equality K⦄ where
    elem-insert :
        (k : K) (v : V) (d : Dict K V) (j : K)
        → elem j (keys (insert_item (k, v) d)) ≡ (if e.equal k j then true else elem j (keys d))
    unfolding insert_item
    elem-insert k v [] j = refl
    elem-insert k v ((i, w) ∷ d) j = ground (arith, elem-insert k v d j)

    insert-Distinct :
        (k : K) (v : V) (d : Dict K V)
        → elem k (keys d) ≡ false
        → Distinct (keys d)
        → Distinct (keys (insert_item (k, v) d))
    unfolding insert_item
    insert-Distinct k v [] h s = (refl, tt)
    insert-Distinct k v ((i, w) ∷ d) h s =
        ground (arith, e.equal_iff i k, e.equal_iff k i, elem-insert k v d i, insert-Distinct k v d)

    length-insert : (k : K) (v : V) (d : Dict K V) → length (insert_item (k, v) d) ≡ suc (length d)
    unfolding insert_item
    length-insert k v [] = refl
    length-insert k v ((i, w) ∷ d) = ground (arith, length-insert k v d)

    -- The keys of both parts together are distinct.
    abbrev Apart : Dict K V → Dict K V → Type 0
    Apart sorted [] = Distinct (keys sorted)
    Apart sorted ((k, v) ∷ d) =
        (elem k (keys sorted) ≡ false) × (elem k (keys d) ≡ false) × Apart sorted d

    Apart-insert :
        (k : K) (v : V) (sorted d : Dict K V)
        → elem k (keys sorted) ≡ false
        → elem k (keys d) ≡ false
        → Apart sorted d
        → Apart (insert_item (k, v) sorted) d
    Apart-insert k v sorted [] a b s = insert-Distinct k v sorted a s
    Apart-insert k v sorted ((i, w) ∷ d) a b s = (
      ground (arith, elem-insert k v sorted i, e.equal_iff i k, e.equal_iff k i),
      s.1,
      Apart-insert k v sorted d a (ground arith) s.2,
    )

    sort_onto-Distinct :
        (sorted d : Dict K V) → Apart sorted d → Distinct (keys (sort_onto sorted d))
    unfolding sort_onto
    sort_onto-Distinct sorted [] s = s
    sort_onto-Distinct sorted ((k, v) ∷ d) s =
        sort_onto-Distinct (insert_item (k, v) sorted) d (Apart-insert k v sorted d s.0 s.1 s.2)

    elem-sort_onto :
        (sorted d : Dict K V) (j : K)
        → elem j (keys (sort_onto sorted d))
          ≡ (if elem j (keys d) then true else elem j (keys sorted))
    unfolding sort_onto
    elem-sort_onto sorted [] j = refl
    elem-sort_onto sorted ((k, v) ∷ d) j =
        ground (arith, elem-sort_onto (insert_item (k, v) sorted) d j, elem-insert k v sorted j)

    length-sort_onto :
        (sorted d : Dict K V) → length (sort_onto sorted d) ≡ length sorted + length d
    unfolding sort_onto
    length-sort_onto sorted [] = omega arith
    length-sort_onto sorted ((k, v) ∷ d) =
        omega (arith, length-sort_onto (insert_item (k, v) sorted) d, length-insert k v sorted)

module _ {K V : Type 0} ⦃e : Equality K⦄ where
  Apart-nil : (lt : V → V → Bool) (d : Dict K V) → Distinct (keys d) → Apart lt [] d
  Apart-nil lt [] s = tt
  Apart-nil lt ((k, v) ∷ d) s = (refl, s.0, Apart-nil lt d s.1)

  pub elem-remove_ne :
      (d : Dict K V) (k j : K) → e.equal k j ≡ false → elem j (keys (remove d k)) ≡ elem j (keys d)
  unfolding remove
  elem-remove_ne [] k j h = refl
  elem-remove_ne ((i, w) ∷ d) k j h =
      ground (arith, e.equal_iff i k, e.equal_iff i j, e.equal_iff k j, elem-remove_ne d k j h)

  abbrev AllIn : Dict K V → List K → Type 0
  AllIn d ks = All (λ k. elem k (keys d) ≡ true) ks

  AllIn-remove :
      (d : Dict K V) (k : K) (ks : List K) → elem k ks ≡ false → AllIn d ks → AllIn (remove d k) ks
  AllIn-remove d k [] h a = tt
  AllIn-remove d k (j ∷ ks) h a = (
    ground (arith, elem-remove_ne d k j, e.equal_iff j k, e.equal_iff k j),
    AllIn-remove d k ks (ground arith) a.1,
  )

  length-remove_all :
      (d : Dict K V) (ks : List K)
      → Distinct ks
      → AllIn d ks
      → length (remove_all d ks) + length ks ≡ length d
  unfolding remove_all
  length-remove_all d [] s a = omega arith
  length-remove_all d (k ∷ ks) s a =
      let ih = length-remove_all (remove d k) ks s.1 (AllIn-remove d k ks s.0 a.1) in
      ground (arith, ih, length-remove d k)

  keys-take : (n : ℕ) (d : Dict K V) → keys (take n d) ≡ take n (keys d)
  keys-take zero d = refl
  keys-take (suc n) [] = refl
  keys-take (suc n) ((k, v) ∷ d) = ap (◌∷◌ k) (keys-take n d)

  length-keys : (d : Dict K V) → length (keys d) ≡ length d
  length-keys [] = refl
  length-keys ((k, v) ∷ d) = ap suc (length-keys d)

  elem_of_keys : (d : Dict K V) → AllIn d (keys d)
  elem_of_keys d = within d d (λ j h. h)
    where
      within :
          (part whole : Dict K V)
          → ((j : K) → elem j (keys part) ≡ true → elem j (keys whole) ≡ true)
          → All (λ k. elem k (keys whole) ≡ true) (keys part)
      within [] whole h = tt
      within ((k, v) ∷ part) whole h = (
        h k (ground (arith, (e.equal_iff k k).1 refl)),
        within part whole (λ j m. h j (ground arith)),
      )

module _ {K : Type 0} ⦃e : Equality K⦄ where
  elem-take : (n : ℕ) (ks : List K) (j : K) → elem j ks ≡ false → elem j (take n ks) ≡ false
  elem-take zero ks j h = refl
  elem-take (suc n) [] j h = refl
  elem-take (suc n) (k ∷ ks) j h = ground (arith, elem-take n ks j)

  take-Distinct : (n : ℕ) (ks : List K) → Distinct ks → Distinct (take n ks)
  take-Distinct zero ks h = tt
  take-Distinct (suc n) [] h = tt
  take-Distinct (suc n) (k ∷ ks) h = (elem-take n ks k h.0, take-Distinct n ks h.1)

module _ {K V : Type 0} (lt : V → V → Bool) ⦃e : Equality K⦄ where
  AllIn-sorted : (d : Dict K V) → AllIn d (keys (sort_items lt d))
  unfolding sort_items
  AllIn-sorted d =
      All-weaken (keys (sort_items lt d)) (λ k h. ground (arith, elem-sort_onto lt [] d k))
        (elem_of_keys (sort_items lt d))
    where
      All-weaken :
          (ks : List K)
          → ((k : K) → elem k (keys (sort_items lt d)) ≡ true → elem k (keys d) ≡ true)
          → All (λ k. elem k (keys (sort_items lt d)) ≡ true) ks
          → All (λ k. elem k (keys d) ≡ true) ks
      All-weaken [] f h = tt
      All-weaken (k ∷ ks) f h = (f k h.0, All-weaken ks f h.1)

  pub length-sort_items : (d : Dict K V) → length (sort_items lt d) ≡ length d
  unfolding sort_items
  length-sort_items d = length-sort_onto lt [] d ∙ omega arith

  -- The removal of the first `n` entries of the sorted items leaves `n` fewer.
  pub length-remove_sorted :
      (n : ℕ) (d : Dict K V)
      → Distinct (keys d)
      → n ≤ length d
      → length (remove_all d (keys (take n (sort_items lt d)))) + n ≡ length d
  length-remove_sorted n d s h =
      let sorted = keys (sort_items lt d) in
      let size : length (take n sorted) ≡ n =
        omega (arith, length-take n sorted, length-keys (sort_items lt d), length-sort_items d) in
      let distinct : Distinct sorted =
        unfold sort_items in sort_onto-Distinct lt [] d (Apart-nil lt d s) in
      rw keys-take (
        omega (
          arith,
          size,
          length-remove_all d (take n sorted) (take-Distinct n sorted distinct)
              (All-take (λ k. elem k (keys d) ≡ true) n sorted (AllIn-sorted d)),
        ))

module _ {K V : Type 0} ⦃e : Equality K⦄ where
  pub get-remove_all :
      (d : Dict K V) (ks : List K) (j : K)
      → Distinct (keys d)
      → get (remove_all d ks) j ≡ (if elem j ks then none else get d j)
  unfolding remove_all
  get-remove_all d [] j s = refl
  get-remove_all d (k ∷ ks) j s =
      ground (arith, get-remove_all (remove d k) ks j (remove-Distinct d k s), get-remove d k j s)

  pub remove_all-Distinct :
      (d : Dict K V) (ks : List K) → Distinct (keys d) → Distinct (keys (remove_all d ks))
  unfolding remove_all
  remove_all-Distinct d [] s = s
  remove_all-Distinct d (k ∷ ks) s = remove_all-Distinct (remove d k) ks (remove-Distinct d k s)

module _ {K V : Type 0} (lt : V → V → Bool) ⦃e : Equality K⦄ where
  get-insert :
      (k : K) (v : V) (d : Dict K V) (j : K)
      → elem k (keys d) ≡ false
      → get (insert_item lt (k, v) d) j ≡ (if e.equal k j then some v else get d j)
  unfolding insert_item get
  get-insert k v [] j h = refl
  get-insert k v ((i, w) ∷ d) j h =
      by_if (λ (x : Dict K V). get x j ≡ (if e.equal k j then some v else get ((i, w) ∷ d) j))
        (lt v w) (λ _. refl)
        (λ _. rw (get-insert k v d j (ground arith)) (behind (e.equal i j) refl))
    where
      apart : e.equal i j ≡ true → e.equal k j ≡ false
      apart m = elim (Bool-cases (e.equal k j)) [
        | inl m' ↦ absurd (
            ground (
              arith,
              h,
              (e.equal_iff i k).1 ((e.equal_iff i j).0 m ∙ sym ((e.equal_iff k j).0 m')),
            ))
        | inr m' ↦ m'
      ]

      behind :
          (b : Bool)
          → e.equal i j ≡ b
          → (if b then some w else (if e.equal k j then some v else get d j))
            ≡ (if e.equal k j then some v else (if b then some w else get d j))
      behind true m = rw (apart m) refl
      behind false m = refl

  get-sort_onto :
      (sorted d : Dict K V) (j : K)
      → Apart lt sorted d
      → get (sort_onto lt sorted d) j ≡ (if elem j (keys d) then get d j else get sorted j)
  unfolding sort_onto get
  get-sort_onto sorted [] j s = refl
  get-sort_onto sorted ((k, v) ∷ d) j s = ground (
    arith,
    get-sort_onto (insert_item lt (k, v) sorted) d j (Apart-insert lt k v sorted d s.0 s.1 s.2),
    get-insert k v sorted j s.0,
    e.equal_iff k j,
    s.1,
  )

  -- Sorting keeps what each key holds.
  pub get-sort_items :
      (d : Dict K V) (j : K) → Distinct (keys d) → get (sort_items lt d) j ≡ get d j
  unfolding sort_items
  get-sort_items d j s = ground (
    arith,
    get-sort_onto [] d j (Apart-nil lt d s),
    get_of_not-elem d j,
    get_of_not-elem {V = V} [] j refl,
  )

  pub sort_items-Distinct : (d : Dict K V) → Distinct (keys d) → Distinct (keys (sort_items lt d))
  unfolding sort_items
  sort_items-Distinct d s = sort_onto-Distinct lt [] d (Apart-nil lt d s)

module _ {K V : Type 0} ⦃e : Equality K⦄ where
  -- What the first entries of a dictionary hold.
  pub get-take :
      (n : ℕ) (d : Dict K V) (j : K)
      → Distinct (keys d)
      → get (take n d) j ≡ (if elem j (keys (take n d)) then get d j else none)
  unfolding get
  get-take zero d j s = refl
  get-take (suc n) [] j s = refl
  get-take (suc n) ((k, v) ∷ d) j s = ground (arith, get-take n d j s.1)

  pub keys-take-Distinct : (n : ℕ) (d : Dict K V) → Distinct (keys d) → Distinct (keys (take n d))
  keys-take-Distinct n d s = rw keys-take (take-Distinct n (keys d) s)
