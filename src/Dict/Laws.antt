-- ===== src/Dict/Laws.antt =====
-- The laws of the dictionary.
use swarm_kill_chain_medium.Prelude.{
  ◌+◌, ◌≡◌, refl, true, false, none, some, [], ◌∷◌, arith, Equality, length, if◌then◌else◌,
}
use swarm_kill_chain_medium.Dict.{Dict, get, put, remove, keys, elem, Distinct}

module _ {K V : Type 0} ⦃e : Equality K⦄ where
  pub get-put :
      (d : Dict K V) (k j : K) (v : V)
      → get (put d k v) j ≡ (if e.equal k j then some v else get d j)
  unfolding get put
  get-put [] k j v = refl
  get-put ((i, w) ∷ d) k j v =
      ground (arith, e.equal_iff k j, e.equal_iff i k, e.equal_iff i j, get-put d k j v)

  pub elem-put :
      (d : Dict K V) (k j : K) (v : V)
      → elem j (keys (put d k v)) ≡ (if e.equal k j then true else elem j (keys d))
  unfolding put
  elem-put [] k j v = refl
  elem-put ((i, w) ∷ d) k j v =
      ground (arith, e.equal_iff k j, e.equal_iff i k, e.equal_iff i j, elem-put d k j v)

  pub put-Distinct :
      (d : Dict K V) (k : K) (v : V) → Distinct (keys d) → Distinct (keys (put d k v))
  unfolding put
  put-Distinct [] k v h = (refl, tt)
  put-Distinct ((i, w) ∷ d) k v h =
      ground (arith, e.equal_iff i k, e.equal_iff k i, elem-put d k i v, put-Distinct d k v h.1)

  pub elem-remove-false :
      (d : Dict K V) (k j : K) → elem j (keys d) ≡ false → elem j (keys (remove d k)) ≡ false
  unfolding remove
  elem-remove-false [] k j h = refl
  elem-remove-false ((i, w) ∷ d) k j h = ground (arith, elem-remove-false d k j)

  pub remove-Distinct : (d : Dict K V) (k : K) → Distinct (keys d) → Distinct (keys (remove d k))
  unfolding remove
  remove-Distinct [] k h = tt
  remove-Distinct ((i, w) ∷ d) k h =
      ground (arith, elem-remove-false d k i, remove-Distinct d k h.1)

  pub get_of_not-elem : (d : Dict K V) (k : K) → elem k (keys d) ≡ false → get d k ≡ none
  unfolding get
  get_of_not-elem [] k h = refl
  get_of_not-elem ((i, w) ∷ d) k h = ground (arith, get_of_not-elem d k)

  pub get-remove :
      (d : Dict K V) (k j : K)
      → Distinct (keys d)
      → get (remove d k) j ≡ (if e.equal k j then none else get d j)
  unfolding get remove
  get-remove [] k j h = ground arith
  get-remove ((i, w) ∷ d) k j h = ground (
    arith,
    e.equal_iff k j,
    e.equal_iff i k,
    e.equal_iff i j,
    get-remove d k j h.1,
    get_of_not-elem d j,
  )

  pub length-put :
      (d : Dict K V) (k : K) (v : V)
      → length (put d k v) ≡ (if elem k (keys d) then length d else length d + 1)
  unfolding put
  length-put [] k v = refl
  length-put ((i, w) ∷ d) k v = ground (arith, length-put d k v)

  pub length-remove :
      (d : Dict K V) (k : K)
      → length d ≡ (if elem k (keys d) then length (remove d k) + 1 else length (remove d k))
  unfolding remove
  length-remove [] k = refl
  length-remove ((i, w) ∷ d) k = ground (arith, length-remove d k)

  pub get-put_self : (d : Dict K V) (k : K) (v : V) → get (put d k v) k ≡ some v
  unfolding get put
  get-put_self [] k v = ground (arith, (e.equal_iff k k).1 refl)
  get-put_self ((i, w) ∷ d) k v = ground (arith, (e.equal_iff k k).1 refl, get-put_self d k v)
