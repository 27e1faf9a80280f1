-- ===== src/Dict.antt =====
-- Python's `dict`, in insertion order: an association list over a key with an equality test. Assigning to a key
-- that is there keeps its place, and a new key goes to the end.
pub mod Laws
pub mod Sorting
pub mod Ordered
pub mod Texts
use swarm_kill_chain_medium.Prelude.{
  Bool, true, false, ◌≡◌, Option, none, some, List, [], ◌∷◌, Equality, if◌then◌else◌,
}

abbrev pub Dict : Type 0 → Type 0 → Type 0
Dict K V = List (K × V)

module _ {K V : Type 0} where
  abbrev pub keys : Dict K V → List K
  keys [] = []
  keys ((k, v) ∷ d) = k ∷ keys d

  abbrev pub values : Dict K V → List V
  values [] = []
  values ((k, v) ∷ d) = v ∷ values d

module _ {K V : Type 0} ⦃e : Equality K⦄ where
  unfoldable pub get : Dict K V → K → Option V
  get [] k = none
  get ((j, v) ∷ d) k = if e.equal j k then some v else get d k

  unfoldable pub put : Dict K V → K → V → Dict K V
  put [] k v = (k, v) ∷ []
  put ((j, w) ∷ d) k v = if e.equal j k then (j, v) ∷ d else (j, w) ∷ put d k v

  -- `d.pop(k, None)` without its result, and `del d[k]` of a key that is there.
  unfoldable pub remove : Dict K V → K → Dict K V
  remove [] k = []
  remove ((j, v) ∷ d) k = if e.equal j k then d else (j, v) ∷ remove d k

  unfoldable pub remove_all : Dict K V → List K → Dict K V
  remove_all d [] = d
  remove_all d (k ∷ ks) = remove_all (remove d k) ks

module _ {K : Type 0} ⦃e : Equality K⦄ where
  -- `k in ks`
  abbrev pub elem : K → List K → Bool
  elem k [] = false
  elem k (j ∷ ks) = if e.equal j k then true else elem k ks

  -- No key occurs twice.
  abbrev pub Distinct : List K → Type 0
  Distinct [] = Unit
  Distinct (k ∷ ks) = (elem k ks ≡ false) × Distinct ks
