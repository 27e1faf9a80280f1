-- ===== src/Cluster/Saved/Laws.antt =====
-- What a restart gets back from the saved clusters (native/session_cluster.py).
use mathlib.Core.List.{append_assoc}
use swarm_kill_chain_medium.Prelude.{
  suc, ◌-◌, ◌*◌, ◌/◌, ◌≡◌, refl, ap, ◌∙◌, sym, Bool-cases, inl, inr, Option, none, some, String,
  false, List, [], ◌∷◌, ◌++◌, arith, append-nil, string_equality,
}
use swarm_kill_chain_medium.Prelude.Int.{ℤ, pos, negsuc, sub_ℕ}
use swarm_kill_chain_medium.Dict.{Dict, get, put, keys, elem, Distinct}
use swarm_kill_chain_medium.Dict.Texts.{sort_texts, elem-sort_texts}
use swarm_kill_chain_medium.Json.{Json, fields_of, to_fields, items_of, to_items, truthy, Python}
use swarm_kill_chain_medium.Cluster.Session.{Cluster}
use swarm_kill_chain_medium.Cluster.Saved.{
  got, number, whole, texts, set_of, to_dict, list_of, kinds_of, int_of, float_of, cluster_of,
  from_dict, restore_onto, restore_state, to_state, keep_entry,
}

items_of-to_items : (xs : List Json) → items_of (to_items xs) ≡ xs
unfolding items_of to_items
items_of-to_items [] = refl
items_of-to_items (x ∷ xs) = ap (◌∷◌ x) (items_of-to_items xs)

whole-number : (python : Python) (z : ℤ) → int_of python (number z) ≡ got z
unfolding int_of number whole
whole-number python (pos n) = let e : (n * 1000) / 1000 ≡ n = omega arith in rw e refl
whole-number python (negsuc n) =
    let e : suc (suc n * 1000 - 1) / 1000 ≡ suc n = omega arith in
    let f : sub_ℕ 0 (suc n) ≡ negsuc n = ground arith in rw e (ap got f)

kinds_of-texts : (ks : List String) → kinds_of (texts ks) ≡ got ks
unfolding kinds_of
kinds_of-texts [] = refl
kinds_of-texts (k ∷ ks) = rw (kinds_of-texts ks) refl

elem-set_of : (j : String) (ks : List String) → elem j (set_of ks) ≡ elem j ks
unfolding set_of
elem-set_of j [] = refl
elem-set_of j (k ∷ ks) =
    ground (arith, elem-set_of j ks, elem-set_of k ks, string_equality.equal_iff k j)

-- The cluster that comes back.
abbrev pub reread : Cluster → Cluster
reread c = record c { alerted_event_kinds = set_of (sort_texts c.alerted_event_kinds) }

abbrev pub reread_all : Dict String Cluster → Dict String Cluster
reread_all [] = []
reread_all ((k, c) ∷ d) = (k, reread c) ∷ reread_all d

pub from_dict-reread :
    (python : Python) (c : Cluster) → from_dict python (to_dict c) ≡ got (reread c)
unfolding from_dict cluster_of to_dict fields_of to_fields get list_of float_of truthy
from_dict-reread python c =
    rw
      (
        whole-number python c.raw_event_count,
        items_of-to_items c.commands,
        items_of-to_items c.suspicious_commands,
        items_of-to_items c.files_downloaded,
        items_of-to_items c.files_uploaded,
        items_of-to_items (texts (sort_texts c.alerted_event_kinds)),
        kinds_of-texts (sort_texts c.alerted_event_kinds),
      )
      refl

-- What `to_dict` writes, `from_dict` reads back: every field is as it was, and the kinds of event that
-- were alerted are the same ones, so that no event is taken for new after a restart. No exception is
-- raised.
pub from_dict-to_dict :
    (python : Python) (c : Cluster) (kind : String)
    → (from_dict python (to_dict c) ≡ got (reread c))
      × (elem kind (reread c).alerted_event_kinds ≡ elem kind c.alerted_event_kinds)
from_dict-to_dict python c kind = (
  from_dict-reread python c,
  elem-set_of kind (sort_texts c.alerted_event_kinds) ∙ elem-sort_texts kind c.alerted_event_kinds,
)

put_fresh :
    (acc : Dict String Cluster) (k : String) (c : Cluster)
    → elem k (keys acc) ≡ false
    → put acc k c ≡ acc ++ (k, c) ∷ []
unfolding put
put_fresh [] k c h = refl
put_fresh ((j, d) ∷ acc) k c h = ground (arith, put_fresh acc k c, string_equality.equal_iff j k)

-- No key of `d` is one of `acc`.
abbrev Fresh : Dict String Cluster → Dict String Cluster → Type 0
Fresh acc [] = Unit
Fresh acc ((k, c) ∷ d) = (elem k (keys acc) ≡ false) × Fresh acc d

Fresh-append :
    (acc d : Dict String Cluster) (k : String) (c : Cluster)
    → elem k (keys d) ≡ false
    → Fresh acc d
    → Fresh (acc ++ (k, c) ∷ []) d
Fresh-append acc [] k c h f = tt
Fresh-append acc ((j, b) ∷ d) k c h f = (last acc f.0, Fresh-append acc d k c (ground arith) f.1)
  where
    last :
        (xs : Dict String Cluster)
        → elem j (keys xs) ≡ false
        → elem j (keys (xs ++ (k, c) ∷ [])) ≡ false
    last [] e = ground (arith, string_equality.equal_iff j k, string_equality.equal_iff k j)
    last ((i, a) ∷ xs) e = ground (arith, last xs)

restore_onto_all :
    (python : Python) (acc d : Dict String Cluster)
    → Distinct (keys d)
    → Fresh acc d
    → restore_onto python acc (to_state d) ≡ got (acc ++ reread_all d)
unfolding restore_onto to_state keep_entry
restore_onto_all python acc [] s f = ap got (sym (append-nil acc))
restore_onto_all python acc ((k, c) ∷ d) s f =
    rw (from_dict-reread python c, put_fresh acc k (reread c) f.0)
      (restore_onto_all python (acc ++ (k, reread c) ∷ []) d s.1
          (Fresh-append acc d k (reread c) s.0 f.1)
        ∙ ap got (append_assoc acc ((k, reread c) ∷ []) (reread_all d)))

-- What `to_state` writes, `restore_state` turns into the same clusters under the same keys, in the same
-- order, when the manager's keys are distinct; only the order of a cluster's alerted kinds may differ.
pub restore_state-to_state :
    (python : Python) (d : Dict String Cluster)
    → Distinct (keys d)
    → restore_state python (to_state d) ≡ got (reread_all d)
unfolding restore_state
restore_state-to_state python d s = restore_onto_all python [] d s (nothing d)
  where
    nothing : (xs : Dict String Cluster) → Fresh [] xs
    nothing [] = tt
    nothing ((k, c) ∷ xs) = (refl, nothing xs)

abbrev pub saved_as : Option Cluster → Option Json
saved_as none = none
saved_as (some c) = some (to_dict c)

pub get-to_state : (d : Dict String Cluster) (k : String) → get (to_state d) k ≡ saved_as (get d k)
unfolding to_state get
get-to_state [] k = refl
get-to_state ((j, c) ∷ d) k = elim (Bool-cases (string_equality.equal j k)) [
  | inl e ↦ rw e refl
  | inr e ↦ rw e (get-to_state d k)
]
