-- ===== src/Dict/Texts.antt =====
-- `sorted` of texts, which compares code points.
use Prim.Native.Char.{code}
use swarm_kill_chain_medium.Prelude.{
  ◌≡◌, refl, String, Bool, true, false, List, [], ◌∷◌, ltb, ◌==◌, arith, string_equality,
  if◌then◌else◌,
}
use swarm_kill_chain_medium.Dict.{elem}

unfoldable pub text_less : String → String → Bool
text_less String.[] String.[] = false
text_less String.[] (String.◌∷◌ d t) = true
text_less (String.◌∷◌ c s) String.[] = false
text_less (String.◌∷◌ c s) (String.◌∷◌ d t) =
    let later = text_less s t in if code c == code d then later else ltb (code c) (code d)

unfoldable pub insert_text : String → List String → List String
unfolding text_less
insert_text k [] = k ∷ []
insert_text k (j ∷ ks) =
    let rest = insert_text k ks in if text_less k j then k ∷ j ∷ ks else j ∷ rest

unfoldable pub sort_texts : List String → List String
unfolding insert_text
sort_texts [] = []
sort_texts (k ∷ ks) = insert_text k (sort_texts ks)

elem-insert_text :
    (k j : String) (ks : List String)
    → elem j (insert_text k ks) ≡ (if string_equality.equal k j then true else elem j ks)
unfolding insert_text
elem-insert_text k j [] =
    ground (arith, string_equality.equal_iff j k, string_equality.equal_iff k j)
elem-insert_text k j (i ∷ ks) =
    ground
      (arith, elem-insert_text k j ks, string_equality.equal_iff j k, string_equality.equal_iff k j)

-- Sorting loses no text and adds none.
pub elem-sort_texts : (j : String) (ks : List String) → elem j (sort_texts ks) ≡ elem j ks
unfolding sort_texts
elem-sort_texts j [] = refl
elem-sort_texts j (k ∷ ks) = ground (
  arith,
  elem-insert_text k j (sort_texts ks),
  elem-sort_texts j ks,
  string_equality.equal_iff j k,
  string_equality.equal_iff k j,
)
