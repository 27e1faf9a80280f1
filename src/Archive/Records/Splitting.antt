-- ===== src/Archive/Records/Splitting.antt =====
-- What `complete_records` yields: the one way to split a byte string into LF-terminated records and
-- a last part with no LF.
use swarm_kill_chain_medium.Prelude.{
  ℕ, zero, suc, ◌+◌, ◌≤◌, ◌≡◌, ◌≢◌, ◌↔◌, refl, ap, sym, ◌∙◌, none, some, List, [], ◌∷◌, ◌++◌, arith,
  length, take, drop, All, Option-cases, inl, inr, length-drop, take-append-drop,
}
use mathlib.Core.Path.{subst, ap₂}
use mathlib.Core.List.{append_assoc}
use swarm_kill_chain_medium.Prelude.Text.{Bytes}
use swarm_kill_chain_medium.Archive.Records.{lf, find_lf, records_from, complete_records}

abbrev pub NoLf : Bytes → Type 0
NoLf = All (λ b. b ≢ lf)

-- `Splits cursor data records`: from the offset `cursor` on, `data` is these records, each given
-- with the offset of its end, and a rest with no LF.
pub data Splits : ℕ → Bytes → List (ℕ × Bytes) → Type 0 where
  unfinished : {cursor : ℕ} {rest : Bytes} → NoLf rest → Splits cursor rest []
  record_then :
      {cursor end : ℕ} {segment all : Bytes} {records : List (ℕ × Bytes)} (body rest : Bytes)
      → NoLf body
      → segment ≡ body ++ lf ∷ []
      → end ≡ cursor + length segment
      → all ≡ segment ++ rest
      → Splits end rest records
      → Splits cursor all ((end, segment) ∷ records)

pub find_lf-none : (rest : Bytes) → find_lf rest ≡ none → NoLf rest
unfolding find_lf
find_lf-none [] h = tt
find_lf-none (b ∷ rest) h = (ground arith, find_lf-none rest (ground arith))

pub find_lf-some :
    (rest : Bytes) (i : ℕ)
    → find_lf rest ≡ some i
    → NoLf (take i rest)
      × (take (suc i) rest ≡ take i rest ++ lf ∷ [])
      × (length (take (suc i) rest) ≡ suc i)
unfolding find_lf
find_lf-some [] i h = absurd (cc)
find_lf-some (b ∷ rest) zero h = (tt, ground arith, refl)
find_lf-some (b ∷ rest) (suc i) h =
    let (clean, shape, size) = find_lf-some rest i (ground arith) in
    ((ground arith, clean), ap (◌∷◌ b) shape, ap suc size)

records_from-Splits :
    (fuel cursor : ℕ) (rest : Bytes)
    → length rest ≤ fuel
    → Splits cursor rest (records_from fuel cursor rest)
unfolding records_from
records_from-Splits zero cursor [] enough = unfinished tt
records_from-Splits zero cursor (b ∷ rest) enough = absurd (omega arith)
records_from-Splits (suc fuel) cursor rest enough = elim (Option-cases (find_lf rest)) [
  | inl e ↦ rw (e, records_from) (unfinished (find_lf-none rest e))
  | inr (i, e) ↦
      let (clean, shape, size) = find_lf-some rest i e in
      rw (e, records_from)
        (record_then (take i rest) (drop (suc i) rest) clean shape (ap (λ n. cursor + n) (sym size))
          (sym (take-append-drop (suc i) rest))
          (records_from-Splits fuel (cursor + suc i) (drop (suc i) rest)
            (omega (arith, length-drop (suc i) rest))))
]

-- The yielded records and ends split the data.
pub complete_records-Splits : (given : Bytes) → Splits 0 given (complete_records given)
unfolding complete_records
complete_records-Splits given = records_from-Splits (length given) 0 given (omega arith)

-- Where two texts first have an LF, they agree up to there and after it.
pub first_lf : (a b s t : Bytes) → NoLf a → NoLf b → a ++ lf ∷ s ≡ b ++ lf ∷ t → (a ≡ b) × (s ≡ t)
first_lf [] [] s t ha hb e = (refl, cc)
first_lf [] (y ∷ b) s t ha hb e = absurd (ground arith)
first_lf (x ∷ a) [] s t ha hb e = absurd (ground arith)
first_lf (x ∷ a) (y ∷ b) s t ha hb e =
    let (same_body, same_rest) = first_lf a b s t ha.1 hb.1 (cc) in (cc, same_rest)

lf_in : (a s : Bytes) → ¬ NoLf (a ++ lf ∷ s)
lf_in [] s h = h.0 refl
lf_in (x ∷ a) s h = lf_in a s h.1

regroup :
    {given segment : Bytes} (body rest : Bytes)
    → segment ≡ body ++ lf ∷ []
    → given ≡ segment ++ rest
    → given ≡ body ++ lf ∷ rest
regroup body rest shape whole = whole ∙ ap (λ s. s ++ rest) shape ∙ append_assoc body (lf ∷ []) rest

Splits-unique :
    {cursor cursor' : ℕ} {given given' : Bytes} {xs ys : List (ℕ × Bytes)}
    → cursor ≡ cursor'
    → given ≡ given'
    → Splits cursor given xs
    → Splits cursor' given' ys
    → xs ≡ ys
Splits-unique c g (unfinished clean) (unfinished clean') = refl
Splits-unique c g (unfinished clean) (record_then body rest clean' shape at whole more) =
    absurd (lf_in body rest (subst NoLf (g ∙ regroup body rest shape whole) clean))
Splits-unique c g (record_then body rest clean' shape at whole more) (unfinished clean) =
    absurd (lf_in body rest (subst NoLf (sym g ∙ regroup body rest shape whole) clean))
Splits-unique c g (record_then body rest clean shape at whole more)
      (record_then body' rest' clean' shape' at' whole' more') =
    let split =
      first_lf body body' rest rest' clean clean'
        (sym (regroup body rest shape whole) ∙ g ∙ regroup body' rest' shape' whole') in
    let segments = shape ∙ ap (λ b. b ++ lf ∷ []) split.0 ∙ sym shape' in
    let ends = at ∙ ap₂ (λ (m n : ℕ). m + n) c (ap length segments) ∙ sym at' in
    let tails = Splits-unique ends split.1 more more' in cc

-- The records of `complete_records`, with the offsets of their ends, split the data, and no other
-- list of records does: each ends in its only LF, each end is the previous one plus the record's
-- length, and nothing that follows the last record has an LF.
pub complete_records_exact :
    (given : Bytes) (records : List (ℕ × Bytes))
    → Splits 0 given records ↔ (records ≡ complete_records given)
complete_records_exact given records = (
  λ s. Splits-unique refl refl s (complete_records-Splits given),
  λ e. subst (λ r. Splits 0 given r) (sym e) (complete_records-Splits given),
)
