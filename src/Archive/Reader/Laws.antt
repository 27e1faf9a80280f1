-- ===== src/Archive/Reader/Laws.antt =====
-- What a chunked read returns (`read_at` of native/s3-archive.py).
use mathlib.Core.Path.{subst}
use swarm_kill_chain_medium.Prelude.{
  ℕ, zero, suc, ◌+◌, ◌-◌, ◌≤◌, ◌<◌, ◌≡◌, refl, ap, sym, ◌∙◌, List, [], ◌∷◌, ◌++◌, arith, min,
  length, take, drop, length-append, length-take, List-cases, inl, inr,
}
use swarm_kill_chain_medium.Prelude.Text.{Bytes}
use swarm_kill_chain_medium.Archive.Reader.{read_chunk_bytes, file_read, read_loop, read_at}

module _ {ℓ} {A : Type ℓ} where
  pub take-nil : (n : ℕ) → take {A = A} n [] ≡ []
  take-nil zero = refl
  take-nil (suc n) = refl

  pub drop-nil : (n : ℕ) → drop {A = A} n [] ≡ []
  drop-nil zero = refl
  drop-nil (suc n) = refl

  pub drop-drop : (m n : ℕ) (xs : List A) → drop n (drop m xs) ≡ drop (m + n) xs
  drop-drop zero n xs = ap (λ k. drop k xs) (omega arith)
  drop-drop (suc m) n [] = drop-nil n ∙ sym (drop-nil (suc m + n))
  drop-drop (suc m) n (x ∷ xs) =
      let e : suc m + n ≡ suc (m + n) = omega arith in
      drop-drop m n xs ∙ ap (λ k. drop k (x ∷ xs)) (sym e)

  -- The first `n`, taken as a chunk of at most `m` of them and then the others.
  pub take_in_two :
      (m n : ℕ) (xs : List A)
      → m ≤ n
      → take n xs ≡ take m xs ++ take (n - length (take m xs)) (drop (length (take m xs)) xs)
  take_in_two zero n xs h = let e : n - 0 ≡ n = omega arith in rw e
  take_in_two (suc m) zero xs h = absurd (omega arith)
  take_in_two (suc m) (suc n) [] h = sym (take-nil (suc n - 0))
  take_in_two (suc m) (suc n) (x ∷ xs) h =
      let e : suc n - suc (length (take m xs)) ≡ n - length (take m xs) = omega arith in
      rw e (ap (◌∷◌ x) (take_in_two m n xs (omega arith)))

  take_empty : (m : ℕ) (xs : List A) → 0 < m → take m xs ≡ [] → xs ≡ []
  take_empty zero xs h e = absurd (omega arith)
  take_empty (suc m) [] h e = refl
  take_empty (suc m) (x ∷ xs) h e = absurd (cc)

chunk_next :
    (content chunk : Bytes) (position n : ℕ)
    → file_read content position (min read_chunk_bytes n) ≡ chunk
    → file_read content position n
      ≡ chunk ++ file_read content (position + length chunk) (n - length chunk)
chunk_next content chunk position n e =
    subst
      (λ c.
        file_read content position n ≡ c ++ file_read content (position + length c) (n - length c))
      e
      (take_in_two (min read_chunk_bytes n) n (drop position content) (omega arith)
        ∙ ap (λ r. file_read content position (min read_chunk_bytes n) ++ take (n - size) r)
            (drop-drop position size content))
  where
    size : ℕ
    size = length (file_read content position (min read_chunk_bytes n))

chunk_last :
    (content : Bytes) (position n : ℕ)
    → file_read content position (min read_chunk_bytes (suc n)) ≡ []
    → file_read content position (suc n) ≡ []
chunk_last content position n e =
    let gone = take_empty (min read_chunk_bytes (suc n)) (drop position content) (omega arith) e in
    rw gone

-- While the content stays the same, the loop reads the slice that was asked for.
read_loop_stable :
    (fuel : ℕ) (seen : ℕ → Bytes) (content : Bytes) (k position n : ℕ)
    → ((i : ℕ) → seen i ≡ content)
    → n ≤ fuel
    → read_loop fuel seen k position n ≡ file_read content position n
unfolding read_loop
read_loop_stable zero seen content k position zero still enough = refl
read_loop_stable zero seen content k position (suc n) still enough = absurd (omega arith)
read_loop_stable (suc fuel) seen content k position zero still enough = refl
read_loop_stable (suc fuel) seen content k position (suc n) still enough =
    elim (List-cases (file_read (seen k) position (min read_chunk_bytes (suc n)))) [
      | inl e ↦ rw (e, read_loop) (sym (chunk_last content position n (here e)))
      | inr (b, bs, e) ↦
          rw (e, read_loop)
            (ap (λ r. (b ∷ bs) ++ r)
                (read_loop_stable fuel seen content (k + 1) (position + length (b ∷ bs))
                  (suc n - length (b ∷ bs)) still (omega arith))
              ∙ sym (chunk_next content (b ∷ bs) position (suc n) (here e)))
    ]
  where
    here :
        {chunk : Bytes}
        → file_read (seen k) position (min read_chunk_bytes (suc n)) ≡ chunk
        → file_read content position (min read_chunk_bytes (suc n)) ≡ chunk
    here e = ap (λ s. file_read s position (min read_chunk_bytes (suc n))) (sym (still k)) ∙ e

-- While the source does not change, the chunked read is the slice that was asked for.
pub read_at-stable :
    (seen : ℕ → Bytes) (content : Bytes) (start n : ℕ)
    → ((i : ℕ) → seen i ≡ content)
    → read_at seen start n ≡ take n (drop start content)
unfolding read_at
read_at-stable seen content start n still =
    read_loop_stable n seen content 0 start n still (omega arith)

length_chunk :
    (content chunk : Bytes) (position n : ℕ)
    → file_read content position (min read_chunk_bytes n) ≡ chunk
    → length chunk ≤ n
length_chunk content chunk position n e =
    omega (arith, length-take (min read_chunk_bytes n) (drop position content), ap length e)

length-read_loop :
    (fuel : ℕ) (seen : ℕ → Bytes) (k position n : ℕ) → length (read_loop fuel seen k position n) ≤ n
unfolding read_loop
length-read_loop zero seen k position n = omega arith
length-read_loop (suc fuel) seen k position n =
    elim (List-cases (file_read (seen k) position (min read_chunk_bytes n))) [
      | inl e ↦ rw (e, read_loop) (omega arith)
      | inr (b, bs, e) ↦
          let ih =
            length-read_loop fuel seen (k + 1) (position + length (b ∷ bs)) (n - length (b ∷ bs)) in
          rw (e, read_loop)
            (omega (
              arith,
              ih,
              length_chunk (seen k) (b ∷ bs) position n e,
              length-append {0} (b ∷ bs)
                  (read_loop fuel seen (k + 1) (position + length (b ∷ bs)) (n - length (b ∷ bs))),
            ))
    ]

-- Whatever happens to the source during a read, no more bytes come back than were asked for.
pub length-read_at : (seen : ℕ → Bytes) (start n : ℕ) → length (read_at seen start n) ≤ n
unfolding read_at
length-read_at seen start n = length-read_loop n seen 0 start n
