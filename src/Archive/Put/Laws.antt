-- ===== src/Archive/Put/Laws.antt =====
-- The conditional PUT (`put_once` of native/s3-archive.py): its retries, and what its success means.
use swarm_kill_chain_medium.Prelude.{
  ℕ, zero, suc, ◌+◌, ◌-◌, ◌^◌, ◌≤◌, ◌<◌, ◌≡◌, refl, true, false, not, ◌||◌, none, some, arith, ◌⊎◌,
  inl, inr, ◌==◌, ==_iff, Bool-cases, ap, sym, ◌∙◌,
}
use mathlib.Core.Path.{subst}
use swarm_kill_chain_medium.Prelude.Text.{Text, Bytes, same→eq}
use swarm_kill_chain_medium.Archive.Result.{Result, Result-cases, ok, raised, s3_transient_error}
use swarm_kill_chain_medium.Archive.Address.{content_address_matches, ends_with}
use swarm_kill_chain_medium.Archive.Client.{
  ClientError, Replies, Stored, PutReply, Category, PutResponse, precondition, conflict, access,
  transient, other, put_done, put_refused, put_malformed, put_transport_error,
  classify_client_error,
}
use swarm_kill_chain_medium.Archive.Verify.{checksum_b64, real_version, checksum_agrees}
use swarm_kill_chain_medium.Archive.Verify.Laws.{
  real_version-eq-ok, Verified, >>=-eq-ok, require-eq-ok, verify_object-Verified,
}
use swarm_kill_chain_medium.Archive.Put.{
  Attempt, ends, again, on_refusal, attempt_put, put_loop, put_once, PutRun, manifest_suffix,
  verify_put, verify_existing, max_put_attempts,
}

module _ (sha256 : Bytes → Text) (base64_of_hex : Text → Text) (replies : Replies)
    (key digest : Text) where
  abbrev pub outcome : ℕ → Attempt
  outcome attempt = attempt_put sha256 base64_of_hex replies key digest (replies.put attempt)

  abbrev run : ℕ → ℕ → PutRun
  run left attempt = put_loop sha256 base64_of_hex left replies key digest attempt

  -- The attempts up to the k-th are to be repeated.
  abbrev pub Retried : ℕ → Type 0
  Retried k = (j : ℕ) → 1 ≤ j → j ≤ k → outcome j ≡ again

  loop_ends :
      (k : ℕ)
      → k < max_put_attempts
      → Retried k
      → {r : Result Stored} → outcome (suc k) ≡ ends r
      → run 4 1 ≡ record { result = r; requests = suc k; slept = 2 ^ k - 1 }
  unfolding put_loop
  loop_ends zero h retried e = rw (e, put_loop)
  loop_ends (suc zero) h retried e =
      rw (retried 1 (omega arith) (omega arith), put_loop) (rw (e, put_loop))
  loop_ends (suc (suc zero)) h retried e =
      rw (retried 1 (omega arith) (omega arith), put_loop)
        (rw (retried 2 (omega arith) (omega arith), put_loop) (rw (e, put_loop)))
  loop_ends (suc (suc (suc zero))) h retried e =
      rw (retried 1 (omega arith) (omega arith), put_loop)
        (rw (retried 2 (omega arith) (omega arith), put_loop)
          (rw (retried 3 (omega arith) (omega arith), put_loop) (rw (e, put_loop))))
  loop_ends (suc (suc (suc (suc k)))) h retried e = absurd (omega arith)

  loop_exhausted :
      Retried 4 → run 4 1 ≡ record { result = raised s3_transient_error; requests = 4; slept = 7 }
  unfolding put_loop
  loop_exhausted retried =
      rw (retried 1 (omega arith) (omega arith), put_loop)
        (rw (retried 2 (omega arith) (omega arith), put_loop)
          (rw (retried 3 (omega arith) (omega arith), put_loop)
            (rw (retried 4 (omega arith) (omega arith), put_loop))))

  -- Either some attempt ends the loop, the earlier ones being repeated, or none of the four does.
  pub data Course (r : PutRun) : Type 0 where
    ended :
        (k : ℕ) (result : Result Stored)
        → k < max_put_attempts
        → Retried k
        → outcome (suc k) ≡ ends result
        → r ≡ record { result = result; requests = suc k; slept = 2 ^ k - 1 }
        → Course r
    exhausted :
        Retried 4
        → r ≡ record { result = raised s3_transient_error; requests = 4; slept = 7 }
        → Course r

  Attempt-cases : (a : Attempt) → ((r : Result Stored) × (a ≡ ends r)) ⊎ (a ≡ again)
  Attempt-cases (ends r) = inl (r, refl)
  Attempt-cases again = inr refl

  Retried-suc : (k : ℕ) → Retried k → outcome (suc k) ≡ again → Retried (suc k)
  Retried-suc k retried e j low high = elim (Bool-cases (j == suc k)) [
    | inl here ↦ let at : j ≡ suc k = (==_iff j (suc k)).0 here in rw at e
    | inr below ↦ retried j low (ground arith)
  ]

  Course-from : (k left : ℕ) → k + left ≡ 4 → Retried k → Course (run 4 1)
  Course-from k zero e retried =
      let all_four : k ≡ 4 = omega arith in
      let r : Retried 4 = subst Retried all_four retried in exhausted r (loop_exhausted r)
  Course-from k (suc left) e retried = elim (Attempt-cases (outcome (suc k))) [
    | inl (r, at) ↦ ended k r (omega arith) retried at (loop_ends k (omega arith) retried at)
    | inr at ↦ Course-from (suc k) left (omega arith) (Retried-suc k retried at)
  ]

  -- A PUT that may start sends at most four requests, and either the first attempt that does not
  -- have to be repeated decides its result, after waits of 1, 2 and 4 seconds, or all four end in a
  -- conflict or a transient failure and it raises the transient error; it has no other outcome.
  pub put_once-Course :
      (content_address_matches key digest || ends_with key manifest_suffix) ≡ true
      → {checksum : Text} → checksum_b64 sha256 base64_of_hex digest ≡ ok checksum
      → Course (put_once sha256 base64_of_hex replies key digest)
  unfolding put_once
  put_once-Course addressed e =
      rw (addressed, put_once)
        (rw (e, put_once) (Course-from 0 4 refl (λ j low high. absurd (omega arith))))

  -- How a success came about, by the flag of the stored object.
  pub data Provenance (stored : Stored) (response : PutResponse) : Type 0 where
    created :
        (reply : PutReply)
        → response ≡ put_done reply
        → reply.version ≡ some stored.version
        → stored.existing ≡ false
        → Verified sha256 replies.get digest (some stored.version) stored
        → Provenance stored response
    found :
        (error : ClientError)
        → response ≡ put_refused error
        → classify_client_error error ≡ precondition
        → stored.existing ≡ true
        → Verified sha256 replies.get digest none stored
        → Provenance stored response

  verify_put-Provenance :
      (reply : PutReply) (stored : Stored)
      → verify_put sha256 base64_of_hex replies.get key digest reply ≡ ok stored
      → Provenance stored (put_done reply)
  unfolding verify_put
  verify_put-Provenance reply stored h = >>=-eq-ok (real_version reply.version) _ h λ version e₁ h₁.
      >>=-eq-ok (checksum_b64 sha256 base64_of_hex digest) _ h₁ λ expected e₂ h₂.
        require-eq-ok (checksum_agrees reply.checksum expected) _ _ h₂ λ _ h₃.
          let (verified, fresh) =
            verify_object-Verified sha256 base64_of_hex replies.get key digest (some version)
              (not (ends_with key manifest_suffix)) stored h₃ in
          let at : stored.version ≡ version = same→eq _ _ verified.version_as_asked in
          created reply refl (real_version-eq-ok reply.version version e₁ ∙ ap some (sym at)) fresh
            (subst (λ v. Verified sha256 replies.get digest (some v) stored) (sym at) verified)

  verify_existing-Provenance :
      (error : ClientError) (stored : Stored)
      → classify_client_error error ≡ precondition
      → verify_existing sha256 base64_of_hex replies.get key digest ≡ ok stored
      → Provenance stored (put_refused error)
  unfolding verify_existing
  verify_existing-Provenance error stored c h = >>=-eq-ok _ _ h λ shown e h₁.
      let (verified, _) =
        verify_object-Verified sha256 base64_of_hex replies.get key digest none
          (not (ends_with key manifest_suffix)) shown e in
      found error refl c (ground arith) (record {
        reply = verified.reply;
        body = verified.body;
        answered = verified.answered;
        read_whole = verified.read_whole;
        hashed = verified.hashed;
        version = ground (arith, verified.version);
        version_as_asked = refl;
      })

  refusal-Provenance :
      (error : ClientError) (stored : Stored) (c : Category)
      → classify_client_error error ≡ c
      → on_refusal sha256 base64_of_hex replies.get key digest c ≡ ends (ok stored)
      → Provenance stored (put_refused error)
  refusal-Provenance error stored precondition e h = verify_existing-Provenance error stored e (cc)
  refusal-Provenance error stored conflict e h = absurd (cc)
  refusal-Provenance error stored access e h = absurd (cc)
  refusal-Provenance error stored transient e h = absurd (cc)
  refusal-Provenance error stored other e h = absurd (cc)

  attempt_put-Provenance :
      (response : PutResponse) (stored : Stored)
      → attempt_put sha256 base64_of_hex replies key digest response ≡ ends (ok stored)
      → Provenance stored response
  unfolding attempt_put
  attempt_put-Provenance (put_done reply) stored h = verify_put-Provenance reply stored (cc)
  attempt_put-Provenance put_malformed stored h = absurd (cc)
  attempt_put-Provenance (put_refused error) stored h =
      refusal-Provenance error stored (classify_client_error error) refl h
  attempt_put-Provenance put_transport_error stored h = absurd (cc)

  Course-Provenance :
      (r : PutRun) (stored : Stored)
      → Course r
      → r.result ≡ ok stored
      → (k : ℕ) × (k < max_put_attempts) × Provenance stored (replies.put (suc k))
  Course-Provenance r stored (ended k result low retried at e) h = (
    k,
    low,
    attempt_put-Provenance (replies.put (suc k)) stored
        (at ∙ ap ends (ap (λ (x : PutRun). x.result) (sym e) ∙ h)),
  )
  Course-Provenance r stored (exhausted retried e) h = absurd (ground arith)

  -- `put_once` succeeds only over an object that one of at most four attempts created, or found to be
  -- there already: a GET of the version that the PUT created, or of the current version of the
  -- existing object, returned exactly bytes with the digest, and the flag tells the two apart.
  pub put_once-Provenance :
      (stored : Stored)
      → (put_once sha256 base64_of_hex replies key digest).result ≡ ok stored
      → (k : ℕ) × (k < max_put_attempts) × Provenance stored (replies.put (suc k))
  put_once-Provenance stored h =
      elim (Bool-cases (content_address_matches key digest || ends_with key manifest_suffix)) [
        | inl addressed ↦ elim (Result-cases (checksum_b64 sha256 base64_of_hex digest)) [
          | inl (c, e) ↦ Course-Provenance _ stored (put_once-Course addressed e) h
          | inr (f, e) ↦ unfold put_once in absurd (ground arith)
        ]
        | inr unaddressed ↦ unfold put_once in absurd (ground arith)
      ]
