-- ===== src/Archive/Put.antt =====
-- `put_once` of native/s3-archive.py: a conditional PUT, retried, whose object is verified by GET.
pub mod Laws
use swarm_kill_chain_medium.Prelude.{
  ℕ, zero, suc, ◌+◌, ◌-◌, ◌^◌, Bool, true, false, not, ◌||◌, Option, none, some, ◌==◌, min,
  if◌then◌else◌,
}
use swarm_kill_chain_medium.Prelude.Text.{Text, Bytes, codes}
use swarm_kill_chain_medium.Archive.Result.{
  Result, ok, raised, runtime_error, assertion_error, s3_access_error, s3_transient_error, ◌>>=◌,
  ◌>>◌, require,
}
use swarm_kill_chain_medium.Archive.Address.{content_address_matches, ends_with}
use swarm_kill_chain_medium.Archive.Client.{
  Category, precondition, conflict, access, transient, other, classify_client_error, GetResponse,
  PutReply, PutResponse, put_done, put_malformed, put_refused, put_transport_error, Replies, Stored,
}
use swarm_kill_chain_medium.Archive.Verify.{
  real_version, checksum_agrees, checksum_b64, verify_object,
}

abbrev pub manifest_suffix : Text
manifest_suffix = codes ".manifest.json"

abbrev pub max_put_attempts : ℕ
max_put_attempts = 4

-- How an attempt ends: with a result, or with another attempt if there is one left.
pub data Attempt : Type 0 where
  ends : Result Stored → Attempt
  again : Attempt

-- The result, the number of PUT requests that were sent, and the seconds slept between them.
pub record PutRun : Type 0 where
  pub result : Result Stored
  pub requests : ℕ
  pub slept : ℕ

module _ (sha256 : Bytes → Text) (base64_of_hex : Text → Text) where
  -- What follows a PUT that was answered: check its reply, then GET the version that it names.
  unfoldable pub verify_put : (Option Text → GetResponse) → Text → Text → PutReply → Result Stored
  unfolding ends_with checksum_b64
  verify_put get key digest reply = do
    version ← real_version reply.version
    expected ← checksum_b64 sha256 base64_of_hex digest
    require (checksum_agrees reply.checksum expected) runtime_error
    verify_object sha256 base64_of_hex get key digest (some version)
        (not (ends_with key manifest_suffix))

  -- What follows a PUT refused since the key exists: GET the current version.
  unfoldable pub verify_existing : (Option Text → GetResponse) → Text → Text → Result Stored
  unfolding ends_with
  verify_existing get key digest = do
    stored ←
        verify_object sha256 base64_of_hex get key digest none (not (ends_with key manifest_suffix))
    ok (record stored { existing = true })

  abbrev pub on_refusal : (Option Text → GetResponse) → Text → Text → Category → Attempt
  on_refusal get key digest precondition = ends (verify_existing get key digest)
  on_refusal get key digest access = ends (raised s3_access_error)
  on_refusal get key digest other = ends (raised runtime_error)
  on_refusal get key digest conflict = again
  on_refusal get key digest transient = again

  unfoldable pub attempt_put : Replies → Text → Text → PutResponse → Attempt
  attempt_put replies key digest (put_done reply) = ends (verify_put replies.get key digest reply)
  attempt_put replies key digest put_malformed = ends (raised runtime_error)
  attempt_put replies key digest (put_refused error) =
      on_refusal replies.get key digest (classify_client_error error)
  attempt_put replies key digest put_transport_error = again

  -- `for attempt in range(attempt, MAX_PUT_ATTEMPTS + 1)`, by the number of attempts left.
  unfoldable pub put_loop : ℕ → Replies → Text → Text → ℕ → PutRun
  put_loop zero replies key digest attempt = record {
    result = raised assertion_error;
    requests = 0;
    slept = 0;
  }
  put_loop (suc left) replies key digest attempt =
      let later = put_loop left replies key digest (attempt + 1) in
      elim (attempt_put replies key digest (replies.put attempt)) [
        | ends result ↦ record { result = result; requests = 1; slept = 0 }
        | again ↦
            if attempt == max_put_attempts
            then record { result = raised s3_transient_error; requests = 1; slept = 0 }
            else record {
              result = later.result;
              requests = later.requests + 1;
              slept = later.slept + min 8 (2 ^ (attempt - 1));
            }
      ]

  unfoldable pub put_once : Replies → Text → Text → PutRun
  put_once replies key digest =
      let result = put_loop max_put_attempts replies key digest 1 in
      elim (content_address_matches key digest || ends_with key manifest_suffix) [
        | false ↦ record { result = raised runtime_error; requests = 0; slept = 0 }
        | true ↦ elim (checksum_b64 sha256 base64_of_hex digest) [
          | raised e ↦ record { result = raised e; requests = 0; slept = 0 }
          | ok _ ↦ result
        ]
      ]
