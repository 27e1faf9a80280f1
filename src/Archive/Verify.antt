-- ===== src/Archive/Verify.antt =====
-- `verify_object` of native/s3-archive.py: a GET whose body is hashed. SHA-256 and base64 are
-- parameters, and what S3 answers is an argument.
pub mod Laws
use swarm_kill_chain_medium.Prelude.{
  Bool, true, false, not, ◌||◌, Option, none, some, List, [], ◌∷◌, ◌++◌, if◌then◌else◌,
}
use swarm_kill_chain_medium.Prelude.Text.{Text, Bytes, same}
use swarm_kill_chain_medium.Archive.Result.{
  Result, ok, raised, Failure, runtime_error, value_error, s3_access_error, s3_transient_error,
  ◌>>=◌, ◌>>◌, require,
}
use swarm_kill_chain_medium.Archive.Address.{is_digest, content_address_matches}
use swarm_kill_chain_medium.Archive.Client.{
  ClientError, Checksum, not_given, given, no_text, access, transient, classify_client_error, Chunk,
  bytes, not_bytes, read_fails, GetReply, GetResponse, got, get_refused, get_transport_error,
  Stored,
}

-- A version that is a non-empty string.
abbrev pub real_version : Option Text → Result Text
real_version (some (c ∷ rest)) = ok (c ∷ rest)
real_version _ = raised runtime_error

-- `checksum is None or checksum == expected`
abbrev pub checksum_agrees : Checksum → Text → Bool
checksum_agrees not_given expected = true
checksum_agrees (given text) expected = same text expected
checksum_agrees no_text expected = false

abbrev text_of : Checksum → Option Text
text_of (given text) = some text
text_of _ = none

-- The bytes that the read loop hashes: it ends at an empty chunk.
unfoldable pub read_body : List Chunk → Result Bytes
read_body [] = ok []
read_body (bytes [] ∷ rest) = ok []
read_body (bytes (b ∷ bs) ∷ rest) = do more ← read_body rest; ok ((b ∷ bs) ++ more)
read_body (not_bytes ∷ rest) = raised runtime_error
read_body (read_fails ∷ rest) = raised s3_transient_error

abbrev pub whole_body : Option (List Chunk) → Result Bytes
whole_body none = raised runtime_error
whole_body (some chunks) = read_body chunks

abbrev pub get_failure : ClientError → Failure
get_failure error = elim (classify_client_error error) [
  | access ↦ s3_access_error
  | transient ↦ s3_transient_error
  | _ ↦ runtime_error
]

abbrev pub get_result : GetResponse → Result GetReply
get_result (got reply) = ok reply
get_result (get_refused error) = raised (get_failure error)
get_result get_transport_error = raised s3_transient_error

abbrev pub given_version : Option Text → Result (Option Text)
given_version none = ok none
given_version (some version) = do v ← real_version (some version); ok (some v)

abbrev pub version_agrees : Option Text → Text → Bool
version_agrees none stored = true
version_agrees (some version) stored = same stored version

module _ (sha256 : Bytes → Text) (base64_of_hex : Text → Text) where
  unfoldable pub checksum_b64 : Text → Result Text
  unfolding is_digest
  checksum_b64 digest = if is_digest digest then ok (base64_of_hex digest) else raised value_error

  unfoldable pub verify_object :
      (Option Text → GetResponse) → Text → Text → Option Text → Bool → Result Stored
  unfolding checksum_b64 read_body content_address_matches classify_client_error
  verify_object get key digest version_id require_content_address = do
    require (not require_content_address || content_address_matches key digest) runtime_error
    version ← given_version version_id
    reply ← get_result (get version)
    stored_version ← real_version reply.version
    require (version_agrees version stored_version) runtime_error
    expected ← checksum_b64 digest
    require (checksum_agrees reply.checksum expected) runtime_error
    body ← whole_body reply.body
    require (same (sha256 body) digest) runtime_error
    ok (record {
      version = stored_version;
      etag = reply.etag;
      checksum = text_of reply.checksum;
      existing = false;
    })
