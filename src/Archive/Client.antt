-- ===== src/Archive/Client.antt =====
-- What the S3 client answers to native/s3-archive.py, and the classification of its errors.
use swarm_kill_chain_medium.Prelude.{
  ℕ, String, Bool, false, ◌||◌, Option, none, some, List, [], ◌∷◌, ◌==◌, leb, string_equality,
  if◌then◌else◌,
}
use swarm_kill_chain_medium.Prelude.Text.{Text, Bytes}
use swarm_kill_chain_medium.Dict.{elem}

-- `error.response`: the HTTP status, if it is an integer, and the error code.
pub record ClientError : Type 0 where
  pub status : Option ℕ
  pub code : String

pub data Category : Type 0 where
  precondition conflict access transient other : Category

abbrev pub status_is : Option ℕ → ℕ → Bool
status_is none n = false
status_is (some s) n = s == n

abbrev pub is_server_error : Option ℕ → Bool
is_server_error none = false
is_server_error (some s) = leb 500 s

unfoldable pub classify_client_error : ClientError → Category
classify_client_error error =
    if status_is error.status 412 || elem error.code ("PreconditionFailed" ∷ "412" ∷ [])
    then precondition
    else if status_is error.status 409
        || elem error.code ("ConditionalRequestConflict" ∷ "409" ∷ [])
    then conflict
    else if status_is error.status 403
        || elem error.code ("AccessDenied" ∷ "Forbidden" ∷ "InvalidAccessKeyId" ∷ [])
    then access
    else if is_server_error error.status
    then transient
    else if elem error.code
        ("InternalError" ∷ "RequestTimeout" ∷ "ServiceUnavailable" ∷ "SlowDown" ∷ [])
    then transient
    else other

-- What one read of the body stream gives: a chunk, a value that is no bytes, or a transport error.
pub data Chunk : Type 0 where
  bytes : Bytes → Chunk
  not_bytes : Chunk
  read_fails : Chunk

-- A checksum of a reply: there is none, or it is a text, or another value.
pub data Checksum : Type 0 where
  not_given : Checksum
  given : Text → Checksum
  no_text : Checksum

-- The fields of a GET reply that are used; `none` for a missing or malformed one.
pub record GetReply : Type 0 where
  pub version : Option Text
  pub checksum : Checksum
  pub etag : Option Text
  pub body : Option (List Chunk)

pub data GetResponse : Type 0 where
  got : GetReply → GetResponse
  get_refused : ClientError → GetResponse
  get_transport_error : GetResponse

pub record PutReply : Type 0 where
  pub version : Option Text
  pub checksum : Checksum

pub data PutResponse : Type 0 where
  put_done : PutReply → PutResponse
  put_malformed : PutResponse
  put_refused : ClientError → PutResponse
  put_transport_error : PutResponse

-- What S3 answers during one `put_once`: to the PUT of each attempt, and to the GET, which is sent
-- with the version asked for.
pub record Replies : Type 0 where
  pub put : ℕ → PutResponse
  pub get : Option Text → GetResponse

pub record Stored : Type 0 where
  pub version : Text
  pub etag : Option Text
  pub checksum : Option Text
  pub existing : Bool
