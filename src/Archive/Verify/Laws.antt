-- ===== src/Archive/Verify/Laws.antt =====
-- What a verified object is (`verify_object` of native/s3-archive.py).
use swarm_kill_chain_medium.Prelude.{
  ◌≡◌, refl, ap, ◌∙◌, Bool, true, false, not, ◌||◌, Option, none, some, arith, [], ◌∷◌,
}
use swarm_kill_chain_medium.Prelude.Text.{Text, Bytes, same, same→eq}
use swarm_kill_chain_medium.Archive.Result.{Failure, Result, ok, raised, ◌>>=◌, ◌>>◌, require}
use swarm_kill_chain_medium.Archive.Address.{content_address_matches}
use swarm_kill_chain_medium.Archive.Client.{
  GetReply, GetResponse, got, get_refused, get_transport_error, Stored,
}
use swarm_kill_chain_medium.Archive.Verify.{
  real_version, given_version, version_agrees, get_result, whole_body, checksum_agrees,
  checksum_b64, verify_object,
}

-- The object `stored` under a key, as one GET showed it: the reply to a request of the version asked
-- for, whose body has the digest, whose version is the one recorded, and the one asked for if any.
pub record Verified (sha256 : Bytes → Text) (get : Option Text → GetResponse) (digest : Text)
    (asked : Option Text) (stored : Stored) : Type 0 where
  pub reply : GetReply
  pub body : Bytes
  pub answered : get asked ≡ got reply
  pub read_whole : whole_body reply.body ≡ ok body
  pub hashed : sha256 body ≡ digest
  pub version : reply.version ≡ some stored.version
  pub version_as_asked : version_agrees asked stored.version ≡ true

-- What a successful step shows, handed to the rest of the proof.
pub >>=-eq-ok {ℓ} :
    {A B : Type 0} {P : Type ℓ} (m : Result A) (f : A → Result B) {b : B}
    → (m >>= f) ≡ ok b
    → ((a : A) → m ≡ ok a → f a ≡ ok b → P)
    → P
>>=-eq-ok (ok a) f h then_ = then_ a refl h
>>=-eq-ok (raised e) f h then_ = absurd (cc)

pub require-eq-ok {ℓ} :
    {B : Type 0} {P : Type ℓ} (t : Bool) (e : Failure) (m : Result B) {b : B}
    → (require t e >> m) ≡ ok b
    → (t ≡ true → m ≡ ok b → P)
    → P
require-eq-ok true e m h then_ = then_ refl h
require-eq-ok false e m h then_ = absurd (cc)

pub real_version-eq-ok : (v : Option Text) (w : Text) → real_version v ≡ ok w → v ≡ some w
real_version-eq-ok (some (c ∷ rest)) w h = cc
real_version-eq-ok (some []) w h = absurd (cc)
real_version-eq-ok none w h = absurd (cc)

given_version-eq-ok : (v w : Option Text) → given_version v ≡ ok w → v ≡ w
given_version-eq-ok none w h = cc
given_version-eq-ok (some []) w h = absurd (cc)
given_version-eq-ok (some (c ∷ rest)) w h = cc

get_result-eq-ok : (r : GetResponse) (reply : GetReply) → get_result r ≡ ok reply → r ≡ got reply
get_result-eq-ok (got reply') reply h = cc
get_result-eq-ok (get_refused e) reply h = absurd (cc)
get_result-eq-ok get_transport_error reply h = absurd (cc)

module _ (sha256 : Bytes → Text) (base64_of_hex : Text → Text) where
  -- The object is never taken to be stored unless a GET of the version asked for, if any, returned a
  -- body with the expected digest, whatever the metadata says.
  pub verify_object-Verified :
      (get : Option Text → GetResponse) (key digest : Text) (asked : Option Text) (addressed : Bool)
      (stored : Stored)
      → verify_object sha256 base64_of_hex get key digest asked addressed ≡ ok stored
      → Verified sha256 get digest asked stored × (stored.existing ≡ false)
  unfolding verify_object
  verify_object-Verified get key digest asked addressed stored h =
      require-eq-ok (not addressed || content_address_matches key digest) _ _ h λ _ h₁.
        >>=-eq-ok (given_version asked) _ h₁ λ version e₁ h₂.
          >>=-eq-ok (get_result (get version)) _ h₂ λ reply e₂ h₃.
            >>=-eq-ok (real_version reply.version) _ h₃ λ stored_version e₃ h₄.
              require-eq-ok (version_agrees version stored_version) _ _ h₄ λ agrees h₅.
                >>=-eq-ok (checksum_b64 sha256 base64_of_hex digest) _ h₅ λ expected e₄ h₆.
                  require-eq-ok (checksum_agrees reply.checksum expected) _ _ h₆ λ _ h₇.
                    >>=-eq-ok (whole_body reply.body) _ h₇ λ body e₅ h₈.
                      require-eq-ok (same (sha256 body) digest) _ _ h₈ λ hashed h₉.
                        let asked_version = given_version-eq-ok asked version e₁ in
                        let shown = real_version-eq-ok reply.version stored_version e₃ in
                        (
                          record {
                            reply = reply;
                            body = body;
                            answered =
                                ap get asked_version ∙ get_result-eq-ok (get version) reply e₂;
                            read_whole = e₅;
                            hashed = same→eq (sha256 body) digest hashed;
                            version = ground arith;
                            version_as_asked = ground arith;
                          },
                          ground arith,
                        )
