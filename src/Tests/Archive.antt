-- ===== src/Tests/Archive.antt =====
-- The archiver on a digest of zeros, with a hash that is always that digest.
use swarm_kill_chain_medium.Prelude.{
  inl, arith, ℕ, zero, suc, ◌+◌, ◌<◌, ◌≡◌, ◌⊎◌, ◌↔◌, refl, true, false, ◌||◌, none, some, [], ◌∷◌,
  ◌++◌, take, drop, text_equality,
}
use swarm_kill_chain_medium.Prelude.Int.{pos}
use swarm_kill_chain_medium.Prelude.Text.{padded, Text, Bytes, codes, zeros, same, decimal}
use swarm_kill_chain_medium.Dict.{put, get}
use swarm_kill_chain_medium.Archive.Run.{Found, locked_run}
use swarm_kill_chain_medium.Archive.Run.Laws.{Finished, locked_run-Finished}
use swarm_kill_chain_medium.Archive.Result.{ok}
use swarm_kill_chain_medium.Archive.Records.{complete_records}
use swarm_kill_chain_medium.Archive.Records.Splitting.{Splits, complete_records_exact}
use swarm_kill_chain_medium.Archive.Reader.{read_at}
use swarm_kill_chain_medium.Archive.Reader.Laws.{read_at-stable}
use swarm_kill_chain_medium.Archive.Client.{
  not_given, GetReply, got, PutResponse, put_done, put_refused, Replies, Stored, bytes,
  classify_client_error,
}
use swarm_kill_chain_medium.Archive.Address.{content_address_matches, ends_with}
use swarm_kill_chain_medium.Archive.Verify.{checksum_b64, verify_object}
use swarm_kill_chain_medium.Archive.Verify.Laws.{Verified, verify_object-Verified}
use swarm_kill_chain_medium.Archive.Put.{
  verify_existing, put_loop, attempt_put, verify_put, put_once, max_put_attempts, manifest_suffix,
}
use swarm_kill_chain_medium.Archive.Put.Laws.{
  Course, put_once-Course, Provenance, put_once-Provenance,
}
use swarm_kill_chain_medium.Archive.Anchor.{
  descriptor_anchor, snapshot_anchor, Stat, absent, digest_only, anchors_match,
}
use swarm_kill_chain_medium.Archive.Lineage.{
  checked, Lineage, State, base_of, identity, lineage_for,
}
use swarm_kill_chain_medium.Archive.Lineage.Reread.{lineage_for_appended, lineage_for_replaced}
use swarm_kill_chain_medium.Archive.Source.Upload.{upload_with_manifest, segment_key, Services}
use swarm_kill_chain_medium.Archive.Source.Types.{Descriptor, descriptor}
use swarm_kill_chain_medium.Archive.Source.Pass.{
  advanced, upload_segment, upload_records, snapshot_of, is_stable, archive_from,
  legacy_rotated_marker_matches, archive_descriptor,
}
use swarm_kill_chain_medium.Archive.Source.Outcome.{
  begun, first, Quiet, Uploads, archive_descriptor-Advance,
}
use swarm_kill_chain_medium.Archive.Lineage.{offset_of}

abbrev digest : Text
digest = zeros 64

abbrev sha256 : Bytes → Text
sha256 body = digest

abbrev base64_of_hex : Text → Text
base64_of_hex text = text

abbrev key : Text
key = codes "segments/1-" ++ (digest ++ codes ".json")

abbrev line : Bytes
line = codes "{}" ++ 10 ∷ []

abbrev reply : GetReply
reply = record {
  version = some (codes "v1");
  checksum = not_given;
  etag = none;
  body = some (bytes line ∷ []);
}

-- The first PUT meets a server error, and the second one is done.
abbrev put_reply : ℕ → PutResponse
put_reply zero = put_refused (record { status = some 503; code = "" })
put_reply (suc zero) = put_refused (record { status = some 503; code = "" })
put_reply (suc (suc n)) = put_done (record { version = some (codes "v1"); checksum = not_given })

abbrev replies : Replies
replies = record { put = put_reply; get = λ asked. got reply }

abbrev stored : Stored
stored = record { version = codes "v1"; etag = none; checksum = none; existing = false }

verified : verify_object sha256 base64_of_hex replies.get key digest none true ≡ ok stored
unfolding verify_object zeros same
verified = refl

verify_object-Verified_example :
    Verified sha256 replies.get digest none stored × (stored.existing ≡ false)
verify_object-Verified_example =
    verify_object-Verified sha256 base64_of_hex replies.get key digest none true stored verified

addressed : (content_address_matches key digest || ends_with key manifest_suffix) ≡ true
unfolding content_address_matches zeros same
addressed = refl

checksum : checksum_b64 sha256 base64_of_hex digest ≡ ok digest
unfolding checksum_b64 zeros
checksum = refl

put_once-Course_example :
    Course sha256 base64_of_hex replies key digest
      (put_once sha256 base64_of_hex replies key digest)
put_once-Course_example = put_once-Course sha256 base64_of_hex replies key digest addressed checksum

put_twice : (put_once sha256 base64_of_hex replies key digest).result ≡ ok stored
unfolding put_once zeros content_address_matches same checksum_b64 put_loop attempt_put
    classify_client_error verify_put verify_object
put_twice = refl

put_once-Provenance_example :
    (k : ℕ) × (k < max_put_attempts)
    × Provenance sha256 base64_of_hex replies key digest stored (replies.put (suc k))
put_once-Provenance_example =
    put_once-Provenance sha256 base64_of_hex replies key digest stored put_twice

complete_records_exact_example :
    Splits 0 line ((3, line) ∷ []) ↔ ((3, line) ∷ [] ≡ complete_records line)
complete_records_exact_example = complete_records_exact line ((3, line) ∷ [])

read_at-stable_example : read_at (λ i. line) 1 2 ≡ take 2 (drop 1 line)
read_at-stable_example = read_at-stable (λ i. line) line 1 2 (λ i. refl)

abbrev status : Stat
status = record { regular = true; device = 1; inode = 2; size = 3 }

abbrev archived : Lineage
archived = record { generation = 4; offset = pos 3; anchor = digest_only digest; descriptor = none }

abbrev state : State
state = record {
  current = none;
  lineages = (base_of status, some archived) ∷ [];
  rotated = [];
  uploaded_objects = 9;
}

held : get state.lineages (base_of status) ≡ some (some archived)
unfolding get base_of decimal same
held = refl

-- The same file, with three more bytes and with other bytes.
abbrev grown : Stat
grown = record status { size = 6 }

abbrev continued_lineage : Lineage
continued_lineage = record archived { anchor = snapshot_anchor sha256 status 0 (drop 0 line) 3 }

abbrev anchored_state : State
anchored_state = record state { lineages = (base_of status, some continued_lineage) ∷ [] }

anchored_held : get anchored_state.lineages (base_of grown) ≡ some (some continued_lineage)
unfolding get base_of decimal same
anchored_held = refl

lineage_for_appended_example :
    (lineage_for anchored_state grown (descriptor_anchor sha256 (λ i. line ++ line) grown)).0
    ≡ record continued_lineage { descriptor = some (identity grown) }
lineage_for_appended_example =
    lineage_for_appended sha256 anchored_state status grown (λ i. line ++ line) line (line ++ line)
      continued_lineage 0 3 refl refl ((λ i. refl), refl) anchored_held refl (omega arith)
      (omega arith) (omega arith) refl refl (omega arith)

abbrev cut : Stat
cut = record status { size = 0 }

cut_held : get anchored_state.lineages (base_of cut) ≡ some (some continued_lineage)
unfolding get base_of decimal same
cut_held = refl

lineage_for_replaced_example :
    (lineage_for anchored_state cut (descriptor_anchor sha256 (λ i. []) cut)).0
    ≡ record continued_lineage {
      generation = 4 + 1;
      offset = pos 0;
      anchor = absent;
      descriptor = some (identity cut);
    }
lineage_for_replaced_example =
    lineage_for_replaced sha256 anchored_state status cut (λ i. []) line [] continued_lineage 0 3
      refl refl ((λ i. refl), refl) cut_held refl (omega arith) (omega arith) (omega arith) refl
      (inl (omega arith))

abbrev services : Services
services = record {
  sha256 = sha256;
  base64_of_hex = base64_of_hex;
  manifest_json = λ m. codes "{}";
  s3 = λ k. replies;
  disk = λ s. true;
}

abbrev source : Descriptor
source = record { status = status; after_legacy = status; after = status; seen = λ access k. line }

abbrev empty_state : State
empty_state = record { current = none; lineages = []; rotated = []; uploaded_objects = 0 }

archive_descriptor-Advance_example :
    Quiet services (codes "control") (codes "i-1") (codes "cowrie.json") (codes "current") source (
      archive_descriptor services
        (codes "control")
        (codes "i-1")
        (codes "cowrie.json")
        (codes "current")
        source
        empty_state
        none)
    ⊎ Uploads services
        (codes "control")
        (codes "i-1")
        (codes "cowrie.json")
        (codes "current")
        source
        (offset_of
          (begun services
            (codes "control")
            (codes "i-1")
            (codes "cowrie.json")
            (codes "current")
            source
            empty_state).0)
        (first services
          (codes "control")
          (codes "i-1")
          (codes "cowrie.json")
          (codes "current")
          source
          empty_state)
        (archive_descriptor services
          (codes "control")
          (codes "i-1")
          (codes "cowrie.json")
          (codes "current")
          source
          empty_state
          none)
archive_descriptor-Advance_example =
    archive_descriptor-Advance services (codes "control") (codes "i-1") (codes "cowrie.json")
      (codes "current") source empty_state none

source_run :
    (archive_descriptor services
      (codes "control")
      (codes "i-1")
      (codes "cowrie.json")
      (codes "current")
      source
      empty_state
      none).1
    ≡ ok tt
unfolding archive_descriptor lineage_for get same zeros complete_records put_once
    content_address_matches checksum_b64 put_loop attempt_put classify_client_error ends_with
    anchors_match base_of verify_put read_at verify_object decimal legacy_rotated_marker_matches
    archive_from is_stable snapshot_of upload_records upload_segment descriptor_anchor checked
    advanced segment_key upload_with_manifest verify_existing put padded
source_run = refl

abbrev found : Found
found = record { name = codes "cowrie.json"; reply = descriptor source; services = services }

abbrev rotated_file : Found
rotated_file = record found { name = codes "cowrie.json.1" }

locked_run-Finished_example : Finished 0 (
    locked_run
      (codes "control")
      (codes "i-1")
      (codes "cowrie.json")
      (rotated_file ∷ found ∷ [])
      found
      (λ s. true)
      empty_state)
locked_run-Finished_example =
    locked_run-Finished (codes "control") (codes "i-1") (codes "cowrie.json")
      (rotated_file ∷ found ∷ []) found (λ s. true) empty_state
