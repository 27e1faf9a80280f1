-- ===== src/Archive/Source/Upload.antt =====
-- `upload_with_manifest` of native/s3-archive.py, and the segments that it uploads. The PUTs and
-- GETs answer by the object's key, and the encoding of a manifest as JSON is a parameter.
use swarm_kill_chain_medium.Prelude.{ℕ, Bool, ◌++◌}
use swarm_kill_chain_medium.Prelude.Text.{Text, Bytes, codes, decimal, padded}
use swarm_kill_chain_medium.Archive.Result.{Result, ok, ◌>>=◌}
use swarm_kill_chain_medium.Archive.Client.{Replies, Stored}
use swarm_kill_chain_medium.Archive.Put.{manifest_suffix, put_once}
use swarm_kill_chain_medium.Archive.Anchor.{Anchor}
use swarm_kill_chain_medium.Archive.Lineage.{State}

-- One record of a source file on its way to the archive: its bytes, where they stood, and the
-- fields of its `source_identity`, whose `dedupe_key` is made of them.
pub record Segment : Type 0 where
  pub device : ℕ
  pub inode : ℕ
  pub generation : ℕ
  pub kind : Text
  pub snapshot_size : ℕ
  pub start : ℕ
  pub finish : ℕ
  pub anchor : Anchor
  pub body : Bytes

-- The fields of a manifest that vary.
pub record Manifest : Type 0 where
  pub source_name : Text
  pub source_identity : Segment
  pub sha256 : Text
  pub size : ℕ
  pub object_key : Text
  pub object_version_id : Text

-- What the archiver calls: hashing, encodings, S3 by the key, and the state file, which is written
-- unless the disk fails.
pub record Services : Type 0 where
  pub sha256 : Bytes → Text
  pub base64_of_hex : Text → Text
  pub manifest_json : Manifest → Bytes
  pub s3 : Text → Replies
  pub disk : State → Bool

-- f"{PREFIX}/instances/{sensor_id}/segments/..."
unfoldable pub segment_key : Text → Text → Segment → Text → Text
unfolding decimal padded
segment_key prefix sensor_id s digest =
    prefix
    ++ (codes "/instances/"
        ++ (sensor_id
            ++ (codes "/segments/"
                ++ (decimal s.device
                    ++ (codes "-"
                        ++ (decimal s.inode
                            ++ (codes "-g"
                                ++ (padded 6 s.generation
                                    ++ (codes "/"
                                        ++ (padded 20 s.start
                                            ++ (codes "-"
                                                ++ (padded 20 s.finish
                                                    ++ (codes "-"
                                                        ++ (digest ++ codes ".json"))))))))))))))

module _ (services : Services) where
  open services use {sha256, base64_of_hex, manifest_json, s3}

  unfoldable pub upload_with_manifest : Text → Text → Text → Segment → ℕ → Result Stored
  upload_with_manifest source_name key digest identity size = do
    response ← (put_once sha256 base64_of_hex (s3 key) key digest).result
    let manifest_bytes = manifest_json (record {
      source_name = source_name;
      source_identity = identity;
      sha256 = digest;
      size = size;
      object_key = key;
      object_version_id = response.version;
    })
    _ ←
        (put_once sha256 base64_of_hex (s3 (key ++ manifest_suffix)) (key ++ manifest_suffix)
          (sha256 manifest_bytes)).result
    ok response
