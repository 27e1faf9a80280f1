-- ===== src/Archive/Anchor.antt =====
-- Anchors of native/s3-archive.py: the digest of the last bytes before an offset, with the identity
-- of the file they were read from. SHA-256 is a parameter.
use swarm_kill_chain_medium.Prelude.{
  ℕ, ◌-◌, Bool, true, false, not, ◌&&◌, ◌||◌, Option, none, some, ◌==◌, ltb, length, take, drop,
  if◌then◌else◌,
}
use swarm_kill_chain_medium.Prelude.Text.{Text, Bytes, same}
use swarm_kill_chain_medium.Archive.Reader.{read_at}

-- The fields of `os.fstat` that are used.
pub record Stat : Type 0 where
  pub regular : Bool
  pub device : ℕ
  pub inode : ℕ
  pub size : ℕ

unfoldable pub same_descriptor : Stat → Stat → Bool
same_descriptor before after =
    before.regular
    && after.regular
    && (before.device == after.device)
    && (before.inode == after.inode)

-- The fields of an anchor object; `none` for one that the object lacks.
pub record AnchorFields : Type 0 where
  pub offset : Option ℕ
  pub window_start : Option ℕ
  pub sha256 : Option Text
  pub device : Option ℕ
  pub inode : Option ℕ

-- `None`, the digest of an old state file, or an object.
pub data Anchor : Type 0 where
  absent : Anchor
  digest_only : Text → Anchor
  fields : AnchorFields → Anchor

-- `anchor is None`
abbrev pub is_absent : Anchor → Bool
is_absent absent = true
is_absent (digest_only digest) = false
is_absent (fields f) = false

abbrev pub anchor_bytes : ℕ
anchor_bytes = 64

-- `max(0, end - ANCHOR_BYTES)`
abbrev pub window_start_of : ℕ → ℕ
window_start_of end = end - anchor_bytes

unfoldable pub anchor_digest : Anchor → Option Text
anchor_digest absent = none
anchor_digest (digest_only digest) = some digest
anchor_digest (fields f) = f.sha256

abbrev digests_agree : Option Text → Option Text → Bool
digests_agree (some a) (some b) = same a b
digests_agree _ _ = false

-- `field not in expected or expected[field] == actual.get(field)`
abbrev pub field_agrees : Option ℕ → Option ℕ → Bool
field_agrees none actual = true
field_agrees (some e) none = false
field_agrees (some e) (some a) = e == a

abbrev fields_agree : Anchor → Anchor → Bool
fields_agree (fields e) (fields a) =
    field_agrees e.offset a.offset
    && field_agrees e.window_start a.window_start
    && field_agrees e.device a.device
    && field_agrees e.inode a.inode
fields_agree (fields e) _ = false
fields_agree _ actual = true

unfoldable pub anchors_match : Anchor → Anchor → Bool
unfolding anchor_digest
anchors_match expected actual =
    digests_agree (anchor_digest expected) (anchor_digest actual) && fields_agree expected actual

module _ (sha256 : Bytes → Text) where
  unfoldable pub anchor_from_window : Stat → ℕ → Bytes → Anchor
  anchor_from_window status end window =
      if (end == 0) || not (length window == end - window_start_of end)
      then absent
      else fields (record {
        offset = some end;
        window_start = some (window_start_of end);
        sha256 = some (sha256 window);
        device = some status.device;
        inode = some status.inode;
      })

  -- `seen` is what the reads of this call see.
  unfoldable pub descriptor_anchor : (ℕ → Bytes) → Stat → ℕ → Anchor
  unfolding anchor_from_window
  descriptor_anchor seen status end =
      if ltb status.size end
      then absent
      else anchor_from_window status end
          (read_at seen (window_start_of end) (end - window_start_of end))

  -- `snapshot[first:last]`, where neither index lies outside the snapshot.
  unfoldable pub snapshot_anchor : Stat → ℕ → Bytes → ℕ → Anchor
  unfolding anchor_from_window
  snapshot_anchor status snapshot_start snapshot end =
      let first = window_start_of end - snapshot_start in
      let last = end - snapshot_start in
      if ltb (window_start_of end) snapshot_start || ltb (length snapshot) last
      then absent
      else anchor_from_window status end (take (last - first) (drop first snapshot))
