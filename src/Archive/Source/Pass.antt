-- ===== src/Archive/Source/Pass.antt =====
-- The pass itself: the checks on the descriptor, the snapshot, and the loop over its records.
use swarm_kill_chain_medium.Prelude.{
  ℕ, ◌+◌, ◌-◌, Bool, true, false, not, ◌&&◌, Option, none, some, List, [], ◌∷◌, ◌++◌, ◌==◌, leb,
  length, drop, text_equality, if◌then◌else◌,
}
use swarm_kill_chain_medium.Prelude.Int.{pos}
use swarm_kill_chain_medium.Prelude.Text.{Text, Bytes, decimal, same}
use swarm_kill_chain_medium.Dict.{put}
use swarm_kill_chain_medium.Archive.Result.{Result, ok, raised, runtime_error, os_error}
use swarm_kill_chain_medium.Archive.Records.{complete_records}
use swarm_kill_chain_medium.Archive.Reader.{read_at}
use swarm_kill_chain_medium.Archive.Client.{Stored}
use swarm_kill_chain_medium.Archive.Anchor.{
  same_descriptor, Anchor, absent, is_absent, anchor_bytes, anchors_match, descriptor_anchor,
  snapshot_anchor,
}
use swarm_kill_chain_medium.Archive.Lineage.{
  Lineage, State, offset_of, reset_generation, identity, base_of, lineage_for,
}
use swarm_kill_chain_medium.Archive.Source.Types.{
  legacy_read, lineage_read, start_read, end_read, snapshot_read, end_reread, start_reread,
  Descriptor, OpenReply, open_source, Progress, PathRun,
}
use swarm_kill_chain_medium.Archive.Source.Upload.{
  Segment, Services, segment_key, upload_with_manifest,
}

abbrev pub starts_with : Text → Text → Bool
starts_with text [] = true
starts_with [] (c ∷ prefix) = false
starts_with (d ∷ text) (c ∷ prefix) = (d == c) && starts_with text prefix

module _ (services : Services) where
  open services use {sha256, disk}

  unfoldable pub legacy_rotated_marker_matches : Descriptor → Option Text → Bool
  unfolding base_of same_descriptor read_at
  legacy_rotated_marker_matches d none = false
  legacy_rotated_marker_matches d (some marker) =
      let size = d.status.size in
      let prefix = base_of d.status ++ (b':' ∷ decimal size ++ b':' ∷ []) in
      let content = read_at (d.seen legacy_read) 0 size in
      starts_with marker prefix
      && (length content == size)
      && same_descriptor d.status d.after_legacy
      && (d.after_legacy.size == size)
      && same marker (prefix ++ sha256 content)

  -- The snapshot agrees with the anchors read before and after it.
  unfoldable pub is_stable : Descriptor → ℕ → Bytes → Bool
  unfolding same_descriptor anchors_match descriptor_anchor snapshot_anchor
  is_stable d start snapshot =
      let snapshot_end = d.status.size in
      let snapshot_start = start - anchor_bytes in
      let start_anchor = descriptor_anchor sha256 (d.seen start_read) d.status start in
      let end_anchor = descriptor_anchor sha256 (d.seen end_read) d.status snapshot_end in
      let captured = snapshot_anchor sha256 d.status snapshot_start snapshot snapshot_end in
      (length snapshot == snapshot_end - snapshot_start)
      && same_descriptor d.status d.after
      && leb snapshot_end d.after.size
      && anchors_match end_anchor captured
      && anchors_match captured (descriptor_anchor sha256 (d.seen end_reread) d.after snapshot_end)
      && (if start == 0 then true else elim start_anchor [
        | absent ↦ true
        | taken ↦ anchors_match taken (descriptor_anchor sha256 (d.seen start_reread) d.after start)
      ])

  module _ (prefix sensor_id name kind : Text) (d : Descriptor) where
    abbrev pub segment_for : Lineage → ℕ → ℕ → Anchor → Bytes → Segment
    segment_for lineage start end anchor body = record {
      device = d.status.device;
      inode = d.status.inode;
      generation = lineage.generation;
      kind = kind;
      snapshot_size = d.status.size;
      start = start;
      finish = end;
      anchor = anchor;
      body = body;
    }

    unfoldable pub upload_segment : Segment → Result Stored
    unfolding segment_key upload_with_manifest
    upload_segment s =
        let digest = sha256 s.body in
        upload_with_manifest services name (segment_key prefix sensor_id s digest) digest s
          (length s.body)

    -- The lineage and the state after the upload of a segment, in memory.
    unfoldable pub advanced : Progress → Segment → Progress
    advanced p s =
        let lineage : Lineage = record p.lineage {
          offset = pos s.finish;
          anchor = s.anchor;
          descriptor = some (identity d.status);
        } in
        record {
          lineage = lineage;
          state = record p.state {
            current = some (record {
              device = s.device;
              inode = s.inode;
              generation = s.generation;
              offset = s.finish;
              anchor = s.anchor;
            });
            lineages = put p.state.lineages (base_of d.status) (some lineage);
            uploaded_objects = p.state.uploaded_objects + 1;
          };
          saved = p.saved;
          uploaded = p.uploaded ++ s ∷ [];
        }

    -- The loop over the records of the snapshot, from the offset `start` on.
    unfoldable pub upload_records :
        ℕ → Bytes → ℕ → List (ℕ × Bytes) → ℕ → Progress → Progress × Result (Unit {0})
    upload_records snapshot_start snapshot initial_start [] start p = (p, ok tt)
    upload_records snapshot_start snapshot initial_start ((relative_end, body) ∷ rest) start p =
        let end = initial_start + relative_end in
        let anchor = snapshot_anchor sha256 d.status snapshot_start snapshot end in
        let segment = segment_for p.lineage start end anchor body in
        let p' = advanced p segment in
        elim (is_absent anchor) [
          | true ↦ (p, raised runtime_error)
          | false ↦ elim (upload_segment segment) [
            | raised e ↦ (p, raised e)
            | ok _ ↦ elim (disk p'.state) [
              | false ↦ (p', raised os_error)
              | true ↦
                  upload_records snapshot_start snapshot initial_start rest end
                    (record p' { saved = p'.saved ++ p'.state ∷ [] })
            ]
          ]
        ]

    -- The bytes that the snapshot read captured: what precedes the offset `start` is context for
    -- the anchors.
    unfoldable pub snapshot_of : ℕ → Bytes
    unfolding read_at
    snapshot_of start =
        read_at (d.seen snapshot_read) (start - anchor_bytes)
          (d.status.size - (start - anchor_bytes))

    unfoldable pub archive_from : ℕ → Progress → Progress × Result (Unit {0})
    archive_from start p =
        let snapshot = snapshot_of start in
        let reset = reset_generation p.lineage in
        if is_stable d start snapshot
        then upload_records (start - anchor_bytes) snapshot start
            (complete_records (drop (start - (start - anchor_bytes)) snapshot)) start p
        else (
          record p {
            lineage = reset;
            state = record p.state {
              lineages = put p.state.lineages (base_of d.status) (some reset);
            };
          },
          ok tt,
        )

    unfoldable pub archive_descriptor : State → Option Text → Progress × Result (Unit {0})
    archive_descriptor state marker =
        let (lineage, state') =
          lineage_for state d.status (descriptor_anchor sha256 (d.seen lineage_read) d.status) in
        let start = offset_of lineage in
        let unchanged : Progress = record {
          lineage = lineage;
          state = state;
          saved = [];
          uploaded = [];
        } in
        let begun : Progress = record unchanged { state = state' } in
        if not d.status.regular
        then (unchanged, ok tt)
        else if legacy_rotated_marker_matches d marker
        then (unchanged, ok tt)
        else if leb d.status.size start
        then (begun, ok tt)
        else archive_from start begun

  abbrev finished : Progress × Result (Unit {0}) → PathRun
  finished (p, r) = record { state = p.state; saved = p.saved; uploaded = p.uploaded; result = r }

  abbrev nothing_done : State → Result (Unit {0}) → PathRun
  nothing_done state r = record { state = state; saved = []; uploaded = []; result = r }

  unfoldable pub archive_path :
      Text → Text → Text → Text → State → OpenReply → Option Text → PathRun
  unfolding open_source
  archive_path prefix sensor_id name kind state reply marker = elim (open_source reply) [
    | raised e ↦ nothing_done state (raised e)
    | ok none ↦ nothing_done state (ok tt)
    | ok (some d) ↦ finished (archive_descriptor prefix sensor_id name kind d state marker)
  ]
