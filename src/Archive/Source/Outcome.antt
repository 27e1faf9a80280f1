-- ===== src/Archive/Source/Outcome.antt =====
-- What one pass over a file leaves behind (`archive_path` of native/s3-archive.py).
use swarm_kill_chain_medium.Prelude.{
  ℕ, ◌-◌, ◌≡◌, refl, true, not, Option, some, [], arith, ◌⊎◌, inl, inr, drop, leb, by_if,
  text_equality,
}
use swarm_kill_chain_medium.Prelude.Int.{pos}
use swarm_kill_chain_medium.Prelude.Text.{Text, Bytes}
use swarm_kill_chain_medium.Dict.{get}
use swarm_kill_chain_medium.Archive.Result.{Result, ok}
use swarm_kill_chain_medium.Archive.Records.Splitting.{complete_records-Splits}
use swarm_kill_chain_medium.Archive.Anchor.{anchor_bytes, descriptor_anchor}
use swarm_kill_chain_medium.Archive.Lineage.{Lineage, State, base_of, offset_of, lineage_for}
use swarm_kill_chain_medium.Archive.Lineage.Laws.{lineage_for_start}
use swarm_kill_chain_medium.Archive.Source.Upload.{Services}
use swarm_kill_chain_medium.Archive.Source.Types.{Descriptor, Progress, lineage_read}
use swarm_kill_chain_medium.Archive.Source.Tiling.{Advance, loop-Advance}
use swarm_kill_chain_medium.Archive.Source.Pass.{
  legacy_rotated_marker_matches, is_stable, snapshot_of, archive_from, archive_descriptor,
}

module _ (services : Services) (prefix sensor_id name kind : Text) (d : Descriptor) where
  -- The lineage that the pass starts from, and the bytes from its offset to the end of the snapshot.
  abbrev pub begun : State → Lineage × State
  begun state =
      lineage_for state d.status (descriptor_anchor services.sha256 (d.seen lineage_read) d.status)

  abbrev pub from_offset : ℕ → Bytes
  from_offset start =
      drop (start - (start - anchor_bytes))
        (snapshot_of services prefix sensor_id name kind d start)

  -- Nothing was uploaded or written, and nothing raised.
  abbrev pub Quiet : Progress × Result (Unit {0}) → Type 0
  Quiet (p, r) = (p.uploaded ≡ []) × (p.saved ≡ []) × (r ≡ ok tt)

  abbrev pub first : State → Progress
  first state = record {
    lineage = (begun state).0;
    state = (begun state).1;
    saved = [];
    uploaded = [];
  }

  -- The snapshot was found stable, and the upload loop came as far as `Advance` says.
  abbrev pub Uploads : ℕ → Progress → Progress × Result (Unit {0}) → Type 0
  Uploads start p (q, r) =
      (is_stable services d start (snapshot_of services prefix sensor_id name kind d start) ≡ true)
      × Advance d.status start (from_offset start) p q r

  archive_from-cases :
      (start : ℕ) (p : Progress)
      → p.uploaded ≡ []
      → p.saved ≡ []
      → p.lineage.offset ≡ pos start
      → get p.state.lineages (base_of d.status) ≡ some (some p.lineage)
      → Quiet (archive_from services prefix sensor_id name kind d start p)
        ⊎ Uploads start p (archive_from services prefix sensor_id name kind d start p)
  unfolding archive_from
  archive_from-cases start p fresh unsaved at held =
      by_if (λ q. Quiet q ⊎ Uploads start p q)
        (is_stable services d start (snapshot_of services prefix sensor_id name kind d start))
        (λ stable. inr (
          stable,
          loop-Advance services prefix sensor_id name kind d (start - anchor_bytes)
              (snapshot_of services prefix sensor_id name kind d start) start start p (omega arith)
              at held (complete_records-Splits (from_offset start)),
        ))
        (λ changed. inl (fresh, unsaved, refl))

  -- The pass over an open source either uploads nothing, writes nothing and ends well, or it has found
  -- the snapshot stable and comes as far as `Advance` says, from the offset of the lineage: what it
  -- uploads are the records of the snapshot from there on, in order, with no gap and no overlap; the
  -- offset of the lineage is the end of the last one uploaded, whichever step fails; each state
  -- written has the end of its segment for its offset; and when nothing fails there is no complete
  -- record left.
  pub archive_descriptor-Advance :
      (state : State) (marker : Option Text)
      → Quiet (archive_descriptor services prefix sensor_id name kind d state marker)
        ⊎ Uploads
            (offset_of (begun state).0)
            (first state)
            (archive_descriptor services prefix sensor_id name kind d state marker)
  unfolding archive_descriptor
  archive_descriptor-Advance state marker =
      let (at, held) =
        lineage_for_start state d.status
          (descriptor_anchor services.sha256 (d.seen lineage_read) d.status) in
      by_if P (not d.status.regular) (λ _. inl (refl, refl, refl))
        (λ _.
          by_if P (legacy_rotated_marker_matches services d marker) (λ _. inl (refl, refl, refl))
            (λ _.
              by_if P (leb d.status.size (offset_of (begun state).0)) (λ _. inl (refl, refl, refl))
                (λ _.
                  archive_from-cases (offset_of (begun state).0) (first state) refl refl at held)))
    where
      P : Progress × Result (Unit {0}) → Type 0
      P q = Quiet q ⊎ Uploads (offset_of (begun state).0) (first state) q
