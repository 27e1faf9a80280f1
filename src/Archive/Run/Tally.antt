-- ===== src/Archive/Run/Tally.antt =====
-- What one pass counts of its uploads, and what it writes (`archive_path` of native/s3-archive.py).
use mathlib.Core.Path.{subst}
use swarm_kill_chain_medium.Prelude.{
  ℕ, ◌+◌, ◌≤◌, ◌≡◌, refl, not, ◌⊎◌, inl, inr, Option, none, some, List, [], ◌∷◌, ◌++◌, length,
  length-append, leb, by_if, Bool-cases, arith, text_equality,
}
use swarm_kill_chain_medium.Prelude.Text.{Text, Bytes}
use swarm_kill_chain_medium.Archive.Result.{Result, ok, raised, Failure, Result-cases}
use swarm_kill_chain_medium.Archive.Lineage.{State, lineage_for, offset_of}
use swarm_kill_chain_medium.Archive.Anchor.{Anchor, is_absent, snapshot_anchor, descriptor_anchor}
use swarm_kill_chain_medium.Archive.Source.Types.{
  Descriptor, Progress, PathRun, OpenReply, open_source, lineage_read,
}
use swarm_kill_chain_medium.Archive.Source.Upload.{Services, Segment}
use swarm_kill_chain_medium.Archive.Source.Pass.{
  advanced, upload_segment, upload_records, archive_from, archive_descriptor, archive_path,
  segment_for, legacy_rotated_marker_matches, is_stable, snapshot_of,
}

-- How a part of a run ended: it returned, with a state written for each of `due` reasons, or it raised,
-- and at most one of the uploads is in no state that was written.
abbrev pub Ends : ℕ → ℕ → ℕ → Result (Unit {0}) → Type 0
Ends due saves uploads r =
    ((r ≡ ok tt) × (saves ≡ due))
    ⊎ (((f : Failure) × (r ≡ raised f)) × (saves ≤ uploads) × (uploads ≤ saves + 1))

-- The states written count one upload each, from `before` on: the n-th of them counts the n-th upload.
abbrev pub Counts : ℕ → List State → Type 0
Counts before [] = Unit
Counts before (s ∷ saves) = (s.uploaded_objects ≡ before + 1) × Counts (before + 1) saves

pub Counts-append :
    (before between : ℕ) (xs ys : List State)
    → between ≡ before + length xs
    → Counts before xs
    → Counts between ys
    → Counts before (xs ++ ys)
Counts-append before between [] ys e h k = subst (λ n. Counts n ys) (omega (arith, e)) k
Counts-append before between (s ∷ xs) ys e (h, hs) k =
    (h, Counts-append (before + 1) between xs ys (omega (arith, e)) hs k)

-- What a pass or a run that began with this number of uploads has counted and written.
abbrev pub Tally : ℕ → PathRun → Type 0
Tally before r =
    (r.state.uploaded_objects ≡ before + length r.uploaded)
    × Counts before r.saved
    × Ends (length r.uploaded) (length r.saved) (length r.uploaded) r.result

abbrev run_of : Progress × Result (Unit {0}) → PathRun
run_of (p, r) = record { state = p.state; saved = p.saved; uploaded = p.uploaded; result = r }

module _ (services : Services) (prefix sensor_id name kind : Text) (d : Descriptor) where
  module _ (snapshot_start : ℕ) (snapshot : Bytes) (initial_start : ℕ) where
    upload_records-Tally :
        (before : ℕ) (records : List (ℕ × Bytes)) (start : ℕ) (p : Progress)
        → p.state.uploaded_objects ≡ before + length p.uploaded
        → length p.saved ≡ length p.uploaded
        → Counts before p.saved
        → Tally before (
            run_of (
              upload_records services prefix sensor_id name kind d snapshot_start snapshot
                initial_start records start p))
    unfolding upload_records advanced
    upload_records-Tally before [] start p counted even in_order =
        (counted, in_order, inl (refl, even))
    upload_records-Tally before ((relative_end, body) ∷ rest) start p counted even in_order =
        elim (Bool-cases (is_absent anchor)) [
          | inl gone ↦
              rw (gone, upload_records)
                (counted, in_order, inr ((_, refl), omega (arith, even), omega (arith, even)))
          | inr there ↦
              rw (there, upload_records)
                (elim (Result-cases
                  (upload_segment services prefix sensor_id name kind d segment)) [
                    | inl (stored, sent) ↦
                        rw (sent, upload_records)
                          (elim (Bool-cases (services.disk next.state)) [
                            | inl written ↦
                                rw (written, upload_records)
                                  (upload_records-Tally before rest (initial_start + relative_end)
                                    (record next { saved = next.saved ++ next.state ∷ [] }) more
                                    both
                                    (Counts-append before (before + length p.saved) p.saved
                                      (next.state ∷ []) refl in_order
                                      (omega (arith, counted, even), tt)))
                            | inr lost ↦
                                rw (lost, upload_records)
                                  (
                                    more,
                                    in_order,
                                    inr (
                                      (_, refl),
                                      omega (arith, even, longer),
                                      omega (arith, even, longer),
                                    ),
                                  )
                          ])
                    | inr (f, failed) ↦
                        rw (failed, upload_records)
                          (
                            counted,
                            in_order,
                            inr ((_, refl), omega (arith, even), omega (arith, even)),
                          )
                  ])
        ]
      where
        anchor : Anchor
        anchor =
            snapshot_anchor services.sha256 d.status snapshot_start snapshot
              (initial_start + relative_end)

        segment : Segment
        segment =
            segment_for services prefix sensor_id name kind d p.lineage start
              (initial_start + relative_end) anchor body

        next : Progress
        next = advanced services prefix sensor_id name kind d p segment

        longer : length next.uploaded ≡ length p.uploaded + 1
        longer = length-append p.uploaded (segment ∷ [])

        more : next.state.uploaded_objects ≡ before + length next.uploaded
        more = omega (arith, counted, longer)

        both : length (next.saved ++ next.state ∷ []) ≡ length next.uploaded
        both = omega (arith, length-append p.saved (next.state ∷ []), even, longer)

  archive_descriptor-Tally :
      (state : State) (marker : Option Text)
      → Tally state.uploaded_objects
          (run_of (archive_descriptor services prefix sensor_id name kind d state marker))
  unfolding archive_descriptor archive_from lineage_for
  archive_descriptor-Tally state marker =
      by_if Q (not d.status.regular) (λ _. idle)
        (λ _.
          by_if Q (legacy_rotated_marker_matches services d marker) (λ _. idle)
            (λ _.
              by_if Q (leb d.status.size start) (λ _. idle)
                (λ _.
                  by_if Q
                    (is_stable services d start
                      (snapshot_of services prefix sensor_id name kind d start))
                    (λ _.
                      upload_records-Tally _ _ _ state.uploaded_objects _ start _ (omega arith) refl
                        tt)
                    (λ _. idle))))
    where
      start : ℕ
      start =
          offset_of
            (lineage_for state d.status
              (descriptor_anchor services.sha256 (d.seen lineage_read) d.status)).0

      Q : Progress × Result (Unit {0}) → Type 0
      Q q = Tally state.uploaded_objects (run_of q)

      idle : (state.uploaded_objects ≡ state.uploaded_objects + 0) × Unit {0} × Ends 0 0 0 (ok tt)
      idle = (omega arith, tt, inl (refl, refl))

pub archive_path-Tally :
    (services : Services) (prefix sensor_id name kind : Text) (state : State) (reply : OpenReply)
    (marker : Option Text)
    → Tally state.uploaded_objects
        (archive_path services prefix sensor_id name kind state reply marker)
unfolding archive_path open_source
archive_path-Tally services prefix sensor_id name kind state reply marker =
    by_reply (open_source reply)
  where
    by_reply :
        (o : Result (Option Descriptor))
        → Tally state.uploaded_objects (elim o [
          | raised e ↦ record { state = state; saved = []; uploaded = []; result = raised e }
          | ok none ↦ record { state = state; saved = []; uploaded = []; result = ok tt }
          | ok (some d) ↦
              run_of (archive_descriptor services prefix sensor_id name kind d state marker)
        ])
    by_reply (raised e) = (omega arith, tt, inr ((e, refl), omega arith, omega arith))
    by_reply (ok none) = (omega arith, tt, inl (refl, refl))
    by_reply (ok (some d)) =
        archive_descriptor-Tally services prefix sensor_id name kind d state marker
