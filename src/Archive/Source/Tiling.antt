-- ===== src/Archive/Source/Tiling.antt =====
-- What a pass uploads of its snapshot (`archive_path` of native/s3-archive.py).
use mathlib.Core.List.{append_assoc}
use swarm_kill_chain_medium.Prelude.{
  ℕ, ◌+◌, ◌≡◌, refl, sym, ◌∙◌, Option, some, List, [], ◌∷◌, ◌++◌, arith, length, inl, inr,
  Bool-cases, append-nil, text_equality,
}
use swarm_kill_chain_medium.Prelude.Int.{pos}
use swarm_kill_chain_medium.Prelude.Text.{Text, Bytes}
use swarm_kill_chain_medium.Dict.{get}
use swarm_kill_chain_medium.Dict.Laws.{get-put_self}
use swarm_kill_chain_medium.Archive.Result.{Result, ok, Result-cases}
use swarm_kill_chain_medium.Archive.Records.{lf}
use swarm_kill_chain_medium.Archive.Records.Splitting.{NoLf, Splits, unfinished, record_then}
use swarm_kill_chain_medium.Archive.Anchor.{Anchor, is_absent, Stat, snapshot_anchor}
use swarm_kill_chain_medium.Archive.Lineage.{Lineage, State, base_of}
use swarm_kill_chain_medium.Archive.Source.Upload.{Segment, Services}
use swarm_kill_chain_medium.Archive.Source.Types.{Descriptor, Progress}
use swarm_kill_chain_medium.Archive.Source.Pass.{
  segment_for, upload_segment, advanced, upload_records,
}

-- `Tiles start given segments finish rest`: from the offset `start` on, the bytes `given` are those of
-- the segments, one after the other and each at its own offsets, up to `finish`, and then `rest`;
-- each segment ends in its only LF.
pub data Tiles : ℕ → Bytes → List Segment → ℕ → Bytes → Type 0 where
  all_done :
      {start finish : ℕ} {rest rest' : Bytes}
      → start ≡ finish
      → rest ≡ rest'
      → Tiles start rest [] finish rest'
  then_next :
      {start finish : ℕ} {given rest : Bytes} {segments : List Segment} (s : Segment)
      (line more : Bytes)
      → s.start ≡ start
      → s.finish ≡ start + length s.body
      → NoLf line
      → s.body ≡ line ++ lf ∷ []
      → given ≡ s.body ++ more
      → Tiles s.finish more segments finish rest
      → Tiles start given (s ∷ segments) finish rest

-- The stored offset of a file, in a state.
abbrev pub offset_in : Stat → State → Option (Option Lineage)
offset_in status state = get state.lineages (base_of status)

-- Each state written has the end of its segment for the offset of the file; of the last segment the
-- write may have failed.
pub data Recorded (status : Stat) : List Segment → List State → Type 0 where
  no_more : Recorded status [] []
  last_unsaved : (s : Segment) → Recorded status (s ∷ []) []
  saved_after :
      {segments : List Segment} {states : List State} (s : Segment) (state : State)
      (lineage : Lineage)
      → get state.lineages (base_of status) ≡ some (some lineage)
      → lineage.offset ≡ pos s.finish
      → Recorded status segments states
      → Recorded status (s ∷ segments) (state ∷ states)

-- How far a run of the upload loop has come from the offset `start` over the bytes `given`.
pub record Advance (status : Stat) (start : ℕ) (given : Bytes) (p : Progress) (q : Progress)
    (r : Result (Unit {0})) : Type 0 where
  pub segments : List Segment
  pub states : List State
  pub finish : ℕ
  pub rest : Bytes
  pub uploaded : q.uploaded ≡ p.uploaded ++ segments
  pub saved : q.saved ≡ p.saved ++ states
  pub tiles : Tiles start given segments finish rest
  pub recorded : Recorded status segments states
  pub offset : q.lineage.offset ≡ pos finish
  pub in_state : get q.state.lineages (base_of status) ≡ some (some q.lineage)
  pub counted : q.state.uploaded_objects ≡ p.state.uploaded_objects + length segments
  pub complete : r ≡ ok tt → NoLf rest

module _ (services : Services) (prefix sensor_id name kind : Text) (d : Descriptor) where
  abbrev next : Progress → Segment → Progress
  next p s = advanced services prefix sensor_id name kind d p s

  next-in_state :
      (p : Progress) (s : Segment)
      → get (next p s).state.lineages (base_of d.status) ≡ some (some (next p s).lineage)
  unfolding advanced
  next-in_state p s = get-put_self p.state.lineages (base_of d.status) _

  stopped :
      {p : Progress} {start : ℕ} {given : Bytes} {r : Result (Unit {0})}
      → p.lineage.offset ≡ pos start
      → get p.state.lineages (base_of d.status) ≡ some (some p.lineage)
      → (r ≡ ok tt → NoLf given)
      → Advance d.status start given p p r
  stopped {p} {start} {given} at held complete = record {
    segments = [];
    states = [];
    finish = start;
    rest = given;
    uploaded = sym (append-nil p.uploaded);
    saved = sym (append-nil p.saved);
    tiles = all_done refl refl;
    recorded = no_more;
    offset = at;
    in_state = held;
    counted = omega arith;
    complete = complete;
  }

  advanced_at : (p : Progress) (s : Segment) → (next p s).lineage.offset ≡ pos s.finish
  unfolding advanced
  advanced_at p s = refl

  counted-next :
      (p : Progress) (s : Segment)
      → (next p s).state.uploaded_objects ≡ p.state.uploaded_objects + 1
  unfolding advanced
  counted-next p s = refl

  abbrev and_saved : Progress → Segment → Progress
  and_saved p s = record (next p s) { saved = (next p s).saved ++ (next p s).state ∷ [] }

  -- One segment, before the rest of the run or with a write that failed.
  module _ {p : Progress} {start : ℕ} {given : Bytes} {r : Result (Unit {0})} (s : Segment)
      (line more : Bytes) (starts : s.start ≡ start) (ends : s.finish ≡ start + length s.body)
      (clean : NoLf line) (shape : s.body ≡ line ++ lf ∷ []) (whole : given ≡ s.body ++ more) where
    one_then :
        {q : Progress}
        → Advance d.status s.finish more (and_saved p s) q r
        → Advance d.status start given p q r
    unfolding advanced
    one_then a = record {
      segments = s ∷ a.segments;
      states = (next p s).state ∷ a.states;
      finish = a.finish;
      rest = a.rest;
      uploaded = a.uploaded ∙ append_assoc p.uploaded (s ∷ []) a.segments;
      saved = a.saved ∙ append_assoc p.saved ((next p s).state ∷ []) a.states;
      tiles = then_next s line more starts ends clean shape whole a.tiles;
      recorded =
          saved_after s (next p s).state (next p s).lineage (next-in_state p s) refl a.recorded;
      offset = a.offset;
      in_state = a.in_state;
      counted = omega (arith, a.counted, counted-next p s);
      complete = a.complete;
    }

    one_unsaved : (r ≡ ok tt → ⊥) → Advance d.status start given p (next p s) r
    unfolding advanced
    one_unsaved failed = record {
      segments = s ∷ [];
      states = [];
      finish = s.finish;
      rest = more;
      uploaded = refl;
      saved = sym (append-nil p.saved);
      tiles = then_next s line more starts ends clean shape whole (all_done refl refl);
      recorded = last_unsaved s;
      offset = refl;
      in_state = next-in_state p s;
      counted = refl;
      complete = λ e. absurd (failed e);
    }

  module _ (snapshot_start : ℕ) (snapshot : Bytes) (initial_start : ℕ) where
    abbrev pub loop : List (ℕ × Bytes) → ℕ → Progress → Progress × Result (Unit {0})
    loop records start p =
        upload_records services prefix sensor_id name kind d snapshot_start snapshot initial_start
          records start p

    pub loop-Advance :
        {cursor : ℕ} {given : Bytes} {records : List (ℕ × Bytes)} (start : ℕ) (p : Progress)
        → start ≡ initial_start + cursor
        → p.lineage.offset ≡ pos start
        → get p.state.lineages (base_of d.status) ≡ some (some p.lineage)
        → Splits cursor given records
        → Advance d.status start given p (loop records start p).0 (loop records start p).1
    unfolding upload_records
    loop-Advance start p begins at held (unfinished clean) = stopped at held (λ _. clean)
    loop-Advance {given = given} start p begins at held
          (record_then {end = end} {segment = body} line rest clean shape ends whole more) =
        elim (Bool-cases (is_absent anchor)) [
          | inl gone ↦ rw (gone, upload_records) (stopped at held (λ e. absurd (cc)))
          | inr there ↦
              rw (there, upload_records)
                (elim (Result-cases
                  (upload_segment services prefix sensor_id name kind d segment)) [
                    | inl (stored, sent) ↦
                        rw (sent, upload_records)
                          (elim (Bool-cases (services.disk (next p segment).state)) [
                            | inl written ↦
                                rw (written, upload_records)
                                  (one_then segment line rest refl reaches clean shape whole (
                                    loop-Advance (initial_start + end) (and_saved p segment) refl
                                      (advanced_at p segment) (next-in_state p segment) more))
                            | inr lost ↦
                                rw (lost, upload_records)
                                  (one_unsaved segment line rest refl reaches clean shape whole
                                    (λ e. cc))
                          ])
                    | inr (f, failed) ↦
                        rw (failed, upload_records) (stopped at held (λ e. absurd (cc)))
                  ])
        ]
      where
        anchor : Anchor
        anchor =
            snapshot_anchor services.sha256 d.status snapshot_start snapshot (initial_start + end)

        reaches : initial_start + end ≡ start + length body
        reaches = omega (arith, begins, ends)

        segment : Segment
        segment =
            segment_for services prefix sensor_id name kind d p.lineage start (initial_start + end)
              anchor body
