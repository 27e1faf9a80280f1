-- ===== src/Archive/Run/Laws.antt =====
-- What a run counts of its uploads, and what it writes (native/s3-archive.py).
use mathlib.Core.List.{append_assoc}
use swarm_kill_chain_medium.Prelude.{
  ℕ, ◌+◌, ◌≤◌, ◌≡◌, refl, ap, sym, ◌∙◌, Bool, ◌⊎◌, inl, inr, none, List, [], ◌∷◌, ◌++◌, length,
  length-append, by_if, arith, text_equality,
}
use swarm_kill_chain_medium.Prelude.Text.{Text, codes, same}
use swarm_kill_chain_medium.Archive.Result.{ok, raised, Failure, os_error}
use swarm_kill_chain_medium.Archive.Lineage.{State}
use swarm_kill_chain_medium.Archive.Source.Types.{PathRun}
use swarm_kill_chain_medium.Archive.Run.{
  Found, then_run, archive_rotated, archive_current, save_last, locked_run,
}
use swarm_kill_chain_medium.Archive.Run.Tally.{Counts, Counts-append, Tally, archive_path-Tally}

-- What a whole run has counted and written. The n-th state written counts the n-th upload; when the run
-- returned, one more was written last, the state that it ended with.
abbrev pub Finished : ℕ → PathRun → Type 0
Finished before r =
    (r.state.uploaded_objects ≡ before + length r.uploaded)
    × (((r.result ≡ ok tt)
          × (earlier : List State) × (r.saved ≡ earlier ++ r.state ∷ [])
          × Counts before earlier
          × (length earlier ≡ length r.uploaded))
        ⊎ (((f : Failure) × (r.result ≡ raised f))
            × Counts before r.saved
            × (length r.saved ≤ length r.uploaded)
            × (length r.uploaded ≤ length r.saved + 1)))

then_run-Tally :
    (before : ℕ) (first : PathRun) (next : State → PathRun)
    → Tally before first
    → ((state : State) → Tally state.uploaded_objects (next state))
    → Tally before (then_run first next)
unfolding then_run
then_run-Tally before first next (counted, in_order, inl (returned, even)) later =
    let (counted', in_order', ends) = later first.state in
    rw returned (
      omega (arith, counted, counted', uploads),
      Counts-append before first.state.uploaded_objects first.saved (next first.state).saved
          (omega (arith, counted, even)) in_order in_order',
      elim ends [
        | inl (returned', even') ↦ inl (returned', omega (arith, even, even', uploads, saves))
        | inr (failed, low, high) ↦ inr (
          failed,
          omega (arith, even, low, uploads, saves),
          omega (arith, even, high, uploads, saves),
        )
      ],
    )
  where
    uploads :
        length (first.uploaded ++ (next first.state).uploaded)
        ≡ length first.uploaded + length (next first.state).uploaded
    uploads = length-append first.uploaded _

    saves :
        length (first.saved ++ (next first.state).saved)
        ≡ length first.saved + length (next first.state).saved
    saves = length-append first.saved _
then_run-Tally before first next (counted, in_order, inr ((f, failed), low, high)) later =
    rw failed (counted, in_order, inr ((f, refl), low, high))

then_run-Finished :
    (before : ℕ) (first : PathRun) (next : State → PathRun)
    → Tally before first
    → ((state : State) → Finished state.uploaded_objects (next state))
    → Finished before (then_run first next)
unfolding then_run
then_run-Finished before first next (counted, in_order, inl (returned, even)) later =
    let (counted', ends) = later first.state in
    rw returned (
      omega (arith, counted, counted', uploads),
      elim ends [
        | inl (returned', earlier, last, in_order', even') ↦ inl (
          returned',
          first.saved ++ earlier,
          ap (λ x. first.saved ++ x) last ∙ sym (append_assoc first.saved earlier _),
          Counts-append before first.state.uploaded_objects first.saved earlier
              (omega (arith, counted, even)) in_order in_order',
          omega (arith, even, even', uploads, length-append first.saved earlier),
        )
        | inr (failed, in_order', low, high) ↦ inr (
          failed,
          Counts-append before first.state.uploaded_objects first.saved (next first.state).saved
              (omega (arith, counted, even)) in_order in_order',
          omega (arith, even, low, uploads, saves),
          omega (arith, even, high, uploads, saves),
        )
      ],
    )
  where
    uploads :
        length (first.uploaded ++ (next first.state).uploaded)
        ≡ length first.uploaded + length (next first.state).uploaded
    uploads = length-append first.uploaded _

    saves :
        length (first.saved ++ (next first.state).saved)
        ≡ length first.saved + length (next first.state).saved
    saves = length-append first.saved _
then_run-Finished before first next (counted, in_order, inr ((f, failed), low, high)) later =
    rw failed (counted, inr ((f, refl), in_order, low, high))

module _ (prefix sensor_id log_name : Text) where
  archive_rotated-Tally :
      (found : List Found) (state : State)
      → Tally state.uploaded_objects (archive_rotated prefix sensor_id log_name found state)
  unfolding archive_rotated
  archive_rotated-Tally [] state = (omega arith, tt, inl (refl, refl))
  archive_rotated-Tally (f ∷ rest) state =
      by_if (Tally state.uploaded_objects) (same f.name log_name)
        (λ _. archive_rotated-Tally rest state)
        (λ _.
          then_run-Tally _ _ (archive_rotated prefix sensor_id log_name rest)
            (archive_path-Tally f.services prefix sensor_id f.name (codes "rotated-continuation")
              state f.reply _)
            (archive_rotated-Tally rest))

  save_last-Finished :
      (disk : State → Bool) (state : State)
      → Finished state.uploaded_objects (save_last prefix sensor_id log_name disk state)
  save_last-Finished disk state =
      by_if (Finished state.uploaded_objects) (disk state)
        (λ _. (omega arith, inl (refl, [], refl, tt, refl)))
        (λ _. (omega arith, inr ((os_error, refl), tt, omega arith, omega arith)))

  -- Over all the files of a run, the state that it ends with counts every segment uploaded, and the n-th
  -- state written counts n uploads more than the first one had, for each n up to the number of uploads, so
  -- that each upload is counted in the state written after it. A run that returns has written one more
  -- state than it uploaded segments, and the last one written is the state that it ends with. One that
  -- raises has written as many states as it uploaded segments, or one less: at most the last upload is
  -- counted in no state that was written.
  pub locked_run-Finished :
      (found : List Found) (current : Found) (disk : State → Bool) (state : State)
      → Finished state.uploaded_objects
          (locked_run prefix sensor_id log_name found current disk state)
  unfolding locked_run archive_current
  locked_run-Finished found current disk state =
      then_run-Finished _ _ _ (archive_rotated-Tally found state) (λ rotated.
        then_run-Finished _ _ _
          (archive_path-Tally current.services prefix sensor_id log_name (codes "current") rotated
            current.reply none)
          (save_last-Finished disk))
