-- ===== src/Monitor/Poll/Laws.antt =====
-- Which lines one `poll_once` of native/discord-monitor.py takes: also when the log was rotated or
-- truncated.
use swarm_kill_chain_medium.Prelude.{
  ℕ, ◌<◌, ◌≡◌, refl, sym, ap, ◌∙◌, String, Bool, true, false, Option, none, some, List, [], ◌++◌,
  arith, ltb, length, drop, length-drop, append-nil, by_if, Bool-cases, inl, inr, if◌then◌else◌,
}
use mathlib.Core.Path.{subst}
use swarm_kill_chain_medium.Prelude.Text.{Bytes}
use swarm_kill_chain_medium.Json.{Json, Python}
use swarm_kill_chain_medium.Archive.Records.Splitting.{Splits}
use swarm_kill_chain_medium.Monitor.State.{Source, Monitor, flushing}
use swarm_kill_chain_medium.Monitor.Flush.{flush_expired_clusters}
use swarm_kill_chain_medium.Monitor.Consume.{consume}
use swarm_kill_chain_medium.Monitor.Consume.Laws.{end_of, consume-Taken}
use swarm_kill_chain_medium.Monitor.Poll.{
  Stat, regular_stat, Candidate, locate_inode, World, Polled, from_start, same_file, saving_source,
  flush_and_drain, consume_current, poll_file, poll_source, poll_once,
}

-- Where the reading of the current file starts.
abbrev pub start_of : Stat → Source → ℕ
start_of stat source =
    if same_file source stat then if ltb stat.size source.offset then 0 else source.offset else 0

-- The lines of the current file are its complete lines from there on, and the source is that file with
-- the offset behind the last of them.
abbrev pub Settled : Stat → ℕ → Bytes → Polled → Type 0
Settled stat start content r =
    Splits start (drop start content) r.lines
    × (r.monitor.source
        ≡ some (record { device = stat.device; inode = stat.inode; offset = end_of start r.lines }))

abbrev at : Stat → ℕ → Source
at stat offset = record { device = stat.device; inode = stat.inode; offset = offset }

same_file-at :
    (source : Source) (stat : Stat) → same_file source stat ≡ true → source ≡ at stat source.offset
same_file-at source stat h =
    let d : source.device ≡ stat.device = ground (arith, h) in
    let i : source.inode ≡ stat.inode = ground (arith, h) in rw (sym d, sym i) refl

module _ (python : Python) (sha256 : Bytes → String) (sha256_text : String → String)
    (json_of : Bytes → Option Json) (enabled : Bool) (fuel : ℕ) where
  flush_and_drain-source :
      (world : World) (lines : List (ℕ × Bytes)) (m : Monitor)
      → ((flush_and_drain python sha256 sha256_text json_of enabled fuel world lines
            m).monitor.source
          ≡ m.source)
        × ((flush_and_drain python sha256 sha256_text json_of enabled fuel world lines m).lines
            ≡ lines)
        × ((flush_and_drain python sha256 sha256_text json_of enabled fuel world lines
              m).prior_lines
            ≡ [])
  unfolding flush_and_drain
  flush_and_drain-source world lines m =
      by_if
        (λ (r : Polled). (r.monitor.source ≡ m.source) × (r.lines ≡ lines) × (r.prior_lines ≡ []))
        (flush_expired_clusters python sha256_text world.flushed_at (flushing m)).returned
        (λ e. (refl, refl, refl)) (λ e. (refl, refl, refl))

  module _ (world : World) (stat : Stat) (content : Bytes)
      (steady : (n : ℕ) → (world.rounds n).content ≡ content) (enough : length content < fuel) where
    consume_current-Settled :
        (offset : ℕ) (m : Monitor)
        → m.source ≡ some (at stat offset)
        → Settled stat offset content (
            consume_current python sha256 sha256_text json_of enabled fuel world (at stat offset) m)
          × ((consume_current python sha256 sha256_text json_of enabled fuel world
                (at stat offset)
                m).prior_lines
              ≡ [])
    unfolding consume_current
    consume_current-Settled offset m e =
        let source = at stat offset in
        let consumed = consume python sha256 json_of enabled fuel world.rounds offset m in
        let (splits, (ended, last, moved), saves) =
          consume-Taken python sha256 json_of enabled world.rounds content steady fuel source m e
            (omega (arith, enough, length-drop offset content)) in
        let (kept, lines, prior) = flush_and_drain-source world consumed.lines consumed.monitor in
        rw lines ((splits, kept ∙ moved ∙ ap (λ o. some (at stat o)) last), prior)

    -- The same for a source that is the file's.
    consume_same-Settled :
        (source : Source) (m : Monitor)
        → source ≡ at stat source.offset
        → m.source ≡ some source
        → Settled stat source.offset content
            (consume_current python sha256 sha256_text json_of enabled fuel world source m)
    consume_same-Settled source m same e =
        subst
          (λ s.
            Settled stat s.offset content
              (consume_current python sha256 sha256_text json_of enabled fuel world s m))
          (sym same) (consume_current-Settled source.offset m (e ∙ ap some same)).0

    poll_file-Settled :
        (source : Source) (m : Monitor)
        → m.source ≡ some source
        → Settled stat
            (start_of stat source)
            content
            (poll_file python sha256 sha256_text json_of enabled fuel world stat source m)
    unfolding poll_file
    poll_file-Settled source m e = elim (Bool-cases (same_file source stat)) [
      | inl same ↦ elim (Bool-cases (ltb stat.size source.offset)) [
        | inl cut ↦
            rw (same, cut)
              (consume_same-Settled (record source { offset = 0 }) _
                (ap (λ (s : Source). record s { offset = 0 }) (same_file-at source stat same)) refl)
        | inr whole ↦
            rw (same, whole) (consume_same-Settled source m (same_file-at source stat same) e)
      ]
      | inr other ↦ rw other (consume_current-Settled 0 _ refl).0
    ]

    -- What one round takes of the current log, when it does not change meanwhile and the fuel exceeds its
    -- length: with the source of the same file, its complete lines from the offset on, or from the start
    -- when the file has become shorter than the offset; with another source or none, its complete lines
    -- from the start. The source is then the log with the offset behind the last of these lines, whether
    -- or not the flush of the clusters raised an exception.
    pub poll_once-Settled :
        (m : Monitor)
        → regular_stat world.log ≡ some stat
        → Settled stat
            (elim m.source [ none ↦ 0 | some source ↦ start_of stat source ])
            content
            (poll_once python sha256 sha256_text json_of enabled fuel world m)
    unfolding poll_once
    poll_once-Settled m found = rw found (by_source m.source refl)
      where
        by_source :
            (o : Option Source)
            → m.source ≡ o
            → Settled stat
                (elim o [ none ↦ 0 | some source ↦ start_of stat source ])
                content
                (poll_source python sha256 sha256_text json_of enabled fuel world stat o m)
        by_source (some source) e = poll_file-Settled source m e
        by_source none e =
            subst
              (λ (start : ℕ). Settled stat start content (
                poll_file python sha256 sha256_text json_of enabled fuel world stat
                  (from_start stat) (saving_source (from_start stat) m).monitor))
              (by_if (λ n. n ≡ 0) (same_file (from_start stat) stat)
                (λ s. by_if (λ n. n ≡ 0) (ltb stat.size 0) (λ _. refl) (λ _. refl)) (λ s. refl))
              (poll_file-Settled (from_start stat) _ refl)

    abbrev Rotated : Source → Bytes → Polled → Type 0
    Rotated source old r =
        Splits source.offset (drop source.offset old) r.prior_lines × Settled stat 0 content r

    poll_file-Rotated :
        (m : Monitor) (source : Source) (prior : Candidate) (old : Bytes)
        → m.source ≡ some source
        → same_file source stat ≡ false
        → locate_inode source.device source.inode world.candidates ≡ some prior
        → ((n : ℕ) → (prior.rounds n).content ≡ old)
        → length old < fuel
        → Rotated source old
            (poll_file python sha256 sha256_text json_of enabled fuel world stat source m)
    unfolding poll_file
    poll_file-Rotated m source prior old e other located steady_old enough_old =
        let taken = consume python sha256 json_of enabled fuel prior.rounds source.offset m in
        let (splits, end, saves) =
          consume-Taken python sha256 json_of enabled prior.rounds old steady_old fuel source m e
            (omega (arith, enough_old, length-drop source.offset old)) in
        let rotated = saving_source (from_start stat) taken.monitor in
        let (settled, none_before) = consume_current-Settled 0 rotated.monitor refl in
        rw (other, located)
          (
            subst (λ ls. Splits source.offset (drop source.offset old) ls)
                (sym (append-nil taken.lines) ∙ ap (λ ls. taken.lines ++ ls) (sym none_before))
                splits,
            settled,
          )

    -- After a rotation no line is skipped: when the log is another file than the source, and the file
    -- of the source is found under another name and is not longer than the fuel, the round takes
    -- the complete lines that it still has behind the offset, and then those of the log from its start.
    pub poll_once_rotated :
        (m : Monitor) (source : Source) (prior : Candidate) (old : Bytes)
        → regular_stat world.log ≡ some stat
        → m.source ≡ some source
        → same_file source stat ≡ false
        → locate_inode source.device source.inode world.candidates ≡ some prior
        → ((n : ℕ) → (prior.rounds n).content ≡ old)
        → length old < fuel
        → Splits source.offset
            (drop source.offset old)
            (poll_once python sha256 sha256_text json_of enabled fuel world m).prior_lines
          × Settled stat 0 content
              (poll_once python sha256 sha256_text json_of enabled fuel world m)
    unfolding poll_once
    poll_once_rotated m source prior old found e other located steady_old enough_old = rw found (
        subst
          (λ o.
            Rotated source old
              (poll_source python sha256 sha256_text json_of enabled fuel world stat o m))
          (sym e) (poll_file-Rotated m source prior old e other located steady_old enough_old))
