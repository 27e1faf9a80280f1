-- ===== src/Archive/Lineage/Laws.antt =====
-- When a lineage is continued and when it starts anew (`lineage_for` of native/s3-archive.py).
use swarm_kill_chain_medium.Prelude.{
  ℕ, ◌+◌, ◌≤◌, ◌<◌, ◌≡◌, refl, true, false, Option, none, some, arith, ◌⊎◌, text_equality,
}
use swarm_kill_chain_medium.Prelude.Int.{ℤ, pos, negsuc, pos_part}
use swarm_kill_chain_medium.Dict.{get}
use swarm_kill_chain_medium.Dict.Laws.{get-put_self}
use swarm_kill_chain_medium.Archive.Anchor.{Stat, Anchor, absent, anchors_match}
use swarm_kill_chain_medium.Archive.Lineage.{
  Lineage, State, reset_generation, checked, base_of, identity, resumed, lineage_for,
}

checked-nonneg :
    (l : Lineage) (status : Stat) (shown : ℕ → Anchor) (n : ℤ)
    → l.offset ≡ n
    → (checked l status shown n).offset ≡ pos (pos_part (checked l status shown n).offset)
unfolding checked
checked-nonneg l status shown (negsuc n) e = refl
checked-nonneg l status shown (pos n) e = ground arith

resumed-nonneg :
    (o : Option (Option Lineage)) (status : Stat) (shown : ℕ → Anchor)
    → (resumed o status shown).offset ≡ pos (pos_part (resumed o status shown).offset)
resumed-nonneg none status shown = refl
resumed-nonneg (some none) status shown = refl
resumed-nonneg (some (some l)) status shown = checked-nonneg l status shown l.offset refl

-- The lineage that a pass starts from has a true offset, and the state holds it.
pub lineage_for_start :
    (state : State) (status : Stat) (shown : ℕ → Anchor)
    → ((lineage_for state status shown).0.offset
        ≡ pos (pos_part (lineage_for state status shown).0.offset))
      × (get (lineage_for state status shown).1.lineages (base_of status)
          ≡ some (some (lineage_for state status shown).0))
unfolding lineage_for
lineage_for_start state status shown = (
  resumed-nonneg (get state.lineages (base_of status)) status shown,
  get-put_self state.lineages (base_of status) _,
)

lineage_branches :
    (state : State) (status : Stat) (shown : ℕ → Anchor) (old : Lineage) (offset : ℕ)
    → get state.lineages (base_of status) ≡ some (some old)
    → old.offset ≡ pos offset
    → (offset ≤ status.size
        → (0 < offset → anchors_match old.anchor (shown offset) ≡ true)
        → (lineage_for state status shown).0 ≡ record old { descriptor = some (identity status) })
      × ((status.size < offset) ⊎ ((0 < offset) × (anchors_match old.anchor (shown offset) ≡ false))
          → (lineage_for state status shown).0 ≡ record old {
            generation = old.generation + 1;
            offset = pos 0;
            anchor = absent;
            descriptor = some (identity status);
          })
unfolding lineage_for
lineage_branches state status shown old offset held at =
    rw (held, resumed)
      (rw at
        (unfold checked reset_generation in (λ fits matches. ground arith), (λ bad. ground arith)))

-- An old lineage is continued where it stood when its offset is no larger than the file and, unless it
-- is zero, its anchor matches what the file shows there.
pub lineage_continued :
    (state : State) (status : Stat) (shown : ℕ → Anchor) (old : Lineage) (offset : ℕ)
    → get state.lineages (base_of status) ≡ some (some old)
    → old.offset ≡ pos offset
    → offset ≤ status.size
    → (offset ≡ 0) ⊎ (anchors_match old.anchor (shown offset) ≡ true)
    → (lineage_for state status shown).0 ≡ record old { descriptor = some (identity status) }
lineage_continued state status shown old offset held at fits matches =
    (lineage_branches state status shown old offset held at).0 fits
      (λ positive. ground (arith, matches))

-- When a file has become shorter than the offset of its old lineage, or the anchor of a positive offset
-- does not match, the next generation starts at zero, with no anchor.
pub lineage_restarted :
    (state : State) (status : Stat) (shown : ℕ → Anchor) (old : Lineage) (offset : ℕ)
    → get state.lineages (base_of status) ≡ some (some old)
    → old.offset ≡ pos offset
    → (status.size < offset) ⊎ ((0 < offset) × (anchors_match old.anchor (shown offset) ≡ false))
    → (lineage_for state status shown).0 ≡ record old {
      generation = old.generation + 1;
      offset = pos 0;
      anchor = absent;
      descriptor = some (identity status);
    }
lineage_restarted state status shown old offset held at bad =
    (lineage_branches state status shown old offset held at).1 bad
