-- ===== src/Archive/Lineage.antt =====
-- Lineages of native/s3-archive.py: how far each file has been archived, and in which generation of
-- its content. The anchor that the descriptor shows at the stored offset is an argument.
pub mod Laws
pub mod Reread
use swarm_kill_chain_medium.Prelude.{
  ℕ, ◌+◌, Bool, true, false, not, ◌&&◌, Option, none, some, List, ◌∷◌, [], ◌++◌, ltb, text_equality,
  if◌then◌else◌,
}
use swarm_kill_chain_medium.Prelude.Int.{ℤ, pos, negsuc, pos_part}
use swarm_kill_chain_medium.Prelude.Text.{Text, decimal}
use swarm_kill_chain_medium.Dict.{Dict, get, put}
use swarm_kill_chain_medium.Archive.Anchor.{Stat, Anchor, absent, anchors_match}

pub record Lineage : Type 0 where
  pub generation : ℕ
  pub offset : ℤ
  pub anchor : Anchor
  pub descriptor : Option (ℕ × ℕ)

pub record Current : Type 0 where
  pub device : ℕ
  pub inode : ℕ
  pub generation : ℕ
  pub offset : ℕ
  pub anchor : Anchor

-- The state file. A lineage that is no object is `none`; of the markers of rotated files only the
-- texts count. The time of the last write is left out.
pub record State : Type 0 where
  pub current : Option Current
  pub lineages : Dict Text (Option Lineage)
  pub rotated : Dict Text (Option Text)
  pub uploaded_objects : ℕ

unfoldable pub reset_generation : Lineage → Lineage
reset_generation lineage = record lineage {
  generation = lineage.generation + 1;
  offset = pos 0;
  anchor = absent;
}

abbrev pub identity : Stat → ℕ × ℕ
identity status = (status.device, status.inode)

-- f"{status.st_dev}:{status.st_ino}"
unfoldable pub base_of : Stat → Text
unfolding decimal
base_of status = decimal status.device ++ b':' ∷ decimal status.inode

abbrev pub fresh_lineage : Stat → Lineage
fresh_lineage status = record {
  generation = 0;
  offset = pos 0;
  anchor = absent;
  descriptor = some (identity status);
}

-- The offset of a lineage that a pass starts from, which is never negative.
abbrev pub offset_of : Lineage → ℕ
offset_of lineage = pos_part lineage.offset

-- What an old lineage becomes: `shown offset` is `descriptor_anchor` at the offset.
unfoldable pub checked : Lineage → Stat → (ℕ → Anchor) → ℤ → Lineage
unfolding reset_generation
checked lineage status shown (negsuc n) = reset_generation lineage
checked lineage status shown (pos offset) =
    if ltb status.size offset
    then reset_generation lineage
    else if ltb 0 offset && not (anchors_match lineage.anchor (shown offset))
    then reset_generation lineage
    else lineage

abbrev pub resumed : Option (Option Lineage) → Stat → (ℕ → Anchor) → Lineage
resumed (some (some lineage)) status shown = record (checked lineage status shown lineage.offset) {
  descriptor = some (identity status);
}
resumed _ status shown = fresh_lineage status

-- The lineage of the file, and the state that holds it.
unfoldable pub lineage_for : State → Stat → (ℕ → Anchor) → Lineage × State
unfolding checked
lineage_for state status shown =
    let lineage = resumed (get state.lineages (base_of status)) status shown in
    (lineage, record state { lineages = put state.lineages (base_of status) (some lineage) })
