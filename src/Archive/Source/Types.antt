-- ===== src/Archive/Source/Types.antt =====
-- The data of a pass over a source file (native/s3-archive.py, `archive_path`).
use swarm_kill_chain_medium.Prelude.{ℕ, List, Option, none, some}
use swarm_kill_chain_medium.Prelude.Text.{Bytes}
use swarm_kill_chain_medium.Archive.Result.{Result, ok, raised, os_error}
use swarm_kill_chain_medium.Archive.Anchor.{Stat}
use swarm_kill_chain_medium.Archive.Lineage.{Lineage, State}
use swarm_kill_chain_medium.Archive.Source.Upload.{Segment}

-- The reads of a pass, in the order in which they are made.
pub data Access : Type 0 where
  legacy_read lineage_read start_read end_read snapshot_read end_reread start_reread : Access

-- An open descriptor: the three `fstat` results, and what each chunk of each read sees.
pub record Descriptor : Type 0 where
  pub status : Stat
  pub after_legacy : Stat
  pub after : Stat
  pub seen : Access → ℕ → Bytes

pub data Errno : Type 0 where
  enoent enotdir eloop other_errno : Errno

pub data OpenReply : Type 0 where
  descriptor : Descriptor → OpenReply
  refused : Errno → OpenReply

-- A source that is gone or a symbolic link is passed over.
unfoldable pub open_source : OpenReply → Result (Option Descriptor)
open_source (descriptor d) = ok (some d)
open_source (refused other_errno) = raised os_error
open_source (refused _) = ok none

-- What a pass has done: the state in memory, the states written to disk and the segments uploaded,
-- both in order.
pub record Progress : Type 0 where
  pub lineage : Lineage
  pub state : State
  pub saved : List State
  pub uploaded : List Segment

-- The state in memory afterwards, the states written, the segments uploaded, and how it ended.
pub record PathRun : Type 0 where
  pub state : State
  pub saved : List State
  pub uploaded : List Segment
  pub result : Result (Unit {0})
