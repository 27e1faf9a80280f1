-- ===== src/Monitor/State.antt =====
-- The monitor's whole state between two calls of `poll_once` of native/discord-monitor.py: the state file
-- as `default_state` lays it out, the clusters, the governors and the worker. Time stamps of the file
-- are left out.
use swarm_kill_chain_medium.Prelude.{ℕ, String, Option, List, [], ◌∷◌}
use swarm_kill_chain_medium.Dict.{Dict}
use swarm_kill_chain_medium.Json.{Json}
use swarm_kill_chain_medium.Cluster.Session.{Cluster}
use swarm_kill_chain_medium.Cluster.Manager.{Manager}
use swarm_kill_chain_medium.Governor.Discord.{Governor}
use swarm_kill_chain_medium.Intel.Worker.{Worker}
use swarm_kill_chain_medium.Monitor.Queue as Queue
use swarm_kill_chain_medium.Monitor.Queue.{Item, Reason}
use swarm_kill_chain_medium.Monitor.Drain as Drain
use swarm_kill_chain_medium.Monitor.Drain.{Drained}
use swarm_kill_chain_medium.Monitor.Intake.{Intake}
use swarm_kill_chain_medium.Monitor.Flush.{Enrichment, Flushing}

-- `state["source"]`
pub record Source : Type 0 where
  pub device : ℕ
  pub inode : ℕ
  pub offset : ℕ

pub record Monitor : Type 0 where
  pub source : Option Source
  pub pending_legacy : List Item
  pub pending_intel : List Item
  pub seen : List String
  pub dead_letters : List (String × Reason)
  pub snapshot : Dict String Json
  pub awaiting : Dict String Json
  pub manager : Manager
  pub legacy_governor : Governor
  pub intel_governor : Governor
  pub worker : Option (Worker Cluster Enrichment)

-- What happens besides: a save of the state file, with all of the state at that time, and the posts.
pub data Effect : Type 0 where
  saved : Monitor → Effect
  posted : Item → Effect
  posted_digest : ℕ → Effect

-- The part that the functions on one channel read and change.
abbrev pub legacy : Monitor → Queue.State
legacy m = record { pending = m.pending_legacy; seen = m.seen; dead_letters = m.dead_letters }

abbrev pub intel : Monitor → Queue.State
intel m = record { pending = m.pending_intel; seen = m.seen; dead_letters = m.dead_letters }

abbrev pub with_legacy : Monitor → Queue.State → Monitor
with_legacy m s = record m {
  pending_legacy = s.pending;
  seen = s.seen;
  dead_letters = s.dead_letters;
}

abbrev pub with_intel : Monitor → Queue.State → Monitor
with_intel m s = record m {
  pending_intel = s.pending;
  seen = s.seen;
  dead_letters = s.dead_letters;
}

-- The part of `queue_line`.
abbrev pub intake : Monitor → Intake
intake m = record { queue = legacy m; snapshot = m.snapshot; manager = m.manager }

abbrev pub with_intake : Monitor → Intake → Monitor
with_intake m i = record (with_legacy m i.queue) { snapshot = i.snapshot; manager = i.manager }

-- The part of `flush_expired_clusters`.
abbrev pub flushing : Monitor → Flushing
flushing m = record {
  queue = intel m;
  awaiting = m.awaiting;
  snapshot = m.snapshot;
  manager = m.manager;
  worker = m.worker;
}

abbrev pub with_flushing : Monitor → Flushing → Monitor
with_flushing m f = record (with_intel m f.queue) {
  awaiting = f.awaiting;
  snapshot = f.snapshot;
  manager = f.manager;
  worker = f.worker;
}

-- A function's effects as effects of the monitor: what it saves is the whole state.
abbrev pub drain_effects : (Queue.State → Monitor) → List Drain.Effect → List Effect
drain_effects whole [] = []
drain_effects whole (Drain.saved s ∷ es) = saved (whole s) ∷ drain_effects whole es
drain_effects whole (Drain.posted item ∷ es) = posted item ∷ drain_effects whole es
drain_effects whole (Drain.posted_digest n ∷ es) = posted_digest n ∷ drain_effects whole es

abbrev pub flush_effects : (Flushing → Monitor) → List Flushing → List Effect
flush_effects whole [] = []
flush_effects whole (f ∷ saves) = saved (whole f) ∷ flush_effects whole saves
