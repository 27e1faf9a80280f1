-- ===== src/Archive/Run.antt =====
-- One run of native/s3-archive.py over the rotated files and the current one: `archive_rotated`,
-- `archive_current` and `locked_run`, from a state that `load_state` gives. The lock is held meanwhile.
mod Tally
pub mod Laws
use swarm_kill_chain_medium.Prelude.{
  ℕ, Bool, true, false, Option, none, some, List, [], ◌∷◌, ◌++◌, text_equality, if◌then◌else◌,
}
use swarm_kill_chain_medium.Prelude.Text.{Text, Bytes, codes, same}
use swarm_kill_chain_medium.Dict.{get}
use swarm_kill_chain_medium.Files.{Faults, Disk, Saved, replace_file}
use swarm_kill_chain_medium.Archive.Result.{Result, ok, raised, os_error}
use swarm_kill_chain_medium.Archive.Lineage.{State}
use swarm_kill_chain_medium.Archive.Source.Types.{OpenReply, PathRun}
use swarm_kill_chain_medium.Archive.Source.Upload.{Services}
use swarm_kill_chain_medium.Archive.Source.Pass.{archive_path}

-- A path of `sorted(LOG_PATH.parent.glob(LOG_PATH.name + "*"))`, what opening it gives, and the services
-- as its pass meets them.
pub record Found : Type 0 where
  pub name : Text
  pub reply : OpenReply
  pub services : Services

-- The bytes of the state file are replaced.
unfoldable pub save_bytes : Faults → Bytes → Disk → Saved
save_bytes = replace_file false

-- What comes after a pass that has raised is not done.
unfoldable pub then_run : PathRun → (State → PathRun) → PathRun
then_run first next = elim first.result [
  | raised e ↦ first
  | ok _ ↦
      let second = next first.state in
      record second {
        saved = first.saved ++ second.saved;
        uploaded = first.uploaded ++ second.uploaded;
      }
]

abbrev pub nothing : State → PathRun
nothing state = record { state = state; saved = []; uploaded = []; result = ok tt }

-- `state.get("rotated", {}).get(path.name)`
abbrev pub marker_of : State → Text → Option Text
marker_of state name = elim (get state.rotated name) [ none ↦ none | some marker ↦ marker ]

module _ (prefix sensor_id log_name : Text) where
  abbrev pub archive_one : Found → State → PathRun
  archive_one f state =
      archive_path f.services prefix sensor_id f.name (codes "rotated-continuation") state f.reply
        (marker_of state f.name)

  -- The log itself is passed over here.
  unfoldable pub archive_rotated : List Found → State → PathRun
  archive_rotated [] state = nothing state
  archive_rotated (f ∷ rest) state =
      if same f.name log_name
      then archive_rotated rest state
      else then_run (archive_one f state) (archive_rotated rest)

  unfoldable pub archive_current : Found → State → PathRun
  archive_current f state =
      archive_path f.services prefix sensor_id log_name (codes "current") state f.reply none

  -- The last save; `disk` tells whether it succeeds.
  abbrev pub save_last : (State → Bool) → State → PathRun
  save_last disk state =
      if disk state
      then record { state = state; saved = state ∷ []; uploaded = []; result = ok tt }
      else record { state = state; saved = []; uploaded = []; result = raised os_error }

  -- `load_state` and `instance_id` have given the state and the sensor's identity.
  unfoldable pub locked_run : List Found → Found → (State → Bool) → State → PathRun
  locked_run found current disk state =
      then_run (archive_rotated found state)
        λ rotated. then_run (archive_current current rotated) (save_last disk)
