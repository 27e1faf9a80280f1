-- ===== src/Files.antt =====
-- Writing a file by way of a candidate beside it, as `save_state` of native/discord-monitor.py and
-- native/s3-archive.py, `EnrichmentCache._save` and `atomic_write` of native/install-host-key.py do.
-- A fault is a call of the operating system that raises; a crash can come between any two calls.
pub mod Laws
use swarm_kill_chain_medium.Prelude.{
  ℕ, Bool, true, false, ◌&&◌, Option, none, some, List, [], ◌∷◌, ◌++◌, take, if◌then◌else◌,
}
use swarm_kill_chain_medium.Prelude.Text.{Bytes}

-- What a name of the directory holds; `synced` when `fsync` has made the content durable.
pub record File : Type 0 where
  pub content : Bytes
  pub synced : Bool

-- The file itself and the candidate, `path.name + ".new"`.
pub record Disk : Type 0 where
  pub target : Option File
  pub candidate : Option File

-- Which calls raise. `written` is how much a failing write has written, and `mode` is for `chmod` and
-- `chown`. A missing candidate is no fault of `unlink`.
pub record Faults : Type 0 where
  pub unlink : Bool
  pub create : Bool
  pub write : Bool
  pub written : ℕ
  pub sync : Bool
  pub mode : Bool
  pub replace : Bool
  pub cleanup : Bool

-- The disk after each call, in order, the last one, and whether the function returned.
pub record Saved : Type 0 where
  pub disks : List Disk
  pub disk : Disk
  pub returned : Bool

abbrev pub raised_at : Disk → Saved
raised_at d = record { disks = []; disk = d; returned = false }

-- A call that leaves `d`, before what follows.
abbrev pub then_ : Disk → Saved → Saved
then_ d s = record s { disks = d ∷ s.disks }

-- `except Exception`: the candidate is removed, and the exception raised again.
unfoldable pub clean_up : Faults → Disk → Saved
clean_up f d =
    if f.cleanup
    then raised_at d
    else let cleaned = record d { candidate = none } in then_ cleaned (raised_at cleaned)

-- `os.replace(candidate, path)`
unfoldable pub move_over : Faults → Disk → Saved
unfolding clean_up
move_over f d =
    let moved : Disk = record { target = d.candidate; candidate = none } in
    if f.replace then clean_up f d else record { disks = moved ∷ []; disk = moved; returned = true }

-- `handle.flush()` and `os.fsync`, and the change of mode and owner where there is one.
unfoldable pub make_durable : Bool → Faults → Bytes → Disk → Saved
unfolding clean_up move_over
make_durable with_mode f content d =
    let durable = record d { candidate = some (record { content = content; synced = true }) } in
    if f.sync
    then clean_up f d
    else then_ durable (if with_mode && f.mode then clean_up f durable else move_over f durable)

-- `handle.write(content)`: other processes and a crash can meet a part of it.
unfoldable pub fill : Bool → Faults → Bytes → Disk → Saved
unfolding clean_up make_durable
fill with_mode f content d =
    let part = record d {
      candidate = some (record { content = take f.written content; synced = false });
    } in
    let whole = record d { candidate = some (record { content = content; synced = false }) } in
    then_ part
      (if f.write then clean_up f part else then_ whole (make_durable with_mode f content whole))

-- The candidate is created anew: `O_CREAT | O_EXCL`.
unfoldable pub replace_file : Bool → Faults → Bytes → Disk → Saved
unfolding fill
replace_file with_mode f content d =
    let removed = record d { candidate = none } in
    let created = record d { candidate = some (record { content = []; synced = false }) } in
    if f.unlink
    then raised_at d
    else then_ removed
        (if f.create then raised_at removed else then_ created (fill with_mode f content created))
