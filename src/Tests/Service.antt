-- ===== src/Tests/Service.antt =====
-- A poll of a log with two lines, one of them unfinished, after a rotation.
use swarm_kill_chain_medium.Prelude.{
  ℕ, ◌<◌, ◌≡◌, refl, true, false, none, some, [], ◌∷◌, arith, length, drop, string_equality,
}
use swarm_kill_chain_medium.Prelude.Text.{Bytes}
use swarm_kill_chain_medium.Float.{ticks}
use swarm_kill_chain_medium.Archive.Records.Splitting.{Splits}
use swarm_kill_chain_medium.Cluster.Manager.{new_manager}
use swarm_kill_chain_medium.Governor.Discord.{new_governor}
use swarm_kill_chain_medium.Monitor.Drain.{Turn}
use swarm_kill_chain_medium.Monitor.Post.{is_webhook, Credential, new_credential}
use swarm_kill_chain_medium.Monitor.State.{Source, Monitor}
use swarm_kill_chain_medium.Monitor.Consume.{Round, consume}
use swarm_kill_chain_medium.Monitor.Consume.Laws.{Taken, consume-Taken}
use swarm_kill_chain_medium.Monitor.Poll.{
  Stat, present, regular_stat, Candidate, locate_inode, World, poll_once,
}
use swarm_kill_chain_medium.Monitor.Poll.Laws.{
  Settled, start_of, poll_once-Settled, poll_once_rotated,
}
use swarm_kill_chain_medium.Files.{Disk, Faults, replace_file}
use swarm_kill_chain_medium.Files.Laws.{IsAtomic, replace_file-IsAtomic}
use swarm_kill_chain_medium.Tests.Python.{python, sha256, sha256_text, no_json}

abbrev turns : ℕ → Turn
turns n = record {
  checked_at = 0;
  attempted_at = 0;
  reply = record { success = true; status_code = some 204; retry_after = none };
  refused_at = 0;
}

abbrev content : Bytes
content = 123 ∷ 10 ∷ 123 ∷ []

abbrev round : ℕ → Round
round n = record {
  content = content;
  now = ticks 1000;
  timestamp = "t1";
  webhook = none;
  turns = turns;
}

abbrev old_source : Source
old_source = record { device = 1; inode = 7; offset = 0 }

abbrev monitor : Monitor
monitor = record {
  source = some old_source;
  pending_legacy = [];
  pending_intel = [];
  seen = [];
  dead_letters = [];
  snapshot = [];
  awaiting = [];
  manager = new_manager 45000 1800000;
  legacy_governor = new_governor 1000;
  intel_governor = new_governor 1000;
  worker = none;
}

enough : length (drop 0 content) < 10
enough = omega arith

consume-Taken_example :
    Taken old_source content (consume python sha256 no_json false 10 round 0 monitor)
consume-Taken_example =
    consume-Taken python sha256 no_json false round content (λ n. refl) 10 old_source monitor refl
      enough

abbrev stat : Stat
stat = record { device = 1; inode = 8; size = 3 }

abbrev old_stat : Stat
old_stat = record { device = 1; inode = 7; size = 3 }

abbrev prior : Candidate
prior = record { entry = present old_stat true false; rounds = round }

abbrev world : World
world = record {
  log = present stat true false;
  candidates = prior ∷ [];
  rounds = round;
  flushed_at = ticks 1000;
  legacy_webhook = none;
  legacy_turns = turns;
  intel_webhook = none;
  intel_turns = turns;
}

found : regular_stat world.log ≡ some stat
unfolding regular_stat
found = refl

located : locate_inode 1 7 world.candidates ≡ some prior
unfolding locate_inode
located = refl

poll_once-Settled_example :
    Settled stat
      (start_of stat old_source)
      content
      (poll_once python sha256 sha256_text no_json false 10 world monitor)
poll_once-Settled_example =
    poll_once-Settled python sha256 sha256_text no_json false 10 world stat content (λ n. refl)
      enough monitor found

poll_once_rotated_example :
    Splits 0 content
      (poll_once python sha256 sha256_text no_json false 10 world monitor).prior_lines
    × Settled stat 0 content (poll_once python sha256 sha256_text no_json false 10 world monitor)
poll_once_rotated_example =
    poll_once_rotated python sha256 sha256_text no_json false 10 world stat content (λ n. refl)
      enough monitor old_source prior content found refl refl located (λ n. refl) enough

accepted_run : is_webhook "https://discord.com/api/webhooks/123/abc_DEF-1" ≡ true
unfolding is_webhook
accepted_run = refl

abbrev credential : Credential
credential = new_credential "/patriotpot/2026-control/discord-webhook"

-- The write stops half way.
abbrev faults : Faults
faults = record {
  unlink = false;
  create = false;
  write = true;
  written = 1;
  sync = false;
  mode = false;
  replace = false;
  cleanup = false;
}

abbrev disk : Disk
disk = record { target = some (record { content = 1 ∷ []; synced = true }); candidate = none }

replace_file-IsAtomic_example :
    IsAtomic disk.target (2 ∷ 3 ∷ []) (replace_file false faults (2 ∷ 3 ∷ []) disk)
replace_file-IsAtomic_example = replace_file-IsAtomic faults (2 ∷ 3 ∷ []) false disk
