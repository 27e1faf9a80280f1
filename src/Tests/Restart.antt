-- ===== src/Tests/Restart.antt =====
-- A cluster that is saved, restored, flushed, summarised and recovered.
use swarm_kill_chain_medium.Prelude.{
  ◌≡◌, arith, refl, false, string_equality, String, false, none, some, [], ◌∷◌, All,
}
use swarm_kill_chain_medium.Prelude.Int.{pos}
use swarm_kill_chain_medium.Float.{ticks}
use swarm_kill_chain_medium.Dict.{Dict, keys, elem, Distinct}
use swarm_kill_chain_medium.Json.{str}
use swarm_kill_chain_medium.Cluster.Session.{Cluster, new_cluster}
use swarm_kill_chain_medium.Cluster.Manager.{new_manager}
use swarm_kill_chain_medium.Cluster.Saved.{got, to_dict, from_dict, to_state, restore_state}
use swarm_kill_chain_medium.Cluster.Saved.Laws.{
  reread, reread_all, from_dict-to_dict, restore_state-to_state,
}
use swarm_kill_chain_medium.Cluster.Summary.{Summary, payload_of}
use swarm_kill_chain_medium.Cluster.Summary.Laws.{
  IsBounded, build_session_summary_payload-IsBounded,
}
use swarm_kill_chain_medium.Cluster.Summary.Total.{IsTimed, build-IsSome_none}
use swarm_kill_chain_medium.Monitor.Queue.{is_known}
use swarm_kill_chain_medium.Monitor.Flush.{Flushing, recover_flushed_awaiting_enrichment}
use swarm_kill_chain_medium.Monitor.Flush.Recovery.{
  IsSaved, Recovered, recover_flushed_awaiting_enrichment-Recovered,
}
use swarm_kill_chain_medium.Intel.Worker.{new_worker}
use swarm_kill_chain_medium.Tests.Python.{python, sha256_text}

abbrev cluster : Cluster
cluster = record (new_cluster (str "session:a1b2") (str "192.0.2.1") (str "a1b2") (ticks 1000)) {
  raw_event_count = pos 3;
  commands = str "wget x" ∷ [];
  alerted_event_kinds = "cowrie.session.file_upload" ∷ "cowrie.login.success" ∷ [];
}

timed : IsTimed cluster
timed = (pos 1000, pos 1000, refl, refl)

from_dict-to_dict_example :
    (from_dict python (to_dict cluster) ≡ got (reread cluster))
    × (elem "cowrie.login.success" (reread cluster).alerted_event_kinds
        ≡ elem "cowrie.login.success" cluster.alerted_event_kinds)
from_dict-to_dict_example = from_dict-to_dict python cluster "cowrie.login.success"

abbrev clusters : Dict String Cluster
clusters = ("session:a1b2", cluster) ∷ []

distinct : Distinct (keys clusters)
distinct = (refl, tt)

restore_state-to_state_example :
    restore_state python (to_state clusters) ≡ got (reread_all clusters)
restore_state-to_state_example = restore_state-to_state python clusters distinct

abbrev flushing : Flushing
flushing = record {
  queue = record { pending = []; seen = []; dead_letters = [] };
  awaiting = ("f1", to_dict cluster) ∷ [];
  snapshot = [];
  manager = record (new_manager 45000 1800000) { clusters = clusters };
  worker = some (new_worker 2);
}

noted : All IsSaved flushing.awaiting
noted = ((cluster, refl, timed), tt)

new : is_known flushing.queue "f1" ≡ false
unfolding is_known
new = refl

recover_flushed_awaiting_enrichment-Recovered_example :
    Recovered python flushing.awaiting flushing.queue
      (recover_flushed_awaiting_enrichment python sha256_text flushing)
recover_flushed_awaiting_enrichment-Recovered_example =
    recover_flushed_awaiting_enrichment-Recovered python sha256_text flushing noted (refl, tt)
      (new, tt) (omega arith)

build_session_summary_payload-IsBounded_example :
    (s : Summary) × ((build-IsSome_none python cluster timed).0 ≡ payload_of s) × IsBounded s
build_session_summary_payload-IsBounded_example =
    build_session_summary_payload-IsBounded python cluster none
      (build-IsSome_none python cluster timed).0 (build-IsSome_none python cluster timed).1
