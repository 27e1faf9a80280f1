-- ===== src/Monitor/Flush/Laws.antt =====
-- No summary is lost between the clusters and the intel queue (`flush_expired_clusters` of
-- native/discord-monitor.py).
use swarm_kill_chain_medium.Prelude.{false, false, string_equality}
use swarm_kill_chain_medium.Float.{Float}
use swarm_kill_chain_medium.Cluster.Session.{Cluster}
use swarm_kill_chain_medium.Intel.Worker.{Worker}
