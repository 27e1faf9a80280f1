-- ===== src/Lib.antt =====
-- Verification of the sensor's native services: the S3 archiver (native/s3-archive.py), the Discord
-- monitor (native/discord-monitor.py) with its session clusters (native/session_cluster.py) and rate
-- governor (native/discord_rate_governor.py), the lookups that enrich them (native/threat_intel), and
-- the installation of the host key (native/install-host-key.py).
--
-- The parts. The archiver is started by a timer and passes over Cowrie's JSON logs, the rotated ones and
-- then the current one: it opens each source once, decides from the stored lineage where to go on, reads
-- a snapshot, splits it into LF-terminated records, and uploads each with a manifest by a conditional
-- PUT that is verified by GET, writing its state after each record. The monitor consumes the same log
-- for notifications: a poll follows the file over rotations and reads it line by line, events are
-- gathered in clusters, clusters that are done are enriched on background threads and queued, and each
-- queue is delivered to its webhook under a rate governor. Both keep their state in a file that is
-- replaced as a whole. The host key is installed once, from a secret.
--
-- The files:
-- * Archive/Client, Verify, Put: `classify_client_error`, `verify_object`, `put_once`; Archive/Address:
--   `content_address_matches`; Archive/Reader, Records: `read_at`, `complete_records`; Archive/Anchor,
--   Lineage: `anchors_match`, `lineage_for` and their parts; Archive/Source: `archive_path` and
--   `upload_with_manifest`; Archive/Load: `load_state`; Archive/Run: `archive_rotated`,
--   `archive_current` and `locked_run`. All of native/s3-archive.py.
-- * Monitor/Alert, Intake, Queue, Drain: `format_alert`, `queue_line`, `append_bounded`,
--   `enqueue_pending`, `drain_pending`; Monitor/Load, Restart: `load_state`; Monitor/State, Consume,
--   Poll: the state of the service, `consume`, `poll_once`; Monitor/Flush: `flush_expired_clusters` and
--   `_recover_flushed_awaiting_enrichment`; Monitor/Post: `post_payload`, `WEBHOOK_RE`,
--   `CredentialCache`. All of native/discord-monitor.py.
-- * Cluster/Text, Session, Manager: `sanitize_display`, `SessionCluster`, `SessionClusterManager`;
--   Cluster/Saved: `to_dict`, `from_dict` and the state of the manager; Cluster/Format,
--   Summary: `build_session_summary_payload` and its helpers. All of native/session_cluster.py.
-- * Governor/Discord, Provider: native/discord_rate_governor.py, native/threat_intel/rate_governor.py.
-- * Intel/Worker, Cache, Http, Broker, Observables, Parameters: the files of native/threat_intel that
--   have these names (parameter_store.py, http_client.py); Intel/Broker/Enrich: `enrich_ip`;
--   Intel/Providers: greynoise.py, shodan.py and virustotal.py.
-- * HostKey and Files: native/install-host-key.py, and the replacement of a file by way of a candidate,
--   which four of the programs do.
-- * Float, Json, Dict: floats, values of `json.loads` and dictionaries as the services use them.
--   Prelude: shared names. Tests: runs on concrete inputs.
--
-- State is a record that each operation takes and returns; an exception is a result (Archive/Result), a
-- missing value or a constructor of the outcome; clock readings are arguments, in milliseconds; what
-- S3, Discord, `ssh-keygen`, the `aws` command and the disk answer are functions or lists that the
-- operations take. SHA-256, base64, the encoding of manifests as JSON, and `str`, `lower`, `strip`,
-- `split`, `sorted`, the order of a set and `ipaddress` are parameters; what a theorem assumes of them is
-- among its hypotheses. A source file can change between any two reads: each read takes what it
-- sees. The worker's threads are interleaved actions, and a lookup of the broker takes what each of its
-- steps finds in the cache and the governor, which other threads change.
--
-- Fuel: the loop over records has one round for each byte of the data, and the chunked read one for
-- each byte that it asks for, since each round consumes one at least; `consume` takes one round for a
-- line, and its theorems ask for more rounds than there are bytes from the offset on; the retries of a
-- PUT count down from four. The other loops are structural.
--
-- Not modelled: the endless loop of the monitor's `main` and the saves that fail inside the monitor's
-- functions (Files has what a failing save leaves); the file of the lookups' cache; `s3_client`,
-- `instance_id` and `require_read_only_source` of the archiver, `build_query` and the requests
-- themselves, logging and the spool files, which only call others; validate-native-baseline.py and
-- validate-behavioral-equivalence.py, which compare fixed texts; and the shell, PowerShell and
-- CloudFormation files.
pub mod Prelude
pub mod Float
pub mod Dict
pub mod Json
pub mod Files
pub mod HostKey
pub mod Cluster
pub mod Governor
pub mod Archive
pub mod Monitor
pub mod Intel
pub mod Tests
