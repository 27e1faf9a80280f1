-- ===== src/Cluster/Session/Laws.antt =====
-- What an event does to its cluster (`SessionCluster.record_event` of native/session_cluster.py).
use swarm_kill_chain_medium.Prelude.{
  ℕ, ◌≤◌, List, [], ◌∷◌, arith, length, length-append, String, ltb, by_if, string_equality,
}
use swarm_kill_chain_medium.Float.{Float}
use swarm_kill_chain_medium.Json.{Json, str, is_text, or_default, Python}
use swarm_kill_chain_medium.Dict.{get}
use swarm_kill_chain_medium.Cluster.Text.{sanitize_display, is_suspicious_command}
use swarm_kill_chain_medium.Cluster.Session.{
  Event, at, Cluster, push_below, max_command_display_length, max_notable_commands, note_activity,
  note_login, note_command, note_download, note_upload, record_event,
}

-- The lists of a cluster are bounded.
pub record IsBounded (max_commands : ℕ) (c : Cluster) : Type 0 where
  pub commands : length c.commands ≤ max_commands
  pub suspicious : length c.suspicious_commands ≤ max_notable_commands
  pub downloaded : length c.files_downloaded ≤ max_commands
  pub uploaded : length c.files_uploaded ≤ max_commands

length-push_below :
    (limit : ℕ) (xs : List Json) (x : Json)
    → length xs ≤ limit
    → length (push_below limit xs x) ≤ limit
unfolding push_below
length-push_below limit xs x h = ground (arith, length-append xs (x ∷ []))

module _ (python : Python) (event : Event) (max_commands : ℕ) where
  note_activity-IsBounded :
      (now : Float) (c : Cluster)
      → IsBounded max_commands c
      → IsBounded max_commands (note_activity python event now c)
  unfolding note_activity
  note_activity-IsBounded now c h = ground arith

  note_login-IsBounded :
      (c : Cluster) → IsBounded max_commands c → IsBounded max_commands (note_login python event c)
  unfolding note_login
  note_login-IsBounded c h = ground arith

  note_command-IsBounded :
      (c : Cluster)
      → IsBounded max_commands c
      → IsBounded max_commands (note_command python event max_commands c)
  unfolding note_command
  note_command-IsBounded c h =
      by_if (IsBounded max_commands) (ltb (length c.commands) max_commands)
        (λ room. record {
          commands = ground (arith, length-append c.commands (str command ∷ []));
          suspicious =
              by_if {A = List Json} (λ xs. length xs ≤ max_notable_commands)
                (is_suspicious_command python command)
                (λ _. length-push_below max_notable_commands _ _ h.suspicious) (λ _. h.suspicious);
          downloaded = h.downloaded;
          uploaded = h.uploaded;
        })
        (λ full. h)
    where
      command : String
      command = sanitize_display python (at event "input") max_command_display_length

  note_download-IsBounded :
      (c : Cluster)
      → IsBounded max_commands c
      → IsBounded max_commands (note_download python event max_commands c)
  unfolding note_download
  note_download-IsBounded c h = record {
    commands = h.commands;
    suspicious = h.suspicious;
    downloaded = length-push_below max_commands c.files_downloaded _ h.downloaded;
    uploaded = h.uploaded;
  }

  note_upload-IsBounded :
      (c : Cluster)
      → IsBounded max_commands c
      → IsBounded max_commands (note_upload python event max_commands c)
  unfolding note_upload
  note_upload-IsBounded c h = record {
    commands = h.commands;
    suspicious = h.suspicious;
    downloaded = h.downloaded;
    uploaded = length-push_below max_commands c.files_uploaded _ h.uploaded;
  }

  -- No event makes a list of its cluster longer than its bound.
  pub record_event-IsBounded :
      (now : Float) (c : Cluster)
      → IsBounded max_commands c
      → IsBounded max_commands (record_event python event now max_commands c)
  unfolding record_event
  record_event-IsBounded now c h =
      let h' = note_activity-IsBounded now c h in
      by_if P (is_text eventid "cowrie.login.success") (λ _. note_login-IsBounded _ h')
        (λ _.
          by_if P (is_text eventid "cowrie.command.input") (λ _. note_command-IsBounded _ h')
            (λ _.
              by_if P (is_text eventid "cowrie.session.file_download")
                (λ _. note_download-IsBounded _ h')
                (λ _.
                  by_if P (is_text eventid "cowrie.session.file_upload")
                    (λ _. note_upload-IsBounded _ h') (λ _. h'))))
    where
      eventid : Json
      eventid = or_default (get event "eventid") (str "")

      P : Cluster → Type 0
      P = IsBounded max_commands
