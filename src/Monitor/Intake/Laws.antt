-- ===== src/Monitor/Intake/Laws.antt =====
-- A line of the log is taken once (`queue_line` of native/discord-monitor.py).
use swarm_kill_chain_medium.Prelude.{
  ℕ, zero, suc, ◌+◌, ◌-◌, ◌≤◌, ◌≡◌, refl, ap, ◌∙◌, String, Bool, true, false, ◌&&◌, not, Option,
  none, some, List, [], ◌∷◌, ◌++◌, arith, length, drop, leb, length-append, string_equality, by_if,
}
use swarm_kill_chain_medium.Prelude.Text.{Bytes}
use swarm_kill_chain_medium.Float.{Float}
use swarm_kill_chain_medium.Dict.{get, elem}
use swarm_kill_chain_medium.Dict.Laws.{get-put_self}
use swarm_kill_chain_medium.Cluster.Manager.Observe.{get-observe}
use swarm_kill_chain_medium.Json.{Json, Python}
use swarm_kill_chain_medium.Cluster.Session.{Event, at, Cluster, is_priority_event}
use swarm_kill_chain_medium.Cluster.Manager.{observe}
use swarm_kill_chain_medium.Cluster.Saved.{to_dict}
use swarm_kill_chain_medium.Cluster.Saved.Laws.{saved_as, get-to_state}
use swarm_kill_chain_medium.Monitor.Queue.{
  Item, State, append_bounded, bury, drop_oldest, is_known, make_room, enqueue_pending, max_pending,
}
use swarm_kill_chain_medium.Monitor.Queue.Laws.{append_bounded_newest}
use swarm_kill_chain_medium.Monitor.Alert.{format_alert}
use swarm_kill_chain_medium.Monitor.Intake.{
  Intake, mark_seen, event_of, queue_alert, alert_now, absorb, take_line, queue_line,
}

-- The identity that was entered last is still there after another one was entered.
abbrev Newest : List String → String → Type 0
Newest seen k = (older : List String) × (seen ≡ older ++ k ∷ [])

drop_before :
    (n : ℕ) (older : List String) (k : String)
    → n ≤ length older
    → drop n (older ++ k ∷ []) ≡ drop n older ++ k ∷ []
drop_before zero older k h = refl
drop_before (suc n) [] k h = absurd (omega arith)
drop_before (suc n) (x ∷ older) k h = drop_before n older k (omega arith)

elem_second : (older : List String) (k j : String) → elem k ((older ++ k ∷ []) ++ j ∷ []) ≡ true
elem_second [] k j = ground (arith, (string_equality.equal_iff k k).1 refl)
elem_second (x ∷ older) k j = ground (arith, elem_second older k j)

elem_after :
    (seen : List String) (k j : String) → Newest seen k → elem k (append_bounded seen j 2048) ≡ true
elem_after seen k j (older, e) =
    let n = length seen - 2047 in
    let size : length seen ≡ length older + 1 = ap length e ∙ length-append older (k ∷ []) in
    let kept : drop n seen ≡ drop n older ++ k ∷ [] =
      ap (drop n) e ∙ drop_before n older k (omega (arith, size)) in
    rw (append_bounded_newest seen j 2047) (rw kept (elem_second (drop n older) k j))

elem_last_of : (seen : List String) (k : String) → Newest seen k → elem k seen ≡ true
elem_last_of seen k (older, e) = rw e (last older)
  where
    last : (xs : List String) → elem k (xs ++ k ∷ []) ≡ true
    last [] = ground (arith, (string_equality.equal_iff k k).1 refl)
    last (x ∷ xs) = ground (arith, last xs)

drop_oldest-seen :
    (s : State) (k : String) (items : List Item)
    → Newest s.seen k
    → elem k (drop_oldest s items).seen ≡ true
unfolding drop_oldest bury
drop_oldest-seen s k [] h = elem_last_of s.seen k h
drop_oldest-seen s k (item ∷ rest) h = elem_after s.seen k item.id h

enqueue_pending-seen :
    (s : State) (k i : String) (payload : Json)
    → Newest s.seen k
    → elem k (enqueue_pending s i payload).seen ≡ true
unfolding enqueue_pending make_room
enqueue_pending-seen s k i payload h =
    by_if (λ (t : State). elem k t.seen ≡ true) (is_known s i) (λ e. elem_last_of s.seen k h)
      (λ e.
        by_if (λ (t : State). elem k t.seen ≡ true) (leb max_pending (length s.pending))
          (λ f. drop_oldest-seen s k s.pending h) (λ f. elem_last_of s.seen k h))

mark_seen-Newest : (s : State) (k : String) → Newest (mark_seen s k).seen k
unfolding mark_seen
mark_seen-Newest s k = (drop (length s.seen - 2047) s.seen, append_bounded_newest s.seen k 2047)

module _ (python : Python) (sha256 : Bytes → String) (json_of : Bytes → Option Json) where
  queue_alert-seen :
      (s : State) (k digest : String) (o : Option Json)
      → Newest s.seen k
      → elem k (queue_alert python sha256 json_of s digest o).seen ≡ true
  queue_alert-seen s k digest none h = elem_last_of s.seen k h
  queue_alert-seen s k digest (some payload) h = enqueue_pending-seen s k _ payload h

  alert_now-seen :
      (enabled : Bool) (timestamp digest : String) (event : Event) (key : String) (c : Cluster)
      (i : Intake) (k : String)
      → Newest i.queue.seen k
      → elem k (alert_now python sha256 json_of enabled timestamp digest event key c i).queue.seen
        ≡ true
  unfolding alert_now
  alert_now-seen enabled timestamp digest event key c i k h =
      by_if (λ (j : Intake). elem k j.queue.seen ≡ true)
        ((enabled && is_priority_event event)
          && not (elem (python.str_of (at event "eventid")) c.alerted_event_kinds))
        (λ e. queue_alert-seen i.queue k digest (format_alert python event timestamp) h)
        (λ e. elem_last_of i.queue.seen k h)

  take_line-seen :
      (enabled : Bool) (now : Float) (timestamp digest : String) (o : Option Event) (i : Intake)
      → elem digest (take_line python sha256 json_of enabled now timestamp digest o i).queue.seen
        ≡ true
  unfolding absorb
  take_line-seen enabled now timestamp digest none i =
      elem_last_of _ digest (mark_seen-Newest i.queue digest)
  take_line-seen enabled now timestamp digest (some event) i =
      alert_now-seen enabled timestamp digest event _ _ _ digest (mark_seen-Newest i.queue digest)

  queue_line-seen :
      (enabled : Bool) (now : Float) (timestamp : String) (raw_line : Bytes) (i : Intake)
      → elem
          (sha256 raw_line)
          (queue_line python sha256 json_of enabled now timestamp raw_line i).queue.seen
        ≡ true
  unfolding queue_line
  queue_line-seen enabled now timestamp raw_line i =
      by_if (λ (j : Intake). elem (sha256 raw_line) j.queue.seen ≡ true)
        (elem (sha256 raw_line) i.queue.seen) (λ e. e)
        (λ e.
          take_line-seen enabled now timestamp (sha256 raw_line) (event_of (json_of raw_line)) i)

  -- Whatever a line holds, its digest is in `seen` once it was taken, also when its alert pushes another
  -- item out of a full queue; so the same line, read again at any time with that state, changes neither
  -- the queue nor the clusters nor their snapshot.
  pub queue_line_once :
      (enabled : Bool) (now later : Float) (timestamp timestamp' : String) (raw_line : Bytes)
      (i : Intake)
      → (elem
            (sha256 raw_line)
            (queue_line python sha256 json_of enabled now timestamp raw_line i).queue.seen
          ≡ true)
        × (queue_line python sha256 json_of enabled later timestamp' raw_line
              (queue_line python sha256 json_of enabled now timestamp raw_line i)
            ≡ queue_line python sha256 json_of enabled now timestamp raw_line i)
  queue_line_once enabled now later timestamp timestamp' raw_line i =
      let seen = queue_line-seen enabled now timestamp raw_line i in (seen, skipped _ seen)
    where
      skipped :
          (j : Intake)
          → elem (sha256 raw_line) j.queue.seen ≡ true
          → queue_line python sha256 json_of enabled later timestamp' raw_line j ≡ j
      skipped j h = unfold queue_line in rw h refl

  -- When an event raises an alert of a kind that its cluster did not have, the manager's cluster has the
  -- kind afterwards, while the snapshot that is saved with the line has the cluster without it: after a
  -- restart from that snapshot the kind can be alerted again.
  pub alert_not_in_snapshot :
      (now : Float) (timestamp digest : String) (event : Event) (i : Intake)
      → is_priority_event event ≡ true
      → elem
          (python.str_of (at event "eventid"))
          (observe python i.manager event now).1.alerted_event_kinds
        ≡ false
      → (get
            (absorb python sha256 json_of true now timestamp digest event i).snapshot
            (observe python i.manager event now).0
          ≡ some (to_dict (observe python i.manager event now).1))
        × (get
              (absorb python sha256 json_of true now timestamp digest event i).manager.clusters
              (observe python i.manager event now).0
            ≡ some (record (observe python i.manager event now).1 {
              alerted_event_kinds =
                  (observe python i.manager event now).1.alerted_event_kinds
                  ++ python.str_of (at event "eventid") ∷ [];
            }))
  unfolding absorb alert_now
  alert_not_in_snapshot now timestamp digest event i priority fresh =
      let key = (observe python i.manager event now).0 in
      let held : get (observe python i.manager event now).3.clusters key
          ≡ some (observe python i.manager event now).1 =
        get-observe python i.manager event now key
        ∙ ground (arith, (string_equality.equal_iff key key).1 refl) in
      rw (priority, fresh)
        (
          get-to_state (observe python i.manager event now).3.clusters key ∙ ap saved_as held,
          get-put_self (observe python i.manager event now).3.clusters key _,
        )
