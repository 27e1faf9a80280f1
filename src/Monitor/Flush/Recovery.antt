-- ===== src/Monitor/Flush/Recovery.antt =====
-- The startup recovery of the summaries that a stopped process left
-- (`_recover_flushed_awaiting_enrichment` of native/discord-monitor.py).
use mathlib.Core.List.{append_assoc}
use swarm_kill_chain_medium.Prelude.{
  ◌+◌, ◌≤◌, ◌<◌, false, none, some, length, length-append, ◌≡◌, refl, sym, ap, ◌∙◌, String, true,
  List, [], ◌∷◌, ◌++◌, arith, All, All-append, append-nil, string_equality, if◌then◌else◌,
}
use swarm_kill_chain_medium.Dict.{Dict, remove, keys, Distinct}
use swarm_kill_chain_medium.Json.{Json, Python}
use swarm_kill_chain_medium.Cluster.Session.{Cluster}
use swarm_kill_chain_medium.Cluster.Saved.{got, to_dict, from_dict}
use swarm_kill_chain_medium.Cluster.Saved.Laws.{reread, from_dict-reread}
use swarm_kill_chain_medium.Cluster.Summary.Total.{IsTimed, build-IsSome_none}
use swarm_kill_chain_medium.Monitor.Flush.{
  Flushing, Flushed, quiet, saving, and_then, is_empty, enqueue_summary, recover_one, recover_each,
  recover_flushed_awaiting_enrichment,
}
use swarm_kill_chain_medium.Cluster.Summary.{build_session_summary_payload}
use swarm_kill_chain_medium.Monitor.Queue.{Item, State, is_known, max_pending}
use swarm_kill_chain_medium.Monitor.Queue.Room.{
  with_item, enqueue_pending_room, AllNew, with_item-AllNew,
}

-- What a flush has written: the saved value of a cluster.
abbrev pub IsSaved : String × Json → Type 0
IsSaved entry = (c : Cluster) × (entry.1 ≡ to_dict c) × IsTimed c

abbrev pub with_items : State → List Item → State
with_items s items = record s { pending = s.pending ++ items }

module _ (python : Python) where
  -- The item is the summary of this entry, without an enrichment.
  abbrev pub IsSummary : String × Json → Item → Type 0
  IsSummary (k, x) item =
      (item.id ≡ k)
      × (c : Cluster) × (from_dict python x ≡ got c)
      × (build_session_summary_payload python c none ≡ some item.payload)

  -- One item for each entry, in order.
  abbrev pub Summaries : Dict String Json → List Item → Type 0
  Summaries [] [] = Unit
  Summaries [] (item ∷ items) = ⊥
  Summaries (entry ∷ d) [] = ⊥
  Summaries (entry ∷ d) (item ∷ items) = IsSummary entry item × Summaries d items

  -- The part returned, nothing is awaited, and the summaries of these entries are pending behind what was.
  abbrev pub Recovered : Dict String Json → State → Flushed → Type 0
  Recovered d s r =
      (r.returned ≡ true)
      × (r.state.awaiting ≡ [])
      × ((items : List Item) × Summaries d items × (r.state.queue ≡ with_items s items))
      × All (λ saved. saved ≡ r.state) r.saves

  then_saved :
      (d : Dict String Json) (s : State) (r : Flushed)
      → Recovered d s r
      → Recovered d s (and_then r saving)
  unfolding and_then
  then_saved d s r (returned, left, queued, saves) = rw returned (
    refl,
    left,
    queued,
    All-append (λ saved. saved ≡ r.state) r.saves (r.state ∷ []) saves (refl, tt),
  )

  module _ (sha256 : String → String) where
    -- The entry at the head is queued and leaves.
    recover_head :
        (k : String) (c : Cluster) (d : Dict String Json) (m : Flushing) (payload : Json)
        → build_session_summary_payload python (reread c) none ≡ some payload
        → m.awaiting ≡ (k, to_dict c) ∷ d
        → is_known m.queue k ≡ false
        → length m.queue.pending < max_pending
        → recover_one python sha256 k (from_dict python (to_dict c)) m
          ≡ quiet (record m {
            queue = with_item m.queue (record { id = k; payload = payload });
            awaiting = d;
          })
    unfolding recover_one enqueue_summary remove
    recover_head k c d m payload f e new room =
        rw (from_dict-reread python c, f, e, enqueue_pending_room m.queue k payload new room)
          (ground (arith, string_equality.equal_iff k k))

    recover_each_whole :
        (d : Dict String Json) (m : Flushing)
        → m.awaiting ≡ d
        → All IsSaved d
        → Distinct (keys d)
        → AllNew m.queue (keys d)
        → length m.queue.pending + length d ≤ max_pending
        → Recovered d m.queue (recover_each python sha256 d m)
    unfolding recover_each and_then
    recover_each_whole [] m e h s a room = (
      refl,
      e,
      (
        [],
        tt,
        ap (λ (p : List Item). record m.queue { pending = p }) (sym (append-nil m.queue.pending)),
      ),
      tt,
    )
    recover_each_whole ((k, x) ∷ d) m e ((c, f, t), h) s a room =
        let (payload, built) = build-IsSome_none python (reread c) t in
        let item : Item = record { id = k; payload = payload } in
        let m' : Flushing = record m { queue = with_item m.queue item; awaiting = d } in
        let head =
          recover_head k c d m payload built (e ∙ ap (λ y. (k, y) ∷ d) f) a.0
            (omega (arith, room)) in
        let (returned, left, (items, summaries, queue), saves) =
          recover_each_whole d m' refl h s.1 (with_item-AllNew m.queue item (keys d) s.0 a.1)
            (omega (arith, room, length-append m.queue.pending (item ∷ []))) in
        rw (f, head)
          (
            returned,
            left,
            (
              item ∷ items,
              ((refl, reread c, from_dict-reread python c, built), summaries),
              queue
                  ∙ ap (λ (p : List Item). record m.queue { pending = p })
                      (append_assoc m.queue.pending (item ∷ []) items),
            ),
            saves,
          )

    -- What a stopped process had flushed is recovered at startup. When each awaited entry is what `to_dict`
    -- wrote of a cluster whose times are numbers, no identity occurs twice or is known to the queue, and
    -- there is room for all of them, the recovery returns with no entry left; for each entry, in order, the
    -- pending items of the intel queue end with an item that has its identity and the payload built from its
    -- cluster without an enrichment; nothing else of the queue changes; and the only state that is saved is
    -- the one it ends with.
    pub recover_flushed_awaiting_enrichment-Recovered :
        (m : Flushing)
        → All IsSaved m.awaiting
        → Distinct (keys m.awaiting)
        → AllNew m.queue (keys m.awaiting)
        → length m.queue.pending + length m.awaiting ≤ max_pending
        → Recovered m.awaiting m.queue (recover_flushed_awaiting_enrichment python sha256 m)
    unfolding recover_flushed_awaiting_enrichment recover_each
    recover_flushed_awaiting_enrichment-Recovered m h s a room = entries m.awaiting refl h s a room
      where
        entries :
            (d : Dict String Json)
            → m.awaiting ≡ d
            → All IsSaved d
            → Distinct (keys d)
            → AllNew m.queue (keys d)
            → length m.queue.pending + length d ≤ max_pending
            → Recovered d m.queue
                (if is_empty d then quiet m else and_then (recover_each python sha256 d m) saving)
        entries [] e all distinct new fits = recover_each_whole [] m e all distinct new fits
        entries (entry ∷ d) e all distinct new fits =
            then_saved (entry ∷ d) m.queue (recover_each python sha256 (entry ∷ d) m)
              (recover_each_whole (entry ∷ d) m e all distinct new fits)
