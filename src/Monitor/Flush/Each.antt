-- ===== src/Monitor/Flush/Each.antt =====
-- What the loop over the flushed clusters keeps (`flush_expired_clusters` of native/discord-monitor.py).
use mathlib.Core.Path.{subst}
use swarm_kill_chain_medium.Prelude.{
  ℕ, ◌+◌, ◌<◌, refl, length, ◌≡◌, String, sym, ◌∙◌, true, Option, none, some, List, [], ◌∷◌, arith,
  map, by_if, Bool-cases, inl, inr, string_equality,
}
use swarm_kill_chain_medium.Dict.{put, elem}
use swarm_kill_chain_medium.Dict.Laws.{elem-put}
use swarm_kill_chain_medium.Dict.Sorting.{elem-remove_ne}
use swarm_kill_chain_medium.Json.{Json, Python}
use swarm_kill_chain_medium.Cluster.Session.{Cluster}
use swarm_kill_chain_medium.Cluster.Saved.{to_dict}
use swarm_kill_chain_medium.Cluster.Summary.{build_session_summary_payload}
use swarm_kill_chain_medium.Intel.Worker.{Worker, try_submit}
use swarm_kill_chain_medium.Monitor.Flush.{
  Enrichment, Flushing, and_then, Flushed, submit, flush_item_id, enqueue_payload, enqueue_summary,
  flush_one, flush_each,
}
use swarm_kill_chain_medium.Monitor.Queue.{enqueue_pending}
use swarm_kill_chain_medium.Monitor.Queue.Kept.{
  InQueue, Ready, Ready-more, enqueue_pending-InQueue, enqueue_pending-Ready, enqueue_pending_own,
}
use swarm_kill_chain_medium.Monitor.Flush.Accounts.{
  Held, Held-le, Keeps, Keeps-le, KeepsAll, and_then-Keeps, and_then-Covers,
}

-- The lookups whose results the worker has.
abbrev pub results_of : Option (Worker Cluster Enrichment) → List (Cluster × Enrichment)
results_of none = []
results_of (some worker) = worker.results

pub results_of-submit :
    (worker : Option (Worker Cluster Enrichment)) (c : Cluster)
    → results_of (submit worker c).1 ≡ results_of worker
unfolding try_submit
results_of-submit none c = refl
results_of-submit (some worker) c = ground arith

module _ (python : Python) (sha256 : String → String) where
  enqueue_payload-Keeps :
      (k : String) (payload : Option Json) (flush_id : String)
      → KeepsAll k 1 (enqueue_payload python sha256 payload flush_id)
  enqueue_payload-Keeps k none flush_id n m small h = (Held-le k n (n + 1) m (omega arith) h, tt)
  enqueue_payload-Keeps k (some payload) flush_id n m small (inl q) =
      (inl (enqueue_pending-InQueue k n (omega (arith, small)) m.queue flush_id payload q), tt)
  enqueue_payload-Keeps k (some payload) flush_id n m small (inr (unseen, a)) =
      elim (Bool-cases (string_equality.equal flush_id k)) [
        | inl same ↦ (inl (own ((string_equality.equal_iff flush_id k).0 same)), tt)
        | inr other ↦
            elim (enqueue_pending-Ready k n (omega (arith, small)) m.queue flush_id payload
              (inr unseen)) [
                | inl q ↦ (inl q, tt)
                | inr unseen' ↦ (
                  inr (unseen', ground (arith, a, elem-remove_ne m.awaiting flush_id k other)),
                  tt,
                )
              ]
      ]
    where
      own : flush_id ≡ k → InQueue k (n + 1) (enqueue_pending m.queue flush_id payload)
      own e =
          subst (λ (j : String). InQueue k (n + 1) (enqueue_pending m.queue j payload)) (sym e)
            (enqueue_pending_own k n (omega (arith, small)) m.queue payload (inr unseen))

  pub enqueue_summary-Keeps :
      (k : String) (c : Cluster) (enrichment : Enrichment) (flush_id : String)
      → KeepsAll k 1 (enqueue_summary python sha256 c enrichment flush_id)
  unfolding enqueue_summary
  enqueue_summary-Keeps k c enrichment flush_id =
      enqueue_payload-Keeps k (build_session_summary_payload python c enrichment) flush_id

  -- The state in which a cluster has been noted.
  abbrev noted : Cluster → Flushing → Flushing
  noted c m = record m {
    awaiting = put m.awaiting (flush_item_id python sha256 c) (to_dict c);
    worker = (submit m.worker c).1;
  }

  noted-Held : (k : String) (n : ℕ) (c : Cluster) (m : Flushing) → Held k n m → Held k n (noted c m)
  noted-Held k n c m (inl q) = inl q
  noted-Held k n c m (inr (unseen, a)) =
      inr (
        unseen,
        ground (arith, a, elem-put m.awaiting (flush_item_id python sha256 c) k (to_dict c)),
      )

  -- The identity of the cluster itself.
  noted_own :
      (k : String) (n : ℕ) (c : Cluster) (m : Flushing)
      → string_equality.equal (flush_item_id python sha256 c) k ≡ true
      → Ready k n m.queue
      → Held k n (noted c m)
  noted_own k n c m same (inl q) = inl q
  noted_own k n c m same (inr unseen) = inr (
    unseen,
    ground (arith, same, elem-put m.awaiting (flush_item_id python sha256 c) k (to_dict c)),
  )

  flush_noted-Keeps :
      (k : String) (n : ℕ) (c : Cluster) (m : Flushing)
      → n + 1 < 2048
      → Held k n (noted c m)
      → Keeps k (n + 1) (flush_one python sha256 c m)
  unfolding flush_one
  flush_noted-Keeps k n c m small h =
      by_if (Keeps k (n + 1)) (submit m.worker c).0
        (λ e. (Held-le k n (n + 1) (noted c m) (omega arith) h, tt))
        (λ e. enqueue_summary-Keeps k c none (flush_item_id python sha256 c) n (noted c m) small h)

  abbrev pub ids : List Cluster → List String
  ids = map (flush_item_id python sha256)

  pub flush_each-Keeps :
      (k : String) (cs : List Cluster) → KeepsAll k (length cs) (flush_each python sha256 cs)
  unfolding flush_each
  flush_each-Keeps k [] n m small h = (Held-le k n (n + 0) m (omega arith) h, tt)
  flush_each-Keeps k (c ∷ cs) n m small h =
      let r = flush_one python sha256 c m in
      and_then-Keeps k (n + 1) (n + length (c ∷ cs)) r (flush_each python sha256 cs) (omega arith)
        (flush_noted-Keeps k n c m (omega (arith, small)) (noted-Held k n c m h))
        (λ held.
          Keeps-le k (n + 1 + length cs) (n + length (c ∷ cs)) (flush_each python sha256 cs r.state)
            (omega arith) (flush_each-Keeps k cs (n + 1) r.state (omega (arith, small)) held))

  -- Before a cluster is flushed its identity may be in the queue or unseen.
  enqueue_payload-Ready :
      (k : String) (n : ℕ) (payload : Option Json) (flush_id : String) (m : Flushing)
      → n + 1 < 2048
      → Ready k n m.queue
      → Ready k (n + 1) (enqueue_payload python sha256 payload flush_id m).state.queue
        × ((enqueue_payload python sha256 payload flush_id m).saves ≡ [])
  enqueue_payload-Ready k n none flush_id m small q = (Ready-more k n m.queue q, refl)
  enqueue_payload-Ready k n (some payload) flush_id m small q =
      (enqueue_pending-Ready k n (omega (arith, small)) m.queue flush_id payload q, refl)

  flush_one-Ready :
      (k : String) (n : ℕ) (c : Cluster) (m : Flushing)
      → n + 1 < 2048
      → Ready k n m.queue
      → Ready k (n + 1) (flush_one python sha256 c m).state.queue
        × ((flush_one python sha256 c m).saves ≡ [])
  unfolding flush_one enqueue_summary
  flush_one-Ready k n c m small q =
      by_if (λ (r : Flushed). Ready k (n + 1) r.state.queue × (r.saves ≡ [])) (submit m.worker c).0
        (λ e. (Ready-more k n m.queue q, refl))
        (λ e.
          enqueue_payload-Ready k n (build_session_summary_payload python c none)
            (flush_item_id python sha256 c) (noted c m) small q)

  -- Each of the flushed clusters is held when the loop ends.
  pub flush_each-Covers :
      (k : String) (cs : List Cluster) (n : ℕ) (m : Flushing)
      → n + length cs < 2048
      → elem k (ids cs) ≡ true
      → Ready k n m.queue
      → (flush_each python sha256 cs m).returned ≡ true
      → Keeps k (n + length cs) (flush_each python sha256 cs m)
  unfolding flush_each
  flush_each-Covers k [] n m small h q ret = absurd (ground arith)
  flush_each-Covers k (c ∷ cs) n m small h q ret =
      elim (Bool-cases (string_equality.equal (flush_item_id python sha256 c) k)) [
        | inl same ↦
            and_then-Keeps k (n + 1) (n + length (c ∷ cs)) r (flush_each python sha256 cs)
              (omega arith)
              (flush_noted-Keeps k n c m (omega (arith, small)) (noted_own k n c m same q))
              (λ held.
                Keeps-le k (n + 1 + length cs) (n + length (c ∷ cs))
                  (flush_each python sha256 cs r.state) (omega arith)
                  (flush_each-Keeps k cs (n + 1) r.state (omega (arith, small)) held))
        | inr other ↦
            let (q', unsaved) = flush_one-Ready k n c m (omega (arith, small)) q in
            and_then-Covers k (n + length (c ∷ cs)) r (flush_each python sha256 cs) unsaved
              (λ ret'.
                Keeps-le k (n + 1 + length cs) (n + length (c ∷ cs))
                  (flush_each python sha256 cs r.state) (omega arith)
                  (flush_each-Covers k cs (n + 1) r.state (omega (arith, small))
                    (ground (arith, other, h)) q' ret'))
              ret
      ]
    where
      r : Flushed
      r = flush_one python sha256 c m

  enqueue_payload-results :
      (payload : Option Json) (flush_id : String) (m : Flushing)
      → results_of (enqueue_payload python sha256 payload flush_id m).state.worker
        ≡ results_of m.worker
  enqueue_payload-results none flush_id m = refl
  enqueue_payload-results (some payload) flush_id m = refl

  flush_one-results :
      (c : Cluster) (m : Flushing)
      → results_of (flush_one python sha256 c m).state.worker ≡ results_of m.worker
  unfolding flush_one enqueue_summary
  flush_one-results c m =
      by_if (λ (r : Flushed). results_of r.state.worker ≡ results_of m.worker) (submit m.worker c).0
        (λ e. results_of-submit m.worker c)
        (λ e.
          enqueue_payload-results (build_session_summary_payload python c none)
            (flush_item_id python sha256 c) (noted c m)
          ∙ results_of-submit m.worker c)

  pub flush_each-results :
      (cs : List Cluster) (m : Flushing)
      → results_of (flush_each python sha256 cs m).state.worker ≡ results_of m.worker
  unfolding flush_each and_then
  flush_each-results [] m = refl
  flush_each-results (c ∷ cs) m =
      by_if (λ (r : Flushed). results_of r.state.worker ≡ results_of m.worker)
        (flush_one python sha256 c m).returned
        (λ e. flush_each-results cs (flush_one python sha256 c m).state ∙ flush_one-results c m)
        (λ e. flush_one-results c m)
