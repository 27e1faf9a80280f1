-- ===== src/Monitor/Drain/Laws.antt =====
-- What a call of `drain_pending` (native/discord-monitor.py) does with each item of the queue.
use swarm_kill_chain_medium.Prelude.{
  ℕ, suc, ◌≤◌, ◌≡◌, refl, sym, ap, ◌∙◌, String, Bool, true, false, Option, none, some, List, [],
  ◌∷◌, ◌++◌, arith, ltb, by_if, take,
}
use mathlib.Core.List.{foldl}
use swarm_kill_chain_medium.Governor.Discord.{Governor, can_send, note_send_attempt, note_success}
use swarm_kill_chain_medium.Monitor.Queue.{
  Item, State, Reason, credential_unavailable, delivery_uncertain_no_replay, append_bounded, bury,
  max_seen, max_dead,
}
use swarm_kill_chain_medium.Monitor.Drain.{
  Turn, Effect, saved, posted, posted_digest, Drained, bury_all, is_429, digest, after, finish,
  is_empty, drain_with, drain_loop, drain_pending,
}

-- The items that were posted, in order.
abbrev pub posts : List Effect → List Item
posts [] = []
posts (saved s ∷ es) = posts es
posts (posted item ∷ es) = item ∷ posts es
posts (posted_digest n ∷ es) = posts es

-- Each post of an item is made when the state that was saved last has that item at the head of the
-- queue; `disk` is that state at the start.
abbrev pub WriteAhead : State → List Effect → Type 0
WriteAhead disk [] = Unit
WriteAhead disk (saved s ∷ es) = WriteAhead s es
WriteAhead disk (posted item ∷ es) =
    ((rest : List Item) × (disk.pending ≡ item ∷ rest)) × WriteAhead disk es
WriteAhead disk (posted_digest n ∷ es) = WriteAhead disk es

-- The identities that `seen` gets, one after the other.
abbrev pub remember : List String → Item → List String
remember seen item = append_bounded seen item.id max_seen

-- How the queue `items` of the state `s` comes out.
abbrev pub Accounted : List Item → State → Drained → Type 0
Accounted items s d =
    (done : List Item) × (left : List Item) × (k : ℕ) × (items ≡ done ++ left)
    × (d.state.pending ≡ left)
    × (d.state.seen ≡ foldl remember s.seen done)
    × (posts d.effects ≡ done ++ take k left)
    × (k ≤ 1)

posts-digest :
    (r : Bool) (n : ℕ) (t : State) (es : List Effect)
    → posts ((digest r n ++ saved t ∷ []) ++ es) ≡ posts es
posts-digest false n t es = refl
posts-digest true n t es =
    by_if (λ (xs : List Effect). posts ((xs ++ saved t ∷ []) ++ es) ≡ posts es) (ltb 0 n)
      (λ e. refl) (λ e. refl)

WriteAhead-digest :
    (r : Bool) (n : ℕ) (s t : State) (es : List Effect)
    → WriteAhead t es
    → WriteAhead s ((digest r n ++ saved t ∷ []) ++ es)
WriteAhead-digest false n s t es h = h
WriteAhead-digest true n s t es h =
    by_if (λ (xs : List Effect). WriteAhead s ((xs ++ saved t ∷ []) ++ es)) (ltb 0 n) (λ e. h)
      (λ e. h)

-- An item that is posted and finished goes to the front of the account.
Accounted-cons :
    (item : Item) (rest : List Item) (s t : State) (d : Drained) (es : List Effect)
    → t.seen ≡ remember s.seen item
    → posts (es ++ d.effects) ≡ item ∷ posts d.effects
    → Accounted rest t d
    → Accounted (item ∷ rest) s (after es d)
Accounted-cons item rest s t d es seen sent (done, left, k, split, pending, known, made, one) = (
  item ∷ done,
  left,
  k,
  ap (◌∷◌ item) split,
  pending,
  known ∙ ap (λ xs. foldl remember xs done) seen,
  sent ∙ ap (◌∷◌ item) made,
  one,
)

drain_loop-Accounted :
    (world : ℕ → Turn) (n : ℕ) (items : List Item) (s : State) (g : Governor)
    → s.pending ≡ items
    → Accounted items s (drain_loop world n items s g)
unfolding drain_loop
drain_loop-Accounted world n [] s g h = ([], [], 0, refl, h, refl, refl, omega arith)
drain_loop-Accounted world n (item ∷ rest) s g h =
    by_if (Accounted (item ∷ rest) s) (can_send g (world n).checked_at)
      (λ e.
        by_if (Accounted (item ∷ rest) s) (world n).reply.success
          (λ f.
            let t = finish item rest s in
            let (g', recovered, suppressed) =
              note_success (note_send_attempt g (world n).attempted_at) in
            let d = drain_loop world (suc n) rest t g' in
            Accounted-cons item rest s t d
              (saved s ∷ posted item ∷ (digest recovered suppressed ++ saved t ∷ []))
              (unfold finish in refl)
              (ap (◌∷◌ item) (posts-digest recovered suppressed t d.effects))
              (drain_loop-Accounted world (suc n) rest t g' (unfold finish in refl)))
          (λ f.
            by_if (Accounted (item ∷ rest) s) (is_429 (world n).reply.status_code)
              (λ r. ([], item ∷ rest, 1, refl, h, refl, refl, omega arith))
              (λ r.
                let t = bury item delivery_uncertain_no_replay (record s { pending = rest }) in
                let g' = note_send_attempt g (world n).attempted_at in
                Accounted-cons item rest s t (drain_loop world (suc n) rest t g')
                  (saved s ∷ posted item ∷ saved t ∷ []) (unfold bury in refl) refl
                  (drain_loop-Accounted world (suc n) rest t g' (unfold bury in refl)))))
      (λ e. ([], item ∷ rest, 0, refl, h, refl, refl, omega arith))

drain_loop-WriteAhead :
    (world : ℕ → Turn) (n : ℕ) (items : List Item) (s disk : State) (g : Governor)
    → s.pending ≡ items
    → WriteAhead disk (drain_loop world n items s g).effects
unfolding drain_loop
drain_loop-WriteAhead world n [] s disk g h = tt
drain_loop-WriteAhead world n (item ∷ rest) s disk g h =
    by_if (λ (d : Drained). WriteAhead disk d.effects) (can_send g (world n).checked_at)
      (λ e.
        by_if (λ (d : Drained). WriteAhead disk d.effects) (world n).reply.success
          (λ f.
            let t = finish item rest s in
            let (g', recovered, suppressed) =
              note_success (note_send_attempt g (world n).attempted_at) in
            (
              (rest, h),
              WriteAhead-digest recovered suppressed s t
                  (drain_loop world (suc n) rest t g').effects
                  (drain_loop-WriteAhead world (suc n) rest t t g' (unfold finish in refl)),
            ))
          (λ f.
            by_if (λ (d : Drained). WriteAhead disk d.effects) (is_429 (world n).reply.status_code)
              (λ r. ((rest, h), tt))
              (λ r.
                let t = bury item delivery_uncertain_no_replay (record s { pending = rest }) in
                (
                  (rest, h),
                  drain_loop-WriteAhead world (suc n) rest t t
                      (note_send_attempt g (world n).attempted_at) (unfold bury in refl),
                ))))
      (λ e. tt)

-- With a credential, whatever Discord answers, each item is settled once, in order: those that leave the
-- queue were posted exactly once and are entered in `seen`, which is bounded; those that stay keep
-- their order, and at most the first of them was posted, once.
pub drain_pending-Accounted :
    (world : ℕ → Turn) (url : String) (s : State) (g : Governor)
    → Accounted s.pending s (drain_pending world (some url) s g)
unfolding drain_pending drain_with
drain_pending-Accounted world url s g =
    by_if (Accounted s.pending s) (is_empty s.pending)
      (λ e. ([], s.pending, 0, refl, refl, refl, refl, omega arith))
      (λ e. drain_loop-Accounted world 0 s.pending s g refl)

-- Every post is made after its item was saved at the head of the queue.
pub drain_pending-WriteAhead :
    (world : ℕ → Turn) (webhook : Option String) (s disk : State) (g : Governor)
    → WriteAhead disk (drain_pending world webhook s g).effects
unfolding drain_pending drain_with
drain_pending-WriteAhead world webhook s disk g =
    by_if (λ (d : Drained). WriteAhead disk d.effects) (is_empty s.pending) (λ e. tt)
      (λ e. started webhook)
  where
    started : (w : Option String) → WriteAhead disk (drain_with world w s g).effects
    started none = tt
    started (some url) = drain_loop-WriteAhead world 0 s.pending s disk g refl

abbrev pub lament : List (String × Reason) → Item → List (String × Reason)
lament dead item = append_bounded dead (item.id, credential_unavailable) max_dead

-- The state in which all of the items have left undelivered.
abbrev pub Buried : List Item → State → State → Type 0
Buried items s t =
    (t.pending ≡ [])
    × (t.seen ≡ foldl remember s.seen items)
    × (t.dead_letters ≡ foldl lament s.dead_letters items)

bury_all-Buried : (items : List Item) (s : State) → Buried items s (bury_all items s)
unfolding bury_all bury
bury_all-Buried [] s = (refl, refl, refl)
bury_all-Buried (item ∷ rest) s =
    bury_all-Buried rest (bury item credential_unavailable (record s { pending = rest }))

nothing_pending : (items : List Item) → is_empty items ≡ true → items ≡ []
nothing_pending [] h = refl
nothing_pending (item ∷ rest) h = absurd (ground (arith, h))

-- Without a credential the whole queue leaves undelivered: nothing is posted, and each item is entered
-- in `seen` and, as undeliverable, in the dead letters, in order.
pub drain_pending_unauthorised :
    (world : ℕ → Turn) (s : State) (g : Governor)
    → Buried s.pending s (drain_pending world none s g).state
      × (posts (drain_pending world none s g).effects ≡ [])
unfolding drain_pending drain_with
drain_pending_unauthorised world s g =
    by_if (λ (d : Drained). Buried s.pending s d.state × (posts d.effects ≡ []))
      (is_empty s.pending)
      (λ e.
        let empty = nothing_pending s.pending e in
        (
          (
            empty,
            sym (ap (foldl remember s.seen) empty),
            sym (ap (foldl lament s.dead_letters) empty),
          ),
          refl,
        ))
      (λ e. (bury_all-Buried s.pending s, refl))
