-- ===== src/Governor/Discord/Episode.antt =====
-- What the recovery digest reports at the end of a degraded episode
-- (native/discord_rate_governor.py).
use swarm_kill_chain_medium.Prelude.{
  ℕ, ◌≡◌, refl, ap, ◌∙◌, true, false, Option, List, [], ◌∷◌, arith, max,
}
use mathlib.Core.List.{foldl}
use swarm_kill_chain_medium.Float.{Float}
use swarm_kill_chain_medium.Governor.Discord.{
  Governor, note_blocked, note_success, note_rate_limited,
}

-- What can happen between the refusal that opens an episode and the success that closes it.
pub data Event : Type 0 where
  blocked : ℕ → Event
  limited : ℕ → Option Float → Event

unfoldable pub note : Governor → Event → Governor
unfolding note_blocked note_rate_limited
note g (blocked depth) = note_blocked g depth
note g (limited now retry) = (note_rate_limited g now retry).0

-- The largest queue depth among the events, from a start.
unfoldable pub largest : ℕ → List Event → ℕ
largest n [] = n
largest n (blocked depth ∷ es) = largest (max n depth) es
largest n (limited now retry ∷ es) = largest n es

episode_reports_from :
    (g : Governor) (es : List Event)
    → g.degraded ≡ true
    → ((note_success (foldl note g es)).1 ≡ true)
      × ((note_success (foldl note g es)).2 ≡ largest g.suppressed es)
unfolding largest note note_success
episode_reports_from g [] d = ground arith
episode_reports_from g (blocked depth ∷ es) d =
    let ih = episode_reports_from (note_blocked g depth) es (ground arith) in
    let e : (note_blocked g depth).suppressed ≡ max g.suppressed depth = ground arith in
    (ih.0, ih.1 ∙ ap (λ n. largest n es) e)
episode_reports_from g (limited now retry ∷ es) d =
    episode_reports_from (note_rate_limited g now retry).0 es refl

-- A degraded episode, from the refusal that opens it (which says that it does): the success that
-- closes it reports a recovery with the largest queue depth blocked during the episode, and leaves
-- a governor whose next success reports nothing.
pub episode_reports :
    (g : Governor) (now : ℕ) (retry : Option Float) (es : List Event)
    → g.degraded ≡ false
    → g.suppressed ≡ 0
    → ((note_rate_limited g now retry).1 ≡ true)
      × ((note_success (foldl note (note_rate_limited g now retry).0 es)).1 ≡ true)
      × ((note_success (foldl note (note_rate_limited g now retry).0 es)).2 ≡ largest 0 es)
      × ((note_success (note_success (foldl note (note_rate_limited g now retry).0 es)).0).1
          ≡ false)
episode_reports g now retry es d z =
    let opened : (note_rate_limited g now retry).0.degraded ≡ true =
      unfold note_rate_limited in refl in
    let clear : (note_rate_limited g now retry).0.suppressed ≡ 0 = unfold note_rate_limited in z in
    let (recovered, count) = episode_reports_from (note_rate_limited g now retry).0 es opened in
    (
      unfold note_rate_limited in rw d,
      recovered,
      count ∙ ap (λ n. largest n es) clear,
      unfold note_success in ground arith,
    )
