-- ===== src/Monitor/Consume/Laws.antt =====
-- What one call of `consume` takes of a file that does not change meanwhile, and the offsets that it saves
-- (native/discord-monitor.py).
use swarm_kill_chain_medium.Prelude.{
  ℕ, zero, suc, ◌+◌, ◌<◌, ◌≡◌, refl, sym, ap, ◌∙◌, String, Bool, true, Option, none, some, List, [],
  ◌∷◌, ◌++◌, arith, ◌==◌, length, take, drop, All, All-append, any_of, length-drop, length-take,
  take-append-drop,
}
use mathlib.Core.Path.{subst}
use swarm_kill_chain_medium.Prelude.Text.{Bytes}
use swarm_kill_chain_medium.Json.{Json, Python}
use swarm_kill_chain_medium.Archive.Records.{lf, find_lf}
use swarm_kill_chain_medium.Archive.Records.Splitting.{
  NoLf, Splits, unfinished, record_then, find_lf-none, find_lf-some,
}
use swarm_kill_chain_medium.Monitor.Drain as Drain
use swarm_kill_chain_medium.Monitor.Drain.{drain_pending}
use swarm_kill_chain_medium.Monitor.State.{
  Source, Monitor, Effect, saved, posted, posted_digest, with_legacy, drain_effects, legacy,
}
use swarm_kill_chain_medium.Monitor.Consume.{
  Round, Consumed, line_at, moved_to, take_in, on_line, consume_loop, consume,
}

abbrev ends_of : List (ℕ × Bytes) → List ℕ
ends_of [] = []
ends_of ((end, line) ∷ lines) = end ∷ ends_of lines

-- The offset behind the last line.
abbrev pub end_of : ℕ → List (ℕ × Bytes) → ℕ
end_of start [] = start
end_of start ((end, line) ∷ lines) = end_of end lines

-- A state that is saved has the same source with the offset behind one of the lines; a post saves
-- nothing.
abbrev pub SavedAt : Source → List (ℕ × Bytes) → Effect → Type 0
SavedAt source lines (saved m) =
    (offset : ℕ) × (any_of (λ end. end == offset) (ends_of lines) ≡ true)
    × (m.source ≡ some (record source { offset = offset }))
SavedAt source lines _ = Unit

drop_more : (n m : ℕ) (bytes : Bytes) → drop n (drop m bytes) ≡ drop (m + n) bytes
drop_more n zero bytes = let e : n ≡ 0 + n = omega arith in ap (λ k. drop k bytes) e
drop_more zero (suc m) [] = let e : suc m ≡ suc m + 0 = omega arith in ap (λ k. drop k []) e
drop_more (suc n) (suc m) [] =
    let e : suc (m + suc n) ≡ suc m + suc n = omega arith in ap (λ (k : ℕ). drop k []) e
drop_more n (suc m) (b ∷ bytes) =
    let e : suc (m + n) ≡ suc m + n = omega arith in
    drop_more n m bytes ∙ ap (λ k. drop k (b ∷ bytes)) e

drain_effects-SavedAt :
    (source : Source) (lines : List (ℕ × Bytes)) (m : Monitor) (es : List Drain.Effect)
    → SavedAt source lines (saved m)
    → All (SavedAt source lines) (drain_effects (with_legacy m) es)
drain_effects-SavedAt source lines m [] h = tt
drain_effects-SavedAt source lines m (Drain.saved s ∷ es) h =
    (h, drain_effects-SavedAt source lines m es h)
drain_effects-SavedAt source lines m (Drain.posted item ∷ es) h =
    (tt, drain_effects-SavedAt source lines m es h)
drain_effects-SavedAt source lines m (Drain.posted_digest n ∷ es) h =
    (tt, drain_effects-SavedAt source lines m es h)

-- One more line before them.
SavedAt-more :
    (source : Source) (o end : ℕ) (line : Bytes) (lines : List (ℕ × Bytes)) (es : List Effect)
    → All (SavedAt (record source { offset = o }) lines) es
    → All (SavedAt source ((end, line) ∷ lines)) es
SavedAt-more source o end line lines [] h = tt
SavedAt-more source o end line lines (saved m ∷ es) ((offset, among, e), h) =
    ((offset, ground (arith, among), e), SavedAt-more source o end line lines es h)
SavedAt-more source o end line lines (posted i ∷ es) (u, h) =
    (tt, SavedAt-more source o end line lines es h)
SavedAt-more source o end line lines (posted_digest n ∷ es) (u, h) =
    (tt, SavedAt-more source o end line lines es h)

-- The lines taken are the complete lines of the content from the source's offset on, the loop came to
-- its end, the source has the offset behind the last line, and so has every saved state for one of them.
abbrev pub Taken : Source → Bytes → Consumed → Type 0
Taken source content r =
    Splits source.offset (drop source.offset content) r.lines
    × ((r.ended ≡ true)
        × (r.offset ≡ end_of source.offset r.lines)
        × (r.monitor.source ≡ some (record source { offset = r.offset })))
    × All (SavedAt source r.lines) r.effects

module _ (python : Python) (sha256 : Bytes → String) (json_of : Bytes → Option Json)
    (enabled : Bool) where
  module _ (world : ℕ → Round) (content : Bytes)
      (steady : (n : ℕ) → (world n).content ≡ content) where
    -- The line of a round, and what is left behind it.
    abbrev Next : ℕ → Option Bytes → Type 0
    Next offset none = Splits offset (drop offset content) []
    Next offset (some line) =
        (body : Bytes) × NoLf body
        × (line ≡ body ++ lf ∷ [])
        × (drop offset content ≡ line ++ drop (offset + length line) content)
        × (length (drop (offset + length line) content) < length (drop offset content))

    line_at-Next : (offset : ℕ) → Next offset (line_at content offset)
    unfolding line_at
    line_at-Next offset = with_index (find_lf (drop offset content)) refl
      where
        with_index :
            (o : Option ℕ)
            → find_lf (drop offset content) ≡ o
            → Next offset (elim o [
              | none ↦ none
              | some newline ↦ some (take (suc newline) (drop offset content))
            ])
        with_index none e = unfinished (find_lf-none (drop offset content) e)
        with_index (some newline) e =
            let (clean, shape, size) = find_lf-some (drop offset content) newline e in
            let rest : drop (suc newline) (drop offset content)
                ≡ drop (offset + suc newline) content =
              drop_more (suc newline) offset content in
            (
              take newline (drop offset content),
              clean,
              shape,
              rw size (
                  sym (take-append-drop (suc newline) (drop offset content))
                  ∙ ap (λ r. take (suc newline) (drop offset content) ++ r) rest),
              rw size (
                  omega (
                    arith,
                    ap length rest,
                    length-drop (suc newline) (drop offset content),
                    length-take (suc newline) (drop offset content),
                    size,
                  )),
            )

    -- A round, when what comes after it does so.
    on_line-Taken :
        (round : Round) (source : Source) (m : Monitor) (go_on : ℕ → Monitor → Consumed)
        → m.source ≡ some source
        → ((later : Source) (delivered : Monitor)
            → delivered.source ≡ some later
            → length (drop later.offset content) < length (drop source.offset content)
            → Taken later content (go_on later.offset delivered))
        → (o : Option Bytes) → Next source.offset o
        → Taken source content (on_line python sha256 json_of enabled round source.offset m go_on o)
    unfolding on_line take_in
    on_line-Taken round source m go_on e after none left = (left, (refl, refl, e), tt)
    on_line-Taken round source m go_on e after (some line) (body, clean, shape, whole, smaller) =
        let next = source.offset + length line in
        let moved : Source = record source { offset = next } in
        let absorbed = take_in python sha256 json_of enabled round line next m in
        let drained =
          drain_pending round.turns round.webhook (legacy absorbed) absorbed.legacy_governor in
        let here : absorbed.source ≡ some moved = ap (moved_to next) e in
        let delivered : Monitor = record (with_legacy absorbed drained.state) {
          legacy_governor = drained.governor;
        } in
        let (splits, ends, saves) = after moved delivered here smaller in
        let lines : List (ℕ × Bytes) = (next, line) ∷ (go_on next delivered).lines in
        let at : SavedAt source lines (saved absorbed) = (next, ground arith, here) in
        (
          record_then body (drop next content) clean shape refl whole splits,
          ends,
          (
            at,
            All-append (SavedAt source lines) (drain_effects (with_legacy absorbed) drained.effects)
                (go_on next delivered).effects
                (drain_effects-SavedAt source lines absorbed drained.effects at)
                (SavedAt-more source next next line (go_on next delivered).lines
                  (go_on next delivered).effects saves),
          ),
        )

    consume_loop-Taken :
        (fuel n : ℕ) (source : Source) (m : Monitor)
        → m.source ≡ some source
        → length (drop source.offset content) < fuel
        → Taken source content
            (consume_loop python sha256 json_of enabled fuel world n source.offset m)
    unfolding consume_loop
    consume_loop-Taken zero n source m e enough = absurd (omega arith)
    consume_loop-Taken (suc fuel) n source m e enough =
        on_line-Taken (world n) source m _ e
          (λ later delivered f smaller.
            consume_loop-Taken fuel (suc n) later delivered f (omega (arith, enough, smaller)))
          (line_at (world n).content source.offset)
          (subst (λ c. Next source.offset (line_at c source.offset)) (sym (steady n))
            (line_at-Next source.offset))

    -- When the file does not change meanwhile, `consume` from the source's offset takes exactly its
    -- LF-terminated lines from there on, each once and in order, and leaves an unfinished last line; it comes
    -- to its end when the fuel exceeds the bytes to read. The source then has the offset behind the last
    -- line, and every state that is saved meanwhile has the offset behind one of the lines.
    pub consume-Taken :
        (fuel : ℕ) (source : Source) (m : Monitor)
        → m.source ≡ some source
        → length (drop source.offset content) < fuel
        → Taken source content (consume python sha256 json_of enabled fuel world source.offset m)
    unfolding consume
    consume-Taken fuel source m e enough = consume_loop-Taken fuel 0 source m e enough
