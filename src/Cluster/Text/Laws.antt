-- ===== src/Cluster/Text/Laws.antt =====
-- What `sanitize_display` of native/session_cluster.py lets through.
use Prim.Native.Char.{Char, code}
use swarm_kill_chain_medium.Prelude.{
  ℕ, zero, suc, ◌+◌, ◌-◌, ◌≤◌, ◌≡◌, refl, String, Bool, false, ◌||◌, ◌==◌, ltb, arith, by_if,
}
use swarm_kill_chain_medium.Json.{Json, Python}
use swarm_kill_chain_medium.Cluster.Text.{
  len, prefix, append, is_control, strip_controls, replace_backticks, truncate, display_text,
  sanitize_display,
}

-- Every character passes the test.
abbrev pub AllChars : (ℕ → Bool) → String → Type 0
AllChars p String.[] = Unit
AllChars p (String.◌∷◌ c s) = (p (code c) ≡ false) × AllChars p s

-- A control character other than tab, line feed and carriage return, or a backtick.
abbrev pub is_banned : ℕ → Bool
is_banned c = is_control c || (c == b'`')

strip_controls-AllChars : (s : String) → AllChars is_control (strip_controls s)
unfolding strip_controls
strip_controls-AllChars String.[] = tt
strip_controls-AllChars (String.◌∷◌ c s) =
    by_if (AllChars is_control) (is_control (code c)) (λ e. strip_controls-AllChars s)
      (λ e. (e, strip_controls-AllChars s))

replace_backticks-AllChars :
    (s : String) → AllChars is_control s → AllChars is_banned (replace_backticks s)
unfolding replace_backticks
replace_backticks-AllChars String.[] h = tt
replace_backticks-AllChars (String.◌∷◌ c s) h = (
  by_if (λ (d : Char). is_banned (code d) ≡ false) (code c == b'`') (λ e. unfold is_control in refl)
      (λ e. ground (arith, e, h.0)),
  replace_backticks-AllChars s h.1,
)

prefix-AllChars : (p : ℕ → Bool) (n : ℕ) (s : String) → AllChars p s → AllChars p (prefix n s)
unfolding prefix
prefix-AllChars p zero s h = tt
prefix-AllChars p (suc n) String.[] h = tt
prefix-AllChars p (suc n) (String.◌∷◌ c s) h = (h.0, prefix-AllChars p n s h.1)

append-AllChars :
    (p : ℕ → Bool) (s t : String) → AllChars p s → AllChars p t → AllChars p (append s t)
unfolding append
append-AllChars p String.[] t h k = k
append-AllChars p (String.◌∷◌ c s) t h k = (h.0, append-AllChars p s t h.1 k)

len-append : (s t : String) → len (append s t) ≡ len s + len t
unfolding append len
len-append String.[] t = omega arith
len-append (String.◌∷◌ c s) t = omega (arith, len-append s t)

len-prefix : (n : ℕ) (s : String) → len (prefix n s) ≤ n
unfolding prefix len
len-prefix zero s = omega arith
len-prefix (suc n) String.[] = omega arith
len-prefix (suc n) (String.◌∷◌ c s) = omega (arith, len-prefix n s)

truncate-AllChars : (n : ℕ) (s : String) → AllChars is_banned s → AllChars is_banned (truncate n s)
unfolding truncate
truncate-AllChars n s h =
    by_if (AllChars is_banned) (ltb n (len s))
      (λ e.
        append-AllChars is_banned (prefix (n - 1) s) "…" (prefix-AllChars is_banned (n - 1) s h)
          (unfold is_control in (refl, tt)))
      (λ e. h)

pub len-truncate : (n : ℕ) (s : String) → 1 ≤ n → len (truncate n s) ≤ n
unfolding truncate
len-truncate n s h =
    let one : len "…" ≡ 1 = unfold len in refl in
    by_if (λ (t : String). len t ≤ n) (ltb n (len s))
      (λ e. omega (arith, len-append (prefix (n - 1) s) "…", len-prefix (n - 1) s, one))
      (λ e. ground (arith, e))

-- A displayed text is never longer than its limit, and has no backtick and no control character but
-- tab, line feed and carriage return, whatever the value is; the limit has to be positive.
pub sanitize_display-IsSafe :
    (python : Python) (value : Json) (max_length : ℕ)
    → 1 ≤ max_length
    → (len (sanitize_display python value max_length) ≤ max_length)
      × AllChars is_banned (sanitize_display python value max_length)
unfolding sanitize_display
sanitize_display-IsSafe python value max_length h =
    let text = strip_controls (display_text python value) in
    (
      len-truncate max_length (replace_backticks text) h,
      truncate-AllChars max_length (replace_backticks text)
          (replace_backticks-AllChars text (strip_controls-AllChars (display_text python value))),
    )
