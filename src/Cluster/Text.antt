-- ===== src/Cluster/Text.antt =====
-- The display text of native/session_cluster.py: sanitising, truncation, suspicious commands.
pub mod Laws
use Prim.Native.Char.{Char, code}
use swarm_kill_chain_medium.Prelude.{
  ℕ, zero, suc, ◌-◌, String, Bool, true, false, ◌||◌, ◌&&◌, List, [], ◌∷◌, ◌==◌, leb, ltb, any_of,
  if◌then◌else◌,
}
use swarm_kill_chain_medium.Json.{Json, null, Python}

-- `len(text)`: the code points.
unfoldable pub len : String → ℕ
len String.[] = 0
len (String.◌∷◌ c s) = suc (len s)

-- `text[:n]`
unfoldable pub prefix : ℕ → String → String
prefix zero s = String.[]
prefix (suc n) String.[] = String.[]
prefix (suc n) (String.◌∷◌ c s) = String.◌∷◌ c (prefix n s)

unfoldable pub append : String → String → String
append String.[] t = t
append (String.◌∷◌ c s) t = String.◌∷◌ c (append s t)

-- The pattern `[\x00-\x08\x0b\x0c\x0e-\x1f\x7f]`.
unfoldable pub is_control : ℕ → Bool
is_control c = leb c 0x08 || (c == 0x0b) || (c == 0x0c) || (leb 0x0e c && leb c 0x1f) || (c == 0x7f)

unfoldable pub strip_controls : String → String
unfolding is_control
strip_controls String.[] = String.[]
strip_controls (String.◌∷◌ c s) =
    if is_control (code c) then strip_controls s else String.◌∷◌ c (strip_controls s)

-- `text.replace("`", "'")`
unfoldable pub replace_backticks : String → String
replace_backticks String.[] = String.[]
replace_backticks (String.◌∷◌ c s) =
    String.◌∷◌ (if code c == b'`' then "'" else c) (replace_backticks s)

unfoldable pub truncate : ℕ → String → String
unfolding len prefix append
truncate max_length s = if ltb max_length (len s) then append (prefix (max_length - 1) s) "…" else s

unfoldable pub starts : String → String → Bool
starts s String.[] = true
starts String.[] (String.◌∷◌ c t) = false
starts (String.◌∷◌ d s) (String.◌∷◌ c t) = (code d == code c) && starts s t

-- `t in s`
unfoldable pub contains : String → String → Bool
unfolding starts
contains String.[] t = starts String.[] t
contains (String.◌∷◌ c s) t = starts (String.◌∷◌ c s) t || contains s t

abbrev pub interesting_commands : List String
interesting_commands =
    "wget" ∷ "curl" ∷ "nc" ∷ "netcat" ∷ "python" ∷ "bash" ∷ "sh" ∷ "sudo" ∷ "su" ∷ "cat /etc/passwd"
    ∷ "cat /etc/shadow" ∷ "whoami" ∷ "id" ∷ "uname" ∷ "ps" ∷ "netstat" ∷ "nmap" ∷ "chmod" ∷ "chown"
    ∷ "rm -rf" ∷ "history" ∷ []

module _ (python : Python) where
  abbrev pub display_text : Json → String
  display_text null = ""
  display_text value = python.str_of value

  unfoldable pub sanitize_display : Json → ℕ → String
  unfolding truncate replace_backticks strip_controls
  sanitize_display value max_length =
      truncate max_length (replace_backticks (strip_controls (display_text value)))

  unfoldable pub is_suspicious_command : String → Bool
  unfolding contains
  is_suspicious_command command =
      any_of (λ candidate. contains (python.lower command) candidate) interesting_commands
