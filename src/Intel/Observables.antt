-- ===== src/Intel/Observables.antt =====
-- native/threat_intel/observables.py: what may be asked of a provider. `ipaddress` is a parameter.
use Prim.Native.Char.{code}
use swarm_kill_chain_medium.Prelude.{
  ℕ, suc, zero, String, Bool, true, false, ◌&&◌, ◌||◌, Option, none, some, leb, ◌==◌,
  string_equality, if◌then◌else◌,
}
use swarm_kill_chain_medium.Json.{Json, str, Python}

-- An address object: what `str` gives of it, and its tests.
pub record Address : Type 0 where
  pub text : String
  pub is_private : Bool
  pub is_reserved : Bool
  pub is_loopback : Bool
  pub is_link_local : Bool
  pub is_multicast : Bool
  pub is_unspecified : Bool

unfoldable pub is_excluded : Address → Bool
is_excluded a =
    a.is_private || a.is_reserved || a.is_loopback || a.is_link_local || a.is_multicast
    || a.is_unspecified

abbrev pub public_only : Option Address → Option Address
public_only none = none
public_only (some address) = if is_excluded address then none else some address

abbrev pub is_blank : String → Bool
is_blank s = string_equality.equal s ""

abbrev is_hex : ℕ → Bool
is_hex c = (leb b'0' c && leb c b'9') || (leb b'a' c && leb c b'f') || (leb b'A' c && leb c b'F')

-- The pattern `^[0-9a-fA-F]{64}$` from a count of digits to come; `$` matches before a last line feed.
unfoldable pub is_digits : ℕ → String → Bool
is_digits zero String.[] = true
is_digits zero (String.◌∷◌ c String.[]) = code c == 10
is_digits zero (String.◌∷◌ c (String.◌∷◌ d s)) = false
is_digits (suc n) String.[] = false
is_digits (suc n) (String.◌∷◌ c s) = is_hex (code c) && is_digits n s

module _ (python : Python) (ip_address : String → Option Address) where
  unfoldable pub parse_public_ip : Json → Option Address
  unfolding is_excluded
  parse_public_ip (str candidate) =
      if is_blank candidate || is_blank (python.strip candidate)
      then none
      else public_only (ip_address (python.strip candidate))
  parse_public_ip _ = none

module _ (python : Python) where
  unfoldable pub parse_sha256 : Json → Option String
  unfolding is_digits
  parse_sha256 (str candidate) =
      if is_blank candidate
      then none
      else if is_digits 64 (python.strip candidate)
      then some (python.lower (python.strip candidate))
      else none
  parse_sha256 _ = none
