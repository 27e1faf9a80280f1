-- ===== src/Archive/Address.antt =====
-- Content addresses of native/s3-archive.py: digests, and the object keys that name one.
use swarm_kill_chain_medium.Prelude.{
  ℕ, Bool, true, ◌&&◌, ◌||◌, [], ◌∷◌, ◌++◌, ◌==◌, leb, length, if◌then◌else◌,
}
use swarm_kill_chain_medium.Prelude.Text.{Text, same, codes}

-- `key.rsplit("/", 1)[-1]`, by the part read since the last slash.
abbrev pub file_name_after : Text → Text → Text
file_name_after part [] = part
file_name_after part (c ∷ rest) = file_name_after (if c == b'/' then [] else part ++ c ∷ []) rest

-- The pattern `(?:^|-)digest\.json$` at some place of the name: `$` also matches before a last LF.
unfoldable pub address_found : Bool → Text → Text → Bool
address_found at_start [] suffix = at_start && same [] suffix
address_found at_start (c ∷ rest) suffix =
    (at_start && (same (c ∷ rest) suffix || same (c ∷ rest) (suffix ++ 10 ∷ [])))
    || address_found (c == b'-') rest suffix

unfoldable pub content_address_matches : Text → Text → Bool
unfolding address_found
content_address_matches key digest =
    address_found true (file_name_after [] key) (digest ++ codes ".json")

-- `key.endswith(...)`
unfoldable pub ends_with : Text → Text → Bool
ends_with [] suffix = same [] suffix
ends_with (c ∷ rest) suffix = same (c ∷ rest) suffix || ends_with rest suffix

abbrev pub is_hex : ℕ → Bool
is_hex c = (leb b'0' c && leb c b'9') || (leb b'a' c && leb c b'f')

abbrev pub all_hex : Text → Bool
all_hex [] = true
all_hex (c ∷ rest) = is_hex c && all_hex rest

-- `re.fullmatch(r"[0-9a-f]{64}", digest)`
unfoldable pub is_digest : Text → Bool
is_digest digest = (length digest == 64) && all_hex digest
