-- ===== src/Archive/Reader.antt =====
-- `read_at` of native/s3-archive.py: a bounded read in chunks. The source can change between two
-- chunks, so a read takes the content that each chunk sees. The offsets and lengths are natural
-- numbers: the callers never pass negative ones.
pub mod Laws
use swarm_kill_chain_medium.Prelude.{
  ℕ, zero, suc, ◌+◌, ◌-◌, List, [], ◌∷◌, ◌++◌, ◌==◌, min, length, take, drop,
}
use swarm_kill_chain_medium.Prelude.Text.{Bytes}

abbrev pub read_chunk_bytes : ℕ
read_chunk_bytes = 1048576

-- What `handle.read(n)` returns at a position: at most `n` bytes, and none at the end of the file.
abbrev pub file_read : Bytes → ℕ → ℕ → Bytes
file_read content position n = take n (drop position content)

-- `while remaining`; `seen k` is the content that the k-th chunk sees. Each round takes one of the
-- rounds of fuel.
unfoldable pub read_loop : ℕ → (ℕ → Bytes) → ℕ → ℕ → ℕ → Bytes
read_loop zero seen k position remaining = []
read_loop (suc fuel) seen k position remaining =
    let chunk = file_read (seen k) position (min read_chunk_bytes remaining) in
    elim chunk [
      | [] ↦ []
      | b ∷ bs ↦
          (b ∷ bs)
          ++ read_loop fuel seen (k + 1) (position + length (b ∷ bs)) (remaining - length (b ∷ bs))
    ]

-- A chunk has a byte at least, so `n` rounds are enough.
unfoldable pub read_at : (ℕ → Bytes) → ℕ → ℕ → Bytes
unfolding read_loop
read_at seen start n = read_loop n seen 0 start n
