-- ===== src/Archive/Records.antt =====
-- `complete_records` of native/s3-archive.py: the LF-terminated records of a byte string.
pub mod Splitting
use swarm_kill_chain_medium.Prelude.{
  ℕ, zero, suc, ◌+◌, Option, none, some, List, [], ◌∷◌, ◌==◌, length, take, drop, if◌then◌else◌,
}
use mathlib.Core.Option
use swarm_kill_chain_medium.Prelude.Text.{Bytes}

abbrev pub lf : ℕ
lf = 10

-- `data.find(b"\n")`; the index counts from the head of the list.
unfoldable pub find_lf : Bytes → Option ℕ
find_lf [] = none
find_lf (b ∷ rest) = if b == lf then some 0 else Option.map suc (find_lf rest)

-- The generator from a cursor on; `rest` is `data[cursor:]`. A round of the loop takes one of the
-- rounds of fuel.
unfoldable pub records_from : ℕ → ℕ → Bytes → List (ℕ × Bytes)
unfolding find_lf
records_from zero cursor rest = []
records_from (suc fuel) cursor rest = elim (find_lf rest) [
  | none ↦ []
  | some newline ↦
      (cursor + suc newline, take (suc newline) rest)
      ∷ records_from fuel (cursor + suc newline) (drop (suc newline) rest)
]

-- Every round consumes a byte at least, so the length of the data is fuel enough.
unfoldable pub complete_records : Bytes → List (ℕ × Bytes)
unfolding records_from
complete_records rest = records_from (length rest) 0 rest
