-- ===== src/Cre/LogRange.antt =====
-- cre/lib/log-range.js: splitting a log scan into ranges that an RPC answers. Block numbers are
-- naturals; a range width of 0 is the only one that is not positive.
pub mod Cover
mod Examples
use verdikt.Base.{
  ℕ, zero, suc, ◌+◌, ◌-◌, List, [], ◌∷◌, Result, ok, throw, ltb, leb, ◌==◌, if◌then◌else◌,
}

pub record Chunk : Type 0 where
  pub from : ℕ
  pub to : ℕ

pub data ChunkError : Type 0 where
  range_not_positive : ℕ → ChunkError

-- The loop; its fuel counts the blocks that are left.
unfoldable pub chunk_loop : ℕ → ℕ → ℕ → ℕ → List Chunk
chunk_loop zero from to_block max_range = []
chunk_loop (suc fuel) from to_block max_range =
    let end = from + max_range - 1 in
    let rest = chunk_loop fuel (from + max_range) to_block max_range in
    let chunk : Chunk = record { from = from; to = if ltb to_block end then to_block else end } in
    if leb from to_block then chunk ∷ rest else []

unfoldable pub block_range_chunks : ℕ → ℕ → ℕ → Result ChunkError (List Chunk)
unfolding chunk_loop
block_range_chunks from_block to_block max_range =
    if max_range == 0
    then throw (range_not_positive max_range)
    else ok (chunk_loop (suc to_block - from_block) from_block to_block max_range)
