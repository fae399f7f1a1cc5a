-- ===== src/Sdk/Scan/Examples.antt =====
-- A scan, run, and the theorem at it.
use verdikt.Base.{
  ℕ, suc, ◌-◌, ◌≡◌, refl, List, [], ◌∷◌, Option, some, arith, none, ltb, false, if◌then◌else◌, ◌+◌,
}
use verdikt.Cre.LogRange.{Chunk}
use verdikt.Cre.LogRange.Cover.{blocks_of, count_from, Fits}
use verdikt.Sdk.Scan.{scan}
use verdikt.Sdk.Scan.Ordered.{logs_of, scan-ordered}

-- A block has one log, its number.
abbrev block_log : ℕ → List ℕ
block_log block = block ∷ []

-- A reader that refuses a range of more than two blocks.
unfoldable get_block_logs : Chunk → Option (List ℕ)
get_block_logs chunk =
    if ltb (chunk.from + 1) chunk.to then none else some (logs_of block_log (blocks_of chunk))

refused_range : get_block_logs (record { from = 10; to = 12 }) ≡ none
unfolding get_block_logs
refused_range = refl

get_block_logs-answers :
    (chunk : Chunk)
    → Fits 2 chunk
    → get_block_logs chunk ≡ some (logs_of block_log (blocks_of chunk))
unfolding get_block_logs
get_block_logs-answers chunk (filled, short) =
    let narrow : ltb (chunk.from + 1) chunk.to ≡ false = ground arith in rw narrow refl

three_batches :
    scan get_block_logs 2 2 10 18 ≡ some (10 ∷ 11 ∷ 12 ∷ 13 ∷ 14 ∷ 15 ∷ 16 ∷ 17 ∷ 18 ∷ [])
unfolding scan get_block_logs
three_batches = refl

scan-ordered_example :
    scan get_block_logs 2 2 10 18 ≡ some (logs_of block_log (count_from 10 (suc 18 - 10)))
scan-ordered_example =
    scan-ordered get_block_logs block_log 2 get_block_logs-answers 2 10 18 (omega arith)
      (omega arith)
