-- ===== src/Cre/LogRange/Examples.antt =====
-- Runs of the splitter, and the theorems at them.
use verdikt.Base.{All}
use verdikt.Cre.LogRange.Cover.{
  blocks, count_from, Fits, blocks-block_range_chunks, block_range_chunks-Fits,
}
use verdikt.Base.{◌≡◌, refl, List, [], ◌∷◌, ok}
use verdikt.Cre.LogRange.{Chunk, block_range_chunks}
use verdikt.Base.{All}

abbrev scan : List Chunk
scan =
    (record { from = 5; to = 8 })
    ∷ (record { from = 9; to = 12 })
    ∷ (record { from = 13; to = 14 })
    ∷ []

scan_lem : block_range_chunks 5 14 4 ≡ ok scan
unfolding block_range_chunks
scan_lem = refl

blocks-block_range_chunks_example : blocks scan ≡ count_from 5 10
blocks-block_range_chunks_example = blocks-block_range_chunks 5 14 4 scan scan_lem

block_range_chunks-Fits_example : All (Fits 4) scan
block_range_chunks-Fits_example = block_range_chunks-Fits 5 14 4 scan scan_lem
