-- ===== src/Sdk/Scan.antt =====
-- packages/sdk/arc.js, the log scan of `createRegistryReader`: the range in chunks, the chunks in
-- batches that are asked for at once, and the pages written each into its own slot. The reader of
-- the logs of one chunk is a parameter; it gives none where it throws.
pub mod Slots
pub mod Ordered
mod Examples
use verdikt.Base.{
  ℕ, zero, suc, ◌+◌, ◌-◌, Bool, true, false, List, [], ◌∷◌, ◌++◌, Option, none, some, length, take,
  drop, replicate, ltb, leb, if◌then◌else◌,
}
use verdikt.Cre.LogRange.{Chunk}

-- The loop over the range; its fuel counts the blocks that are left.
unfoldable pub scan_chunks : ℕ → ℕ → ℕ → ℕ → List Chunk
scan_chunks zero from latest max_range = []
scan_chunks (suc fuel) from latest max_range =
    let end = from + max_range - 1 in
    let rest = scan_chunks fuel (from + max_range) latest max_range in
    let chunk : Chunk = record { from = from; to = if ltb latest end then latest else end } in
    if leb from latest then chunk ∷ rest else []

abbrev pub and_then : {A B : Type 0} → Option A → (A → Option B) → Option B
and_then none next = none
and_then (some a) next = next a

module _ {Log : Type 0} where
  -- `pages[i] = page`; a slot that is not written is a hole, which `flat` skips.
  abbrev pub put : List (Option (List Log)) → ℕ → List Log → List (Option (List Log))
  put [] zero page = some page ∷ []
  put [] (suc i) page = none ∷ put [] i page
  put (slot ∷ slots) zero page = some page ∷ slots
  put (slot ∷ slots) (suc i) page = slot ∷ put slots i page

  abbrev pub put_all : List (Option (List Log)) → ℕ → List (List Log) → List (Option (List Log))
  put_all slots i [] = slots
  put_all slots i (page ∷ pages) = put_all (put slots i page) (suc i) pages

  abbrev pub flat : List (Option (List Log)) → List Log
  flat [] = []
  flat (none ∷ slots) = flat slots
  flat (some page ∷ slots) = page ++ flat slots

  module _ (get_logs : Chunk → Option (List Log)) where
    -- `Promise.all`: the pages in the order of the chunks, unless one request fails.
    unfoldable pub all_of : List Chunk → Option (List (List Log))
    all_of [] = some []
    all_of (chunk ∷ chunks) =
        and_then (get_logs chunk) λ page. and_then (all_of chunks) λ pages. some (page ∷ pages)

    -- The loop over the batches; its fuel counts the chunks that are left.
    unfoldable pub scan_batches :
        ℕ → ℕ → ℕ → List (Option (List Log)) → List Chunk → Option (List (Option (List Log)))
    unfolding all_of
    scan_batches concurrency zero i slots chunks = some slots
    scan_batches concurrency (suc fuel) i slots chunks =
        let next = and_then (all_of (take concurrency (drop i chunks))) λ results.
          scan_batches concurrency fuel (i + concurrency) (put_all slots i results) chunks in
        if ltb i (length chunks) then next else some slots

    unfoldable pub scan : ℕ → ℕ → ℕ → ℕ → Option (List Log)
    unfolding scan_chunks scan_batches
    scan concurrency max_range start latest =
        let chunks = scan_chunks (suc latest - start) start latest max_range in
        and_then
          (scan_batches concurrency (length chunks) 0 (replicate (length chunks) none) chunks)
          λ slots. some (flat slots)
