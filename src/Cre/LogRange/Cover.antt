-- ===== src/Cre/LogRange/Cover.antt =====
-- The chunks cover the requested range, each block once and in order, and none is too wide.
use verdikt.Base.{
  ℕ, zero, suc, ◌+◌, ◌-◌, ◌≤◌, ◌<◌, ◌≡◌, refl, ◌∙◌, ap, List, [], ◌∷◌, ◌++◌, ok, arith, leb, ◌≡⟨◌⟩◌,
  ◌∎, Bool-cases, All, inl, inr,
}
use verdikt.Cre.LogRange.{Chunk, chunk_loop, block_range_chunks}
use verdikt.Base.{◌⊎◌}
use verdikt.Base.{append-nil}

-- The numbers from, from + 1, ..., `n` of them.
abbrev pub count_from : ℕ → ℕ → List ℕ
count_from from zero = []
count_from from (suc n) = from ∷ count_from (suc from) n

-- The blocks that one `eth_getLogs` call over an inclusive range answers for.
abbrev pub blocks_of : Chunk → List ℕ
blocks_of c = count_from c.from (suc c.to - c.from)

abbrev pub blocks : List Chunk → List ℕ
blocks [] = []
blocks (c ∷ cs) = blocks_of c ++ blocks cs

count_from_eq : (a b m n : ℕ) → a ≡ b → m ≡ n → count_from a m ≡ count_from b n
count_from_eq a b m n p q = cc

count_from-append : (a m n : ℕ) → count_from a m ++ count_from (a + m) n ≡ count_from a (m + n)
count_from-append a zero n = count_from_eq (a + 0) a n (0 + n) (omega arith) (omega arith)
count_from-append a (suc m) n =
    a ∷ (count_from (suc a) m ++ count_from (a + suc m) n)
    ≡⟨ ap (λ l. a ∷ (count_from (suc a) m ++ l))
        (count_from_eq (a + suc m) (suc a + m) n n (omega arith) refl) ⟩
      a ∷ (count_from (suc a) m ++ count_from (suc a + m) n)
    ≡⟨ ap (λ l. a ∷ l) (count_from-append (suc a) m n) ⟩ count_from a (suc (m + n))
    ≡⟨ count_from_eq a a (suc (m + n)) (suc m + n) refl (omega arith) ⟩ count_from a (suc m + n) ∎

-- Two runs that meet, or of which the second is empty, make one.
count_from_glue :
    (a b m n t : ℕ)
    → (n ≡ 0) ⊎ (b ≡ a + m)
    → m + n ≡ t
    → count_from a m ++ count_from b n ≡ count_from a t
count_from_glue a b m n t (inl e) h = rw e (append-nil _ ∙ count_from_eq a a m t refl (omega arith))
count_from_glue a b m n t (inr e) h =
    ap (λ l. count_from a m ++ l) (count_from_eq b (a + m) n n e refl)
    ∙ count_from-append a m n
    ∙ count_from_eq a a (m + n) t refl h

abbrev pub Fits : ℕ → Chunk → Type 0
Fits max_range c = (c.from ≤ c.to) × (c.to < c.from + max_range)

pub chunk_loop-Fits :
    (fuel from to_block max_range : ℕ)
    → 0 < max_range
    → All (Fits max_range) (chunk_loop fuel from to_block max_range)
unfolding chunk_loop
chunk_loop-Fits zero from to_block max_range h = tt
chunk_loop-Fits (suc fuel) from to_block max_range h =
    ground (arith, chunk_loop-Fits fuel (from + max_range) to_block max_range)

pub blocks-chunk_loop :
    (fuel from to_block max_range : ℕ)
    → 0 < max_range
    → suc to_block - from ≤ fuel
    → blocks (chunk_loop fuel from to_block max_range) ≡ count_from from (suc to_block - from)
unfolding chunk_loop
blocks-chunk_loop zero from to_block max_range h k = rw (empty) refl
  where
    empty : suc to_block - from ≡ 0
    empty = omega arith
blocks-chunk_loop (suc fuel) from to_block max_range h k = elim (Bool-cases (leb from to_block)) [
  | inl going ↦
      rw (going, blocks-chunk_loop fuel (from + max_range) to_block max_range h (ground arith))
        (count_from_glue from (from + max_range) _ _ _ (ground arith) (ground arith))
  | inr done ↦ rw done (count_from_eq from from 0 _ refl (ground arith))
]

block_range_chunks-eq-ok :
    (from_block to_block max_range : ℕ) (chunks : List Chunk)
    → block_range_chunks from_block to_block max_range ≡ ok chunks
    → (0 < max_range)
      × (chunk_loop (suc to_block - from_block) from_block to_block max_range ≡ chunks)
unfolding block_range_chunks
block_range_chunks-eq-ok from_block to_block max_range chunks h = ground arith

-- The chunks of a scan answer for exactly the blocks from the first to the last, each once and in
-- ascending order.
pub blocks-block_range_chunks :
    (from_block to_block max_range : ℕ) (chunks : List Chunk)
    → block_range_chunks from_block to_block max_range ≡ ok chunks
    → blocks chunks ≡ count_from from_block (suc to_block - from_block)
blocks-block_range_chunks from_block to_block max_range chunks h =
    let (wide, made) = block_range_chunks-eq-ok from_block to_block max_range chunks h in
    rw (← made) (blocks-chunk_loop _ from_block to_block max_range wide (omega arith))

-- Every chunk is a range that is not empty and spans at most `max_range` blocks.
pub block_range_chunks-Fits :
    (from_block to_block max_range : ℕ) (chunks : List Chunk)
    → block_range_chunks from_block to_block max_range ≡ ok chunks
    → All (Fits max_range) chunks
block_range_chunks-Fits from_block to_block max_range chunks h =
    let (wide, made) = block_range_chunks-eq-ok from_block to_block max_range chunks h in
    rw (← made) (chunk_loop-Fits (suc to_block - from_block) from_block to_block max_range wide)
