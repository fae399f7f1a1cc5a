-- ===== src/Sdk/Scan/Slots.antt =====
-- The slots that the batches of a scan fill, and its chunks as those of the splitter.
use verdikt.Base.{
  ℕ, zero, suc, ◌+◌, ◌≡◌, refl, sym, ap, ◌∙◌, List, [], ◌∷◌, ◌++◌, Option, none, some, length,
  replicate, map, append_assoc, append-nil, length-append, arith,
}
use verdikt.Cre.LogRange.{chunk_loop}
use verdikt.Sdk.Scan.{scan_chunks, put, put_all}

pub scan_chunks-chunk_loop :
    (fuel from latest max_range : ℕ)
    → scan_chunks fuel from latest max_range ≡ chunk_loop fuel from latest max_range
unfolding scan_chunks chunk_loop
scan_chunks-chunk_loop zero from latest max_range = refl
scan_chunks-chunk_loop (suc fuel) from latest max_range =
    rw (scan_chunks-chunk_loop fuel (from + max_range) latest max_range) refl

module _ {Log : Type 0} where
  -- The first pages are written, and as many slots as `rest` counts are holes.
  abbrev pub written : List (List Log) → ℕ → List (Option (List Log))
  written pages rest = map some pages ++ replicate rest none

  put-written :
      (pages : List (List Log)) (rest : ℕ) (page : List Log)
      → put (written pages (suc rest)) (length pages) page ≡ written (pages ++ page ∷ []) rest
  put-written [] rest page = refl
  put-written (p ∷ pages) rest page = ap (λ slots. some p ∷ slots) (put-written pages rest page)

  pub put_all-written :
      (pages results : List (List Log)) (rest : ℕ)
      → put_all (written pages (length results + rest)) (length pages) results
        ≡ written (pages ++ results) rest
  put_all-written pages [] rest =
      let same : 0 + rest ≡ rest = omega arith in
      ap (written pages) same ∙ ap (λ ps. written ps rest) (sym (append-nil pages))
  put_all-written pages (r ∷ results) rest =
      let slots : suc (length results) + rest ≡ suc (length results + rest) = omega arith in
      let counted : suc (length pages) ≡ length (pages ++ r ∷ []) =
        omega (arith, length-append pages (r ∷ [])) in
      ap (λ m. put_all (put (written pages m) (length pages) r) (suc (length pages)) results) slots
      ∙ ap (λ s. put_all s (suc (length pages)) results)
          (put-written pages (length results + rest) r)
      ∙ ap (λ i. put_all (written (pages ++ r ∷ []) (length results + rest)) i results) counted
      ∙ put_all-written (pages ++ r ∷ []) results rest
      ∙ ap (λ ps. written ps rest) (append_assoc pages (r ∷ []) results)
