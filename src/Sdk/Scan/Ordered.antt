-- ===== src/Sdk/Scan/Ordered.antt =====
-- A scan finds the logs of the range in the order of the blocks.
use verdikt.Base.{
  take-drop, length-drop, ℕ, zero, suc, ◌+◌, ◌-◌, ◌≤◌, ◌<◌, ◌≡◌, refl, sym, ap, ◌∙◌, true, false,
  List, [], ◌∷◌, ◌++◌, Option, some, length, take, drop, min, ltb, leb, Bool-cases, inl, inr,
  if◌then◌else◌, map, append_assoc, append-nil, length-append, length-take, arith, All, subst,
}
use verdikt.Cre.LogRange.{Chunk}
use verdikt.Cre.LogRange.Cover.{
  blocks, blocks_of, count_from, blocks-chunk_loop, Fits, chunk_loop-Fits,
}
use verdikt.Sdk.Scan.{scan_chunks, put_all, flat, and_then, all_of, scan_batches, scan}
use verdikt.Sdk.Scan.Slots.{scan_chunks-chunk_loop, written, put_all-written}

module _ {Log : Type 0} where
  -- The logs of some blocks, in the order of the blocks.
  abbrev pub logs_of : (ℕ → List Log) → List ℕ → List Log
  logs_of logs_at [] = []
  logs_of logs_at (b ∷ bs) = logs_at b ++ logs_of logs_at bs

  module _ (get_logs : Chunk → Option (List Log)) (logs_at : ℕ → List Log) (max_range : ℕ)
      (answers : (chunk : Chunk)
        → Fits max_range chunk
        → get_logs chunk ≡ some (logs_of logs_at (blocks_of chunk))) where
    abbrev page : Chunk → List Log
    page chunk = logs_of logs_at (blocks_of chunk)

    abbrev AllFit : List Chunk → Type 0
    AllFit = All (Fits max_range)

    all_of-pages :
        (chunks : List Chunk) → AllFit chunks → all_of get_logs chunks ≡ some (map page chunks)
    unfolding all_of
    all_of-pages [] fits = refl
    all_of-pages (chunk ∷ chunks) (fit, fits) =
        rw (answers chunk fit) (rw (all_of-pages chunks fits) refl)

    take-AllFit : (n : ℕ) (chunks : List Chunk) → AllFit chunks → AllFit (take n chunks)
    take-AllFit zero chunks fits = tt
    take-AllFit (suc n) [] fits = tt
    take-AllFit (suc n) (chunk ∷ chunks) (fit, fits) = (fit, take-AllFit n chunks fits)

    drop-AllFit : (n : ℕ) (chunks : List Chunk) → AllFit chunks → AllFit (drop n chunks)
    drop-AllFit zero chunks fits = fits
    drop-AllFit (suc n) [] fits = tt
    drop-AllFit (suc n) (chunk ∷ chunks) (fit, fits) = drop-AllFit n chunks fits

    map-append : (xs ys : List Chunk) → map page (xs ++ ys) ≡ map page xs ++ map page ys
    map-append [] ys = refl
    map-append (x ∷ xs) ys = ap (λ ps. page x ∷ ps) (map-append xs ys)

    length-map : (xs : List Chunk) → length (map page xs) ≡ length xs
    length-map [] = refl
    length-map (x ∷ xs) = ap suc (length-map xs)

    drop-append : (xs ys : List Chunk) → drop (length xs) (xs ++ ys) ≡ ys
    drop-append [] ys = refl
    drop-append (x ∷ xs) ys = drop-append xs ys

    past_end :
        (concurrency fuel i : ℕ) (slots : List (Option (List Log))) (chunks : List Chunk)
        → length chunks ≤ i
        → scan_batches get_logs concurrency fuel i slots chunks ≡ some slots
    unfolding scan_batches
    past_end concurrency zero i slots chunks h = refl
    past_end concurrency (suc fuel) i slots chunks h =
        let ended : ltb i (length chunks) ≡ false = ground arith in rw ended refl

    -- One batch from the chunks that are left.
    batch :
        (concurrency fuel : ℕ) (first rest : List Chunk)
        → 0 < length rest
        → AllFit rest
        → scan_batches get_logs concurrency
            (suc fuel)
            (length first)
            (written (map page first) (length rest))
            (first ++ rest)
          ≡ scan_batches get_logs concurrency fuel
              (length first + concurrency)
              (written (map page (first ++ take concurrency rest)) (length (drop concurrency rest)))
              (first ++ rest)
    unfolding scan_batches
    batch concurrency fuel first rest h fits =
        let going : ltb (length first) (length (first ++ rest)) ≡ true =
          ground (arith, length-append first rest) in
        let asked : all_of get_logs (take concurrency (drop (length first) (first ++ rest)))
            ≡ some (map page (take concurrency rest)) =
          ap (λ cs. all_of get_logs (take concurrency cs)) (drop-append first rest)
          ∙ all_of-pages (take concurrency rest) (take-AllFit concurrency rest fits) in
        let next = λ (results : List (List Log)).
          scan_batches get_logs concurrency fuel (length first + concurrency)
            (put_all (written (map page first) (length rest)) (length first) results)
            (first ++ rest) in
        ap
          (λ b.
            if b
            then and_then (all_of get_logs (take concurrency (drop (length first) (first ++ rest))))
                next
            else some (written (map page first) (length rest)))
          going
        ∙ ap (λ o. and_then o next) asked
        ∙ ap
            (λ slots.
              scan_batches get_logs concurrency fuel (length first + concurrency) slots
                (first ++ rest))
            (filled (take concurrency rest) (drop concurrency rest) (take-drop concurrency rest))
      where
        filled :
            (now later : List Chunk)
            → now ++ later ≡ rest
            → put_all (written (map page first) (length rest)) (length first) (map page now)
              ≡ written (map page (first ++ now)) (length later)
        filled now later e =
            let count : length rest ≡ length (map page now) + length later =
              ap length (sym e)
              ∙ length-append now later
              ∙ ap (λ n. n + length later) (sym (length-map now)) in
            ap (λ n. put_all (written (map page first) n) (length first) (map page now)) count
            ∙ ap
                (λ i.
                  put_all (written (map page first) (length (map page now) + length later)) i
                    (map page now))
                (sym (length-map first))
            ∙ put_all-written (map page first) (map page now) (length later)
            ∙ ap (λ ps. written ps (length later)) (sym (map-append first now))

    batches-all :
        (more fuel : ℕ) (first rest : List Chunk)
        → length rest ≤ fuel
        → AllFit rest
        → scan_batches get_logs
            (suc more)
            fuel
            (length first)
            (written (map page first) (length rest))
            (first ++ rest)
          ≡ some (map some (map page (first ++ rest)))
    batches-all more fuel first [] h fits =
        past_end (suc more) fuel (length first) (written (map page first) 0) (first ++ [])
          (omega (arith, length-append first []))
        ∙ ap some (
            append-nil (map some (map page first))
            ∙ ap (λ cs. map some (map page cs)) (sym (append-nil first)))
    batches-all more zero first (r ∷ rs) h fits = elim (none_left (length rs) h) [ ]
      where
        none_left : (n : ℕ) → suc n ≤ 0 → ⊥
        none_left n h = omega arith
    batches-all more (suc fuel) first (r ∷ rs) h fits =
        batch (suc more) fuel first (r ∷ rs) (omega arith) fits
        ∙ by_size (take (suc more) (r ∷ rs)) (drop (suc more) (r ∷ rs))
            (take-drop (suc more) (r ∷ rs)) (length-take (suc more) (r ∷ rs))
            (length-drop (suc more) (r ∷ rs)) (drop-AllFit (suc more) (r ∷ rs) fits)
            (λ now later l fit. batches-all more fuel (first ++ now) later l fit)
      where
        empty : (cs : List Chunk) → length cs ≡ 0 → cs ≡ []
        empty [] e = refl
        empty (c ∷ cs) e = elim (positive (length cs) e) [ ]
          where
            positive : (n : ℕ) → suc n ≡ 0 → ⊥
            positive n e = omega arith

        by_size :
            (now later : List Chunk)
            → now ++ later ≡ r ∷ rs
            → length now ≡ min (suc more) (suc (length rs))
            → length later ≡ suc (length rs) - suc more
            → AllFit later
            → ((now later : List Chunk)
                → length later ≤ fuel
                → AllFit later
                → scan_batches get_logs
                    (suc more)
                    fuel
                    (length (first ++ now))
                    (written (map page (first ++ now)) (length later))
                    ((first ++ now) ++ later)
                  ≡ some (map some (map page ((first ++ now) ++ later))))
            → scan_batches get_logs
                (suc more)
                fuel
                (length first + suc more)
                (written (map page (first ++ now)) (length later))
                (first ++ r ∷ rs)
              ≡ some (map some (map page (first ++ r ∷ rs)))
        by_size now later e l m fit again = elim (Bool-cases (leb (suc (length rs)) (suc more))) [
          | inl small ↦
              let over : length later ≡ 0 = ground arith in
              let whole : now ≡ r ∷ rs =
                sym (append-nil now) ∙ ap (λ cs. now ++ cs) (sym (empty later over)) ∙ e in
              past_end (suc more) fuel (length first + suc more)
                (written (map page (first ++ now)) (length later)) (first ++ r ∷ rs)
                (ground (arith, length-append first (r ∷ rs)))
              ∙ ap (λ k. some (written (map page (first ++ now)) k)) over
              ∙ ap some (append-nil (map some (map page (first ++ now))))
              ∙ ap (λ cs. some (map some (map page (first ++ cs)))) whole
          | inr large ↦
              let counted : length (first ++ now) ≡ length first + length now =
                length-append first now in
              let next : length first + suc more ≡ length (first ++ now) = ground arith in
              let same : first ++ r ∷ rs ≡ (first ++ now) ++ later =
                ap (λ cs. first ++ cs) (sym e) ∙ sym (append_assoc first now later) in
              ap
                (λ i.
                  scan_batches get_logs (suc more) fuel i
                    (written (map page (first ++ now)) (length later)) (first ++ r ∷ rs))
                next
              ∙ ap
                  (λ cs.
                    scan_batches get_logs (suc more) fuel (length (first ++ now))
                      (written (map page (first ++ now)) (length later)) cs)
                  same
              ∙ again now later (ground arith) fit
              ∙ ap (λ cs. some (map some (map page cs))) (sym same)
        ]

    logs_of-append :
        (xs ys : List ℕ) → logs_of logs_at (xs ++ ys) ≡ logs_of logs_at xs ++ logs_of logs_at ys
    logs_of-append [] ys = refl
    logs_of-append (b ∷ bs) ys =
        ap (λ ls. logs_at b ++ ls) (logs_of-append bs ys)
        ∙ sym (append_assoc (logs_at b) (logs_of logs_at bs) (logs_of logs_at ys))

    flat-pages :
        (chunks : List Chunk) → flat (map some (map page chunks)) ≡ logs_of logs_at (blocks chunks)
    flat-pages [] = refl
    flat-pages (c ∷ cs) =
        ap (λ ls. page c ++ ls) (flat-pages cs) ∙ sym (logs_of-append (blocks_of c) (blocks cs))

    scan_chunks-blocks :
        (start latest : ℕ)
        → 0 < max_range
        → blocks (scan_chunks (suc latest - start) start latest max_range)
          ≡ count_from start (suc latest - start)
    scan_chunks-blocks start latest h =
        ap blocks (scan_chunks-chunk_loop (suc latest - start) start latest max_range)
        ∙ blocks-chunk_loop (suc latest - start) start latest max_range h (omega arith)

    scan_chunks-AllFit :
        (start latest : ℕ)
        → 0 < max_range
        → AllFit (scan_chunks (suc latest - start) start latest max_range)
    scan_chunks-AllFit start latest h =
        subst AllFit (sym (scan_chunks-chunk_loop (suc latest - start) start latest max_range))
          (chunk_loop-Fits (suc latest - start) start latest max_range h)

    -- Where the reader answers, in the order of the blocks, for each range that is not empty and
    -- spans at most `max_range` blocks, whatever it does with a wider one, a scan finds the logs of
    -- exactly the blocks from the first to the last, each once and in ascending order, however many
    -- requests run at once.
    pub scan-ordered :
        (concurrency start latest : ℕ)
        → 0 < concurrency
        → 0 < max_range
        → scan get_logs concurrency max_range start latest
          ≡ some (logs_of logs_at (count_from start (suc latest - start)))
    unfolding scan
    scan-ordered zero start latest c h = elim (none_left c) [ ]
      where
        none_left : 0 < 0 → ⊥
        none_left h = omega arith
    scan-ordered (suc more) start latest c h =
        let chunks = scan_chunks (suc latest - start) start latest max_range in
        ap (λ o. and_then o (λ slots. some (flat slots)))
          (batches-all more (length chunks) [] chunks (omega arith)
            (scan_chunks-AllFit start latest h))
        ∙ ap some (flat-pages chunks ∙ ap (logs_of logs_at) (scan_chunks-blocks start latest h))
