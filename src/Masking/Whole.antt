-- ===== src/Masking/Whole.antt =====
-- `Mask` (internal/masking/cascade.go) as a whole, with the workers in any order.
use mathlib.Core.List.{Permᴰ}
use mathlib.Core.List.Permᴰ
use alpha_proxy.Masking.Cascade.{
  ChunkJob, chunk_jobs, process_chunk, gather, detect_all, mask, analyze_rules,
  rule_entities_to_pii,
}
use alpha_proxy.Masking.Cascade.Checks.{IsFound, rule_entities-IsFound, chunk_entities-IsFound}
use alpha_proxy.Masking.Cascade.Parallel.{Finds, detect_all-any-order, chunk_jobs-Numbered}
use alpha_proxy.Masking.RoundTrip.{mask_entities-IsMasked}
use alpha_proxy.Ml.Chunker.{ChunkConfig, TextChunk, split_text}
use alpha_proxy.Ml.Chunker.Starts.{split_text-within}
use alpha_proxy.Pii.{background, ok, Entity, Policy, Result, TokenMapping, >>=-eq-ok}
use alpha_proxy.Prelude.{
  ℕ, suc, ◌≤◌, Bytes, List, [], ◌∷◌, true, false, ◌≡◌, refl, arith, All, All-append, length, ◌==◌,
  if◌then◌else◌,
}
use alpha_proxy.Rules.Residual.{build}
use alpha_proxy.Rules.Spans.{ResolvedEntity}
use alpha_proxy.Tokenizer.Detokenizer.{detokenize}
use alpha_proxy.Tokenizer.Detokenizer.Tokens.{NoToken}
use alpha_proxy.Tokenizer.Span.{slice}
use alpha_proxy.Utf8.{valid_string}

module _ (engine : Bytes → List ResolvedEntity)
    (detect : ℕ → Bytes → Bytes → Result (List ResolvedEntity)) (found : ℕ → List Entity)
    (text : Bytes) where
  gather-IsFound :
      (residual : Bytes) (i : ℕ) (chunks : List TextChunk)
      → All (λ t. t.start_byte ≤ length text) chunks
      → All (Finds engine detect found) (chunk_jobs text residual i chunks)
      → All (IsFound text) (gather found i (length (chunk_jobs text residual i chunks)))
  unfolding chunk_jobs gather process_chunk
  gather-IsFound residual i [] w h = tt
  gather-IsFound residual i (c ∷ cs) (w, ws) (h, hs) =
      let job : ChunkJob = record {
        index = i;
        chunk = c;
        original = slice text c.start_byte c.end_byte;
        gate = slice residual c.start_byte c.end_byte;
      } in
      let (ens, h₁, k₁) = >>=-eq-ok (detect i job.original job.gate) _ h in
      All-append (IsFound text) (found i) _ (chunk_entities-IsFound text job ens refl w k₁)
        (gather-IsFound residual (suc i) cs ws hs)

  -- Without chunks there is nothing to detect.
  detected :
      (residual : Bytes) (chunks : List TextChunk) (order : List ChunkJob)
      → All (Finds engine detect found) (chunk_jobs text residual 0 chunks)
      → Permᴰ (chunk_jobs text residual 0 chunks) order
      → (if length chunks == 0
          then ok (background, [])
          else detect_all engine detect background (chunk_jobs text residual 0 chunks) order)
        ≡ ok (background, gather found 0 (length (chunk_jobs text residual 0 chunks)))
  unfolding chunk_jobs gather
  detected residual [] order f p = refl
  detected residual (c ∷ cs) order f p =
      let some_chunk : (suc (length cs) == 0) ≡ false = ground arith in
      rw some_chunk (
        detect_all-any-order engine detect found (chunk_jobs text residual 0 (c ∷ cs)) order
          (chunk_jobs-Numbered text residual 0 (c ∷ cs)) f p)

  -- Where the rules find entities in a valid text that pass the tests, and the model finds entities
  -- in each chunk that pass them, `Mask` returns a masked text, the same for every order in which
  -- the workers end, if the context does not end; and if no token begins in the text, then
  -- detokenizing what it returns gives the text back.
  pub mask-any-order :
      (cfg : ChunkConfig) (schedule : List ChunkJob → List ChunkJob) (policy : Policy)
      (chunks : List TextChunk) (backend : List Entity)
      → valid_string text ≡ true
      → rule_entities_to_pii text (engine text) ≡ ok backend
      → split_text background text cfg ≡ ok (background, chunks)
      → All (Finds engine detect found) (chunk_jobs text (build text (engine text)) 0 chunks)
      → ((jobs : List ChunkJob) → Permᴰ jobs (schedule jobs))
      → (masked : Bytes) × (mappings : List TokenMapping) × (mask engine detect cfg schedule
            background text policy
          ≡ ok (background, masked, mappings))
        × (mask engine detect cfg (λ jobs. jobs) background text policy
            ≡ ok (background, masked, mappings))
        × (NoToken text → detokenize background masked mappings ≡ ok (background, text))
  unfolding mask analyze_rules
  mask-any-order cfg schedule policy chunks backend v r s f p =
      let residual = build text (engine text) in
      let jobs = chunk_jobs text residual 0 chunks in
      let ml = gather found 0 (length jobs) in
      let ml_found = gather-IsFound residual 0 chunks (split_text-within text cfg background s) f in
      let m =
        mask_entities-IsMasked text policy ml backend v ml_found
          (rule_entities-IsFound text (engine text) r) in
      let scheduled = detected residual chunks (schedule jobs) f (p jobs) in
      let in_order = detected residual chunks jobs f (Permᴰ.refl jobs) in
      (m.output, m.mappings, rw (r, s, scheduled) m.runs, rw (r, s, in_order) m.runs, m.undone)
