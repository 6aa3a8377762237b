-- ===== src/Masking/Cascade/Parallel.antt =====
-- The workers of `Mask`, and the order in which they end their jobs.
use mathlib.Core.List.{Permᴰ}
use alpha_proxy.Masking.Cascade.{
  ChunkJob, Progress, no_progress, process_chunk, finish_job, run_jobs, gather, detect_all,
  chunk_jobs,
}
use alpha_proxy.Pii.{background, Result, ok, Entity}
use alpha_proxy.Prelude.{
  ℕ, zero, suc, ◌+◌, ◌≤◌, ◌<◌, Bytes, List, [], ◌∷◌, Bool, true, false, ◌||◌, ◌≡◌, refl, sym, ap,
  ◌∙◌, arith, All, All-perm, length, ltb, ◌==◌, if◌then◌else◌, Bool-cases, inl, inr,
}
use alpha_proxy.Ml.Chunker.{TextChunk}
use alpha_proxy.Rules.Spans.{ResolvedEntity}

-- Some job of the list has the index.
unfoldable pub ended : ℕ → List ChunkJob → Bool
ended i [] = false
ended i (job ∷ jobs) = (i == job.index) || ended i jobs

length-perm : {xs ys : List ChunkJob} → Permᴰ xs ys → length xs ≡ length ys
length-perm Permᴰ.nil = refl
length-perm (Permᴰ.cons e p) = ap suc (length-perm p)
length-perm (Permᴰ.swap e f) = refl
length-perm (Permᴰ.trans p q) = length-perm p ∙ length-perm q

ended-perm : (i : ℕ) {xs ys : List ChunkJob} → Permᴰ xs ys → ended i xs ≡ ended i ys
unfolding ended
ended-perm i Permᴰ.nil = refl
ended-perm i (Permᴰ.cons e p) = rw (ended-perm i p, e) refl
ended-perm i (Permᴰ.swap e f) = rw (e, f) ground arith
ended-perm i (Permᴰ.trans p q) = ended-perm i p ∙ ended-perm i q

module _ (engine : Bytes → List ResolvedEntity)
    (detect : ℕ → Bytes → Bytes → Result (List ResolvedEntity)) (found : ℕ → List Entity) where
  -- Where a job ends without an error, its chunk has these entities.
  abbrev pub Finds : ChunkJob → Type 0
  Finds job = process_chunk engine detect job ≡ ok (found job.index)

  -- The state behind jobs that all end without an error.
  record Ran (p : Progress) (order : List ChunkJob) (q : Progress) : Type 0 where
    clean : q.first_err ≡ p.first_err
    count : q.finished ≡ p.finished + length order
    results : (i : ℕ) → q.results i ≡ (if ended i order then found i else p.results i)

  finish_job-ok :
      (p : Progress) (job : ChunkJob)
      → Finds job
      → finish_job engine detect p job ≡ record p {
        results = λ i. if i == job.index then found job.index else p.results i;
        finished = suc p.finished;
      }
  unfolding finish_job
  finish_job-ok p job h = rw (finish_job, h) refl

  later :
      (i : ℕ) (job : ChunkJob) (order : List ChunkJob) (p : Progress)
      → (if ended i order
          then found i
          else (if i == job.index then found job.index else p.results i))
        ≡ (if ended i (job ∷ order) then found i else p.results i)
  unfolding ended
  later i job order p = elim (Bool-cases (i == job.index)) [
    | inl e ↦
        let same : i ≡ job.index = ground arith in
        rw (e, ← same) elim (Bool-cases (ended i order)) [ inl y ↦ rw y refl | inr n ↦ rw n refl ]
    | inr e ↦ rw e refl
  ]

  run_jobs-Ran :
      (p : Progress) (order : List ChunkJob)
      → All Finds order
      → Ran p order (run_jobs engine detect p order)
  unfolding run_jobs ended
  run_jobs-Ran p [] h = record { clean = refl; count = omega arith; results = λ i. refl }
  run_jobs-Ran p (job ∷ order) (h, hs) =
      let next : Progress = record p {
        results = λ i. if i == job.index then found job.index else p.results i;
        finished = suc p.finished;
      } in
      let rest = run_jobs-Ran next order hs in
      rw (finish_job-ok p job h) (record {
        clean = rest.clean;
        count = omega (arith, rest.count);
        results = λ i. rest.results i ∙ later i job order p;
      })

  -- The results that the indexes of the jobs hold.
  gather-same :
      (results : ℕ → List Entity) (i count : ℕ)
      → ((j : ℕ) → i ≤ j → j < i + count → results j ≡ found j)
      → gather results i count ≡ gather found i count
  unfolding gather
  gather-same results i zero h = refl
  gather-same results i (suc count) h =
      rw
        (
          h i (omega arith) (omega arith),
          gather-same results (suc i) count (λ j l u. h j (omega arith) (omega arith)),
        )
        refl

-- The jobs have the indexes from `i` on.
abbrev pub Numbered : ℕ → List ChunkJob → Type 0
Numbered i [] = Unit
Numbered i (job ∷ jobs) = (job.index ≡ i) × Numbered (suc i) jobs

ended-Numbered :
    (i : ℕ) (jobs : List ChunkJob)
    → Numbered i jobs
    → (j : ℕ) → i ≤ j
    → j < i + length jobs
    → ended j jobs ≡ true
unfolding ended
ended-Numbered i [] h j l u = absurd (omega (arith, l, u))
ended-Numbered i (job ∷ jobs) (h, hs) j l u = elim (Bool-cases (j == i)) [
  | inl e ↦ rw (h, e) refl
  | inr n ↦
      let more = ended-Numbered (suc i) jobs hs j (ground arith) (omega arith) in rw (h, n) more
]

pub chunk_jobs-Numbered :
    (text residual : Bytes) (i : ℕ) (chunks : List TextChunk)
    → Numbered i (chunk_jobs text residual i chunks)
unfolding chunk_jobs
chunk_jobs-Numbered text residual i [] = tt
chunk_jobs-Numbered text residual i (chunk ∷ chunks) =
    (refl, chunk_jobs-Numbered text residual (suc i) chunks)

module _ (engine : Bytes → List ResolvedEntity)
    (detect : ℕ → Bytes → Bytes → Result (List ResolvedEntity)) (found : ℕ → List Entity) where
  pub detect_all-any-order :
      (jobs order : List ChunkJob)
      → Numbered 0 jobs
      → All (Finds engine detect found) jobs
      → Permᴰ jobs order
      → detect_all engine detect background jobs order
        ≡ ok (background, gather found 0 (length jobs))
  unfolding detect_all no_progress
  detect_all-any-order jobs order ns h p =
      let ran =
        run_jobs-Ran engine detect found no_progress order
          (All-perm (Finds engine detect found) p h) in
      let same = length-perm p in
      let full =
        gather-same engine detect found (run_jobs engine detect no_progress order).results 0
          (length jobs)
          (λ j l u.
            let there : ended j order ≡ true =
              sym (ended-perm j p) ∙ ended-Numbered 0 jobs ns j l u in
            ran.results j ∙ ap (λ b. if b then found j else []) there) in
      let all : ltb (run_jobs engine detect no_progress order).finished (length jobs) ≡ false =
        ground (arith, ran.count) in
      rw (detect_all, ran.clean, all, full) refl
