-- ===== src/Ml/Collector/Order.antt =====
-- What a batch of the collector is made of.
use alpha_proxy.Ml.Batch.{BatchConfig}
use alpha_proxy.Ml.Collector.{
  Received, Wake, job_ready, timer_fired, ctx_ended, batch_of, Outcome, size, refusal, collect,
  collect_behind, find_first, next_batch,
}
use alpha_proxy.Ml.Queue.{BatchJob}
use alpha_proxy.Pii.{Error}
use alpha_proxy.Prelude.{
  ℕ, ◌+◌, Bytes, List, [], ◌∷◌, ◌++◌, append-nil, append_assoc, false, Option, none, some, ◌≡◌,
  refl, sym, ap, ◌∙◌, arith, length, length-append, Bool-cases, Option-cases, inl, inr,
}
use alpha_proxy.Prelude.Int.{pos, ◌≤ℤ◌, ◌<ℤ◌, ltb_ℤ, leb_ℤ}

-- The jobs that the events bring.
unfoldable pub arrivals : List Wake → List Received
arrivals [] = []
arrivals (job_ready r ∷ ws) = r ∷ arrivals ws
arrivals (timer_fired ∷ ws) = arrivals ws
arrivals (ctx_ended ∷ ws) = arrivals ws

unfoldable pub listed : {A : Type 0} → Option A → List A
listed none = []
listed (some x) = x ∷ []

module _ (rune_count : Bytes → ℕ) (cfg : BatchConfig) where
  -- The jobs that are not refused.
  unfoldable pub kept : List Received → List BatchJob
  kept [] = []
  kept (r ∷ rs) = elim (refusal rune_count cfg r) [ none ↦ r.job ∷ kept rs | some e ↦ kept rs ]

  unfoldable pub refused : List Received → List (ℕ × Error)
  refused [] = []
  refused (r ∷ rs) = elim (refusal rune_count cfg r) [
    | none ↦ refused rs
    | some e ↦ (r.job.id, e) ∷ refused rs
  ]

  unfoldable pub sizes : List BatchJob → ℕ
  sizes [] = 0
  sizes (job ∷ jobs) = size rune_count cfg job + sizes jobs

  sizes-append :
      (jobs : List BatchJob) (job : BatchJob)
      → sizes (jobs ++ job ∷ []) ≡ sizes jobs + size rune_count cfg job
  unfolding sizes
  sizes-append [] job = omega arith
  sizes-append (j ∷ jobs) job = omega (arith, sizes-append jobs job)

  -- What is collected behind the jobs and the errors so far.
  pub record Fifo (before : List BatchJob) (told : List (ℕ × Error)) (ws : List Wake) (o : Outcome)
      (final : List BatchJob) : Type 0 where
    pub seen : List Received
    pub split : arrivals ws ≡ seen ++ arrivals o.rest
    pub order : final ++ listed o.pending ≡ before ++ kept seen
    pub answered : o.answers ≡ told ++ refused seen
    pub few : pos (length final) ≤ℤ cfg.max_items
    pub small : pos (sizes final) ≤ℤ cfg.max_code_points

  -- A refused job in front.
  front-refused :
      (before : List BatchJob) (told : List (ℕ × Error)) (r : Received) (e : Error) (ws : List Wake)
      (o : Outcome) {final : List BatchJob}
      → refusal rune_count cfg r ≡ some e
      → Fifo before (told ++ (r.job.id, e) ∷ []) ws o final
      → Fifo before told (job_ready r ∷ ws) o final
  unfolding kept refused arrivals
  front-refused before told r e ws o h f = record {
    seen = r ∷ f.seen;
    split = ap (◌∷◌ r) f.split;
    order = rw (kept, h) f.order;
    answered =
        rw (refused, h) (f.answered ∙ append_assoc told ((r.job.id, e) ∷ []) (refused f.seen));
    few = f.few;
    small = f.small;
  }

  -- A job in front that is taken.
  front-kept :
      (before : List BatchJob) (told : List (ℕ × Error)) (r : Received) (ws : List Wake)
      (o : Outcome) {final : List BatchJob}
      → refusal rune_count cfg r ≡ none
      → Fifo (before ++ r.job ∷ []) told ws o final
      → Fifo before told (job_ready r ∷ ws) o final
  unfolding kept refused arrivals
  front-kept before told r ws o h f = record {
    seen = r ∷ f.seen;
    split = ap (◌∷◌ r) f.split;
    order = rw (kept, h) (f.order ∙ append_assoc before (r.job ∷ []) (kept f.seen));
    answered = rw (refused, h) f.answered;
    few = f.few;
    small = f.small;
  }

  -- Nothing more is taken.
  finished :
      (batch : List BatchJob) (told : List (ℕ × Error)) (ws rest : List Wake)
      {final : List BatchJob}
      → pos (length batch) ≤ℤ cfg.max_items
      → pos (sizes batch) ≤ℤ cfg.max_code_points
      → arrivals ws ≡ arrivals rest
      → batch_of batch ≡ batch_of final
      → Fifo batch told ws
          (record { taken = batch_of batch; pending = none; answers = told; rest = rest })
          final
  unfolding kept refused listed
  finished batch told ws rest {final = final} few small same e =
      let whole : batch ≡ final = cc in
      rw (← whole) (record {
        seen = [];
        split = same;
        order = refl;
        answered = sym (append-nil told);
        few = few;
        small = small;
      })

  -- The job that does not fit any more is left for the next batch.
  left_pending :
      (batch : List BatchJob) (told : List (ℕ × Error)) (r : Received) (ws : List Wake)
      {final : List BatchJob}
      → refusal rune_count cfg r ≡ none
      → pos (length batch) ≤ℤ cfg.max_items
      → pos (sizes batch) ≤ℤ cfg.max_code_points
      → batch_of batch ≡ batch_of final
      → Fifo batch told
          (job_ready r ∷ ws)
          (record { taken = batch_of batch; pending = some r.job; answers = told; rest = ws })
          final
  unfolding kept refused listed arrivals
  left_pending batch told r ws {final = final} h few small e =
      let whole : batch ≡ final = cc in
      rw (← whole) (record {
        seen = r ∷ [];
        split = refl;
        order = rw (kept, h) refl;
        answered = rw (refused, h) (sym (append-nil told));
        few = few;
        small = small;
      })

  few_more :
      (batch : List BatchJob) (job : BatchJob)
      → pos (length batch) <ℤ cfg.max_items
      → pos (length (batch ++ job ∷ [])) ≤ℤ cfg.max_items
  few_more batch job h = let n = length-append batch (job ∷ []) in omega (arith, n, h)

  collect-Fifo :
      (batch : List BatchJob) (total : ℕ) (told : List (ℕ × Error)) (ws : List Wake)
      {final : List BatchJob}
      → total ≡ sizes batch
      → pos (length batch) ≤ℤ cfg.max_items
      → pos (sizes batch) ≤ℤ cfg.max_code_points
      → (collect rune_count cfg batch total told ws).taken ≡ batch_of final
      → Fifo batch told ws (collect rune_count cfg batch total told ws) final
  unfolding collect arrivals
  collect-Fifo batch total told [] t few small e =
      elim (Bool-cases (leb_ℤ cfg.max_items (pos (length batch)))) [
        | inl y ↦ rw y (finished batch told [] [] few small refl (rw y at e))
        | inr n ↦ let bad = rw n at e in cc
      ]
  collect-Fifo batch total told (timer_fired ∷ ws) t few small e =
      elim (Bool-cases (leb_ℤ cfg.max_items (pos (length batch)))) [
        | inl y ↦ rw y (finished batch told (timer_fired ∷ ws) (timer_fired ∷ ws) few small refl e)
        | inr n ↦ rw n (finished batch told (timer_fired ∷ ws) ws few small refl e)
      ]
  collect-Fifo batch total told (ctx_ended ∷ ws) t few small e =
      elim (Bool-cases (leb_ℤ cfg.max_items (pos (length batch)))) [
        | inl y ↦
            rw y (finished batch told (ctx_ended ∷ ws) (ctx_ended ∷ ws) few small refl (rw y at e))
        | inr n ↦ let bad = rw n at e in cc
      ]
  collect-Fifo batch total told (job_ready r ∷ ws) t few small e =
      let room = sizes-append batch r.job in
      elim (Bool-cases (leb_ℤ cfg.max_items (pos (length batch)))) [
        | inl y ↦
            rw (collect, y)
              (finished batch told (job_ready r ∷ ws) (job_ready r ∷ ws) few small refl
                (rw (collect, y) at e))
        | inr n ↦ elim (Option-cases (refusal rune_count cfg r)) [
          | inr (reason, h) ↦
              let run = rw (collect, n, h) at e in
              rw (collect, n, h)
                (front-refused batch told r reason ws _ h
                  (collect-Fifo batch total (told ++ (r.job.id, reason) ∷ []) ws t few small run))
          | inl h ↦
              elim (Bool-cases
                (ltb_ℤ cfg.max_code_points (pos (total + size rune_count cfg r.job)))) [
                  | inl y ↦
                      let run = rw (collect, n, h, y) at e in
                      rw (collect, n, h, y) (left_pending batch told r ws h few small run)
                  | inr m ↦
                      elim (Bool-cases
                        (leb_ℤ cfg.max_code_points (pos (total + size rune_count cfg r.job)))) [
                          | inl y ↦
                              let run = rw (collect, n, h, m, y) at e in
                              rw (collect, n, h, m, y)
                                (front-kept batch told r ws _ h (
                                  finished (batch ++ r.job ∷ []) told ws ws
                                    (few_more batch r.job (ground arith)) (ground (arith, room))
                                    refl run))
                          | inr k ↦
                              let run = rw (collect, n, h, m, k) at e in
                              rw (collect, n, h, m, k)
                                (front-kept batch told r ws _ h (
                                  collect-Fifo (batch ++ r.job ∷ [])
                                    (total + size rune_count cfg r.job) told ws
                                    (omega (arith, room)) (few_more batch r.job (ground arith))
                                    (ground (arith, room)) run))
                        ]
                ]
        ]
      ]

  refusal-fits :
      (r : Received)
      → refusal rune_count cfg r ≡ none
      → pos (size rune_count cfg r.job) ≤ℤ cfg.max_code_points
  unfolding refusal
  refusal-fits r h = elim (Option-cases r.cause) [
    | inl e ↦ let fits = rw (refusal, e) at h in ground arith
    | inr (reason, e) ↦ let bad = rw (refusal, e) at h in cc
  ]

  find_first-Fifo :
      (told : List (ℕ × Error)) (ws : List Wake) {final : List BatchJob}
      → pos 0 <ℤ cfg.max_items
      → (find_first rune_count cfg told ws).taken ≡ batch_of final
      → Fifo [] told ws (find_first rune_count cfg told ws) final
  unfolding find_first arrivals sizes
  find_first-Fifo told [] p e = cc
  find_first-Fifo told (timer_fired ∷ ws) p e =
      let f = find_first-Fifo told ws p e in
      record {
        seen = f.seen;
        split = f.split;
        order = f.order;
        answered = f.answered;
        few = f.few;
        small = f.small;
      }
  find_first-Fifo told (ctx_ended ∷ ws) p e = cc
  find_first-Fifo told (job_ready r ∷ ws) p e = elim (Option-cases (refusal rune_count cfg r)) [
    | inr (reason, h) ↦
        let run = rw (find_first, h) at e in
        rw (find_first, h)
          (front-refused [] told r reason ws _ h
            (find_first-Fifo (told ++ (r.job.id, reason) ∷ []) ws p run))
    | inl h ↦
        let fits = refusal-fits r h in
        let fits' : pos (sizes (r.job ∷ [])) ≤ℤ cfg.max_code_points = omega (arith, fits) in
        elim (Bool-cases (leb_ℤ cfg.max_code_points (pos (size rune_count cfg r.job)))) [
          | inl y ↦
              let run = rw (find_first, h, collect_behind, y) at e in
              rw (find_first, h, collect_behind, y)
                (front-kept [] told r ws _ h
                  (finished (r.job ∷ []) told ws ws (omega (arith, p)) fits' refl run))
          | inr n ↦
              let run = rw (find_first, h, collect_behind, n) at e in
              rw (find_first, h, collect_behind, n)
                (front-kept [] told r ws _ h (
                  collect-Fifo (r.job ∷ []) (size rune_count cfg r.job) told ws (omega arith)
                    (omega (arith, p)) fits' run))
        ]
  ]

  -- The events, with the pending job in front of those that the queue brings.
  unfoldable pub with_pending : Option Received → List Wake → List Wake
  with_pending none ws = ws
  with_pending (some r) ws = job_ready r ∷ ws

  -- A batch that `nextBatch` returns is within both limits. The jobs that came in up to then, the
  -- pending job first, are in their order the batch and the job that is left pending, but for those
  -- that were refused, which were each answered with their error, in their order too.
  pub next_batch-Fifo :
      (pending : Option Received) (ws : List Wake) (batch : List BatchJob)
      → pos 0 <ℤ cfg.max_items
      → (next_batch rune_count cfg false pending ws).taken ≡ batch_of batch
      → Fifo [] [] (with_pending pending ws) (next_batch rune_count cfg false pending ws) batch
  unfolding next_batch with_pending
  next_batch-Fifo none ws batch p e = find_first-Fifo [] ws p e
  next_batch-Fifo (some r) ws batch p e = find_first-Fifo [] (job_ready r ∷ ws) p e
