-- ===== src/Ml/Collector.antt =====
-- internal/ml/collector.go: the batch that a worker collects from the queue. What the worker waits
-- for is a list of events, in their order: a job is received, the timer fires, or the context ends,
-- which the code also asks before it waits. With a job comes what its own context says when the
-- collector asks. `utf8.RuneCountInString` is a parameter.
pub mod Order
use alpha_proxy.Ml.Batch.{BatchConfig}
use alpha_proxy.Ml.Queue.{BatchJob}
use alpha_proxy.Pii.{Error, context_done, payload_too_large}
use alpha_proxy.Prelude.{
  ℕ, ◌+◌, Bytes, List, [], ◌∷◌, ◌++◌, map, Bool, true, false, Option, none, some, length,
  if◌then◌else◌,
}
use alpha_proxy.Prelude.Int.{pos, ltb_ℤ, leb_ℤ}

pub record Received : Type 0 where
  pub job : BatchJob
  pub cause : Option Error

pub data Wake : Type 0 where
  job_ready : Received → Wake
  timer_fired ctx_ended : Wake

pub data Taken : Type 0 where
  waiting : Taken
  stopped : Error → Taken
  batch_of : List BatchJob → Taken

-- What `nextBatch` returns, the pending job it leaves, the errors it sends to jobs, and the events
-- that are left.
pub record Outcome : Type 0 where
  pub taken : Taken
  pub pending : Option BatchJob
  pub answers : List (ℕ × Error)
  pub rest : List Wake

module _ (rune_count : Bytes → ℕ) (cfg : BatchConfig) where
  unfoldable pub size : BatchJob → ℕ
  size job = rune_count job.item.text

  -- The error that a received job is answered with at once.
  unfoldable pub refusal : Received → Option Error
  unfolding size
  refusal r = elim r.cause [
    | some e ↦ some e
    | none ↦ if ltb_ℤ cfg.max_code_points (pos (size r.job)) then some payload_too_large else none
  ]

  -- `failBatch`.
  unfoldable pub fail_batch : List BatchJob → List (ℕ × Error)
  fail_batch batch = map (λ (job : BatchJob). (job.id, context_done)) batch

  -- The loop over the further jobs.
  unfoldable pub collect : List BatchJob → ℕ → List (ℕ × Error) → List Wake → Outcome
  unfolding refusal fail_batch
  collect batch total answers [] = record {
    taken = if leb_ℤ cfg.max_items (pos (length batch)) then batch_of batch else waiting;
    pending = none;
    answers = answers;
    rest = [];
  }
  collect batch total answers (timer_fired ∷ ws) = record {
    taken = batch_of batch;
    pending = none;
    answers = answers;
    rest = if leb_ℤ cfg.max_items (pos (length batch)) then timer_fired ∷ ws else ws;
  }
  collect batch total answers (ctx_ended ∷ ws) =
      if leb_ℤ cfg.max_items (pos (length batch))
      then record {
        taken = batch_of batch;
        pending = none;
        answers = answers;
        rest = ctx_ended ∷ ws;
      }
      else record {
        taken = stopped context_done;
        pending = none;
        answers = answers ++ fail_batch batch;
        rest = ws;
      }
  collect batch total answers (job_ready r ∷ ws) =
      let more = collect (batch ++ r.job ∷ []) (total + size r.job) answers ws in
      let refused = λ (e : Error). collect batch total (answers ++ (r.job.id, e) ∷ []) ws in
      if leb_ℤ cfg.max_items (pos (length batch))
      then record {
        taken = batch_of batch;
        pending = none;
        answers = answers;
        rest = job_ready r ∷ ws;
      }
      else elim (refusal r) [
        | some e ↦ refused e
        | none ↦
            if ltb_ℤ cfg.max_code_points (pos (total + size r.job))
            then record {
              taken = batch_of batch;
              pending = some r.job;
              answers = answers;
              rest = ws;
            }
            else if leb_ℤ cfg.max_code_points (pos (total + size r.job))
            then record {
              taken = batch_of (batch ++ r.job ∷ []);
              pending = none;
              answers = answers;
              rest = ws;
            }
            else more
      ]

  -- The batch begins with its first job.
  unfoldable pub collect_behind : BatchJob → List (ℕ × Error) → List Wake → Outcome
  unfolding collect
  collect_behind job answers ws =
      if leb_ℤ cfg.max_code_points (pos (size job))
      then record { taken = batch_of (job ∷ []); pending = none; answers = answers; rest = ws }
      else collect (job ∷ []) (size job) answers ws

  -- The loop that looks for the first job. No timer runs yet.
  unfoldable pub find_first : List (ℕ × Error) → List Wake → Outcome
  unfolding collect_behind
  find_first answers [] = record { taken = waiting; pending = none; answers = answers; rest = [] }
  find_first answers (timer_fired ∷ ws) = find_first answers ws
  find_first answers (ctx_ended ∷ ws) = record {
    taken = stopped context_done;
    pending = none;
    answers = answers;
    rest = ws;
  }
  find_first answers (job_ready r ∷ ws) =
      let refused = λ (e : Error). find_first (answers ++ (r.job.id, e) ∷ []) ws in
      elim (refusal r) [ some e ↦ refused e | none ↦ collect_behind r.job answers ws ]

  -- `nextBatch`, where the context has ended or not, with the pending job if there is one.
  unfoldable pub next_batch : Bool → Option Received → List Wake → Outcome
  unfolding find_first
  next_batch true none ws = record {
    taken = stopped context_done;
    pending = none;
    answers = [];
    rest = ws;
  }
  next_batch true (some r) ws = record {
    taken = stopped context_done;
    pending = some r.job;
    answers = [];
    rest = ws;
  }
  next_batch false none ws = find_first [] ws
  next_batch false (some r) ws = find_first [] (job_ready r ∷ ws)
