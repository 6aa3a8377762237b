-- ===== src/Ml/Queue.antt =====
-- internal/ml/queue.go: the queue of jobs in front of the workers. The channel of a job's result is
-- its id. Receiving from the empty queue waits, which is `none` here.
use alpha_proxy.Ml.Batch.{RequestItem}
use alpha_proxy.Pii.{Ctx, Result, ok, err, other, detector_unavailable, ctx_err, ◌>>=◌}
use alpha_proxy.Prelude.{ℕ, List, [], ◌∷◌, ◌++◌, Option, none, some, length, leb, if◌then◌else◌}
use alpha_proxy.Prelude.Int.{ℤ, pos, pos_part, leb_ℤ}

pub record BatchJob : Type 0 where
  pub id : ℕ
  pub item : RequestItem

pub record ItemQueue : Type 0 where
  pub capacity : ℕ
  pub jobs : List BatchJob

unfoldable pub new_item_queue : ℤ → Result ItemQueue
new_item_queue capacity =
    if leb_ℤ capacity (pos 0)
    then err other
    else ok (record { capacity = pos_part capacity; jobs = [] })

-- It does not wait for a free place.
unfoldable pub enqueue : Ctx → BatchJob → ItemQueue → Result (Ctx × ItemQueue)
enqueue ctx job q = do
  ctx' ← ctx_err ctx
  (if leb q.capacity (length q.jobs)
      then err detector_unavailable
      else ok (ctx', record q { jobs = q.jobs ++ job ∷ [] }))

unfoldable pub receive : ItemQueue → Option (BatchJob × ItemQueue)
receive q = elim q.jobs [ [] ↦ none | job ∷ jobs ↦ some (job, record q { jobs = jobs }) ]

unfoldable pub dequeue : Ctx → ItemQueue → Result (Ctx × Option (BatchJob × ItemQueue))
unfolding receive
dequeue ctx q = do ctx' ← ctx_err ctx; ok (ctx', receive q)
