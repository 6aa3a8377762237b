-- ===== src/Ml/Batcher/Own.antt =====
-- Which answer each job of a batch gets.
use mathlib.Core.List.{Permᴰ}
use alpha_proxy.Ml.Batch.{RequestItem}
use alpha_proxy.Ml.Batcher.{
  batch_id_of, transport_id, items_from, request_of, by_chunk, answer_job, answers_from,
  process_batch,
}
use alpha_proxy.Ml.Queue.{BatchJob}
use alpha_proxy.Ml.Types.{BatchRequest, BatchResponse, ChunkResult, MlEntity}
use alpha_proxy.Pii.{Result, ok}
use alpha_proxy.Prelude.{
  ℕ, suc, Bytes, List, [], ◌∷◌, map, Bool, true, false, some, ◌≡◌, refl, sym, ap, ◌∙◌, arith, All,
  All-perm, bytes_eq, bytes_eq_iff, bytes_eq_refl, drop, drop-length, length, if◌then◌else◌,
  Bool-cases, inl, inr, ◌⊎◌, ◌<◌,
}
use alpha_proxy.Prelude.Dict.{lookup, insert, lookup-insert}
use alpha_proxy.Tokenizer.Allocator.{format_decimal}
use alpha_proxy.Tokenizer.Allocator.Decimal.{format_decimal-injective}

transport_id-injective :
    (batch_id : Bytes) (i j : ℕ) → transport_id batch_id i ≡ transport_id batch_id j → i ≡ j
unfolding transport_id
transport_id-injective batch_id i j e =
    let tails : b'-' ∷ format_decimal i ≡ b'-' ∷ format_decimal j =
      sym (drop-length batch_id (b'-' ∷ format_decimal i))
      ∙ ap (drop (length batch_id)) e
      ∙ drop-length batch_id (b'-' ∷ format_decimal j) in
    let digits : format_decimal i ≡ format_decimal j = cc in format_decimal-injective i j digits

-- Some result has the id.
unfoldable pub has : Bytes → List ChunkResult → Bool
has id [] = false
has id (r ∷ rs) = if bytes_eq r.chunk_id id then true else has id rs

module _ (reply : Bytes → Bytes → List MlEntity) where
  -- The result for an item without an error.
  unfoldable pub result_of : RequestItem → ChunkResult
  result_of item = record {
    chunk_id = item.chunk_id;
    entities = reply item.text item.gate_text;
    error_code = [];
  }

  -- The results with the id of an item are the item's, and there is one.
  pub record Covers (results : List ChunkResult) (item : RequestItem) : Type 0 where
    pub own : All (λ r. bytes_eq r.chunk_id item.chunk_id ≡ true → r ≡ result_of item) results
    pub some_result : has item.chunk_id results ≡ true

  still :
      (id : Bytes) (x : ChunkResult) (m : List (Bytes × ChunkResult)) (r : ChunkResult)
      (rs : List ChunkResult)
      → bytes_eq r.chunk_id id ≡ false
      → (lookup id m ≡ some x) ⊎ (has id (r ∷ rs) ≡ true)
      → (lookup id (insert r.chunk_id r m) ≡ some x) ⊎ (has id rs ≡ true)
  unfolding has
  still id x m r rs n (inl h) = inl (lookup-insert r.chunk_id id r m ∙ rw n h)
  still id x m r rs n (inr h) = inr (rw n at h)

  lookup-by_chunk :
      (id : Bytes) (x : ChunkResult) (m : List (Bytes × ChunkResult)) (rs : List ChunkResult)
      → All (λ r. bytes_eq r.chunk_id id ≡ true → r ≡ x) rs
      → (lookup id m ≡ some x) ⊎ (has id rs ≡ true)
      → lookup id (by_chunk m rs) ≡ some x
  unfolding by_chunk has
  lookup-by_chunk id x m [] o (inl h) = h
  lookup-by_chunk id x m [] o (inr h) = cc
  lookup-by_chunk id x m (r ∷ rs) (o, os) h =
      let step = lookup-insert r.chunk_id id r m in
      elim (Bool-cases (bytes_eq r.chunk_id id)) [
        | inl y ↦
            lookup-by_chunk id x (insert r.chunk_id r m) rs os (inl (step ∙ rw y (ap some (o y))))
        | inr n ↦ lookup-by_chunk id x (insert r.chunk_id r m) rs os (still id x m r rs n h)
      ]

  has-perm : (id : Bytes) {xs ys : List ChunkResult} → Permᴰ xs ys → has id xs ≡ has id ys
  unfolding has
  has-perm id Permᴰ.nil = refl
  has-perm id (Permᴰ.cons e p) = rw (has-perm id p, e) refl
  has-perm id (Permᴰ.swap e f) = rw (e, f) ground arith
  has-perm id (Permᴰ.trans p q) = has-perm id p ∙ has-perm id q

  others :
      (batch_id : Bytes) (i k : ℕ) (x : ChunkResult) (batch : List BatchJob)
      → i < k
      → All
          (λ r. bytes_eq r.chunk_id (transport_id batch_id i) ≡ true → r ≡ x)
          (map result_of (items_from batch_id k batch))
  unfolding items_from result_of
  others batch_id i k x [] h = tt
  others batch_id i k x (job ∷ batch) h = (
    λ e.
        let same = (bytes_eq_iff (transport_id batch_id k) (transport_id batch_id i)).0 e in
        absurd (omega (arith, transport_id-injective batch_id k i same, h)),
    others batch_id i (suc k) x batch (omega arith),
  )

  later_ids :
      (batch_id : Bytes) (i k : ℕ) (batch : List BatchJob)
      → i < k
      → All
          (λ item. bytes_eq (transport_id batch_id i) item.chunk_id ≡ false)
          (items_from batch_id k batch)
  unfolding items_from
  later_ids batch_id i k [] h = tt
  later_ids batch_id i k (job ∷ batch) h = (
    elim (Bool-cases (bytes_eq (transport_id batch_id i) (transport_id batch_id k))) [
      | inl e ↦
          let same = (bytes_eq_iff (transport_id batch_id i) (transport_id batch_id k)).0 e in
          absurd (omega (arith, transport_id-injective batch_id i k same, h))
      | inr n ↦ n
    ],
    later_ids batch_id i (suc k) batch (omega arith),
  )

  -- One result more, for another item.
  Covers-behind :
      (results : List ChunkResult) (first item : RequestItem)
      → bytes_eq first.chunk_id item.chunk_id ≡ false
      → Covers results item
      → Covers (result_of first ∷ results) item
  unfolding has result_of
  Covers-behind results first item n c = record {
    own = ((λ e. cc), c.own);
    some_result = rw n c.some_result;
  }

  all_behind :
      (results : List ChunkResult) (first : RequestItem) (items : List RequestItem)
      → All (λ item. bytes_eq first.chunk_id item.chunk_id ≡ false) items
      → All (Covers results) items
      → All (Covers (result_of first ∷ results)) items
  all_behind results first [] h c = tt
  all_behind results first (item ∷ items) (h, hs) (c, cs) =
      (Covers-behind results first item h c, all_behind results first items hs cs)

  items_from-Covers :
      (batch_id : Bytes) (k : ℕ) (batch : List BatchJob)
      → All (Covers (map result_of (items_from batch_id k batch))) (items_from batch_id k batch)
  unfolding items_from has result_of
  items_from-Covers batch_id k [] = tt
  items_from-Covers batch_id k (job ∷ batch) =
      let first : RequestItem = record {
        chunk_id = transport_id batch_id k;
        text = job.item.text;
        gate_text = job.item.gate_text;
      } in
      (
        record {
          own = ((λ e. refl), others batch_id k (suc k) (result_of first) batch (omega arith));
          some_result = rw (bytes_eq_refl (transport_id batch_id k)) refl;
        },
        all_behind (map result_of (items_from batch_id (suc k) batch)) first
            (items_from batch_id (suc k) batch) (later_ids batch_id k (suc k) batch (omega arith))
            (items_from-Covers batch_id (suc k) batch),
      )

  -- What a job should get.
  unfoldable pub own_result : BatchJob → Result ChunkResult
  own_result job = ok (record {
    chunk_id = job.item.chunk_id;
    entities = reply job.item.text job.item.gate_text;
    error_code = [];
  })

  answer_job-own :
      (found : List (Bytes × ChunkResult)) (id : Bytes) (job : BatchJob) (item : RequestItem)
      → item.text ≡ job.item.text
      → item.gate_text ≡ job.item.gate_text
      → lookup id found ≡ some (result_of item)
      → answer_job found id job ≡ own_result job
  unfolding answer_job own_result result_of bytes_eq
  answer_job-own found id job item t g h = rw (answer_job, h, t, g) refl

  answers_from-own :
      (batch_id : Bytes) (results : List ChunkResult) (k : ℕ) (batch : List BatchJob)
      → All (Covers results) (items_from batch_id k batch)
      → answers_from (by_chunk [] results) batch_id k batch ≡ map own_result batch
  unfolding answers_from answer_job items_from own_result result_of
  answers_from-own batch_id results k [] h = refl
  answers_from-own batch_id results k (job ∷ batch) (h, hs) =
      let item : RequestItem = record {
        chunk_id = transport_id batch_id k;
        text = job.item.text;
        gate_text = job.item.gate_text;
      } in
      let found =
        lookup-by_chunk (transport_id batch_id k) (result_of item) [] results h.own
          (inr h.some_result) in
      rw
        (
          answers_from,
          answer_job-own (by_chunk [] results) (transport_id batch_id k) job item refl refl found,
        )
        (ap (◌∷◌ (own_result job)) (answers_from-own batch_id results (suc k) batch hs))

  Covers-perm :
      {xs ys : List ChunkResult} (items : List RequestItem)
      → Permᴰ xs ys
      → All (Covers xs) items
      → All (Covers ys) items
  Covers-perm [] p h = tt
  Covers-perm (item ∷ items) p (h, hs) = (
    record {
      own = All-perm (λ r. bytes_eq r.chunk_id item.chunk_id ≡ true → r ≡ result_of item) p h.own;
      some_result = sym (has-perm item.chunk_id p) ∙ h.some_result;
    },
    Covers-perm items p hs,
  )

  -- If the client answers each item of the request without an error, in whatever order, then each
  -- job of the batch is sent the entities of its own texts under its own chunk id, though jobs of
  -- different callers may have one chunk id.
  pub process_batch-own :
      (client : BatchRequest → Result BatchResponse) (seq : ℕ) (batch : List BatchJob)
      (resp : BatchResponse)
      → client (request_of (batch_id_of (suc seq)) batch) ≡ ok resp
      → Permᴰ (map result_of (items_from (batch_id_of (suc seq)) 0 batch)) resp.results
      → process_batch client seq batch ≡ (suc seq, map own_result batch)
  unfolding process_batch
  process_batch-own client seq batch resp c p =
      let batch_id = batch_id_of (suc seq) in
      rw c (
        ap (λ r. (suc seq, r))
          (answers_from-own batch_id resp.results 0 batch
            (Covers-perm (items_from batch_id 0 batch) p (items_from-Covers batch_id 0 batch))))
