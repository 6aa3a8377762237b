-- ===== src/Tokenizer/Merge/Total.antt =====
-- When `CombinePlans` makes a plan, and what one made from good plans of a valid text is like.
use alpha_proxy.Pii.{background, ok, Replacement, TokenMapping, Policy}
use alpha_proxy.Prelude.{
  ℕ, ◌≤◌, Bytes, List, [], ◌∷◌, ◌++◌, true, false, ◌≡◌, refl, arith, All, All-append, length,
  bytes_eq, bytes_lt, bytes_eq_iff, not, ◌||◌, Bool-cases, inl, inr,
}
use alpha_proxy.Prelude.Int.{ℤ, pos_part, ltb_ℤ, ◌≤ℤ◌, neg_part_of_pos}
use alpha_proxy.Prelude.Sort.{sort}
use alpha_proxy.Prelude.Sort.Sorted.{All-sort, sort-IsSorted}
use alpha_proxy.Tokenizer.Allocator.{Allocator, allocate, new_allocator}
use alpha_proxy.Tokenizer.Allocator.Format.{IsKindText}
use alpha_proxy.Tokenizer.Allocator.Owners.{new_allocator-IsSound}
use alpha_proxy.Tokenizer.Apply.{build_mappings}
use alpha_proxy.Tokenizer.Apply.Layout.{Layout, IsSpan-validate_span}
use alpha_proxy.Tokenizer.Detokenizer.Tokens.{IsTokenText}
use alpha_proxy.Tokenizer.Merge.{
  accepted, dedupe, resolve_overlaps, plan_before, normalize_from, normalize_tokens, combine_plans,
}
use alpha_proxy.Tokenizer.Merge.Coverage.{count, Ordered, IsSorted-Ordered}
use alpha_proxy.Tokenizer.Merge.Combined.{combine_plans-covers}
use alpha_proxy.Tokenizer.Merge.Cuts.{IsGood, select_from-IsGood}
use alpha_proxy.Tokenizer.Merge.Dedupe.{dedupe-All}
use alpha_proxy.Tokenizer.Merge.Tokens.{
  normalize_from-Normalized, named-IsTokenText, named-mappings,
}
use alpha_proxy.Tokenizer.Priority.{candidate_less}
use alpha_proxy.Tokenizer.Span.{slice_ℤ}
use alpha_proxy.Utf8.{valid_string}

module _ (text : Bytes) where
  accepted-IsGood :
      (policy : Policy) (rs : List Replacement)
      → All (IsGood text) rs
      → (kept : List Replacement) × (accepted text policy background rs ≡ ok (background, kept))
        × All (IsGood text) kept
  unfolding accepted
  accepted-IsGood policy [] h = ([], refl, tt)
  accepted-IsGood policy (r ∷ rs) (h, hs) =
      let (kept, run, good) = accepted-IsGood policy rs hs in
      let span = IsSpan-validate_span text r.start r.end h.span in
      let same : bytes_eq (slice_ℤ text r.start r.end) r.original ≡ true =
        (bytes_eq_iff (slice_ℤ text r.start r.end) r.original).1 h.original in
      elim (Bool-cases
        (not (policy.allowed_kinds r.kind) || ltb_ℤ r.confidence policy.min_confidence)) [
          | inl y ↦ (kept, rw (span, same, run, y) refl, good)
          | inr n ↦ (r ∷ kept, rw (span, same, run, n) refl, (h, good))
        ]

  -- Spans in order, of which no two hold one offset, lie behind one another.
  apart :
      (r : Replacement) (rs : List Replacement)
      → IsGood text r
      → All (IsGood text) rs
      → All (λ q. r.start ≤ℤ q.start) rs
      → ((x : ℤ) → count x (r ∷ rs) ≤ 1)
      → All (λ q. pos_part r.end ≤ pos_part q.start) rs
  unfolding count
  apart r [] g gs o once = tt
  apart r (q ∷ qs) g (h, hs) (o, os) once =
      let here = once q.start in
      let size = h.span.nonempty in
      let end = neg_part_of_pos q.end in
      let end' = neg_part_of_pos r.end in
      let start = h.span.nonneg in
      let start' = g.span.nonneg in
      let size' = g.span.nonempty in (ground arith, apart r qs g hs os (λ x. omega (arith, once x)))

  fewer : (r : Replacement) (rs : List Replacement) (x : ℤ) → count x (r ∷ rs) ≤ 1 → count x rs ≤ 1
  unfolding count
  fewer r rs x h = omega (arith, h)

  -- Good replacements with tokens, in order, none of which overlap, are laid out in the text.
  once-Layout :
      (from : ℕ) (rs : List Replacement)
      → from ≤ length text
      → All (IsGood text) rs
      → All (λ r. bytes_eq r.token [] ≡ false) rs
      → Ordered rs
      → All (λ r. from ≤ pos_part r.start) rs
      → ((x : ℤ) → count x rs ≤ 1)
      → Layout text from rs
  once-Layout from [] l g t o f once = l
  once-Layout from (r ∷ rs) l (g, gs) (t, ts) (o, os) (f, fs) once = (
    f,
    record { span = g.span; original = g.original; token = t },
    once-Layout (pos_part r.end) rs g.span.within gs ts os (apart r rs g gs o once)
        (λ x. fewer r rs x (once x)),
  )

plan_before-start : (a b : Replacement) → plan_before a b ≡ false → b.start ≤ℤ a.start
unfolding plan_before
plan_before-start a b h = ground arith

bytes_lt_asym : (s t : Bytes) → bytes_lt s t ≡ true → bytes_lt t s ≡ false
unfolding bytes_lt
bytes_lt_asym [] [] h = cc
bytes_lt_asym [] (b ∷ t) h = refl
bytes_lt_asym (a ∷ s) [] h = cc
bytes_lt_asym (a ∷ s) (b ∷ t) h = ground (arith, bytes_lt_asym s t)

plan_before_asym : (a b : Replacement) → plan_before a b ≡ true → plan_before b a ≡ false
unfolding plan_before
plan_before_asym a b h = ground (arith, bytes_lt_asym a.kind b.kind)

normalize_from-All :
    (P : Replacement → Type 0)
    → ((r : Replacement) (t : Bytes) → P r → P (record r { token = t }))
    → (a : Allocator) (rs : List Replacement) → All P rs
    → All P (normalize_from a rs)
unfolding normalize_from
normalize_from-All P keep a [] h = tt
normalize_from-All P keep a (r ∷ rs) (h, hs) = (
  keep r (allocate a r.kind r.original).1 h,
  normalize_from-All P keep (allocate a r.kind r.original).0 rs hs,
)

Ordered-normalize :
    (a : Allocator) (rs : List Replacement) → Ordered rs → Ordered (normalize_from a rs)
unfolding normalize_from
Ordered-normalize a [] h = tt
Ordered-normalize a (r ∷ rs) (h, hs) = (
  normalize_from-All (λ q. r.start ≤ℤ q.start) (λ q t l. l) (allocate a r.kind r.original).0 rs h,
  Ordered-normalize (allocate a r.kind r.original).0 rs hs,
)

IsGood-token :
    (text : Bytes) (r : Replacement) (t : Bytes)
    → IsGood text r
    → IsGood text (record r { token = t })
IsGood-token text r t g = record { span = g.span; original = g.original; kind = g.kind }

kinds :
    (text : Bytes) (rs : List Replacement) → All (IsGood text) rs → All (λ r. IsKindText r.kind) rs
kinds text [] h = tt
kinds text (r ∷ rs) (h, hs) = (h.kind, kinds text rs hs)

some_token :
    (rs : List Replacement)
    → All (λ r. IsTokenText r.token) rs
    → All (λ r. bytes_eq r.token [] ≡ false) rs
unfolding bytes_eq
some_token [] h = tt
some_token (r ∷ rs) ((inner, e, i), hs) = (rw e refl, some_token rs hs)

from_start : (rs : List Replacement) → All (λ r. 0 ≤ pos_part r.start) rs
from_start [] = tt
from_start (r ∷ rs) = (omega arith, from_start rs)

-- A plan that can be applied.
pub record IsReady (text : Bytes) (plan : List Replacement) : Type 0 where
  pub layout : Layout text 0 plan
  pub tokens : All (λ r. IsTokenText r.token) plan
  pub mappings : List TokenMapping
  pub mapped : build_mappings background plan ≡ ok (background, mappings)

-- From plans of spans of whole characters of a valid text, each with its own text and a kind that
-- is spelled with small letters and `_`, `CombinePlans` makes a plan, if the context does not end:
-- its replacements lie one behind the other, each has a token of the form `<KIND_N>`, and no token
-- stands for two texts or kinds.
pub combine_plans-IsReady :
    (text : Bytes) (ml backend : List Replacement) (policy : Policy)
    → valid_string text ≡ true
    → All (IsGood text) ml
    → All (IsGood text) backend
    → (plan : List Replacement) × (combine_plans background text ml backend policy
        ≡ ok (background, plan))
      × IsReady text plan
combine_plans-IsReady text ml backend policy v g h =
    let (kept, run, good) =
      accepted-IsGood text policy (ml ++ backend) (All-append (IsGood text) ml backend g h) in
    let candidates = sort candidate_less (dedupe kept) in
    let (selected, run', good') =
      select_from-IsGood text v [] candidates tt (
        All-sort candidate_less (IsGood text) (dedupe kept) (dedupe-All (IsGood text) kept good)) in
    let sorted = sort plan_before selected in
    let spans = All-sort plan_before (IsGood text) selected good' in
    let plan = normalize_from (new_allocator text) sorted in
    let named =
      normalize_from-Normalized (new_allocator text) sorted (new_allocator-IsSound text)
        (kinds text sorted spans) in
    let tokens = named-IsTokenText named.last plan named.sound named.named in
    let (mappings, mapped) = named-mappings named.last plan named.sound named.named in
    let total : combine_plans background text ml backend policy ≡ ok (background, plan) =
      unfold combine_plans resolve_overlaps normalize_tokens in rw (run, run') refl in
    (
      plan,
      total,
      record {
        layout =
            once-Layout text 0 plan (omega arith)
              (normalize_from-All (IsGood text) (IsGood-token text) (new_allocator text) sorted
                spans)
              (some_token plan tokens)
              (Ordered-normalize (new_allocator text) sorted (
                IsSorted-Ordered plan_before plan_before-start sorted
                  (sort-IsSorted plan_before plan_before_asym selected)))
              (from_start plan)
              (λ x. (combine_plans-covers background text ml backend policy total x).0);
        tokens = tokens;
        mappings = mappings;
        mapped = mapped;
      },
    )
