-- ===== src/Tests.antt =====
-- The theorems at concrete inputs. Here are those of the tokenizer, at a text with an e-mail address
-- and its masked form.
pub mod Sessions
pub mod Splitting
pub mod Pipeline
pub mod Plans
pub mod OneSession
pub mod Service
pub mod Admission
pub mod Scores
use alpha_proxy.Pii.{
  background, ok, err, Replacement, TokenMapping, Session, SessionStatus, Policy, store_unavailable,
  kind_email, kind_phone, kind_inn, source_ml, source_reg,
}
use alpha_proxy.Prelude.{
  ℕ, Bytes, codes, List, [], ◌∷◌, ◌++◌, map, Bool, true, false, Option, none, some, ◌||◌, All, ◌≡◌,
  ◌≢◌, ◌≤◌, ◌<◌, refl, arith, inl, inr, length, bytes_eq, contains,
}
use alpha_proxy.Prelude.Int.{pos, ◌≤ℤ◌}
use alpha_proxy.Processor.{handle_existing, replacement_of}
use alpha_proxy.Processor.Phases.{
  handle_existing-retry, handle_existing-demask, apply_mask_kinds-narrows,
}
use alpha_proxy.Processor.Request.{ProcessRequest, apply_mask_kinds, mask_kinds_match}
use alpha_proxy.Processor.Retry.{apply_replacements-replay}
use alpha_proxy.Store.{MemoryStore, new_memory_store, put_now, update_now, get_now}
use alpha_proxy.Store.Capacity.{
  IsValid, call_put, call_get, run, run-IsValid, live_count, put_now-full,
}
use alpha_proxy.Store.View.{
  PutOutcome, UpdateOutcome, view, found_or_missing, put_now-outcome, update_now-outcome,
  get_now-view,
}
use alpha_proxy.Tokenizer.Allocator.{
  Allocator, new_allocator, allocate, format_token, to_upper, next_number,
}
use alpha_proxy.Tokenizer.Allocator.Format.{IsKindByte, format_token-injective}
use alpha_proxy.Tokenizer.Allocator.Fresh.{next_number-fresh}
use alpha_proxy.Tokenizer.Allocator.Owners.{Allocated, allocate-Allocated}
use alpha_proxy.Tokenizer.Apply.{apply_replacements, build_mappings, mapping_of}
use alpha_proxy.Tokenizer.Apply.Render.{render}
use alpha_proxy.Tokenizer.Apply.Stages.{apply_replacements-ok}
use alpha_proxy.Tokenizer.Detokenizer.{detokenize, token_at}
use alpha_proxy.Tokenizer.Detokenizer.Tokens.{IsTokenText, NoToken}
use alpha_proxy.Tokenizer.Merge.{combine_plans, resolve_overlaps, dedupe}
use alpha_proxy.Tokenizer.Merge.Combined.{permitted, combine_plans-covers, resolve_overlaps-covers}
use alpha_proxy.Tokenizer.Merge.Coverage.{count, covers}
use alpha_proxy.Tokenizer.Merge.Dedupe.{dedupe-covers}
use alpha_proxy.Tokenizer.Priority.{one_of}
use alpha_proxy.Ml.Chunker.{ChunkConfig, TextChunk, split_text, to_runes}
use alpha_proxy.Ml.Chunker.Bounds.{Covering, split_text-Covering}
use alpha_proxy.Ml.Batch.{RequestItem, BatchConfig, take_batch}
use alpha_proxy.Ml.Batch.Limits.{code_points, take_batch-Fits}
use alpha_proxy.Rules.Checksum.{luhn}
use alpha_proxy.Rules.Checksum.Luhn.{luhn_one_byte}
use alpha_proxy.Rules.Spans.{CandidateSpan, source_context}
use alpha_proxy.Rules.Resolver.{resolve, resolve_from}
use alpha_proxy.Rules.Resolver.Pointer.{settle_all, resolve_from-eq-settle_all}
use alpha_proxy.Rules.Resolver.Disjoint.{NoOverlap, resolve-NoOverlap}
use alpha_proxy.Tokenizer.RoundTrip.{detokenize-apply_replacements}

abbrev pub mail_text : Bytes
mail_text = codes "to a@b"

abbrev pub masked_text : Bytes
masked_text = codes "to <EMAIL_1>"

abbrev pub mail : Replacement
mail = record {
  start = pos 3;
  end = pos 6;
  token = codes "<EMAIL_1>";
  original = codes "a@b";
  kind = kind_email;
  source = source_reg;
  confidence = pos 9;
}

-- The part of the address that a second plan found.
abbrev part : Replacement
part = record {
  start = pos 3;
  end = pos 5;
  token = codes "<EMAIL_1>";
  original = codes "a@";
  kind = kind_email;
  source = source_ml;
  confidence = pos 8;
}

abbrev pub mail_mapping : TokenMapping
mail_mapping = record {
  token = codes "<EMAIL_1>";
  original = codes "a@b";
  kind = kind_email;
  source = source_reg;
  start = pos 3;
  end = pos 6;
}

pub masks :
    apply_replacements background mail_text (mail ∷ [])
    ≡ ok (background, masked_text, mail_mapping ∷ [])
unfolding apply_replacements alpha_proxy.Tokenizer.Apply.validate_replacements
    alpha_proxy.Prelude.Sort.sort alpha_proxy.Tokenizer.Apply.validate_one
    alpha_proxy.Tokenizer.Span.validate_span alpha_proxy.Utf8.valid_string
    alpha_proxy.Utf8.following bytes_eq build_mappings alpha_proxy.Tokenizer.Apply.note_token
    alpha_proxy.Prelude.Dict.lookup alpha_proxy.Tokenizer.Apply.build_masked_text
masks = refl

pub is_email_token : IsTokenText (codes "<EMAIL_1>")
unfolding to_upper alpha_proxy.Tokenizer.Detokenizer.is_token alpha_proxy.Prelude.last_index_byte
    alpha_proxy.Tokenizer.Detokenizer.all_bytes
is_email_token = (codes "EMAIL_1", refl, refl)

pub no_token : NoToken mail_text
unfolding token_at
no_token = (refl, (refl, (refl, (refl, (refl, (refl, tt))))))

detokenize-apply_replacements_example :
    detokenize background masked_text (mail_mapping ∷ []) ≡ ok (background, mail_text)
unfolding apply_replacements
detokenize-apply_replacements_example =
    detokenize-apply_replacements background mail_text (mail ∷ []) masks (is_email_token, tt)
      no_token

abbrev pub policy : Policy
policy = record {
  allowed_kinds = λ k. one_of (kind_email ∷ kind_phone ∷ []) k;
  detokenization_allowed = true;
  min_confidence = pos 5;
  masking_strategy = codes "token";
  allow_partial_result = false;
}

combines :
    combine_plans background mail_text (part ∷ []) (mail ∷ []) policy ≡ ok (background, mail ∷ [])
unfolding combine_plans alpha_proxy.Tokenizer.Span.validate_span alpha_proxy.Utf8.valid_string
    alpha_proxy.Utf8.following bytes_eq alpha_proxy.Prelude.Sort.sort
    alpha_proxy.Prelude.Dict.insert alpha_proxy.Tokenizer.Allocator.format_decimal
    alpha_proxy.Prelude.Dict.lookup allocate alpha_proxy.Tokenizer.Allocator.find_token
    new_allocator format_token to_upper next_number contains alpha_proxy.Tokenizer.Allocator.counter
combines = refl

combine_plans-covers_example :
    (count (pos 4) (mail ∷ []) ≤ 1)
    × (covers (pos 4) (mail ∷ []) ≡ covers (pos 4) (permitted policy (part ∷ mail ∷ [])))
combine_plans-covers_example =
    combine_plans-covers background mail_text (part ∷ []) (mail ∷ []) policy combines (pos 4)

resolves : resolve_overlaps background mail_text (part ∷ mail ∷ []) ≡ ok (background, mail ∷ [])
unfolding resolve_overlaps alpha_proxy.Prelude.Sort.sort bytes_eq
resolves = refl

resolve_overlaps-covers_example :
    (count (pos 5) (mail ∷ []) ≤ 1)
    × (covers (pos 5) (mail ∷ []) ≡ covers (pos 5) (part ∷ mail ∷ []))
resolve_overlaps-covers_example =
    resolve_overlaps-covers background mail_text (part ∷ mail ∷ []) resolves (pos 5)

inn_bytes : All IsKindByte kind_inn
inn_bytes = (
  inl (omega arith, omega arith),
  (inl (omega arith, omega arith), (inl (omega arith, omega arith), tt)),
)

allocate-Allocated_example :
    Allocated
      (new_allocator mail_text)
      (allocate (new_allocator mail_text) kind_inn (codes "7")).0
      kind_inn
      (codes "7")
      (allocate (new_allocator mail_text) kind_inn (codes "7")).1
unfolding new_allocator
allocate-Allocated_example =
    allocate-Allocated (new_allocator mail_text) kind_inn (codes "7")
      (record { entries = tt; distinct = tt }) ((λ e. cc), inn_bytes)

next_number-fresh_example :
    contains masked_text (
      format_token (codes "EMAIL") (next_number (length masked_text) masked_text (codes "EMAIL") 1))
    ≡ false
next_number-fresh_example = next_number-fresh masked_text (codes "EMAIL") 1

abbrev seven : ℕ
seven = 7

format_token-injective_example : (kind_inn ≡ kind_inn) × (seven ≡ seven)
format_token-injective_example =
    format_token-injective kind_inn kind_inn seven seven inn_bytes inn_bytes refl

apply_replacements-ok_example :
    apply_replacements background mail_text (mail ∷ [])
    ≡ ok (background, render mail_text 0 (mail ∷ []) (length mail_text), mail_mapping ∷ [])
unfolding build_mappings alpha_proxy.Utf8.valid_string alpha_proxy.Utf8.following bytes_eq
    alpha_proxy.Tokenizer.Apply.note_token alpha_proxy.Prelude.Dict.lookup
apply_replacements-ok_example =
    apply_replacements-ok mail_text (mail ∷ [])
      (
        omega arith,
        record {
          span = record {
            nonneg = refl;
            nonempty = omega arith;
            within = omega arith;
            valid = refl;
          };
          original = refl;
          token = refl;
        },
        omega arith,
      )
      refl
